-- ===== src/Config.antt =====
-- include/config.hpp: the settings, the command line and the operating mode.
use wirewolf.Base.{
  ℕ, ◌+◌, ◌-◌, Bool, true, false, not, ◌&&◌, ◌||◌, List, [], ◌∷◌, ◌++◌, Option, none, some, length,
  drop, ltb, leb, ◌==◌, if◌then◌else◌,
}
use wirewolf.Base.Doubles.{Doubles}
use wirewolf.Base.Text.{Bytes, codes, eq_bytes}
pub mod Ranges

pub data AnalysisMode : Type 0 where
  auto live forensic : AnalysisMode

-- An `int`: `pos n` is n, `negsuc n` is -(n + 1).
pub data ℤ : Type 0 where
  pos negsuc : ℕ → ℤ

-- What `std::stoi` and its like give: a number, or an exception and its `what()`.
pub data Number (A : Type 0) : Type 0 where
  number : A → Number A
  throws : Bytes → Number A

pub record WirewolfConfig (Double : Type 0) : Type 0 where
  pub queue_capacity : ℕ
  pub max_flow_payload_bytes : ℕ
  pub entropy_high_threshold : Double
  pub entropy_low_threshold : Double
  pub variance_threshold : Double
  pub inter_arrival_floor : Double
  pub min_packet_count_for_flood : ℕ
  pub min_payload_for_low_entropy : ℕ
  pub openvino_enabled : Bool
  pub npu_threshold : Double
  pub payload_char_limit : ℕ
  pub max_tokens : ℤ
  pub max_llm_flows : ℕ
  pub max_prompt_tokens : ℤ
  pub n_gpu_layers : ℤ
  pub context_size : ℕ
  pub threat_proxy_db : Bytes
  pub promiscuous : Bool
  pub analysis_mode : AnalysisMode
  pub use_windivert : Bool
  pub inline_block : Bool
  pub windivert_filter : Bytes
  pub block_allowlist : Bytes
  pub rules_dir : Bytes
  pub behavioral_models_dir : Bytes
  pub behavioral_threshold : Double
  pub log_level : ℤ
  pub interface : Bytes
  pub openvino_model_path : Bytes
  pub llama_model_path : Bytes
  pub parse_error : Bytes

-- The number parsers of the standard library.
pub record Numbers (Double : Type 0) : Type 0 where
  pub stoi : Bytes → Number ℤ
  pub stoull : Bytes → Number ℕ
  pub stof : Bytes → Number Double
  pub stod : Bytes → Number Double

abbrev pub is_nil {ℓ} : {A : Type ℓ} → List A → Bool
is_nil [] = true
is_nil (x ∷ xs) = false

-- Whether the loop goes on.
pub data Outcome (Double : Type 0) : Type 0 where
  goes_on returns : WirewolfConfig Double → Outcome Double

abbrev ends_with : Bytes → Bytes → Bool
ends_with s suffix =
    leb (length suffix) (length s) && eq_bytes (drop (length s - length suffix) s) suffix

abbrev resolve_mode : AnalysisMode → Bool → Bool
resolve_mode forensic offline = true
resolve_mode live offline = false
resolve_mode auto offline = offline

module _ {Double : Type 0} where
  abbrev fails : Bytes → WirewolfConfig Double → Outcome Double
  fails message cfg = returns (record cfg { parse_error = message })

  abbrev caught : Bytes → WirewolfConfig Double → Outcome Double
  caught what = fails (codes "Invalid argument: " ++ what)

  unfoldable pub set_log_level : Number ℤ → WirewolfConfig Double → Outcome Double
  set_log_level (throws what) cfg = caught what cfg
  set_log_level (number (negsuc n)) cfg =
      fails (codes "log-level must be 0-3") (record cfg { log_level = negsuc n })
  set_log_level (number (pos n)) cfg =
      let cfg' = record cfg { log_level = pos n } in
      if ltb 3 n then fails (codes "log-level must be 0-3") cfg' else goes_on cfg'

  unfoldable pub set_queue_capacity : Number ℕ → WirewolfConfig Double → Outcome Double
  set_queue_capacity (throws what) cfg = caught what cfg
  set_queue_capacity (number n) cfg =
      let cfg' = record cfg { queue_capacity = n } in
      if n == 0 then fails (codes "queue-capacity must be > 0") cfg' else goes_on cfg'

  unfoldable pub set_payload_limit : Number ℕ → WirewolfConfig Double → Outcome Double
  set_payload_limit (throws what) cfg = caught what cfg
  set_payload_limit (number n) cfg =
      let cfg' = record cfg { payload_char_limit = n } in
      if n == 0 then fails (codes "payload-limit must be > 0") cfg' else goes_on cfg'

  unfoldable pub set_max_tokens : Number ℤ → WirewolfConfig Double → Outcome Double
  set_max_tokens (throws what) cfg = caught what cfg
  set_max_tokens (number (negsuc n)) cfg =
      fails (codes "max-tokens must be > 0") (record cfg { max_tokens = negsuc n })
  set_max_tokens (number (pos n)) cfg =
      let cfg' = record cfg { max_tokens = pos n } in
      if n == 0 then fails (codes "max-tokens must be > 0") cfg' else goes_on cfg'

  unfoldable pub set_max_llm_flows : Number ℕ → WirewolfConfig Double → Outcome Double
  set_max_llm_flows (throws what) cfg = caught what cfg
  set_max_llm_flows (number n) cfg = goes_on (record cfg { max_llm_flows = n })

  unfoldable pub set_max_flow_size : Number ℕ → WirewolfConfig Double → Outcome Double
  set_max_flow_size (throws what) cfg = caught what cfg
  set_max_flow_size (number n) cfg =
      let cfg' = record cfg { max_flow_payload_bytes = n } in
      if n == 0 then fails (codes "max-flow-size must be > 0") cfg' else goes_on cfg'

  unfoldable pub set_entropy_high : Number Double → WirewolfConfig Double → Outcome Double
  set_entropy_high (throws what) cfg = caught what cfg
  set_entropy_high (number x) cfg = goes_on (record cfg { entropy_high_threshold = x })

  unfoldable pub set_entropy_low : Number Double → WirewolfConfig Double → Outcome Double
  set_entropy_low (throws what) cfg = caught what cfg
  set_entropy_low (number x) cfg = goes_on (record cfg { entropy_low_threshold = x })

  unfoldable pub set_behavioral_threshold : Number Double → WirewolfConfig Double → Outcome Double
  set_behavioral_threshold (throws what) cfg = caught what cfg
  set_behavioral_threshold (number x) cfg = goes_on (record cfg { behavioral_threshold = x })

  unfoldable pub set_mode : Bytes → WirewolfConfig Double → Outcome Double
  set_mode m cfg =
      if eq_bytes m (codes "live")
      then goes_on (record cfg { analysis_mode = live })
      else if eq_bytes m (codes "forensic")
      then goes_on (record cfg { analysis_mode = forensic })
      else if eq_bytes m (codes "auto")
      then goes_on (record cfg { analysis_mode = auto })
      else fails (codes "mode must be live|forensic|auto") cfg

  -- The options that take no value; any other argument is passed over.
  unfoldable pub set_flag : Bytes → WirewolfConfig Double → WirewolfConfig Double
  set_flag arg cfg =
      if eq_bytes arg (codes "--openvino")
      then record cfg { openvino_enabled = true }
      else if eq_bytes arg (codes "--no-promisc")
      then record cfg { promiscuous = false }
      else cfg

  -- The options that take the next argument; `none` for any other argument.
  unfoldable pub set_option :
      Numbers Double → Bytes → Bytes → WirewolfConfig Double → Option (Outcome Double)
  set_option n arg value cfg =
      if eq_bytes arg (codes "--log-level")
      then some (set_log_level (n.stoi value) cfg)
      else if eq_bytes arg (codes "--queue-capacity")
      then some (set_queue_capacity (n.stoull value) cfg)
      else if eq_bytes arg (codes "--payload-limit")
      then some (set_payload_limit (n.stoull value) cfg)
      else if eq_bytes arg (codes "--max-tokens")
      then some (set_max_tokens (n.stoi value) cfg)
      else if eq_bytes arg (codes "--max-llm-flows")
      then some (set_max_llm_flows (n.stoull value) cfg)
      else if eq_bytes arg (codes "--max-flow-size")
      then some (set_max_flow_size (n.stoull value) cfg)
      else if eq_bytes arg (codes "--entropy-high")
      then some (set_entropy_high (n.stof value) cfg)
      else if eq_bytes arg (codes "--entropy-low")
      then some (set_entropy_low (n.stof value) cfg)
      else if eq_bytes arg (codes "--behavioral-models")
      then some (goes_on (record cfg { behavioral_models_dir = value }))
      else if eq_bytes arg (codes "--behavioral-threshold")
      then some (set_behavioral_threshold (n.stod value) cfg)
      else if eq_bytes arg (codes "--mode")
      then some (set_mode value cfg)
      else none

  abbrev pub resume :
      Option (Outcome Double)
      → (WirewolfConfig Double → WirewolfConfig Double)
      → (WirewolfConfig Double → WirewolfConfig Double)
      → WirewolfConfig Double
      → WirewolfConfig Double
  resume none passed taken cfg = passed cfg
  resume (some (goes_on cfg')) passed taken cfg = taken cfg'
  resume (some (returns cfg')) passed taken cfg = cfg'

  -- The loop over the arguments. An option in the last place has no value, so it is passed over.
  unfoldable pub parse_options :
      Numbers Double → List Bytes → WirewolfConfig Double → WirewolfConfig Double
  parse_options n [] cfg = cfg
  parse_options n (arg ∷ []) cfg = set_flag arg cfg
  parse_options n (arg ∷ value ∷ rest) cfg =
      resume (set_option n arg value cfg) (λ c. parse_options n (value ∷ rest) (set_flag arg c))
        (λ c. parse_options n rest c) cfg

  -- `parse`, on a configuration with the defaults and `argv`.
  unfoldable pub parse : Numbers Double → WirewolfConfig Double → List Bytes → WirewolfConfig Double
  parse n defaults (program ∷ source ∷ model ∷ llama ∷ args) =
      parse_options n args (record defaults {
        interface = source;
        openvino_model_path = model;
        llama_model_path = llama;
      })
  parse n defaults _ = defaults

  unfoldable pub valid : WirewolfConfig Double → Bool
  valid cfg =
      if not (is_nil cfg.parse_error) || is_nil cfg.llama_model_path
      then false
      else if not cfg.use_windivert && is_nil cfg.interface
      then false
      else if cfg.openvino_enabled && is_nil cfg.openvino_model_path
      then false
      else true

  unfoldable pub is_offline_capture : WirewolfConfig Double → Bool
  is_offline_capture cfg =
      ends_with cfg.interface (codes ".pcap") || ends_with cfg.interface (codes ".pcapng")

  unfoldable pub is_forensic : WirewolfConfig Double → Bool
  is_forensic cfg = resolve_mode cfg.analysis_mode (is_offline_capture cfg)

module _ (r : Doubles) where
  open r use {Double}

  -- The settings before the command line.
  unfoldable pub defaults : WirewolfConfig Double
  defaults = record {
    queue_capacity = 1024;
    max_flow_payload_bytes = 1048576;
    entropy_high_threshold = r.of_ℕ 7;
    entropy_low_threshold = r.of_ℕ 1;
    variance_threshold = r.of_ℕ 50000;
    inter_arrival_floor = r.div (r.of_ℕ 5) (r.of_ℕ 10000);
    min_packet_count_for_flood = 50;
    min_payload_for_low_entropy = 512;
    openvino_enabled = false;
    npu_threshold = r.div (r.of_ℕ 1) (r.of_ℕ 2);
    payload_char_limit = 2048;
    max_tokens = pos 512;
    max_llm_flows = 0;
    max_prompt_tokens = pos 7000;
    n_gpu_layers = pos 99;
    context_size = 8192;
    threat_proxy_db = [];
    promiscuous = true;
    analysis_mode = auto;
    use_windivert = false;
    inline_block = false;
    windivert_filter = codes "tcp";
    block_allowlist = [];
    rules_dir = [];
    behavioral_models_dir = [];
    behavioral_threshold = r.of_ℕ 0;
    log_level = pos 1;
    interface = [];
    openvino_model_path = [];
    llama_model_path = [];
    parse_error = [];
  }
