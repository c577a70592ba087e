-- ===== src/Capi/Settings.antt =====
-- src/wirewolf_capi.cpp: the setters of the configuration. The level that `set_config_log_level` also
-- hands to the logger is left out.
use wirewolf.Base.{ℕ, zero, suc, Bool, true, false, List, [], ◌∷◌, Option, none, some}
use wirewolf.Base.Text.{Bytes}
use wirewolf.Capi.{WirewolfInstance}
use wirewolf.Config.{WirewolfConfig, AnalysisMode, ℤ, pos, negsuc}

-- A setter with its argument; a string that is null is `none`.
pub data Setter (Double : Type 0) : Type 0 where
  interface llama_model openvino_model windivert_filter rules_dir threat_db block_allowlist :
      Option Bytes → Setter Double
  openvino_enabled windivert inline_block log_level max_tokens gpu_layers mode : ℤ → Setter Double
  queue_capacity payload_limit context_size : ℕ → Setter Double
  behavioral : Option Bytes → Double → Setter Double

abbrev is_set : ℤ → Bool
is_set (pos zero) = false
is_set (pos (suc n)) = true
is_set (negsuc n) = true

abbrev or_empty : Option Bytes → Bytes
or_empty none = []
or_empty (some s) = s

abbrev mode_of : ℤ → AnalysisMode
mode_of (pos (suc zero)) = AnalysisMode.live
mode_of (pos (suc (suc zero))) = AnalysisMode.forensic
mode_of _ = AnalysisMode.auto

module _ {Double : Type 0} where
  abbrev if_given :
      Option Bytes → (Bytes → WirewolfConfig Double) → WirewolfConfig Double → WirewolfConfig Double
  if_given none f cfg = cfg
  if_given (some s) f cfg = f s

  abbrev if_nonzero :
      ℕ → (ℕ → WirewolfConfig Double) → WirewolfConfig Double → WirewolfConfig Double
  if_nonzero zero f cfg = cfg
  if_nonzero (suc n) f cfg = f (suc n)

  abbrev if_positive :
      ℤ → (ℤ → WirewolfConfig Double) → WirewolfConfig Double → WirewolfConfig Double
  if_positive (pos zero) f cfg = cfg
  if_positive (pos (suc n)) f cfg = f (pos (suc n))
  if_positive (negsuc n) f cfg = cfg

  unfoldable pub set_config : Setter Double → WirewolfConfig Double → WirewolfConfig Double
  set_config (Setter.interface iface) cfg = if_given iface (λ s. record cfg { interface = s }) cfg
  set_config (Setter.llama_model path) cfg =
      if_given path (λ s. record cfg { llama_model_path = s }) cfg
  set_config (Setter.openvino_model path) cfg =
      if_given path (λ s. record cfg { openvino_model_path = s }) cfg
  set_config (Setter.windivert_filter filter) cfg =
      if_given filter (λ s. record cfg { windivert_filter = s }) cfg
  set_config (Setter.rules_dir dir) cfg = if_given dir (λ s. record cfg { rules_dir = s }) cfg
  set_config (Setter.threat_db path) cfg =
      if_given path (λ s. record cfg { threat_proxy_db = s }) cfg
  set_config (Setter.block_allowlist csv) cfg =
      if_given csv (λ s. record cfg { block_allowlist = s }) cfg
  set_config (Setter.openvino_enabled n) cfg = record cfg { openvino_enabled = is_set n }
  set_config (Setter.windivert n) cfg = record cfg { use_windivert = is_set n }
  set_config (Setter.inline_block n) cfg = record cfg { inline_block = is_set n }
  set_config (Setter.log_level n) cfg = record cfg { log_level = n }
  set_config (Setter.max_tokens n) cfg = if_positive n (λ m. record cfg { max_tokens = m }) cfg
  set_config (Setter.gpu_layers n) cfg = record cfg { n_gpu_layers = n }
  set_config (Setter.mode n) cfg = record cfg { analysis_mode = mode_of n }
  set_config (Setter.queue_capacity n) cfg =
      if_nonzero n (λ m. record cfg { queue_capacity = m }) cfg
  set_config (Setter.payload_limit n) cfg =
      if_nonzero n (λ m. record cfg { payload_char_limit = m }) cfg
  set_config (Setter.context_size n) cfg = if_nonzero n (λ m. record cfg { context_size = m }) cfg
  set_config (Setter.behavioral dir threshold) cfg = record cfg {
    behavioral_models_dir = or_empty dir;
    behavioral_threshold = threshold;
  }

  abbrev set_on : Setter Double → WirewolfInstance Double → WirewolfInstance Double
  set_on s inst = record inst { config = set_config s inst.config }

  -- A null handle is left alone.
  unfoldable pub call_setter :
      Setter Double → Option (WirewolfInstance Double) → Option (WirewolfInstance Double)
  call_setter s none = none
  call_setter s (some inst) = some (set_on s inst)

  unfoldable pub set_all : List (Setter Double) → WirewolfConfig Double → WirewolfConfig Double
  set_all [] cfg = cfg
  set_all (s ∷ ss) cfg = set_all ss (set_config s cfg)
