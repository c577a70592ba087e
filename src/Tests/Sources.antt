-- ===== src/Tests/Sources.antt =====
-- The checks on sources, and the sweeps over the connection table, at concrete inputs.
use wirewolf.Base.{ℕ, true, false, [], ◌∷◌, leb}
use wirewolf.Anomaly.{Monitor, Settings}
use wirewolf.Behavioral.{MarkovModel}
use wirewolf.Reassembly.Behavior.{Behavior, Scorer}
use wirewolf.Tests.Filters.{counting}

abbrev pub inline_settings : Settings
inline_settings = record {
  inline_block = true;
  has_callback = true;
  proxy_db_ = record { data_ = []; strs_ = []; rows_ = 0; ready_ = false };
  std = record { of_u16 = λ n. n; of_u32 = λ n. n; of_size = λ n. n };
}

abbrev pub quiet : Monitor ℕ
quiet = record {
  source_trackers_ = [];
  beacon_trackers_ = [];
  alerted_anomalies_ = [];
  blocklist = record { blocked_ips = []; allowlist_ips = 7 ∷ [] };
  alerts = [];
}

abbrev no_model : MarkovModel
no_model = record { counts_ = []; row_totals_ = []; alphabet_ = []; total_ = 0 }

abbrev pub live_scorer : Scorer counting
live_scorer = record {
  behavioral_ready_ = true;
  beh_export_ = false;
  is_forensic = false;
  proxy_db_ = inline_settings.proxy_db_;
  beh_cfg_ = record {
    byte_buckets = 128 ∷ 1024 ∷ [];
    dur_buckets = 1 ∷ 10 ∷ [];
    gap_buckets = 2 ∷ 60 ∷ [];
  };
  min_flows = 1;
  markov_k = 1;
  beh_botnet_ = no_model;
  beh_normal_ = no_model;
  behavioral_threshold = 0;
  log = λ x. x;
  le = leb;
  hash = λ n. n;
}

abbrev pub nothing_scored : Behavior counting
nothing_scored = record {
  beh_conns_ = [];
  beh_alerted_ = [];
  beh_suspicious_ = [];
  p2p_peers_ = [];
}
