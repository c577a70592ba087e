-- ===== src/Tests/Filters.antt =====
-- The filter's worker at concrete flows.
use wirewolf.Base.{
  ℕ, ◌+◌, ◌-◌, ◌*◌, ◌/◌, ◌≤◌, ◌≡◌, refl, ◌↔◌, ◌⊎◌, true, false, List, [], ◌∷◌, length, take, ltb,
}
use wirewolf.Base.Doubles.{Doubles}
use wirewolf.Base.Text.{Bytes, codes}
use wirewolf.Filter.{detect_heartbleed, is_heartbleed}
use wirewolf.Filter.Accounts.{IsAccounted, worker_loop-IsAccounted}
use wirewolf.Filter.Decide.{Setup}
use wirewolf.Filter.Dedup.{heartbleed_key}
use wirewolf.Filter.Escalation.{handle-EscalatesUnder}
use wirewolf.Filter.Rat.{detect_rat_protocol, standard_port, delim_count}
use wirewolf.Filter.Signals.{detect_rat_protocol_iff}
use wirewolf.Filter.Worker.{start, trim_seen, handle, worker_loop}
use wirewolf.Packet.{FlowData}
use wirewolf.Reassembly.Blocklist.{contains}

abbrev pub counting : Doubles
counting = record {
  Double = ℕ;
  of_ℕ = λ n. n;
  add = λ a b. a + b;
  sub = λ a b. a - b;
  mul = λ a b. a * b;
  div = λ a b. a / b;
  lt = ltb;
}

abbrev plain_setup : Setup ℕ
plain_setup = record {
  feed = record {
    bad_ja3_ = [];
    bad_domains_ = [];
    bad_ips_ = [];
    signatures_ = [];
    loaded_dir_ = [];
  };
  cfg = record {
    entropy_high_threshold = 7;
    entropy_low_threshold = 1;
    variance_threshold = 50000;
    inter_arrival_floor = 0;
    min_packet_count_for_flood = 50;
    min_payload_for_low_entropy = 512;
  };
  is_forensic = true;
  log2 = λ x. x;
  to_float = λ x. x;
  byte_before_literal = 0;
  std = record { of_u16 = λ n. n; of_u32 = λ n. n; of_size = λ n. n };
}

abbrev pub flow_with : Bytes → FlowData ℕ
flow_with payload = record {
  id = record { src_ip = 1; dst_ip = 2; src_port = 3; dst_port = 4 };
  reassembled_payload = payload;
  normalized_payload = [];
  protocol_tag = [];
  tls_sni = [];
  tls_ja3 = [];
  timestamp = 0;
  inter_arrival_time = 0;
  length_variance = 0;
  packet_count = 1;
  behavioral_suspect = false;
}

abbrev heartbeat_flow : FlowData ℕ
heartbeat_flow = flow_with (0x18 ∷ 3 ∷ 2 ∷ 0 ∷ 3 ∷ 1 ∷ 0x40 ∷ 0 ∷ [])

abbrev rat_flow : FlowData ℕ
rat_flow = flow_with (codes "cap|'|'|ZG9n|'|'|now|'|'|end")

abbrev some_flows : List (FlowData ℕ)
some_flows = flow_with [] ∷ heartbeat_flow ∷ heartbeat_flow ∷ []

worker_loop-IsAccounted_example :
    IsAccounted (length some_flows) (worker_loop counting plain_setup some_flows (start true))
worker_loop-IsAccounted_example = worker_loop-IsAccounted counting plain_setup true some_flows

heartbeat_flow_is_malformed : detect_heartbleed heartbeat_flow.reassembled_payload ≡ true
unfolding detect_heartbleed is_heartbleed
heartbeat_flow_is_malformed = refl

handle-EscalatesUnder_example :
    (length (handle counting plain_setup heartbeat_flow (start true)).pushed
      ≡ length (start {Double = ℕ} true).pushed + 1)
    ⊎ (contains
          (trim_seen {Double = ℕ} (start true)).seen_payload_hashes_
          (heartbleed_key plain_setup.std heartbeat_flow.id)
        ≡ true)
handle-EscalatesUnder_example =
    handle-EscalatesUnder counting plain_setup heartbeat_flow (start true)
      heartbeat_flow_is_malformed

detect_rat_protocol_iff_example : (detect_rat_protocol rat_flow ≡ true) ↔ (
    (20 ≤ length rat_flow.reassembled_payload)
    × (standard_port rat_flow.id ≡ false)
    × (3 ≤ delim_count (take 4096 rat_flow.reassembled_payload)))
detect_rat_protocol_iff_example = detect_rat_protocol_iff rat_flow
