-- ===== src/Reassembly/Expiry.antt =====
-- src/tcp_reassembly.cpp: the connections that `evict_stale_state` takes out of the table, and the
-- flows that it hands to the filter. `push` of the output queue is called once for each flow, in
-- the order of the list.
use Prim.Native.Nat.{bit_xor}
use wirewolf.Base.{ℕ, ◌+◌, ◌-◌, ◌*◌, ◌/◌, ◌%◌, ◌^◌, Bool, ◌&&◌, List, [], ◌∷◌, ltb, if◌then◌else◌}
use wirewolf.Base.Doubles.{Doubles}
use wirewolf.Packet.{ConnectionId, FlowData}
use wirewolf.Reassembly.Blocklist.{contains}
use wirewolf.Reassembly.Connection.{ConnectionState}
use wirewolf.Reassembly.Overlap.{is_empty}
use wirewolf.Reassembly.Table.{Connections}

-- The verdicts of the behavioral model, by key.
pub record Suspects : Type 0 where
  pub behavioral_ready_ : Bool
  pub beh_suspicious_ : List ℕ

-- `hash` is `std::hash` on 64-bit numbers.
module _ (hash : ℕ → ℕ) where
  unfoldable pub mix_key : ℕ → ℕ → ℕ
  mix_key key v = bit_xor key ((hash v + 0x9e3779b97f4a7c15 + key * 64 % 2 ^ 64 + key / 4) % 2 ^ 64)

  unfoldable pub beh_key : ConnectionId → ℕ
  beh_key id = mix_key (mix_key (mix_key 0 id.src_ip) id.dst_ip) id.dst_port

  unfoldable pub is_suspect : Suspects → ConnectionId → Bool
  is_suspect b id = b.behavioral_ready_ && contains b.beh_suspicious_ (beh_key id)

-- What is left of the table, and the flows handed on.
pub record Evicted (Double : Type 0) : Type 0 where
  pub last_eviction_time : Double
  pub connections : Connections Double
  pub flows : List (FlowData Double)

module _ (r : Doubles) (hash : ℕ → ℕ) where
  open r use {Double, of_ℕ, sub, mul, div, lt}

  unfoldable pub flow_of : Suspects → ConnectionId → ConnectionState Double → FlowData Double
  flow_of b cid s =
      let count = of_ℕ s.packet_count in
      let mean_len = div (of_ℕ s.length_sum) count in
      record {
        id = cid;
        reassembled_payload = s.payload;
        normalized_payload = [];
        protocol_tag = [];
        tls_sni = [];
        tls_ja3 = [];
        timestamp = s.last_packet_time;
        inter_arrival_time =
            if ltb 1 s.packet_count
            then div s.inter_arrival_sum (of_ℕ (s.packet_count - 1))
            else of_ℕ 0;
        length_variance = sub (div (of_ℕ s.length_sq_sum) count) (mul mean_len mean_len);
        packet_count = s.packet_count;
        behavioral_suspect = is_suspect hash b cid;
      }

  unfoldable pub is_stale : Double → ConnectionState Double → Bool
  is_stale now s = lt (of_ℕ 120) (sub now s.last_packet_time)

  unfoldable pub add_flow :
      Suspects
      → ConnectionId
      → ConnectionState Double
      → List (FlowData Double)
      → List (FlowData Double)
  add_flow b cid s flows = if is_empty s.payload then flows else (flow_of b cid s ∷ flows)

  -- The loop over the table.
  unfoldable pub expire : Suspects → Double → Connections Double → Evicted Double
  expire b now [] = record { last_eviction_time = now; connections = []; flows = [] }
  expire b now ((cid, s) ∷ rest) =
      let later = expire b now rest in
      if is_stale now s
      then record later { flows = add_flow b cid s later.flows }
      else record later { connections = (cid, s) ∷ later.connections }

  unfoldable pub evict_stale_connections :
      Suspects → Double → Double → Connections Double → Evicted Double
  evict_stale_connections b now last table =
      if lt (sub now last) (of_ℕ 60)
      then record { last_eviction_time = last; connections = table; flows = [] }
      else expire b now table
