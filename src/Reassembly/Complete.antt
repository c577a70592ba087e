-- ===== src/Reassembly/Complete.antt =====
-- src/tcp_reassembly.cpp, `check_complete_flows` and `flush_all_flows`: the connections that are handed
-- to the filter when they end, and at the end of a capture.
use wirewolf.Base.{ℕ, Bool, false, ◌&&◌, ◌||◌, List, [], ◌∷◌, ◌++◌, length, ltb, if◌then◌else◌}
use wirewolf.Base.Doubles.{Doubles}
use wirewolf.Base.Text.{Bytes}
use wirewolf.Packet.{ConnectionId, FlowData}
use wirewolf.Reassembly.Behavior.{Behavior, Scorer, note_peers, record_and_score_behavioral}
use wirewolf.Reassembly.Connection.{ConnectionState}
use wirewolf.Reassembly.Expiry.{Suspects, flow_of}
use wirewolf.Reassembly.Overlap.{is_empty}
use wirewolf.Reassembly.Segments.{Segment}
use wirewolf.Reassembly.Table.{Connections}

-- The held segments' bytes, by rising sequence number.
unfoldable pub held_bytes : List Segment → Bytes
held_bytes [] = []
held_bytes (s ∷ ss) = s.bytes ++ held_bytes ss

module _ {Double : Type 0} where
  -- The held segments go behind the payload, gaps or not.
  unfoldable pub merge_held : ConnectionState Double → ConnectionState Double
  merge_held s = record s {
    assembly = record s.assembly {
      payload = s.payload ++ held_bytes s.out_of_order_segments;
      out_of_order_segments = [];
    };
  }

  unfoldable pub is_complete : ℕ → ConnectionState Double → Bool
  is_complete max_flow_payload_bytes s =
      s.fin_received || ltb max_flow_payload_bytes (length s.payload)

  -- A connection without payload of which one packet was seen at most.
  unfoldable pub is_bare : ConnectionState Double → Bool
  is_bare s = is_empty s.payload && ltb s.packet_count 2

module _ (r : Doubles) (c : Scorer r) where
  open r use {Double}

  -- What a sweep over the table leaves and hands on; `flows` are the calls of `push`, the first one
  -- first.
  pub record Swept : Type 0 where
    pub connections : Connections Double
    pub flows : List (FlowData Double)
    pub behavior : Behavior r

  -- The flow of a connection that ends.
  unfoldable pub score_flow : ConnectionId → ConnectionState Double → Behavior r → Behavior r
  score_flow cid s b =
      record_and_score_behavioral r c cid
        (record {
          start_time = s.last_packet_time;
          duration = s.inter_arrival_sum;
          tot_bytes = s.length_sum;
        })
        (note_peers r s.payload cid b)

  abbrev suspects_in : Behavior r → Suspects
  suspects_in b = record {
    behavioral_ready_ = c.behavioral_ready_;
    beh_suspicious_ = b.beh_suspicious_;
  }

  unfoldable pub complete_flow :
      ConnectionId → ConnectionState Double → Behavior r → FlowData Double
  complete_flow cid s b = flow_of r c.hash (suspects_in b) cid s

  unfoldable pub check_complete_flows : ℕ → Connections Double → Behavior r → Swept
  check_complete_flows limit [] b = record { connections = []; flows = []; behavior = b }
  check_complete_flows limit ((cid, s) ∷ rest) b =
      let done = is_complete limit s in
      let whole = merge_held s in
      let scored = score_flow cid whole b in
      let later = check_complete_flows limit rest (if done then scored else b) in
      if done
      then record later { flows = complete_flow cid whole scored ∷ later.flows }
      else record later { connections = (cid, s) ∷ later.connections }

  -- The flow of a connection that is flushed is never tagged.
  unfoldable pub flushed_flow : ConnectionId → ConnectionState Double → FlowData Double
  flushed_flow cid s =
      flow_of r c.hash (record { behavioral_ready_ = false; beh_suspicious_ = [] }) cid s

  -- The loop of `flush_all_flows` behind `check_complete_flows`.
  unfoldable pub flush_rest : Connections Double → Behavior r → Swept
  flush_rest [] b = record { connections = []; flows = []; behavior = b }
  flush_rest ((cid, s) ∷ rest) b =
      let bare = is_bare s in
      let whole = merge_held s in
      let later = flush_rest rest (if bare then b else score_flow cid whole b) in
      if bare then later else record later { flows = flushed_flow cid whole ∷ later.flows }

  unfoldable pub flush_all_flows : ℕ → Connections Double → Behavior r → Swept
  flush_all_flows limit table b =
      let first = check_complete_flows limit table b in
      let last = flush_rest first.connections first.behavior in
      record last { flows = first.flows ++ last.flows }
