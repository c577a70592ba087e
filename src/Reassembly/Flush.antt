-- ===== src/Reassembly/Flush.antt =====
-- src/tcp_reassembly.cpp, `check_complete_flows` and `flush_all_flows`: what becomes of the bytes.
use wirewolf.Base.{
  ℕ, ◌+◌, ◌≡◌, refl, true, false, List, [], ◌∷◌, ◌++◌, length, length-append, if◌then◌else◌,
  Bool-cases, inl, inr, All, arith,
}
use wirewolf.Base.Doubles.{Doubles}
use wirewolf.Packet.{ConnectionId, FlowData}
use wirewolf.Reassembly.Behavior.{Behavior, Scorer}
use wirewolf.Reassembly.Complete.{
  held_bytes, merge_held, is_complete, is_bare, score_flow, complete_flow, check_complete_flows,
  flushed_flow, flush_rest, flush_all_flows,
}
use wirewolf.Reassembly.Conserved.{flow_bytes, is_empty-length}
use wirewolf.Reassembly.Connection.{ConnectionState}
use wirewolf.Reassembly.Expiry.{flow_of, is_suspect}
use wirewolf.Reassembly.Table.{Connections}

-- The bytes of a connection: in the stream, and held back.
abbrev pub all_bytes : {Double : Type 0} → ConnectionState Double → ℕ
all_bytes s = length s.payload + length (held_bytes s.out_of_order_segments)

abbrev pub table_bytes : {Double : Type 0} → Connections Double → ℕ
table_bytes [] = 0
table_bytes ((cid, s) ∷ rest) = all_bytes s + table_bytes rest

-- The bytes that connections without payload and with one packet at most hold back.
abbrev pub bare_bytes : {Double : Type 0} → Connections Double → ℕ
bare_bytes [] = 0
bare_bytes ((cid, s) ∷ rest) =
    (if is_bare s then length (held_bytes s.out_of_order_segments) else 0) + bare_bytes rest

flow_bytes-append :
    {Double : Type 0} (fs gs : List (FlowData Double))
    → flow_bytes (fs ++ gs) ≡ flow_bytes fs + flow_bytes gs
flow_bytes-append [] gs = omega arith
flow_bytes-append (f ∷ fs) gs = omega (arith, flow_bytes-append fs gs)

payload-merge_held :
    {Double : Type 0} (s : ConnectionState Double) → length (merge_held s).payload ≡ all_bytes s
unfolding merge_held
payload-merge_held s = length-append s.payload (held_bytes s.out_of_order_segments)

bare-payload :
    {Double : Type 0} (s : ConnectionState Double) → is_bare s ≡ true → length s.payload ≡ 0
unfolding is_bare
bare-payload s h = is_empty-length s.payload (ground (arith, h))

module _ (r : Doubles) (c : Scorer r) where
  open r use {Double}

  check_complete-conserves :
      (limit : ℕ) (table : Connections Double) (b : Behavior r)
      → table_bytes table
        ≡ flow_bytes (check_complete_flows r c limit table b).flows
          + table_bytes (check_complete_flows r c limit table b).connections
  unfolding check_complete_flows complete_flow flow_of
  check_complete-conserves limit [] b = omega arith
  check_complete-conserves limit ((cid, s) ∷ rest) b = elim (Bool-cases (is_complete limit s)) [
    | inl done ↦ rw done (
        omega (
          arith,
          payload-merge_held s,
          check_complete-conserves limit rest (score_flow r c cid (merge_held s) b),
        ))
    | inr open_ ↦ rw open_ (omega (arith, check_complete-conserves limit rest b))
  ]

  flush_rest-conserves :
      (table : Connections Double) (b : Behavior r)
      → (table_bytes table ≡ flow_bytes (flush_rest r c table b).flows + bare_bytes table)
        × ((flush_rest r c table b).connections ≡ [])
  unfolding flush_rest flushed_flow flow_of
  flush_rest-conserves [] b = (omega arith, refl)
  flush_rest-conserves ((cid, s) ∷ rest) b = elim (Bool-cases (is_bare s)) [
    | inl bare ↦
        let (same, gone) = flush_rest-conserves rest b in
        rw bare (omega (arith, bare-payload s bare, same), gone)
    | inr full ↦
        let (same, gone) = flush_rest-conserves rest (score_flow r c cid (merge_held s) b) in
        rw full (omega (arith, payload-merge_held s, same), gone)
  ]

  abbrev pub AllIncomplete : ℕ → Connections Double → Type 0
  AllIncomplete limit =
      All (λ (x : ConnectionId × ConnectionState Double). is_complete limit x.1 ≡ false)

  check_complete-AllIncomplete :
      (limit : ℕ) (table : Connections Double) (b : Behavior r)
      → AllIncomplete limit (check_complete_flows r c limit table b).connections
  unfolding check_complete_flows
  check_complete-AllIncomplete limit [] b = tt
  check_complete-AllIncomplete limit ((cid, s) ∷ rest) b = elim (Bool-cases (is_complete limit s)) [
    | inl done ↦
        rw done (check_complete-AllIncomplete limit rest (score_flow r c cid (merge_held s) b))
    | inr open_ ↦ rw open_ (open_, check_complete-AllIncomplete limit rest b)
  ]

  -- The sweep over the table hands on every byte, held ones included, of the connections that have
  -- ended or grown past the limit, and keeps the others with theirs.
  pub check_complete-sweeps :
      (limit : ℕ) (table : Connections Double) (b : Behavior r)
      → (table_bytes table
          ≡ flow_bytes (check_complete_flows r c limit table b).flows
            + table_bytes (check_complete_flows r c limit table b).connections)
        × AllIncomplete limit (check_complete_flows r c limit table b).connections
  check_complete-sweeps limit table b =
      (check_complete-conserves limit table b, check_complete-AllIncomplete limit table b)

  pub flush_all-conserves :
      (limit : ℕ) (table : Connections Double) (b : Behavior r)
      → (table_bytes table
          ≡ flow_bytes (flush_all_flows r c limit table b).flows
            + bare_bytes (check_complete_flows r c limit table b).connections)
        × ((flush_all_flows r c limit table b).connections ≡ [])
  unfolding flush_all_flows
  flush_all-conserves limit table b =
      let first = check_complete_flows r c limit table b in
      let last = flush_rest r c first.connections first.behavior in
      let (same, gone) = flush_rest-conserves first.connections first.behavior in
      (
        omega (
          arith,
          same,
          check_complete-conserves limit table b,
          flow_bytes-append first.flows last.flows,
        ),
        gone,
      )

  -- Whatever the models said of a connection, its flow is not tagged as suspect when it is handed on
  -- by the last sweep of a capture.
  pub flush_rest-untagged :
      (table : Connections Double) (b : Behavior r)
      → All (λ (f : FlowData Double). f.behavioral_suspect ≡ false) (flush_rest r c table b).flows
  unfolding flush_rest flushed_flow flow_of is_suspect
  flush_rest-untagged [] b = tt
  flush_rest-untagged ((cid, s) ∷ rest) b = elim (Bool-cases (is_bare s)) [
    | inl bare ↦ rw bare (flush_rest-untagged rest b)
    | inr full ↦ rw full (refl, flush_rest-untagged rest (score_flow r c cid (merge_held s) b))
  ]
