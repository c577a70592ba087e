-- ===== src/Reassembly/Conserved.antt =====
-- src/tcp_reassembly.cpp: the periodic eviction loses no bytes.
use wirewolf.Base.{
  ℕ, ◌+◌, ◌≡◌, refl, true, false, List, [], ◌∷◌, length, if-ind, All, Bool-cases, ◌⊎◌, inl, inr,
  arith,
}
use wirewolf.Base.Doubles.{Doubles}
use wirewolf.Packet.{ConnectionId, FlowData}
use wirewolf.Reassembly.Connection.{ConnectionState}
use wirewolf.Reassembly.Overlap.{is_empty}
use wirewolf.Reassembly.Table.{Connections}
use wirewolf.Reassembly.Expiry.{
  Suspects, Evicted, flow_of, is_stale, add_flow, expire, evict_stale_connections,
}

pub is_empty-length : (l : List ℕ) → is_empty l ≡ true → length l ≡ 0
is_empty-length [] h = refl
is_empty-length (x ∷ xs) h = ground (arith, h)

abbrev pub stream_bytes : {Double : Type 0} → Connections Double → ℕ
stream_bytes [] = 0
stream_bytes ((cid, s) ∷ rest) = length s.payload + stream_bytes rest

abbrev pub flow_bytes : {Double : Type 0} → List (FlowData Double) → ℕ
flow_bytes [] = 0
flow_bytes (f ∷ fs) = length f.reassembled_payload + flow_bytes fs

module _ (r : Doubles) (hash : ℕ → ℕ) where
  open r use {Double, of_ℕ, sub, lt}

  flow_bytes-add_flow :
      (b : Suspects) (cid : ConnectionId) (s : ConnectionState Double)
      (flows : List (FlowData Double))
      → flow_bytes (add_flow r hash b cid s flows) ≡ length s.payload + flow_bytes flows
  unfolding add_flow flow_of
  flow_bytes-add_flow b cid s flows =
      if-ind (λ (l : List (FlowData Double)). flow_bytes l ≡ length s.payload + flow_bytes flows)
        (is_empty s.payload) (λ empty. omega (arith, is_empty-length s.payload empty))
        (λ data_in. refl)

  abbrev pub AllActive : Double → Connections Double → Type 0
  AllActive now =
      All (λ (c : ConnectionId × ConnectionState Double). is_stale r hash now c.1 ≡ false)

  expire-conserves :
      (b : Suspects) (now : Double) (table : Connections Double)
      → AllActive now (expire r hash b now table).connections
        × (stream_bytes table
            ≡ stream_bytes (expire r hash b now table).connections
              + flow_bytes (expire r hash b now table).flows)
  unfolding expire
  expire-conserves b now [] = (tt, omega arith)
  expire-conserves b now ((cid, s) ∷ rest) =
      let (active_rest, same) = expire-conserves b now rest in
      elim (Bool-cases (is_stale r hash now s)) [
        | inl stale ↦ rw stale (
          active_rest,
          omega (arith, same, flow_bytes-add_flow b cid s (expire r hash b now rest).flows),
        )
        | inr active ↦ rw active ((active, active_rest), omega (arith, same))
      ]

  -- The periodic eviction loses no byte of a stream: those in the table before are those in the
  -- table after and in the flows handed on. When it is due, only connections that are not stale
  -- stay; when it is not, the table is unchanged.
  pub evict_stale_connections-conserves :
      (b : Suspects) (now last : Double) (table : Connections Double)
      → (stream_bytes table
          ≡ stream_bytes (evict_stale_connections r hash b now last table).connections
            + flow_bytes (evict_stale_connections r hash b now last table).flows)
        × (AllActive now (evict_stale_connections r hash b now last table).connections
            ⊎ ((lt (sub now last) (of_ℕ 60) ≡ true)
                × ((evict_stale_connections r hash b now last table).connections ≡ table)))
  unfolding evict_stale_connections
  evict_stale_connections-conserves b now last table =
      if-ind
        (λ (e : Evicted Double).
          (stream_bytes table ≡ stream_bytes e.connections + flow_bytes e.flows)
          × (AllActive now e.connections
              ⊎ ((lt (sub now last) (of_ℕ 60) ≡ true) × (e.connections ≡ table))))
        (lt (sub now last) (of_ℕ 60)) (λ soon. (omega arith, inr (soon, refl)))
        (λ due. let (active, same) = expire-conserves b now table in (same, inl active))
