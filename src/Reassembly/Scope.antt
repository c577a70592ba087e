-- ===== src/Reassembly/Scope.antt =====
-- src/tcp_reassembly.cpp, `record_and_score_behavioral`: what it keeps of the connections it scores.
use wirewolf.Base.{
  ℕ, ◌+◌, ◌≤◌, ◌≡◌, ap, true, false, not, ◌&&◌, ◌==◌, List, [], ◌∷◌, length, ltb→ge, if-ind, All,
  arith,
}
use wirewolf.Anomaly.Address.{is_priv}
use wirewolf.Base.Doubles.{Doubles}
use wirewolf.Base.Maps.{put}
use wirewolf.Behavioral.{Flow}
use wirewolf.Packet.{ConnectionId}
use wirewolf.Reassembly.Blocklist.{insert}
use wirewolf.Reassembly.Behavior.{
  BehConn, Behavior, Scorer, is_in_scope, trim_conns, add_to_conn, score_conn, record_flow,
  record_and_score_behavioral, max_beh_conns,
}

length-put : {A : Type 0} (k : ℕ) (a : A) (m : List (ℕ × A)) → length (put k a m) ≤ length m + 1
unfolding put
length-put k a [] = omega arith
length-put k a ((j, b) ∷ rest) = ground (arith, length-put k a rest)

All-put :
    {A : Type 0} (P : A → Type 0) (k : ℕ) (a : A) (m : List (ℕ × A))
    → P a
    → All (λ (x : ℕ × A). P x.1) m
    → All (λ (x : ℕ × A). P x.1) (put k a m)
unfolding put
All-put P k a [] p h = (p, h)
All-put P k a ((j, b) ∷ rest) p h =
    if-ind (All (λ x. P x.1)) (j == k) (λ _. (p, h.1)) λ _. (h.0, All-put P k a rest p h.1)

module _ (r : Doubles) where
  -- What a scored connection is in live mode, and how much is kept.
  pub record IsOutbound (bc : BehConn r) : Type 0 where
    pub from_inside : is_priv bc.src ≡ true
    pub to_outside : is_priv bc.dst ≡ false

  pub record IsScoped (b : Behavior r) : Type 0 where
    pub all_outbound : All (λ (x : ℕ × BehConn r). IsOutbound x.1) b.beh_conns_
    pub conns_bounded : length b.beh_conns_ ≤ max_beh_conns r + 1
    pub suspects_are_alerted : b.beh_suspicious_ ≡ b.beh_alerted_

  module _ (c : Scorer r) where
    in_scope-IsOutbound :
        (id : ConnectionId) (b : Behavior r)
        → is_in_scope r c id b ≡ true
        → (is_priv id.src_ip ≡ true) × (is_priv id.dst_ip ≡ false)
    unfolding is_in_scope
    in_scope-IsOutbound id b h = (ground (arith, h), ground (arith, h))

    score_conn-IsScoped :
        (key : ℕ) (bc : BehConn r) (b : Behavior r)
        → IsScoped b
        → IsScoped (score_conn r c key bc b)
    unfolding score_conn
    score_conn-IsScoped key bc b h =
        if-ind IsScoped _ (λ _. h)
          λ _. record {
            all_outbound = h.all_outbound;
            conns_bounded = h.conns_bounded;
            suspects_are_alerted = ap (insert key) h.suspects_are_alerted;
          }

    trim_conns-bounded :
        (b : Behavior r)
        → IsScoped b
        → All (λ (x : ℕ × BehConn r). IsOutbound x.1) (trim_conns r c b.beh_conns_)
          × (length (trim_conns r c b.beh_conns_) ≤ max_beh_conns r)
    unfolding trim_conns
    trim_conns-bounded b h =
        if-ind
          (λ (l : List (ℕ × BehConn r)).
            All (λ (x : ℕ × BehConn r). IsOutbound x.1) l × (length l ≤ max_beh_conns r))
          _ (λ _. (tt, omega arith)) λ few. (h.all_outbound, ltb→ge _ _ few)

    record_flow-IsScoped :
        (id : ConnectionId) (f : Flow r) (b : Behavior r)
        → is_priv id.src_ip ≡ true
        → is_priv id.dst_ip ≡ false
        → IsScoped b
        → IsScoped (record_flow r c id f b)
    unfolding record_flow add_to_conn
    record_flow-IsScoped id f b inside outside h =
        let (kept, few) = trim_conns-bounded b h in
        let noted : IsScoped _ = record {
          all_outbound =
              All-put IsOutbound _ _ (trim_conns r c b.beh_conns_)
                (record { from_inside = inside; to_outside = outside }) kept;
          conns_bounded = omega (arith, few, length-put _ _ (trim_conns r c b.beh_conns_));
          suspects_are_alerted = h.suspects_are_alerted;
        } in
        if-ind IsScoped c.beh_export_ (λ _. noted) λ _. score_conn-IsScoped _ _ _ noted

    record_and_score-IsScoped :
        (id : ConnectionId) (f : Flow r) (b : Behavior r)
        → c.is_forensic ≡ false
        → c.beh_export_ ≡ false
        → IsScoped b
        → IsScoped (record_and_score_behavioral r c id f b)
    unfolding record_and_score_behavioral
    record_and_score-IsScoped id f b live scoring h =
        if-ind IsScoped (not c.behavioral_ready_ && not c.beh_export_) (λ _. h)
          λ _.
            if-ind IsScoped ((not c.beh_export_ && not c.is_forensic) && not (is_in_scope r c id b))
              (λ _. h)
              λ go.
                let (inside, outside) =
                  in_scope-IsOutbound id b (ground (arith, go, live, scoring)) in
                record_flow-IsScoped id f b inside outside h

    -- A sequence of finished connections, the latest first.
    unfoldable pub record_all : List (ConnectionId × Flow r) → Behavior r → Behavior r
    record_all [] b = b
    record_all ((id, f) ∷ fs) b = record_and_score_behavioral r c id f (record_all fs b)

    -- In live mode, whatever connections end: the ones that are kept and scored lead from a private
    -- address to a public one, at most 100001 are kept, and the suspects are the alerted keys.
    pub record_all-IsScoped :
        (fs : List (ConnectionId × Flow r)) (b : Behavior r)
        → c.is_forensic ≡ false
        → c.beh_export_ ≡ false
        → IsScoped b
        → IsScoped (record_all fs b)
    unfolding record_all
    record_all-IsScoped [] b live scoring h = h
    record_all-IsScoped ((id, f) ∷ fs) b live scoring h =
        record_and_score-IsScoped id f (record_all fs b) live scoring
          (record_all-IsScoped fs b live scoring h)
