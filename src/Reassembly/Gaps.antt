-- ===== src/Reassembly/Gaps.antt =====
-- src/tcp_reassembly.cpp: when a held segment is taken. The loop walks the `std::map` by rising
-- number and stops at the first segment after the expected one, so it rests on the map's order
-- being the stream's.
use wirewolf.Base.{
  ℕ, ◌+◌, ◌^◌, ◌≤◌, ◌<◌, ◌≡◌, List, [], ◌∷◌, length, All, Bool-cases, inl, inr, true, ltb, ◌==◌,
  ==_iff, if-ind, arith,
}
use wirewolf.Base.Words.{add32}
use wirewolf.Reassembly.Progress.{IsOrdered}
use wirewolf.Reassembly.Seq.{seq_after, seq_after-seq_at, seq_after_irrefl}
use wirewolf.Reassembly.Segments.{
  Segment, Assembly, emplace, absorb, advance, merge, deliver, max_out_of_order,
}
use wirewolf.Reassembly.Stream.{IsSent, IsPrefix, assembly, absorb-IsPrefix, append-IsPrefix}

-- Every held segment starts beyond the expected number: between the two a byte is missing.
abbrev pub HasGap : Assembly → Type 0
HasGap a = All (λ (t : Segment). seq_after t.seq a.expected_seq ≡ true) a.out_of_order_segments

module _ (sent : ℕ → ℕ) (base : ℕ) where
  -- The first 2 GiB of the stream do not wrap.
  abbrev pub Unwrapped : Type 0
  Unwrapped = base + 2 ^ 31 ≤ 2 ^ 32

  above_expected :
      (expected : ℕ) (p : List ℕ) (s : Segment) (ss : List Segment)
      → Unwrapped
      → IsPrefix sent base (assembly sent base p expected (s ∷ ss))
      → seq_after s.seq expected ≡ true
      → All (λ (t : Segment). s.seq < t.seq) ss
      → All (λ (t : Segment). seq_after t.seq expected ≡ true) ss
  above_expected expected p s [] u v later o = tt
  above_expected expected p s (t ∷ ts) u v later o = (
    rw (v.expected_is, v.held.1.0.seq_is)
        ((seq_after-seq_at base v.held.1.0.offset (length p) (omega (arith, v.held.1.0.near))
            v.near).1
          (omega
            (arith, first, v.held.0.seq_is, v.held.1.0.seq_is, v.held.0.near, v.held.1.0.near))),
    above_expected expected p s ts u
        (record {
          payload_is = v.payload_is;
          expected_is = v.expected_is;
          near = v.near;
          held = (v.held.0, v.held.1.1);
        })
        later o.1,
  )
    where
      first : length p < v.held.0.offset
      first =
          (seq_after-seq_at base v.held.0.offset (length p) (omega (arith, v.held.0.near)) v.near).0
            (rw (v.expected_is, v.held.0.seq_is) at later)

  merge-HasGap :
      (p : List ℕ) (expected : ℕ) (ss : List Segment)
      → Unwrapped
      → IsPrefix sent base (assembly sent base p expected ss)
      → IsOrdered ss
      → HasGap (merge p expected ss)
  unfolding merge
  merge-HasGap p expected [] u v o = tt
  merge-HasGap p expected (s ∷ ss) u v o = elim (Bool-cases (seq_after s.seq expected)) [
    | inl later ↦ rw later (later, above_expected expected p s ss u v later o.0)
    | inr due ↦ rw due (
        merge-HasGap (absorb s p expected) (advance s expected) ss u
          (absorb-IsPrefix sent base s p expected ss v.held.0
            (record {
              payload_is = v.payload_is;
              expected_is = v.expected_is;
              near = v.near;
              held = v.held.1;
            })
            due)
          o.1)
  ]

  HasGap-emplace :
      (s : Segment) (expected : ℕ) (ss : List Segment)
      → seq_after s.seq expected ≡ true
      → All (λ (t : Segment). seq_after t.seq expected ≡ true) ss
      → All (λ (t : Segment). seq_after t.seq expected ≡ true) (emplace s ss)
  unfolding emplace
  HasGap-emplace s expected [] h a = (h, tt)
  HasGap-emplace s expected (t ∷ ts) h a = ground (arith, HasGap-emplace s expected ts h a.1)

  -- Where the stream's numbers do not wrap, reassembly is prompt: after each segment of the stream,
  -- every segment still held starts beyond the expected number, so no byte that could follow the
  -- payload is held back.
  pub deliver-HasGap :
      (s : Segment) (a : Assembly)
      → Unwrapped
      → IsSent sent base s
      → IsPrefix sent base a
      → IsOrdered a.out_of_order_segments
      → HasGap a
      → HasGap (deliver s a)
  unfolding deliver
  deliver-HasGap s a u sent_s v o g =
      if-ind HasGap (s.seq == a.expected_seq)
        (λ at.
          merge-HasGap _ _ a.out_of_order_segments u
            (append-IsPrefix sent base s a sent_s v ((==_iff s.seq a.expected_seq).0 at)) o)
        (λ _.
          if-ind HasGap (seq_after s.seq a.expected_seq)
            (λ later.
              if-ind HasGap (ltb (length a.out_of_order_segments) max_out_of_order)
                (λ _. HasGap-emplace s a.expected_seq a.out_of_order_segments later g) (λ _. g))
            (λ _. g))

-- Across a wrap it is not: where the lowest held number belongs past the wrap, after the expected
-- one, a held segment that starts exactly at the expected number is not taken.
pub deliver_wrap_stalls :
    (s t u : Segment) (r : List Segment) (a : Assembly)
    → s.seq ≡ a.expected_seq
    → a.out_of_order_segments ≡ t ∷ u ∷ r
    → u.seq ≡ add32 a.expected_seq (length s.bytes)
    → seq_after t.seq u.seq ≡ true
    → ¬ HasGap (deliver s a)
unfolding deliver merge
deliver_wrap_stalls s t u r a at held next later gap =
    let same : (s.seq == a.expected_seq) ≡ true = ground arith in
    let gap' = simp (same, held, ← next, later) at gap in cc (gap'.1.0, seq_after_irrefl u.seq)
