-- ===== src/Reassembly/Overlap.antt =====
-- src/tcp_reassembly.cpp, `process_ip_packet`: the overlapping-segment evasion check.
use wirewolf.Base.{
  ℕ, zero, suc, ◌+◌, ◌-◌, ◌%◌, ◌^◌, ◌<◌, ◌≡◌, refl, ap, sym, subst, ◌∙◌, Bool, true, false, ◌&&◌,
  not, List, [], ◌∷◌, Option, none, some, length, get_elem?, ltb, leb, ◌==◌, ==_refl, if◌then◌else◌,
  arith,
}
use wirewolf.Base.Words.{u32_mod, sub32}
use wirewolf.Reassembly.Segments.{Segment, Assembly}
use wirewolf.Reassembly.Stream.{slice, IsSent, IsPrefix}

-- `rel + i` where it is not negative; `rel` is the 32-bit pattern of a signed distance.
abbrev stream_position : ℕ → ℕ → Option ℕ
stream_position rel i =
    if ltb rel (2 ^ 31)
    then some (rel + i)
    else if leb (2 ^ 32 - rel) i
    then some (i - (2 ^ 32 - rel))
    else none

-- The bytes compared, and those among them that differ.
pub record Overlap : Type 0 where
  pub overlap_cmp : ℕ
  pub conflict_bytes : ℕ

abbrev compare_byte : Option ℕ → ℕ → Overlap → Overlap
compare_byte none b o = o
compare_byte (some c) b o = record {
  overlap_cmp = o.overlap_cmp + 1;
  conflict_bytes = if c == b then o.conflict_bytes else o.conflict_bytes + 1;
}

abbrev byte_at : List ℕ → Option ℕ → Option ℕ
byte_at payload none = none
byte_at payload (some pos) = get_elem? payload pos

unfoldable pub scan_overlap : ℕ → List ℕ → ℕ → List ℕ → Overlap
scan_overlap rel payload i [] = record { overlap_cmp = 0; conflict_bytes = 0 }
scan_overlap rel payload i (b ∷ bs) =
    compare_byte (byte_at payload (stream_position rel i)) b (scan_overlap rel payload (suc i) bs)

abbrev pub is_empty {ℓ} : {A : Type ℓ} → List A → Bool
is_empty [] = true
is_empty (x ∷ xs) = false

-- The distance from the start of the stream that the segment claims.
unfoldable pub relative_seq : Segment → Assembly → ℕ
relative_seq s a = sub32 s.seq (sub32 a.expected_seq (length a.payload % u32_mod))

-- Only a buffer that is a contiguous prefix is compared.
unfoldable pub has_conflict : Segment → Assembly → Bool
has_conflict s a =
    if not (is_empty a.payload) && is_empty a.out_of_order_segments
    then (let o = scan_overlap (relative_seq s a) a.payload 0 s.bytes in
        leb 8 o.overlap_cmp && leb 4 o.conflict_bytes)
    else false

module _ (sent : ℕ → ℕ) (base : ℕ) where
  get_elem?-slice : (o n j b : ℕ) → get_elem? (slice sent base o n) j ≡ some b → b ≡ sent (o + j)
  get_elem?-slice o zero j b h = ground arith
  get_elem?-slice o (suc n) zero b h = let e : o ≡ o + 0 = omega arith in cc (ap sent e)
  get_elem?-slice o (suc n) (suc j) b h = get_elem?-slice (suc o) n j b h ∙ ap sent (omega arith)

  compare_byte-equal :
      (o : Option ℕ) (b : ℕ) (r : Overlap)
      → ((c : ℕ) → o ≡ some c → c ≡ b)
      → r.conflict_bytes ≡ 0
      → (compare_byte o b r).conflict_bytes ≡ 0
  compare_byte-equal none b r h z = z
  compare_byte-equal (some c) b r h z = rw (h c refl, ==_refl b) z

  scan_overlap-sent :
      (n rel i : ℕ) (bs : List ℕ)
      → rel < 2 ^ 31
      → bs ≡ slice sent base (rel + i) (length bs)
      → (scan_overlap rel (slice sent base 0 n) i bs).conflict_bytes ≡ 0
  unfolding scan_overlap
  scan_overlap-sent n rel i [] h e = refl
  scan_overlap-sent n rel i (b ∷ bs) h e =
      compare_byte-equal (byte_at (slice sent base 0 n) (stream_position rel i)) b _
        (λ c at.
          let head : b ≡ sent (rel + i) = cc in
          let there : stream_position rel i ≡ some (rel + i) = ground arith in
          get_elem?-slice 0 n (rel + i) c (rw there at at) ∙ ap sent (omega arith) ∙ sym head)
        (scan_overlap-sent n rel (suc i) bs h (
          let tail : bs ≡ slice sent base (suc (rel + i)) (length bs) = cc in
          tail ∙ ap (λ o. slice sent base o (length bs)) (omega arith)))

  -- No false alarm: a segment of the stream that is being reassembled, however it overlaps what was
  -- taken, is never reported as an evasion attempt.
  pub has_conflict-sent :
      (s : Segment) (a : Assembly)
      → IsSent sent base s
      → IsPrefix sent base a
      → has_conflict s a ≡ false
  unfolding has_conflict relative_seq
  has_conflict-sent s a sent_s v =
      let n : ℕ = length a.payload in
      let rel : relative_seq s a ≡ sent_s.offset =
        omega (arith, sent_s.seq_is, v.expected_is, sent_s.near, v.near) in
      let equal : (scan_overlap (relative_seq s a) a.payload 0 s.bytes).conflict_bytes ≡ 0 =
        rw rel (
          subst (λ p. (scan_overlap sent_s.offset p 0 s.bytes).conflict_bytes ≡ 0)
            (sym v.payload_is)
            (scan_overlap-sent n sent_s.offset 0 s.bytes (omega (arith, sent_s.near))
              (sent_s.bytes_are ∙ ap (λ o. slice sent base o (length s.bytes)) (omega arith)))) in
      ground (arith, equal)
