-- ===== src/Normalizer.antt =====
-- include/payload_normalizer.hpp: the canonical form of a payload, for detection alone. A loop that
-- moves its index forward by more than one is a recursion on the bytes left, with the number of
-- bytes to pass over.
pub mod Decode
pub mod Fold
use wirewolf.Base.{
  ℕ, zero, suc, Bool, true, false, List, [], ◌∷◌, Option, length, length-take, ◌≤◌, arith, take,
  if◌then◌else◌,
}
use wirewolf.Base.Text.{Bytes}
use Decode.{Decoded, percent_decode_once, length-percent_decode_once}
use Fold.{fold, IsFolded, fold-IsFolded, length-fold}

-- At most `passes` rounds of decoding, until a round changes nothing.
unfoldable pub decode_passes : ℕ → Bytes → Bytes
decode_passes zero s = s
decode_passes (suc passes) s =
    let d = percent_decode_once s in
    let again = decode_passes passes d.out in if d.changed then again else d.out

abbrev pub max_norm : ℕ
max_norm = 65536

unfoldable pub normalize_payload : Bytes → Bytes
normalize_payload raw = fold 0 false (decode_passes 3 (take max_norm raw))

length-decode_passes : (n : ℕ) (s : Bytes) → length (decode_passes n s) ≤ length s
unfolding decode_passes
length-decode_passes zero s = omega arith
length-decode_passes (suc n) s =
    ground (arith, length-percent_decode_once s, length-decode_passes n (percent_decode_once s).out)

-- Whatever the payload: the canonical text is no longer than the payload and than 64 KiB, holds no
-- capital letter and no white space but single blanks, and no two blanks in a row.
pub normalize_payload-IsFolded :
    (raw : Bytes)
    → IsFolded false (normalize_payload raw)
      × (length (normalize_payload raw) ≤ length raw)
      × (length (normalize_payload raw) ≤ max_norm)
unfolding normalize_payload
normalize_payload-IsFolded raw =
    let short = length-take max_norm raw in
    let decoded = length-decode_passes 3 (take max_norm raw) in
    let folded = length-fold 0 false (decode_passes 3 (take max_norm raw)) in
    (fold-IsFolded 0 false _, omega arith, omega arith)
