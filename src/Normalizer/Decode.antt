-- ===== src/Normalizer/Decode.antt =====
-- include/payload_normalizer.hpp, `_hex_val` and `_percent_decode_once`.
use wirewolf.Base.{
  ℕ, zero, suc, ◌+◌, ◌-◌, ◌*◌, ◌≤◌, ◌≡◌, refl, Bool, true, false, ◌&&◌, ◌||◌, [], ◌∷◌, Option, none,
  some, length, get_elem?, leb, ◌==◌, if◌then◌else◌, arith,
}
use wirewolf.Base.Text.{Bytes}

-- `none` for -1.
unfoldable pub hex_val : ℕ → Option ℕ
hex_val c =
    if leb b'0' c && leb c b'9'
    then some (c - b'0')
    else if leb b'a' c && leb c b'f'
    then some (c - b'a' + 10)
    else if leb b'A' c && leb c b'F'
    then some (c - b'A' + 10)
    else none

-- `(h1 << 4) | h2` of two hex digits.
abbrev pair : Option ℕ → Option ℕ → Option ℕ
pair (some h1) (some h2) = some (h1 * 16 + h2)
pair _ _ = none

abbrev hex_at : Option ℕ → Option ℕ → Option ℕ
hex_at (some c) (some d) = pair (hex_val c) (hex_val d)
hex_at _ _ = none

-- The byte appended at one index, how many further bytes it used up, and whether it is a change.
pub record Decoding : Type 0 where
  pub byte : ℕ
  pub skip : ℕ
  pub is_change : Bool

abbrev plain : ℕ → Decoding
plain c = record { byte = c; skip = 0; is_change = false }

abbrev decoded_or : ℕ → ℕ → Option ℕ → Decoding
decoded_or c n none = plain c
decoded_or c n (some b) = record { byte = b; skip = n; is_change = true }

abbrev is_u : Option ℕ → Bool
is_u none = false
is_u (some c) = c == b'u' || c == b'U'

-- `in[i]` is `c` and the rest of the text is `cs`.
unfoldable pub decode_at : ℕ → Bytes → Decoding
decode_at c cs =
    if c == b'%'
    then (if is_u (get_elem? cs 0)
        then decoded_or c 5 (hex_at (get_elem? cs 3) (get_elem? cs 4))
        else decoded_or c 2 (hex_at (get_elem? cs 0) (get_elem? cs 1)))
    else if c == b'+'
    then record { byte = 32; skip = 0; is_change = true }
    else plain c

pub record Decoded : Type 0 where
  pub out : Bytes
  pub changed : Bool

abbrev append_byte : Decoding → Decoded → Decoded
append_byte d r = record { out = d.byte ∷ r.out; changed = d.is_change || r.changed }

unfoldable pub decode_from : ℕ → Bytes → Decoded
decode_from skip [] = record { out = []; changed = false }
decode_from zero (c ∷ cs) = append_byte (decode_at c cs) (decode_from (decode_at c cs).skip cs)
decode_from (suc skip) (c ∷ cs) = decode_from skip cs

unfoldable pub percent_decode_once : Bytes → Decoded
unfolding decode_from
percent_decode_once s = decode_from 0 s

length-decode_from : (k : ℕ) (s : Bytes) → length (decode_from k s).out ≤ length s
unfolding decode_from
length-decode_from zero [] = omega arith
length-decode_from (suc k) [] = omega arith
length-decode_from zero (c ∷ cs) = omega (arith, length-decode_from (decode_at c cs).skip cs)
length-decode_from (suc k) (c ∷ cs) = omega (arith, length-decode_from k cs)

pub length-percent_decode_once : (s : Bytes) → length (percent_decode_once s).out ≤ length s
unfolding percent_decode_once
length-percent_decode_once s = length-decode_from 0 s

decode_at-unchanged :
    (c : ℕ) (cs : Bytes)
    → (decode_at c cs).is_change ≡ false
    → ((decode_at c cs).byte ≡ c) × ((decode_at c cs).skip ≡ 0)
unfolding decode_at
decode_at-unchanged c cs h = ground arith

decode_from-unchanged : (s : Bytes) → (decode_from 0 s).changed ≡ false → (decode_from 0 s).out ≡ s
unfolding decode_from
decode_from-unchanged [] h = refl
decode_from-unchanged (c ∷ cs) h =
    ground (arith, decode_at-unchanged c cs, decode_from-unchanged cs)

-- A round that reports no change has returned its input.
pub percent_decode_once-unchanged :
    (s : Bytes) → (percent_decode_once s).changed ≡ false → (percent_decode_once s).out ≡ s
unfolding percent_decode_once
percent_decode_once-unchanged s h = decode_from-unchanged s h
