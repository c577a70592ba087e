-- ===== src/Tls/Md5.antt =====
-- include/tls_inspector.hpp, namespace `_md5`. Words are 32-bit numbers, `~x` is 2 ^ 32 - 1 - x.
use Prim.Native.Nat.{bit_and, bit_or, bit_xor}
use wirewolf.Base.{
  ℕ, zero, suc, ◌+◌, ◌-◌, ◌*◌, ◌/◌, ◌%◌, ◌^◌, ◌≡◌, refl, List, [], ◌∷◌, ◌++◌, length, take, drop,
  ltb, if◌then◌else◌,
}
use wirewolf.Base.Text.{Bytes, codes}
use wirewolf.Base.Words.{u32_mod, add32}

abbrev k_table : List ℕ
k_table =
    0xd76aa478 ∷ 0xe8c7b756 ∷ 0x242070db ∷ 0xc1bdceee ∷ 0xf57c0faf ∷ 0x4787c62a ∷ 0xa8304613
    ∷ 0xfd469501 ∷ 0x698098d8 ∷ 0x8b44f7af ∷ 0xffff5bb1 ∷ 0x895cd7be ∷ 0x6b901122 ∷ 0xfd987193
    ∷ 0xa679438e ∷ 0x49b40821 ∷ 0xf61e2562 ∷ 0xc040b340 ∷ 0x265e5a51 ∷ 0xe9b6c7aa ∷ 0xd62f105d
    ∷ 0x02441453 ∷ 0xd8a1e681 ∷ 0xe7d3fbc8 ∷ 0x21e1cde6 ∷ 0xc33707d6 ∷ 0xf4d50d87 ∷ 0x455a14ed
    ∷ 0xa9e3e905 ∷ 0xfcefa3f8 ∷ 0x676f02d9 ∷ 0x8d2a4c8a ∷ 0xfffa3942 ∷ 0x8771f681 ∷ 0x6d9d6122
    ∷ 0xfde5380c ∷ 0xa4beea44 ∷ 0x4bdecfa9 ∷ 0xf6bb4b60 ∷ 0xbebfbc70 ∷ 0x289b7ec6 ∷ 0xeaa127fa
    ∷ 0xd4ef3085 ∷ 0x04881d05 ∷ 0xd9d4d039 ∷ 0xe6db99e5 ∷ 0x1fa27cf8 ∷ 0xc4ac5665 ∷ 0xf4292244
    ∷ 0x432aff97 ∷ 0xab9423a7 ∷ 0xfc93a039 ∷ 0x655b59c3 ∷ 0x8f0ccc92 ∷ 0xffeff47d ∷ 0x85845dd1
    ∷ 0x6fa87e4f ∷ 0xfe2ce6e0 ∷ 0xa3014314 ∷ 0x4e0811a1 ∷ 0xf7537e82 ∷ 0xbd3af235 ∷ 0x2ad7d2bb
    ∷ 0xeb86d391 ∷ []

abbrev s_table : List ℕ
s_table =
    7 ∷ 12 ∷ 17 ∷ 22 ∷ 7 ∷ 12 ∷ 17 ∷ 22 ∷ 7 ∷ 12 ∷ 17 ∷ 22 ∷ 7 ∷ 12 ∷ 17 ∷ 22 ∷ 5 ∷ 9 ∷ 14 ∷ 20 ∷ 5
    ∷ 9 ∷ 14 ∷ 20 ∷ 5 ∷ 9 ∷ 14 ∷ 20 ∷ 5 ∷ 9 ∷ 14 ∷ 20 ∷ 4 ∷ 11 ∷ 16 ∷ 23 ∷ 4 ∷ 11 ∷ 16 ∷ 23 ∷ 4 ∷ 11
    ∷ 16 ∷ 23 ∷ 4 ∷ 11 ∷ 16 ∷ 23 ∷ 6 ∷ 10 ∷ 15 ∷ 21 ∷ 6 ∷ 10 ∷ 15 ∷ 21 ∷ 6 ∷ 10 ∷ 15 ∷ 21 ∷ 6 ∷ 10
    ∷ 15 ∷ 21 ∷ []

-- `ctx.a` to `ctx.d`.
pub record Ctx : Type 0 where
  pub a : ℕ
  pub b : ℕ
  pub c : ℕ
  pub d : ℕ

abbrev complement : ℕ → ℕ
complement x = u32_mod - 1 - x

unfoldable pub rol : ℕ → ℕ → ℕ
rol x s = bit_or (x * 2 ^ s % u32_mod) (x / 2 ^ (32 - s))

abbrev word_or_zero : List ℕ → ℕ → ℕ
word_or_zero [] i = 0
word_or_zero (w ∷ ws) zero = w
word_or_zero (w ∷ ws) (suc i) = word_or_zero ws i

-- The little-endian words of a block of 64 bytes.
unfoldable pub words : Bytes → List ℕ
words (b0 ∷ b1 ∷ b2 ∷ b3 ∷ rest) = (b0 + b1 * 256 + b2 * 65536 + b3 * 16777216) ∷ words rest
words _ = []

unfoldable pub mix : ℕ → Ctx → ℕ
mix i x =
    if ltb i 16
    then bit_or (bit_and x.b x.c) (bit_and (complement x.b) x.d)
    else if ltb i 32
    then bit_or (bit_and x.d x.b) (bit_and (complement x.d) x.c)
    else if ltb i 48
    then bit_xor (bit_xor x.b x.c) x.d
    else bit_xor x.c (bit_or x.b (complement x.d))

unfoldable pub message_index : ℕ → ℕ
message_index i =
    if ltb i 16
    then i
    else if ltb i 32
    then (5 * i + 1) % 16
    else if ltb i 48
    then (3 * i + 5) % 16
    else 7 * i % 16

-- One round for each entry of the two tables.
unfoldable pub rounds : ℕ → List ℕ → List ℕ → List ℕ → Ctx → Ctx
unfolding rol mix message_index
rounds i (k ∷ ks) (s ∷ ss) m x =
    let f = add32 (add32 (add32 (mix i x) x.a) k) (word_or_zero m (message_index i)) in
    rounds (i + 1) ks ss m (record { a = x.d; b = add32 x.b (rol f s); c = x.b; d = x.c })
rounds i _ _ m x = x

unfoldable pub process : Ctx → Bytes → Ctx
unfolding rounds words
process ctx p =
    let x = rounds 0 k_table s_table (words p) ctx in
    record { a = add32 ctx.a x.a; b = add32 ctx.b x.b; c = add32 ctx.c x.c; d = add32 ctx.d x.d }

-- The blocks of 64 bytes, as many as `count` says.
unfoldable pub blocks : ℕ → Ctx → Bytes → Ctx
unfolding process
blocks zero ctx p = ctx
blocks (suc count) ctx p = blocks count (process ctx (take 64 p)) (drop 64 p)

unfoldable pub little_endian : ℕ → ℕ → Bytes
little_endian zero n = []
little_endian (suc count) n = (n % 256) ∷ little_endian count (n / 256)

unfoldable pub zeros : ℕ → Bytes
zeros zero = []
zeros (suc n) = 0 ∷ zeros n

abbrev pad_len : ℕ → ℕ
pad_len rem = if ltb rem 56 then 56 - rem else 120 - rem

-- `tail`: the bytes past the last whole block, 0x80, zeros, and the length in bits.
unfoldable pub tail : Bytes → Bytes
unfolding zeros little_endian
tail s =
    let rem = length s % 64 in
    drop (length s / 64 * 64) s
    ++ (0x80 ∷ zeros (pad_len rem - 1))
    ++ little_endian 8 (length s * 8 % 2 ^ 64)

abbrev hex_char : ℕ → ℕ
hex_char n = if ltb n 10 then n + b'0' else n + 87

unfoldable pub hex : Bytes → Bytes
hex [] = []
hex (b ∷ bs) = hex_char (b / 16) ∷ hex_char (b % 16) ∷ hex bs

abbrev initial : Ctx
initial = record { a = 0x67452301; b = 0xefcdab89; c = 0x98badcfe; d = 0x10325476 }

unfoldable pub digest : Bytes → Ctx
unfolding blocks tail
digest s = blocks (length (tail s) / 64) (blocks (length s / 64) initial s) (tail s)

unfoldable pub hash : Bytes → Bytes
unfolding digest hex little_endian
hash s =
    let x = digest s in
    hex
      (little_endian 4 x.a ++ (little_endian 4 x.b ++ (little_endian 4 x.c ++ little_endian 4 x.d)))

hash_empty : hash [] ≡ codes "d41d8cd98f00b204e9800998ecf8427e"
unfolding hash
hash_empty = refl

hash_abc : hash (codes "message digest") ≡ codes "f96b697d7cb7938d525a2f31aaf161d0"
unfolding hash
hash_abc = refl
