-- ===== src/Packet/Hash.antt =====
-- include/packet_types.hpp, `hash_combine`. `std::hash` on each type of number is a parameter.
use Prim.Native.Nat.{bit_xor}
use wirewolf.Base.{ℕ, ◌+◌, ◌*◌, ◌/◌, ◌%◌, ◌^◌, List, [], ◌∷◌}

pub record Hashes : Type 0 where
  pub of_u16 : ℕ → ℕ
  pub of_u32 : ℕ → ℕ
  pub of_size : ℕ → ℕ

-- `hash_combine` with the value already hashed: on 64-bit words.
unfoldable pub hash_combine : ℕ → ℕ → ℕ
hash_combine seed hashed =
    bit_xor seed ((hashed + 0x9e3779b9 + seed * 64 % 2 ^ 64 + seed / 4) % 2 ^ 64)

unfoldable pub combine_all : ℕ → List ℕ → ℕ
combine_all seed [] = seed
combine_all seed (h ∷ hs) = combine_all (hash_combine seed h) hs
