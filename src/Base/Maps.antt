-- ===== src/Base/Maps.antt =====
-- Maps with numbers as keys, as lists of pairs with each key once.
use Prim.Native.Nat.{ℕ}
use mathlib.Core.Path.{◌≡◌, refl}
use mathlib.Core.List.{List, [], ◌∷◌}
use native.Mathlib.Omega.{arith}
use wirewolf.Base.Tests.{◌==◌, if◌then◌else◌}

module _ {ℓ} {A : Type ℓ} where
  -- The value of a key, or a default.
  unfoldable pub find_or : A → ℕ → List (ℕ × A) → A
  find_or d k [] = d
  find_or d k ((j, a) ∷ rest) = if j == k then a else find_or d k rest

  -- `m[k] = a`.
  unfoldable pub put : ℕ → A → List (ℕ × A) → List (ℕ × A)
  put k a [] = (k, a) ∷ []
  put k a ((j, b) ∷ rest) =
      let later = put k a rest in if j == k then (j, a) ∷ rest else (j, b) ∷ later

  pub find_or-put :
      (d : A) (k i : ℕ) (a : A) (m : List (ℕ × A))
      → find_or d i (put k a m) ≡ (if k == i then a else find_or d i m)
  unfolding find_or put
  find_or-put d k i a [] = refl
  find_or-put d k i a ((j, b) ∷ rest) = ground (arith, find_or-put d k i a rest)
