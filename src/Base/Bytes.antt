-- ===== src/Base/Bytes.antt =====
-- Reads from a buffer of bytes. A read is `none` where it falls outside the buffer, so that a chain
-- of reads which gives a value has stayed inside.
use Prim.Native.Nat.{ℕ, zero, suc, ◌+◌, ◌*◌, ◌≤◌}
use mathlib.Core.Path.{◌≡◌, refl}
use mathlib.Core.Option.{Option, none, some}
use mathlib.Core.List.{List, [], ◌∷◌}
use native.Mathlib.Omega.{arith}
use wirewolf.Base.Lists.{length, get_elem?, get_elem?-total}
use wirewolf.Base.Words.{be16}

infixl 5 ◌>>=◌
abbrev pub ◌>>=◌ : {A B : Type 0} → Option A → (A → Option B) → Option B
none >>= f = none
some a >>= f = f a

abbrev pub Reads : {A : Type 0} → Option A → Type 0
Reads {A} m = (a : A) × (m ≡ some a)

pub >>=-Reads :
    {A B : Type 0} (m : Option A) (f : A → Option B)
    → Reads m
    → ((a : A) → m ≡ some a → Reads (f a))
    → Reads (m >>= f)
>>=-Reads m f (a, e) k = rw e (k a e)

-- Two and four bytes in network order, and as a little-endian machine holds them.
unfoldable pub be16_at : List ℕ → ℕ → Option ℕ
be16_at p i = do hi ← get_elem? p i; lo ← get_elem? p (i + 1); some (be16 hi lo)

unfoldable pub le16_at : List ℕ → ℕ → Option ℕ
le16_at p i = do lo ← get_elem? p i; hi ← get_elem? p (i + 1); some (be16 hi lo)

unfoldable pub be32_at : List ℕ → ℕ → Option ℕ
unfolding be16_at
be32_at p i = do hi ← be16_at p i; lo ← be16_at p (i + 2); some (hi * 65536 + lo)

unfoldable pub le32_at : List ℕ → ℕ → Option ℕ
unfolding le16_at
le32_at p i = do lo ← le16_at p i; hi ← le16_at p (i + 2); some (hi * 65536 + lo)

unfoldable pub bytes_at : List ℕ → ℕ → ℕ → Option (List ℕ)
bytes_at p i zero = some []
bytes_at p i (suc n) = do b ← get_elem? p i; bs ← bytes_at p (i + 1) n; some (b ∷ bs)

pub be16_at-Reads : (p : List ℕ) (i : ℕ) → i + 2 ≤ length p → Reads (be16_at p i)
unfolding be16_at
be16_at-Reads p i h =
    >>=-Reads _ _ (get_elem?-total p i (omega arith))
      λ hi _. >>=-Reads _ _ (get_elem?-total p (i + 1) (omega arith)) λ lo _. (be16 hi lo, refl)

pub le16_at-Reads : (p : List ℕ) (i : ℕ) → i + 2 ≤ length p → Reads (le16_at p i)
unfolding le16_at
le16_at-Reads p i h =
    >>=-Reads _ _ (get_elem?-total p i (omega arith))
      λ lo _. >>=-Reads _ _ (get_elem?-total p (i + 1) (omega arith)) λ hi _. (be16 hi lo, refl)

pub be32_at-Reads : (p : List ℕ) (i : ℕ) → i + 4 ≤ length p → Reads (be32_at p i)
unfolding be32_at
be32_at-Reads p i h =
    >>=-Reads _ _ (be16_at-Reads p i (omega arith))
      λ hi _. >>=-Reads _ _ (be16_at-Reads p (i + 2) (omega arith)) λ lo _. (hi * 65536 + lo, refl)

pub le32_at-Reads : (p : List ℕ) (i : ℕ) → i + 4 ≤ length p → Reads (le32_at p i)
unfolding le32_at
le32_at-Reads p i h =
    >>=-Reads _ _ (le16_at-Reads p i (omega arith))
      λ lo _. >>=-Reads _ _ (le16_at-Reads p (i + 2) (omega arith)) λ hi _. (hi * 65536 + lo, refl)

pub bytes_at-Reads : (p : List ℕ) (i n : ℕ) → i + n ≤ length p → Reads (bytes_at p i n)
unfolding bytes_at
bytes_at-Reads p i zero h = ([], refl)
bytes_at-Reads p i (suc n) h =
    >>=-Reads _ _ (get_elem?-total p i (omega arith))
      λ b _. >>=-Reads _ _ (bytes_at-Reads p (i + 1) n (omega arith)) λ bs _. (b ∷ bs, refl)
