-- ===== src/Normalizer/Fold.antt =====
-- include/payload_normalizer.hpp, the second loop of `normalize_payload`: comments, whitespace, case.
use wirewolf.Base.{
  ℕ, zero, suc, ◌+◌, ◌≤◌, ◌≡◌, refl, subst, Bool, true, false, ◌&&◌, ◌||◌, not, [], ◌∷◌, ◌++◌,
  Option, none, some, length, length-append, drop, leb, ◌==◌, if◌then◌else◌, if-ind, arith,
}
use wirewolf.Base.Text.{Bytes, codes, starts_with, lower_byte}

abbrev one_more : Option ℕ → Option ℕ
one_more none = none
one_more (some n) = some (suc n)

-- `find`, counted from where the search starts.
unfoldable pub find : Bytes → Bytes → Option ℕ
find pattern_ [] = none
find pattern_ (c ∷ cs) =
    if starts_with (c ∷ cs) pattern_ then some 0 else one_more (find pattern_ cs)

-- What the loop does at one index: `break`, or append, and pass over that many more bytes.
pub data Action : Type 0 where
  stop : Action
  go : Bytes → ℕ → Bool → Action

abbrev is_space : ℕ → Bool
is_space c = c == 32 || (c == 9 || (c == 10 || (c == 13 || (c == 11 || c == 12))))

abbrev starts_block : ℕ → Bytes → Bool
starts_block c [] = false
starts_block c (d ∷ ds) = c == b'/' && d == b'*'

abbrev starts_line : ℕ → Bytes → Bool
starts_line c [] = false
starts_line c (d ∷ ds) = c == b'-' && d == b'-'

-- Past `*/`: 2 bytes behind its place, which was sought from index i + 2 on.
abbrev past_block : Bool → Option ℕ → Action
past_block prev none = stop
past_block prev (some n) = go [] (n + 3) prev

abbrev past_line : Bool → Option ℕ → Action
past_line prev none = stop
past_line prev (some n) = go [] n prev

unfoldable pub act : Bool → ℕ → Bytes → Action
act prev_space c cs =
    if starts_block c cs
    then past_block prev_space (find (codes "*/") (drop 1 cs))
    else if starts_line c cs
    then past_line prev_space (find (codes "\n") (c ∷ cs))
    else if is_space c
    then (if prev_space then go [] 0 true else go (32 ∷ []) 0 true)
    else go (lower_byte c ∷ []) 0 false

unfoldable pub fold : ℕ → Bool → Bytes → Bytes
fold skip prev_space [] = []
fold (suc skip) prev_space (c ∷ cs) = fold skip prev_space cs
fold zero prev_space (c ∷ cs) = elim (act prev_space c cs) [
  | stop ↦ []
  | go out skip prev ↦ out ++ fold skip prev cs
]

-- No byte is a capital letter or a space other than 32, and no two spaces stand together, nor one
-- at the start behind an earlier one.
abbrev pub IsFolded : Bool → Bytes → Type 0
IsFolded prev [] = Unit {0}
IsFolded prev (c ∷ cs) =
    ((c == 32) && prev ≡ false)
    × ((is_space c && not (c == 32)) ≡ false)
    × ((leb b'A' c && leb c b'Z') ≡ false)
    × IsFolded (c == 32) cs

-- What one action may append.
abbrev Appends : Bool → Action → Type 0
Appends prev stop = Unit {0}
Appends prev (go [] skip next) = (prev ≡ true → next ≡ true)
Appends prev (go (c ∷ []) skip next) =
    ((c == 32) && prev ≡ false)
    × ((is_space c && not (c == 32)) ≡ false)
    × ((leb b'A' c && leb c b'Z') ≡ false)
    × (next ≡ (c == 32))
Appends prev (go (c ∷ d ∷ ds) skip next) = ⊥

past_block-Appends : (prev : Bool) (o : Option ℕ) → Appends prev (past_block prev o)
past_block-Appends prev none = tt
past_block-Appends prev (some n) = λ p. p

past_line-Appends : (prev : Bool) (o : Option ℕ) → Appends prev (past_line prev o)
past_line-Appends prev none = tt
past_line-Appends prev (some n) = λ p. p

lower_byte-Appends :
    (prev : Bool) (c : ℕ) → is_space c ≡ false → Appends prev (go (lower_byte c ∷ []) 0 false)
lower_byte-Appends prev c h = ground arith

act-Appends : (prev : Bool) (c : ℕ) (cs : Bytes) → Appends prev (act prev c cs)
unfolding act
act-Appends prev c cs =
    if-ind (Appends prev) (starts_block c cs)
      (λ _. past_block-Appends prev (find (codes "*/") (drop 1 cs)))
      (λ _.
        if-ind (Appends prev) (starts_line c cs)
          (λ _. past_line-Appends prev (find (codes "\n") (c ∷ cs)))
          (λ _.
            if-ind (Appends prev) (is_space c)
              (λ _. if-ind (Appends prev) prev (λ p q. refl) (λ p. (p, refl, refl, refl)))
              (λ visible. lower_byte-Appends prev c visible)))

IsFolded-weaken : (prev : Bool) (s : Bytes) → IsFolded true s → IsFolded prev s
IsFolded-weaken prev [] h = tt
IsFolded-weaken prev (c ∷ cs) h = ground arith

carry :
    (prev next : Bool) (s : Bytes) → (prev ≡ true → next ≡ true) → IsFolded next s → IsFolded prev s
carry false true s a h = IsFolded-weaken false s h
carry false false s a h = h
carry true next s a h = subst (λ b. IsFolded b s) (a refl) h

append-IsFolded :
    (prev : Bool) (a : Action) (rest : ℕ → Bool → Bytes)
    → Appends prev a
    → ((skip : ℕ) (next : Bool) → IsFolded next (rest skip next))
    → IsFolded prev (elim a [ stop ↦ [] | go out skip next ↦ out ++ rest skip next ])
append-IsFolded prev stop rest a h = tt
append-IsFolded prev (go [] skip next) rest a h = carry prev next _ a (h skip next)
append-IsFolded prev (go (c ∷ []) skip next) rest a h = (a.0, a.1, a.2, rw (← a.3) (h skip next))
append-IsFolded prev (go (c ∷ d ∷ ds) skip next) rest a h = absurd a

pub fold-IsFolded : (k : ℕ) (prev : Bool) (s : Bytes) → IsFolded prev (fold k prev s)
unfolding fold
fold-IsFolded zero prev [] = tt
fold-IsFolded (suc k) prev [] = tt
fold-IsFolded (suc k) prev (c ∷ cs) = fold-IsFolded k prev cs
fold-IsFolded zero prev (c ∷ cs) =
    append-IsFolded prev (act prev c cs) (λ k p. fold k p cs) (act-Appends prev c cs)
      (λ k p. fold-IsFolded k p cs)

out_of : Action → Bytes
out_of stop = []
out_of (go out skip prev) = out

act-short : (prev : Bool) (c : ℕ) (cs : Bytes) → length (out_of (act prev c cs)) ≤ 1
unfolding act out_of
act-short prev c cs = ground (arith, find (codes "*/") (drop 1 cs), find (codes "\n") (c ∷ cs))

length-after :
    (a : Action) (rest : ℕ → Bool → Bytes) (n : ℕ)
    → length (out_of a) ≤ 1
    → ((skip : ℕ) (next : Bool) → length (rest skip next) ≤ n)
    → length (elim a [ stop ↦ [] | go out skip next ↦ out ++ rest skip next ]) ≤ suc n
unfolding out_of
length-after stop rest n h k = omega arith
length-after (go out skip next) rest n h k =
    omega (arith, k skip next, length-append out (rest skip next))

pub length-fold : (k : ℕ) (prev : Bool) (s : Bytes) → length (fold k prev s) ≤ length s
unfolding fold
length-fold zero prev [] = omega arith
length-fold (suc k) prev [] = omega arith
length-fold (suc k) prev (c ∷ cs) = omega (arith, length-fold k prev cs)
length-fold zero prev (c ∷ cs) =
    length-after (act prev c cs) (λ k p. fold k p cs) (length cs) (act-short prev c cs)
      (λ k p. length-fold k p cs)
