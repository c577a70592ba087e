-- ===== src/Behavioral/Store/Lexing.antt =====
-- src/behavioral_model.cpp, `serialize` and `load`: lines and words of a model's text.
use wirewolf.Base.{
  ℕ, zero, suc, ◌+◌, ◌/◌, ◌%◌, ◌≡◌, refl, sym, ap, ◌∙◌, false, List, [], ◌∷◌, ◌++◌, map, ◌==◌, All,
  All-append, append_assoc, append-nil, ltb, if-ind, Option, some, arith,
}
use wirewolf.Base.Text.{Bytes, decimal_acc, decimal, split, prepend, drop_last_empty, lines}
use wirewolf.Behavioral.{MarkovModel}
use wirewolf.Behavioral.Store.{
  Numbers, is_space, flush_word, words_from, after_colon, print_entries, add_entry, read_tokens,
}

-- A character that is no white space.
abbrev pub IsSolid : ℕ → Type 0
IsSolid c = is_space c ≡ false

abbrev pub HasNoBreak : Bytes → Type 0
HasNoBreak = All (λ c. (c == 10) ≡ false)

pub solid_no_break : (c : ℕ) → IsSolid c → (c == 10) ≡ false
solid_no_break c h = ground (arith, h)

pub no_break : (s : Bytes) → All IsSolid s → HasNoBreak s
no_break [] h = tt
no_break (c ∷ s) h = (solid_no_break c h.0, no_break s h.1)

split-line : (l rest : Bytes) → HasNoBreak l → split 10 (l ++ 10 ∷ rest) ≡ l ∷ split 10 rest
unfolding split
split-line [] rest h = refl
split-line (c ∷ l) rest h = rw (h.0, split-line l rest h.1) refl

drop_last_empty-prepend :
    (l : Bytes) (c : ℕ) (ps : List Bytes)
    → drop_last_empty (l ∷ prepend c ps) ≡ l ∷ drop_last_empty (prepend c ps)
drop_last_empty-prepend l c [] = refl
drop_last_empty-prepend l c (q ∷ ps) = refl

drop_last_empty-more :
    (l rest : Bytes) → drop_last_empty (l ∷ split 10 rest) ≡ l ∷ drop_last_empty (split 10 rest)
unfolding split
drop_last_empty-more l [] = refl
drop_last_empty-more l (c ∷ rest) =
    if-ind (λ (ps : List Bytes). drop_last_empty (l ∷ ps) ≡ l ∷ drop_last_empty ps) (c == 10)
      {x = [] ∷ split 10 rest} {y = prepend c (split 10 rest)} (λ _. refl)
      λ _. drop_last_empty-prepend l c (split 10 rest)

pub lines-line : (l rest : Bytes) → HasNoBreak l → lines (l ++ 10 ∷ rest) ≡ l ∷ lines rest
unfolding lines
lines-line l rest h = ap drop_last_empty (split-line l rest h) ∙ drop_last_empty-more l rest

decimal_acc-IsSolid :
    (fuel n : ℕ) (acc : Bytes) → All IsSolid acc → All IsSolid (decimal_acc fuel n acc)
unfolding decimal_acc
decimal_acc-IsSolid zero n acc h = h
decimal_acc-IsSolid (suc fuel) n acc h =
    let digit : IsSolid (n % 10 + b'0') = ground arith in
    if-ind (All IsSolid) (ltb n 10) (λ _. (digit, h))
      λ _. decimal_acc-IsSolid fuel (n / 10) _ (digit, h)

pub decimal-IsSolid : (n : ℕ) → All IsSolid (decimal n)
unfolding decimal
decimal-IsSolid n = decimal_acc-IsSolid 20 n [] tt

words_from-solid : (w v s : Bytes) → All IsSolid v → words_from w (v ++ s) ≡ words_from (w ++ v) s
unfolding words_from
words_from-solid w [] s h = ap (λ u. words_from u s) (sym (append-nil w))
words_from-solid w (c ∷ v) s h =
    rw h.0 (
      words_from-solid (w ++ c ∷ []) v s h.1 ∙ ap (λ u. words_from u s) (append_assoc w (c ∷ []) v))

abbrev token : ℕ × ℕ → Bytes
token (to, c) = to ∷ b':' ∷ decimal c

-- What an entry of a row must be to be read back.
abbrev pub IsEntry : (Bytes → Option ℕ) → ℕ × ℕ → Type 0
IsEntry stol (to, c) = (is_space to ≡ false) × ((to == b':') ≡ false) × (stol (decimal c) ≡ some c)

token-IsSolid : (stol : Bytes → Option ℕ) (e : ℕ × ℕ) → IsEntry stol e → All IsSolid (token e)
token-IsSolid stol (to, c) h = (h.0, (refl, decimal-IsSolid c))

words_from-print_entries :
    (stol : Bytes → Option ℕ) (w : Bytes) (row : List (ℕ × ℕ))
    → All (IsEntry stol) row
    → words_from w (print_entries row) ≡ flush_word w (map token row)
unfolding words_from print_entries
words_from-print_entries stol w [] h = refl
words_from-print_entries stol w ((to, c) ∷ row) h = ap (flush_word w) (
    words_from-solid [] (token (to, c)) (print_entries row) (token-IsSolid stol (to, c) h.0)
    ∙ words_from-print_entries stol (token (to, c)) row h.1)

-- The entries of a row, one after another.
abbrev pub add_entries : ℕ → List (ℕ × ℕ) → MarkovModel → MarkovModel
add_entries from [] m = m
add_entries from ((to, c) ∷ row) m = add_entries from row (add_entry from to c m)

module _ {Double : Type 0} (p : Numbers Double) where
  read_tokens-token :
      (from : ℕ) (row : List (ℕ × ℕ)) (m : MarkovModel)
      → All (IsEntry p.stol) row
      → read_tokens p from (map token row) m ≡ some (add_entries from row m)
  unfolding read_tokens after_colon
  read_tokens-token from [] m h = refl
  read_tokens-token from ((to, c) ∷ row) m ((solid, other, counted), h) =
      rw (other, counted) (read_tokens-token from row (add_entry from to c m) h)

  -- The entries of a printed row are read back.
  pub read_tokens-print_entries :
      (from : ℕ) (row : List (ℕ × ℕ)) (m : MarkovModel)
      → All (IsEntry p.stol) row
      → read_tokens p from (words_from [] (print_entries row)) m ≡ some (add_entries from row m)
  read_tokens-print_entries from row m h =
      rw (words_from-print_entries p.stol [] row h) (read_tokens-token from row m h)

print_entries-HasNoBreak :
    (stol : Bytes → Option ℕ) (row : List (ℕ × ℕ))
    → All (IsEntry stol) row
    → HasNoBreak (print_entries row)
unfolding print_entries
print_entries-HasNoBreak stol [] h = tt
print_entries-HasNoBreak stol ((to, c) ∷ row) h = (
  refl,
  All-append (λ d. (d == 10) ≡ false) (token (to, c)) (print_entries row)
      (no_break (token (to, c)) (token-IsSolid stol (to, c) h.0))
      (print_entries-HasNoBreak stol row h.1),
)

pub row-HasNoBreak :
    (stol : Bytes → Option ℕ) (n : ℕ) (row : List (ℕ × ℕ))
    → All (IsEntry stol) row
    → HasNoBreak (b' ' ∷ decimal n ++ print_entries row)
row-HasNoBreak stol n row h = (
  refl,
  All-append (λ d. (d == 10) ≡ false) (decimal n) (print_entries row)
      (no_break (decimal n) (decimal-IsSolid n)) (print_entries-HasNoBreak stol row h),
)
