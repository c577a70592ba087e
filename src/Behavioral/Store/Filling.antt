-- ===== src/Behavioral/Store/Filling.antt =====
-- src/behavioral_model.cpp, `load`: the maps that are filled by rows with new keys.
use wirewolf.Base.{
  ℕ, ◌+◌, ◌≤◌, ◌≡◌, refl, length, ap, ◌∙◌, false, true, List, [], ◌∷◌, ◌++◌, ◌==◌, ==_refl, All,
  append_assoc, append-nil, Bool-cases, inl, inr, arith,
}
use wirewolf.Base.Maps.{find_or, put}
use wirewolf.Behavioral.{MarkovModel, add_char}
use wirewolf.Behavioral.Store.{add_entry}
use wirewolf.Behavioral.Store.Lexing.{add_entries}
use wirewolf.Reassembly.Blocklist.{contains}

module _ {A : Type 0} where
  -- The key stands nowhere in the map.
  abbrev pub IsNew : ℕ → List (ℕ × A) → Type 0
  IsNew k = All (λ (e : ℕ × A). (e.0 == k) ≡ false)

  put-new : (k : ℕ) (a : A) (m : List (ℕ × A)) → IsNew k m → put k a m ≡ m ++ (k, a) ∷ []
  unfolding put
  put-new k a [] h = refl
  put-new k a ((j, b) ∷ m) h = rw (h.0, put-new k a m h.1) refl

  find_or-new : (d : A) (k : ℕ) (m : List (ℕ × A)) → IsNew k m → find_or d k m ≡ d
  unfolding find_or
  find_or-new d k [] h = refl
  find_or-new d k ((j, b) ∷ m) h = rw h.0 (find_or-new d k m h.1)

  find_or-last :
      (d a : A) (k : ℕ) (m : List (ℕ × A)) → IsNew k m → find_or d k (m ++ (k, a) ∷ []) ≡ a
  unfolding find_or
  find_or-last d a k [] h = rw (==_refl k) refl
  find_or-last d a k ((j, b) ∷ m) h = rw h.0 (find_or-last d a k m h.1)

  put-last :
      (k : ℕ) (a b : A) (m : List (ℕ × A))
      → IsNew k m
      → put k b (m ++ (k, a) ∷ []) ≡ m ++ (k, b) ∷ []
  unfolding put
  put-last k a b [] h = rw (==_refl k) refl
  put-last k a b ((j, c) ∷ m) h = rw (h.0, put-last k a b m h.1) refl

  -- Each key differs from those seen before.
  abbrev pub IsFresh : List (ℕ × A) → List (ℕ × A) → Type 0
  IsFresh seen [] = Unit
  IsFresh seen ((k, a) ∷ rest) = IsNew k seen × IsFresh (seen ++ (k, a) ∷ []) rest

add_char-known : (c : ℕ) (ds : List ℕ) → contains ds c ≡ true → add_char c ds ≡ ds
unfolding add_char contains
add_char-known c [] h = ground (arith, h)
add_char-known c (d ∷ ds) h = elim (Bool-cases (d == c)) [
  | inl same ↦ rw same refl
  | inr other ↦ rw other (ap (λ l. d ∷ l) (add_char-known c ds (rw other at h)))
]

abbrev pub sum_row : List (ℕ × ℕ) → ℕ
sum_row [] = 0
sum_row ((to, c) ∷ row) = c + sum_row row

-- The characters of a row are known.
abbrev pub IsKnown : List ℕ → ℕ × ℕ → Type 0
IsKnown alphabet e = contains alphabet e.0 ≡ true

module _ (alphabet : List ℕ) (from : ℕ) (known : contains alphabet from ≡ true) where
  abbrev filled : List (ℕ × List (ℕ × ℕ)) → List (ℕ × ℕ) → List (ℕ × ℕ) → ℕ → ℕ → MarkovModel
  filled counts totals row t total = record {
    counts_ = counts ++ (from, row) ∷ [];
    row_totals_ = totals ++ (from, t) ∷ [];
    alphabet_ = alphabet;
    total_ = total;
  }

  add_entry-more :
      (counts : List (ℕ × List (ℕ × ℕ))) (totals row : List (ℕ × ℕ)) (t total to c : ℕ)
      → IsNew from counts
      → IsNew from totals
      → IsNew to row
      → contains alphabet to ≡ true
      → add_entry from to c (filled counts totals row t total)
        ≡ filled counts totals (row ++ (to, c) ∷ []) (t + c) (total + c)
  unfolding add_entry
  add_entry-more counts totals row t total to c hc ht hr known_to =
      rw
        (
          find_or-last [] row from counts hc,
          find_or-last 0 t from totals ht,
          put-new to c row hr,
          put-last from row (row ++ (to, c) ∷ []) counts hc,
          put-last from t (t + c) totals ht,
          add_char-known from alphabet known,
          add_char-known to alphabet known_to,
        )
        refl

  add_entries-more :
      (counts : List (ℕ × List (ℕ × ℕ))) (totals acc row : List (ℕ × ℕ)) (t total : ℕ)
      → IsNew from counts
      → IsNew from totals
      → IsFresh acc row
      → All (IsKnown alphabet) row
      → add_entries from row (filled counts totals acc t total)
        ≡ filled counts totals (acc ++ row) (t + sum_row row) (total + sum_row row)
  add_entries-more counts totals acc [] t total hc ht hr known_row =
      let t_zero : t + 0 ≡ t = omega arith in
      let total_zero : total + 0 ≡ total = omega arith in
      rw (append-nil acc, t_zero, total_zero) refl
  add_entries-more counts totals acc ((to, c) ∷ row) t total hc ht hr known_row =
      let t_sum : t + c + sum_row row ≡ t + (c + sum_row row) = omega arith in
      let total_sum : total + c + sum_row row ≡ total + (c + sum_row row) = omega arith in
      ap (add_entries from row)
        (add_entry-more counts totals acc t total to c hc ht hr.0 known_row.0)
      ∙ add_entries-more counts totals (acc ++ (to, c) ∷ []) row (t + c) (total + c) hc ht hr.1
          known_row.1
      ∙ (rw (append_assoc acc ((to, c) ∷ []) row, t_sum, total_sum) refl)

  add_entry-first :
      (counts : List (ℕ × List (ℕ × ℕ))) (totals : List (ℕ × ℕ)) (total to c : ℕ)
      → IsNew from counts
      → IsNew from totals
      → contains alphabet to ≡ true
      → add_entry from to c
          (record { counts_ = counts; row_totals_ = totals; alphabet_ = alphabet; total_ = total })
        ≡ filled counts totals ((to, c) ∷ []) (0 + c) (total + c)
  unfolding add_entry put
  add_entry-first counts totals total to c hc ht known_to =
      rw
        (
          find_or-new [] from counts hc,
          find_or-new 0 from totals ht,
          put-new from ((to, c) ∷ []) counts hc,
          put-new from (0 + c) totals ht,
          add_char-known from alphabet known,
          add_char-known to alphabet known_to,
        )
        refl

-- What a row must be to come back.
pub record IsRow (alphabet : List ℕ) (from : ℕ) (row : List (ℕ × ℕ)) : Type 0 where
  pub known_from : contains alphabet from ≡ true
  pub known : All (IsKnown alphabet) row
  pub fresh : IsFresh [] row
  pub not_empty : 1 ≤ length row

abbrev pub totals_of : List (ℕ × List (ℕ × ℕ)) → List (ℕ × ℕ)
totals_of [] = []
totals_of ((from, row) ∷ rest) = (from, sum_row row) ∷ totals_of rest

abbrev pub sum_rows : List (ℕ × List (ℕ × ℕ)) → ℕ
sum_rows [] = 0
sum_rows ((from, row) ∷ rest) = sum_row row + sum_rows rest

IsNew-totals_of :
    (k : ℕ) (counts : List (ℕ × List (ℕ × ℕ))) → IsNew k counts → IsNew k (totals_of counts)
IsNew-totals_of k [] h = tt
IsNew-totals_of k ((from, row) ∷ rest) h = (h.0, IsNew-totals_of k rest h.1)

totals_of-append :
    (xs ys : List (ℕ × List (ℕ × ℕ))) → totals_of (xs ++ ys) ≡ totals_of xs ++ totals_of ys
totals_of-append [] ys = refl
totals_of-append ((from, row) ∷ rest) ys =
    ap (λ l. (from, sum_row row) ∷ l) (totals_of-append rest ys)

-- The rows, one after another.
abbrev pub add_rows : List (ℕ × List (ℕ × ℕ)) → MarkovModel → MarkovModel
add_rows [] m = m
add_rows ((from, row) ∷ rest) m = add_rows rest (add_entries from row m)

module _ (alphabet : List ℕ) where
  -- The model that a list of rows makes, with the sums that the source keeps beside it.
  abbrev pub chain_of : List (ℕ × List (ℕ × ℕ)) → ℕ → MarkovModel
  chain_of counts total = record {
    counts_ = counts;
    row_totals_ = totals_of counts;
    alphabet_ = alphabet;
    total_ = total;
  }

  pub add_entries-row :
      (from : ℕ) (row : List (ℕ × ℕ)) (counts : List (ℕ × List (ℕ × ℕ))) (total : ℕ)
      → IsRow alphabet from row
      → IsNew from counts
      → add_entries from row (chain_of counts total)
        ≡ chain_of (counts ++ (from, row) ∷ []) (total + sum_row row)
  add_entries-row from [] counts total h new = absurd (omega (arith, h.not_empty))
  add_entries-row from ((to, c) ∷ row) counts total h new =
      let totals = IsNew-totals_of from counts new in
      let total_sum : total + c + sum_row row ≡ total + (c + sum_row row) = omega arith in
      let from_zero : 0 + c + sum_row row ≡ c + sum_row row = omega arith in
      ap (add_entries from row) (
        add_entry-first alphabet from h.known_from counts (totals_of counts) total to c new totals
          h.known.0)
      ∙ add_entries-more alphabet from h.known_from counts (totals_of counts) ((to, c) ∷ []) row
          (0 + c) (total + c) new totals h.fresh.1 h.known.1
      ∙ (rw (totals_of-append counts ((from, (to, c) ∷ row) ∷ []), total_sum, from_zero) refl)

  pub add_rows-chain_of :
      (rows counts : List (ℕ × List (ℕ × ℕ))) (total : ℕ)
      → All (λ (e : ℕ × List (ℕ × ℕ)). IsRow alphabet e.0 e.1) rows
      → IsFresh counts rows
      → add_rows rows (chain_of counts total) ≡ chain_of (counts ++ rows) (total + sum_rows rows)
  add_rows-chain_of [] counts total h fresh =
      let zero_more : total + 0 ≡ total = omega arith in rw (append-nil counts, zero_more) refl
  add_rows-chain_of ((from, row) ∷ rest) counts total h fresh =
      let sums : total + sum_row row + sum_rows rest ≡ total + (sum_row row + sum_rows rest) =
        omega arith in
      ap (add_rows rest) (add_entries-row from row counts total h.0 fresh.0)
      ∙ add_rows-chain_of rest (counts ++ (from, row) ∷ []) (total + sum_row row) h.1 fresh.1
      ∙ (rw (append_assoc counts ((from, row) ∷ []) rest, sums) refl)
