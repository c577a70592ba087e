-- ===== src/Behavioral/Store/Scores.antt =====
-- src/behavioral_model.cpp: models as the source keeps them, and what their order does not change.
use wirewolf.Anomaly.Once.{IsDistinct}
use wirewolf.Base.{
  ℕ, ◌+◌, ◌≤◌, ◌≡◌, refl, sym, ap, ◌∙◌, true, List, [], ◌∷◌, length, All, All-imp, ◌==◌, Bool-cases,
  inl, inr, arith,
}
use wirewolf.Base.Doubles.{Doubles}
use wirewolf.Base.Maps.{find_or}
use wirewolf.Base.Text.{Bytes}
use wirewolf.Behavioral.{MarkovModel, count_of, row_of, log_prob, sum_from, score}
use wirewolf.Behavioral.Store.{by_key, insert_key, by_rank}
use wirewolf.Behavioral.Store.Alphabet.{contains-by_rank, length-by_rank}
use wirewolf.Behavioral.Store.Filling.{
  IsNew, IsFresh, IsKnown, IsRow, sum_row, sum_rows, totals_of, chain_of,
}
use wirewolf.Behavioral.Store.Reading.{sort_rows}
use wirewolf.Behavioral.Store.Sorting.{
  HasOnceKeys, All-by_key, by_key-HasOnceKeys, find_or-by_key, length-by_key, once-IsFresh,
}
use wirewolf.Reassembly.Blocklist.{contains}

-- A row of the model: it is not empty, no key comes twice, and its characters are in the alphabet.
pub record IsCounted (alphabet : List ℕ) (from : ℕ) (row : List (ℕ × ℕ)) : Type 0 where
  pub known_from : contains alphabet from ≡ true
  pub known : All (IsKnown alphabet) row
  pub once : HasOnceKeys row
  pub not_empty : 1 ≤ length row

abbrev pub AllCounted : List ℕ → List (ℕ × List (ℕ × ℕ)) → Type 0
AllCounted alphabet = All (λ (e : ℕ × List (ℕ × ℕ)). IsCounted alphabet e.0 e.1)

-- A model as the source keeps it: every key once, every character in the alphabet, and the sums of
-- the rows beside them.
pub record IsModel (m : MarkovModel) : Type 0 where
  pub rows_counted : AllCounted m.alphabet_ m.counts_
  pub once_rows : HasOnceKeys m.counts_
  pub once_chars : IsDistinct m.alphabet_
  pub row_sums : (c : ℕ) → count_of c m.row_totals_ ≡ sum_row (row_of c m.counts_)

-- The model with its maps in the order of their keys, which is all that a walk over them can see.
abbrev pub sorted : MarkovModel → MarkovModel
sorted m =
    let rows = sort_rows (by_key m.counts_) in chain_of (by_rank m.alphabet_) rows (sum_rows rows)

by_key-IsRow :
    (alphabet : List ℕ) (from : ℕ) (row : List (ℕ × ℕ))
    → IsCounted alphabet from row
    → IsRow (by_rank alphabet) from (by_key row)
by_key-IsRow alphabet from row h = record {
  known_from = contains-by_rank from alphabet ∙ h.known_from;
  known = All-by_key (IsKnown (by_rank alphabet)) row (
      All-imp (IsKnown alphabet) (IsKnown (by_rank alphabet)) row
        (λ e known. contains-by_rank e.0 alphabet ∙ known) h.known);
  fresh = once-IsFresh (by_key row) (by_key-HasOnceKeys row h.once);
  not_empty = omega (arith, length-by_key row, h.not_empty);
}

sort_rows-IsRow :
    (alphabet : List ℕ) (rows : List (ℕ × List (ℕ × ℕ)))
    → AllCounted alphabet rows
    → All (λ (e : ℕ × List (ℕ × ℕ)). IsRow (by_rank alphabet) e.0 e.1) (sort_rows rows)
sort_rows-IsRow alphabet [] h = tt
sort_rows-IsRow alphabet ((from, row) ∷ rest) h =
    (by_key-IsRow alphabet from row h.0, sort_rows-IsRow alphabet rest h.1)

IsNew-sort_rows : (k : ℕ) (rows : List (ℕ × List (ℕ × ℕ))) → IsNew k rows → IsNew k (sort_rows rows)
IsNew-sort_rows k [] h = tt
IsNew-sort_rows k ((from, row) ∷ rest) h = (h.0, IsNew-sort_rows k rest h.1)

sort_rows-HasOnceKeys :
    (rows : List (ℕ × List (ℕ × ℕ))) → HasOnceKeys rows → HasOnceKeys (sort_rows rows)
sort_rows-HasOnceKeys [] h = tt
sort_rows-HasOnceKeys ((from, row) ∷ rest) h =
    (IsNew-sort_rows from rest h.0, sort_rows-HasOnceKeys rest h.1)

module _ (m : MarkovModel) (h : IsModel m) where
  pub rows-IsRow :
      All
        (λ (e : ℕ × List (ℕ × ℕ)). IsRow (by_rank m.alphabet_) e.0 e.1)
        (sort_rows (by_key m.counts_))
  rows-IsRow = sort_rows-IsRow m.alphabet_ (by_key m.counts_) (
      All-by_key (λ (e : ℕ × List (ℕ × ℕ)). IsCounted m.alphabet_ e.0 e.1) m.counts_ h.rows_counted)

  pub rows-IsFresh : IsFresh [] (sort_rows (by_key m.counts_))
  rows-IsFresh = once-IsFresh _ (sort_rows-HasOnceKeys _ (by_key-HasOnceKeys m.counts_ h.once_rows))

count_of-find_or : (c : ℕ) (row : List (ℕ × ℕ)) → count_of c row ≡ find_or 0 c row
unfolding count_of find_or
count_of-find_or c [] = refl
count_of-find_or c ((d, n) ∷ rest) = ground (arith, count_of-find_or c rest)

row_of-find_or : (c : ℕ) (rows : List (ℕ × List (ℕ × ℕ))) → row_of c rows ≡ find_or [] c rows
unfolding row_of find_or
row_of-find_or c [] = refl
row_of-find_or c ((d, row) ∷ rest) = ground (arith, row_of-find_or c rest)

row_of-by_key :
    (c : ℕ) (rows : List (ℕ × List (ℕ × ℕ)))
    → HasOnceKeys rows
    → row_of c (by_key rows) ≡ row_of c rows
row_of-by_key c rows h =
    row_of-find_or c (by_key rows) ∙ find_or-by_key [] c rows h ∙ sym (row_of-find_or c rows)

count_of-by_key :
    (c : ℕ) (row : List (ℕ × ℕ)) → HasOnceKeys row → count_of c (by_key row) ≡ count_of c row
count_of-by_key c row h =
    count_of-find_or c (by_key row) ∙ find_or-by_key 0 c row h ∙ sym (count_of-find_or c row)

row_of-sort_rows :
    (c : ℕ) (rows : List (ℕ × List (ℕ × ℕ))) → row_of c (sort_rows rows) ≡ by_key (row_of c rows)
unfolding row_of by_key
row_of-sort_rows c [] = refl
row_of-sort_rows c ((d, row) ∷ rest) = ground (arith, row_of-sort_rows c rest)

sum_row-insert_key : (k n : ℕ) (row : List (ℕ × ℕ)) → sum_row (insert_key k n row) ≡ n + sum_row row
unfolding insert_key
sum_row-insert_key k n [] = refl
sum_row-insert_key k n ((j, c) ∷ row) = ground (arith, sum_row-insert_key k n row)

sum_row-by_key : (row : List (ℕ × ℕ)) → sum_row (by_key row) ≡ sum_row row
unfolding by_key
sum_row-by_key [] = refl
sum_row-by_key ((k, n) ∷ row) =
    omega (arith, sum_row-insert_key k n (by_key row), sum_row-by_key row)

count_of-totals_of :
    (c : ℕ) (rows : List (ℕ × List (ℕ × ℕ))) → count_of c (totals_of rows) ≡ sum_row (row_of c rows)
unfolding count_of row_of
count_of-totals_of c [] = refl
count_of-totals_of c ((d, row) ∷ rest) = ground (arith, count_of-totals_of c rest)

row_of-HasOnceKeys :
    (alphabet : List ℕ) (c : ℕ) (rows : List (ℕ × List (ℕ × ℕ)))
    → AllCounted alphabet rows
    → HasOnceKeys (row_of c rows)
unfolding row_of
row_of-HasOnceKeys alphabet c [] h = tt
row_of-HasOnceKeys alphabet c ((d, row) ∷ rest) h = elim (Bool-cases (d == c)) [
  | inl same ↦ rw same h.0.once
  | inr other ↦ rw other (row_of-HasOnceKeys alphabet c rest h.1)
]

module _ (m : MarkovModel) (h : IsModel m) where
  count-sorted :
      (from to : ℕ)
      → count_of to (row_of from (sorted m).counts_) ≡ count_of to (row_of from m.counts_)
  count-sorted from to =
      ap (count_of to) (
        row_of-sort_rows from (by_key m.counts_)
        ∙ ap by_key (row_of-by_key from m.counts_ h.once_rows))
      ∙ count_of-by_key to (row_of from m.counts_)
          (row_of-HasOnceKeys m.alphabet_ from m.counts_ h.rows_counted)

  total-sorted : (from : ℕ) → count_of from (sorted m).row_totals_ ≡ count_of from m.row_totals_
  total-sorted from =
      count_of-totals_of from (sort_rows (by_key m.counts_))
      ∙ ap sum_row (
          row_of-sort_rows from (by_key m.counts_)
          ∙ ap by_key (row_of-by_key from m.counts_ h.once_rows))
      ∙ sum_row-by_key (row_of from m.counts_)
      ∙ sym (h.row_sums from)

  module _ (r : Doubles) (log : r.Double → r.Double) (k : r.Double) where
    open r use {Double, of_ℕ, add}

    log_prob-sorted :
        (from to : ℕ) → log_prob r log k (sorted m) from to ≡ log_prob r log k m from to
    unfolding log_prob
    log_prob-sorted from to =
        rw (count-sorted from to, total-sorted from, length-by_rank m.alphabet_) refl

    sum_from-sorted :
        (c : ℕ) (s : Bytes) (sum : Double)
        → sum_from r log k (sorted m) c s sum ≡ sum_from r log k m c s sum
    unfolding sum_from
    sum_from-sorted c [] sum = refl
    sum_from-sorted c (d ∷ s) sum =
        rw (log_prob-sorted c d) (sum_from-sorted d s (add sum (log_prob r log k m c d)))

    -- The order of the maps changes no score.
    pub score-sorted : (s : Bytes) → score r log k (sorted m) s ≡ score r log k m s
    unfolding score
    score-sorted [] = refl
    score-sorted (c ∷ []) = refl
    score-sorted (c ∷ d ∷ s) =
        rw (length-by_rank m.alphabet_, sum_from-sorted c (d ∷ s) (of_ℕ 0)) refl
