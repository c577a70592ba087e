-- ===== src/Behavioral/Store/Trained.antt =====
-- src/behavioral_model.cpp, `observe` and `train`: the model that training keeps.
use wirewolf.Anomaly.Once.{IsDistinct}
use wirewolf.Base.{
  ℕ, ◌+◌, ◌≤◌, ◌≡◌, refl, true, false, if◌then◌else◌, if-ind, List, [], ◌∷◌, length, All, All-imp,
  ◌==◌, ◌||◌, arith,
}
use wirewolf.Base.Text.{Bytes}
use wirewolf.Behavioral.{
  MarkovModel, add_one, row_of, add_transition, add_char, count_transition, observe_from, observe,
  train,
}
use wirewolf.Behavioral.Counts.{count_of-add_one}
use wirewolf.Behavioral.Store.Filling.{IsNew, IsKnown, sum_row}
use wirewolf.Behavioral.Store.Scores.{IsCounted, AllCounted, IsModel}
use wirewolf.Behavioral.Store.Sorting.{HasOnceKeys}
use wirewolf.Reassembly.Blocklist.{contains}

contains-add_char : (c e : ℕ) (ds : List ℕ) → contains (add_char c ds) e ≡ (contains ds e || c == e)
unfolding contains add_char
contains-add_char c e [] = ground arith
contains-add_char c e (d ∷ ds) = ground (arith, contains-add_char c e ds)

still_known : (c e : ℕ) (ds : List ℕ) → contains ds e ≡ true → contains (add_char c ds) e ≡ true
still_known c e ds h = rw (contains-add_char c e ds, h) refl

now_known : (c : ℕ) (ds : List ℕ) → contains (add_char c ds) c ≡ true
now_known c ds = ground (arith, contains-add_char c c ds)

add_char-IsDistinct : (c : ℕ) (ds : List ℕ) → IsDistinct ds → IsDistinct (add_char c ds)
unfolding add_char IsDistinct contains
add_char-IsDistinct c [] h = (refl, tt)
add_char-IsDistinct c (d ∷ ds) h =
    if-ind IsDistinct (d == c) {x = d ∷ ds} {y = d ∷ add_char c ds} (λ _. h)
      λ other. (ground (arith, contains-add_char c d ds, h.0, other), add_char-IsDistinct c ds h.1)

IsNew-add_one :
    (k c : ℕ) (row : List (ℕ × ℕ)) → (c == k) ≡ false → IsNew k row → IsNew k (add_one c row)
unfolding add_one
IsNew-add_one k c [] other h = (other, tt)
IsNew-add_one k c ((d, n) ∷ row) other h =
    if-ind (IsNew k) (d == c) (λ _. h) λ _. (h.0, IsNew-add_one k c row other h.1)

add_one-HasOnceKeys : (c : ℕ) (row : List (ℕ × ℕ)) → HasOnceKeys row → HasOnceKeys (add_one c row)
unfolding add_one
add_one-HasOnceKeys c [] h = (tt, tt)
add_one-HasOnceKeys c ((d, n) ∷ row) h =
    if-ind HasOnceKeys (d == c) {x = (d, n + 1) ∷ row} {y = (d, n) ∷ add_one c row} (λ _. h)
      λ other. (IsNew-add_one d c row (ground (arith, other)) h.0, add_one-HasOnceKeys c row h.1)

sum_row-add_one : (c : ℕ) (row : List (ℕ × ℕ)) → sum_row (add_one c row) ≡ 1 + sum_row row
unfolding add_one
sum_row-add_one c [] = refl
sum_row-add_one c ((d, n) ∷ row) = ground (arith, sum_row-add_one c row)

length-add_one : (c : ℕ) (row : List (ℕ × ℕ)) → 1 ≤ length (add_one c row)
unfolding add_one
length-add_one c [] = omega arith
length-add_one c ((d, n) ∷ row) =
    if-ind (λ (l : List (ℕ × ℕ)). 1 ≤ length l) (d == c) (λ _. omega arith) λ _. omega arith

IsKnown-add_one :
    (alphabet : List ℕ) (c : ℕ) (row : List (ℕ × ℕ))
    → contains alphabet c ≡ true
    → All (IsKnown alphabet) row
    → All (IsKnown alphabet) (add_one c row)
unfolding add_one
IsKnown-add_one alphabet c [] known h = (known, tt)
IsKnown-add_one alphabet c ((d, n) ∷ row) known h =
    if-ind (All (IsKnown alphabet)) (d == c) (λ _. h)
      λ _. (h.0, IsKnown-add_one alphabet c row known h.1)

-- The rows of a model, each of them counted in a larger alphabet.
IsCounted-add_char :
    (c : ℕ) (alphabet : List ℕ) (e : ℕ × List (ℕ × ℕ))
    → IsCounted alphabet e.0 e.1
    → IsCounted (add_char c alphabet) e.0 e.1
IsCounted-add_char c alphabet (from, row) h = record {
  known_from = still_known c from alphabet h.known_from;
  known =
      All-imp (IsKnown alphabet) (IsKnown (add_char c alphabet)) row
        (λ e known. still_known c e.0 alphabet known) h.known;
  once = h.once;
  not_empty = h.not_empty;
}

AllCounted-add_char :
    (c : ℕ) (alphabet : List ℕ) (rows : List (ℕ × List (ℕ × ℕ)))
    → AllCounted alphabet rows
    → AllCounted (add_char c alphabet) rows
AllCounted-add_char c alphabet rows h =
    All-imp (λ (e : ℕ × List (ℕ × ℕ)). IsCounted alphabet e.0 e.1)
      (λ e. IsCounted (add_char c alphabet) e.0 e.1) rows (IsCounted-add_char c alphabet) h

IsCounted-add_one :
    (alphabet : List ℕ) (from to : ℕ) (row : List (ℕ × ℕ))
    → contains alphabet to ≡ true
    → IsCounted alphabet from row
    → IsCounted alphabet from (add_one to row)
IsCounted-add_one alphabet from to row known h = record {
  known_from = h.known_from;
  known = IsKnown-add_one alphabet to row known h.known;
  once = add_one-HasOnceKeys to row h.once;
  not_empty = length-add_one to row;
}

AllCounted-add_transition :
    (alphabet : List ℕ) (from to : ℕ) (rows : List (ℕ × List (ℕ × ℕ)))
    → contains alphabet from ≡ true
    → contains alphabet to ≡ true
    → AllCounted alphabet rows
    → AllCounted alphabet (add_transition from to rows)
unfolding add_transition
AllCounted-add_transition alphabet from to [] known_from known h = (
  record {
    known_from = known_from;
    known = IsKnown-add_one alphabet to [] known tt;
    once = add_one-HasOnceKeys to [] tt;
    not_empty = length-add_one to [];
  },
  tt,
)
AllCounted-add_transition alphabet from to ((d, row) ∷ rest) known_from known h =
    if-ind (AllCounted alphabet) (d == from)
      (λ _. (IsCounted-add_one alphabet d to row known h.0, h.1))
      λ _. (h.0, AllCounted-add_transition alphabet from to rest known_from known h.1)

IsNew-add_transition :
    (k from to : ℕ) (rows : List (ℕ × List (ℕ × ℕ)))
    → (from == k) ≡ false
    → IsNew k rows
    → IsNew k (add_transition from to rows)
unfolding add_transition
IsNew-add_transition k from to [] other h = (other, tt)
IsNew-add_transition k from to ((d, row) ∷ rest) other h =
    if-ind (IsNew k) (d == from) (λ _. h) λ _. (h.0, IsNew-add_transition k from to rest other h.1)

add_transition-HasOnceKeys :
    (from to : ℕ) (rows : List (ℕ × List (ℕ × ℕ)))
    → HasOnceKeys rows
    → HasOnceKeys (add_transition from to rows)
unfolding add_transition
add_transition-HasOnceKeys from to [] h = (tt, tt)
add_transition-HasOnceKeys from to ((d, row) ∷ rest) h =
    if-ind HasOnceKeys (d == from) {x = (d, add_one to row) ∷ rest}
      {y = (d, row) ∷ add_transition from to rest} (λ _. h)
      λ other. (
        IsNew-add_transition d from to rest (ground (arith, other)) h.0,
        add_transition-HasOnceKeys from to rest h.1,
      )

sum_row-add_transition :
    (c from to : ℕ) (rows : List (ℕ × List (ℕ × ℕ)))
    → sum_row (row_of c (add_transition from to rows))
      ≡ (if from == c then 1 else 0) + sum_row (row_of c rows)
unfolding row_of add_transition
sum_row-add_transition c from to [] = ground (arith, sum_row-add_one to [])
sum_row-add_transition c from to ((d, row) ∷ rest) =
    ground (arith, sum_row-add_one to row, sum_row-add_transition c from to rest)

count_transition-IsModel :
    (from to : ℕ) (m : MarkovModel)
    → contains m.alphabet_ from ≡ true
    → IsModel m
    → IsModel (count_transition from to m)
unfolding count_transition
count_transition-IsModel from to m known h = record {
  rows_counted =
      AllCounted-add_transition (add_char to m.alphabet_) from to m.counts_
        (still_known to from m.alphabet_ known) (now_known to m.alphabet_)
        (AllCounted-add_char to m.alphabet_ m.counts_ h.rows_counted);
  once_rows = add_transition-HasOnceKeys from to m.counts_ h.once_rows;
  once_chars = add_char-IsDistinct to m.alphabet_ h.once_chars;
  row_sums = λ c. omega (
    arith,
    count_of-add_one c from m.row_totals_,
    sum_row-add_transition c from to m.counts_,
    h.row_sums c,
  );
}

observe_from-IsModel :
    (from : ℕ) (s : Bytes) (m : MarkovModel)
    → contains m.alphabet_ from ≡ true
    → IsModel m
    → IsModel (observe_from from s m)
unfolding observe_from count_transition
observe_from-IsModel from [] m known h = h
observe_from-IsModel from (to ∷ s) m known h =
    observe_from-IsModel to s (count_transition from to m) (now_known to m.alphabet_)
      (count_transition-IsModel from to m known h)

observe-IsModel : (s : Bytes) (m : MarkovModel) → IsModel m → IsModel (observe s m)
unfolding observe
observe-IsModel [] m h = h
observe-IsModel (c ∷ []) m h = h
observe-IsModel (c ∷ d ∷ s) m h =
    observe_from-IsModel c (d ∷ s) _ (now_known c m.alphabet_) (record {
      rows_counted = AllCounted-add_char c m.alphabet_ m.counts_ h.rows_counted;
      once_rows = h.once_rows;
      once_chars = add_char-IsDistinct c m.alphabet_ h.once_chars;
      row_sums = h.row_sums;
    })

-- Training on any strings keeps a model consistent: no row or column comes twice, no row is empty,
-- every character is in the alphabet once, and the total of a row is its sum.
pub train-IsModel : (ss : List Bytes) (m : MarkovModel) → IsModel m → IsModel (train ss m)
unfolding train
train-IsModel [] m h = h
train-IsModel (s ∷ ss) m h = train-IsModel ss (observe s m) (observe-IsModel s m h)
