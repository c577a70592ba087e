-- ===== src/Behavioral/Counts.antt =====
-- src/behavioral_model.cpp: what the model's counters count.
use wirewolf.Base.{
  ℕ, suc, ◌+◌, ◌-◌, ◌*◌, ◌≡◌, refl, ◌∙◌, List, [], ◌∷◌, length, ltb, ◌==◌, if◌then◌else◌, Option,
  none, some, arith,
}
use wirewolf.Base.Doubles.{Doubles}
use wirewolf.Base.Text.{Bytes}
use wirewolf.Behavioral.{
  Flow, BehavioralConfig, insert_flow, sort_flows, encode_from, encode_connection, count_of,
  add_one, row_of, add_transition, MarkovModel, count_transition, observe_from, observe,
}

-- The occurrences of a pair of neighbours in a text.
abbrev pub pairs_from : ℕ → ℕ → ℕ → Bytes → ℕ
pairs_from from to c [] = 0
pairs_from from to c (d ∷ s) =
    (if c == from then (if d == to then 1 else 0) else 0) + pairs_from from to d s

abbrev pub pairs : ℕ → ℕ → Bytes → ℕ
pairs from to [] = 0
pairs from to (c ∷ s) = pairs_from from to c s

abbrev pub leaves_from : ℕ → ℕ → Bytes → ℕ
leaves_from from c [] = 0
leaves_from from c (d ∷ s) = (if c == from then 1 else 0) + leaves_from from d s

abbrev pub leaves : ℕ → Bytes → ℕ
leaves from [] = 0
leaves from (c ∷ s) = leaves_from from c s

abbrev pub seen : MarkovModel → ℕ → ℕ → ℕ
seen m from to = count_of to (row_of from m.counts_)

pub count_of-add_one :
    (c d : ℕ) (l : List (ℕ × ℕ))
    → count_of c (add_one d l) ≡ (if d == c then 1 else 0) + count_of c l
unfolding count_of add_one
count_of-add_one c d [] = ground arith
count_of-add_one c d ((e, n) ∷ rest) = ground (arith, count_of-add_one c d rest)

seen-add_transition :
    (from to a b : ℕ) (l : List (ℕ × List (ℕ × ℕ)))
    → count_of b (row_of a (add_transition from to l))
      ≡ (if from == a then (if to == b then 1 else 0) else 0) + count_of b (row_of a l)
unfolding row_of add_transition
seen-add_transition from to a b [] = ground (arith, count_of-add_one b to [])
seen-add_transition from to a b ((d, row) ∷ rest) =
    ground (arith, count_of-add_one b to row, seen-add_transition from to a b rest)

seen-observe_from :
    (a b c : ℕ) (s : Bytes) (m : MarkovModel)
    → seen (observe_from c s m) a b ≡ pairs_from a b c s + seen m a b
unfolding observe_from count_transition
seen-observe_from a b c [] m = omega arith
seen-observe_from a b c (d ∷ s) m =
    seen-observe_from a b d s (count_transition c d m)
    ∙ omega (arith, seen-add_transition c d a b m.counts_)

-- Observing a state string adds to each transition's count the number of times that it occurs in
-- the string, and nothing else.
pub seen-observe :
    (a b : ℕ) (s : Bytes) (m : MarkovModel) → seen (observe s m) a b ≡ pairs a b s + seen m a b
unfolding observe
seen-observe a b [] m = omega arith
seen-observe a b (c ∷ []) m = omega arith
seen-observe a b (c ∷ d ∷ s) m = seen-observe_from a b c (d ∷ s) _

total_-observe_from :
    (c : ℕ) (s : Bytes) (m : MarkovModel) → (observe_from c s m).total_ ≡ length s + m.total_
unfolding observe_from count_transition
total_-observe_from c [] m = omega arith
total_-observe_from c (d ∷ s) m = total_-observe_from d s (count_transition c d m) ∙ omega arith

row-observe_from :
    (a c : ℕ) (s : Bytes) (m : MarkovModel)
    → count_of a (observe_from c s m).row_totals_ ≡ leaves_from a c s + count_of a m.row_totals_
unfolding observe_from count_transition
row-observe_from a c [] m = omega arith
row-observe_from a c (d ∷ s) m =
    row-observe_from a d s (count_transition c d m)
    ∙ omega (arith, count_of-add_one a c m.row_totals_)

-- Observing a state string adds to each row total the number of transitions that leave its
-- character in the string, and to the total the number of all its transitions.
pub totals-observe :
    (a : ℕ) (s : Bytes) (m : MarkovModel)
    → (count_of a (observe s m).row_totals_ ≡ leaves a s + count_of a m.row_totals_)
      × ((observe s m).total_ ≡ (length s - 1) + m.total_)
unfolding observe
totals-observe a [] m = (omega arith, omega arith)
totals-observe a (c ∷ []) m = (omega arith, omega arith)
totals-observe a (c ∷ d ∷ s) m =
    (row-observe_from a c (d ∷ s) _, total_-observe_from c (d ∷ s) _ ∙ omega arith)

module _ (r : Doubles) where
  length-insert_flow :
      (f : Flow r) (fs : List (Flow r)) → length (insert_flow r f fs) ≡ suc (length fs)
  unfolding insert_flow
  length-insert_flow f [] = refl
  length-insert_flow f (g ∷ gs) = ground (arith, length-insert_flow f gs)

  length-sort_flows : (fs : List (Flow r)) → length (sort_flows r fs) ≡ length fs
  unfolding sort_flows
  length-sort_flows [] = refl
  length-sort_flows (f ∷ fs) =
      omega (arith, length-insert_flow f (sort_flows r fs), length-sort_flows fs)

  length-encode_from :
      (cfg : BehavioralConfig r) (prev : Option r.Double) (fs : List (Flow r))
      → length (encode_from r cfg prev fs) ≡ length fs * 2
  unfolding encode_from
  length-encode_from cfg prev [] = refl
  length-encode_from cfg prev (f ∷ fs) =
      omega (arith, length-encode_from cfg (some f.start_time) fs)

  -- Two or more flows are encoded as two characters each, fewer as the empty text.
  pub length-encode_connection :
      (flows : List (Flow r)) (cfg : BehavioralConfig r)
      → length (encode_connection r flows cfg)
        ≡ (if ltb (length flows) 2 then 0 else length flows * 2)
  unfolding encode_connection
  length-encode_connection flows cfg =
      ground (arith, length-encode_from cfg none (sort_flows r flows), length-sort_flows flows)
