-- ===== src/Behavioral.antt =====
-- src/behavioral_model.cpp: connections encoded as strings of states, and the Markov model of their
-- transitions. A `std::map` is an association list; the order of its keys is not observed. Reading
-- and writing model files is left out.
use wirewolf.Base.{
  ℕ, zero, suc, ◌+◌, ◌-◌, ◌*◌, ◌%◌, Bool, List, [], ◌∷◌, length, get_elem?, ltb, leb, ◌==◌,
  if◌then◌else◌, Option, none, some,
}
use wirewolf.Base.Doubles.{Doubles}
use wirewolf.Base.Text.{Bytes, codes}
pub mod Counts
pub mod Store

module _ (r : Doubles) where
  open r use {Double, of_ℕ, add, sub, mul, div, lt}

  pub record Flow : Type 0 where
    pub start_time : Double
    pub duration : Double
    pub tot_bytes : ℕ

  pub record BehavioralConfig : Type 0 where
    pub byte_buckets : List ℕ
    pub dur_buckets : List Double
    pub gap_buckets : List Double

  unfoldable pub bucket_of : {A : Type 0} → (A → A → Bool) → A → List A → ℕ
  bucket_of less v [] = 0
  bucket_of less v (b ∷ bs) = let later = bucket_of less v bs in if less v b then 0 else suc later

  -- `std::sort` by start time. Flows that start together have no fixed order in the source; here
  -- they keep theirs.
  unfoldable pub insert_flow : Flow → List Flow → List Flow
  insert_flow f [] = f ∷ []
  insert_flow f (g ∷ gs) =
      if lt g.start_time f.start_time then g ∷ insert_flow f gs else f ∷ (g ∷ gs)

  unfoldable pub sort_flows : List Flow → List Flow
  sort_flows [] = []
  sort_flows (f ∷ fs) = insert_flow f (sort_flows fs)

  -- The letter is a `char`, kept as its byte.
  unfoldable pub letter : BehavioralConfig → Flow → ℕ
  letter cfg f =
      (b'a'
        + (bucket_of ltb f.tot_bytes cfg.byte_buckets * (length cfg.dur_buckets + 1)
            + bucket_of lt f.duration cfg.dur_buckets))
      % 256

  abbrev pub k_symbols : Bytes
  k_symbols = codes ".-+*#%@"

  abbrev or_zero : Option ℕ → ℕ
  or_zero none = 0
  or_zero (some c) = c

  unfoldable pub symbol_at : ℕ → ℕ
  symbol_at i = or_zero (get_elem? k_symbols (if leb 7 i then 6 else i))

  abbrev gap_after : Double → Double → Double
  gap_after prev now = let gap = sub now prev in if lt gap (of_ℕ 0) then of_ℕ 0 else gap

  unfoldable pub symbol : BehavioralConfig → Option Double → Double → ℕ
  symbol cfg none now = symbol_at 0
  symbol cfg (some prev) now = symbol_at (1 + bucket_of lt (gap_after prev now) cfg.gap_buckets)

  unfoldable pub encode_from : BehavioralConfig → Option Double → List Flow → Bytes
  encode_from cfg prev [] = []
  encode_from cfg prev (f ∷ fs) =
      letter cfg f ∷ symbol cfg prev f.start_time ∷ encode_from cfg (some f.start_time) fs

  unfoldable pub encode_connection : List Flow → BehavioralConfig → Bytes
  encode_connection flows cfg =
      if ltb (length flows) 2 then [] else encode_from cfg none (sort_flows flows)

-- A map from characters to counts.
unfoldable pub count_of : ℕ → List (ℕ × ℕ) → ℕ
count_of c [] = 0
count_of c ((d, n) ∷ rest) = if d == c then n else count_of c rest

unfoldable pub add_one : ℕ → List (ℕ × ℕ) → List (ℕ × ℕ)
add_one c [] = (c, 1) ∷ []
add_one c ((d, n) ∷ rest) = if d == c then (d, n + 1) ∷ rest else (d, n) ∷ add_one c rest

unfoldable pub row_of : ℕ → List (ℕ × List (ℕ × ℕ)) → List (ℕ × ℕ)
row_of c [] = []
row_of c ((d, row) ∷ rest) = if d == c then row else row_of c rest

unfoldable pub add_transition : ℕ → ℕ → List (ℕ × List (ℕ × ℕ)) → List (ℕ × List (ℕ × ℕ))
add_transition from to [] = (from, add_one to []) ∷ []
add_transition from to ((d, row) ∷ rest) =
    if d == from then (d, add_one to row) ∷ rest else (d, row) ∷ add_transition from to rest

unfoldable pub add_char : ℕ → List ℕ → List ℕ
add_char c [] = c ∷ []
add_char c (d ∷ ds) = if d == c then d ∷ ds else d ∷ add_char c ds

pub record MarkovModel : Type 0 where
  pub counts_ : List (ℕ × List (ℕ × ℕ))
  pub row_totals_ : List (ℕ × ℕ)
  pub alphabet_ : List ℕ
  pub total_ : ℕ

unfoldable pub count_transition : ℕ → ℕ → MarkovModel → MarkovModel
count_transition from to m = record {
  counts_ = add_transition from to m.counts_;
  row_totals_ = add_one from m.row_totals_;
  alphabet_ = add_char to m.alphabet_;
  total_ = m.total_ + 1;
}

unfoldable pub observe_from : ℕ → Bytes → MarkovModel → MarkovModel
observe_from from [] m = m
observe_from from (to ∷ s) m = observe_from to s (count_transition from to m)

unfoldable pub observe : Bytes → MarkovModel → MarkovModel
observe [] m = m
observe (c ∷ []) m = m
observe (c ∷ d ∷ s) m = observe_from c (d ∷ s) (record m { alphabet_ = add_char c m.alphabet_ })

unfoldable pub train : List Bytes → MarkovModel → MarkovModel
train [] m = m
train (s ∷ ss) m = train ss (observe s m)

-- `std::log` is a parameter; `k` is the smoothing constant.
module _ (r : Doubles) (log : r.Double → r.Double) (k : r.Double) where
  open r use {Double, of_ℕ, add, mul, div}

  unfoldable pub log_prob : MarkovModel → ℕ → ℕ → Double
  log_prob m from to = log (
      div (add (of_ℕ (count_of to (row_of from m.counts_))) k)
        (add (of_ℕ (count_of from m.row_totals_)) (mul k (of_ℕ (length m.alphabet_)))))

  unfoldable pub sum_from : MarkovModel → ℕ → Bytes → Double → Double
  sum_from m from [] sum = sum
  sum_from m from (to ∷ s) sum = sum_from m to s (add sum (log_prob m from to))

  unfoldable pub score : MarkovModel → Bytes → Double
  score m [] = of_ℕ 0
  score m (c ∷ []) = of_ℕ 0
  score m (c ∷ d ∷ s) =
      if leb (length m.alphabet_) 0
      then of_ℕ 0
      else div (sum_from m c (d ∷ s) (of_ℕ 0)) (of_ℕ (length (d ∷ s)))
