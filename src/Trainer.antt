-- ===== src/Trainer.antt =====
-- tools/train_behavioral/train.cpp: the trainer's dates and labels, and the figures of its evaluation.
use wirewolf.Base.{
  Option, none, some, true, false, List, [], ◌∷◌, length, ℕ, zero, suc, ◌+◌, ◌-◌, ◌*◌, ◌/◌, ◌%◌,
  ◌^◌, ◌&&◌, ◌||◌, not, Bool, leb, ltb, ◌==◌, if◌then◌else◌,
}
use wirewolf.Base.Bytes.{◌>>=◌}
use wirewolf.Base.Doubles.{Doubles}
use wirewolf.Base.Text.{Bytes, codes, contains, to_lower}
use wirewolf.Behavioral.{Flow, MarkovModel, BehavioralConfig, encode_connection, observe, score}
use wirewolf.Config.{ℤ, pos, negsuc}
pub mod Calendar
pub mod Gregorian
pub mod Evaluation

-- The difference of two numbers that are not negative.
unfoldable pub minus : ℕ → ℕ → ℤ
minus a b = if leb b a then pos (a - b) else negsuc (b - a - 1)

abbrev pub dec : ℤ → ℤ
dec (pos zero) = negsuc 0
dec (pos (suc n)) = pos n
dec (negsuc n) = negsuc (suc n)

-- Months and days are unsigned words of 32 bits.
unfoldable pub day_of_year : ℕ → ℕ → ℕ
day_of_year m d =
    let shift = if ltb 2 m then 2 ^ 32 - 3 else 9 in
    ((153 * ((m + shift) % 2 ^ 32) + 2) % 2 ^ 32 / 5 + d + (2 ^ 32 - 1)) % 2 ^ 32

unfoldable pub day_of_era : ℕ → ℕ → ℕ → ℕ
day_of_era yoe m d = (yoe * 365 + yoe / 4 + (2 ^ 32 - yoe / 100) + day_of_year m d) % 2 ^ 32

abbrev pub sum : ℤ → ℤ → ℤ
sum (pos a) (pos b) = pos (a + b)
sum (pos a) (negsuc b) = minus a (b + 1)
sum (negsuc a) (pos b) = minus b (a + 1)
sum (negsuc a) (negsuc b) = negsuc (a + b + 1)

-- The result of a signed operation whose type reaches from -w to w - 1; none if it overflows.
unfoldable pub fits : ℕ → ℤ → Option ℤ
fits w (pos n) = if ltb n w then some (pos n) else none
fits w (negsuc n) = if ltb n w then some (negsuc n) else none

-- `(long)doe`: a word above the largest `long` wraps around.
abbrev pub as_long : ℕ → ℕ → ℤ
as_long w doe = if ltb doe w then pos doe else minus doe (2 * w)

unfoldable pub days_of : ℕ → ℤ → ℕ → Option ℤ
days_of w start doe = do
  first ← fits w start
  day ← fits w (sum first (as_long w doe))
  fits w (sum day (negsuc 719467))

-- `y - 399` is an operation on `int`; the quotient and what follows are `long`.
unfoldable pub days_in_era : ℕ → ℤ → ℕ → ℕ → Option ℤ
days_in_era w (pos y) m d = days_of w (pos (y / 400 * 146097)) (day_of_era (y - y / 400 * 400) m d)
days_in_era w (negsuc n) m d =
    let eras = (n + 400) / 400 in
    if ltb (2 ^ 31) (n + 400)
    then none
    else days_of w (negsuc (eras * 146097 - 1)) (day_of_era (eras * 400 - (n + 1)) m d)

-- `int` has 32 bits; `long` reaches from -w to w - 1.
unfoldable pub days_from_civil : ℕ → ℤ → ℕ → ℕ → Option ℤ
days_from_civil w y m d = do
  year ← fits (2 ^ 31) (if leb m 2 then dec y else y)
  days_in_era w year m d

pub data Cls : Type 0 where
  botnet normal background other : Cls

unfoldable pub classify : Bytes → Cls
classify label =
    let l = to_lower label in
    if contains l (codes "botnet")
    then Cls.botnet
    else if contains l (codes "normal")
    then Cls.normal
    else if contains l (codes "background")
    then Cls.background
    else Cls.other

-- How many rows of each class a connection has; `total` counts those of no class, too.
pub record LblCount : Type 0 where
  pub bot : ℕ
  pub norm : ℕ
  pub bg : ℕ
  pub total : ℕ

unfoldable pub count_label : Cls → LblCount → LblCount
count_label Cls.botnet c = record c { bot = c.bot + 1; total = c.total + 1 }
count_label Cls.normal c = record c { norm = c.norm + 1; total = c.total + 1 }
count_label Cls.background c = record c { bg = c.bg + 1; total = c.total + 1 }
count_label Cls.other c = record c { total = c.total + 1 }

abbrev any_label : LblCount → Cls
any_label c =
    if ltb 0 c.bot then Cls.botnet else if ltb 0 c.norm then Cls.normal else Cls.background

abbrev majority_label : ℕ → LblCount → Cls
majority_label total c =
    if ltb total (c.bot * 2)
    then Cls.botnet
    else if leb c.bg c.norm
    then Cls.normal
    else Cls.background

unfoldable pub conn_label : Bool → LblCount → Cls
conn_label majority a = if majority then majority_label a.total a else any_label a

-- Of a pair of hosts; its total leaves out the rows of no class.
unfoldable pub key_label : Bool → LblCount → Cls
key_label majority c = if majority then majority_label (c.bot + c.norm + c.bg) c else any_label c

-- Whether a class is trained as botnet traffic, as other traffic, or not at all.
unfoldable pub sample_of : Bool → Cls → Option Bool
sample_of include_bg Cls.botnet = some true
sample_of include_bg Cls.normal = some false
sample_of include_bg Cls.background = if include_bg then some false else none
sample_of include_bg Cls.other = none

module _ (r : Doubles) where
  open r use {Double, sub, lt}

  pub record ConnAcc : Type 0 where
    pub flows : List (Flow r)
    pub labels : LblCount

  pub record Models : Type 0 where
    pub bot : MarkovModel
    pub norm : MarkovModel

  unfoldable pub observe_as : Option Bool → Bytes → Models → Models
  observe_as none s m = m
  observe_as (some true) s m = record m { bot = observe s m.bot }
  observe_as (some false) s m = record m { norm = observe s m.norm }

  module _ (cfg : BehavioralConfig r) (min_flows : ℕ) (majority include_bg : Bool) where
    -- The state string of a connection that is long enough.
    unfoldable pub state_of : ConnAcc → Option Bytes
    state_of a =
        if ltb (length a.flows) min_flows
        then none
        else (let s = encode_connection r a.flows cfg in if ltb (length s) 2 then none else some s)

    abbrev train_state : ConnAcc → Option Bytes → Models → Models
    train_state a none m = m
    train_state a (some s) m = observe_as (sample_of include_bg (conn_label majority a.labels)) s m

    -- The loop over the connections.
    unfoldable pub train_all : List ConnAcc → Models → Models
    train_all [] m = m
    train_all (a ∷ conns) m = train_all conns (train_state a (state_of a) m)

  pub record Sample : Type 0 where
    pub llr : Double
    pub is_botnet : Bool

  pub record Confusion : Type 0 where
    pub tp : ℕ
    pub fp : ℕ
    pub fn : ℕ
    pub tn : ℕ

  abbrev pub count_sample : Bool → Bool → Confusion → Confusion
  count_sample true true c = record c { tp = c.tp + 1 }
  count_sample true false c = record c { fn = c.fn + 1 }
  count_sample false true c = record c { fp = c.fp + 1 }
  count_sample false false c = record c { tn = c.tn + 1 }

  abbrev pub no_samples : Confusion
  no_samples = record { tp = 0; fp = 0; fn = 0; tn = 0 }

  unfoldable pub confusion : Double → List Sample → Confusion → Confusion
  confusion thr [] c = c
  confusion thr (s ∷ samples) c = confusion thr samples (count_sample s.is_botnet (lt thr s.llr) c)
