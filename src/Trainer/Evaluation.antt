-- ===== src/Trainer/Evaluation.antt =====
-- tools/train_behavioral/train.cpp: the figures of the evaluation against the threshold.
use wirewolf.Base.{◌+◌, ◌≤◌, ◌≡◌, refl, Bool, true, false, List, [], ◌∷◌, arith}
use wirewolf.Base.Doubles.{Doubles}
use wirewolf.Trainer.{Sample, Confusion, count_sample, confusion, no_samples}

module _ (r : Doubles) where
  open r use {Double, lt}

  -- One confusion has no more alarms than another, and as many samples of either kind.
  pub record IsStricter (c d : Confusion r) : Type 0 where
    pub fewer_hits : c.tp ≤ d.tp
    pub fewer_false_alarms : c.fp ≤ d.fp
    pub same_botnet : c.tp + c.fn ≡ d.tp + d.fn
    pub same_other : c.fp + c.tn ≡ d.fp + d.tn

  -- What is above the higher threshold is above the lower one.
  count_sample-IsStricter :
      (is_botnet high low : Bool) (c d : Confusion r)
      → (high ≡ true → low ≡ true)
      → IsStricter c d
      → IsStricter (count_sample r is_botnet high c) (count_sample r is_botnet low d)
  count_sample-IsStricter true true true c d below h =
      omega (arith, h.fewer_hits, h.fewer_false_alarms, h.same_botnet, h.same_other)
  count_sample-IsStricter true true false c d below h = ground (arith, below refl)
  count_sample-IsStricter true false true c d below h =
      omega (arith, h.fewer_hits, h.fewer_false_alarms, h.same_botnet, h.same_other)
  count_sample-IsStricter true false false c d below h =
      omega (arith, h.fewer_hits, h.fewer_false_alarms, h.same_botnet, h.same_other)
  count_sample-IsStricter false true true c d below h =
      omega (arith, h.fewer_hits, h.fewer_false_alarms, h.same_botnet, h.same_other)
  count_sample-IsStricter false true false c d below h = ground (arith, below refl)
  count_sample-IsStricter false false true c d below h =
      omega (arith, h.fewer_hits, h.fewer_false_alarms, h.same_botnet, h.same_other)
  count_sample-IsStricter false false false c d below h =
      omega (arith, h.fewer_hits, h.fewer_false_alarms, h.same_botnet, h.same_other)

  confusion-counted :
      (high low : Double) (samples : List (Sample r)) (c d : Confusion r)
      → ((x : Double) → lt high x ≡ true → lt low x ≡ true)
      → IsStricter c d
      → IsStricter (confusion r high samples c) (confusion r low samples d)
  unfolding confusion
  confusion-counted high low [] c d below h = h
  confusion-counted high low (s ∷ samples) c d below h =
      confusion-counted high low samples _ _ below
        (count_sample-IsStricter s.is_botnet (lt high s.llr) (lt low s.llr) c d (below s.llr) h)

  -- Of two thresholds such that what is above the one is above the other, the higher one gives no
  -- more detections and no more false alarms on the same samples, and counts as many botnet samples
  -- and as many others.
  pub confusion-IsStricter :
      (high low : Double) (samples : List (Sample r))
      → ((x : Double) → lt high x ≡ true → lt low x ≡ true)
      → IsStricter
          (confusion r high samples (no_samples r))
          (confusion r low samples (no_samples r))
  confusion-IsStricter high low samples below =
      confusion-counted high low samples (no_samples r) (no_samples r) below (record {
        fewer_hits = omega arith;
        fewer_false_alarms = omega arith;
        same_botnet = refl;
        same_other = refl;
      })
