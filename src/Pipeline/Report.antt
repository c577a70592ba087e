-- ===== src/Pipeline/Report.antt =====
-- src/llm_inference.cpp and src/pipeline_controller.cpp: from the flows that reach the LLM stage to the
-- reports and the blocklist.
use wirewolf.Alert.{build_alert_json}
use wirewolf.Base.{ℕ, ◌≡◌, ◌⊎◌, Bool, List, [], ◌∷◌}
use wirewolf.Base.Doubles.{Doubles}
use wirewolf.Base.Text.{Bytes}
use wirewolf.Llm.Verdict.{LlmSettings, Outcome, Round, llm_round}
use wirewolf.Packet.{ConnectionId, FlowData}
use wirewolf.Pipeline.{Wiring, Shared, raise_alert}
pub mod Causes

module _ (r : Doubles) (w : Wiring) where
  open r use {Double}

  -- The calls of the alert callback.
  unfoldable pub report : ConnectionId → Outcome → Shared Double → Shared Double
  report cid (Outcome.alert t sev snippet payload) s = raise_alert r w t sev snippet cid payload s
  report cid (Outcome.decided tag sev snippet payload) s =
      raise_alert r w tag sev snippet cid payload s
  report cid _ s = s

  -- What a run of the stage leaves.
  pub record Stage : Type 0 where
    pub last : Round
    pub shared : Shared Double

  unfoldable pub judge : LlmSettings → FlowData Double → Stage → Stage
  judge c f t =
      let done = llm_round r c f t.last.llm_runs_ t.last.model_calls in
      record { last = done; shared = report f.id done.outcome t.shared }

  -- The flows that come out of the queue, the first one first.
  unfoldable pub judge_all : LlmSettings → List (FlowData Double) → Stage → Stage
  judge_all c [] t = t
  judge_all c (f ∷ fs) t = judge_all c fs (judge c f t)
