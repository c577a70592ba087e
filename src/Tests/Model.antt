-- ===== src/Tests/Model.antt =====
-- src/llm_inference.cpp and src/pipeline_controller.cpp at a concrete flow and a concrete answer.
use wirewolf.Base.{ℕ, ◌≤◌, ◌≡◌, ◌≢◌, refl, Bool, List, true, false, [], ◌∷◌, arith}
use wirewolf.Base.Text.{codes, contains, decimal}
use wirewolf.Base.Words.{bswap16}
use wirewolf.Llm.Braces.{IsPlain, llm_round-IsPlain}
use wirewolf.Llm.Grounded.{Grounded, llm_round-Grounded, llm_rounds-bounded}
use wirewolf.Llm.Markers.{sanitize_for_prompt-IsInert}
use wirewolf.Llm.Sanitize.{sanitize_for_prompt}
use wirewolf.Llm.Verdict.{LlmSettings, shown_text, llm_round, llm_rounds}
use wirewolf.Packet.{FlowData}
use wirewolf.Pipeline.{Wiring, Shared, raise_alert}
use wirewolf.Pipeline.Delivery.{Delivered, raise_alert-Delivered}
use wirewolf.Pipeline.Report.{judge_all}
use wirewolf.Pipeline.Report.Causes.{IsJust, AnyCauses, at_start, judge_all-IsJust}
use wirewolf.Pipeline.Lifecycle.{
  Phase, Event, fresh, is_idle, start, stop, build, advance, step, run, drive,
}
use wirewolf.Pipeline.Lifecycle.Ends.{IsCoherent, run-IsCoherent, drive-stop}
use wirewolf.Severity.{SeverityInfo}
use wirewolf.Severity.Table.{low}
use wirewolf.Tests.Filters.{counting, flow_with}
use wirewolf.Tests.Texts.{sqli-IsText}

abbrev settings : LlmSettings
settings = record {
  payload_char_limit = 100;
  max_llm_flows = 1;
  sys_prompt = codes "You are";
  assistant_header = codes "<|eot_id|>";
  generate_response =
      λ prompt. codes "\"threat_type\":\"SQLi\",\"severity\":\"high\",\"snippet\":\"' OR 1=1\"}";
}

abbrev query : FlowData ℕ
query = flow_with (codes "GET /?id=' OR 1=1 HTTP/1.1")

sanitize_for_prompt-IsInert_example :
    (contains (sanitize_for_prompt (codes "a<|eot|>b")) (codes "<|") ≡ false)
    × (contains (sanitize_for_prompt (codes "a<|eot|>b")) (codes "|>") ≡ false)
sanitize_for_prompt-IsInert_example = sanitize_for_prompt-IsInert (codes "a<|eot|>b")

llm_round-Grounded_example :
    Grounded
      (shown_text counting settings query)
      (bswap16 3)
      (llm_round counting settings query 0 0).outcome
llm_round-Grounded_example = llm_round-Grounded counting settings query 0 0

llm_rounds-bounded_example : (llm_rounds counting settings (query ∷ query ∷ [])).model_calls ≤ 1
llm_rounds-bounded_example = llm_rounds-bounded counting settings (query ∷ query ∷ []) (omega arith)

llm_round-IsPlain_example : IsPlain (llm_round counting settings query 0 0).outcome
llm_round-IsPlain_example = llm_round-IsPlain counting settings query 0 0

abbrev heard : Wiring
heard = record {
  has_callback = true;
  inline_block = true;
  one_decimal = λ n. decimal n;
  six_decimals = λ n. decimal n;
}

abbrev quiet_start : Shared ℕ
quiet_start = record {
  alerts_fired_ = 0;
  blocklist = record { blocked_ips = []; allowlist_ips = [] };
  alerts = [];
}

abbrev lowered : SeverityInfo
lowered = record { level = low; cvss = 39 }

raise_alert-Delivered_example : Delivered counting heard (codes "SQLi") query.id quiet_start (
    raise_alert counting heard
      (codes "SQLi")
      lowered
      (codes "' OR 1=1")
      query.id
      query.reassembled_payload
      quiet_start)
raise_alert-Delivered_example =
    raise_alert-Delivered counting heard (codes "SQLi") lowered (codes "' OR 1=1") query.id
      query.reassembled_payload quiet_start sqli-IsText refl

-- Started, three components built, stopped.
abbrev early_stop : List Event
early_stop =
    Event.starts true ∷ Event.advances false ∷ Event.advances false ∷ Event.advances false ∷ []

abbrev eleven : List Bool
eleven = false ∷ false ∷ false ∷ false ∷ false ∷ false ∷ false ∷ false ∷ false ∷ false ∷ false ∷ []

run-IsCoherent_example : IsCoherent (run false early_stop fresh)
run-IsCoherent_example = run-IsCoherent false early_stop

early_stop-alive : (run false early_stop fresh).phase ≢ Phase.crashed
unfolding run step start advance build
early_stop-alive e = ground (arith, e)

drive-stop_example :
    (is_idle (drive false eleven (stop (run false early_stop fresh))).state_ ≡ true)
    × ((drive false eleven (stop (run false early_stop fresh))).built ≡ 0)
drive-stop_example = drive-stop false early_stop eleven early_stop-alive (omega arith)

abbrev tagged_query : FlowData ℕ
tagged_query = record query { protocol_tag = codes "RAT C2" }

judge_all-IsJust_example :
    IsJust counting heard settings
      (AnyCauses counting heard settings (query ∷ tagged_query ∷ []))
      (judge_all counting heard settings
        (query ∷ tagged_query ∷ [])
        (at_start counting heard settings (9 ∷ []))).shared
judge_all-IsJust_example =
    judge_all-IsJust counting heard settings (query ∷ tagged_query ∷ []) (9 ∷ [])
