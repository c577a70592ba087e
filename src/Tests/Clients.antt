-- ===== src/Tests/Clients.antt =====
-- src/wirewolf_capi.cpp at concrete calls.
use wirewolf.Base.{ℕ, List, [], ◌∷◌, none, some, true}
use wirewolf.Base.Text.{codes}
use wirewolf.Capi.{convert_alert}
use wirewolf.Capi.Buffers.{IsFlat, convert_alert-IsFlat}
use wirewolf.Capi.Served.{Call, calls, IsServed, calls-IsServed}
use wirewolf.Capi.Settings.{Setter, set_all}
use wirewolf.Capi.Usable.{IsUsable, set_all-IsUsable}
use wirewolf.Config.{pos, negsuc, defaults}
use wirewolf.Pipeline.{ThreatAlert}
use wirewolf.Severity.Table.{low}
use wirewolf.Tests.Filters.{counting}

abbrev some_calls : List (Call ℕ)
some_calls =
    Call.pushes 1 ∷ Call.pushes 2 ∷ Call.polls true (pos 1) ∷ Call.polls true (negsuc 0) ∷ []

calls-IsServed_example :
    IsServed (calls some_calls (record { pending = []; pushed = []; polled = [] }))
calls-IsServed_example = calls-IsServed some_calls

abbrev long_alert : ThreatAlert ℕ
long_alert = record {
  connection = record { src_ip = 1; dst_ip = 2; src_port = 3; dst_port = 4 };
  threat_type =
      codes "A threat type that is longer than the sixty-three bytes which its buffer has";
  severity = codes "Low";
  severity_info = record { level = low; cvss = 39 };
  snippet = [];
  raw_llm_output = codes "{}";
  payload_text = [];
  confidence = 0;
}

convert_alert-IsFlat_example : IsFlat counting long_alert (convert_alert counting long_alert)
convert_alert-IsFlat_example = convert_alert-IsFlat counting long_alert

abbrev some_setters : List (Setter ℕ)
some_setters =
    Setter.queue_capacity 0
    ∷ Setter.interface none
    ∷ Setter.llama_model (some (codes "m.gguf"))
    ∷ Setter.max_tokens (negsuc 4)
    ∷ []

set_all-IsUsable_example : IsUsable (set_all some_setters (defaults counting))
set_all-IsUsable_example = set_all-IsUsable counting some_setters
