-- ===== src/Filter/Injection.antt =====
-- src/npu_filter.cpp, `detect_obfuscated_injection`, on the canonical payload.
use Prim.Native.String.{String}
use wirewolf.Base.{Bool, false, List, [], ◌∷◌, length, ltb, if◌then◌else◌}
use wirewolf.Base.Text.{Bytes}
use wirewolf.Filter.Ftp.{contains_any}

abbrev pub markers : List String
markers =
    "' or 1=1" ∷ "\" or 1=1" ∷ "' or '1'='1" ∷ "union select" ∷ "; drop table" ∷ "waitfor delay"
    ∷ "benchmark(" ∷ "sleep(" ∷ "extractvalue(" ∷ "updatexml(" ∷ "information_schema" ∷ "<script"
    ∷ "javascript:" ∷ "onerror=" ∷ "onload=" ∷ "onmouseover=" ∷ "<svg" ∷ "<img src="
    ∷ "document.cookie" ∷ "string.fromcharcode(" ∷ ";cat /etc" ∷ "|cat /etc" ∷ "/bin/sh"
    ∷ "/bin/bash -i" ∷ "; nc " ∷ "| nc " ∷ "$(" ∷ "`id`" ∷ "; wget http" ∷ "; curl http"
    ∷ "powershell -e" ∷ "/dev/tcp/" ∷ "../../" ∷ "..\\..\\" ∷ "/etc/passwd" ∷ "/etc/shadow"
    ∷ "php://filter" ∷ "php://input" ∷ "/proc/self/environ" ∷ "{{7*7}}" ∷ "${jndi:" ∷ "${(" ∷ "#{"
    ∷ "t(java.lang.runtime)" ∷ "() {" ∷ "ac ed 00 05" ∷ "__proto__" ∷ "<!entity" ∷ "system \"file:"
    ∷ "system \"http" ∷ []

unfoldable pub detect_obfuscated_injection : Bytes → Bool
detect_obfuscated_injection n = if ltb (length n) 6 then false else contains_any markers n
