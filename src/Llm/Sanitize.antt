-- ===== src/Llm/Sanitize.antt =====
-- src/llm_inference.cpp, `sanitize_for_prompt`.
use wirewolf.Base.{ℕ, zero, suc, ◌-◌, [], ◌∷◌, ◌++◌, length, if◌then◌else◌}
use wirewolf.Base.Text.{Bytes, codes, starts_with}

-- The loop over the matches: `skip` bytes belong to the last one.
unfoldable pub replace_all : Bytes → Bytes → ℕ → Bytes → Bytes
replace_all from to skip [] = []
replace_all from to (suc skip) (c ∷ cs) = replace_all from to skip cs
replace_all from to zero (c ∷ cs) =
    let hit = starts_with (c ∷ cs) from in
    let rest = replace_all from to (if hit then length from - 1 else 0) cs in
    if hit then to ++ rest else c ∷ rest

unfoldable pub sanitize_for_prompt : Bytes → Bytes
sanitize_for_prompt s =
    let s1 = replace_all (codes "<|") (codes "< |") 0 s in
    let s2 = replace_all (codes "|>") (codes "| >") 0 s1 in
    let s3 = replace_all (codes "[Context]") (codes "(Context)") 0 s2 in
    let s4 = replace_all (codes "[Payload]") (codes "(Payload)") 0 s3 in
    replace_all (codes "[Decoded]") (codes "(Decoded)") 0 s4
