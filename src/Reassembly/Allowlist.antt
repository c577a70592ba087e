-- ===== src/Reassembly/Allowlist.antt =====
-- src/tcp_reassembly.cpp, `set_block_allowlist`: the addresses that inline mode never drops. `scan`
-- is `sscanf` with the format `%u.%u.%u.%u`: the numbers that it matches.
use wirewolf.Base.{
  ℕ, ◌+◌, ◌*◌, ◌≡◌, ap, ◌∙◌, Bool, true, ◌&&◌, ◌||◌, List, [], ◌∷◌, ◌++◌, Option, none, some, ltb,
  ◌==◌, ==_refl, if◌then◌else◌, arith,
}
use wirewolf.Base.Text.{Bytes, split, drop_last_empty}
use wirewolf.Reassembly.Blocklist.{Blocklist, contains, insert, contains-insert}

abbrev is_blank : ℕ → Bool
is_blank c = c == b' ' || c == b'\t'

unfoldable pub trim_start : Bytes → Bytes
trim_start [] = []
trim_start (c ∷ cs) = if is_blank c then trim_start cs else (c ∷ cs)

abbrev keep : ℕ → Bytes → Bytes
keep c [] = if is_blank c then [] else (c ∷ [])
keep c (d ∷ ds) = c ∷ d ∷ ds

unfoldable pub trim_end : Bytes → Bytes
trim_end [] = []
trim_end (c ∷ cs) = keep c (trim_end cs)

-- The texts between the commas; none follows a last comma.
unfoldable pub tokens : Bytes → List Bytes
tokens csv = drop_last_empty (split b',' csv)

unfoldable pub address_of : List ℕ → Option ℕ
address_of (o0 ∷ o1 ∷ o2 ∷ o3 ∷ []) =
    if ltb o0 256 && ltb o1 256 && ltb o2 256 && ltb o3 256
    then some (o0 + o1 * 256 + o2 * 65536 + o3 * 16777216)
    else none
address_of _ = none

abbrev insert_some : Option ℕ → List ℕ → List ℕ
insert_some none ips = ips
insert_some (some ip) ips = insert ip ips

module _ (scan : Bytes → List ℕ) where
  abbrev parse_trimmed : Bytes → Option ℕ
  parse_trimmed [] = none
  parse_trimmed (c ∷ cs) = address_of (scan (c ∷ cs))

  unfoldable pub parse_token : Bytes → Option ℕ
  parse_token tok = parse_trimmed (trim_end (trim_start tok))

  unfoldable pub add_tokens : List Bytes → List ℕ → List ℕ
  add_tokens [] ips = ips
  add_tokens (t ∷ ts) ips = add_tokens ts (insert_some (parse_token t) ips)

  unfoldable pub set_block_allowlist : Bytes → Blocklist → Blocklist
  set_block_allowlist csv b = record b { allowlist_ips = add_tokens (tokens csv) [] }

  contains-insert_some :
      (o : Option ℕ) (ips : List ℕ) (ip : ℕ)
      → contains ips ip ≡ true
      → contains (insert_some o ips) ip ≡ true
  contains-insert_some none ips ip h = h
  contains-insert_some (some new) ips ip h = contains-insert new ip ips ∙ ground (arith, h)

  contains-add_tokens :
      (ts : List Bytes) (ips : List ℕ) (ip : ℕ)
      → contains ips ip ≡ true
      → contains (add_tokens ts ips) ip ≡ true
  unfolding add_tokens
  contains-add_tokens [] ips ip h = h
  contains-add_tokens (t ∷ ts) ips ip h =
      contains-add_tokens ts (insert_some (parse_token t) ips) ip
        (contains-insert_some (parse_token t) ips ip h)

  contains-add_tokens_token :
      (pre post : List Bytes) (tok : Bytes) (ips : List ℕ) (ip : ℕ)
      → parse_token tok ≡ some ip
      → contains (add_tokens (pre ++ tok ∷ post) ips) ip ≡ true
  unfolding add_tokens
  contains-add_tokens_token [] post tok ips ip h =
      let here : contains (insert_some (parse_token tok) ips) ip ≡ true =
        ap (λ o. contains (insert_some o ips) ip) h
        ∙ contains-insert ip ip ips
        ∙ ground (arith, ==_refl ip) in
      contains-add_tokens post (insert_some (parse_token tok) ips) ip here
  contains-add_tokens_token (p ∷ pre) post tok ips ip h =
      contains-add_tokens_token pre post tok (insert_some (parse_token p) ips) ip h

  -- Each address that a token of the list names is on the allowlist afterwards, whatever the other
  -- tokens are.
  pub contains-set_block_allowlist :
      (csv : Bytes) (b : Blocklist) (pre post : List Bytes) (tok : Bytes) (ip : ℕ)
      → tokens csv ≡ pre ++ tok ∷ post
      → parse_token tok ≡ some ip
      → contains (set_block_allowlist csv b).allowlist_ips ip ≡ true
  unfolding set_block_allowlist
  contains-set_block_allowlist csv b pre post tok ip is_list h =
      ap (λ ts. contains (add_tokens ts []) ip) is_list
      ∙ contains-add_tokens_token pre post tok [] ip h
