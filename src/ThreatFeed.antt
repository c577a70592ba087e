-- ===== src/ThreatFeed.antt =====
-- include/threat_feed.hpp: the rule files that can be reloaded. The file system is a parameter: the
-- contents of the file at a path, or `none` where it cannot be opened.
use wirewolf.Base.{
  ℕ, ◌+◌, Bool, true, false, not, ◌&&◌, ◌||◌, List, [], ◌∷◌, ◌++◌, Option, none, some, length, ◌==◌,
  if◌then◌else◌,
}
use wirewolf.Base.Text.{Bytes, codes, eq_bytes, contains, to_lower, lines}
pub mod Lookups

pub record ContentSignature : Type 0 where
  pub name : Bytes
  pub severity : Bytes
  pub pattern_ : Bytes

-- The sets are lists without repetitions.
pub record ThreatFeed : Type 0 where
  pub bad_ja3_ : List Bytes
  pub bad_domains_ : List Bytes
  pub bad_ips_ : List Bytes
  pub signatures_ : List ContentSignature
  pub loaded_dir_ : Bytes

unfoldable pub has : List Bytes → Bytes → Bool
has [] v = false
has (x ∷ xs) v = eq_bytes x v || has xs v

unfoldable pub insert : Bytes → List Bytes → List Bytes
insert v xs = if has xs v then xs else v ∷ xs

abbrev pub is_nil {ℓ} : {A : Type ℓ} → List A → Bool
is_nil [] = true
is_nil (x ∷ xs) = false

abbrev is_blank : ℕ → Bool
is_blank c = c == b' ' || c == b'\t' || c == b'\r' || c == b'\n'

unfoldable pub trim_left : Bytes → Bytes
trim_left [] = []
trim_left (c ∷ cs) = if is_blank c then trim_left cs else (c ∷ cs)

unfoldable pub trim_right : Bytes → Bytes
trim_right [] = []
trim_right (c ∷ cs) =
    let rest = trim_right cs in if is_blank c && is_nil rest then [] else (c ∷ rest)

unfoldable pub trim : Bytes → Bytes
trim s = trim_right (trim_left s)

-- A blank line or a comment.
unfoldable pub ignored : Bytes → Bool
ignored [] = true
ignored (c ∷ cs) = c == b'#'

unfoldable pub add_line : Bool → Bytes → List Bytes → List Bytes
add_line lower line out =
    let v = trim line in if ignored v then out else (insert (if lower then to_lower v else v) out)

unfoldable pub load_lines : Bool → List Bytes → List Bytes → List Bytes
load_lines lower [] out = out
load_lines lower (l ∷ ls) out = load_lines lower ls (add_line lower l out)

unfoldable pub load_set : Bool → Option Bytes → List Bytes → List Bytes
load_set lower none out = out
load_set lower (some text) out = load_lines lower (lines text) out

-- `std::getline` up to a separator, and what is left of the text.
unfoldable pub cut : ℕ → Bytes → Bytes × Bytes
cut sep [] = ([], [])
cut sep (c ∷ cs) = let rest = cut sep cs in if c == sep then ([], cs) else (c ∷ rest.0, rest.1)

abbrev or_default : Bytes → Bytes
or_default [] = codes "Malware Payload"
or_default (c ∷ cs) = c ∷ cs

unfoldable pub parse_signature : Bytes → ContentSignature
parse_signature v =
    let name = cut b'|' v in
    let severity = cut b'|' name.1 in
    record {
      name = trim name.0;
      severity = or_default (trim severity.0);
      pattern_ = to_lower (trim severity.1);
    }

unfoldable pub add_signature : Bytes → List ContentSignature → List ContentSignature
add_signature line out =
    let v = trim line in
    let sig = parse_signature v in
    if ignored v || is_nil sig.pattern_ then out else out ++ (sig ∷ [])

unfoldable pub load_signature_lines : List Bytes → List ContentSignature → List ContentSignature
load_signature_lines [] out = out
load_signature_lines (l ∷ ls) out = load_signature_lines ls (add_signature l out)

unfoldable pub load_signatures : Option Bytes → List ContentSignature → List ContentSignature
load_signatures none out = out
load_signatures (some text) out = load_signature_lines (lines text) out

abbrev pub with_slash : Bytes → Bytes
with_slash [] = codes "/"
with_slash (c ∷ []) = if c == b'/' || c == 92 then (c ∷ []) else (c ∷ codes "/")
with_slash (c ∷ d ∷ cs) = c ∷ with_slash (d ∷ cs)

module _ (read_file : Bytes → Option Bytes) where
  unfoldable pub load_from : Bytes → ThreatFeed
  load_from dir =
      let base = with_slash dir in
      record {
        bad_ja3_ = load_set true (read_file (base ++ codes "bad_ja3.txt")) [];
        bad_domains_ = load_set true (read_file (base ++ codes "bad_domains.txt")) [];
        bad_ips_ = load_set false (read_file (base ++ codes "bad_ips.txt")) [];
        signatures_ = load_signatures (read_file (base ++ codes "signatures.txt")) [];
        loaded_dir_ = dir;
      }

  unfoldable pub load : Bytes → ThreatFeed → ThreatFeed × ℕ
  load [] feed =
      (record feed { bad_ja3_ = []; bad_domains_ = []; bad_ips_ = []; signatures_ = [] }, 0)
  load (c ∷ cs) feed =
      let new = load_from (c ∷ cs) in
      (
        new,
        length new.bad_ja3_
            + length new.bad_domains_
            + length new.bad_ips_
            + length new.signatures_,
      )

unfoldable pub is_bad_ja3 : ThreatFeed → Bytes → Bool
is_bad_ja3 feed ja3_hash = has feed.bad_ja3_ (to_lower ja3_hash)

-- The loop over the dots: what follows each one is looked up.
unfoldable pub has_parent : List Bytes → Bytes → Bool
has_parent domains [] = false
has_parent domains (c ∷ cs) = c == b'.' && has domains cs || has_parent domains cs

unfoldable pub is_bad_domain : ThreatFeed → Bytes → Bool
is_bad_domain feed host =
    if is_nil host || is_nil feed.bad_domains_
    then false
    else (let h = to_lower host in has feed.bad_domains_ h || has_parent feed.bad_domains_ h)

unfoldable pub is_bad_ip : ThreatFeed → Bytes → Bool
is_bad_ip feed ip = has feed.bad_ips_ ip

unfoldable pub first_match : List ContentSignature → Bytes → Option ContentSignature
first_match [] text = none
first_match (sig ∷ sigs) text =
    if not (is_nil sig.pattern_) && contains text sig.pattern_
    then some sig
    else first_match sigs text

unfoldable pub match_signature : ThreatFeed → Bytes → Option ContentSignature
match_signature feed text = first_match feed.signatures_ text
