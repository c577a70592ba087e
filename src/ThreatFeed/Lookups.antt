-- ===== src/ThreatFeed/Lookups.antt =====
-- include/threat_feed.hpp: what the lookups find.
use wirewolf.Base.{
  ℕ, ◌≡◌, refl, ap, ◌↔◌, ◌⊎◌, inl, inr, Bool, true, false, ◌&&◌, ◌||◌, List, [], ◌∷◌, ◌++◌, Option,
  some, Bool-cases, if-ind, ◌==◌, ==_iff, if◌then◌else◌, arith,
}
use wirewolf.Base.Text.{Bytes, codes, eq_bytes_iff, to_lower, lines}
use wirewolf.ThreatFeed.{
  ThreatFeed, has, insert, is_nil, trim, ignored, add_line, load_lines, load_set, with_slash, load,
  load_from, is_bad_ja3, has_parent, is_bad_domain,
}

abbrev Follows : List Bytes → Bytes → Type 0
Follows domains h = (pre : Bytes) × (d : Bytes) × (h ≡ pre ++ b'.' ∷ d) × (has domains d ≡ true)

has_parent-Follows :
    (domains : List Bytes) (h : Bytes) → has_parent domains h ≡ true → Follows domains h
unfolding has_parent
has_parent-Follows domains [] e = ground (arith, e)
has_parent-Follows domains (c ∷ cs) e = elim (Bool-cases (c == b'.' && has domains cs)) [
  | inl here ↦
      ([], cs, ap (λ x. x ∷ cs) ((==_iff c b'.').0 (ground (arith, here))), ground (arith, here))
  | inr not_here ↦
      let (pre, d, split_at, found) = has_parent-Follows domains cs (rw not_here at e) in
      (c ∷ pre, d, ap (λ x. c ∷ x) split_at, found)
]

has_parent-append :
    (domains : List Bytes) (pre d : Bytes)
    → has domains d ≡ true
    → has_parent domains (pre ++ b'.' ∷ d) ≡ true
unfolding has_parent
has_parent-append domains [] d found = ground (arith, found)
has_parent-append domains (c ∷ pre) d found = ground (arith, has_parent-append domains pre d found)

has-is_nil : (domains : List Bytes) (d : Bytes) → has domains d ≡ true → is_nil domains ≡ false
unfolding has
has-is_nil [] d h = ground (arith, h)
has-is_nil (x ∷ xs) d h = refl

tests_agree :
    (empty none_listed own parent : Bool)
    → (if empty || none_listed then false else (own || parent)) ≡ true
    → (empty ≡ false) × ((own ≡ true) ⊎ (parent ≡ true))
tests_agree true _ own parent h = ground (arith, h)
tests_agree false true own parent h = ground (arith, h)
tests_agree false false true parent h = (refl, inl refl)
tests_agree false false false parent h = (refl, inr h)

-- A host is bad exactly if it is not empty and its lower-case text is a listed domain, or ends in a
-- dot and a listed domain.
pub is_bad_domain_iff :
    (feed : ThreatFeed) (host : Bytes)
    → (is_bad_domain feed host ≡ true) ↔ (
        (is_nil host ≡ false)
        × ((has feed.bad_domains_ (to_lower host) ≡ true)
            ⊎ ((pre : Bytes) × (d : Bytes) × (to_lower host ≡ pre ++ b'.' ∷ d)
                × (has feed.bad_domains_ d ≡ true))))
unfolding is_bad_domain
is_bad_domain_iff feed host = (
  λ bad.
      (let (named, found) = tests_agree (is_nil host) (is_nil feed.bad_domains_) _ _ bad in
        (
          named,
          elim found [
            | inl own ↦ inl own
            | inr parent ↦ inr (has_parent-Follows feed.bad_domains_ (to_lower host) parent)
          ],
        )),
  λ (named, found). elim found [
    | inl own ↦ rw (named, has-is_nil feed.bad_domains_ (to_lower host) own, own) refl
    | inr (pre, d, ends, listed) ↦
        let parent : has_parent feed.bad_domains_ (to_lower host) ≡ true =
          rw ends (has_parent-append feed.bad_domains_ pre d listed) in
        ground (arith, named, has-is_nil feed.bad_domains_ d listed, parent)
  ],
)

has-insert : (v w : Bytes) (xs : List Bytes) → has xs w ≡ true → has (insert v xs) w ≡ true
unfolding has insert
has-insert v w xs h = ground (arith, h)

has-insert_same : (v : Bytes) (xs : List Bytes) → has (insert v xs) v ≡ true
unfolding has insert
has-insert_same v xs = ground (arith, (eq_bytes_iff v v).1 refl)

has-load_lines :
    (lower : Bool) (ls out : List Bytes) (w : Bytes)
    → has out w ≡ true
    → has (load_lines lower ls out) w ≡ true
unfolding load_lines add_line
has-load_lines lower [] out w h = h
has-load_lines lower (l ∷ ls) out w h = has-load_lines lower ls (add_line lower l out) w (
    if-ind (λ xs. has xs w ≡ true) (ignored (trim l)) (λ skipped. h)
      (λ taken. has-insert _ w out h))

has-load_lines_line :
    (pre post out : List Bytes) (l : Bytes)
    → ignored (trim l) ≡ false
    → has (load_lines true (pre ++ l ∷ post) out) (to_lower (trim l)) ≡ true
unfolding load_lines add_line
has-load_lines_line [] post out l kept =
    has-load_lines true post (add_line true l out) (to_lower (trim l))
      (rw kept (has-insert_same (to_lower (trim l)) out))
has-load_lines_line (p ∷ pre) post out l kept =
    has-load_lines_line pre post (add_line true p out) l kept

-- After a load, each line of the JA3 file that is neither blank nor a comment is found, without
-- regard to its case.
pub load-is_bad_ja3 :
    (read_file : Bytes → Option Bytes) (dir_head : ℕ) (dir_tail : Bytes) (feed : ThreatFeed)
    (text : Bytes) (pre post : List Bytes) (l : Bytes) (hash : Bytes)
    → read_file (with_slash (dir_head ∷ dir_tail) ++ codes "bad_ja3.txt") ≡ some text
    → lines text ≡ pre ++ l ∷ post
    → ignored (trim l) ≡ false
    → to_lower hash ≡ to_lower (trim l)
    → is_bad_ja3 (load read_file (dir_head ∷ dir_tail) feed).0 hash ≡ true
unfolding is_bad_ja3 load load_from load_set
load-is_bad_ja3 read_file dir_head dir_tail feed text pre post l hash opened is_line kept same =
    rw (opened, is_line, same) (has-load_lines_line pre post [] l kept)
