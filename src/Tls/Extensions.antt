-- ===== src/Tls/Extensions.antt =====
-- include/tls_inspector.hpp, the cipher list and the loop over the extensions.
use Prim.Native.Nat.{bit_and}
use wirewolf.Base.{
  ℕ, zero, suc, ◌+◌, ◌-◌, ◌*◌, ◌/◌, ◌≤◌, ◌<◌, ◌≡◌, ◌≢◌, refl, Bool, ◌&&◌, List, [], ◌∷◌, ◌++◌,
  Option, none, some, length, get_elem?, get_elem?-total, leb, leb→le, ltb, ltb→lt, ltb→ge,
  Bool-cases, Option-cases, inl, inr, ◌==◌, if◌then◌else◌, if-ind, min, arith,
}
use wirewolf.Base.Bytes.{◌>>=◌, Reads, >>=-Reads, be16_at, bytes_at, be16_at-Reads, bytes_at-Reads}
use wirewolf.Base.Text.{Bytes}

unfoldable pub is_grease : ℕ → Bool
is_grease v = bit_and v 0x0f0f == 0x0a0a

abbrev push_unless_grease : ℕ → List ℕ → List ℕ
push_unless_grease v vs = if is_grease v then vs else v ∷ vs

-- `count` 16-bit numbers from `pos` on, GREASE values left out. The source's loops, whose index
-- rises by two below a bound, make half as many rounds as the bound, rounded down.
unfoldable pub u16_list : Bytes → ℕ → ℕ → Option (List ℕ)
unfolding is_grease
u16_list p pos zero = some []
u16_list p pos (suc count) = do
  c ← be16_at p pos
  rest ← u16_list p (pos + 2) count
  some (push_unless_grease c rest)

pub record Found : Type 0 where
  pub sni : Bytes
  pub extensions : List ℕ
  pub curves : List ℕ
  pub formats : List ℕ

-- The name's address is that of its first byte, which is indexed even if the name is empty.
unfoldable pub name_at : Bytes → ℕ → ℕ → Option Bytes
name_at p sp name_len = do first ← get_elem? p sp; bytes_at p sp name_len

unfoldable pub sni_extension : Bytes → ℕ → ℕ → Found → Option Found
sni_extension p pos elen f =
    if leb (pos + 3 + 2) (pos + elen)
    then (do
      name_len ← be16_at p (pos + 3)
      if leb (pos + 5 + name_len) (pos + elen)
          then (do name ← name_at p (pos + 5) name_len; some (record f { sni = name }))
          else some f)
    else some f

unfoldable pub groups_extension : Bytes → ℕ → ℕ → Found → Option Found
groups_extension p pos elen f =
    if leb 2 elen
    then (do
      list_len ← be16_at p pos
      groups ← u16_list p (pos + 2) (min (list_len / 2) ((elen - 2) / 2))
      some (record f { curves = f.curves ++ groups }))
    else some f

unfoldable pub formats_extension : Bytes → ℕ → ℕ → Found → Option Found
formats_extension p pos elen f =
    if leb 1 elen
    then (do
      list_len ← get_elem? p pos
      formats ← bytes_at p (pos + 1) (min list_len (elen - 1))
      some (record f { formats = f.formats ++ formats }))
    else some f

-- The body of one extension, whose `elen` bytes start at `pos`.
unfoldable pub extension : Bytes → ℕ → ℕ → ℕ → Found → Option Found
extension p pos etype elen f =
    if etype == 0 && leb 5 elen
    then sni_extension p pos elen f
    else if etype == 0x000a
    then groups_extension p pos elen f
    else if etype == 0x000b
    then formats_extension p pos elen f
    else some f

abbrev note_extension : ℕ → Found → Found
note_extension etype f =
    if is_grease etype then f else record f { extensions = f.extensions ++ etype ∷ [] }

unfoldable pub extension_loop : ℕ → Bytes → ℕ → ℕ → Found → Option Found
unfolding is_grease
extension_loop zero p pos ext_end f = none
extension_loop (suc fuel) p pos ext_end f =
    let round : Option Found = (do
      etype ← be16_at p pos
      elen ← be16_at p (pos + 2)
      let next : Option Found = (do
        f' ← extension p (pos + 4) etype elen (note_extension etype f)
        extension_loop fuel p (pos + 4 + elen) ext_end f')
      if leb (pos + 4 + elen) ext_end then next else some f) in
    if leb (pos + 4) ext_end then round else some f

pub u16_list-Reads :
    (p : Bytes) (pos count : ℕ) → pos + count * 2 ≤ length p → Reads (u16_list p pos count)
unfolding u16_list
u16_list-Reads p pos zero h = ([], refl)
u16_list-Reads p pos (suc count) h =
    >>=-Reads _ _ (be16_at-Reads p pos (omega arith))
      λ c _. >>=-Reads _ _ (u16_list-Reads p (pos + 2) count (omega arith)) λ rest _. (_, refl)

-- The payload does not end in a zero byte.
abbrev pub EndsNonzero : Bytes → Type 0
EndsNonzero p = (i : ℕ) → i + 1 ≡ length p → get_elem? p i ≢ some 0

be16_at-zero : (p : Bytes) (i n : ℕ) → be16_at p i ≡ some n → n ≡ 0 → get_elem? p (i + 1) ≡ some 0
unfolding be16_at
be16_at-zero p i n h zero_in = elim (Option-cases (get_elem? p i)) [
  | inl outside ↦ ground (arith, rw outside at h)
  | inr (hi, first) ↦ elim (Option-cases (get_elem? p (i + 1))) [
    | inl outside ↦ ground (arith, rw (first, outside) at h)
    | inr (lo, second) ↦ rw second (ground (arith, rw (first, second) at h, zero_in))
  ]
]

-- An empty name at the very end would have a zero for its length's last byte.
name_inside :
    (p : Bytes) (pos name_len : ℕ)
    → EndsNonzero p
    → be16_at p (pos + 3) ≡ some name_len
    → pos + 5 + name_len ≤ length p
    → pos + 5 < length p
name_inside p pos name_len ends h fits = elim (Bool-cases (ltb (pos + 5) (length p))) [
  | inl inside ↦ ltb→lt _ _ inside
  | inr outside ↦
      let at_end : length p ≤ pos + 5 = ltb→ge _ _ outside in
      absurd (
        ends (pos + 3 + 1) (omega (arith, at_end, fits))
          (be16_at-zero p (pos + 3) name_len h (omega (arith, at_end, fits))))
]

name_at-Reads :
    (p : Bytes) (sp name_len : ℕ)
    → sp < length p
    → sp + name_len ≤ length p
    → Reads (name_at p sp name_len)
unfolding name_at
name_at-Reads p sp name_len inside fits =
    >>=-Reads _ _ (get_elem?-total p sp inside) λ first _. bytes_at-Reads p sp name_len fits

sni_extension-Reads :
    (p : Bytes) (pos elen : ℕ) (f : Found)
    → EndsNonzero p
    → pos + elen ≤ length p
    → Reads (sni_extension p pos elen f)
unfolding sni_extension
sni_extension-Reads p pos elen f ends h =
    if-ind Reads (leb (pos + 3 + 2) (pos + elen))
      (λ room.
        >>=-Reads _ _ (be16_at-Reads p (pos + 3) (omega (arith, leb→le _ _ room))) λ name_len e.
          if-ind Reads (leb (pos + 5 + name_len) (pos + elen))
            (λ fits.
              let ends_in : pos + 5 + name_len ≤ length p = omega (arith, leb→le _ _ fits) in
              >>=-Reads _ _
                (name_at-Reads p (pos + 5) name_len (name_inside p pos name_len ends e ends_in)
                  ends_in)
                λ name _. (_, refl))
            (λ _. (f, refl)))
      (λ _. (f, refl))

groups_extension-Reads :
    (p : Bytes) (pos elen : ℕ) (f : Found)
    → pos + elen ≤ length p
    → Reads (groups_extension p pos elen f)
unfolding groups_extension
groups_extension-Reads p pos elen f h =
    if-ind Reads (leb 2 elen)
      (λ room. >>=-Reads _ _ (be16_at-Reads p pos (omega (arith, leb→le _ _ room))) λ list_len _.
        >>=-Reads _ _
          (u16_list-Reads p (pos + 2) (min (list_len / 2) ((elen - 2) / 2))
            (omega (arith, leb→le _ _ room)))
          λ groups _. (_, refl))
      (λ _. (f, refl))

formats_extension-Reads :
    (p : Bytes) (pos elen : ℕ) (f : Found)
    → pos + elen ≤ length p
    → Reads (formats_extension p pos elen f)
unfolding formats_extension
formats_extension-Reads p pos elen f h =
    if-ind Reads (leb 1 elen)
      (λ room. >>=-Reads _ _ (get_elem?-total p pos (omega (arith, leb→le _ _ room))) λ list_len _.
        >>=-Reads _ _
          (bytes_at-Reads p (pos + 1) (min list_len (elen - 1)) (omega (arith, leb→le _ _ room)))
          λ formats _. (_, refl))
      (λ _. (f, refl))

extension-Reads :
    (p : Bytes) (pos etype elen : ℕ) (f : Found)
    → EndsNonzero p
    → pos + elen ≤ length p
    → Reads (extension p pos etype elen f)
unfolding extension
extension-Reads p pos etype elen f ends h =
    if-ind Reads (etype == 0 && leb 5 elen) (λ _. sni_extension-Reads p pos elen f ends h)
      λ _.
        if-ind Reads (etype == 0x000a) (λ _. groups_extension-Reads p pos elen f h)
          λ _.
            if-ind Reads (etype == 0x000b) (λ _. formats_extension-Reads p pos elen f h)
              λ _. (f, refl)

-- With more fuel than bytes left the loop ends, and no read leaves a payload that ends in no zero.
pub extension_loop-Reads :
    (fuel : ℕ) (p : Bytes) (pos ext_end : ℕ) (f : Found)
    → EndsNonzero p
    → ext_end ≤ length p
    → pos ≤ ext_end
    → ext_end < pos + fuel
    → Reads (extension_loop fuel p pos ext_end f)
unfolding extension_loop
extension_loop-Reads zero p pos ext_end f ends h at enough = absurd (omega arith)
extension_loop-Reads (suc fuel) p pos ext_end f ends h at enough =
    if-ind Reads (leb (pos + 4) ext_end)
      (λ more. >>=-Reads _ _ (be16_at-Reads p pos (omega (arith, leb→le _ _ more))) λ etype _.
        >>=-Reads _ _ (be16_at-Reads p (pos + 2) (omega (arith, leb→le _ _ more))) λ elen _.
          if-ind Reads (leb (pos + 4 + elen) ext_end)
            (λ fits.
              >>=-Reads _ _
                (extension-Reads p (pos + 4) etype elen (note_extension etype f) ends
                  (omega (arith, leb→le _ _ fits)))
                λ f' _.
                  extension_loop-Reads fuel p (pos + 4 + elen) ext_end f' ends h (leb→le _ _ fits)
                    (omega arith))
            (λ _. (f, refl)))
      (λ _. (f, refl))
