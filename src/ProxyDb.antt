-- ===== src/ProxyDb.antt =====
-- include/proxy_db.hpp: the reader of the preprocessed IP2Location proxy table. A file that can be
-- read is its bytes.
use wirewolf.Base.{
  ℕ, zero, suc, ◌+◌, ◌-◌, ◌*◌, ◌/◌, ◌≤◌, ◌<◌, ◌≡◌, Bool, true, false, not, ◌&&◌, List, [], ◌∷◌,
  ◌++◌, Option, none, some, length, get_elem?, ltb, leb, if◌then◌else◌,
}
use wirewolf.Base.Bytes.{◌>>=◌, le32_at}
use wirewolf.Base.Text.{Bytes, split}
pub mod Search

pub record ProxyDb : Type 0 where
  pub data_ : Bytes
  pub strs_ : List Bytes
  pub rows_ : ℕ
  pub ready_ : Bool

pub record Info : Type 0 where
  pub type_ : Bytes
  pub usage : Bytes
  pub threat : Bytes

abbrev no_rows : {A : Type 0} → List A → Bool
no_rows [] = true
no_rows (x ∷ xs) = false

abbrev strings_of : Option Bytes → List Bytes
strings_of none = []
strings_of (some all) = split b'\n' all

-- `load`, on the contents of the two files. The rows replace the ones before; the strings are put
-- behind the ones before.
unfoldable pub load : Option Bytes → Option Bytes → ProxyDb → ProxyDb × Bool
load none text db = (db, false)
load (some bytes) text db =
    let strs = db.strs_ ++ strings_of text in
    let rows = length bytes / 12 in
    let ready = ltb 0 rows && not (no_rows strs) in
    if ltb (length bytes) 12
    then (db, false)
    else (record { data_ = bytes; strs_ = strs; rows_ = rows; ready_ = ready }, ready)

abbrev or_zero : Option ℕ → ℕ
or_zero none = 0
or_zero (some n) = n

-- The offsets are those of a row's three words, so no read falls outside the data.
unfoldable pub u32 : ProxyDb → ℕ → ℕ
u32 db off = or_zero (le32_at db.data_ off)

unfoldable pub start : ProxyDb → ℕ → ℕ
start db row = u32 db (row * 12)

unfoldable pub stop : ProxyDb → ℕ → ℕ
stop db row = u32 db (row * 12 + 4)

-- The state of the binary search. `hi` is one past the source's, which may be -1; `ans` is `none`
-- for -1.
pub record Range : Type 0 where
  pub lo : ℕ
  pub hi : ℕ
  pub ans : Option ℕ

unfoldable pub step : (ℕ → ℕ) → ℕ → Range → Range
step key ip r =
    let mid = (r.lo + r.hi - 1) / 2 in
    if leb (key mid) ip
    then record { lo = mid + 1; hi = r.hi; ans = some mid }
    else record { lo = r.lo; hi = mid; ans = r.ans }

-- The loop, on fuel: the range shrinks in each step, so as many steps as it has rows are enough.
unfoldable pub search : ℕ → (ℕ → ℕ) → ℕ → Range → Option ℕ
search zero key ip r = r.ans
search (suc n) key ip r =
    let rest = search n key ip (step key ip r) in if ltb r.lo r.hi then rest else r.ans

unfoldable pub info_of : List Bytes → Info
info_of [] = record { type_ = []; usage = []; threat = [] }
info_of (t ∷ []) = record { type_ = t; usage = []; threat = [] }
info_of (t ∷ u ∷ []) = record { type_ = t; usage = []; threat = [] }
info_of (t ∷ u ∷ v ∷ []) = record { type_ = t; usage = u; threat = [] }
info_of (t ∷ u ∷ v ∷ w ∷ ws) = record { type_ = t; usage = u; threat = v }

-- The string that a row names, split at its tabs.
unfoldable pub row_info : ProxyDb → ℕ → Option Info
row_info db row = do s ← get_elem? db.strs_ (u32 db (row * 12 + 8)); some (info_of (split b'\t' s))

unfoldable pub answer : ProxyDb → ℕ → Option ℕ → Option Info
answer db ip none = none
answer db ip (some row) = if leb ip (stop db row) then row_info db row else none

unfoldable pub lookup : ProxyDb → ℕ → Option Info
lookup db ip =
    if db.ready_
    then answer db ip (search db.rows_ (start db) ip (record { lo = 0; hi = db.rows_; ans = none }))
    else none
