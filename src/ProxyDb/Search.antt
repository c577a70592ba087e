-- ===== src/ProxyDb/Search.antt =====
-- include/proxy_db.hpp: what the binary search and the lookup find.
use wirewolf.Base.{
  ℕ, zero, suc, ◌+◌, ◌-◌, ◌*◌, ◌/◌, ◌≤◌, ◌<◌, ◌≡◌, refl, Bool, true, Option, none, some, length,
  ltb, leb, if-ind, leb→le, leb→gt, ltb→lt, ltb→ge, arith,
}
use wirewolf.Base.Bytes.{Reads, le32_at, le32_at-Reads}
use wirewolf.Base.Text.{Bytes}
use wirewolf.ProxyDb.{load, ProxyDb, Range, start, stop, step, search, row_info, answer, lookup}

module _ (key : ℕ → ℕ) (ip rows : ℕ) where
  abbrev IsSorted : Type 0
  IsSorted = (i j : ℕ) → i ≤ j → j < rows → key i ≤ key j

  -- The last row whose key is at most `ip`, or `none` where every key is greater.
  abbrev pub IsLast : Option ℕ → Type 0
  IsLast none = (j : ℕ) → j < rows → ip < key j
  IsLast (some a) = (a < rows) × (key a ≤ ip) × ((j : ℕ) → a < j → j < rows → ip < key j)

  abbrev IsBelow : ℕ → Option ℕ → Type 0
  IsBelow lo none = lo ≡ 0
  IsBelow lo (some a) = (a + 1 ≡ lo) × (a < rows) × (key a ≤ ip)

  record RangeInv (r : Range) : Type 0 where
    within : r.hi ≤ rows
    below : IsBelow r.lo r.ans
    above : (j : ℕ) → r.hi ≤ j → j < rows → ip < key j

  step-RangeInv : IsSorted → (r : Range) → r.lo < r.hi → RangeInv r → RangeInv (step key ip r)
  unfolding step
  step-RangeInv sorted r open_ v =
      let mid : ℕ = (r.lo + r.hi - 1) / 2 in
      if-ind RangeInv (leb (key mid) ip)
        (λ at_most. record {
          within = v.within;
          below = (refl, omega (arith, v.within, open_), leb→le _ _ at_most);
          above = v.above;
        })
        (λ greater. record {
          within = omega (arith, v.within, open_);
          below = v.below;
          above = λ j from to. omega (arith, leb→gt _ _ greater, sorted mid j from to);
        })

  step_shrinks :
      (r : Range) (n : ℕ)
      → r.lo < r.hi
      → r.hi ≤ r.lo + suc n
      → (step key ip r).hi ≤ (step key ip r).lo + n
  unfolding step
  step_shrinks r n open_ h = ground arith

  IsBelow-IsLast : (r : Range) → r.hi ≤ r.lo → RangeInv r → IsLast r.ans
  IsBelow-IsLast r h v = go r.ans v.below
    where
      go : (o : Option ℕ) → IsBelow r.lo o → IsLast o
      go none e = λ j to. v.above j (omega (arith, h, e)) to
      go (some a) (e, a_in, at_most) =
          (a_in, at_most, λ j from to. v.above j (omega (arith, h, e)) to)

  search-IsLast :
      IsSorted → (n : ℕ) (r : Range) → r.hi ≤ r.lo + n → RangeInv r → IsLast (search n key ip r)
  unfolding search
  search-IsLast sorted zero r h v = IsBelow-IsLast r (omega (arith, h)) v
  search-IsLast sorted (suc n) r h v =
      if-ind IsLast (ltb r.lo r.hi)
        (λ more.
          let open_ = ltb→lt _ _ more in
          search-IsLast sorted n (step key ip r) (step_shrinks r n open_ h)
            (step-RangeInv sorted r open_ v))
        (λ done. IsBelow-IsLast r (ltb→ge _ _ done) v)

-- The rows are sorted by their start, and no two overlap.
pub record IsTable (db : ProxyDb) : Type 0 where
  pub sorted : IsSorted (start db) 0 db.rows_
  pub disjoint : (i j : ℕ) → i < j → j < db.rows_ → stop db i < start db j

found-IsLast :
    (db : ProxyDb) (ip : ℕ)
    → IsTable db
    → IsLast
        (start db)
        ip
        db.rows_
        (search db.rows_ (start db) ip (record { lo = 0; hi = db.rows_; ans = none }))
found-IsLast db ip table =
    search-IsLast (start db) ip db.rows_ table.sorted db.rows_
      (record { lo = 0; hi = db.rows_; ans = none }) (omega arith)
      (record { within = omega arith; below = refl; above = λ j from to. omega (arith, from, to) })

answer_hit :
    (db : ProxyDb) (ip a : ℕ) (o : Option ℕ)
    → IsTable db
    → a < db.rows_
    → start db a ≤ ip
    → ip ≤ stop db a
    → IsLast (start db) ip db.rows_ o
    → answer db ip o ≡ row_info db a
unfolding answer
answer_hit db ip a none table a_in from to last = ground (arith, last a a_in)
answer_hit db ip a (some b) table a_in from to (b_in, at_most, after) =
    let same : b ≡ a = ground (arith, after a, table.disjoint a b) in ground (arith, same)

-- In a table that is ready, sorted and without overlaps, an address inside a row's range is looked
-- up to what that row's string says.
pub lookup_hit :
    (db : ProxyDb) (ip a : ℕ)
    → IsTable db
    → db.ready_ ≡ true
    → a < db.rows_
    → start db a ≤ ip
    → ip ≤ stop db a
    → lookup db ip ≡ row_info db a
unfolding lookup
lookup_hit db ip a table ready a_in from to =
    if-ind (λ o. o ≡ row_info db a) db.ready_
      (λ is_ready. answer_hit db ip a _ table a_in from to (found-IsLast db ip table))
      (λ not_ready. ground (arith, ready, not_ready))

answer_miss :
    (db : ProxyDb) (ip : ℕ) (o : Option ℕ)
    → ((a : ℕ) → a < db.rows_ → start db a ≤ ip → stop db a < ip)
    → IsLast (start db) ip db.rows_ o
    → answer db ip o ≡ none
unfolding answer
answer_miss db ip none outside last = refl
answer_miss db ip (some a) outside (a_in, at_most, after) = ground (arith, outside a a_in at_most)

-- In a sorted table without overlaps, an address outside every row's range is not found.
pub lookup_miss :
    (db : ProxyDb) (ip : ℕ)
    → IsTable db
    → ((a : ℕ) → a < db.rows_ → start db a ≤ ip → stop db a < ip)
    → lookup db ip ≡ none
unfolding lookup
lookup_miss db ip table outside =
    if-ind (λ o. o ≡ none) db.ready_
      (λ ready. answer_miss db ip _ outside (found-IsLast db ip table)) (λ not_ready. refl)

load_fits :
    (bytes text : Option Bytes) (before : ProxyDb)
    → (load bytes text before).1 ≡ true
    → (load bytes text before).0.rows_ * 12 ≤ length (load bytes text before).0.data_
unfolding load
load_fits none text before ok = ground (arith, ok)
load_fits (some bytes) text before ok =
    if-ind (λ (o : ProxyDb × Bool). o.1 ≡ true → o.0.rows_ * 12 ≤ length o.0.data_)
      (ltb (length bytes) 12) (λ short no. ground (arith, no)) (λ long yes. omega arith) ok

-- After a load that reports success, the three words of every row lie inside the data.
pub load-Reads :
    (bytes text : Option Bytes) (before : ProxyDb) (row : ℕ)
    → (load bytes text before).1 ≡ true
    → row < (load bytes text before).0.rows_
    → (w : ℕ) → w < 3
    → Reads (le32_at (load bytes text before).0.data_ (row * 12 + w * 4))
load-Reads bytes text before row ok row_in w w_in =
    le32_at-Reads _ _ (omega (arith, load_fits bytes text before ok, row_in, w_in))
