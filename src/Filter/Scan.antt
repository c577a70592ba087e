-- ===== src/Filter/Scan.antt =====
-- src/npu_filter.cpp: what the byte scans find.
use wirewolf.Base.{◌≡◌, refl, sym, ap, subst, ◌↔◌, inl, inr, true, [], ◌∷◌, ◌++◌, Bool-cases, arith}
use wirewolf.Base.Text.{Bytes}
use wirewolf.Filter.{is_heartbleed, detect_heartbleed}

found :
    (p : Bytes)
    → detect_heartbleed p ≡ true
    → (pre : Bytes) × (from : Bytes) × (p ≡ pre ++ from) × (is_heartbleed from ≡ true)
unfolding detect_heartbleed
found [] h = ground (arith, h)
found (c ∷ cs) h = elim (Bool-cases (is_heartbleed (c ∷ cs))) [
  | inl here ↦ ([], c ∷ cs, refl, here)
  | inr not_here ↦
      let (pre, from, split_at, hit) = found cs (rw not_here at h) in
      (c ∷ pre, from, ap (λ l. c ∷ l) split_at, hit)
]

finds : (pre from : Bytes) → is_heartbleed from ≡ true → detect_heartbleed (pre ++ from) ≡ true
unfolding detect_heartbleed is_heartbleed
finds [] [] h = ground (arith, h)
finds [] (c ∷ cs) h = ground (arith, h)
finds (c ∷ pre) from h = ground (arith, finds pre from h)

-- A flow is taken for Heartbleed exactly if from some offset on it has a heartbeat record that fits
-- into the payload and whose claimed length exceeds its data by more than the 16 bytes of padding.
pub detect_heartbleed_iff :
    (p : Bytes)
    → (detect_heartbleed p ≡ true)
      ↔ ((pre : Bytes) × (from : Bytes) × (p ≡ pre ++ from) × (is_heartbleed from ≡ true))
detect_heartbleed_iff p = (
  λ h. found p h,
  λ (pre, from, split_at, h).
      subst (λ q. detect_heartbleed q ≡ true) (sym split_at) (finds pre from h),
)
