-- ===== src/Capi/Served.antt =====
-- src/wirewolf_capi.cpp: what becomes of the entries that the pipeline pushes and a caller polls.
use wirewolf.Base.{
  ℕ, zero, suc, ◌≤◌, ◌<◌, ◌≡◌, ◌⊎◌, refl, ap, sym, ◌∙◌, Bool, true, false, List, [], ◌∷◌, ◌++◌,
  append_assoc, length, length-append, ltb, Bool-cases, inl, inr, arith,
}
use wirewolf.Capi.Pending.{max_queue, push_pending, take_pending, poll}
use wirewolf.Config.{ℤ, pos, negsuc}

pub data Call (A : Type 0) : Type 0 where
  pushes : A → Call A
  polls : (out : Bool) → (max : ℤ) → Call A

-- A queue with what its callers have seen of it.
pub record Trace (A : Type 0) : Type 0 where
  pub pending : List A
  pub pushed : List A
  pub polled : List A

module _ {A : Type 0} where
  unfoldable pub call : Call A → Trace A → Trace A
  call (Call.pushes x) t = record t {
    pending = push_pending x t.pending;
    pushed = t.pushed ++ x ∷ [];
  }
  call (Call.polls out max) t =
      let (given, left) = poll out max t.pending in
      record t { pending = left; polled = t.polled ++ given }

  unfoldable pub calls : List (Call A) → Trace A → Trace A
  calls [] t = t
  calls (c ∷ cs) t = calls cs (call c t)

  -- The entries polled and the entries lost, in the order in which they were pushed.
  pub data Merges : List A → List A → List A → Type 0 where
    start : Merges [] [] []
    given : {p l h : List A} (xs : List A) → Merges p l h → Merges (p ++ xs) l (h ++ xs)
    lost : {p l h : List A} (x : A) → Merges p l h → Merges p (l ++ x ∷ []) (h ++ x ∷ [])

  -- Each pushed entry was polled or lost, or is pending, in this order.
  pub record IsServed (t : Trace A) : Type 0 where
    pub gone : List A
    pub lost_ones : List A
    pub merges : Merges t.polled lost_ones gone
    pub pushed_is : t.pushed ≡ gone ++ t.pending
    pub fits : length t.pending ≤ max_queue
    pub lost_late : (lost_ones ≡ []) ⊎ (max_queue < length t.pushed)

  take_pending-append :
      (n : ℕ) (pending : List A)
      → (take_pending n pending).0 ++ (take_pending n pending).1 ≡ pending
  unfolding take_pending
  take_pending-append zero pending = refl
  take_pending-append (suc n) [] = refl
  take_pending-append (suc n) (x ∷ pending) = ap (λ xs. x ∷ xs) (take_pending-append n pending)

  poll-append :
      (out : Bool) (max : ℤ) (pending : List A)
      → (poll out max pending).0 ++ (poll out max pending).1 ≡ pending
  unfolding poll
  poll-append false max pending = refl
  poll-append true (pos n) pending = take_pending-append n pending
  poll-append true (negsuc n) pending = refl

  push_cases :
      (x : A) (pending : List A)
      → ((push_pending x pending ≡ pending ++ x ∷ []) × (length pending < max_queue))
        ⊎ ((y : A) × (rest : List A) × (pending ≡ y ∷ rest)
            × (push_pending x pending ≡ rest ++ x ∷ [])
            × (max_queue ≤ length pending))
  unfolding push_pending
  push_cases x [] = inl (refl, omega arith)
  push_cases x (y ∷ rest) = elim (Bool-cases (ltb max_queue (length (y ∷ (rest ++ x ∷ []))))) [
    | inl long ↦
        inr (y, rest, refl, rw long refl, ground (arith, long, length-append rest (x ∷ [])))
    | inr short ↦ inl (rw short refl, ground (arith, short, length-append rest (x ∷ [])))
  ]

  later_still :
      (x : A) (pushed lost_ones : List A)
      → (lost_ones ≡ []) ⊎ (max_queue < length pushed)
      → (lost_ones ≡ []) ⊎ (max_queue < length (pushed ++ x ∷ []))
  later_still x pushed lost_ones (inl none_lost) = inl none_lost
  later_still x pushed lost_ones (inr many) =
      inr (omega (arith, many, length-append pushed (x ∷ [])))

  pushes-IsServed : (x : A) (t : Trace A) → IsServed t → IsServed (call (Call.pushes x) t)
  unfolding call
  pushes-IsServed x t h = elim (push_cases x t.pending) [
    | inl (kept, room) ↦ record {
      gone = h.gone;
      lost_ones = h.lost_ones;
      merges = h.merges;
      pushed_is =
          ap (λ ps. ps ++ x ∷ []) h.pushed_is
          ∙ append_assoc h.gone t.pending (x ∷ [])
          ∙ ap (λ ps. h.gone ++ ps) (sym kept);
      fits = omega (arith, ap length kept, length-append t.pending (x ∷ []), room);
      lost_late = later_still x t.pushed h.lost_ones h.lost_late;
    }
    | inr (y, rest, split, shifted, full) ↦ record {
      gone = h.gone ++ y ∷ [];
      lost_ones = h.lost_ones ++ y ∷ [];
      merges = lost y h.merges;
      pushed_is =
          ap (λ ps. ps ++ x ∷ []) (h.pushed_is ∙ ap (λ ps. h.gone ++ ps) split)
          ∙ append_assoc h.gone (y ∷ rest) (x ∷ [])
          ∙ sym (append_assoc h.gone (y ∷ []) (rest ++ x ∷ []))
          ∙ ap (λ ps. (h.gone ++ y ∷ []) ++ ps) (sym shifted);
      fits = omega (arith, ap length shifted, length-append rest (x ∷ []), ap length split, h.fits);
      lost_late = inr (
          omega (
            arith,
            length-append t.pushed (x ∷ []),
            ap length h.pushed_is,
            length-append h.gone t.pending,
            full,
          ));
    }
  ]

  polls-IsServed :
      (out : Bool) (max : ℤ) (t : Trace A) → IsServed t → IsServed (call (Call.polls out max) t)
  unfolding call
  polls-IsServed out max t h =
      let (xs, left) = poll out max t.pending in
      record {
        gone = h.gone ++ xs;
        lost_ones = h.lost_ones;
        merges = given xs h.merges;
        pushed_is =
            h.pushed_is
            ∙ ap (λ ps. h.gone ++ ps) (sym (poll-append out max t.pending))
            ∙ sym (append_assoc h.gone xs left);
        fits =
            omega (arith, ap length (poll-append out max t.pending), length-append xs left, h.fits);
        lost_late = h.lost_late;
      }

  calls_from : (cs : List (Call A)) (t : Trace A) → IsServed t → IsServed (calls cs t)
  unfolding calls
  calls_from [] t h = h
  calls_from (Call.pushes x ∷ cs) t h = calls_from cs _ (pushes-IsServed x t h)
  calls_from (Call.polls out max ∷ cs) t h = calls_from cs _ (polls-IsServed out max t h)

-- Over any sequence of pushes and polls, whatever buffers and sizes the caller passes: each entry that
-- the pipeline pushed was polled once, or lost once, or is still pending, in the order of the
-- pushes; at most 10000 are pending; and none is lost unless more than 10000 were pushed.
pub calls-IsServed :
    {A : Type 0} (cs : List (Call A))
    → IsServed (calls cs (record { pending = []; pushed = []; polled = [] }))
calls-IsServed {A} cs =
    calls_from cs (record { pending = []; pushed = []; polled = [] })
      (record {
        gone = [];
        lost_ones = [];
        merges = Merges.start;
        pushed_is = refl;
        fits = omega arith;
        lost_late = inl refl;
      })
