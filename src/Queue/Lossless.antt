-- ===== src/Queue/Lossless.antt =====
-- include/thread_safe_queue.hpp: backpressure mode loses nothing while nobody finishes the queue or
-- turns the mode off.
use mathlib.Core.List.{perm_middle, map-append}
use mathlib.Core.List.Perm
use wirewolf.Base.{
  ◌≡◌, refl, ap, sym, subst, true, false, List, [], ◌∷◌, ◌++◌, Perm, map, arith, ◌∙◌,
}
use wirewolf.Queue.Drops.{emplace-perm}
use wirewolf.Queue.Threads.{System, Step, call_push, block_push, wake_push, call_pop}
use wirewolf.Queue.{
  Entry, ThreadSafeQueue, Pushed, Popped, emplace, push, push_waiting, pop, pop_from,
}

module _ {T : Type 0} where
  abbrev pub items : List (Entry T) → List T
  items = map (λ (e : Entry T). e.item)

  -- The steps of producers and consumers alone.
  pub data Runs (s : System T) : System T → Type 0 where
    done : Runs s s
    more : {t u : System T} → Runs s t → Step t u → Runs s u

  -- Backpressure is on, the queue is open, and each pushed item is popped, queued or waiting.
  pub record Holds (s : System T) : Type 0 where
    pub blocking : s.queue.blocking ≡ true
    pub open_ : s.queue.done ≡ false
    pub undropped : s.queue.dropped_count ≡ 0
    pub kept : Perm (items s.pushed) (s.popped ++ (items s.queue.q ++ items s.pushers))

  record Adds (e : Entry T) (s t : ThreadSafeQueue T) : Type 0 where
    blocking : t.blocking ≡ s.blocking
    open_ : t.done ≡ s.done
    undropped : t.dropped_count ≡ s.dropped_count
    kept : Perm (items t.q) (e.item ∷ items s.q)

  emplace-Adds :
      (e : Entry T) (s : ThreadSafeQueue T)
      → Adds e s (record s { q = emplace e.priority e.item s.q })
  emplace-Adds e s = record {
    blocking = refl;
    open_ = refl;
    undropped = refl;
    kept = Perm.map (λ (e : Entry T). e.item) (emplace-perm e.priority e.item s.q);
  }

  push_waiting-Adds :
      (e : Entry T) (s : ThreadSafeQueue T) {t : ThreadSafeQueue T}
      → s.blocking ≡ true
      → s.done ≡ false
      → push_waiting e.item e.priority s ≡ Pushed.returns t
      → Adds e s t
  unfolding push_waiting
  push_waiting-Adds e s b d h = ground (arith, emplace-Adds e s)

  push-Adds :
      (e : Entry T) (s : ThreadSafeQueue T) {t : ThreadSafeQueue T}
      → s.blocking ≡ true
      → s.done ≡ false
      → push e.item e.priority s ≡ Pushed.returns t
      → Adds e s t
  unfolding push
  push-Adds e s {t} b d h = ground (arith, emplace-Adds e s, push_waiting-Adds e s {t = t} b d)

  record Takes (x : T) (s t : ThreadSafeQueue T) : Type 0 where
    blocking : t.blocking ≡ s.blocking
    open_ : t.done ≡ s.done
    undropped : t.dropped_count ≡ s.dropped_count
    kept : items s.q ≡ x ∷ items t.q

  pop_from-Takes :
      (es : List (Entry T)) (s : ThreadSafeQueue T) {x : T} {t : ThreadSafeQueue T}
      → s.q ≡ es
      → pop_from es s ≡ Popped.item x t
      → Takes x s t
  unfolding pop_from
  pop_from-Takes [] s q h = ground arith
  pop_from-Takes (e ∷ es) s q h = ground (arith, ap items q)

  pop-Takes :
      (s : ThreadSafeQueue T) {x : T} {t : ThreadSafeQueue T}
      → pop s ≡ Popped.item x t
      → Takes x s t
  unfolding pop
  pop-Takes s h = pop_from-Takes s.q s refl h

  -- The permutations that the steps need, over plain lists.
  add_queued :
      (x : T) (before pop q q' w : List T)
      → Perm before (pop ++ (q ++ w))
      → Perm q' (x ∷ q)
      → Perm (x ∷ before) (pop ++ (q' ++ w))
  add_queued x before pop q q' w h k = Perm.trans (Perm.cons x h) (
      Perm.trans (Perm.symm (perm_middle pop (q ++ w)))
        (Perm.append_left pop (Perm.append_right w (Perm.symm k))))

  add_waiting :
      (x : T) (before pop q w : List T)
      → Perm before (pop ++ (q ++ w))
      → Perm (x ∷ before) (pop ++ (q ++ x ∷ w))
  add_waiting x before pop q w h = Perm.trans (Perm.cons x h) (
      Perm.trans (Perm.symm (perm_middle pop (q ++ w)))
        (Perm.append_left pop (Perm.symm (perm_middle q w))))

  wake_queued :
      (x : T) (before pop q q' l r : List T)
      → Perm before (pop ++ (q ++ (l ++ x ∷ r)))
      → Perm q' (x ∷ q)
      → Perm before (pop ++ (q' ++ (l ++ r)))
  wake_queued x before pop q q' l r h k = Perm.trans h (
      Perm.append_left pop (
        Perm.trans (Perm.append_left q (perm_middle l r))
          (Perm.trans (perm_middle q (l ++ r)) (Perm.append_right (l ++ r) (Perm.symm k)))))

  Step-Holds : {s t : System T} → Step s t → Holds s → Holds t
  Step-Holds {s} (call_push e {t} h) v =
      let a = push-Adds e s.queue {t = t} v.blocking v.open_ h in
      record {
        blocking = a.blocking ∙ v.blocking;
        open_ = a.open_ ∙ v.open_;
        undropped = a.undropped ∙ v.undropped;
        kept = add_queued e.item _ s.popped (items s.queue.q) _ _ v.kept a.kept;
      }
  Step-Holds {s} (block_push e h) v = record {
    blocking = v.blocking;
    open_ = v.open_;
    undropped = v.undropped;
    kept = add_waiting e.item _ s.popped (items s.queue.q) _ v.kept;
  }
  Step-Holds {s} (wake_push l r e {t} at h) v =
      let a = push_waiting-Adds e s.queue {t = t} v.blocking v.open_ h in
      let split : items s.pushers ≡ items l ++ e.item ∷ items r =
        ap items at ∙ map-append _ l (e ∷ r) in
      record {
        blocking = a.blocking ∙ v.blocking;
        open_ = a.open_ ∙ v.open_;
        undropped = a.undropped ∙ v.undropped;
        kept =
            subst (λ w. Perm (items s.pushed) (s.popped ++ (items t.q ++ w)))
              (sym (map-append _ l r))
              (wake_queued e.item _ s.popped (items s.queue.q) _ (items l) (items r)
                (subst (λ w. Perm (items s.pushed) (s.popped ++ (items s.queue.q ++ w))) split
                  v.kept)
                a.kept);
      }
  Step-Holds {s} (call_pop x {t} h) v =
      let a = pop-Takes s.queue {x = x} {t = t} h in
      record {
        blocking = a.blocking ∙ v.blocking;
        open_ = a.open_ ∙ v.open_;
        undropped = a.undropped ∙ v.undropped;
        kept =
            Perm.trans
              (subst (λ w. Perm (items s.pushed) (s.popped ++ (w ++ items s.pushers))) a.kept
                v.kept)
              (perm_middle s.popped (items t.q ++ items s.pushers));
      }

  -- While backpressure is on and the queue open, no schedule of producers and consumers loses an
  -- item: nothing is dropped, and the items pushed are, up to order, those popped, those queued and
  -- those whose producer still waits.
  pub Runs-Holds : {s t : System T} → Holds s → Runs s t → Holds t
  Runs-Holds h done = h
  Runs-Holds h (more r st) = Step-Holds st (Runs-Holds h r)
