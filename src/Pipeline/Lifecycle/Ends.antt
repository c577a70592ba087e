-- ===== src/Pipeline/Lifecycle/Ends.antt =====
-- src/pipeline_controller.cpp: the state that the controller shows, and that a pipeline ends.
use wirewolf.Base.{
  ℕ, zero, suc, ◌+◌, ◌-◌, ◌<◌, ◌≤◌, ◌≡◌, ◌≢◌, ap, refl, Bool, true, false, ◌&&◌, ◌||◌, List, [],
  ◌∷◌, length, leb, if-ind, arith,
}
use wirewolf.Base.Text.{Bytes}
use wirewolf.Pipeline.Lifecycle.{
  PipelineState, Phase, Controller, Event, fresh, is_idle, start, stop, components, build, advance,
  fail, step, run, drive,
}

-- What the controller shows while its thread stands at a phase.
unfoldable pub IsCoherentAt : Phase → Controller → Type 0
IsCoherentAt Phase.ended c = (is_idle c.state_ ≡ true) × (c.built ≡ 0)
IsCoherentAt Phase.building c = (c.state_ ≡ PipelineState.starting) × (c.built ≤ components)
IsCoherentAt Phase.launching c = (c.state_ ≡ PipelineState.starting) × (c.built ≡ components)
IsCoherentAt Phase.monitoring c = (c.state_ ≡ PipelineState.running) × (c.built ≡ components)
IsCoherentAt Phase.closing c = (c.state_ ≡ PipelineState.stopping) × (c.built ≡ components)
IsCoherentAt Phase.draining c = (c.state_ ≡ PipelineState.stopping) × (c.built ≡ components)
IsCoherentAt Phase.joined c = (c.state_ ≡ PipelineState.stopping) × (c.built ≡ components)
IsCoherentAt Phase.crashed c = is_idle c.state_ ≡ false

abbrev pub IsCoherent : Controller → Type 0
IsCoherent c = IsCoherentAt c.phase c

abbrev at_phase : Phase → Controller → Controller
at_phase p c = record c { phase = p }

build-IsCoherent :
    (c : Controller)
    → IsCoherentAt Phase.building c
    → IsCoherent (build (at_phase Phase.building c))
unfolding IsCoherentAt build
build-IsCoherent c (shown, made) =
    if-ind (λ (x : Controller). IsCoherent x) (leb components c.built)
      (λ all_made. (shown, ground (arith, all_made, made))) λ more. (shown, ground (arith, more))

advance-IsCoherent :
    (is_offline drained : Bool) (p : Phase) (c : Controller)
    → IsCoherentAt p c
    → IsCoherent (advance is_offline drained p (at_phase p c))
unfolding IsCoherentAt advance
advance-IsCoherent o d Phase.ended c h = h
advance-IsCoherent o d Phase.building c h = build-IsCoherent c h
advance-IsCoherent o d Phase.launching c h = (refl, h.1)
advance-IsCoherent o d Phase.monitoring c h =
    if-ind (λ (x : Controller). IsCoherent x) (c.shutdown_requested_ || (o && d)) (λ _. (refl, h.1))
      λ _. h
advance-IsCoherent o d Phase.closing c h = h
advance-IsCoherent o d Phase.draining c h = h
advance-IsCoherent o d Phase.joined c h = (refl, refl)
advance-IsCoherent o d Phase.crashed c h = h

fail-IsCoherent :
    (err : Bytes) (p : Phase) (c : Controller)
    → IsCoherentAt p c
    → IsCoherent (fail err p (at_phase p c))
unfolding IsCoherentAt fail
fail-IsCoherent err Phase.ended c h = h
fail-IsCoherent err Phase.building c h = (refl, refl)
fail-IsCoherent err Phase.launching c h = ap is_idle h.0
fail-IsCoherent err Phase.monitoring c h = ap is_idle h.0
fail-IsCoherent err Phase.closing c h = ap is_idle h.0
fail-IsCoherent err Phase.draining c h = ap is_idle h.0
fail-IsCoherent err Phase.joined c h = (refl, refl)
fail-IsCoherent err Phase.crashed c h = h

start-IsCoherent : (valid : Bool) (c : Controller) → IsCoherent c → IsCoherent (start valid c)
unfolding IsCoherentAt start
start-IsCoherent valid c h =
    if-ind (λ (x : Controller). IsCoherent x) (is_idle c.state_ && valid) (λ _. (refl, omega arith))
      λ _. h

stop-IsCoherent : (p : Phase) (c : Controller) → IsCoherentAt p c → IsCoherentAt p (stop c)
unfolding IsCoherentAt stop
stop-IsCoherent Phase.ended c h = h
stop-IsCoherent Phase.building c h = h
stop-IsCoherent Phase.launching c h = h
stop-IsCoherent Phase.monitoring c h = h
stop-IsCoherent Phase.closing c h = h
stop-IsCoherent Phase.draining c h = h
stop-IsCoherent Phase.joined c h = h
stop-IsCoherent Phase.crashed c h = h

step-IsCoherent :
    (is_offline : Bool) (e : Event) (c : Controller)
    → IsCoherent c
    → IsCoherent (step is_offline e c)
unfolding step stop
step-IsCoherent o (Event.starts valid) c h = start-IsCoherent valid c h
step-IsCoherent o Event.stops c h = stop-IsCoherent c.phase c h
step-IsCoherent o (Event.advances d) c h = advance-IsCoherent o d c.phase c h
step-IsCoherent o (Event.fails err) c h = fail-IsCoherent err c.phase c h

run_from :
    (is_offline : Bool) (es : List Event) (c : Controller)
    → IsCoherent c
    → IsCoherent (run is_offline es c)
unfolding run
run_from o [] c h = h
run_from o (e ∷ es) c h = run_from o es _ (step-IsCoherent o e c h)

-- Whatever is called and whatever fails, in any order, as long as the program lives: the state that the
-- controller shows is that of its thread. It is idle, so that `start` is accepted, just when the
-- thread has ended, and then no component is left; while it is running or stopping, all components
-- exist. A failure that ends the program leaves a state that is not idle.
pub run-IsCoherent : (is_offline : Bool) (es : List Event) → IsCoherent (run is_offline es fresh)
unfolding IsCoherentAt
run-IsCoherent o es = run_from o es fresh (refl, refl)

-- How many stretches a thread that was asked to stop still takes.
left : Phase → ℕ → ℕ
left Phase.building built = (components - built) + 6
left Phase.launching built = 5
left Phase.monitoring built = 4
left Phase.closing built = 3
left Phase.draining built = 2
left Phase.joined built = 1
left _ built = 0

left_at_most : (p : Phase) (built : ℕ) → left p built ≤ 11
unfolding left
left_at_most Phase.ended built = omega arith
left_at_most Phase.building built = omega arith
left_at_most Phase.launching built = omega arith
left_at_most Phase.monitoring built = omega arith
left_at_most Phase.closing built = omega arith
left_at_most Phase.draining built = omega arith
left_at_most Phase.joined built = omega arith
left_at_most Phase.crashed built = omega arith

none_left : (n : ℕ) → 0 < n → n ≤ 0 → ⊥
none_left n some_left h = ground (arith, some_left, h)

-- What the way to the end keeps.
record IsEnding (n : ℕ) (c : Controller) : Type 0 where
  asked : c.shutdown_requested_ ≡ true
  alive : c.phase ≢ Phase.crashed
  near : left c.phase c.built ≤ n

advance-IsEnding :
    (is_offline drained : Bool) (p : Phase) (c : Controller) (n : ℕ)
    → p ≢ Phase.crashed
    → c.shutdown_requested_ ≡ true
    → left p c.built ≤ suc n
    → IsEnding n (advance is_offline drained p (at_phase p c))
unfolding advance build left
advance-IsEnding o d Phase.ended c n alive asked near = record {
  asked = asked;
  alive = alive;
  near = omega arith;
}
advance-IsEnding o d Phase.building c n alive asked near =
    if-ind (IsEnding n) (leb components c.built)
      (λ all_made. record {
        asked = asked;
        alive = λ e. ground (arith, e);
        near = omega (arith, near);
      })
      λ more. record { asked = asked; alive = alive; near = ground (arith, near, more) }
advance-IsEnding o d Phase.launching c n alive asked near = record {
  asked = asked;
  alive = λ e. ground (arith, e);
  near = omega (arith, near);
}
advance-IsEnding o d Phase.monitoring c n alive asked near =
    rw asked (record { asked = refl; alive = λ e. ground (arith, e); near = omega (arith, near) })
advance-IsEnding o d Phase.closing c n alive asked near = record {
  asked = asked;
  alive = λ e. ground (arith, e);
  near = omega (arith, near);
}
advance-IsEnding o d Phase.draining c n alive asked near = record {
  asked = asked;
  alive = λ e. ground (arith, e);
  near = omega (arith, near);
}
advance-IsEnding o d Phase.joined c n alive asked near = record {
  asked = asked;
  alive = λ e. ground (arith, e);
  near = omega (arith, near);
}
advance-IsEnding o d Phase.crashed c n alive asked near = elim (alive refl) [ ]

ended_or_crashed :
    (p : Phase) (c : Controller)
    → p ≢ Phase.crashed
    → left p c.built ≤ 0
    → IsCoherentAt p c
    → (is_idle c.state_ ≡ true) × (c.built ≡ 0)
unfolding left IsCoherentAt
ended_or_crashed Phase.ended c alive near h = h
ended_or_crashed Phase.building c alive near h = elim (none_left _ (omega arith) near) [ ]
ended_or_crashed Phase.launching c alive near h = elim (none_left _ (omega arith) near) [ ]
ended_or_crashed Phase.monitoring c alive near h = elim (none_left _ (omega arith) near) [ ]
ended_or_crashed Phase.closing c alive near h = elim (none_left _ (omega arith) near) [ ]
ended_or_crashed Phase.draining c alive near h = elim (none_left _ (omega arith) near) [ ]
ended_or_crashed Phase.joined c alive near h = elim (none_left _ (omega arith) near) [ ]
ended_or_crashed Phase.crashed c alive near h = elim (alive refl) [ ]

idle_at_end :
    (is_offline : Bool) (n : ℕ) (ds : List Bool) (c : Controller)
    → IsCoherent c
    → IsEnding n c
    → n ≤ length ds
    → (is_idle (drive is_offline ds c).state_ ≡ true) × ((drive is_offline ds c).built ≡ 0)
unfolding drive
idle_at_end o zero [] c h ending enough = ended_or_crashed c.phase c ending.alive ending.near h
idle_at_end o (suc n) [] c h ending enough = elim (none_left _ (omega arith) enough) [ ]
idle_at_end o zero (d ∷ ds) c h ending enough =
    idle_at_end o zero ds _ (advance-IsCoherent o d c.phase c h)
      (advance-IsEnding o d c.phase c zero ending.alive ending.asked (omega (arith, ending.near)))
      (omega arith)
idle_at_end o (suc n) (d ∷ ds) c h ending enough =
    idle_at_end o n ds _ (advance-IsCoherent o d c.phase c h)
      (advance-IsEnding o d c.phase c n ending.alive ending.asked ending.near)
      (omega (arith, enough))

-- Whatever was called and whatever failed before, unless the program is gone: after `stop` the
-- pipeline's thread, if nothing fails any more, ends within eleven stretches, whatever the monitor
-- finds; the controller is then idle, and no component is left.
pub drive-stop :
    (is_offline : Bool) (es : List Event) (ds : List Bool)
    → (run is_offline es fresh).phase ≢ Phase.crashed
    → 11 ≤ length ds
    → (is_idle (drive is_offline ds (stop (run is_offline es fresh))).state_ ≡ true)
      × ((drive is_offline ds (stop (run is_offline es fresh))).built ≡ 0)
unfolding stop
drive-stop o es ds alive enough =
    let c = run o es fresh in
    idle_at_end o 11 ds (stop c) (stop-IsCoherent c.phase c (run-IsCoherent o es))
      (record { asked = refl; alive = alive; near = left_at_most c.phase c.built }) enough
