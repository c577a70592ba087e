-- ===== src/Pipeline/Lifecycle.antt =====
-- src/pipeline_controller.cpp: `start`, `stop` and `pipeline_thread_func`, as the events of one thread that
-- calls them and of the pipeline's own thread. `built` counts the components that exist, in the
-- order in which they are made. From the start of the LLM stage's worker until all three threads are
-- joined, an exception ends the program, as a thread object is destroyed unjoined: the capture
-- thread's by leaving the block, a stage's by the reset in the catch block. The end of the capture that
-- `stop` asks for is found by the monitor.
use wirewolf.Base.{
  ℕ, ◌+◌, Bool, true, false, not, ◌&&◌, ◌||◌, List, [], ◌∷◌, leb, ◌==◌, if◌then◌else◌,
}
use wirewolf.Base.Text.{Bytes}
pub mod Ends

pub data PipelineState : Type 0 where
  stopped starting running stopping error : PipelineState

-- Where the pipeline's thread stands: `launching` is from the LLM stage's start on, `closing` until the
-- capture thread is joined, `draining` until both stages are.
pub data Phase : Type 0 where
  ended building launching monitoring closing draining joined crashed : Phase

pub record Controller : Type 0 where
  pub state_ : PipelineState
  pub shutdown_requested_ : Bool
  pub alerts_fired_ : ℕ
  pub last_error_ : Bytes
  pub built : ℕ
  pub phase : Phase

-- The constructor.
abbrev pub fresh : Controller
fresh = record {
  state_ = PipelineState.stopped;
  shutdown_requested_ = false;
  alerts_fired_ = 0;
  last_error_ = [];
  built = 0;
  phase = Phase.ended;
}

abbrev pub is_idle : PipelineState → Bool
is_idle PipelineState.stopped = true
is_idle PipelineState.error = true
is_idle _ = false

-- `start`, with what `valid` says of the configuration.
unfoldable pub start : Bool → Controller → Controller
start valid c =
    if is_idle c.state_ && valid
    then record c {
      state_ = PipelineState.starting;
      shutdown_requested_ = false;
      alerts_fired_ = 0;
      built = 0;
      phase = Phase.building;
    }
    else c

unfoldable pub stop : Controller → Controller
stop c = record c { shutdown_requested_ = true }

-- The two queues and the three stages.
abbrev pub components : ℕ
components = 5

unfoldable pub build : Controller → Controller
build c =
    if leb components c.built
    then record c { phase = Phase.launching }
    else record c { built = c.built + 1 }

-- The next stretch of the thread. `drained` is what a round of the monitor finds: the capture is over
-- and both queues are empty.
unfoldable pub advance : Bool → Bool → Phase → Controller → Controller
advance is_offline drained Phase.building c = build c
advance is_offline drained Phase.launching c = record c {
  state_ = PipelineState.running;
  phase = Phase.monitoring;
}
advance is_offline drained Phase.monitoring c =
    if c.shutdown_requested_ || (is_offline && drained)
    then record c { state_ = PipelineState.stopping; phase = Phase.closing }
    else c
advance is_offline drained Phase.closing c = record c { phase = Phase.draining }
advance is_offline drained Phase.draining c = record c { phase = Phase.joined }
advance is_offline drained Phase.joined c = record c {
  state_ = PipelineState.stopped;
  built = 0;
  phase = Phase.ended;
}
advance is_offline drained _ c = c

-- An exception with this text.
unfoldable pub fail : Bytes → Phase → Controller → Controller
fail err Phase.ended c = c
fail err Phase.crashed c = c
fail err Phase.launching c = record c { phase = Phase.crashed }
fail err Phase.monitoring c = record c { phase = Phase.crashed }
fail err Phase.closing c = record c { phase = Phase.crashed }
fail err Phase.draining c = record c { phase = Phase.crashed }
fail err _ c = record c {
  state_ = PipelineState.error;
  last_error_ = err;
  built = 0;
  phase = Phase.ended;
}

pub data Event : Type 0 where
  starts : (valid : Bool) → Event
  stops : Event
  advances : (drained : Bool) → Event
  fails : (err : Bytes) → Event

unfoldable pub step : Bool → Event → Controller → Controller
step is_offline (Event.starts valid) c = start valid c
step is_offline Event.stops c = stop c
step is_offline (Event.advances drained) c = advance is_offline drained c.phase c
step is_offline (Event.fails err) c = fail err c.phase c

-- The events in their order.
unfoldable pub run : Bool → List Event → Controller → Controller
run is_offline [] c = c
run is_offline (e ∷ es) c = run is_offline es (step is_offline e c)

-- The pipeline's thread on its own, with what the monitor finds in each stretch.
unfoldable pub drive : Bool → List Bool → Controller → Controller
drive is_offline [] c = c
drive is_offline (drained ∷ ds) c = drive is_offline ds (advance is_offline drained c.phase c)
