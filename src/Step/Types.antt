-- ===== src/Step/Types.antt =====
-- The data of crates/reiny/src/step/graph.rs and status.rs.
use reiny.Prelude.{
  ℕ, refl, Bool, ◌&&◌, ◌||◌, Option, List, Bytes, Map, Equal, equal_by, pair_equal, list_equal,
  nat_equal, Key, bytes_lt, bytes_eq,
}
use reiny.Step.Values.{StepType, StepValue}

pub record StepInput : Type 0 where
  pub instance_name : Bytes
  pub port : Bytes

pub record StepOutput : Type 0 where
  pub instance_name : Bytes
  pub port : Bytes

abbrev pub input_equal : Equal StepInput
input_equal =
    equal_by {B = Bytes × Bytes} (λ a. (a.instance_name, a.port))
      (λ p. record { instance_name = p.0; port = p.1 }) (λ a. refl)

abbrev pub output_equal : Equal StepOutput
output_equal =
    equal_by {B = Bytes × Bytes} (λ a. (a.instance_name, a.port))
      (λ p. record { instance_name = p.0; port = p.1 }) (λ a. refl)

-- `Ord`: by instance, then by port.
abbrev pub pair_before : Bytes × Bytes → Bytes × Bytes → Bool
pair_before a b = bytes_lt a.0 b.0 || (bytes_eq a.0 b.0 && bytes_lt a.1 b.1)

instance abbrev pub input_key : Key StepInput
input_key = record {
  same = input_equal.eq;
  before = λ a b. pair_before (a.instance_name, a.port) (b.instance_name, b.port);
  same_iff = input_equal.eq_iff;
}

instance abbrev pub output_key : Key StepOutput
output_key = record {
  same = output_equal.eq;
  before = λ a b. pair_before (a.instance_name, a.port) (b.instance_name, b.port);
  same_iff = output_equal.eq_iff;
}

pub record StepSchema : Type 0 where
  pub inputs : Map Bytes StepType
  pub outputs : Map Bytes StepType

pub data StepSource : Type 0 where
  external : StepSource
  same_tick : StepOutput → StepSource
  previous_tick : StepOutput → StepValue → StepSource

pub record StepGraph : Type 0 where
  pub nodes : Map Bytes StepSchema
  pub inputs : Map StepInput StepSource

pub data StepPlanError : Type 0 where
  empty_graph : StepPlanError
  invalid_instance : Bytes → StepPlanError
  invalid_port : Bytes → Bytes → StepPlanError
  missing_input : StepInput → StepPlanError
  unknown_input : StepInput → StepPlanError
  unknown_source : StepOutput → StepPlanError
  type_mismatch : StepInput → StepType → StepType → StepPlanError
  initial_type_mismatch : StepInput → StepType → StepType → StepPlanError
  same_tick_cycle : List Bytes → StepPlanError
  epoch_exhausted : StepPlanError

-- A `Duration` is its number of nanoseconds.
abbrev pub Duration : Type 0
Duration = ℕ

pub record StepId : Type 0 where
  pub epoch : ℕ
  pub index : ℕ

pub record StepTick : Type 0 where
  pub id : StepId
  pub start : Duration
  pub dt : Duration
  pub end : Duration

abbrev pub StepInputs : Type 0
StepInputs = Map Bytes StepValue

abbrev pub StepOutputs : Type 0
StepOutputs = Map Bytes StepValue

pub record StepReceipt : Type 0 where
  pub tick : StepTick
  pub outputs : Map StepOutput StepValue

pub data StepFailureKind : Type 0 where
  node_error node_panicked invalid_outputs cancelled timed_out host_stopped worker_lost
        advance_dropped :
      StepFailureKind

pub record StepFailure : Type 0 where
  pub tick : StepId
  pub kind : StepFailureKind
  pub instance_name : Option Bytes
  pub port : Option Bytes
  pub attempted : List Bytes
  pub completed : List Bytes
  pub detail : Bytes

pub data ClockPhase : Type 0 where
  starting : ClockPhase
  ready : ClockPhase
  running : StepId → ClockPhase
  faulted : StepFailure → ClockPhase
  stopped : ClockPhase

pub record ClockSnapshot : Type 0 where
  pub epoch : ℕ
  pub next_index : ℕ
  pub time : Duration
  pub phase : ClockPhase
