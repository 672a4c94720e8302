-- ===== src/Step/Request.antt =====
-- The validation of a request: crates/reiny/src/step/request.rs. Indexing a map at a key that it
-- lacks unwinds, which is an outcome of its own.
pub mod Accepted
use reiny.Prelude.{
  ℕ, suc, ◌+◌, ◌-◌, ◌*◌, ◌^◌, Bool, true, false, not, Option, none, some, List, [], ◌∷◌, Bytes, Map,
  Result, ok, err, refuse, ok_or, ◌>>◌, ◌>>=◌, for_each, get, keys, leb, ◌==◌, bytes_key,
  if◌then◌else◌,
}
use reiny.Step.Values.{StepType, StepValue, type_eq}
use reiny.Step.Types.{
  StepInput, StepSource, StepSchema, StepGraph, StepId, StepTick, ClockSnapshot, Duration,
  input_key,
}
use reiny.Step.Plan.{Plan}

pub record StepRequest : Type 0 where
  pub dt : Duration
  pub inputs : Map StepInput StepValue

pub data StepRequestError : Type 0 where
  zero_dt : StepRequestError
  time_overflow : StepRequestError
  tick_overflow : StepRequestError
  missing_input : StepInput → StepRequestError
  unexpected_input : StepInput → StepRequestError
  type_mismatch : StepInput → StepType → StepType → StepRequestError

pub data RequestFailure : Type 0 where
  rejected : StepRequestError → RequestFailure
  unwound : RequestFailure

pub record ValidatedRequest : Type 0 where
  pub tick : StepTick
  pub next_index : ℕ
  pub inputs : Map StepInput StepValue

-- `u64::MAX`, and the nanoseconds of `Duration::MAX`, which has `u64` seconds.
abbrev pub u64_max : ℕ
u64_max = 2 ^ 64 - 1

abbrev pub duration_max : ℕ
duration_max = u64_max * 1000000000 + 999999999

-- `a.checked_add(b)` in a type with that greatest value.
abbrev pub checked_add : ℕ → ℕ → ℕ → Option ℕ
checked_add greatest a b = if leb (a + b) greatest then some (a + b) else none

-- `match plan.graph.inputs.get(input)`, for a supplied input.
abbrev pub check_expected : StepInput → Option StepSource → Result RequestFailure (Unit {0})
check_expected input (some StepSource.external) = ok tt
check_expected input _ = err (rejected (unexpected_input input))

-- `&plan.graph.nodes[&input.instance].inputs[&input.port]`
abbrev pub index_type : Map Bytes StepSchema → StepInput → Result RequestFailure StepType
index_type nodes input = do
  schema ← ok_or (get nodes input.instance_name) unwound
  ok_or (get schema.inputs input.port) unwound

-- A round of `for (input, source) in &plan.graph.inputs`.
abbrev pub check_supplied :
    StepGraph → Map StepInput StepValue → StepInput × StepSource → Result RequestFailure (Unit {0})
check_supplied graph supplied (input, StepSource.external) = do
  value ← ok_or (get supplied input) (rejected (missing_input input))
  expected ← index_type graph.nodes input
  refuse (not (type_eq value.step_type expected))
      (rejected (type_mismatch input expected value.step_type))
check_supplied graph supplied (input, StepSource.same_tick output) = ok tt
check_supplied graph supplied (input, StepSource.previous_tick source initial) = ok tt

-- `StepRequest::validate`
unfoldable pub validate :
    StepRequest → Plan → ClockSnapshot → Result RequestFailure ValidatedRequest
validate request plan clock = do
  refuse (request.dt == 0) (rejected zero_dt)
  end ← ok_or (checked_add duration_max clock.time request.dt) (rejected time_overflow)
  next_index ← ok_or (checked_add u64_max clock.next_index 1) (rejected tick_overflow)
  for_each (λ input. check_expected input (get plan.graph.inputs input)) (keys request.inputs)
  for_each (check_supplied plan.graph request.inputs) plan.graph.inputs
  ok (record {
    tick = record {
      id = record { epoch = clock.epoch; index = clock.next_index };
      start = clock.time;
      dt = request.dt;
      end = end;
    };
    next_index = next_index;
    inputs = request.inputs;
  })
