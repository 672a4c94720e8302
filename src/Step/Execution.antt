-- ===== src/Step/Execution.antt =====
-- The guard of an advancement and the outcome of a node: crates/reiny/src/step/execution.rs.
use reiny.Prelude.{
  ◌||◌, Bool, true, false, not, Option, none, some, [], ◌∷◌, ◌++◌, Bytes, Map, codes, Result, ok,
  err, get, contains_key, find?, keys, bytes_key, if◌then◌else◌,
}
use reiny.Step.Values.{StepType, StepValue, type_eq}
use reiny.Step.Types.{StepId, StepFailure, StepFailureKind, StepOutputs}

-- `AdvanceGuard`; `fault` is the scheduler's field that it borrows.
pub record AdvanceGuard : Type 0 where
  pub fault : Option StepFailure
  pub failure : StepFailure
  pub armed : Bool

abbrev pub new_guard : Option StepFailure → StepId → AdvanceGuard
new_guard fault tick = record {
  fault = fault;
  failure = record {
    tick = tick;
    kind = StepFailureKind.advance_dropped;
    instance_name = none;
    port = none;
    attempted = [];
    completed = [];
    detail = codes "advance dropped after dispatch; component effects may persist";
  };
  armed = false;
}

abbrev pub dispatch : AdvanceGuard → Bytes → AdvanceGuard
dispatch guard name = record guard {
  failure = record (guard.failure) {
    instance_name = some name;
    attempted = guard.failure.attempted ++ (name ∷ []);
  };
  armed = true;
}

-- `fail`: the failure that it leaves as the fault and returns.
abbrev pub fail : AdvanceGuard → StepFailure
fail guard = guard.failure

-- `Drop::drop`: the fault behind it, for a thread that is panicking or not.
abbrev pub drop_guard : AdvanceGuard → Bool → Option StepFailure
drop_guard guard panicking =
    if guard.armed
    then some (
        if panicking
        then record (guard.failure) {
          kind = StepFailureKind.node_panicked;
          detail = codes "unwound after dispatch; component effects may persist";
        }
        else guard.failure)
    else guard.fault

-- What a panic carries: a string, or something else, of which the drop panics or does not.
pub data Payload : Type 0 where
  text : Bytes → Payload
  other : Bool → Payload

-- The end of the poll of a node's future.
pub data Polled : Type 0 where
  ready : Result Bytes StepOutputs → Polled
  unwound : Payload → Polled

-- An invocation ends with the poll and a panic of the future's disposal, or the advancement is
-- dropped while it is pending: by a thread that is panicking when it comes to the guard, since the
-- disposal of the node's future panicked or it unwound before, or by one that is not.
pub data Invocation : Type 0 where
  finished : Polled → Option Payload → Invocation
  abandoned : Bool → Invocation

abbrev pub panic_detail : Payload → Bytes
panic_detail (text message) = message
panic_detail (other panics) = codes "node panicked with a non-string payload"

abbrev pub NodeFailure : Type 0
NodeFailure = StepFailureKind × Bytes

-- The disposal's panic goes before the result.
abbrev pub caught : Polled → Option Payload → Result NodeFailure StepOutputs
caught polled (some payload) = err (StepFailureKind.node_panicked, panic_detail payload)
caught (ready (ok outputs)) none = ok outputs
caught (ready (err message)) none = err (StepFailureKind.node_error, message)
caught (unwound payload) none = err (StepFailureKind.node_panicked, panic_detail payload)

abbrev pub drop_panics : Payload → Bool
drop_panics (text message) = false
drop_panics (other panics) = panics

-- Whether a payload that was caught panics when it is dropped, be it `result`'s or `disposal`'s.
abbrev pub payload_panics : Polled → Option Payload → Bool
payload_panics (ready result) none = false
payload_panics (ready result) (some payload) = drop_panics payload
payload_panics (unwound payload) none = drop_panics payload
payload_panics (unwound payload) (some later) = drop_panics payload || drop_panics later

-- `catch_node`, none where it unwinds itself.
abbrev pub catch_node : Polled → Option Payload → Option (Result NodeFailure StepOutputs)
catch_node polled disposal =
    if payload_panics polled disposal then none else some (caught polled disposal)

-- How `Commit::commit` ends: it applied the bookkeeping, it refused to, or it panicked, behind the
-- application or in front of it.
pub data Verdict : Type 0 where
  applied : Verdict
  refused : StepFailureKind → Verdict
  panicked : Bool → Verdict

-- The closure of `find_map` in `invalid_output`.
abbrev pub missing_or_mismatched : Bytes → StepType → Option StepValue → Option (Bytes × Bytes)
missing_or_mismatched port expected none = some (port, codes "missing declared output")
missing_or_mismatched port expected (some value) =
    if type_eq value.step_type expected then none else some (port, codes "output schema mismatch")

abbrev pub first_of : Option (Bytes × Bytes) → Option (Bytes × Bytes) → Option (Bytes × Bytes)
first_of none later = later
first_of (some found) later = some found

abbrev pub declared_outputs : Map Bytes StepType → StepOutputs → Option (Bytes × Bytes)
declared_outputs [] outputs = none
declared_outputs ((port, expected) ∷ rest) outputs =
    first_of (missing_or_mismatched port expected (get outputs port))
      (declared_outputs rest outputs)

abbrev pub undeclared : Option Bytes → Option (Bytes × Bytes)
undeclared none = none
undeclared (some port) = some (port, codes "undeclared output")

unfoldable pub invalid_output : Map Bytes StepType → StepOutputs → Option (Bytes × Bytes)
invalid_output schema outputs =
    first_of (declared_outputs schema outputs)
      (undeclared (find? (λ port. not (contains_key schema port)) (keys outputs)))
