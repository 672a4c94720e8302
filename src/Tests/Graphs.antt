-- ===== src/Tests/Graphs.antt =====
-- A step graph of two nodes: `a` reads an external input and, one tick late, `b`, which reads `a`.
use reiny.Prelude.{ℕ, suc, none, [], ◌∷◌, Bytes, ok, err}
use reiny.Step.Values.{StepType, compiled, StepValue}
use reiny.Step.Types.{StepInput, StepSource, StepGraph, StepTick, StepInputs}
use reiny.Step.Plan.{Plan}
use reiny.Step.Request.{StepRequest}
use reiny.Step.Execution.{Polled, Invocation}
use reiny.Step.Clock.{StepScheduler}

abbrev pub number : StepType
number = compiled (110 ∷ []) 5

abbrev pub value_of : ℕ → StepValue
value_of n = record { step_type = number; bytes = n ∷ [] }

abbrev pub name_a : Bytes
name_a = 97 ∷ []

abbrev pub name_b : Bytes
name_b = 98 ∷ []

abbrev pub out : Bytes
out = 111 ∷ []

abbrev pub input_x : StepInput
input_x = record { instance_name = name_a; port = 120 ∷ [] }

abbrev pub input_f : StepInput
input_f = record { instance_name = name_a; port = 102 ∷ [] }

abbrev pub input_i : StepInput
input_i = record { instance_name = name_b; port = 105 ∷ [] }

abbrev pub feedback : StepGraph
feedback = record {
  nodes =
      (
        name_a,
        record {
          inputs = (input_f.port, number) ∷ (input_x.port, number) ∷ [];
          outputs = (out, number) ∷ [];
        },
      )
      ∷ (name_b, record { inputs = (input_i.port, number) ∷ []; outputs = (out, number) ∷ [] })
      ∷ [];
  inputs =
      (
        input_f,
        StepSource.previous_tick (record { instance_name = name_b; port = out }) (value_of 0),
      )
      ∷ (input_x, StepSource.external)
      ∷ (input_i, StepSource.same_tick (record { instance_name = name_a; port = out }))
      ∷ [];
}

-- `a` reads `b` within the tick as well.
abbrev pub knot : StepGraph
knot = record feedback {
  inputs =
      (input_f, StepSource.same_tick (record { instance_name = name_b; port = out }))
      ∷ (input_x, StepSource.external)
      ∷ (input_i, StepSource.same_tick (record { instance_name = name_a; port = out }))
      ∷ [];
}

abbrev pub plan_of_feedback : Plan
plan_of_feedback = record { graph = feedback; order = name_a ∷ name_b ∷ [] }

abbrev pub fresh : StepScheduler
fresh = record {
  plan = plan_of_feedback;
  epoch = 3;
  next_index = 0;
  time = 10;
  previous = [];
  fault = none;
}

-- Each call of a node counts, and the count is its output.
abbrev pub counting : ℕ → Bytes → StepTick → StepInputs → Invocation × ℕ
counting n name tick inputs =
    (Invocation.finished (Polled.ready (ok ((out, value_of n) ∷ []))) none, suc n)

-- A node that fails.
abbrev pub failing : ℕ → Bytes → StepTick → StepInputs → Invocation × ℕ
failing n name tick inputs = (Invocation.finished (Polled.ready (err [])) none, suc n)

abbrev pub ask : StepRequest
ask = record { dt = 4; inputs = (input_x, value_of 9) ∷ [] }
