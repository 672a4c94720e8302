-- ===== src/Step/Request/Accepted.antt =====
-- What an accepted request is.
use reiny.Prelude.{
  ℕ, suc, ◌+◌, ◌≤◌, ◌<◌, arith, ◌≡◌, sym, false, some, ok, refuse_iff, iff_refl, ok_iff, ◌==◌,
  ok_or_iff, seq_iff, for_each, get, keys,
}
use reiny.Step.Types.{StepTick, ClockSnapshot, input_key}
use reiny.Step.Plan.{Plan}
use reiny.Step.Request.{
  StepRequest, ValidatedRequest, u64_max, duration_max, checked_add, check_expected, check_supplied,
  rejected, time_overflow, tick_overflow, validate,
}

-- The tick that a request asks for at a clock.
abbrev pub tick_at : ClockSnapshot → StepRequest → StepTick
tick_at at request = record {
  id = record { epoch = at.epoch; index = at.next_index };
  start = at.time;
  dt = request.dt;
  end = at.time + request.dt;
}

pub checked_by :
    (greatest a b c : ℕ) → checked_add greatest a b ≡ some c → (c ≡ a + b) × (c ≤ greatest)
checked_by greatest a b c h = ground arith

checked_next : (greatest a c : ℕ) → c ≡ a + 1 → c ≡ suc a
checked_next greatest a c e = omega arith

under : {a b c : ℕ} → a ≡ b → a ≤ c → b ≤ c
under e h = omega (arith, e, h)

positive_by : (n : ℕ) → (n == 0) ≡ false → 0 < n
positive_by n h = ground arith

valid_by :
    (at : ClockSnapshot) (request : StepRequest) (end index : ℕ) (valid : ValidatedRequest)
    → end ≡ at.time + request.dt
    → index ≡ suc at.next_index
    → valid ≡ record {
      tick = record {
        id = record { epoch = at.epoch; index = at.next_index };
        start = at.time;
        dt = request.dt;
        end = end;
      };
      next_index = index;
      inputs = request.inputs;
    }
    → valid ≡ record {
      tick = tick_at at request;
      next_index = suc at.next_index;
      inputs = request.inputs;
    }
valid_by at request end index valid e f h = rw (sym e, sym f) h

pub validate-eq-ok :
    (request : StepRequest) (plan : Plan) (at : ClockSnapshot) (valid : ValidatedRequest)
    → validate request plan at ≡ ok valid
    → (0 < request.dt)
      × ((at.time + request.dt ≤ duration_max) × (suc at.next_index ≤ u64_max))
      × (for_each (check_supplied plan.graph request.inputs) plan.graph.inputs ≡ ok tt)
      × (valid ≡ record {
        tick = tick_at at request;
        next_index = suc at.next_index;
        inputs = request.inputs;
      })
unfolding validate
validate-eq-ok request plan at valid done =
    let expected =
      for_each (λ input. check_expected input (get plan.graph.inputs input))
        (keys request.inputs) in
    let supplied = for_each (check_supplied plan.graph request.inputs) plan.graph.inputs in
    let parts =
      (seq_iff (refuse_iff _ _ (iff_refl _)) (
          ok_or_iff (checked_add duration_max at.time request.dt) (rejected time_overflow) _ (λ end.
            ok_or_iff (checked_add u64_max at.next_index 1) (rejected tick_overflow) _ (λ index.
              seq_iff (iff_refl (expected ≡ ok tt)) (
                seq_iff (iff_refl (supplied ≡ ok tt)) (
                  ok_iff
                    (record {
                      tick = record {
                        id = record { epoch = at.epoch; index = at.next_index };
                        start = at.time;
                        dt = request.dt;
                        end = end;
                      };
                      next_index = index;
                      inputs = request.inputs;
                    })
                    valid)))))).0
        done in
    let end = checked_by duration_max at.time request.dt parts.1.0 parts.1.1.0 in
    let index = checked_by u64_max at.next_index 1 parts.1.1.1.0 parts.1.1.1.1.0 in
    let next : parts.1.1.1.0 ≡ suc at.next_index =
      checked_next u64_max at.next_index parts.1.1.1.0 index.0 in
    (
      positive_by request.dt parts.0,
      (under end.0 end.1, under next index.1),
      parts.1.1.1.1.1.1.0,
      valid_by at request parts.1.0 parts.1.1.1.0 valid end.0 next parts.1.1.1.1.1.1.1,
    )
