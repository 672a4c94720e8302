-- ===== src/Bindings/Graph/Edges.antt =====
-- What the check of an edge of the graph accepts.
use reiny.Prelude.{
  ◌≡◌, refl, ap, ◌⊎◌, inl, inr, ◌↔◌, Option, none, some, ok, seq_iff, require_iff, ===_iff,
  bytes_eq_iff, ==_iff, bytes_eq, ◌==◌, String, list_equal, pair_equal, nat_equal,
}
use reiny.Bindings.Types.{Replay, Retention, kind_equal}
use reiny.Bindings.ReportTypes.{PortReport, ResponseReport, ReportErrorCode}
use reiny.Bindings.Report.{Failure}
use reiny.Bindings.Graph.{check_edge, check_response, check_replay}

-- An input and the output that feeds it name one type by one schema, of one kind and with the same
-- assertions and response; what is to be replayed is retained.
abbrev pub IsCompatible : PortReport → PortReport → Type 0
IsCompatible input output =
    (input.type_name ≡ output.type_name)
    × ((input.schema ≡ output.schema)
        × ((input.contract.kind ≡ output.contract.kind)
            × ((input.contract.semantics ≡ output.contract.semantics)
                × ((input.response ≡ output.response)
                    × ((input.contract.replay ≡ Replay.live)
                        ⊎ (output.contract.retention ≡ Retention.last))))))

same_response : (a b : ResponseReport) → a.type_name ≡ b.type_name → a.schema ≡ b.schema → a ≡ b
same_response a b names schemas = cc

module _ (error : ReportErrorCode → String → Failure) where
  check_response-eq-ok :
      (x y : Option ResponseReport) → (check_response error x y ≡ ok tt) ↔ (x ≡ y)
  check_response-eq-ok none none = (λ _. refl, λ _. refl)
  check_response-eq-ok none (some actual) = (λ h. cc, λ h. cc)
  check_response-eq-ok (some expected) none = (λ h. cc, λ h. cc)
  check_response-eq-ok (some expected) (some actual) =
      let parts =
        seq_iff
          (require_iff (bytes_eq expected.type_name actual.type_name)
            (error ReportErrorCode.response "source response name differs")
            (bytes_eq_iff expected.type_name actual.type_name))
          (require_iff (expected.schema == actual.schema)
            (error ReportErrorCode.schema "source response fingerprint differs")
            (==_iff expected.schema actual.schema)) in
      (
        λ done. let same = parts.0 done in ap some (same_response expected actual same.0 same.1),
        λ same. parts.1 (cc, cc),
      )

  check_replay-eq-ok :
      (x : Replay) (y : Retention)
      → (check_replay error x y ≡ ok tt) ↔ ((x ≡ Replay.live) ⊎ (y ≡ Retention.last))
  check_replay-eq-ok Replay.live y = (λ _. inl refl, λ _. refl)
  check_replay-eq-ok Replay.last Retention.last = (λ _. inr refl, λ _. refl)
  check_replay-eq-ok Replay.last Retention.volatile =
      (λ h. cc, λ h. elim h [ inl e ↦ cc | inr e ↦ cc ])

  pub check_edge-eq-ok :
      (input output : PortReport)
      → (check_edge error input output ≡ ok tt) ↔ IsCompatible input output
  unfolding check_edge
  check_edge-eq-ok input output =
      seq_iff (require_iff _ _ (bytes_eq_iff input.type_name output.type_name)) (
        seq_iff (require_iff _ _ (==_iff input.schema output.schema)) (
          seq_iff (require_iff _ _ (===_iff input.contract.kind output.contract.kind)) (
            seq_iff (require_iff _ _ (===_iff input.contract.semantics output.contract.semantics)) (
              seq_iff (check_response-eq-ok input.response output.response)
                (check_replay-eq-ok input.contract.replay output.contract.retention)))))
