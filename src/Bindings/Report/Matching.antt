-- ===== src/Bindings/Report/Matching.antt =====
-- What an accepted report says of the bindings (`validate_report`).
use reiny.Prelude.{
  ◌≡◌, ◌≢◌, ◌↔◌, refl, ==_iff, bytes_eq_iff, Result, ok, err, seq_iff, require_iff, >>-ne-err,
  refuse-ne-err,
}
use reiny.Core.{schema_fingerprint_version}
use reiny.Bindings.Types.{ModuleBindings, BindingError}
use reiny.Bindings.ReportTypes.{module_report_version, ModuleReport, ReportEntry, ReportPortSide}
use reiny.Bindings.Module.{validate_bindings}
use reiny.Bindings.Report.{panicked, validate_report, invalid_bindings}
use reiny.Bindings.Report.Ports.{
  IsPorts, validate_ports-eq-ok, validate_ports-ne-panicked, rejected-ne-panicked,
}

-- A report of the supported versions, under the identity of the bindings, with the ports that they
-- declare on both sides and no other.
abbrev pub IsReport : ModuleBindings → ModuleReport → Type 0
IsReport b report =
    (report.version ≡ module_report_version)
    × ((report.fingerprint_version ≡ schema_fingerprint_version)
        × ((report.namespace ≡ b.namespace)
            × ((report.endpoint_namespace ≡ b.endpoint_namespace)
                × (IsPorts b ReportPortSide.input report.inputs
                    × IsPorts b ReportPortSide.output report.outputs))))

invalid_bindings_iff :
    (b : ModuleBindings) (r : Result BindingError (Unit {0}))
    → (invalid_bindings b r ≡ ok tt) ↔ (r ≡ ok tt)
invalid_bindings_iff b (ok done) = (λ _. refl, λ _. refl)
invalid_bindings_iff b (err failure) = (λ h. cc, λ h. cc)

-- `validate_report` accepts exactly the reports of accepted bindings that are of the supported
-- versions and under the same identity, report no port that is not declared, and report each
-- declared port under its endpoint, contract, type and response.
pub validate_report-eq-ok :
    (b : ModuleBindings) (report : ModuleReport)
    → (validate_report b report ≡ ok tt) ↔ ((validate_bindings b ≡ ok tt) × IsReport b report)
unfolding validate_report
validate_report-eq-ok b report =
    let entry : ReportEntry = record { bindings = b; report = report } in
    seq_iff (invalid_bindings_iff b (validate_bindings b)) (
      seq_iff (require_iff _ _ (==_iff report.version module_report_version)) (
        seq_iff (require_iff _ _ (==_iff report.fingerprint_version schema_fingerprint_version)) (
          seq_iff (require_iff _ _ (bytes_eq_iff report.namespace b.namespace)) (
            seq_iff (require_iff _ _ (bytes_eq_iff report.endpoint_namespace b.endpoint_namespace))
              (seq_iff (validate_ports-eq-ok entry ReportPortSide.input)
                (validate_ports-eq-ok entry ReportPortSide.output))))))

invalid_bindings-ne-panicked :
    (b : ModuleBindings) (r : Result BindingError (Unit {0})) → invalid_bindings b r ≢ err panicked
invalid_bindings-ne-panicked b (ok done) = λ h. cc
invalid_bindings-ne-panicked b (err failure) = λ h. cc

pub validate_report-ne-panicked :
    (b : ModuleBindings) (report : ModuleReport) → validate_report b report ≢ err panicked
unfolding validate_report
validate_report-ne-panicked b report =
    let entry : ReportEntry = record { bindings = b; report = report } in
    search
      (
        >>-ne-err, refuse-ne-err, rejected-ne-panicked, invalid_bindings-ne-panicked,
        validate_ports-ne-panicked,
      )
      depth 12
