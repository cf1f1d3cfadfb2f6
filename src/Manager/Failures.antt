-- ===== src/Manager/Failures.antt =====
-- What main (cmd/manager/main.go) reports in the ClusterOperator before it ends or goes on.
use operator_marketplace.Common.{◌≡◌, refl, ap, ◌∙◌, true, false, Option, none, some}
use operator_marketplace.Common.Errors.{Error, ok}
use operator_marketplace.Status.{
  ClusterOperator, Reporting, StatusReporter, set_failing, ensure_cluster_operator,
}
use operator_marketplace.Status.Conditions.{IsSetter, Reports, report-Reports}
use operator_marketplace.Manager.{fatal, Startup, prepare, set_up, report_fatal, after_set_up, main}

module _ (R : Reporting) (U : Startup R) where
  -- What main does once it has a status and its steps have ended.
  main_prepared :
      (status : StatusReporter) (s s₁ s₂ : R.State) (e : Option Error)
      → prepare R U s ≡ (ok status, s₁)
      → set_up R U s₁ ≡ (e, s₂)
      → main R U s ≡ after_set_up R U status e s₂
  unfolding main
  main_prepared status s s₁ s₂ e p q = rw (p, main) (rw q refl)

  reported :
      (status : StatusReporter) (s : R.State) (e : Error)
      → (set_failing R status e.message s).0 ≡ none
      → (report_fatal R U status e s).0 ≡ fatal e
  unfolding report_fatal
  reported status s e done = rw (done, report_fatal) refl

  -- If the ClusterOperator API is there, a step of main after status.New has failed and the report
  -- of that does not fail: main ends by log.Fatal of the step's error, and the last thing that it
  -- has done is an update of the ClusterOperator's status, in which Failing is True with the text
  -- of that error, and Progressing and Available are False without a message.
  pub main-Reports :
      (S : IsSetter R.set_status_condition) (status : StatusReporter) (s s₁ s₂ : R.State)
      (e : Error)
      → prepare R U s ≡ (ok status, s₁)
      → status.co_api_not_present ≡ false
      → set_up R U s₁ ≡ (some e, s₂)
      → (set_failing R status e.message s₂).0 ≡ none
      → ((main R U s).0 ≡ fatal e)
        × ((o : ClusterOperator) × ((main R U s).1
              ≡ (R.update_status o (ensure_cluster_operator R status.namespace s₂).1).1)
            × Reports R S true e.message o.conditions)
  unfolding report_fatal
  main-Reports S status s s₁ s₂ e p there q done =
      let all = main_prepared status s s₁ s₂ (some e) p q in
      let (o, written, reports) = report-Reports R S true status e.message s₂ there done in
      (
        ap (λ r. r.0) all ∙ reported status s₂ e done,
        (o, ap (λ r. r.1) all ∙ ap (λ r. r.1) written, reports),
      )
