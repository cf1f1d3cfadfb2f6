-- ===== src/Status/Conditions.antt =====
-- What the ClusterOperator says after a report of pkg/status/status.go.
use operator_marketplace.Common.{
  String, ◌≡◌, refl, ◌∙◌, Bool, true, false, not, Option, none, some, List, ◌==◌, if◌then◌else◌,
}
use operator_marketplace.Common.Errors.{Error, Result, ok, err}
use operator_marketplace.Api.Meta.{Time}
use operator_marketplace.Status.{
  StatusCondition, ClusterOperator, Reporting, StatusReporter, operator_available,
  operator_progressing, operator_failing, condition_true, condition_false, set_status_condition,
  set_status, set_failing, set_available, with_status, written, ensure_cluster_operator,
}

-- A way to read the status and the message of a condition, as SetStatusCondition documents it: the
-- condition of the given type is set, and those of other types are kept.
pub record IsSetter (set : Time → List StatusCondition → StatusCondition → List StatusCondition)
    : Type 0 where
  pub find : String → List StatusCondition → Option (String × String)
  pub same :
      (now : Time) (cs : List StatusCondition) (c : StatusCondition)
      → find c.type (set now cs c) ≡ some (c.status, c.message)
  pub other :
      (now : Time) (cs : List StatusCondition) (c : StatusCondition) (type : String)
      → (type == c.type) ≡ false
      → find type (set now cs c) ≡ find type cs

-- A report: SetFailing or SetAvailable.
abbrev pub report :
    (R : Reporting) → Bool → StatusReporter → String → R.State → Option Error × R.State
report R true r message = set_failing R r message
report R false r message = set_available R r message

-- The status and the message of a condition that holds or not.
abbrev holds_if : Bool → String → String × String
holds_if true message = (condition_true, message)
holds_if false message = (condition_false, "")

module _ (R : Reporting) (S : IsSetter R.set_status_condition) where
  -- The condition that is reported is True with the message, the others False without one.
  abbrev pub Reports : Bool → String → List StatusCondition → Type 0
  Reports failing message cs =
      (S.find operator_progressing cs ≡ some (holds_if false message))
      × (S.find operator_available cs ≡ some (holds_if (not failing) message))
      × (S.find operator_failing cs ≡ some (holds_if failing message))

  abbrev pub reported : Bool → String
  reported failing = if failing then operator_failing else operator_available

  set_status_condition-Reports :
      (failing : Bool) (now : Time) (message : String) (cs : List StatusCondition)
      → Reports failing message (set_status_condition R now (reported failing) message cs)
  unfolding set_status_condition
  set_status_condition-Reports true now message cs = (
    S.other now _ _ operator_progressing refl
        ∙ S.other now _ _ operator_progressing refl
        ∙ S.same now _ _,
    S.other now _ _ operator_available refl ∙ S.same now _ _,
    S.same now _ _,
  )
  set_status_condition-Reports false now message cs = (
    S.other now _ _ operator_progressing refl
        ∙ S.other now _ _ operator_progressing refl
        ∙ S.same now _ _,
    S.other now _ _ operator_available refl ∙ S.same now _ _,
    S.same now _ _,
  )

  written-Reports :
      (failing : Bool) (message : String) (r : Result ClusterOperator) (s : R.State)
      → (written R (reported failing) message r s).0 ≡ none
      → (o : ClusterOperator) × (written R (reported failing) message r s ≡ R.update_status o s)
        × Reports failing message o.conditions
  unfolding with_status
  written-Reports failing message (err e) s h = cc
  written-Reports failing message (ok o) s h = (
    with_status R (R.now s) (reported failing) message o,
    refl,
    set_status_condition-Reports failing (R.now s) message o.conditions,
  )

  -- Where the ClusterOperator API is present: if a report of failure or of availability does not
  -- end the process, it ends with an update of the object's status, in which the condition that is
  -- reported, Failing or Available, is True with the message, and the other two of Progressing,
  -- Available and Failing are False without one.
  pub report-Reports :
      (failing : Bool) (r : StatusReporter) (message : String) (s : R.State)
      → r.co_api_not_present ≡ false
      → (report R failing r message s).0 ≡ none
      → (o : ClusterOperator) × (report R failing r message s
          ≡ R.update_status o (ensure_cluster_operator R r.namespace s).1)
        × Reports failing message o.conditions
  unfolding set_available set_failing set_status
  report-Reports true r message s p = rw p (written-Reports true message _ _)
  report-Reports false r message s p = rw p (written-Reports false message _ _)
