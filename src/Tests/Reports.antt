-- ===== src/Tests/Reports.antt =====
-- A report of the operator's health, at a cluster without a ClusterOperator object.
use operator_marketplace.Common.{
  String, ◌≡◌, refl, true, false, Option, none, some, List, [], ◌∷◌, ◌==◌, eq_refl, if◌then◌else◌,
}
use operator_marketplace.Common.Errors.{ok, err}
use operator_marketplace.Status.{
  StatusCondition, ClusterOperator, Reporting, StatusReporter, ensure_cluster_operator, set_failing,
  set_status,
}
use operator_marketplace.Status.Conditions.{IsSetter, Reports, report, report-Reports}
use operator_marketplace.Api.Meta.{Time}
use operator_marketplace.Tests.Samples.{not_found}

-- The newest condition of a type comes first.
abbrev newest_of : String → List StatusCondition → Option (String × String)
newest_of type [] = none
newest_of type (c ∷ cs) =
    let older = newest_of type cs in if type == c.type then some (c.status, c.message) else older

abbrev pub put_first : Time → List StatusCondition → StatusCondition → List StatusCondition
put_first now cs c = c ∷ cs

pub put_first-IsSetter : IsSetter put_first
put_first-IsSetter = record {
  find = newest_of;
  same = λ now cs c. rw (eq_refl c.type) refl;
  other = λ now cs c type h. rw h refl;
}

abbrev pub reporting : Reporting
reporting = record {
  State = Option ClusterOperator;
  now = λ s. 7;
  version = "0.0.1";
  get = λ name s. (err not_found, s);
  create = λ o s. (ok o, some o);
  update_status = λ o s. (none, some o);
  set_status_condition = put_first;
  set_operand_version = λ vs v. v ∷ vs;
}

abbrev pub reporter : StatusReporter
reporter = record { co_api_not_present = false; namespace = "marketplace" }

report-Reports_example :
    (o : ClusterOperator) × (report reporting true reporter "no secret" none
      ≡ reporting.update_status o (ensure_cluster_operator reporting "marketplace" none).1)
    × Reports reporting put_first-IsSetter true "no secret" o.conditions
unfolding set_failing set_status ensure_cluster_operator
report-Reports_example =
    report-Reports reporting put_first-IsSetter true reporter "no secret" none refl refl
