-- ===== src/Status.antt =====
-- pkg/status/status.go: the report of the operator's health in the ClusterOperator object. The
-- calls of the ClusterOperator API, the clock and the vendored helpers SetStatusCondition and
-- SetOperandVersion are the fields of a record. log.Fatalf ends the process: an error here. The
-- field clusterOperator is a result that is passed on, since every call of setStatus fetches it
-- again.
pub mod Conditions
use operator_marketplace.Common.{
  String, Bool, true, false, not, ◌&&◌, Option, none, some, List, [], ◌==◌, if◌then◌else◌,
}
use operator_marketplace.Common.Errors.{Error, Result, ok, err, is_not_found}
use operator_marketplace.Common.Effects.{Eff, ◌>>=◌, pure}
use operator_marketplace.Api.Meta.{Time}

-- configv1.ClusterOperatorStatusCondition
pub record StatusCondition : Type 0 where
  pub type : String
  pub status : String
  pub message : String
  pub last_transition_time : Time

-- configv1.OperandVersion
pub record OperandVersion : Type 0 where
  pub name : String
  pub version : String

-- The fields of configv1.ClusterOperator that are written.
pub record ClusterOperator : Type 0 where
  pub name : String
  pub namespace : String
  pub conditions : List StatusCondition
  pub versions : List OperandVersion

abbrev pub operator_available : String
operator_available = "Available"

abbrev pub operator_progressing : String
operator_progressing = "Progressing"

abbrev pub operator_failing : String
operator_failing = "Failing"

abbrev pub condition_true : String
condition_true = "True"

abbrev pub condition_false : String
condition_false = "False"

abbrev pub cluster_operator_name : String
cluster_operator_name = "marketplace-operator"

-- What lies outside. SetStatusCondition reads the clock too, so it takes the time.
pub record Reporting : Type 1 where
  pub State : Type 0
  pub now : State → Time
  pub version : String
  pub get : String → State → Result ClusterOperator × State
  pub create : ClusterOperator → State → Result ClusterOperator × State
  pub update_status : ClusterOperator → State → Option Error × State
  pub set_status_condition : Time → List StatusCondition → StatusCondition → List StatusCondition
  pub set_operand_version : List OperandVersion → OperandVersion → List OperandVersion

-- The fields of the struct `status` that do not change.
pub record StatusReporter : Type 0 where
  pub co_api_not_present : Bool
  pub namespace : String

module _ (R : Reporting) where
  abbrev pub new_cluster_operator : String → ClusterOperator
  new_cluster_operator namespace = record {
    name = cluster_operator_name;
    namespace = namespace;
    conditions = [];
    versions = [];
  }

  abbrev pub created_if_missing :
      String → Result ClusterOperator → Eff R.State (Result ClusterOperator)
  created_if_missing namespace (ok found) = pure (ok found)
  created_if_missing namespace (err e) =
      if not (is_not_found e) then pure (err e) else R.create (new_cluster_operator namespace)

  unfoldable pub ensure_cluster_operator : String → Eff R.State (Result ClusterOperator)
  ensure_cluster_operator namespace = do
    found ← R.get cluster_operator_name
    created_if_missing namespace found

  abbrev condition_of : Time → String → Bool → String → StatusCondition
  condition_of now type holds message = record {
    type = type;
    status = if holds then condition_true else condition_false;
    message = if holds then message else "";
    last_transition_time = now;
  }

  unfoldable pub set_status_condition :
      Time → String → String → List StatusCondition → List StatusCondition
  set_status_condition now condition message conditions =
      let progressing =
        R.set_status_condition now conditions
          (condition_of now operator_progressing false message) in
      let available =
        R.set_status_condition now progressing
          (condition_of now operator_available (condition == operator_available) message) in
      R.set_status_condition now available
        (condition_of now operator_failing (condition == operator_failing) message)

  unfoldable pub set_operand_version : List OperandVersion → List OperandVersion
  set_operand_version versions =
      R.set_operand_version versions (record { name = "operator"; version = R.version })

  unfoldable pub with_status : Time → String → String → ClusterOperator → ClusterOperator
  unfolding set_status_condition set_operand_version
  with_status now condition message o = record o {
    conditions = set_status_condition now condition message o.conditions;
    versions = set_operand_version o.versions;
  }

  abbrev pub written : String → String → Result ClusterOperator → Eff R.State (Option Error)
  written condition message (err e) s = (some e, s)
  written condition message (ok o) s = R.update_status (with_status (R.now s) condition message o) s

  unfoldable pub set_status : StatusReporter → String → String → Eff R.State (Option Error)
  unfolding ensure_cluster_operator with_status
  set_status r condition message =
      if r.co_api_not_present
      then pure none
      else do ensured ← ensure_cluster_operator r.namespace; written condition message ensured

  unfoldable pub set_failing : StatusReporter → String → Eff R.State (Option Error)
  unfolding set_status
  set_failing r message = set_status r operator_failing message

  unfoldable pub set_available : StatusReporter → String → Eff R.State (Option Error)
  unfolding set_status
  set_available r message = set_status r operator_available message
