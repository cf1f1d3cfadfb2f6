-- ===== src/Api/OperatorSource.antt =====
-- operatorsource_types.go of pkg/apis/marketplace/v1alpha1.
use Prim.Native.Char.{Char}
use operator_marketplace.Common.{String, ◌≡◌, Bool, true, false, Option, none, some, ◌&&◌}
use operator_marketplace.Common.{if◌then◌else◌}
use operator_marketplace.Common.Text.{equal_fold, equal_fold_refl}
use operator_marketplace.Api.Meta.{
  TypeMeta, ObjectMeta, ObjectPhase, empty_object_phase, ensure_finalizer, remove_finalizer,
}

pub record OperatorSourceSpec : Type 0 where
  pub type : String
  pub endpoint : String
  pub registry_namespace : String
  -- AuthorizationToken.SecretName
  pub secret_name : String
  pub display_name : String
  pub publisher : String

pub record OperatorSourceStatus : Type 0 where
  pub current_phase : ObjectPhase
  pub packages : String

pub record OperatorSource : Type 0 where
  pub type_meta : TypeMeta
  pub meta : ObjectMeta
  pub spec : OperatorSourceSpec
  pub status : OperatorSourceStatus

abbrev pub operator_source_finalizer : String
operator_source_finalizer = "finalizer.operatorsources.marketplace.redhat.com"

-- SchemeGroupVersion.Group + "/" + Version, and the kinds, of register.go.
abbrev pub group_version : String
group_version = "marketplace.redhat.com/v1alpha1"

abbrev pub operator_source_kind : String
operator_source_kind = "OperatorSource"

abbrev pub empty_status : OperatorSourceStatus
empty_status = record { current_phase = empty_object_phase; packages = "" }

unfoldable pub ensure_source_gvk : OperatorSource → OperatorSource
ensure_source_gvk o = record o {
  type_meta = record { kind = operator_source_kind; api_version = group_version };
}

abbrev pub current_phase_name : OperatorSource → String
current_phase_name o = o.status.current_phase.phase.name

-- The receiver is `s`; `other` may be nil. `fold` is the case folding of strings.EqualFold.
unfoldable pub is_equal : (Char → Char) → OperatorSourceSpec → Option OperatorSourceSpec → Bool
is_equal fold s none = false
is_equal fold s (some other) =
    if equal_fold fold s.endpoint other.endpoint
      && equal_fold fold s.registry_namespace other.registry_namespace
      && equal_fold fold s.type other.type
    then true
    else false

pub is_equal_refl : (fold : Char → Char) (s : OperatorSourceSpec) → is_equal fold s (some s) ≡ true
unfolding is_equal
is_equal_refl fold s = rw (
  equal_fold_refl fold s.endpoint,
  equal_fold_refl fold s.registry_namespace,
  equal_fold_refl fold s.type,
)

unfoldable pub remove_source_finalizer : OperatorSource → OperatorSource
remove_source_finalizer o = record o { meta = remove_finalizer o.meta operator_source_finalizer }

unfoldable pub ensure_source_finalizer : OperatorSource → OperatorSource
ensure_source_finalizer o = record o { meta = ensure_finalizer o.meta operator_source_finalizer }
