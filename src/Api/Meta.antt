-- ===== src/Api/Meta.antt =====
-- shared.go, phase.go and phase_types.go of pkg/apis/marketplace/v1alpha1: the object metadata
-- that the operators read and write, the finalizers, and the phase of an object.
use operator_marketplace.Common.{
  ℕ, String, ◌≡◌, Bool, true, false, Option, none, some, List, [], ◌∷◌, ◌++◌, arith, ◌==◌, eq_iff,
  if◌then◌else◌, Bool-cases, inl, inr, contains, contains-append,
}
use operator_marketplace.Common.Maps.{Map}

-- A point in time, in nanoseconds; 0 is Go's zero time.
abbrev pub Time : Type 0
Time = ℕ

pub record TypeMeta : Type 0 where
  pub kind : String
  pub api_version : String

pub record OwnerReference : Type 0 where
  pub api_version : String
  pub kind : String
  pub name : String
  pub uid : String
  pub controller : Bool

-- The fields of metav1.ObjectMeta that the operators use.
pub record ObjectMeta : Type 0 where
  pub name : String
  pub namespace : String
  pub uid : String
  pub labels : Map String
  pub owner_references : List OwnerReference
  pub finalizers : List String
  pub deletion_timestamp : Option Time

pub record NamespacedName : Type 0 where
  pub namespace : String
  pub name : String

pub record Phase : Type 0 where
  pub name : String
  pub message : String

pub record ObjectPhase : Type 0 where
  pub phase : Phase
  pub last_transition_time : Time
  pub last_update_time : Time

unfoldable pub new_phase : String → String → Phase
new_phase name message = record { name = name; message = message }

abbrev pub empty_object_phase : ObjectPhase
empty_object_phase = record {
  phase = record { name = ""; message = "" };
  last_transition_time = 0;
  last_update_time = 0;
}

abbrev pub empty_type_meta : TypeMeta
empty_type_meta = record { kind = ""; api_version = "" }

abbrev pub empty_object_meta : ObjectMeta
empty_object_meta = record {
  name = "";
  namespace = "";
  uid = "";
  labels = [];
  owner_references = [];
  finalizers = [];
  deletion_timestamp = none;
}

-- DeletionTimestamp.IsZero() on a pointer that may be nil.
abbrev pub is_zero : Option Time → Bool
is_zero none = true
is_zero (some ℕ.zero) = true
is_zero (some (ℕ.suc t)) = false

-- The loop of `ensureFinalizer` is `contains`: it returns at the first finalizer that is equal.
unfoldable pub ensure_finalizer : ObjectMeta → String → ObjectMeta
ensure_finalizer m expected =
    if contains expected m.finalizers
    then m
    else record m { finalizers = m.finalizers ++ (expected ∷ []) }

-- The loop of `removeFinalizer`: `continue` skips the finalizer that is deleted.
unfoldable pub without : String → List String → List String
without deleting [] = []
without deleting (finalizer ∷ rest) =
    let out = without deleting rest in if finalizer == deleting then out else finalizer ∷ out

unfoldable pub remove_finalizer : ObjectMeta → String → ObjectMeta
unfolding without
remove_finalizer m deleting = record m { finalizers = without deleting m.finalizers }

contains-without :
    (f g : String) (fs : List String)
    → contains g (without f fs) ≡ (if f == g then false else contains g fs)
unfolding contains without
contains-without f g [] = ground arith
contains-without f g (x ∷ fs) =
    ground (arith, contains-without f g fs, eq_iff x f, eq_iff x g, eq_iff f g)

-- After EnsureFinalizer the finalizer is there, and no other has come or gone.
pub contains-ensure_finalizer :
    (m : ObjectMeta) (f g : String)
    → contains g (ensure_finalizer m f).finalizers
      ≡ (if f == g then true else contains g m.finalizers)
unfolding ensure_finalizer contains
contains-ensure_finalizer m f g = elim (Bool-cases (contains f m.finalizers)) [
  | inl e ↦ rw e (ground (arith, eq_iff f g))
  | inr e ↦ rw (e, contains-append g m.finalizers (f ∷ [])) (ground (arith, eq_iff f g))
]

-- The finalizer is gone, and no other has come or gone.
abbrev pub AreWithout : String → List String → List String → Type 0
AreWithout f before after =
    (g : String) → contains g after ≡ (if f == g then false else contains g before)

-- After RemoveFinalizer the finalizer is gone, and no other has come or gone.
pub contains-remove_finalizer :
    (m : ObjectMeta) (f g : String)
    → contains g (remove_finalizer m f).finalizers
      ≡ (if f == g then false else contains g m.finalizers)
unfolding remove_finalizer
contains-remove_finalizer m f g = contains-without f g m.finalizers
