-- ===== src/Sources/World.antt =====
-- The state that the handlers of operator sources read and change, the result of a phase
-- reconciler (reconciler.go) and SetupAppRegistryOptions (appregistryhelper.go).
use operator_marketplace.Common.{String, Option, none, some, ◌==◌, if◌then◌else◌}
use operator_marketplace.Common.Maps.{Map, lookup}
use operator_marketplace.Common.Errors.{Error, Result, ok, err, new_error}
use operator_marketplace.Common.Effects.{Eff, ◌>>=◌, pure}
use operator_marketplace.Api.Meta.{Phase}
use operator_marketplace.Api.OperatorSource.{OperatorSource, OperatorSourceSpec}
use operator_marketplace.Datastore.{Datastore}
use operator_marketplace.Cluster.{Environment, Options}

-- The (out, nextPhase, err) of `Reconcile`; a nil pointer is `none`.
pub record Reconciled : Type 0 where
  pub out : Option OperatorSource
  pub next_phase : Option Phase
  pub error : Option Error

-- ErrWrongReconcilerInvoked of pkg/phase/phase.go
abbrev pub err_wrong_reconciler_invoked : Error
err_wrong_reconciler_invoked = new_error "Wrong phase reconciler invoked for the given object"

abbrev pub wrong_reconciler : Reconciled
wrong_reconciler = record {
  out = none;
  next_phase = none;
  error = some err_wrong_reconciler_invoked;
}

abbrev or_empty : Option String → String
or_empty none = ""
or_empty (some s) = s

module _ (E : Environment) where
  -- The datastore of the process, and all that lies outside the process.
  pub record World : Type 0 where
    pub store : Datastore
    pub cluster : E.State

  abbrev pub Action : Type 0 → Type 0
  Action A = Eff World A

  abbrev pub outside : {A : Type 0} → Eff E.State A → Action A
  outside m w = let (a, s) = m w.cluster in (a, record w { cluster = s })

  abbrev pub change_store : (Datastore → Datastore) → Action (Unit {0})
  change_store f w = (tt, record w { store = f w.store })

  abbrev pub from_store : {A : Type 0} → (Datastore → A) → Action A
  from_store f w = (f w.store, w)

  abbrev with_token : Options → Result (Map String) → Result Options
  with_token options (err e) = err e
  with_token options (ok secret) =
      ok (record options { auth_token = or_empty (lookup "token" secret) })

  -- The token of the source's secret is read, if the spec names one.
  unfoldable pub setup_app_registry_options :
      OperatorSourceSpec → String → Eff E.State (Result Options)
  unfolding lookup
  setup_app_registry_options spec namespace =
      let options : Options = record { source = spec.endpoint; auth_token = "" } in
      if spec.secret_name == "" then pure (ok options) else do
        secret ← E.get_secret (record { namespace = namespace; name = spec.secret_name })
        pure (with_token options secret)
