-- ===== src/Configs/Handler/Runs.antt =====
-- How one call of Handle (pkg/catalogsourceconfig/handler.go) proceeds: the reconciler that the
-- factory picks, and the phase that it leads to.
use mathlib.Core.Path.{subst}
use operator_marketplace.Common.{
  String, ◌≡◌, sym, inl, inr, Bool, true, false, ◌||◌, arith, eq_iff, Bool-cases,
}
use operator_marketplace.Common.Errors.{ok}
use operator_marketplace.Api.Meta.{is_zero}
use operator_marketplace.Api.CatalogSourceConfig.{CatalogSourceConfig}
use operator_marketplace.Phase.{initial, configuring, succeeded, failed}
use operator_marketplace.Cluster.{Environment}
use operator_marketplace.Configs.Cache.{is_entry_stale}
use operator_marketplace.Configs.Reconcilers.{ConfigWorld, config_phase}
use operator_marketplace.Configs.Reconcilers.Diagram.{
  ConfigMoves, initial-ConfigMoves, configuring-ConfigMoves, succeeded-ConfigMoves,
  failed-ConfigMoves,
}
use operator_marketplace.Configs.Handler.{
  ConfigReconciler, config_update, config_deleted, config_initial, config_configuring,
  config_succeeded, config_failed, config_reconciler_of_phase, choose, get_config_reconciler,
  run_config_reconciler,
}

-- The phase of the reconciler; an update or a deletion may find any.
abbrev pub config_phase_of : ConfigReconciler → String → String
config_phase_of (config_update t) name = name
config_phase_of config_deleted name = name
config_phase_of config_initial name = initial
config_phase_of config_configuring name = configuring
config_phase_of config_succeeded name = succeeded
config_phase_of config_failed name = failed

config_reconciler_of_phase_sound :
    (name : String) (k : ConfigReconciler)
    → config_reconciler_of_phase name ≡ ok k
    → name ≡ config_phase_of k name
config_reconciler_of_phase_sound name k h =
    ground (
      arith,
      eq_iff name initial,
      eq_iff name configuring,
      eq_iff name succeeded,
      eq_iff name failed,
    )

choose_sound :
    (stale : Bool × Bool) (c : CatalogSourceConfig) (k : ConfigReconciler)
    → choose stale c ≡ ok k
    → config_phase c ≡ config_phase_of k (config_phase c)
choose_sound (p, t) c k h = elim (Bool-cases (p || t)) [
  | inl s ↦ ground arith
  | inr s ↦ elim (Bool-cases (is_zero c.meta.deletion_timestamp)) [
    | inl z ↦ config_reconciler_of_phase_sound (config_phase c) k (rw (s, z) at h)
    | inr z ↦ ground arith
  ]
]

-- The reconcilers of the phases, not those of an update or a deletion.
abbrev pub is_phase_reconciler : ConfigReconciler → Bool
is_phase_reconciler (config_update t) = false
is_phase_reconciler config_deleted = false
is_phase_reconciler _ = true

module _ (E : Environment) where
  run_in_phase :
      (k : ConfigReconciler) (c : CatalogSourceConfig) (w : ConfigWorld E)
      → config_phase c ≡ config_phase_of k (config_phase c)
      → is_phase_reconciler k ≡ true
      → ConfigMoves (config_phase_of k (config_phase c)) c (run_config_reconciler E k c w).0
  unfolding run_config_reconciler
  run_in_phase (config_update t) c w e h = cc
  run_in_phase config_deleted c w e h = cc
  run_in_phase config_initial c w e h = initial-ConfigMoves E c w e
  run_in_phase config_configuring c w e h = configuring-ConfigMoves E c w e
  run_in_phase config_succeeded c w e h = succeeded-ConfigMoves E c w e
  run_in_phase config_failed c w e h = failed-ConfigMoves E c w e

  -- The reconciler that the factory picks for a config that is neither stale in the cache nor being
  -- deleted returns an object with the same name, namespace, UID, packages and target namespace,
  -- and its next phase, if it has one, follows the diagram: Initial to Configuring, Configuring to
  -- itself or Succeeded, and none from Succeeded or Failed.
  pub run-ConfigMoves :
      (k : ConfigReconciler) (c : CatalogSourceConfig) (w : ConfigWorld E)
      → get_config_reconciler w.cache c ≡ ok k
      → is_phase_reconciler k ≡ true
      → ConfigMoves (config_phase c) c (run_config_reconciler E k c w).0
  unfolding get_config_reconciler
  run-ConfigMoves k c w h p =
      let e = choose_sound (is_entry_stale c w.cache) c k h in
      subst (λ name. ConfigMoves name c (run_config_reconciler E k c w).0) (sym e)
        (run_in_phase k c w e p)
