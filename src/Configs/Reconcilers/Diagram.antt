-- ===== src/Configs/Reconcilers/Diagram.antt =====
-- The diagram of the phases of a CatalogSourceConfig, and that every reconciler follows it.
use operator_marketplace.Common.{String, ◌≡◌, refl, true, Option, none, some, arith, ◌==◌, eq_iff}
use operator_marketplace.Common.Errors.{Error}
use operator_marketplace.Api.Meta.{Phase, new_phase, ensure_finalizer}
use operator_marketplace.Api.CatalogSourceConfig.{
  CatalogSourceConfig, ensure_config_finalizer, ensure_display_name, ensure_publisher,
}
use operator_marketplace.Phase.{
  initial, configuring, succeeded, failed, get_next, get_next_with_message,
}
use operator_marketplace.Cluster.{Environment}
use operator_marketplace.Configs.Reconcilers.{
  ConfigReconciled, ConfigWorld, config_phase, config_configured, initial_config_reconcile,
  configuring_config_reconcile, succeeded_config_reconcile, failed_config_reconcile,
}

-- The arrows between phases: those of a config's own phase, and that of an update.
pub data ConfigArrow : String → String → Type 0 where
  configure : ConfigArrow initial configuring
  retry : ConfigArrow configuring configuring
  succeed : ConfigArrow configuring succeeded

abbrev pub ConfigFollows : String → Option Phase → Type 0
ConfigFollows name none = Unit
ConfigFollows name (some next) = ConfigArrow name next.name

-- What a reconciler leaves alone.
pub record IsKeptConfig (c out : CatalogSourceConfig) : Type 0 where
  pub name : out.meta.name ≡ c.meta.name
  pub namespace : out.meta.namespace ≡ c.meta.namespace
  pub uid : out.meta.uid ≡ c.meta.uid
  pub packages : out.spec.packages ≡ c.spec.packages
  pub target : out.spec.target_namespace ≡ c.spec.target_namespace

-- The result of a reconciler for phase `from`: an object comes back, with its identity, packages
-- and target kept, and the next phase follows the diagram.
abbrev pub ConfigMoves : String → CatalogSourceConfig → ConfigReconciled → Type 0
ConfigMoves from c r = elim r.out [
  | none ↦ ⊥
  | some out ↦ IsKeptConfig c out × ConfigFollows from r.next_phase
]

IsKeptConfig-refl : (c : CatalogSourceConfig) → IsKeptConfig c c
IsKeptConfig-refl c = record {
  name = refl;
  namespace = refl;
  uid = refl;
  packages = refl;
  target = refl;
}

guard_passed :
    (c : CatalogSourceConfig) (p : String) → config_phase c ≡ p → (config_phase c == p) ≡ true
guard_passed c p e = (eq_iff (config_phase c) p).1 e

pub IsKeptConfig-defaults :
    (c : CatalogSourceConfig)
    → IsKeptConfig c (ensure_publisher (ensure_display_name (ensure_config_finalizer c)))
unfolding ensure_publisher ensure_display_name ensure_config_finalizer ensure_finalizer
IsKeptConfig-defaults c = record {
  name = ground arith;
  namespace = ground arith;
  uid = ground arith;
  packages = ground arith;
  target = ground arith;
}

module _ (E : Environment) (c : CatalogSourceConfig) where
  pub initial-ConfigMoves :
      (w : ConfigWorld E)
      → config_phase c ≡ initial
      → ConfigMoves initial c (initial_config_reconcile E c w).0
  unfolding initial_config_reconcile get_next new_phase
  initial-ConfigMoves w e = rw (guard_passed c initial e) (IsKeptConfig-defaults c, configure)

  configured-ConfigMoves : (r : Option Error) → ConfigMoves configuring c (config_configured E c r)
  unfolding get_next get_next_with_message new_phase
  configured-ConfigMoves none = (IsKeptConfig-refl c, succeed)
  configured-ConfigMoves (some e) = (IsKeptConfig-refl c, retry)

  pub configuring-ConfigMoves :
      (w : ConfigWorld E)
      → config_phase c ≡ configuring
      → ConfigMoves configuring c (configuring_config_reconcile E c w).0
  unfolding configuring_config_reconcile
  configuring-ConfigMoves w e = rw (guard_passed c configuring e) (configured-ConfigMoves _)

  pub succeeded-ConfigMoves :
      (w : ConfigWorld E)
      → config_phase c ≡ succeeded
      → ConfigMoves succeeded c (succeeded_config_reconcile E c w).0
  unfolding succeeded_config_reconcile
  succeeded-ConfigMoves w e = rw (guard_passed c succeeded e) (IsKeptConfig-refl c, tt)

  pub failed-ConfigMoves :
      (w : ConfigWorld E)
      → config_phase c ≡ failed
      → ConfigMoves failed c (failed_config_reconcile E c w).0
  unfolding failed_config_reconcile
  failed-ConfigMoves w e = rw (guard_passed c failed e) (IsKeptConfig-refl c, tt)
