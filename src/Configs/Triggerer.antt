-- ===== src/Configs/Triggerer.antt =====
-- triggerer.go of pkg/catalogsourceconfig: the update of the configs that name a package which has
-- changed in a remote registry.
pub mod Needed
pub mod Changed
use operator_marketplace.Common.{
  String, Bool, true, false, not, Option, none, some, List, [], ◌∷◌, ◌++◌, if◌then◌else◌,
}
use operator_marketplace.Common.Text.{join}
use operator_marketplace.Common.Errors.{Error, Result, ok, err, new_aggregate}
use operator_marketplace.Common.Effects.{Eff, ◌>>=◌, pure}
use operator_marketplace.Api.Meta.{Time, Phase, ObjectPhase}
use operator_marketplace.Api.CatalogSourceConfig.{
  CatalogSourceConfig, ensure_config_gvk, config_package_ids,
}
use operator_marketplace.Phase.{initial}
use operator_marketplace.Phase.Transitioner.{transition_into}
use operator_marketplace.Datastore.Update.{PackageUpdateAggregator, is_removed, is_updated}
use operator_marketplace.Cluster.{Environment}

-- The loop of setPackages: the packages that stay, and whether an update is needed.
unfoldable pub set_package_list :
    PackageUpdateAggregator → List String → List String × Bool → List String × Bool
unfolding is_removed is_updated
set_package_list notification [] (packages, needed) = (packages, needed)
set_package_list notification (pkg ∷ rest) (packages, needed) = set_package_list notification rest (
    if is_removed pkg notification
    then (packages, true)
    else (packages ++ (pkg ∷ []), if is_updated pkg notification then true else needed))

unfoldable pub set_packages : CatalogSourceConfig → PackageUpdateAggregator → String × Bool
unfolding set_package_list
set_packages c notification =
    let (packages, needed) = set_package_list notification (config_package_ids c) ([], false) in
    (join "," packages, needed)

abbrev pub update_phase : Phase
update_phase = record {
  name = initial;
  message = "Package(s) have update(s), scheduling for reconciliation";
}

abbrev phase_or : ObjectPhase → Option ObjectPhase → ObjectPhase
phase_or before none = before
phase_or before (some phase) = phase

-- The object that `update` writes.
unfoldable pub triggered : Time → CatalogSourceConfig → String → CatalogSourceConfig
triggered now c packages = record c {
  current_phase =
      phase_or c.current_phase (transition_into now (some c.current_phase) (some update_phase)).0;
  spec = record (c.spec) { packages = packages };
}

module _ (E : Environment) where
  unfoldable pub update_triggered : CatalogSourceConfig → String → Eff E.State (Option Error)
  unfolding triggered
  update_triggered c packages s = E.configs.update (triggered (E.now s) c packages) s

  abbrev pub with_error : List Error → Option Error → List Error
  with_error errors none = errors
  with_error errors (some e) = errors ++ (e ∷ [])

  -- The body of the loop of Trigger, `following` being the rest of it.
  unfoldable pub trigger_config :
      CatalogSourceConfig
      → String × Bool
      → (List Error → Eff E.State (List Error))
      → List Error
      → Eff E.State (List Error)
  unfolding update_triggered
  trigger_config c (packages, false) following errors = following errors
  trigger_config c (packages, true) following errors = do
    updated ← update_triggered c packages
    following (with_error errors updated)

  unfoldable pub trigger_each :
      PackageUpdateAggregator → List CatalogSourceConfig → List Error → Eff E.State (List Error)
  unfolding set_packages trigger_config
  trigger_each notification [] errors = pure errors
  trigger_each notification (item ∷ rest) errors =
      let c = ensure_config_gvk item in
      trigger_config c (set_packages c notification) (trigger_each notification rest) errors

  abbrev pub on_listed :
      PackageUpdateAggregator → Result (List CatalogSourceConfig) → Eff E.State (Option Error)
  on_listed notification (err e) = pure (some e)
  on_listed notification (ok items) = do
    errors ← trigger_each notification items []
    pure (new_aggregate E.show_errors errors)

  unfoldable pub trigger : PackageUpdateAggregator → Eff E.State (Option Error)
  unfolding trigger_each
  trigger notification = do
    items ← E.list_configs "opsrc-datastore!=true"
    on_listed notification items
