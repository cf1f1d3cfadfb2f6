-- ===== src/Configs/Triggerer/Needed.antt =====
-- Which configs Trigger (pkg/catalogsourceconfig/triggerer.go) updates, and with which packages.
use operator_marketplace.Common.{
  String, ◌≡◌, refl, ap, ◌∙◌, Bool, true, false, ◌||◌, List, [], ◌∷◌, ◌++◌, arith, if◌then◌else◌,
  Bool-cases, inl, inr, is_some, ◌==◌,
}
use mathlib.Core.List.{append_assoc, append-nil}
use operator_marketplace.Common.Text.{join, split}
use operator_marketplace.Common.Maps.{lookup}
use operator_marketplace.Api.Meta.{Time, Phase}
use operator_marketplace.Phase.{initial}
use operator_marketplace.Phase.Transitioner.{transition_into_lem, same_phase}
use operator_marketplace.Common.Errors.{Error}
use operator_marketplace.Common.Effects.{Eff, ◌>>=◌, pure}
use operator_marketplace.Api.CatalogSourceConfig.{
  CatalogSourceConfig, ensure_config_gvk, config_package_ids,
}
use operator_marketplace.Datastore.Update.{PackageUpdateAggregator, is_removed, is_updated}
use operator_marketplace.Cluster.{Environment}
use operator_marketplace.Configs.Triggerer.{
  update_phase, set_package_list, set_packages, triggered, update_triggered, with_error,
  trigger_config, trigger_each,
}

module _ (notification : PackageUpdateAggregator) where
  -- The packages that are not removed, in their order.
  abbrev pub kept : List String → List String
  kept [] = []
  kept (pkg ∷ rest) =
      let later = kept rest in
      if is_some (lookup pkg notification.removed) then later else pkg ∷ later

  -- Some package is removed or updated.
  abbrev pub affected : List String → Bool
  affected [] = false
  affected (pkg ∷ rest) =
      is_some (lookup pkg notification.removed)
      || is_some (lookup pkg notification.updated)
      || affected rest

  set_package_list_lem :
      (ids packages : List String) (needed : Bool)
      → set_package_list notification ids (packages, needed)
        ≡ (packages ++ kept ids, needed || affected ids)
  unfolding set_package_list is_removed is_updated
  set_package_list_lem [] packages needed = ground (arith, append-nil packages)
  set_package_list_lem (pkg ∷ rest) packages needed =
      elim (Bool-cases (is_some (lookup pkg notification.removed))) [
        | inl e ↦ rw e (set_package_list_lem rest packages true ∙ ground arith)
        | inr e ↦ rw e (
            set_package_list_lem rest (packages ++ (pkg ∷ [])) _
            ∙ ground (arith, append_assoc packages (pkg ∷ []) (kept rest)))
      ]

  -- setPackages gives the packages of the config that have not been removed, in their order, and
  -- asks for an update exactly if some package of the config is removed or updated.
  pub set_packages_lem :
      (c : CatalogSourceConfig)
      → set_packages c notification
        ≡ (join "," (kept (split "," c.spec.packages)), affected (split "," c.spec.packages))
  unfolding set_packages config_package_ids
  set_packages_lem c = rw (set_package_list_lem (config_package_ids c) [] false) refl

  -- The object with its kind set.
  abbrev pub typed : CatalogSourceConfig → CatalogSourceConfig
  typed c = record c {
    type_meta = record {
      kind = "CatalogSourceConfig";
      api_version = "marketplace.redhat.com/v1alpha1";
    };
  }

  -- The listed configs that name a package which has changed, with their kind set.
  abbrev pub needing : List CatalogSourceConfig → List CatalogSourceConfig
  needing [] = []
  needing (item ∷ rest) =
      let later = needing rest in
      if affected (split "," item.spec.packages) then typed item ∷ later else later

  -- The config without the removed packages, in phase Initial with the triggerer's message.
  abbrev pub rescheduled : Time → CatalogSourceConfig → CatalogSourceConfig
  rescheduled now c =
      let next : Phase = record {
        name = initial;
        message = "Package(s) have update(s), scheduling for reconciliation";
      } in
      record c {
        current_phase = record {
          phase = next;
          last_transition_time =
              if c.current_phase.phase.name == initial
              then c.current_phase.last_transition_time
              else now;
          last_update_time =
              if same_phase c.current_phase.phase next
              then c.current_phase.last_update_time
              else now;
        };
        spec = record (c.spec) { packages = join "," (kept (split "," c.spec.packages)) };
      }

  rescheduled_lem :
      (now : Time) (c : CatalogSourceConfig)
      → triggered now c (join "," (kept (split "," c.spec.packages))) ≡ rescheduled now c
  unfolding triggered
  rescheduled_lem now c = rw (transition_into_lem now c.current_phase update_phase) refl

  module _ (E : Environment) where
    -- Every config is written once, and the errors are collected.
    abbrev pub write_each : List CatalogSourceConfig → List Error → Eff E.State (List Error)
    write_each [] errors = pure errors
    write_each (c ∷ cs) errors =
        let later = write_each cs in
        do
          updated ← λ s. E.configs.update (rescheduled (E.now s) c) s
          later (with_error E errors updated)

    pub trigger_each_lem :
        (items : List CatalogSourceConfig) (errors : List Error) (s : E.State)
        → trigger_each E notification items errors s ≡ write_each (needing items) errors s
    unfolding trigger_each trigger_config update_triggered ensure_config_gvk
    trigger_each_lem [] errors s = refl
    trigger_each_lem (item ∷ rest) errors s =
        let c = typed item in
        rw (trigger_each, set_packages_lem c)
          (elim (Bool-cases (affected (split "," item.spec.packages))) [
            | inl e ↦ rw e (
                ap
                  (λ d.
                    let (u, s') = E.configs.update d s in
                    trigger_each E notification rest (with_error E errors u) s')
                  (rescheduled_lem (E.now s) c)
                ∙ trigger_each_lem rest _ _)
            | inr e ↦ rw e (trigger_each_lem rest errors s)
          ])
