-- ===== src/Tests/Handling.antt =====
-- The theorems on the reconciliation of operator sources, at a small world.
use operator_marketplace.Common.{◌≡◌, refl, ◌↔◌, none, some, true, false, is_some, [], ◌∷◌}
use operator_marketplace.Api.Meta.{is_zero, empty_object_phase}
use operator_marketplace.Api.OperatorSource.{
  OperatorSource, is_equal, remove_source_finalizer, operator_source_finalizer,
}
use operator_marketplace.Phase.{downloading, succeeded, purging, get_next}
use operator_marketplace.Phase.Transitioner.{transition_into, transition_into_lem}
use operator_marketplace.Common.Text.{equal_fold}
use operator_marketplace.Common.Maps.{lookup, insert}
use operator_marketplace.Datastore.{write, get_operator_source, new_datastore}
use operator_marketplace.Datastore.Rows.{get_row, new_row}
use operator_marketplace.Sources.World.{World}
use operator_marketplace.Sources.Handler.{
  reconcile, handle, returned, panicked, for_downloading, get_phase_reconciler,
}
use operator_marketplace.Sources.Reconcilers.Diagram.{Moves}
use operator_marketplace.Sources.Handler.Steps.{reconcile-Moves, passes}
use operator_marketplace.Sources.Handler.Panics.{handle-panicked_iff}
use operator_marketplace.Sources.Handler.Writes.{moved, handle_purges, IsForgotten, handle_deleted}
use operator_marketplace.Cluster.{Environment}
use operator_marketplace.Api.CatalogSourceConfig.{CatalogSourceConfig}
use operator_marketplace.Sources.Handler.Purged.{IsPurged, handle-purging}
use operator_marketplace.Common.Errors.{Error, err, new_error}
use operator_marketplace.AppRegistry.{list_packages}
use operator_marketplace.Sources.Handler.Retried.{noted, downloading_with, handle_unlisted}
use operator_marketplace.Tests.Samples.{no_client}
use operator_marketplace.Tests.Samples.{small, world, in_phase, stored}

transition_into_lem_example :
    transition_into 9 (some empty_object_phase) (some (get_next succeeded)) ≡ (
      some (record { phase = get_next succeeded; last_transition_time = 9; last_update_time = 9 }),
      true,
    )
unfolding get_next
transition_into_lem_example = transition_into_lem 9 empty_object_phase (get_next succeeded)

reconcile-Moves_example :
    Moves downloading
      (in_phase downloading none)
      (reconcile small for_downloading (in_phase downloading none) (world false)).0
unfolding get_phase_reconciler
reconcile-Moves_example =
    reconcile-Moves small for_downloading (in_phase downloading none) (world false) refl (λ e. cc)

-- The update that drops the finalizer fails: Handle panics.
handle-panicked_iff_example :
    ((handle small (in_phase succeeded (some 3)) (world true)).0 ≡ panicked) ↔ (
      (passes small (in_phase succeeded (some 3)) (world true) ≡ true)
      × (is_zero (some 3) ≡ false)
      × (is_some
            (small.sources.update
              (remove_source_finalizer (in_phase succeeded (some 3)))
              (world true).cluster).0
          ≡ true))
handle-panicked_iff_example = handle-panicked_iff small (in_phase succeeded (some 3)) (world true)

abbrev empty_world : World small
empty_world = record (world false) { store = new_datastore }

handle_purges_example : handle small (in_phase succeeded none) empty_world ≡ (
  returned none,
  record empty_world {
    cluster = record (empty_world.cluster) {
      source = some (moved 7 (in_phase succeeded none) (get_next purging));
      clock = 8;
    };
  },
)
unfolding get_operator_source get_row lookup new_datastore get_next
handle_purges_example = handle_purges small (in_phase succeeded none) empty_world refl

-- It has its own finalizer and another one.
abbrev held_back : OperatorSource
held_back =
    let o = in_phase succeeded (some 3) in
    record o { meta = record (o.meta) { finalizers = "other" ∷ operator_source_finalizer ∷ [] } }

handle_deleted_example :
    IsForgotten small held_back (world false) (handle small held_back (world false))
unfolding get_operator_source get_row lookup new_row is_equal equal_fold write insert new_datastore
handle_deleted_example = handle_deleted small held_back (world false) refl refl

-- Nothing to delete: the object restarts, and the call returns an error all the same.
abbrev without_configs : Environment
without_configs = record small { configs = no_client CatalogSourceConfig }

abbrev purging_world : World without_configs
purging_world = record { store = stored; cluster = (world false).cluster }

handle-purging_example :
    IsPurged without_configs
      (in_phase purging none)
      purging_world
      (handle without_configs (in_phase purging none) purging_world)
unfolding get_operator_source get_row lookup new_row is_equal equal_fold write insert new_datastore
handle-purging_example =
    handle-purging without_configs (in_phase purging none) purging_world refl refl refl refl

abbrev unreachable : Error
unreachable = new_error "connection refused"

-- One whose registry cannot be reached.
abbrev without_registry : Environment
without_registry = record small { list_packages = λ options namespace s. (err unreachable, s) }

abbrev downloading_world : World without_registry
downloading_world = record { store = stored; cluster = (world false).cluster }

handle_unlisted_example : handle without_registry (in_phase downloading none) downloading_world ≡ (
  returned (some unreachable),
  record downloading_world {
    cluster =
        (small.sources.update
          (noted 7 (in_phase downloading none) (downloading_with unreachable))
          downloading_world.cluster).1;
  },
)
unfolding get_operator_source get_row lookup new_row is_equal equal_fold write insert new_datastore
    list_packages new_error
handle_unlisted_example =
    handle_unlisted without_registry (in_phase downloading none) unreachable downloading_world refl
      refl refl refl refl refl
