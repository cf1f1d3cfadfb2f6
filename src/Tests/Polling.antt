-- ===== src/Tests/Polling.antt =====
-- The comparison of a source whose row another goroutine removes meanwhile.
use operator_marketplace.Common.{◌≡◌, ◌↔◌, refl, none, false}
use operator_marketplace.Common.Errors.{ok}
use operator_marketplace.Common.Maps.{insert, lookup}
use operator_marketplace.Datastore.{
  new_datastore, write, get_operator_source, get_all_operator_sources,
}
use operator_marketplace.Datastore.Metadata.{OperatorSourceKey}
use operator_marketplace.Datastore.HasUpdate.{operator_source_has_update}
use operator_marketplace.AppRegistry.{new_client, list_packages, split_name}
use operator_marketplace.Sources.World.{setup_app_registry_options}
use operator_marketplace.Sources.Poller.{Meanwhile, round_panicked, has_update, poll}
use operator_marketplace.Sources.Poller.Races.{LosesRow, has_update-nil_iff}
use operator_marketplace.Tests.Samples.{small, in_phase, world}

-- Another goroutine removes the row of the source while its packages are listed.
abbrev removing : Meanwhile small
removing = record { before_get = λ w. w; before_compare = λ w. record w { store = new_datastore } }

abbrev polled_key : OperatorSourceKey
polled_key =
    let o = in_phase "" none in
    record {
      uid = o.meta.uid;
      name = record { namespace = o.meta.namespace; name = o.meta.name };
      spec = o.spec;
    }

has_update-nil_iff_example :
    ((has_update small removing polled_key (world false)).0 ≡ ok none)
    ↔ LosesRow small removing "u1" (world false)
has_update-nil_iff_example = has_update-nil_iff small removing polled_key (world false)

-- The round panics.
removed_meanwhile : (poll small (λ rest. removing) (world false)).0 ≡ round_panicked
unfolding poll get_all_operator_sources write insert new_datastore has_update get_operator_source
    lookup setup_app_registry_options new_client list_packages split_name operator_source_has_update
removed_meanwhile = refl
