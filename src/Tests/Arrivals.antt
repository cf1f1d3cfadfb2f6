-- ===== src/Tests/Arrivals.antt =====
-- An operator source that reaches Succeeded in a cluster whose updates never fail.
use operator_marketplace.Common.{◌≡◌, refl, ap, ◌+◌, true, Option, none, some, List, [], ◌∷◌}
use operator_marketplace.Api.CatalogSourceConfig.{CatalogSourceConfig}
use operator_marketplace.Common.Errors.{Result, ok}
use operator_marketplace.Api.Meta.{NamespacedName}
use operator_marketplace.Api.OperatorSource.{OperatorSource}
use operator_marketplace.Phase.{initial, succeeded}
use operator_marketplace.Datastore.{new_datastore}
use operator_marketplace.AppRegistry.Names.{HasFormat}
use operator_marketplace.Cluster.{Environment, Package}
use operator_marketplace.Sources.World.{World}
use operator_marketplace.Sources.Handler.{returned}
use operator_marketplace.Sources.Progress.{IsHealthy}
use operator_marketplace.Sources.Progress.Phases.{IsAt, IsKnown}
use operator_marketplace.Sources.Progress.Arrival.{four_requests, reaches_succeeded}
use operator_marketplace.Tests.Samples.{small, Small, found, in_phase, spec, world}

abbrev pub to_list : Option CatalogSourceConfig → List CatalogSourceConfig
to_list none = []
to_list (some c) = c ∷ []

abbrev pub writable : Environment
writable = record small {
  list_configs = λ label s. (ok (to_list s.config), s);
  sources = record (small.sources) {
    update = λ o s. (none, record s { source = some o; clock = s.clock + 1 });
  };
  configs = record (small.configs) { update = λ c s. (none, record s { config = some c }) };
}

abbrev pub request : NamespacedName
request = record { namespace = "marketplace"; name = "community" }

abbrev pub etcd : Package
etcd = record { name = "community/etcd"; default = "0.9.2" }

pub etcd-HasFormat : HasFormat etcd
etcd-HasFormat = (
  "community",
  "etcd",
  refl,
  (refl, (refl, (refl, (refl, (refl, (refl, (refl, (refl, (refl, tt))))))))),
  (refl, (refl, (refl, (refl, tt)))),
)

pub gets_held :
    (s : Small) (o : OperatorSource)
    → s.source ≡ some o
    → ◌≡◌ {A = Result OperatorSource × Small} (found s.source, s) (ok o, s)
gets_held s o h = ap (λ x. (found x, s)) h

abbrev pub writable_cluster : IsHealthy writable request
writable_cluster = record {
  held = λ s. s.source;
  get_held = gets_held;
  update_ok = λ o s. refl;
  update_held = λ o s. refl;
  create_ok = λ c s. refl;
  first = etcd;
  others = [];
  formatted = (etcd-HasFormat, tt);
  list_ok = λ options namespace s. refl;
}

abbrev pub start : World writable
start = record {
  store = new_datastore;
  cluster = record ((world true).cluster) { source = some (in_phase initial none) };
}

reaches_succeeded_example :
    ((four_requests writable request start).0
      ≡ returned none ∷ returned none ∷ returned none ∷ returned none ∷ [])
    × IsAt writable_cluster "u1" spec succeeded (four_requests writable request start).1
    × IsKnown writable_cluster "u1" spec (four_requests writable request start).1.store
reaches_succeeded_example =
    reaches_succeeded writable request writable_cluster start (in_phase initial none) refl refl refl
      (record { request_uri = refl; url = refl; no_secret = refl })
