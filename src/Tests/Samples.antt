-- ===== src/Tests/Samples.antt =====
-- The inputs of the tests: an operator source, its packages, and a small world.
use operator_marketplace.Common.{
  ◌+◌, String, Bool, true, false, Option, none, some, List, [], ◌∷◌, if◌then◌else◌,
}
use operator_marketplace.Common.Errors.{Error, Reason, Result, ok, err, new_error}
use operator_marketplace.Api.Meta.{Time, empty_object_meta, empty_type_meta}
use operator_marketplace.Api.OperatorSource.{OperatorSource, OperatorSourceSpec, empty_status}
use operator_marketplace.Api.CatalogSourceConfig.{CatalogSourceConfig}
use operator_marketplace.Datastore.{Datastore, write, new_datastore}
use operator_marketplace.Datastore.Metadata.{RegistryMetadata}
use operator_marketplace.AppRegistry.Decoder.{entry, end}
use operator_marketplace.Cluster.{Client, Environment}
use operator_marketplace.Sources.World.{World}

abbrev pub spec : OperatorSourceSpec
spec = record {
  type = "appregistry";
  endpoint = "https://quay.io/cnr";
  registry_namespace = "community";
  secret_name = "";
  display_name = "Community";
  publisher = "Red Hat";
}

abbrev pub in_phase : String → Option Time → OperatorSource
in_phase phase deleted = record {
  type_meta = empty_type_meta;
  meta = record empty_object_meta {
    name = "community";
    namespace = "marketplace";
    uid = "u1";
    deletion_timestamp = deleted;
  };
  spec = spec;
  status = record empty_status {
    current_phase = record (empty_status.current_phase) {
      phase = record { name = phase; message = "" };
    };
  };
}

abbrev pub metadata : String → String → RegistryMetadata
metadata repository release = record {
  namespace = "community";
  repository = repository;
  release = release;
  digest = "";
}

abbrev pub manifests : List RegistryMetadata
manifests = metadata "etcd" "0.9.2" ∷ metadata "prometheus" "1.0.0" ∷ []

-- A cluster with one operator source and one catalog source config at most.
pub record Small : Type 0 where
  pub clock : Time
  pub source : Option OperatorSource
  pub config : Option CatalogSourceConfig
  -- whether updates fail
  pub read_only : Bool

abbrev pub not_found : Error
not_found = record { reason = Reason.not_found; message = "not found" }

abbrev pub found {ℓ} : {A : Type ℓ} → Option A → Result A
found none = err not_found
found (some a) = ok a

abbrev conflict : Bool → Option Error
conflict false = none
conflict true = some (new_error "the object has been modified")

abbrev pub no_client : {S : Type 0} (A : Type 0) → Client S A
no_client A = record {
  get = λ name s. (err not_found, s);
  create = λ a s. (none, s);
  update = λ a s. (none, s);
  delete = λ a s. (some not_found, s);
}

abbrev pub small : Environment
small = record {
  State = Small;
  now = λ s. s.clock;
  fold = λ c. c;
  lower = λ c. c;
  registry_server_image = "quay.io/registry";
  parse_request_uri = λ url. none;
  parse_url = λ url. none;
  get_secret = λ name s. (err not_found, s);
  sources = record {
    get = λ name s. (found s.source, s);
    create = λ o s. (none, record s { source = some o });
    update = λ o s. (
      conflict s.read_only,
      if s.read_only then s else record s { source = some o; clock = s.clock + 1 },
    );
    delete = λ o s. (none, record s { source = none });
  };
  configs = record {
    get = λ name s. (found s.config, s);
    create = λ c s. (none, record s { config = some c });
    update = λ c s. (conflict s.read_only, if s.read_only then s else record s { config = some c });
    delete = λ c s. (none, record s { config = none });
  };
  list_configs = λ label s. (ok [], s);
  catalog_sources = no_client _;
  deployments = no_client _;
  roles = no_client _;
  role_bindings = no_client _;
  services = no_client _;
  create_service = λ service s. ((record service { cluster_ip = "10.0.0.1" }, none), s);
  service_accounts = no_client _;
  list_packages =
      λ options namespace s. (ok (record { name = "community/etcd"; default = "0.9.2" } ∷ []), s);
  show_package = λ options namespace repository release media_type s. (ok "digest", s);
  pull_blob = λ options namespace repository digest s. (ok "blob", s);
  open_blob = λ blob. ok (entry "0" blob end);
  show_errors = λ es. "errors";
}

abbrev pub stored : Datastore
stored = (write (some (in_phase "" none)) (some manifests) new_datastore).1

-- The source is stored, and updates fail or not.
abbrev pub world : Bool → World small
world read_only = record {
  store = stored;
  cluster = record { clock = 7; source = none; config = none; read_only = read_only };
}
