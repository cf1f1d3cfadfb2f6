-- ===== src/Tests/Shelves.antt =====
-- The theorems on the registry's objects, at an API server that is a list of objects.
use operator_marketplace.Common.{
  ◌≡◌, refl, sym, ap, ◌∙◌, String, Bool, true, ◌&&◌, Option, none, some, List, [], ◌∷◌, ◌==◌,
  eq_iff, eq_refl, arith, if◌then◌else◌, Bool-cases, inl, inr,
}
use operator_marketplace.Common.Errors.{Error, Reason, Result, ok, err}
use operator_marketplace.Api.Meta.{NamespacedName}
use operator_marketplace.Api.CatalogSourceConfig.{CatalogSourceConfig}
use operator_marketplace.AppRegistry.Decoder.{entry, end}
use operator_marketplace.Cluster.{Client, Environment}
use operator_marketplace.Cluster.Objects.{Role, Deployment, CatalogSource}
use operator_marketplace.Configs.Cache.{get_package_ids}
use operator_marketplace.Common.Text.{split}
use operator_marketplace.Common.Maps.{insert}
use operator_marketplace.Datastore.Rows.{get_all_repositories}
use operator_marketplace.Datastore.{read, write, new_datastore, repositories_of}
use operator_marketplace.Configs.Registry.{
  ensure_service_account, ensure_role_binding, ensure_service, ensure, config_key, new_role,
  new_deployment, ensure_role, ensure_deployment,
}
use operator_marketplace.Configs.Builders.{build_deployment, owned_meta}
use operator_marketplace.Configs.Registry.Ensured.{
  IsStore, IsEnsured, serving_pods, meta_name, ensure_deployment_lem,
}
use operator_marketplace.Configs.Reconcilers.{
  check_packages, read_packages, new_catalog_source, reconcile_catalog_source,
}
use operator_marketplace.Configs.Reconcilers.Served.{IsServed, reconcile_catalog_source-IsServed}
use operator_marketplace.Tests.Samples.{stored, no_client, not_found}
use operator_marketplace.Tests.Catalogs.{config}

module _ {A : Type 0} (name_of : A → NamespacedName) where
  abbrev same_name : NamespacedName → NamespacedName → Bool
  same_name a b = a.namespace == b.namespace && a.name == b.name

  -- The newest object of the name.
  abbrev newest : NamespacedName → List A → Option A
  newest k [] = none
  newest k (o ∷ os) = let older = newest k os in if same_name (name_of o) k then some o else older

  abbrev answer : Option A → Result A
  answer none = err not_found
  answer (some o) = ok o

  abbrev already_exists : Error
  already_exists = record { reason = Reason.already_exists; message = "already exists" }

  abbrev put_new : Option A → A → List A → Option Error × List A
  put_new none o s = (none, o ∷ s)
  put_new (some p) o s = (some already_exists, s)

  abbrev shelf : Client (List A) A
  shelf = record {
    get = λ k s. (answer (newest k s), s);
    create = λ o s. put_new (newest (name_of o) s) o s;
    update = λ o s. (none, o ∷ s);
    delete = λ o s. (none, s);
  }

  same_name-eq : (a b : NamespacedName) → same_name a b ≡ true → a ≡ b
  same_name-eq a b e =
      let (s, n) = both e in
      ap (λ i. record { namespace = i; name = a.name }) s
      ∙ ap (λ j. record { namespace = b.namespace; name = j }) n
    where
      both : same_name a b ≡ true → (a.namespace ≡ b.namespace) × (a.name ≡ b.name)
      both e = ground (arith, eq_iff a.namespace b.namespace, eq_iff a.name b.name)

  newest_self : (o : A) (s : List A) → newest (name_of o) (o ∷ s) ≡ some o
  newest_self o s = rw (eq_refl (name_of o).namespace, eq_refl (name_of o).name) refl

  the_same : (p o : A) → some p ≡ some o → p ≡ o
  the_same p o h = cc

  newest_named : (k : NamespacedName) (s : List A) (o : A) → newest k s ≡ some o → name_of o ≡ k
  newest_named k [] o h = cc
  newest_named k (p ∷ s) o h = elim (Bool-cases (same_name (name_of p) k)) [
    | inl e ↦ ap name_of (sym (the_same p o (rw e at h))) ∙ same_name-eq (name_of p) k e
    | inr e ↦ newest_named k s o (rw e at h)
  ]

  put :
      (o : A) (s : List A) (x : Option A)
      → (put_new x o s).0 ≡ none
      → newest (name_of o) (put_new x o s).1 ≡ some o
  put o s none h = newest_self o s
  put o s (some p) h = cc

  answered : (x : Option A) (o : A) → answer x ≡ ok o → x ≡ some o
  answered none o h = cc
  answered (some p) o h = cc

  -- A creation that is refused leaves the objects as they are.
  kept :
      (o : A) (s : List A) (e : Error) (x : Option A)
      → newest (name_of o) s ≡ x
      → (put_new x o s).0 ≡ some e
      → newest (name_of o) (put_new x o s).1 ≡ newest (name_of o) s
  kept o s e none q h = cc
  kept o s e (some p) q h = refl

  shelf-IsStore : IsStore shelf name_of
  shelf-IsStore = record {
    present = newest;
    get_same = λ k s. refl;
    get_ok = λ k s o h. answered (newest k s) o h;
    named = newest_named;
    create_done = λ o s h. put o s (newest (name_of o) s) h;
    create_absent = λ o s e h q. let clash = sym (ap (λ x. (put_new x o s).0) h) ∙ q in cc;
    create_refused = λ o s e h a. kept o s e (newest (name_of o) s) refl h;
    update_done = λ o s h. newest_self o s;
  }

-- A cluster whose API server knows no object.
abbrev bare : Type 0 → Environment
bare S = record {
  State = S;
  now = λ s. 0;
  fold = λ c. c;
  lower = λ c. c;
  registry_server_image = "quay.io/registry";
  parse_request_uri = λ url. none;
  parse_url = λ url. none;
  get_secret = λ name s. (err not_found, s);
  sources = no_client _;
  configs = no_client _;
  list_configs = λ label s. (ok [], s);
  catalog_sources = no_client _;
  deployments = no_client _;
  roles = no_client _;
  role_bindings = no_client _;
  services = no_client _;
  create_service = λ service s. ((record service { cluster_ip = "10.0.0.1" }, none), s);
  service_accounts = no_client _;
  list_packages = λ options namespace s. (ok [], s);
  show_package = λ options namespace repository release media_type s. (ok "digest", s);
  pull_blob = λ options namespace repository digest s. (ok "blob", s);
  open_blob = λ blob. ok (entry "0" blob end);
  show_errors = λ es. "errors";
}

abbrev role_named : Role → NamespacedName
role_named r = meta_name r.meta

abbrev deployment_named : Deployment → NamespacedName
deployment_named d = meta_name d.meta

-- One whose API server keeps roles.
abbrev with_roles : Environment
with_roles = record (bare (List Role)) { roles = shelf role_named }

-- One whose API server keeps deployments.
abbrev with_deployments : Environment
with_deployments = record (bare (List Deployment)) { deployments = shelf deployment_named }

abbrev mine : CatalogSourceConfig
mine = config "" "etcd" none

abbrev role_before : Role
role_before = new_role mine ("old" ∷ [])

abbrev sources_now : List String
sources_now = "old" ∷ "new" ∷ []

ensure_deployment_lem_example :
    IsEnsured with_deployments mine
      (shelf-IsStore deployment_named)
      (λ d. d.template ≡ serving_pods with_deployments mine "etcd" "marketplace/community")
      (config_key mine)
      []
      (ensure_deployment with_deployments mine "marketplace/community" []).1
unfolding ensure_deployment new_deployment build_deployment owned_meta
ensure_deployment_lem_example =
    ensure_deployment_lem with_deployments mine (shelf-IsStore deployment_named)
      "marketplace/community" [] refl

abbrev catalog_named : CatalogSource → NamespacedName
catalog_named x = meta_name x.meta

-- One whose API server keeps catalog sources.
abbrev with_catalogs : Environment
with_catalogs = record (bare (List CatalogSource)) { catalog_sources = shelf catalog_named }

reconcile_catalog_source-IsServed_example :
    (check_packages with_catalogs.show_errors stored mine ≡ none)
    × ((address : String) × ((ensure with_catalogs mine stored []).0 ≡ ok address)
        × IsServed with_catalogs mine
            (shelf-IsStore catalog_named)
            address
            (ensure with_catalogs mine stored []).1
            (reconcile_catalog_source with_catalogs stored mine []).1)
unfolding reconcile_catalog_source check_packages read_packages get_package_ids split read write
    new_datastore get_all_repositories insert repositories_of ensure ensure_service_account
    ensure_role ensure_role_binding ensure_deployment ensure_service
reconcile_catalog_source-IsServed_example =
    reconcile_catalog_source-IsServed with_catalogs mine (shelf-IsStore catalog_named) stored []
      refl

-- One that fails to get a catalog source.
abbrev flaky : Environment
flaky = record with_catalogs {
  catalog_sources = record (with_catalogs.catalog_sources) {
    get = λ k s. (err (record { reason = Reason.other; message = "timeout" }), s);
  };
}

-- The config's CatalogSource, with the address of a service that is gone.
abbrev old_catalog : CatalogSource
old_catalog = new_catalog_source flaky mine "10.0.0.9:50051"

-- The call ends without an error, and the old address stays.
old_address_stays :
    reconcile_catalog_source flaky stored mine (old_catalog ∷ []) ≡ (none, old_catalog ∷ [])
unfolding reconcile_catalog_source check_packages read_packages get_package_ids split read write
    new_datastore get_all_repositories insert repositories_of ensure ensure_service_account
    ensure_role ensure_role_binding ensure_deployment ensure_service
old_address_stays = refl
