-- ===== src/Configs/Registry.antt =====
-- registry.go of pkg/catalogsourceconfig: the deployment of a registry server for a config, with
-- its service account, role, role binding and service.
pub mod Listing
pub mod Ensured
pub mod Hidden
pub mod Answers
use operator_marketplace.Common.{
  ℕ, String, ◌<>◌, Bool, true, false, not, Option, none, some, List, [], ◌∷◌, ◌++◌, if◌then◌else◌,
}
use operator_marketplace.Common.Text.{contains_text, trim_suffix}
use operator_marketplace.Common.Decimal.{itoa}
use operator_marketplace.Common.Maps.{Map}
use operator_marketplace.Common.Errors.{Error, Result, ok, err, is_already_exists}
use operator_marketplace.Common.Effects.{Eff, ◌>>=◌, pure}
use operator_marketplace.Api.Meta.{NamespacedName}
use operator_marketplace.Api.CatalogSourceConfig.{CatalogSourceConfig}
use operator_marketplace.Datastore.{Datastore, read}
use operator_marketplace.Datastore.Metadata.{OpsrcRef}
use operator_marketplace.Cluster.{Client, Environment}
use operator_marketplace.Cluster.Objects.{
  PolicyRule, Role, Subject, RoleBinding, ServiceAccount, ServicePort, Service, Probe, Container,
  PodTemplateSpec, Deployment,
}
use operator_marketplace.Configs.Cache.{get_package_ids}
use operator_marketplace.Configs.Builders.{
  build_deployment, new_rule, build_role, build_role_binding, new_role_ref, build_service,
  build_service_account,
}

abbrev pub config_key : CatalogSourceConfig → NamespacedName
config_key c = record { namespace = c.meta.namespace; name = c.meta.name }

unfoldable pub get_label : CatalogSourceConfig → Map String
get_label c = ("marketplace.catalogSourceConfig", c.meta.name) ∷ []

abbrev pub namespaced : OpsrcRef → String
namespaced opsrc = opsrc.namespace <> "/" <> opsrc.name

-- The body of the loop for a package that is in the datastore: its source is added to the text and
-- to the list, unless the text contains it.
unfoldable pub note_source : OpsrcRef → String × List String → String × List String
unfolding contains_text
note_source opsrc (text, names) =
    if not (contains_text text (namespaced opsrc))
    then (text <> (namespaced opsrc <> ","), names ++ (opsrc.name ∷ []))
    else (text, names)

abbrev pub note_read : Result OpsrcRef → String × List String → String × List String
note_read (err e) sources = sources
note_read (ok opsrc) sources = note_source opsrc sources

unfoldable pub collect_sources :
    Datastore → List String → String × List String → String × List String
unfolding note_source
collect_sources ds [] sources = sources
collect_sources ds (package_id ∷ rest) sources =
    collect_sources ds rest (note_read (read package_id ds) sources)

unfoldable pub get_operator_sources : Datastore → CatalogSourceConfig → String × List String
unfolding collect_sources
get_operator_sources ds c =
    let (text, names) = collect_sources ds (get_package_ids c.spec.packages) ("", []) in
    (trim_suffix "," text, names)

unfoldable pub get_subjects : CatalogSourceConfig → List Subject
get_subjects c =
    record { kind = "ServiceAccount"; name = c.meta.name; namespace = c.meta.namespace } ∷ []

unfoldable pub get_command : String → String → List String
get_command packages sources = "appregistry-server" ∷ "-s" ∷ sources ∷ "-o" ∷ packages ∷ []

unfoldable pub get_rules : List String → List PolicyRule
unfolding new_rule
get_rules operator_sources =
    new_rule ("get" ∷ []) ("marketplace.redhat.com" ∷ []) ("operatorsources" ∷ []) operator_sources
    ∷ new_rule ("get" ∷ []) ("" ∷ []) ("secrets" ∷ []) []
    ∷ []

abbrev health_probe : Probe
health_probe = record {
  command = "grpc_health_probe" ∷ "-addr=localhost:50051" ∷ [];
  initial_delay_seconds = 5;
  failure_threshold = 30;
}

unfoldable pub new_role : CatalogSourceConfig → List String → Role
unfolding build_role get_rules
new_role c operator_sources = build_role c.meta.name c.meta.namespace c (get_rules operator_sources)

unfoldable pub new_role_binding : CatalogSourceConfig → String → RoleBinding
unfolding build_role_binding get_subjects
new_role_binding c role_name =
    build_role_binding c.meta.name c.meta.namespace c (get_subjects c) role_name

unfoldable pub new_service : CatalogSourceConfig → Service
unfolding build_service get_label
new_service c =
    build_service c.meta.name c.meta.namespace c
      (record { name = "grpc"; port = 50051; target_port = 50051 } ∷ []) (get_label c)

unfoldable pub new_service_account : CatalogSourceConfig → ServiceAccount
unfolding build_service_account
new_service_account c = build_service_account c.meta.name c.meta.namespace c

-- An object that another process has created meanwhile is no error.
abbrev pub tolerated : Option Error → Option Error
tolerated none = none
tolerated (some e) = if not (is_already_exists e) then some e else none

module _ (E : Environment) (c : CatalogSourceConfig) where
  unfoldable pub new_pod_template_spec : List String → PodTemplateSpec
  unfolding get_label
  new_pod_template_spec registry_command = record {
    name = c.meta.name;
    namespace = c.meta.namespace;
    labels = get_label c;
    containers =
        record {
          name = c.meta.name;
          image = E.registry_server_image;
          command = registry_command;
          port_name = "grpc";
          container_port = 50051;
          readiness_probe = health_probe;
          liveness_probe = health_probe;
        }
        ∷ [];
    service_account_name = c.meta.name;
  }

  unfoldable pub new_deployment : List String → Deployment
  unfolding build_deployment get_label new_pod_template_spec
  new_deployment registry_command =
      build_deployment c.meta.name c.meta.namespace c 1 (get_label c)
        (new_pod_template_spec registry_command)

  abbrev create_new : {A : Type 0} → Client E.State A → A → Eff E.State (Option Error)
  create_new client object = do created ← client.create object; pure (tolerated created)

  -- What the code does for each kind: any error of Get leads to a creation.
  abbrev pub created_or_updated :
      {A : Type 0} → Client E.State A → A → (A → A) → Result A → Eff E.State (Option Error)
  created_or_updated client fresh change (err e) = create_new client fresh
  created_or_updated client fresh change (ok existing) = client.update (change existing)

  unfoldable pub ensure_deployment : String → Eff E.State (Option Error)
  unfolding new_deployment new_pod_template_spec get_command
  ensure_deployment operator_sources =
      let registry_command = get_command c.spec.packages operator_sources in
      do
        found ← E.deployments.get (config_key c)
        created_or_updated E.deployments (new_deployment registry_command)
            (λ d. record d { template = new_pod_template_spec registry_command }) found

  unfoldable pub ensure_role : List String → Eff E.State (Option Error)
  unfolding new_role get_rules
  ensure_role operator_sources = do
    found ← E.roles.get (config_key c)
    created_or_updated E.roles (new_role c operator_sources)
        (λ r. record r { rules = get_rules operator_sources }) found

  unfoldable pub ensure_role_binding : Eff E.State (Option Error)
  unfolding new_role_binding new_role_ref
  ensure_role_binding = do
    found ← E.role_bindings.get (config_key c)
    created_or_updated E.role_bindings (new_role_binding c c.meta.name)
        (λ b. record b { role_ref = new_role_ref c.meta.name }) found

  if_missing : Result ServiceAccount → Eff E.State (Option Error)
  unfolding new_service_account
  if_missing (err e) = create_new E.service_accounts (new_service_account c)
  if_missing (ok existing) = pure none

  unfoldable pub ensure_service_account : Eff E.State (Option Error)
  unfolding if_missing
  ensure_service_account = do found ← E.service_accounts.get (config_key c); if_missing found

  -- An error of the deletion is only logged.
  abbrev delete_old : Result Service → Eff E.State (Option Error)
  delete_old (err e) = pure none
  delete_old (ok existing) = E.services.delete existing

  -- The first port of the service; the API server keeps a service's ports.
  abbrev first_port : List ServicePort → ℕ
  first_port [] = 0
  first_port (p ∷ ps) = p.port

  -- r.address, from the object that Create has filled in.
  address_of : Service → String
  unfolding itoa
  address_of service = service.cluster_ip <> (":" <> itoa (first_port service.ports))

  abbrev service_address : Service × Option Error → Result String
  service_address (service, none) = ok (address_of service)
  service_address (service, some e) =
      if not (is_already_exists e) then err e else ok (address_of service)

  -- The address of the service, which GetAddress returns, or the error.
  unfoldable pub ensure_service : Eff E.State (Result String)
  unfolding new_service address_of
  ensure_service = do
    found ← E.services.get (config_key c)
    deleted ← delete_old found
    created ← E.create_service (new_service c)
    pure (service_address created)

  -- The first error ends Ensure.
  abbrev unless_error : Option Error → Eff E.State (Result String) → Eff E.State (Result String)
  unless_error none next = next
  unless_error (some e) next = pure (err e)

  unfoldable pub ensure : Datastore → Eff E.State (Result String)
  unfolding get_operator_sources ensure_service_account ensure_role ensure_role_binding
      ensure_deployment ensure_service
  ensure ds =
      let (text, names) = get_operator_sources ds c in
      do
        account ← ensure_service_account
        unless_error account (do
          role ← ensure_role names
          unless_error role (do
            binding ← ensure_role_binding
            unless_error binding
                (do deployment ← ensure_deployment text; unless_error deployment ensure_service)))
