-- ===== src/Configs/Builders.antt =====
-- The builders of pkg/catalogsourceconfig: catalogsourcebuilder.go, deploymentbuilder.go,
-- rolebuilder.go, rolebindingbuilder.go, servicebuilder.go and serviceaccountbuilder.go, and the two
-- that no code calls, configmapbuilder.go and podtemplatebuilder.go. A chain
-- `new(Builder).WithMeta(...).WithOwner(...)...` is one function of the arguments of its methods.
use operator_marketplace.Common.{ℕ, String, true, some, List, [], ◌∷◌}
use operator_marketplace.Common.Maps.{Map, insert}
use operator_marketplace.Api.Meta.{OwnerReference, ObjectMeta, empty_object_meta}
use operator_marketplace.Api.CatalogSourceConfig.{CatalogSourceConfig}
use operator_marketplace.Cluster.Objects.{
  CatalogSource, PolicyRule, Role, Subject, RoleRef, RoleBinding, ServiceAccount, ServicePort,
  Service, PodTemplateSpec, Deployment, PodSpec, PodTemplate, ConfigMap,
}

-- metav1.NewControllerRef(owner, owner.GroupVersionKind())
unfoldable pub controller_ref : CatalogSourceConfig → OwnerReference
controller_ref owner = record {
  api_version = owner.type_meta.api_version;
  kind = owner.type_meta.kind;
  name = owner.meta.name;
  uid = owner.meta.uid;
  controller = true;
}

-- WithMeta and WithOwner on a new object.
unfoldable pub owned_meta : String → String → CatalogSourceConfig → ObjectMeta
unfolding controller_ref
owned_meta name namespace owner = record empty_object_meta {
  name = name;
  namespace = namespace;
  owner_references = controller_ref owner ∷ [];
}

-- The loop of WithOLMLabels: each label of the config is set.
unfoldable pub add_config_labels : Map String → Map String → Map String
add_config_labels [] labels = labels
add_config_labels ((key, value) ∷ rest) labels = add_config_labels rest (insert key value labels)

unfoldable pub with_olm_labels : Map String → CatalogSource → CatalogSource
unfolding add_config_labels
with_olm_labels csc_labels source = record source {
  meta = record (source.meta) {
    labels =
        add_config_labels csc_labels
          (("olm-visibility", "hidden") ∷ ("openshift-marketplace", "true") ∷ []);
  };
}

unfoldable pub build_catalog_source :
    String → String → CatalogSourceConfig → String → String → String → String → CatalogSource
unfolding owned_meta
build_catalog_source name namespace owner source_type address display_name publisher = record {
  type_meta = record { kind = "CatalogSource"; api_version = "operators.coreos.com/v1alpha1" };
  meta = owned_meta name namespace owner;
  source_type = source_type;
  address = address;
  display_name = display_name;
  publisher = publisher;
}

unfoldable pub build_deployment :
    String → String → CatalogSourceConfig → ℕ → Map String → PodTemplateSpec → Deployment
unfolding owned_meta
build_deployment name namespace owner replicas labels template = record {
  type_meta = record { kind = "Deployment"; api_version = "apps/v1" };
  meta = owned_meta name namespace owner;
  replicas = some replicas;
  match_labels = labels;
  template = template;
}

unfoldable pub new_rule : List String → List String → List String → List String → PolicyRule
new_rule verbs api_groups resources resource_names = record {
  verbs = verbs;
  api_groups = api_groups;
  resources = resources;
  resource_names = resource_names;
}

unfoldable pub build_role : String → String → CatalogSourceConfig → List PolicyRule → Role
unfolding owned_meta
build_role name namespace owner rules = record {
  type_meta = record { kind = "Role"; api_version = "v1" };
  meta = owned_meta name namespace owner;
  rules = rules;
}

unfoldable pub new_role_ref : String → RoleRef
new_role_ref role_name = record {
  api_group = "rbac.authorization.k8s.io";
  kind = "Role";
  name = role_name;
}

unfoldable pub build_role_binding :
    String → String → CatalogSourceConfig → List Subject → String → RoleBinding
unfolding owned_meta new_role_ref
build_role_binding name namespace owner subjects role_name = record {
  type_meta = record { kind = "RoleBinding"; api_version = "v1" };
  meta = owned_meta name namespace owner;
  subjects = subjects;
  role_ref = new_role_ref role_name;
}

unfoldable pub build_service :
    String → String → CatalogSourceConfig → List ServicePort → Map String → Service
unfolding owned_meta
build_service name namespace owner ports selector = record {
  type_meta = record { kind = "Service"; api_version = "v1" };
  meta = owned_meta name namespace owner;
  ports = ports;
  selector = selector;
  cluster_ip = "";
}

unfoldable pub build_service_account : String → String → CatalogSourceConfig → ServiceAccount
unfolding owned_meta
build_service_account name namespace owner = record {
  type_meta = record { kind = "ServiceAccount"; api_version = "v1" };
  meta = owned_meta name namespace owner;
}

unfoldable pub build_config_map : String → String → CatalogSourceConfig → Map String → ConfigMap
unfolding owned_meta
build_config_map name namespace owner contents = record {
  type_meta = record { kind = "ConfigMap"; api_version = "v1" };
  meta = owned_meta name namespace owner;
  data_ = contents;
}

unfoldable pub build_pod_template : String → String → CatalogSourceConfig → PodSpec → PodTemplate
unfolding owned_meta
build_pod_template name namespace owner spec = record {
  meta = owned_meta name namespace owner;
  spec = spec;
}
