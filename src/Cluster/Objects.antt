-- ===== src/Cluster/Objects.antt =====
-- The Kubernetes and OLM objects that pkg/catalogsourceconfig builds, with the fields it sets.
use operator_marketplace.Common.{ℕ, String, Option, List}
use operator_marketplace.Common.Maps.{Map}
use operator_marketplace.Api.Meta.{TypeMeta, ObjectMeta}

pub record CatalogSource : Type 0 where
  pub type_meta : TypeMeta
  pub meta : ObjectMeta
  pub source_type : String
  pub address : String
  pub display_name : String
  pub publisher : String

pub record PolicyRule : Type 0 where
  pub verbs : List String
  pub api_groups : List String
  pub resources : List String
  pub resource_names : List String

pub record Role : Type 0 where
  pub type_meta : TypeMeta
  pub meta : ObjectMeta
  pub rules : List PolicyRule

pub record Subject : Type 0 where
  pub kind : String
  pub name : String
  pub namespace : String

pub record RoleRef : Type 0 where
  pub api_group : String
  pub kind : String
  pub name : String

pub record RoleBinding : Type 0 where
  pub type_meta : TypeMeta
  pub meta : ObjectMeta
  pub subjects : List Subject
  pub role_ref : RoleRef

pub record ServiceAccount : Type 0 where
  pub type_meta : TypeMeta
  pub meta : ObjectMeta

pub record ServicePort : Type 0 where
  pub name : String
  pub port : ℕ
  pub target_port : ℕ

pub record Service : Type 0 where
  pub type_meta : TypeMeta
  pub meta : ObjectMeta
  pub ports : List ServicePort
  pub selector : Map String
  -- set by the API server
  pub cluster_ip : String

-- An exec probe.
pub record Probe : Type 0 where
  pub command : List String
  pub initial_delay_seconds : ℕ
  pub failure_threshold : ℕ

pub record Container : Type 0 where
  pub name : String
  pub image : String
  pub command : List String
  pub port_name : String
  pub container_port : ℕ
  pub readiness_probe : Probe
  pub liveness_probe : Probe

pub record PodSpec : Type 0 where
  pub containers : List Container
  pub service_account_name : String

-- core.PodTemplateSpec as podtemplatebuilder.go builds it.
pub record PodTemplate : Type 0 where
  pub meta : ObjectMeta
  pub spec : PodSpec

pub record ConfigMap : Type 0 where
  pub type_meta : TypeMeta
  pub meta : ObjectMeta
  pub data_ : Map String

pub record PodTemplateSpec : Type 0 where
  pub name : String
  pub namespace : String
  pub labels : Map String
  pub containers : List Container
  pub service_account_name : String

pub record Deployment : Type 0 where
  pub type_meta : TypeMeta
  pub meta : ObjectMeta
  pub replicas : Option ℕ
  pub match_labels : Map String
  pub template : PodTemplateSpec
