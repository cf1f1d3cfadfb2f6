-- ===== src/Configs/Registry/Ensured.antt =====
-- What the `ensure` methods of pkg/catalogsourceconfig/registry.go leave in the cluster when they
-- end without an error.
use mathlib.Core.Path.{subst}
use operator_marketplace.Common.{
  String, ◌≡◌, refl, sym, ap, ◌∙◌, false, Option, none, some, List, Option-cases, Bool-cases, inl,
  inr, ◌⊎◌, true, [], ◌∷◌,
}
use operator_marketplace.Common.Errors.{Error, Result, ok, err, is_already_exists}
use operator_marketplace.Api.Meta.{NamespacedName, ObjectMeta}
use operator_marketplace.Api.CatalogSourceConfig.{CatalogSourceConfig}
use operator_marketplace.Cluster.{Client, Environment}
use operator_marketplace.Cluster.Objects.{PodTemplateSpec, Probe}
use operator_marketplace.Configs.Builders.{build_role, build_deployment, owned_meta}
use operator_marketplace.Configs.Registry.{
  get_label, config_key, get_rules, get_command, new_role, new_deployment, new_pod_template_spec,
  tolerated, create_new, created_or_updated, ensure_role, ensure_deployment,
}

-- A client of an API server that holds at most one object of each name. Get changes nothing, and what
-- it answers is there, but it may fail for an object that is there; a Create or Update without an
-- error puts the object there; and Create says "already exists" only of a name that is there, and
-- then leaves the object of a name as it is.
pub record IsStore {State Object : Type 0} (client : Client State Object)
    (name_of : Object → NamespacedName) : Type 0 where
  pub present : NamespacedName → State → Option Object
  pub get_same : (k : NamespacedName) (s : State) → (client.get k s).1 ≡ s
  pub get_ok :
      (k : NamespacedName) (s : State) (o : Object)
      → (client.get k s).0 ≡ ok o
      → present k s ≡ some o
  pub named : (k : NamespacedName) (s : State) (o : Object) → present k s ≡ some o → name_of o ≡ k
  pub create_done :
      (o : Object) (s : State)
      → (client.create o s).0 ≡ none
      → present (name_of o) (client.create o s).1 ≡ some o
  pub create_absent :
      (o : Object) (s : State) (e : Error)
      → present (name_of o) s ≡ none
      → (client.create o s).0 ≡ some e
      → is_already_exists e ≡ false
  pub create_refused :
      (o : Object) (s : State) (e : Error)
      → (client.create o s).0 ≡ some e
      → is_already_exists e ≡ true
      → present (name_of o) (client.create o s).1 ≡ present (name_of o) s
  pub update_done :
      (o : Object) (s : State)
      → (client.update o s).0 ≡ none
      → present (name_of o) (client.update o s).1 ≡ some o

-- The object of the name is there and Get fails all the same: it stays as it was.
pub record IsOverlooked {State Object : Type 0} {client : Client State Object}
    {name_of : Object → NamespacedName} (S : IsStore client name_of) (k : NamespacedName)
    (before after : State) : Type 0 where
  pub object : Object
  pub there : S.present k before ≡ some object
  pub get_error : Error
  pub get_failed : (client.get k before).0 ≡ err get_error
  pub stays : S.present k after ≡ some object

abbrev pub meta_name : ObjectMeta → NamespacedName
meta_name m = record { namespace = m.namespace; name = m.name }

module _ (E : Environment) (c : CatalogSourceConfig) where
  module _ {Object : Type 0} {client : Client E.State Object} {name_of : Object → NamespacedName}
      (S : IsStore client name_of) (P : Object → Type 0) (k : NamespacedName) where
    -- An object of the name, with the property, is there.
    abbrev pub Holds : E.State → Type 0
    Holds s = (o : Object) × (S.present k s ≡ some o) × P o

    abbrev pub IsEnsured : E.State → E.State → Type 0
    IsEnsured s s' = Holds s' ⊎ IsOverlooked S k s s'

    tolerated-already_exists : (x : Error) → tolerated (some x) ≡ none → is_already_exists x ≡ true
    tolerated-already_exists x h = elim (Bool-cases (is_already_exists x)) [
      | inl e ↦ e
      | inr e ↦ cc (rw e at h)
    ]

    refused :
        (fresh : Object) (s : E.State) (x e : Error)
        → name_of fresh ≡ k
        → (client.get k s).0 ≡ err e
        → (client.create fresh s).0 ≡ some x
        → is_already_exists x ≡ true
        → IsOverlooked S k s (client.create fresh s).1
    refused fresh s x e n failing clash a = elim (Option-cases (S.present (name_of fresh) s)) [
      | inl absent ↦ absurd (not_both (S.create_absent fresh s x absent clash))
      | inr (o, there) ↦ record {
        object = o;
        there = subst (λ j. S.present j s ≡ some o) n there;
        get_error = e;
        get_failed = failing;
        stays =
            subst (λ j. S.present j (client.create fresh s).1 ≡ some o) n
              (S.create_refused fresh s x clash a ∙ there);
      }
    ]
      where
        not_both : is_already_exists x ≡ false → ⊥
        not_both b = cc (a, b)

    created-IsEnsured :
        (fresh : Object) (s : E.State) (e : Error)
        → name_of fresh ≡ k
        → P fresh
        → (client.get k s).0 ≡ err e
        → (create_new E c client fresh s).0 ≡ none
        → IsEnsured s (create_new E c client fresh s).1
    created-IsEnsured fresh s e n p failing done = elim (Option-cases (client.create fresh s).0) [
      | inl q ↦ inl (
        fresh,
        subst (λ j. S.present j (client.create fresh s).1 ≡ some fresh) n (S.create_done fresh s q),
        p,
      )
      | inr (x, q) ↦ inr (
          refused fresh s x e n failing q
            (tolerated-already_exists x (sym (ap tolerated q) ∙ done)))
    ]

    pub ensured :
        (fresh : Object) (change : Object → Object) (s : E.State)
        → name_of fresh ≡ k
        → P fresh
        → ((o : Object) → (name_of (change o) ≡ name_of o) × P (change o))
        → (created_or_updated E c client fresh change (client.get k s).0 (client.get k s).1).0
          ≡ none
        → IsEnsured s
            (created_or_updated E c client fresh change (client.get k s).0 (client.get k s).1).1
    ensured fresh change s n p changed =
        subst
          (λ t.
            (created_or_updated E c client fresh change (client.get k s).0 t).0 ≡ none
            → IsEnsured s (created_or_updated E c client fresh change (client.get k s).0 t).1)
          (sym (S.get_same k s)) (go (client.get k s).0 refl)
      where
        go :
            (r : Result Object)
            → (client.get k s).0 ≡ r
            → (created_or_updated E c client fresh change r s).0 ≡ none
            → IsEnsured s (created_or_updated E c client fresh change r s).1
        go (err e) q done = created-IsEnsured fresh s e n p q done
        go (ok o) q done = inl (
          change o,
          subst (λ j. S.present j (client.update (change o) s).1 ≡ some (change o))
              ((changed o).0 ∙ S.named k s o (S.get_ok k s o q)) (S.update_done (change o) s done),
          (changed o).1,
        )

  -- If ensureRole ends without an error, the config's role is there with the rules of the given
  -- operator sources, or Get has failed for a role that is there, and it is as before.
  pub ensure_role_lem :
      (S : IsStore E.roles (λ r. meta_name r.meta)) (sources : List String) (s : E.State)
      → (ensure_role E c sources s).0 ≡ none
      → IsEnsured S
          (λ r. r.rules ≡ get_rules sources)
          (config_key c)
          s
          (ensure_role E c sources s).1
  unfolding ensure_role new_role build_role owned_meta
  ensure_role_lem S sources s =
      ensured S (λ r. r.rules ≡ get_rules sources) (config_key c) (new_role c sources)
        (λ r. record r { rules = get_rules sources }) s refl refl (λ o. (refl, refl))

  -- The pods of a registry server for the packages and the operator sources.
  abbrev pub serving_pods : String → String → PodTemplateSpec
  serving_pods packages sources =
      let probe : Probe = record {
        command = "grpc_health_probe" ∷ "-addr=localhost:50051" ∷ [];
        initial_delay_seconds = 5;
        failure_threshold = 30;
      } in
      record {
        name = c.meta.name;
        namespace = c.meta.namespace;
        labels = ("marketplace.catalogSourceConfig", c.meta.name) ∷ [];
        containers =
            record {
              name = c.meta.name;
              image = E.registry_server_image;
              command = "appregistry-server" ∷ "-s" ∷ sources ∷ "-o" ∷ packages ∷ [];
              port_name = "grpc";
              container_port = 50051;
              readiness_probe = probe;
              liveness_probe = probe;
            }
            ∷ [];
        service_account_name = c.meta.name;
      }

  -- On an API server that holds at most one deployment of each name, whose Get answers what is there
  -- or fails, also for a deployment that is there: if ensureDeployment ends without an error, then either the config's
  -- deployment is there, and its pods run the registry server with the given operator sources and the
  -- config's packages; or Get has failed although the deployment is there, and the deployment is as
  -- it was before.
  pub ensure_deployment_lem :
      (S : IsStore E.deployments (λ d. meta_name d.meta)) (sources : String) (s : E.State)
      → (ensure_deployment E c sources s).0 ≡ none
      → IsEnsured S
          (λ d. d.template ≡ serving_pods c.spec.packages sources)
          (config_key c)
          s
          (ensure_deployment E c sources s).1
  unfolding ensure_deployment new_deployment build_deployment owned_meta new_pod_template_spec
      get_command get_label
  ensure_deployment_lem S sources s =
      let template = serving_pods c.spec.packages sources in
      ensured S (λ d. d.template ≡ template) (config_key c)
        (new_deployment E c (get_command c.spec.packages sources))
        (λ d. record d { template = template }) s refl refl (λ o. (refl, refl))
