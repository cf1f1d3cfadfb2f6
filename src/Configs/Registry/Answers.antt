-- ===== src/Configs/Registry/Answers.antt =====
-- That Ensure (pkg/catalogsourceconfig/registry.go) ends with an address in a cluster whose
-- creations and updates succeed.
use operator_marketplace.Common.{String, ◌≡◌, refl, ap, Option, none, some, List}
use operator_marketplace.Common.Errors.{Error, Result, ok, err}
use operator_marketplace.Common.Effects.{Eff, ◌>>=◌}
use operator_marketplace.Api.CatalogSourceConfig.{CatalogSourceConfig}
use operator_marketplace.Datastore.{Datastore}
use operator_marketplace.Cluster.{Client, Environment}
use operator_marketplace.Cluster.Objects.{Service, ServiceAccount}
use operator_marketplace.Configs.Registry.{
  config_key, delete_old, new_service, create_new, created_or_updated, tolerated, if_missing,
  service_address, unless_error, ensure_service_account, ensure_role, ensure_role_binding,
  ensure_deployment, ensure_service, ensure,
}

-- Creations and updates of a kind of object never fail.
pub record IsWritable {State Object : Type 0} (client : Client State Object) : Type 0 where
  pub create_ok : (o : Object) (s : State) → (client.create o s).0 ≡ none
  pub update_ok : (o : Object) (s : State) → (client.update o s).0 ≡ none

-- The objects of a registry server can be written.
pub record IsReady (E : Environment) : Type 0 where
  pub accounts : IsWritable E.service_accounts
  pub roles : IsWritable E.roles
  pub bindings : IsWritable E.role_bindings
  pub deployments : IsWritable E.deployments
  pub service_ok : (service : Service) (s : E.State) → (E.create_service service s).0.1 ≡ none

module _ (E : Environment) (c : CatalogSourceConfig) where
  -- An action that always ends without an error, and one that always gives a value.
  abbrev Passes : Eff E.State (Option Error) → Type 0
  Passes m = (s : E.State) → (m s).0 ≡ none

  abbrev Answers : Eff E.State (Result String) → Type 0
  Answers m = (s : E.State) → (a : String) × ((m s).0 ≡ ok a)

  module _ {Object : Type 0} (client : Client E.State Object) (W : IsWritable client) where
    create_new-Passes : (o : Object) → Passes (create_new E c client o)
    create_new-Passes o s = ap tolerated (W.create_ok o s)

    pub created_or_updated-Passes :
        (fresh : Object) (change : Object → Object) (r : Result Object)
        → Passes (created_or_updated E c client fresh change r)
    created_or_updated-Passes fresh change (err e) s = create_new-Passes fresh s
    created_or_updated-Passes fresh change (ok o) s = W.update_ok (change o) s

  then-Answers :
      (m : Eff E.State (Option Error)) (next : Eff E.State (Result String))
      → Passes m
      → Answers next
      → Answers (m >>= (λ e. unless_error E c e next))
  then-Answers m next p q s = go (m s).0 (p s)
    where
      go :
          (e : Option Error)
          → e ≡ none
          → (a : String) × ((unless_error E c e next (m s).1).0 ≡ ok a)
      go none h = q (m s).1
      go (some e) h = cc

  module _ (H : IsReady E) where
    if_missing-Passes : (r : Result ServiceAccount) → Passes (if_missing E c r)
    unfolding if_missing
    if_missing-Passes (err e) s = create_new-Passes E.service_accounts H.accounts _ s
    if_missing-Passes (ok existing) s = refl

    account-Passes : Passes (ensure_service_account E c)
    unfolding ensure_service_account
    account-Passes s =
        let (found, s₁) = E.service_accounts.get (config_key c) s in if_missing-Passes found s₁

    role-Passes : (names : List String) → Passes (ensure_role E c names)
    unfolding ensure_role
    role-Passes names s = created_or_updated-Passes E.roles H.roles _ _ _ _

    binding-Passes : Passes (ensure_role_binding E c)
    unfolding ensure_role_binding
    binding-Passes s = created_or_updated-Passes E.role_bindings H.bindings _ _ _ _

    deployment-Passes : (text : String) → Passes (ensure_deployment E c text)
    unfolding ensure_deployment
    deployment-Passes text s = created_or_updated-Passes E.deployments H.deployments _ _ _ _

    address_given :
        (r : Service × Option Error) → r.1 ≡ none → (a : String) × (service_address E c r ≡ ok a)
    address_given (service, none) h = (_, refl)
    address_given (service, some e) h = cc

    service-Answers : Answers (ensure_service E c)
    unfolding ensure_service
    service-Answers s =
        let (found, s₁) = E.services.get (config_key c) s in
        let (deleted, s₂) = delete_old E c found s₁ in
        address_given (E.create_service (new_service c) s₂).0 (H.service_ok (new_service c) s₂)

    -- Ensure gives an address, whatever is in the cluster before.
    pub ensure-Answers : (ds : Datastore) → Answers (ensure E c ds)
    unfolding ensure
    ensure-Answers ds = then-Answers _ _ account-Passes (
        then-Answers _ _ (role-Passes _) (
          then-Answers _ _ binding-Passes (then-Answers _ _ (deployment-Passes _) service-Answers)))
