-- ===== src/Sources/Reconcilers/Stored.antt =====
-- Every phase reconciler of pkg/operatorsource keeps the datastore well-formed.
use operator_marketplace.Common.{
  ℕ, String, Bool, true, false, Option, none, some, List, [], ◌∷◌, ◌==◌, if◌then◌else◌, Bool-cases,
  inl, inr,
}
use operator_marketplace.Common.Errors.{Error, Result, ok, err, is_already_exists}
use operator_marketplace.Api.OperatorSource.{OperatorSource, current_phase_name}
use operator_marketplace.Api.CatalogSourceConfig.{CatalogSourceConfig}
use operator_marketplace.Phase.{configuring, downloading}
use operator_marketplace.Datastore.{write}
use operator_marketplace.Datastore.Metadata.{RegistryMetadata}
use operator_marketplace.Datastore.Invariant.{
  IsValid, write-IsValid, add_operator_source-IsValid, remove_operator_source-IsValid,
}
use operator_marketplace.Cluster.{Environment, Options}
use operator_marketplace.Sources.World.{World, Action}
use operator_marketplace.Sources.Reconcilers.{
  initial_reconcile, validating_reconcile, downloading_reconcile, configuring_reconcile,
  succeeded_reconcile, failed_reconcile, purging_reconcile, deleted_reconcile,
  out_of_sync_reconcile, finish_download, after_write, store_manifests, list_with, connect,
  update_existing, after_create,
}

module _ (E : Environment) where
  -- An action that leaves a well-formed datastore well-formed.
  abbrev pub Keeps : {A : Type 0} → Action E A → Type 0
  Keeps m = (w : World E) → IsValid w.store → IsValid (m w).1.store

  -- A guard that returns at once, or goes on with an action that keeps.
  guarded-Keeps :
      {A : Type 0} (b : Bool) (m n : Action E A) → Keeps m → Keeps n → Keeps (if b then m else n)
  guarded-Keeps true m n hm hn = hm
  guarded-Keeps false m n hm hn = hn

  module _ (o : OperatorSource) where
    pub initial-Keeps : Keeps (initial_reconcile E o)
    unfolding initial_reconcile
    initial-Keeps = guarded-Keeps _ _ _ (λ w v. v) (λ w v. add_operator_source-IsValid o w.store v)

    pub validating-Keeps : Keeps (validating_reconcile E o)
    unfolding validating_reconcile
    validating-Keeps = guarded-Keeps _ _ _ (λ w v. v) (λ w v. v)

    after_write-Keeps : (r : ℕ × Option Error) → Keeps (after_write E o r)
    unfolding after_write finish_download
    after_write-Keeps (n, none) w v = v
    after_write-Keeps (ℕ.zero, some e) w v = v
    after_write-Keeps (ℕ.suc n, some e) w v = v

    store_manifests-Keeps : (r : Result (List RegistryMetadata)) → Keeps (store_manifests E o r)
    unfolding store_manifests
    store_manifests-Keeps (err e) w v = v
    store_manifests-Keeps (ok []) w v = v
    store_manifests-Keeps (ok (m ∷ ms)) w v =
        after_write-Keeps (write (some o) (some (m ∷ ms)) w.store).0
          (record w { store = (write (some o) (some (m ∷ ms)) w.store).1 })
          (write-IsValid (some o) (some (m ∷ ms)) w.store v)

    list_with-Keeps : (r : Result Options) → Keeps (list_with E o r)
    unfolding list_with
    list_with-Keeps (err e) w v = v
    list_with-Keeps (ok registry) w v = store_manifests-Keeps _ _ v

    connect-Keeps : (r : Result Options) → Keeps (connect E o r)
    unfolding connect
    connect-Keeps (err e) w v = v
    connect-Keeps (ok options) w v = list_with-Keeps _ w v

    pub downloading-Keeps : Keeps (downloading_reconcile E o)
    unfolding downloading_reconcile
    downloading-Keeps w v = elim (Bool-cases (current_phase_name o == downloading)) [
      | inl e ↦ rw e (connect-Keeps _ _ v)
      | inr e ↦ rw e v
    ]

    update_existing-Keeps :
        (manifests : String) (r : Result CatalogSourceConfig)
        → Keeps (update_existing E o manifests r)
    unfolding update_existing
    update_existing-Keeps manifests (err e) w v = v
    update_existing-Keeps manifests (ok existing) w v = v

    after_create-Keeps :
        (manifests : String) (r : Option Error) → Keeps (after_create E o manifests r)
    unfolding after_create
    after_create-Keeps manifests none w v = v
    after_create-Keeps manifests (some e) w v = elim (Bool-cases (is_already_exists e)) [
      | inl p ↦ rw p (update_existing-Keeps manifests _ _ v)
      | inr p ↦ rw p v
    ]

    pub configuring-Keeps : Keeps (configuring_reconcile E o)
    unfolding configuring_reconcile
    configuring-Keeps w v = elim (Bool-cases (current_phase_name o == configuring)) [
      | inl e ↦ rw e (after_create-Keeps _ _ _ v)
      | inr e ↦ rw e v
    ]

    pub succeeded-Keeps : Keeps (succeeded_reconcile E o)
    unfolding succeeded_reconcile
    succeeded-Keeps = guarded-Keeps _ _ _ (λ w v. v) (λ w v. v)

    pub failed-Keeps : Keeps (failed_reconcile E o)
    unfolding failed_reconcile
    failed-Keeps = guarded-Keeps _ _ _ (λ w v. v) (λ w v. v)

    pub purging-Keeps : Keeps (purging_reconcile E o)
    unfolding purging_reconcile
    purging-Keeps =
        guarded-Keeps _ _ _ (λ w v. v) (λ w v. remove_operator_source-IsValid o.meta.uid w.store v)

    pub deleted-Keeps : Keeps (deleted_reconcile E o)
    unfolding deleted_reconcile
    deleted-Keeps w v = remove_operator_source-IsValid o.meta.uid w.store v

    pub out_of_sync-Keeps : Keeps (out_of_sync_reconcile E o)
    unfolding out_of_sync_reconcile
    out_of_sync-Keeps = guarded-Keeps _ _ _ (λ w v. v) (λ w v. v)
