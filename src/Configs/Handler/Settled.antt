-- ===== src/Configs/Handler/Settled.antt =====
-- That Handle (pkg/catalogsourceconfig/handler.go) leaves a config alone once it is configured.
use operator_marketplace.Common.{
  String, ◌≡◌, refl, ap, ◌∙◌, Bool, true, false, Option, none, some, eq_iff,
}
use operator_marketplace.Common.Errors.{Error}
use operator_marketplace.Api.Meta.{ObjectPhase, is_zero}
use operator_marketplace.Api.CatalogSourceConfig.{CatalogSourceConfig, CatalogSourceConfigSpec}
use operator_marketplace.Common.Maps.{lookup, lookup-insert_self}
use operator_marketplace.Phase.{configuring, succeeded}
use operator_marketplace.Phase.Transitioner.{transition_into}
use operator_marketplace.Cluster.{Environment}
use operator_marketplace.Sources.Handler.{returned}
use operator_marketplace.Configs.Cache.{Cache, get, set, is_entry_stale}
use operator_marketplace.Configs.Cache.Stale.{set-not_stale}
use operator_marketplace.Configs.Reconcilers.{
  ConfigReconciled, ConfigWorld, config_phase, configuring_config_reconcile,
  succeeded_config_reconcile,
}
use operator_marketplace.Configs.Handler.{
  config_reconciler_of_phase, get_config_reconciler, run_config_reconciler, persist_config,
  finish_config, handle_with, handle_config,
}

-- The reconciler that is chosen for a config that is not stale and not being deleted.
pub chosen_by_phase :
    (cache : Cache) (c : CatalogSourceConfig) (p : String)
    → is_entry_stale c cache ≡ (false, false)
    → is_zero c.meta.deletion_timestamp ≡ true
    → config_phase c ≡ p
    → get_config_reconciler cache c ≡ config_reconciler_of_phase p
unfolding get_config_reconciler
chosen_by_phase cache c p s z e = rw (s, z, e) refl

same_entry :
    (c d : CatalogSourceConfig) (cache : Cache)
    → d.meta.uid ≡ c.meta.uid
    → d.spec ≡ c.spec
    → is_entry_stale d cache ≡ is_entry_stale c cache
unfolding is_entry_stale get
same_entry c d cache u s = rw (u, s) refl

module _ (E : Environment) where
  persist_config-cache :
      (out : CatalogSourceConfig) (t : Option ObjectPhase × Bool) (error : Option Error)
      (w : ConfigWorld E)
      → (persist_config E out t error w).1.cache ≡ w.cache
  unfolding persist_config
  persist_config-cache out (phase, false) error w = refl
  persist_config-cache out (none, true) error w = refl
  persist_config-cache out (some phase, true) error w = refl

  finish_config-cache :
      (r : ConfigReconciled) (w : ConfigWorld E) → (finish_config E r w).1.cache ≡ w.cache
  unfolding finish_config
  finish_config-cache r w = go r.out
    where
      go :
          (out : Option CatalogSourceConfig)
          → (finish_config E (record r { out = out }) w).1.cache ≡ w.cache
      go none = refl
      go (some out) = persist_config-cache out _ r.error w

  configuring-cache :
      (c : CatalogSourceConfig) (w : ConfigWorld E)
      → config_phase c ≡ configuring
      → (configuring_config_reconcile E c w).1.cache ≡ set c w.cache
  unfolding configuring_config_reconcile
  configuring-cache c w e = rw ((eq_iff (config_phase c) configuring).1 e) refl

  handle_config-cache :
      (c : CatalogSourceConfig) (w : ConfigWorld E)
      → is_entry_stale c w.cache ≡ (false, false)
      → is_zero c.meta.deletion_timestamp ≡ true
      → config_phase c ≡ configuring
      → (handle_config E c w).1.cache ≡ set c w.cache
  unfolding handle_config handle_with run_config_reconciler
  handle_config-cache c w s z e =
      rw (chosen_by_phase w.cache c configuring s z e)
        (finish_config-cache _ _ ∙ configuring-cache c w e)

  handle_succeeded :
      (d : CatalogSourceConfig) (w : ConfigWorld E)
      → is_entry_stale d w.cache ≡ (false, false)
      → is_zero d.meta.deletion_timestamp ≡ true
      → config_phase d ≡ succeeded
      → handle_config E d w ≡ (returned none, w)
  unfolding handle_config handle_with run_config_reconciler succeeded_config_reconcile finish_config
      persist_config transition_into
  handle_succeeded d w s z e =
      rw (chosen_by_phase w.cache d succeeded s z e, (eq_iff (config_phase d) succeeded).1 e) refl

  -- After a config in Configuring, neither stale in the cache nor being deleted, has been handled,
  -- the cache has an entry for its UID, with its packages and target namespace and no more; and
  -- Handle does nothing and returns no error for an object in Succeeded with the same UID and spec
  -- that is not being deleted.
  pub handle_config_settles :
      (c d : CatalogSourceConfig) (w : ConfigWorld E)
      → is_entry_stale c w.cache ≡ (false, false)
      → is_zero c.meta.deletion_timestamp ≡ true
      → config_phase c ≡ configuring
      → d.meta.uid ≡ c.meta.uid
      → d.spec ≡ c.spec
      → is_zero d.meta.deletion_timestamp ≡ true
      → config_phase d ≡ succeeded
      → let w' = (handle_config E c w).1 in
        let entry : CatalogSourceConfigSpec = record {
          target_namespace = c.spec.target_namespace;
          packages = c.spec.packages;
          display_name = "";
          publisher = "";
        } in
        (lookup c.meta.uid w'.cache.entries ≡ some entry)
        × (handle_config E d w' ≡ (returned none, w'))
  unfolding set
  handle_config_settles c d w s z e u q y f = (
    ap (λ k. lookup c.meta.uid k.entries) (handle_config-cache c w s z e)
        ∙ lookup-insert_self c.meta.uid _ w.cache.entries,
    handle_succeeded d (handle_config E c w).1
        (ap (λ k. is_entry_stale d k) (handle_config-cache c w s z e)
          ∙ same_entry c d (set c w.cache) u q
          ∙ (set-not_stale c w.cache).0)
        y f,
  )
