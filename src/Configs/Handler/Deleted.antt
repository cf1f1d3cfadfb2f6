-- ===== src/Configs/Handler/Deleted.antt =====
-- What one call of Handle (pkg/catalogsourceconfig/handler.go) does for a config that is being
-- deleted.
use operator_marketplace.Common.{
  ◌≡◌, refl, false, String, List, Option, none, some, if◌then◌else◌, is_some,
}
use operator_marketplace.Common.Maps.{IsWithout}
use operator_marketplace.Common.Errors.{Error}
use operator_marketplace.Api.Meta.{is_zero, AreWithout, remove_finalizer, contains-remove_finalizer}
use operator_marketplace.Api.CatalogSourceConfig.{
  CatalogSourceConfig, remove_config_finalizer, config_finalizer,
}
use operator_marketplace.Phase.Transitioner.{transition_into}
use operator_marketplace.Cluster.{Environment}
use operator_marketplace.Sources.Handler.{Outcome, returned, panicked}
use operator_marketplace.Configs.Cache.{Cache, is_entry_stale, evict}
use operator_marketplace.Configs.Cache.Stale.{evict-IsWithout}
use operator_marketplace.Configs.Reconcilers.{ConfigWorld, after_update, deleted_config_reconcile}
use operator_marketplace.Configs.Handler.{
  get_config_reconciler, run_config_reconciler, persist_config, finish_config, handle_with,
  handle_config,
}

module _ (E : Environment) where
  deletion_handled :
      (c : CatalogSourceConfig) (w : ConfigWorld E)
      → is_entry_stale c w.cache ≡ (false, false)
      → is_zero c.meta.deletion_timestamp ≡ false
      → let (u, cluster) = E.configs.update (remove_config_finalizer c) w.cluster in
        let w' : ConfigWorld E = record w { cache = evict c w.cache; cluster = cluster } in
        handle_config E c w ≡ (if is_some u then panicked else returned none, w')
  unfolding handle_config get_config_reconciler handle_with run_config_reconciler
      deleted_config_reconcile finish_config persist_config transition_into
  deletion_handled c w s z =
      rw (s, handle_with, z) (finished (E.configs.update (remove_config_finalizer c) w.cluster))
    where
      finished :
          (u : Option Error × E.State)
          → let w' : ConfigWorld E = record w { cache = evict c w.cache; cluster = u.1 } in
            finish_config E (after_update E (remove_config_finalizer c) u.0) w'
            ≡ (if is_some u.0 then panicked else returned none, w')
      finished (none, s) = refl
      finished (some e, s) = refl

  -- The entry of the config is gone, and the object is written without its finalizer.
  pub record IsReleased (c : CatalogSourceConfig) (w : ConfigWorld E) (r : Outcome × ConfigWorld E)
      : Type 0 where
    pub cache : Cache
    pub evicted : IsWithout c.meta.uid w.cache.entries cache.entries
    pub finalizers : List String
    pub released :
        AreWithout "finalizer.catalogsourceconfigs.marketplace.redhat.com" c.meta.finalizers
          finalizers
    pub handled :
        let out : CatalogSourceConfig = record c {
          meta = record (c.meta) { finalizers = finalizers };
        } in
        let (error, cluster) = E.configs.update out w.cluster in
        r ≡ (
          if is_some error then panicked else returned none,
          record w { cache = cache; cluster = cluster },
        )

  -- The deletion of a config that is not stale in the cache: its entry, if there is one, leaves the
  -- cache, which keeps all others; and the object is updated once, which takes its finalizer away and
  -- leaves its other finalizers and fields. The call ends with no error if that succeeds, and in a
  -- panic if it fails.
  pub handle_config_deleted :
      (c : CatalogSourceConfig) (w : ConfigWorld E)
      → is_entry_stale c w.cache ≡ (false, false)
      → is_zero c.meta.deletion_timestamp ≡ false
      → IsReleased c w (handle_config E c w)
  unfolding remove_config_finalizer remove_finalizer
  handle_config_deleted c w s z = record {
    cache = evict c w.cache;
    evicted = evict-IsWithout c w.cache;
    finalizers = (remove_config_finalizer c).meta.finalizers;
    released = contains-remove_finalizer c.meta config_finalizer;
    handled = deletion_handled c w s z;
  }
