-- ===== src/Configs/Handler/Restarts.antt =====
-- What one call of Handle (pkg/catalogsourceconfig/handler.go) does for a config whose cache entry
-- is stale.
use mathlib.Core.Path.{subst}
use operator_marketplace.Common.Maps.{lookup, IsWithout}
use operator_marketplace.Cluster.Objects.{CatalogSource}
use operator_marketplace.Configs.Cache.Stale.{evict-IsWithout}
use operator_marketplace.Common.{
  arith, Option-cases, ◌==◌, ◌≡◌, refl, ap, inl, inr, Bool, true, false, ◌||◌, Option, none, some,
  if◌then◌else◌, Bool-cases,
}
use operator_marketplace.Common.Errors.{Error, ok}
use operator_marketplace.Api.Meta.{new_phase, empty_object_phase, empty_object_meta, Time}
use operator_marketplace.Api.CatalogSourceConfig.{CatalogSourceConfig, CatalogSourceConfigSpec}
use operator_marketplace.Phase.{configuring, get_next, get_message}
use operator_marketplace.Phase.Transitioner.{transition_into_lem}
use operator_marketplace.Cluster.{Environment}
use operator_marketplace.Sources.Handler.{Outcome, returned}
use operator_marketplace.Configs.Cache.{
  Cache, get, is_entry_stale, evict, stale_entry, compare_specs,
}
use operator_marketplace.Configs.Reconcilers.{
  ConfigWorld, config_advance, old_source, delete_source, delete_objects, scheduled,
  update_config_reconcile,
}
use operator_marketplace.Configs.Handler.{
  config_update, choose, get_config_reconciler, run_config_reconciler, persist_config,
  finish_config, handle_with, handle_config,
}

module _ (E : Environment) where
  -- A config at the start of Configuring, its status dropped.
  abbrev pub restarted : Time → CatalogSourceConfig → CatalogSourceConfig
  restarted now c = record c {
    current_phase = record {
      phase = get_next configuring;
      last_transition_time = now;
      last_update_time = now;
    };
  }

  -- The cluster after the old CatalogSource is deleted, if the target has changed.
  abbrev pub without_old : CatalogSourceConfig → ConfigWorld E → E.State
  without_old c w =
      if (is_entry_stale c w.cache).1
      then (E.catalog_sources.delete (old_source E c (get c w.cache).0) w.cluster).1
      else w.cluster

  target_stale-found :
      (c : CatalogSourceConfig) (cache : Cache)
      → (is_entry_stale c cache).1 ≡ true
      → (get c cache).1 ≡ true
  unfolding is_entry_stale
  target_stale-found c cache h = go (get c cache) h
    where
      go :
          (found : CatalogSourceConfigSpec × Bool)
          → (stale_entry found c.spec).1 ≡ true
          → found.1 ≡ true
      go (spec, true) h = refl
      go (spec, false) h = cc

  deleted_old :
      (c : CatalogSourceConfig) (w : ConfigWorld E)
      → (is_entry_stale c w.cache).1 ≡ true
      → delete_objects E c w ≡ (
        none,
        record w {
          cluster = (E.catalog_sources.delete (old_source E c (get c w.cache).0) w.cluster).1;
        },
      )
  unfolding delete_objects
  deleted_old c w h = go (get c w.cache) (target_stale-found c w.cache h)
    where
      go :
          (found : CatalogSourceConfigSpec × Bool)
          → found.1 ≡ true
          → ◌≡◌ {A = Option Error × ConfigWorld E}
              (
                (delete_source E c found w.cluster).0,
                record w { cluster = (delete_source E c found w.cluster).1 },
              )
              (
                none,
                record w {
                  cluster = (E.catalog_sources.delete (old_source E c found.0) w.cluster).1;
                },
              )
      go (spec, true) h = refl
      go (spec, false) h = cc

  abbrev dropped : CatalogSourceConfig → CatalogSourceConfig
  dropped c = record c { current_phase = empty_object_phase }

  finish_restart :
      (c : CatalogSourceConfig) (w : ConfigWorld E)
      → let (u, cluster) = E.configs.update (restarted (E.now w.cluster) c) w.cluster in
        finish_config E (config_advance (dropped c) configuring) w
        ≡ (returned u, record w { cluster = cluster })
  unfolding finish_config persist_config
  finish_restart c w =
      rw (transition_into_lem (E.now w.cluster) empty_object_phase (get_next configuring))
        (unfold get_next new_phase in refl)

  update_lem :
      (c : CatalogSourceConfig) (w : ConfigWorld E)
      → update_config_reconcile E (is_entry_stale c w.cache).1 c w ≡ (
        config_advance (dropped c) configuring,
        record w { cache = evict c w.cache; cluster = without_old c w },
      )
  unfolding update_config_reconcile
  update_lem c w = elim (Bool-cases (is_entry_stale c w.cache).1) [
    | inl t ↦ rw (t, update_config_reconcile) (ap (λ r. scheduled E c r.0 r.1) (deleted_old c w t))
    | inr f ↦ rw (f, update_config_reconcile) refl
  ]

  chosen_update :
      (stale : Bool × Bool) (c : CatalogSourceConfig)
      → (stale.0 || stale.1) ≡ true
      → choose stale c ≡ ok (config_update stale.1)
  chosen_update (p, t) c h = rw h refl

  pub stale_handled :
      (c : CatalogSourceConfig) (w : ConfigWorld E)
      → ((is_entry_stale c w.cache).0 || (is_entry_stale c w.cache).1) ≡ true
      → let old = without_old c w in
        let (u, cluster) = E.configs.update (restarted (E.now old) c) old in
        handle_config E c w ≡ (returned u, record w { cache = evict c w.cache; cluster = cluster })
  unfolding handle_config get_config_reconciler handle_with run_config_reconciler
  stale_handled c w h =
      rw (chosen_update (is_entry_stale c w.cache) c h, handle_with)
        (rw (update_lem c w) (finish_restart c _))

  -- The CatalogSource of the config in the namespace that the cache names.
  abbrev pub cached_source : CatalogSourceConfig → CatalogSourceConfigSpec → CatalogSource
  cached_source c cached = record {
    type_meta = record { kind = "CatalogSource"; api_version = "operators.coreos.com/v1alpha1" };
    meta = record empty_object_meta { name = c.meta.name; namespace = cached.target_namespace };
    source_type = "";
    address = "";
    display_name = "";
    publisher = "";
  }

  -- The cluster after the CatalogSource of the old target is deleted, if the target has changed.
  abbrev pub without_cached : CatalogSourceConfig → CatalogSourceConfigSpec → E.State → E.State
  without_cached c cached s =
      if cached.target_namespace == c.spec.target_namespace
      then s
      else (E.catalog_sources.delete (cached_source c cached) s).1

  -- The config starts anew at Configuring, and its entry is no longer in the cache.
  pub record IsRestarted (c : CatalogSourceConfig) (w : ConfigWorld E) (r : Outcome × ConfigWorld E)
      : Type 0 where
    pub cached : CatalogSourceConfigSpec
    pub known : lookup c.meta.uid w.cache.entries ≡ some cached
    pub cache : Cache
    pub evicted : IsWithout c.meta.uid w.cache.entries cache.entries
    pub handled :
        let s = without_cached c cached w.cluster in
        let out : CatalogSourceConfig = record c {
          current_phase = record {
            phase = record { name = configuring; message = "Scheduled for configuration" };
            last_transition_time = E.now s;
            last_update_time = E.now s;
          };
        } in
        let (u, cluster) = E.configs.update out s in
        r ≡ (returned u, record w { cache = cache; cluster = cluster })

  -- What the comparison says of the target is about the cached entry.
  target_stale :
      (c : CatalogSourceConfig) (w : ConfigWorld E) (cached : CatalogSourceConfigSpec)
      → lookup c.meta.uid w.cache.entries ≡ some cached
      → without_old c w ≡ without_cached c cached w.cluster
  unfolding is_entry_stale get
  target_stale c w cached known =
      rw (known, get)
        (elim (Bool-cases (cached.target_namespace == c.spec.target_namespace)) [
          | inl e ↦ rw e (elim (Bool-cases (compare_specs cached c.spec).1) [
            | inl q ↦ ground (arith)
            | inr q ↦ rw (rw e at q) refl
          ])
          | inr e ↦ rw e refl
        ])

  stale-known :
      (c : CatalogSourceConfig) (cache : Cache)
      → ((is_entry_stale c cache).0 || (is_entry_stale c cache).1) ≡ true
      → (cached : CatalogSourceConfigSpec) × (lookup c.meta.uid cache.entries ≡ some cached)
  unfolding is_entry_stale get
  stale-known c cache h = elim (Option-cases (lookup c.meta.uid cache.entries)) [
    | inl e ↦ cc (rw (e, get) at h)
    | inr found ↦ found
  ]

  -- A config whose cache entry is stale goes back to Configuring whatever its phase. The cache has
  -- an entry for its UID; if its target namespace is another than the entry's, the CatalogSource of
  -- the config's name in the entry's namespace is deleted first, and a failure of that is ignored.
  -- The entry leaves the cache, which keeps all others; and the object is updated once, in phase
  -- Configuring since the time of the update, its other fields as they were. The call returns the
  -- error of the update.
  pub handle_stale :
      (c : CatalogSourceConfig) (w : ConfigWorld E)
      → ((is_entry_stale c w.cache).0 || (is_entry_stale c w.cache).1) ≡ true
      → IsRestarted c w (handle_config E c w)
  unfolding get_next new_phase get_message
  handle_stale c w h =
      let (cached, known) = stale-known c w.cache h in
      record {
        cached = cached;
        known = known;
        cache = evict c w.cache;
        evicted = evict-IsWithout c w.cache;
        handled =
            subst
              (λ s. handle_config E c w ≡ (
                returned (E.configs.update (restarted (E.now s) c) s).0,
                record w {
                  cache = evict c w.cache;
                  cluster = (E.configs.update (restarted (E.now s) c) s).1;
                },
              ))
              (target_stale c w cached known) (stale_handled c w h);
      }
