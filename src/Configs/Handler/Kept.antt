-- ===== src/Configs/Handler/Kept.antt =====
-- What no call of the config controller's Reconcile changes or breaks: the datastore, and the form
-- of the cache.
use operator_marketplace.Common.{
  String, ◌≡◌, refl, ◌∙◌, Bool, true, false, Option, none, some, Bool-cases, Option-cases, inl, inr,
  ◌==◌, All,
}
use operator_marketplace.Common.Maps.{
  UniqueKeys, lookup, insert-UniqueKeys, delete-UniqueKeys, All-insert, All-delete,
}
use operator_marketplace.Common.Errors.{Error, Result, ok, err, is_not_found}
use operator_marketplace.Api.Meta.{NamespacedName, ObjectPhase}
use operator_marketplace.Api.CatalogSourceConfig.{
  CatalogSourceConfig, CatalogSourceConfigSpec, ensure_config_gvk,
}
use operator_marketplace.Phase.{initial, configuring, succeeded, failed}
use operator_marketplace.Cluster.{Environment}
use operator_marketplace.Configs.Cache.{Cache, evict, set}
use operator_marketplace.Configs.Reconcilers.{
  ConfigReconciled, ConfigWorld, ConfigAction, config_phase, initial_config_reconcile,
  configuring_config_reconcile, succeeded_config_reconcile, failed_config_reconcile,
  deleted_config_reconcile, update_config_reconcile, delete_objects, scheduled,
}
use operator_marketplace.Configs.Handler.{
  ConfigReconciler, config_update, config_deleted, config_initial, config_configuring,
  config_succeeded, config_failed, get_config_reconciler, run_config_reconciler, persist_config,
  finish_config, handle_with, handle_config, fetched_config, reconcile_config_request,
}

-- An entry keeps the packages and the target namespace only.
pub record IsCached (entry : String × CatalogSourceConfigSpec) : Type 0 where
  pub no_display_name : entry.1.display_name ≡ ""
  pub no_publisher : entry.1.publisher ≡ ""

pub record IsCache (cache : Cache) : Type 0 where
  pub unique : UniqueKeys cache.entries
  pub cached : All IsCached cache.entries

set-IsCache : (c : CatalogSourceConfig) (cache : Cache) → IsCache cache → IsCache (set c cache)
unfolding set
set-IsCache c cache h = record {
  unique = insert-UniqueKeys c.meta.uid _ cache.entries h.unique;
  cached =
      All-insert IsCached c.meta.uid _ cache.entries
        (record { no_display_name = refl; no_publisher = refl }) h.cached;
}

evict-IsCache : (c : CatalogSourceConfig) (cache : Cache) → IsCache cache → IsCache (evict c cache)
unfolding evict
evict-IsCache c cache h = elim (Option-cases (lookup c.meta.uid cache.entries)) [
  | inl e ↦ rw (e, evict) h
  | inr (spec, e) ↦
      rw (e, evict)
        (record {
          unique = delete-UniqueKeys c.meta.uid cache.entries h.unique;
          cached = All-delete IsCached c.meta.uid cache.entries h.cached;
        })
]

module _ (E : Environment) where
  pub record IsKeptWorld (w v : ConfigWorld E) : Type 0 where
    pub store : v.store ≡ w.store
    pub cache : IsCache v.cache

  abbrev ConfigKeeps : {A : Type 0} → ConfigAction E A → Type 0
  ConfigKeeps m = (w : ConfigWorld E) → IsCache w.cache → IsKeptWorld w (m w).1

  unchanged : (w : ConfigWorld E) → IsCache w.cache → IsKeptWorld w w
  unchanged w h = record { store = refl; cache = h }

  -- Each reconciler, where it is the one for the phase or not.
  initial-ConfigKeeps : (c : CatalogSourceConfig) → ConfigKeeps (initial_config_reconcile E c)
  unfolding initial_config_reconcile
  initial-ConfigKeeps c w h = elim (Bool-cases (config_phase c == initial)) [
    | inl e ↦ rw e (unchanged w h)
    | inr e ↦ rw e (unchanged w h)
  ]

  configuring-ConfigKeeps :
      (c : CatalogSourceConfig) → ConfigKeeps (configuring_config_reconcile E c)
  unfolding configuring_config_reconcile
  configuring-ConfigKeeps c w h = elim (Bool-cases (config_phase c == configuring)) [
    | inl e ↦ rw e (record { store = refl; cache = set-IsCache c w.cache h })
    | inr e ↦ rw e (unchanged w h)
  ]

  succeeded-ConfigKeeps : (c : CatalogSourceConfig) → ConfigKeeps (succeeded_config_reconcile E c)
  unfolding succeeded_config_reconcile
  succeeded-ConfigKeeps c w h = elim (Bool-cases (config_phase c == succeeded)) [
    | inl e ↦ rw e (unchanged w h)
    | inr e ↦ rw e (unchanged w h)
  ]

  failed-ConfigKeeps : (c : CatalogSourceConfig) → ConfigKeeps (failed_config_reconcile E c)
  unfolding failed_config_reconcile
  failed-ConfigKeeps c w h = elim (Bool-cases (config_phase c == failed)) [
    | inl e ↦ rw e (unchanged w h)
    | inr e ↦ rw e (unchanged w h)
  ]

  deleted-ConfigKeeps : (c : CatalogSourceConfig) → ConfigKeeps (deleted_config_reconcile E c)
  unfolding deleted_config_reconcile
  deleted-ConfigKeeps c w h = record { store = refl; cache = evict-IsCache c w.cache h }

  scheduled-ConfigKeeps :
      (c : CatalogSourceConfig) (e : Option Error) → ConfigKeeps (scheduled E c e)
  scheduled-ConfigKeeps c (some e) w h = unchanged w h
  scheduled-ConfigKeeps c none w h = record { store = refl; cache = evict-IsCache c w.cache h }

  update-ConfigKeeps :
      (target : Bool) (c : CatalogSourceConfig) → ConfigKeeps (update_config_reconcile E target c)
  unfolding update_config_reconcile delete_objects
  update-ConfigKeeps true c w h =
      let k = scheduled-ConfigKeeps c (delete_objects E c w).0 (delete_objects E c w).1 h in
      record { store = k.store; cache = k.cache }
  update-ConfigKeeps false c w h = scheduled-ConfigKeeps c none w h

  run-ConfigKeeps :
      (k : ConfigReconciler) (c : CatalogSourceConfig) → ConfigKeeps (run_config_reconciler E k c)
  unfolding run_config_reconciler
  run-ConfigKeeps (config_update t) c = update-ConfigKeeps t c
  run-ConfigKeeps config_deleted c = deleted-ConfigKeeps c
  run-ConfigKeeps config_initial c = initial-ConfigKeeps c
  run-ConfigKeeps config_configuring c = configuring-ConfigKeeps c
  run-ConfigKeeps config_succeeded c = succeeded-ConfigKeeps c
  run-ConfigKeeps config_failed c = failed-ConfigKeeps c

  persist-ConfigKeeps :
      (out : CatalogSourceConfig) (t : Option ObjectPhase × Bool) (e : Option Error)
      → ConfigKeeps (persist_config E out t e)
  unfolding persist_config
  persist-ConfigKeeps out (phase, false) e w h = unchanged w h
  persist-ConfigKeeps out (none, true) e w h = unchanged w h
  persist-ConfigKeeps out (some phase, true) e w h = record { store = refl; cache = h }

  finish-ConfigKeeps : (r : ConfigReconciled) → ConfigKeeps (finish_config E r)
  unfolding finish_config
  finish-ConfigKeeps r w h = elim (Option-cases r.out) [
    | inl e ↦ rw (e, finish_config) (unchanged w h)
    | inr (out, e) ↦ rw (e, finish_config) (persist-ConfigKeeps out _ r.error w h)
  ]

  handle_with-ConfigKeeps :
      (k : Result ConfigReconciler) (c : CatalogSourceConfig) → ConfigKeeps (handle_with E k c)
  unfolding handle_with
  handle_with-ConfigKeeps (err e) c w h = unchanged w h
  handle_with-ConfigKeeps (ok k) c w h =
      let r = run-ConfigKeeps k c w h in
      let f = finish-ConfigKeeps _ (run_config_reconciler E k c w).1 r.cache in
      record { store = f.store ∙ r.store; cache = f.cache }

  fetched-ConfigKeeps : (r : Result CatalogSourceConfig) → ConfigKeeps (fetched_config E r)
  unfolding fetched_config handle_config
  fetched-ConfigKeeps (err e) w h = elim (Bool-cases (is_not_found e)) [
    | inl p ↦ rw p (unchanged w h)
    | inr p ↦ rw p (unchanged w h)
  ]
  fetched-ConfigKeeps (ok c) w h =
      handle_with-ConfigKeeps (get_config_reconciler w.cache (ensure_config_gvk c))
        (ensure_config_gvk c) w h

  -- One call leaves the datastore as it is and the cache well-formed.
  pub reconcile_config_request-ConfigKeeps :
      (request : NamespacedName) → ConfigKeeps (reconcile_config_request E request)
  unfolding reconcile_config_request
  reconcile_config_request-ConfigKeeps request w h =
      let f =
        fetched-ConfigKeeps _ (record w { cluster = (E.configs.get request w.cluster).1 }) h in
      record { store = f.store; cache = f.cache }
