-- ===== src/Configs/Progress/Steps.antt =====
-- The first call of the controller's Reconcile for a CatalogSourceConfig in Initial: it moves on to
-- Configuring, stale in the cache or not.
use mathlib.Core.Path.{subst}
use operator_marketplace.Common.{
  String, ◌≡◌, refl, sym, ap, ◌∙◌, true, false, none, some, arith, ◌==◌, eq_iff, Bool, ◌||◌,
  Bool-cases, inl, inr,
}
use operator_marketplace.Api.Meta.{NamespacedName, new_phase, is_zero, ensure_finalizer}
use operator_marketplace.Api.CatalogSourceConfig.{
  CatalogSourceConfig, ensure_config_gvk, ensure_config_finalizer, ensure_display_name,
  ensure_publisher,
}
use operator_marketplace.Phase.{initial, configuring, get_next}
use operator_marketplace.Cluster.{Environment}
use operator_marketplace.Sources.Handler.{Outcome, returned}
use operator_marketplace.Configs.Cache.{evict, is_entry_stale}
use operator_marketplace.Configs.Cache.Stale.{set-not_stale}
use operator_marketplace.Configs.Reconcilers.{ConfigWorld, config_phase, initial_config_reconcile}
use operator_marketplace.Configs.Reconcilers.Diagram.{IsKeptConfig-defaults}
use operator_marketplace.Configs.Handler.{
  config_initial, run_config_reconciler, reconcile_config_request,
}
use operator_marketplace.Configs.Handler.Writes.{config_moved, request_handled}
use operator_marketplace.Configs.Handler.Restarts.{restarted, without_old, stale_handled}
use operator_marketplace.Configs.Progress.{
  IsHealthyCluster, same_staleness, config_advanced, config_request_advances,
}

abbrev pub defaulted : CatalogSourceConfig → CatalogSourceConfig
defaulted c = ensure_publisher (ensure_display_name (ensure_config_finalizer c))

defaulted_lem :
    (c : CatalogSourceConfig)
    → (config_phase (defaulted c) ≡ config_phase c)
      × (is_zero (defaulted c).meta.deletion_timestamp ≡ is_zero c.meta.deletion_timestamp)
unfolding ensure_publisher ensure_display_name ensure_config_finalizer ensure_finalizer
defaulted_lem c = (ground arith, ground arith)

module _ {E : Environment} {request : NamespacedName} (H : IsHealthyCluster E request)
    (c : CatalogSourceConfig) where
  -- The cluster holds the config in this phase, not being deleted and not stale in the cache.
  pub record IsConfigAt (phase : String) (w : ConfigWorld E) : Type 0 where
    pub object : CatalogSourceConfig
    pub held : H.held w.cluster ≡ some object
    pub here : config_phase object ≡ phase
    pub live : is_zero object.meta.deletion_timestamp ≡ true
    pub same_uid : object.meta.uid ≡ c.meta.uid
    pub same_packages : object.spec.packages ≡ c.spec.packages
    pub same_target : object.spec.target_namespace ≡ c.spec.target_namespace
    pub fresh : is_entry_stale object w.cache ≡ (false, false)

  -- A call ends without an error, in the phase, and leaves the datastore as it is.
  pub record IsConfigStep (phase : String) (w : ConfigWorld E) (r : Outcome × ConfigWorld E)
      : Type 0 where
    pub outcome : r.0 ≡ returned none
    pub at : IsConfigAt phase r.1
    pub store : r.1.store ≡ w.store

  pub arrive :
      (out : CatalogSourceConfig) (name : String) (w w' : ConfigWorld E)
      → reconcile_config_request E request w ≡ (returned none, config_advanced H w' out name)
      → is_zero out.meta.deletion_timestamp ≡ true
      → out.meta.uid ≡ c.meta.uid
      → out.spec.packages ≡ c.spec.packages
      → out.spec.target_namespace ≡ c.spec.target_namespace
      → is_entry_stale out w'.cache ≡ (false, false)
      → w'.store ≡ w.store
      → IsConfigStep name w (reconcile_config_request E request w)
  arrive out name w w' e live u p t f s =
      let object = config_moved (E.now w'.cluster) out (get_next name) in
      subst (λ r. IsConfigStep name w r) (sym e)
        (record {
          outcome = refl;
          at = record {
            object = object;
            held = H.update_held object w'.cluster;
            here = unfold get_next new_phase in refl;
            live = live;
            same_uid = u;
            same_packages = p;
            same_target = t;
            fresh = same_staleness out object w'.cache refl refl refl ∙ f;
          };
          store = s;
        })

  pub guard :
      (d : CatalogSourceConfig) (p : String) → config_phase d ≡ p → (config_phase d == p) ≡ true
  guard d p e = (eq_iff (config_phase d) p).1 e

  pub differs :
      (d : CatalogSourceConfig) (p q : String)
      → config_phase d ≡ p
      → (p == q) ≡ false
      → (config_phase d == q) ≡ false
  differs d p q e n = rw e n

  pub from_config_initial :
      (w : ConfigWorld E)
      → IsConfigAt initial w
      → IsConfigStep configuring w (reconcile_config_request E request w)
  unfolding ensure_config_gvk run_config_reconciler initial_config_reconcile
  from_config_initial w a =
      let d = ensure_config_gvk a.object in
      let out = defaulted d in
      let kept = IsKeptConfig-defaults d in
      let (phase, live) = defaulted_lem d in
      arrive out configuring w w
        (config_request_advances H a.object out config_initial initial configuring w w a.held
          (same_staleness a.object d w.cache refl refl refl ∙ a.fresh) a.live a.here refl
          (rw (guard d initial a.here) refl)
          (differs out initial configuring (phase ∙ a.here) refl))
        (live ∙ a.live) (kept.uid ∙ a.same_uid) (kept.packages ∙ a.same_packages)
        (kept.target ∙ a.same_target)
        (same_staleness a.object out w.cache kept.uid kept.packages kept.target ∙ a.fresh) refl

  -- A config that is stale in the cache goes straight to Configuring.
  from_stale :
      (w : ConfigWorld E)
      → H.held w.cluster ≡ some c
      → is_zero c.meta.deletion_timestamp ≡ true
      → ((is_entry_stale c w.cache).0 || (is_entry_stale c w.cache).1) ≡ true
      → IsConfigStep configuring w (reconcile_config_request E request w)
  unfolding ensure_config_gvk get_next new_phase
  from_stale w held live stale =
      let d = ensure_config_gvk c in
      let old = without_old E d w in
      let object = restarted E (E.now old) d in
      let same = same_staleness c d w.cache refl refl refl in
      subst (IsConfigStep configuring w)
        (sym (
          request_handled E request c w w.cluster (H.get_held w.cluster c held)
          ∙ stale_handled E d w (ap (λ p. p.0 || p.1) same ∙ stale)
          ∙ ap
              (λ u. (
                returned u,
                record w { cache = evict d w.cache; cluster = (E.configs.update object old).1 },
              ))
              (H.update_ok object old)))
        (record {
          outcome = refl;
          at = record {
            object = object;
            held = H.update_held object old;
            here = refl;
            live = live;
            same_uid = refl;
            same_packages = refl;
            same_target = refl;
            fresh =
                same_staleness d object (evict d w.cache) refl refl refl
                ∙ (set-not_stale d w.cache).1;
          };
          store = refl;
        })

  -- A config in Initial goes to Configuring, stale or not.
  pub first_step :
      (w : ConfigWorld E)
      → H.held w.cluster ≡ some c
      → config_phase c ≡ initial
      → is_zero c.meta.deletion_timestamp ≡ true
      → IsConfigStep configuring w (reconcile_config_request E request w)
  first_step w held phase live =
      elim (Bool-cases ((is_entry_stale c w.cache).0 || (is_entry_stale c w.cache).1)) [
        | inl stale ↦ from_stale w held live stale
        | inr fresh ↦ from_config_initial w (record {
          object = c;
          held = held;
          here = phase;
          live = live;
          same_uid = refl;
          same_packages = refl;
          same_target = refl;
          fresh = neither (is_entry_stale c w.cache) fresh;
        })
      ]
    where
      neither : (p : Bool × Bool) → (p.0 || p.1) ≡ false → p ≡ (false, false)
      neither (false, false) h = refl
      neither (true, q) h = cc
      neither (false, true) h = cc
