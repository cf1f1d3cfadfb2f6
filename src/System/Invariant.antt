-- ===== src/System/Invariant.antt =====
-- What holds at all times in the running process.
use mathlib.Core.Path.{subst}
use operator_marketplace.Common.{◌≡◌, sym, some, List, [], ◌∷◌, ◌++◌, All, All-append}
use operator_marketplace.Api.Meta.{NamespacedName}
use operator_marketplace.Datastore.Invariant.{IsValid, calls-IsValid}
use operator_marketplace.Cluster.{Environment}
use operator_marketplace.Sources.Handler.Kept.{reconcile_request-Keeps}
use operator_marketplace.Sources.Poller.{Round, sent, round_panicked, poll}
use operator_marketplace.Sources.Poller.Rounds.{poll-IsValid}
use operator_marketplace.Sources.Poller.Notices.{IsNotice, IsAnnounced, poll-IsAnnounced}
use operator_marketplace.Configs.Handler.Kept.{IsCache, reconcile_config_request-ConfigKeeps}
use operator_marketplace.Syncers.Ends.{AreNotices, send-AreNotices}
use operator_marketplace.System.{
  Process, of_sources, of_configs, sent_by, start, serve_source, serve_config, poll_once, Step,
  source, config, round, notice, change, IsReachable, starts, steps,
}

All-left {ℓ κ} :
    {A : Type ℓ} (P : A → Type κ) (xs ys : List A) → All P (xs ++ ys) → All P xs × All P ys
All-left P [] ys h = (tt, h)
All-left P (x ∷ xs) ys h = let (l, r) = All-left P xs ys h.1 in ((h.0, l), r)

module _ (E : Environment) where
  -- The datastore and the cache are well-formed, and each notification that waits lists a package.
  pub record IsSound (p : Process E) : Type 0 where
    pub store : IsValid p.store
    pub cache : IsCache p.cache
    pub notices : AreNotices E p.pending

  start-IsSound : (s : E.State) → IsSound (start E s)
  unfolding start
  start-IsSound s = record {
    store = calls-IsValid [];
    cache = record { unique = tt; cached = tt };
    notices = tt;
  }

  sent-IsNotice : (r : Round) → IsAnnounced r → IsNotice (sent_by E r)
  sent-IsNotice (sent n) h = h
  sent-IsNotice round_panicked h = tt

  config_kept :
      (request : NamespacedName) (p : Process E)
      → IsSound p
      → (((serve_config E request p).store) ≡ p.store) × IsCache (serve_config E request p).cache
  unfolding serve_config
  config_kept request p h =
      let k = reconcile_config_request-ConfigKeeps E request (of_configs E p) h.cache in
      (k.store, k.cache)

  Step-IsSound : {p q : Process E} → Step E p q → IsSound p → IsSound q
  unfolding serve_source serve_config poll_once
  Step-IsSound (source request p) h = record {
    store = reconcile_request-Keeps E request (of_sources E p) h.store;
    cache = h.cache;
    notices = h.notices;
  }
  Step-IsSound (config request p) h =
      let (store, cache) = config_kept request p h in
      record { store = subst IsValid (sym store) h.store; cache = cache; notices = h.notices }
  Step-IsSound (round others p valid) h = record {
    store = poll-IsValid E others valid (of_sources E p) h.store;
    cache = h.cache;
    notices =
        send-AreNotices E (sent_by E (poll E others (of_sources E p)).0) p.pending
          (sent-IsNotice _ (poll-IsAnnounced E others (of_sources E p))) h.notices;
  }
  Step-IsSound (notice before after notification ds cache s) h =
      let (b, a) = All-left (λ x. IsNotice (some x)) before (notification ∷ after) h.notices in
      record {
        store = h.store;
        cache = h.cache;
        notices = All-append (λ x. IsNotice (some x)) before after b a.1;
      }
  Step-IsSound (change p s) h = record { store = h.store; cache = h.cache; notices = h.notices }

  IsReachable-IsSound : {p : Process E} → IsReachable E p → IsSound p
  IsReachable-IsSound (starts s) = start-IsSound s
  IsReachable-IsSound (steps r t) = Step-IsSound t (IsReachable-IsSound r)

  -- Whatever calls of both controllers' Reconcile, rounds of polling and notifications have come
  -- before, in any order, however the cluster has changed between them, and whatever other goroutines
  -- have done to the datastore and the cluster during a round, as long as the datastore stayed
  -- well-formed: the datastore and the cache of configs are well-formed and each notification that
  -- waits lists a package; and no call of the config controller changes the datastore.
  pub process-IsSound :
      (p : Process E)
      → IsReachable E p
      → IsSound p × ((request : NamespacedName) → (serve_config E request p).store ≡ p.store)
  process-IsSound p r = let h = IsReachable-IsSound r in (h, λ request. (config_kept request p h).0)
