-- ===== src/System.antt =====
-- The running process: the calls of Reconcile of both controllers, the two sync loops and the
-- goroutines of Send, interleaved in any order, over the datastore, the cache of configs and the
-- cluster that they share. During a round of Poll the other goroutines may change the datastore and
-- the cluster; one call of Reconcile and of Trigger runs without interruption.
pub mod Invariant
pub mod Journey
pub mod Rollout
use operator_marketplace.Common.{Option, none, some, List, [], ◌∷◌, ◌++◌}
use operator_marketplace.Api.Meta.{NamespacedName}
use operator_marketplace.Datastore.{Datastore, new_datastore}
use operator_marketplace.Datastore.Update.{PackageUpdateAggregator}
use operator_marketplace.Cluster.{Environment}
use operator_marketplace.Sources.World.{World}
use operator_marketplace.Sources.Handler.{reconcile_request}
use operator_marketplace.Sources.Poller.{Round, sent, round_panicked, OtherGoroutines, poll}
use operator_marketplace.Sources.Poller.Rounds.{KeepValid}
use operator_marketplace.Configs.Cache.{Cache, new_cache}
use operator_marketplace.Configs.Reconcilers.{ConfigWorld}
use operator_marketplace.Configs.Handler.{reconcile_config_request}
use operator_marketplace.Syncers.{send, receive}

module _ (E : Environment) where
  pub record Process : Type 0 where
    pub store : Datastore
    pub cache : Cache
    pub cluster : E.State
    -- what the goroutines of Send are waiting to hand over
    pub pending : List PackageUpdateAggregator

  abbrev pub of_sources : Process → World E
  of_sources p = record { store = p.store; cluster = p.cluster }

  abbrev pub after_sources : Process → World E → Process
  after_sources p w = record p { store = w.store; cluster = w.cluster }

  abbrev pub of_configs : Process → ConfigWorld E
  of_configs p = record { store = p.store; cache = p.cache; cluster = p.cluster }

  abbrev pub after_configs : Process → ConfigWorld E → Process
  after_configs p w = record p { store = w.store; cache = w.cache; cluster = w.cluster }

  -- What a round sends; one that panics ends the process.
  abbrev pub sent_by : Round → Option PackageUpdateAggregator
  sent_by (sent notification) = notification
  sent_by round_panicked = none

  -- NewRegistrySyncer, NewCatalogSyncer and the handlers at the start of the process.
  unfoldable pub start : E.State → Process
  unfolding new_datastore new_cache
  start s = record { store = new_datastore; cache = new_cache; cluster = s; pending = [] }

  unfoldable pub serve_source : NamespacedName → Process → Process
  unfolding reconcile_request
  serve_source request p = after_sources p (reconcile_request E request (of_sources p)).1

  unfoldable pub serve_config : NamespacedName → Process → Process
  unfolding reconcile_config_request
  serve_config request p = after_configs p (reconcile_config_request E request (of_configs p)).1

  unfoldable pub poll_once : OtherGoroutines E → Process → Process
  unfolding poll
  poll_once others p =
      let (round, w) = poll E others (of_sources p) in
      record (after_sources p w) { pending = send E (sent_by round) p.pending }

  pub data Step : Process → Process → Type 0 where
    source : (request : NamespacedName) (p : Process) → Step p (serve_source request p)
    config : (request : NamespacedName) (p : Process) → Step p (serve_config request p)
    -- Other goroutines go on during the round, and keep the datastore well-formed.
    round :
        (others : OtherGoroutines E) (p : Process)
        → KeepValid E others
        → Step p (poll_once others p)
    -- The catalog loop takes any of the pending notifications.
    notice :
        (before after : List PackageUpdateAggregator) (notification : PackageUpdateAggregator)
        (ds : Datastore) (cache : Cache) (s : E.State)
        → Step
            (record {
              store = ds;
              cache = cache;
              cluster = s;
              pending = before ++ (notification ∷ after);
            })
            (record {
              store = ds;
              cache = cache;
              cluster = receive E (some notification) s;
              pending = before ++ after;
            })
    -- The rest of the cluster changes.
    change : (p : Process) (s : E.State) → Step p (record p { cluster = s })

  pub data IsReachable : Process → Type 0 where
    starts : (s : E.State) → IsReachable (start s)
    steps : {p q : Process} → IsReachable p → Step p q → IsReachable q
