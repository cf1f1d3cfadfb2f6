-- ===== src/Syncers.antt =====
-- syncer.go of pkg/operatorsource and of pkg/catalogsourceconfig: the two loops that run beside the
-- controllers, from the end of their initial wait on. What a loop's `select` picks, and what the
-- other goroutines do before it, is a list of events; Send starts a goroutine that waits until the
-- catalog loop takes its notification.
pub mod Ends
use operator_marketplace.Common.{Option, none, some, List, [], ◌∷◌, ◌++◌}
use operator_marketplace.Common.Effects.{Eff}
use operator_marketplace.Datastore.Update.{PackageUpdateAggregator}
use operator_marketplace.Cluster.{Environment}
use operator_marketplace.Sources.World.{World, Action}
use operator_marketplace.Sources.Poller.{sent, round_panicked, OtherGoroutines, poll}
use operator_marketplace.Configs.Triggerer.{trigger}

-- Where a loop is after its events: in `select`, returned, or ended by a panic.
pub data Loop : Type 0 where
  selecting ended crashed : Loop

module _ (E : Environment) where
  -- What happens to the registry loop: the resync interval is over, and other goroutines go on during
  -- the round; the stop channel is closed; or another goroutine changes the world before that.
  pub data RegistryEvent : Type 0 where
    interval_over : OtherGoroutines E → RegistryEvent
    stopped : RegistryEvent
    meanwhile : (World E → World E) → RegistryEvent

  abbrev pub send :
      Option PackageUpdateAggregator → List PackageUpdateAggregator → List PackageUpdateAggregator
  send none pending = pending
  send (some notification) pending = pending ++ (notification ∷ [])

  -- Sync of the registry syncer, with the notifications that have been sent.
  unfoldable pub sync_registry :
      List RegistryEvent
      → List PackageUpdateAggregator
      → Action E (Loop × List PackageUpdateAggregator)
  sync_registry [] pending w = ((selecting, pending), w)
  sync_registry (stopped ∷ events) pending w = ((ended, pending), w)
  sync_registry (meanwhile f ∷ events) pending w = sync_registry events pending (f w)
  sync_registry (interval_over others ∷ events) pending w = elim (poll E others w).0 [
    | round_panicked ↦ ((crashed, pending), (poll E others w).1)
    | sent notification ↦ sync_registry events (send notification pending) (poll E others w).1
  ]

  -- What happens to the catalog loop: a notification arrives, which may be nil.
  pub data CatalogEvent : Type 0 where
    received : Option PackageUpdateAggregator → CatalogEvent
    stopped : CatalogEvent
    meanwhile : (E.State → E.State) → CatalogEvent

  -- The case of a notification; an error of Trigger is only logged.
  abbrev pub receive : Option PackageUpdateAggregator → E.State → E.State
  receive none s = s
  receive (some notification) s = (trigger E notification s).1

  unfoldable pub sync_catalog : List CatalogEvent → Eff E.State Loop
  sync_catalog [] s = (selecting, s)
  sync_catalog (stopped ∷ events) s = (ended, s)
  sync_catalog (meanwhile f ∷ events) s = sync_catalog events (f s)
  sync_catalog (received notification ∷ events) s = sync_catalog events (receive notification s)
