-- ===== src/Syncers/Ends.antt =====
-- That the loops of the syncers end when they see the closed stop channel, and what they have done
-- by then.
use mathlib.Core.Path.{subst}
use operator_marketplace.Common.{
  ◌≡◌, refl, sym, ◌≢◌, Option, none, some, List, [], ◌∷◌, All, All-append,
}
use operator_marketplace.Datastore.Update.{PackageUpdateAggregator}
use operator_marketplace.Datastore.Invariant.{IsValid}
use operator_marketplace.Cluster.{Environment}
use operator_marketplace.Sources.World.{World}
use operator_marketplace.Sources.Poller.{Round, sent, round_panicked, OtherGoroutines, poll}
use operator_marketplace.Sources.Poller.Rounds.{
  KeepsValid, KeepValid, KeepRows, poll-IsValid, poll-Calm,
}
use operator_marketplace.Sources.Poller.Notices.{IsNotice, IsAnnounced, poll-IsAnnounced}
use operator_marketplace.Syncers.{Loop, ended, RegistryEvent, send, sync_registry}

module _ (E : Environment) where
  -- The stop channel is closed at some time; until then the other goroutines keep the datastore
  -- well-formed, and during a round they remove no row between the two reads of a comparison.
  abbrev pub IsStopped : List (RegistryEvent E) → Type 0
  IsStopped [] = ⊥
  IsStopped (RegistryEvent.stopped ∷ events) = Unit
  IsStopped (RegistryEvent.interval_over others ∷ events) =
      KeepValid E others × KeepRows E others × IsStopped events
  IsStopped (RegistryEvent.meanwhile f ∷ events) = KeepsValid E f × IsStopped events

  abbrev pub AreNotices : List PackageUpdateAggregator → Type 0
  AreNotices = All (λ notification. IsNotice (some notification))

  pub send-AreNotices :
      (notification : Option PackageUpdateAggregator) (pending : List PackageUpdateAggregator)
      → IsNotice notification
      → AreNotices pending
      → AreNotices (send E notification pending)
  send-AreNotices none pending n h = h
  send-AreNotices (some notification) pending n h =
      All-append (λ x. IsNotice (some x)) pending (notification ∷ []) h (n, tt)

  -- The world when the loop sees the stop.
  abbrev pub until_stop : List (RegistryEvent E) → World E → World E
  until_stop [] w = w
  until_stop (RegistryEvent.stopped ∷ events) w = w
  until_stop (RegistryEvent.interval_over others ∷ events) w = until_stop events (poll E others w).1
  until_stop (RegistryEvent.meanwhile f ∷ events) w = until_stop events (f w)

  pub record IsEnd (events : List (RegistryEvent E)) (w : World E)
      (r : (Loop × List PackageUpdateAggregator) × World E) : Type 0 where
    pub returned : r.0.0 ≡ ended
    pub notices : AreNotices r.0.1
    pub world : r.1 ≡ until_stop events w

  -- The loop goes on after a round.
  polled :
      (others : OtherGoroutines E) (events : List (RegistryEvent E))
      (pending : List PackageUpdateAggregator) (w : World E)
      → (poll E others w).0 ≢ round_panicked
      → (n : Option PackageUpdateAggregator) × IsNotice n
        × (sync_registry E (RegistryEvent.interval_over others ∷ events) pending w
            ≡ sync_registry E events (send E n pending) (poll E others w).1)
  unfolding sync_registry
  polled others events pending w calm =
      go (poll E others w).0 calm (poll-IsAnnounced E others w) refl
    where
      go :
          (r : Round)
          → r ≢ round_panicked
          → IsAnnounced r
          → (poll E others w).0 ≡ r
          → (n : Option PackageUpdateAggregator) × IsNotice n
            × (sync_registry E (RegistryEvent.interval_over others ∷ events) pending w
                ≡ sync_registry E events (send E n pending) (poll E others w).1)
      go round_panicked q i e = absurd (q refl)
      go (sent n) q i e = (n, i, rw (e, sync_registry) refl)

  sync_registry-IsEnd :
      (events : List (RegistryEvent E)) (pending : List PackageUpdateAggregator) (w : World E)
      → IsValid w.store
      → IsStopped events
      → AreNotices pending
      → IsEnd events w (sync_registry E events pending w)
  unfolding sync_registry
  sync_registry-IsEnd [] pending w v h p = absurd h
  sync_registry-IsEnd (RegistryEvent.stopped ∷ events) pending w v h p = record {
    returned = refl;
    notices = p;
    world = refl;
  }
  sync_registry-IsEnd (RegistryEvent.meanwhile f ∷ events) pending w v h p =
      let i = sync_registry-IsEnd events pending (f w) (h.0 w v) h.1 p in
      record { returned = i.returned; notices = i.notices; world = i.world }
  sync_registry-IsEnd (RegistryEvent.interval_over others ∷ events) pending w v h p =
      let (valid, rows, later) = h in
      let (n, notice, e) = polled others events pending w (poll-Calm E others valid rows w v) in
      let i =
        sync_registry-IsEnd events (send E n pending) (poll E others w).1
          (poll-IsValid E others valid w v) later (send-AreNotices n pending notice p) in
      subst (λ r. IsEnd (RegistryEvent.interval_over others ∷ events) w r) (sym e)
        (record { returned = i.returned; notices = i.notices; world = i.world })

  -- From a well-formed datastore, if the other goroutines keep it so, between the rounds and during
  -- them, and remove no row after HasUpdate has looked a source up until it compares: Sync of the
  -- registry syncer returns once the stop channel is closed. It has polled once for each interval
  -- before that and has panicked in none of the rounds, and each notification that it has sent lists
  -- a package.
  pub sync_registry_ends :
      (events : List (RegistryEvent E)) (w : World E)
      → IsValid w.store
      → IsStopped events
      → IsEnd events w (sync_registry E events [] w)
  sync_registry_ends events w v h = sync_registry-IsEnd events [] w v h tt
