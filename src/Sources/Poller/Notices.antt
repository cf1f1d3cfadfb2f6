-- ===== src/Sources/Poller/Notices.antt =====
-- The notification that a round of polling (pkg/operatorsource/poller.go) ends with.
use operator_marketplace.Common.{◌≡◌, true, Option, none, some, List, [], ◌∷◌, Bool-cases, inl, inr}
use operator_marketplace.Common.Errors.{Result, ok, err}
use operator_marketplace.Datastore.{get_all_operator_sources}
use operator_marketplace.Datastore.Metadata.{OperatorSourceKey}
use operator_marketplace.Datastore.Update.{
  UpdateResult, PackageUpdateAggregator, is_updated_or_removed,
}
use operator_marketplace.Cluster.{Environment}
use operator_marketplace.Sources.World.{World, Action}
use operator_marketplace.Sources.Poller.{
  Round, sent, round_panicked, OtherGoroutines, send_notification, poll_source, poll_sources, poll,
}

-- A notification that is sent lists a package.
abbrev pub IsNotice : Option PackageUpdateAggregator → Type 0
IsNotice none = Unit
IsNotice (some notification) = is_updated_or_removed notification ≡ true

abbrev pub IsAnnounced : Round → Type 0
IsAnnounced round_panicked = Unit
IsAnnounced (sent notification) = IsNotice notification

module _ (E : Environment) where
  send_notification-IsAnnounced :
      (a : PackageUpdateAggregator) → IsAnnounced (send_notification E a)
  unfolding send_notification
  send_notification-IsAnnounced a = elim (Bool-cases (is_updated_or_removed a)) [
    | inl e ↦ rw (e, send_notification) e
    | inr e ↦ rw (e, send_notification) tt
  ]

  continued-IsAnnounced :
      (source : OperatorSourceKey) (a : PackageUpdateAggregator)
      (continue : PackageUpdateAggregator → Action E Round) (r : Result (Option UpdateResult))
      (w : World E)
      → ((b : PackageUpdateAggregator) (v : World E) → IsAnnounced (continue b v).0)
      → IsAnnounced (poll_source E source a continue r w).0
  continued-IsAnnounced source a continue (err e) w h = h a w
  continued-IsAnnounced source a continue (ok none) w h = tt
  continued-IsAnnounced source a continue (ok (some result)) w h =
      elim (Bool-cases result.registry_has_update) [ inl e ↦ rw e (h _ _) | inr e ↦ rw e (h _ _) ]

  module _ (others : OtherGoroutines E) where
    poll_sources-IsAnnounced :
        (sources : List OperatorSourceKey) (a : PackageUpdateAggregator) (w : World E)
        → IsAnnounced (poll_sources E others sources a w).0
    unfolding poll_sources
    poll_sources-IsAnnounced [] a w = send_notification-IsAnnounced a
    poll_sources-IsAnnounced (source ∷ rest) a w =
        continued-IsAnnounced source a (poll_sources E others rest) _ _
          (poll_sources-IsAnnounced rest)

    pub poll-IsAnnounced : (w : World E) → IsAnnounced (poll E others w).0
    unfolding poll
    poll-IsAnnounced w = poll_sources-IsAnnounced (get_all_operator_sources w.store) _ w
