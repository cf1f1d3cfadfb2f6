-- ===== src/Configs/Triggerer/Changed.antt =====
-- What a package that a notification calls updated means for the packages of a config.
use operator_marketplace.Common.{
  String, ◌≡◌, refl, ◌≢◌, Bool, true, false, ◌||◌, List, [], ◌∷◌, All, arith, ◌==◌, eq_iff, eq_refl,
  Bool-cases, inl, inr, contains, not, is_some, is_empty,
}
use operator_marketplace.Common.Text.{split, join, IsFree, split-IsFree, split-join}
use operator_marketplace.Datastore.Update.{PackageUpdateAggregator, is_updated_or_removed}
use operator_marketplace.Common.Maps.{Map, lookup}
use operator_marketplace.Configs.Triggerer.Needed.{kept, affected}

module _ (notification : PackageUpdateAggregator) (pkg : String) where
  pub affected-contains :
      (ids : List String)
      → contains pkg ids ≡ true
      → is_some (lookup pkg notification.updated) ≡ true
      → affected notification ids ≡ true
  unfolding contains
  affected-contains [] h u = cc
  affected-contains (id ∷ ids) h u = elim (Bool-cases (id == pkg)) [
    | inl e ↦ rw ((eq_iff id pkg).0 e, u) (ground arith)
    | inr e ↦ rw (affected-contains ids (rw e at h) u) (ground arith)
  ]

  pub contains-kept :
      (ids : List String)
      → contains pkg ids ≡ true
      → is_some (lookup pkg notification.removed) ≡ false
      → contains pkg (kept notification ids) ≡ true
  unfolding contains
  contains-kept [] h r = cc
  contains-kept (id ∷ ids) h r = elim (Bool-cases (id == pkg)) [
    | inl e ↦ rw ((eq_iff id pkg).0 e, r) (rw (eq_refl pkg) refl)
    | inr e ↦ elim (Bool-cases (is_some (lookup id notification.removed))) [
      | inl q ↦ rw q (contains-kept ids (rw e at h) r)
      | inr q ↦ rw (q, e) (contains-kept ids (rw e at h) r)
    ]
  ]

  kept-All : (P : String → Type 0) (ids : List String) → All P ids → All P (kept notification ids)
  kept-All P [] h = tt
  kept-All P (id ∷ ids) h = elim (Bool-cases (is_some (lookup id notification.removed))) [
    | inl q ↦ rw q (kept-All P ids h.1)
    | inr q ↦ rw q (h.0, kept-All P ids h.1)
  ]

  contains-nonempty : (ids : List String) → contains pkg ids ≡ true → ids ≢ []
  unfolding contains
  contains-nonempty [] h e = cc
  contains-nonempty (id ∷ ids) h e = cc

  -- The text of the packages that stay reads as these packages.
  pub split-kept :
      (packages : String)
      → contains pkg (split "," packages) ≡ true
      → is_some (lookup pkg notification.removed) ≡ false
      → split "," (join "," (kept notification (split "," packages)))
        ≡ kept notification (split "," packages)
  split-kept packages h r =
      split-join "," (kept notification (split "," packages))
        (contains-nonempty (kept notification (split "," packages))
          (contains-kept (split "," packages) h r))
        (kept-All (IsFree ",") (split "," packages) (split-IsFree "," packages))

  pub updated-is_updated_or_removed :
      is_some (lookup pkg notification.updated) ≡ true → is_updated_or_removed notification ≡ true
  unfolding is_updated_or_removed lookup
  updated-is_updated_or_removed h = nonempty notification.updated h
    where
      nonempty :
          (m : Map Bool)
          → is_some (lookup pkg m) ≡ true
          → (not (is_empty notification.removed) || not (is_empty m)) ≡ true
      nonempty [] h = cc
      nonempty (e ∷ m) h = ground arith
