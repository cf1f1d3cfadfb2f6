-- ===== src/Datastore/Counted.antt =====
-- The count that Write (pkg/datastore/datastore.go) returns, against the packages that the row of the
-- operator source offers after it.
use operator_marketplace.Common.{
  suc, ◌+◌, ◌≤◌, String, ◌≡◌, ◌↔◌, refl, ap, ◌∙◌, false, some, List, [], ◌∷◌, All, arith, ◌==◌,
  if◌then◌else◌, Bool-cases, inl, inr, contains, map, length, is_some, eq_iff,
}
use operator_marketplace.Common.Maps.{
  Map, lookup, insert, values, lookup-insert, lookup-insert_self,
}
use operator_marketplace.Api.OperatorSource.{OperatorSource}
use operator_marketplace.Datastore.{Datastore, new_repository, repositories_of, write}
use operator_marketplace.Datastore.Metadata.{
  RegistryMetadata, Repository, OperatorSourceRow, package_of, get_packages,
}
use operator_marketplace.Datastore.Rows.{new_row, add_row, get_row}
use operator_marketplace.Datastore.Written.{repository_of}
use operator_marketplace.Datastore.Synced.{UniqueNames}

module _ {ℓ} {V : Type ℓ} where
  length-insert :
      (key : String) (v : V) (m : Map V)
      → length (insert key v m) ≡ (if is_some (lookup key m) then length m else suc (length m))
  unfolding insert lookup
  length-insert key v [] = refl
  length-insert key v ((k, held) ∷ m) = elim (Bool-cases (k == key)) [
    | inl e ↦ rw e refl
    | inr e ↦ rw e (ap suc (length-insert key v m) ∙ ground arith)
  ]

-- No repository of the list is in the map.
abbrev AreNew : List RegistryMetadata → Map Repository → Type 0
AreNew ms acc = All (λ m. is_some (lookup m.repository acc) ≡ false) ms

module _ (o : OperatorSource) where
  length-repositories_of :
      (ms : List RegistryMetadata) (acc : Map Repository)
      → length (repositories_of o ms acc) ≤ length ms + length acc
  unfolding repositories_of
  length-repositories_of [] acc = ground arith
  length-repositories_of (m ∷ ms) acc = ground (
    arith,
    length-repositories_of ms (insert m.repository (new_repository o m) acc),
    length-insert m.repository (new_repository o m) acc,
  )

  AreNew-insert :
      (key : String) (v : Repository) (ms : List RegistryMetadata) (acc : Map Repository)
      → AreNew ms (insert key v acc)
        ↔ ((contains key (map repository_of ms) ≡ false) × AreNew ms acc)
  unfolding contains
  AreNew-insert key v [] acc = (λ h. (refl, tt), λ h. tt)
  AreNew-insert key v (m ∷ ms) acc =
      let rest = AreNew-insert key v ms acc in
      let found = lookup-insert key m.repository v acc in
      (
        λ h.
            let (absent, new) = rest.0 h.1 in
            (
              ground (arith, eq_iff key m.repository, eq_iff m.repository key, found, h.0, absent),
              (ground (arith, found, h.0), new),
            ),
        λ (absent, h). (
          ground (arith, eq_iff key m.repository, eq_iff m.repository key, found, h.0, absent),
          rest.1 (ground arith, h.1),
        ),
      )

  repositories_of_full :
      (ms : List RegistryMetadata) (acc : Map Repository)
      → (length (repositories_of o ms acc) ≡ length ms + length acc)
        ↔ (UniqueNames ms × AreNew ms acc)
  unfolding repositories_of
  repositories_of_full [] acc = (λ h. (tt, tt), λ h. ground arith)
  repositories_of_full (m ∷ ms) acc =
      let next = insert m.repository (new_repository o m) acc in
      let rest = repositories_of_full ms next in
      let new = AreNew-insert m.repository (new_repository o m) ms acc in
      let grows = length-insert m.repository (new_repository o m) acc in
      (
        λ h. elim (Bool-cases (is_some (lookup m.repository acc))) [
          | inl e ↦ absurd (ground (arith, length-repositories_of ms next, grows, e, h))
          | inr e ↦
              let (unique, later) = rest.0 (ground (arith, grows, e, h)) in
              let (absent, others) = new.0 later in ((absent, unique), (e, others))
        ],
        λ ((absent, unique), (e, others)).
            let full = rest.1 (unique, new.1 (absent, others)) in ground (arith, full, grows, e),
      )

length-values : (reps : Map Repository) → length (map package_of (values reps)) ≡ length reps
length-values [] = refl
length-values ((k, r) ∷ reps) = ap suc (length-values reps)

AreNew-nil : (ms : List RegistryMetadata) → AreNew ms []
unfolding lookup
AreNew-nil [] = tt
AreNew-nil (m ∷ ms) = (refl, AreNew-nil ms)

-- Write of a list for an operator source: the row of the source offers at most as many packages as
-- the count that Write returns, and as many exactly if no repository is listed twice.
pub write_count :
    (o : OperatorSource) (ms : List RegistryMetadata) (ds : Datastore)
    → let ((count, error), ds') = write (some o) (some ms) ds in
      (row : OperatorSourceRow) × (get_row o.meta.uid ds'.rows ≡ some row)
      × (length (get_packages row) ≤ count)
      × ((length (get_packages row) ≡ count) ↔ UniqueNames ms)
unfolding write add_row get_row new_row get_packages
write_count o ms ds =
    let reps = repositories_of o ms [] in
    let row = new_row o reps in
    let full = repositories_of_full o ms [] in
    (
      row,
      lookup-insert_self o.meta.uid row ds.rows,
      ground (arith, length-repositories_of o ms [], length-values reps),
      (
        λ h. (full.0 (ground (arith, length-values reps, h))).0,
        λ u. length-values reps ∙ full.1 (u, AreNew-nil ms) ∙ ground arith,
      ),
    )
