-- ===== src/Datastore/Differences.antt =====
-- Which packages OperatorSourceHasUpdate (pkg/datastore/datastore.go) lists as updated and as removed.
use operator_marketplace.Common.{
  String, ◌≡◌, refl, ap, ◌∙◌, Bool, true, false, not, ◌&&◌, ◌||◌, Option, none, some, List, [], ◌∷◌,
  ◌++◌, arith, ◌==◌, if◌then◌else◌, contains, contains-append, map, is_some,
}
use operator_marketplace.Common.Maps.{Map, lookup}
use operator_marketplace.Datastore.{Datastore}
use operator_marketplace.Datastore.Metadata.{
  RegistryMetadata, Repository, OperatorSourceRow, get_packages,
}
use operator_marketplace.Datastore.Rows.{get_row}
use operator_marketplace.Datastore.Update.{UpdateResult, new_update_result}
use operator_marketplace.Datastore.HasUpdate.{
  note_remote, scan_remotes, remote_map, scan_locals, conclude, operator_source_has_update,
}
use operator_marketplace.Datastore.Written.{repository_of}
use operator_marketplace.Datastore.Verdict.{all_current, AllReleased, lookup-remote_map}

-- The local repository of this name has another release.
abbrev other_release : Option Repository → String → Bool
other_release none release = false
other_release (some local) release = not (local.metadata.release == release)

-- Some remote repository is stored with another release.
abbrev pub has_new_release : OperatorSourceRow → List RegistryMetadata → Bool
has_new_release row [] = false
has_new_release row (m ∷ ms) =
    other_release (lookup m.repository row.repositories) m.release || has_new_release row ms

-- The packages of the stored repositories that are no longer remote.
abbrev pub gone : List RegistryMetadata → Map Repository → List String
gone ms [] = []
gone ms ((name, local) ∷ reps) =
    let rest = gone ms reps in
    if contains name (map repository_of ms) then rest else local.package_name ∷ rest

module _ (row : OperatorSourceRow) (pkg : String) where
  note_remote-updated :
      (m : RegistryMetadata) (o : Option Repository) (r : UpdateResult)
      → (contains pkg (note_remote row m o r).updated ≡ (
          contains pkg r.updated || other_release o m.release && contains pkg (get_packages row)))
        × ((note_remote row m o r).removed ≡ r.removed)
  unfolding note_remote
  note_remote-updated m none r = (ground arith, refl)
  note_remote-updated m (some local) r =
      (ground (arith, contains-append pkg r.updated (get_packages row)), ground arith)

  scan_remotes-updated :
      (ms : List RegistryMetadata) (r : UpdateResult)
      → AllReleased ms
      → (r' : UpdateResult) × (scan_remotes row ms r ≡ (r', none))
        × (contains pkg r'.updated
            ≡ (contains pkg r.updated || has_new_release row ms && contains pkg (get_packages row)))
        × (r'.removed ≡ r.removed)
  unfolding scan_remotes
  scan_remotes-updated [] r h = (r, refl, ground arith, refl)
  scan_remotes-updated (m ∷ ms) r h =
      let o = lookup m.repository row.repositories in
      let (r', scanned, updated', removed') = scan_remotes-updated ms (note_remote row m o r) h.1 in
      let (updated, removed) = note_remote-updated m o r in
      (r', rw h.0 scanned, ground (arith, updated', updated), removed' ∙ removed)

module _ (ms : List RegistryMetadata) (pkg : String) where
  scan_locals-removed :
      (reps : Map Repository) (r : UpdateResult)
      → let r' = scan_locals (remote_map ms []) reps r in
        (r'.updated ≡ r.updated)
        × (contains pkg r'.removed ≡ (contains pkg r.removed || contains pkg (gone ms reps)))
  unfolding scan_locals lookup contains
  scan_locals-removed [] r = (refl, ground arith)
  scan_locals-removed ((name, local) ∷ reps) r =
      let found = is_some (lookup name (remote_map ms [])) in
      let longer : UpdateResult = record r { removed = r.removed ++ (local.package_name ∷ []) } in
      let (updated, removed) = scan_locals-removed reps (if found then r else longer) in
      (
        updated ∙ ground arith,
        ground (
          arith,
          removed,
          lookup-remote_map name ms [],
          contains-append pkg r.removed (local.package_name ∷ []),
        ),
      )

conclude-lists :
    (r : UpdateResult) → ((conclude r).updated ≡ r.updated) × ((conclude r).removed ≡ r.removed)
unfolding conclude
conclude-lists r = (ground arith, ground arith)

-- With every release stated and the operator source stored, OperatorSourceHasUpdate ends with no
-- error. It lists a package as removed exactly when it is that of a stored repository that is no
-- longer remote. It lists a package as updated exactly when the row offers the package and some
-- repository of the row, of this package or of another, is remote with another release.
pub has_update_lists :
    (ms : List RegistryMetadata) (uid : String) (ds : Datastore) (row : OperatorSourceRow)
    (pkg : String)
    → get_row uid ds.rows ≡ some row
    → AllReleased ms
    → (r : UpdateResult) × (operator_source_has_update uid ms ds ≡ (some r, none))
      × (contains pkg r.updated ≡ (has_new_release row ms && contains pkg (get_packages row)))
      × (contains pkg r.removed ≡ contains pkg (gone ms row.repositories))
unfolding operator_source_has_update contains new_update_result conclude
has_update_lists ms uid ds row pkg e h =
    let (r, scanned, updated, removed) = scan_remotes-updated row pkg ms new_update_result h in
    let (updated', removed') = scan_locals-removed ms pkg row.repositories r in
    (
      conclude (scan_locals (remote_map ms []) row.repositories r),
      rw (e, operator_source_has_update) (rw scanned),
      ap (contains pkg) (conclude-lists (scan_locals (remote_map ms []) row.repositories r)).0
          ∙ ap (contains pkg) updated'
          ∙ updated,
      ap (contains pkg) (conclude-lists (scan_locals (remote_map ms []) row.repositories r)).1
          ∙ removed'
          ∙ ap (λ l. contains pkg l || contains pkg (gone ms row.repositories)) removed,
    )

-- A new release is a difference between the row and the listing.
pub has_new_release-differs :
    (row : OperatorSourceRow) (ms : List RegistryMetadata)
    → has_new_release row ms ≡ true
    → all_current row ms ≡ false
has_new_release-differs row [] h = cc
has_new_release-differs row (m ∷ ms) h =
    go (lookup m.repository row.repositories) refl h (has_new_release-differs row ms)
  where
    go :
        (o : Option Repository)
        → lookup m.repository row.repositories ≡ o
        → (other_release o m.release || has_new_release row ms) ≡ true
        → (has_new_release row ms ≡ true → all_current row ms ≡ false)
        → all_current row (m ∷ ms) ≡ false
    go none e q f = rw e refl
    go (some local) e q f = rw e (ground (arith, q, f))
