-- ===== src/Datastore/Verdict.antt =====
-- What OperatorSourceHasUpdate decides, against a description of local and remote being in sync.
use operator_marketplace.Common.{
  String, ◌≡◌, refl, ◌∙◌, Bool, true, false, not, ◌&&◌, ◌||◌, Option, none, some, List, [], ◌∷◌,
  ◌++◌, All, arith, ◌==◌, if◌then◌else◌, contains, map, is_some, is_empty, is_empty-append,
}
use operator_marketplace.Common.Maps.{Map, lookup, insert, values, lookup-insert}
use operator_marketplace.Datastore.{Datastore}
use operator_marketplace.Datastore.Metadata.{
  RegistryMetadata, Repository, OperatorSourceRow, package_of, get_packages,
}
use operator_marketplace.Datastore.Rows.{get_row}
use operator_marketplace.Datastore.Update.{UpdateResult, new_update_result}
use operator_marketplace.Datastore.HasUpdate.{
  note_remote, scan_remotes, remote_map, scan_locals, conclude, operator_source_has_update,
}
use operator_marketplace.Datastore.Written.{repository_of}

-- The local repository of this name, if any, has the release.
abbrev has_release : Option Repository → String → Bool
has_release none release = false
has_release (some local) release = local.metadata.release == release

-- Each remote repository is stored with exactly the remote's release.
abbrev pub all_current : OperatorSourceRow → List RegistryMetadata → Bool
all_current row [] = true
all_current row (m ∷ ms) =
    has_release (lookup m.repository row.repositories) m.release && all_current row ms

-- Each stored repository is still in the remote registry.
abbrev pub all_listed : List RegistryMetadata → Map Repository → Bool
all_listed ms [] = true
all_listed ms ((name, r) ∷ reps) = contains name (map repository_of ms) && all_listed ms reps

-- Every remote states its release.
abbrev pub AllReleased : List RegistryMetadata → Type 0
AllReleased = All (λ m. (m.release == "") ≡ false)

-- Nothing has been found so far.
abbrev quiet : UpdateResult → Bool
quiet r = not r.registry_has_update && is_empty r.updated

is_empty-map : (rs : List Repository) → is_empty (map package_of rs) ≡ is_empty rs
is_empty-map [] = refl
is_empty-map (r ∷ rs) = refl

stored_nonempty :
    (k : String) (r : Repository) (reps : Map Repository)
    → lookup k reps ≡ some r
    → is_empty (values reps) ≡ false
unfolding lookup
stored_nonempty k r [] e = cc
stored_nonempty k r ((j, w) ∷ reps) e = refl

module _ (row : OperatorSourceRow) where
  quiet-note_remote :
      (m : RegistryMetadata) (o : Option Repository) (r : UpdateResult)
      → lookup m.repository row.repositories ≡ o
      → quiet (note_remote row m o r) ≡ (quiet r && has_release o m.release)
  unfolding note_remote get_packages
  quiet-note_remote m none r e = ground arith
  quiet-note_remote m (some local) r e = ground (
    arith,
    is_empty-append r.updated (map package_of (values row.repositories)),
    is_empty-map (values row.repositories),
    stored_nonempty m.repository local row.repositories e,
  )

  removed-note_remote :
      (m : RegistryMetadata) (o : Option Repository) (r : UpdateResult)
      → (note_remote row m o r).removed ≡ r.removed
  unfolding note_remote
  removed-note_remote m none r = refl
  removed-note_remote m (some local) r = ground arith

  scan_remotes_lem :
      (ms : List RegistryMetadata) (r : UpdateResult)
      → AllReleased ms
      → (r' : UpdateResult) × (scan_remotes row ms r ≡ (r', none))
        × (quiet r' ≡ (quiet r && all_current row ms))
        × (r'.removed ≡ r.removed)
  unfolding scan_remotes
  scan_remotes_lem [] r h = (r, refl, ground arith, refl)
  scan_remotes_lem (m ∷ ms) r h =
      let o = lookup m.repository row.repositories in
      let (r', scanned, quiet', removed') = scan_remotes_lem ms (note_remote row m o r) h.1 in
      (
        r',
        rw h.0 scanned,
        ground (arith, quiet', quiet-note_remote m o r refl),
        removed' ∙ removed-note_remote m o r,
      )

pub lookup-remote_map :
    (k : String) (ms : List RegistryMetadata) (acc : Map RegistryMetadata)
    → is_some (lookup k (remote_map ms acc))
      ≡ (contains k (map repository_of ms) || is_some (lookup k acc))
unfolding remote_map contains lookup
lookup-remote_map k [] acc = refl
lookup-remote_map k (m ∷ ms) acc =
    ground (
      arith,
      lookup-remote_map k ms (insert m.repository m acc),
      lookup-insert m.repository k m acc,
    )

module _ (ms : List RegistryMetadata) where
  scan_locals_lem :
      (reps : Map Repository) (r : UpdateResult)
      → let r' = scan_locals (remote_map ms []) reps r in
        (quiet r' ≡ quiet r) × (is_empty r'.removed ≡ (is_empty r.removed && all_listed ms reps))
  unfolding scan_locals lookup
  scan_locals_lem [] r = (refl, ground arith)
  scan_locals_lem ((name, local) ∷ reps) r =
      let found = is_some (lookup name (remote_map ms [])) in
      let longer : UpdateResult = record r { removed = r.removed ++ (local.package_name ∷ []) } in
      let (quiet', removed') = scan_locals_lem reps (if found then r else longer) in
      (
        ground (arith, quiet'),
        ground (
          arith,
          removed',
          lookup-remote_map name ms [],
          is_empty-append r.removed (local.package_name ∷ []),
        ),
      )

  -- With every release stated and the operator source stored, OperatorSourceHasUpdate ends with no
  -- error, and its result says "no update" exactly when each remote repository is stored with the
  -- remote's release and each stored repository is still remote. The list of removed packages is
  -- empty exactly when each stored repository is still remote.
  pub has_update_verdict :
      (uid : String) (ds : Datastore) (row : OperatorSourceRow)
      → get_row uid ds.rows ≡ some row
      → AllReleased ms
      → (r : UpdateResult) × (operator_source_has_update uid ms ds ≡ (some r, none))
        × (r.registry_has_update ≡ not (all_current row ms && all_listed ms row.repositories))
        × (is_empty r.removed ≡ all_listed ms row.repositories)
  unfolding operator_source_has_update
  has_update_verdict uid ds row e h =
      let (r, scanned, quiet', removed') = scan_remotes_lem row ms new_update_result h in
      let (quiet'', removed'') = scan_locals_lem row.repositories r in
      (
        conclude (scan_locals (remote_map ms []) row.repositories r),
        rw (e, operator_source_has_update) (rw scanned),
        ground (arith, quiet', removed', quiet'', removed''),
        ground (arith, quiet', removed', quiet'', removed''),
      )
