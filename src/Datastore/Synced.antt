-- ===== src/Datastore/Synced.antt =====
-- A poll right after a Write of what the registry lists finds no update.
use operator_marketplace.Common.{
  String, ◌≡◌, refl, ap, ◌∙◌, true, false, none, some, List, [], ◌∷◌, All, arith, eq_refl, contains,
  map,
}
use operator_marketplace.Common.Maps.{
  Map, lookup, insert, lookup-insert, lookup-insert_self, All-insert,
}
use operator_marketplace.Api.OperatorSource.{OperatorSource}
use operator_marketplace.Datastore.{Datastore, new_repository, repositories_of, write}
use operator_marketplace.Datastore.Metadata.{RegistryMetadata, Repository, OperatorSourceRow}
use operator_marketplace.Datastore.Rows.{new_row, add_row, get_row}
use operator_marketplace.Datastore.Update.{UpdateResult}
use operator_marketplace.Datastore.HasUpdate.{operator_source_has_update}
use operator_marketplace.Datastore.Written.{repository_of}
use operator_marketplace.Datastore.Verdict.{
  all_current, all_listed, AllReleased, has_update_verdict,
}

-- No repository is listed twice.
abbrev pub UniqueNames : List RegistryMetadata → Type 0
UniqueNames [] = Unit
UniqueNames (m ∷ ms) = (contains m.repository (map repository_of ms) ≡ false) × UniqueNames ms

module _ (o : OperatorSource) where
  lookup-repositories_of_absent :
      (k : String) (ms : List RegistryMetadata) (acc : Map Repository)
      → contains k (map repository_of ms) ≡ false
      → lookup k (repositories_of o ms acc) ≡ lookup k acc
  unfolding repositories_of contains
  lookup-repositories_of_absent k [] acc h = refl
  lookup-repositories_of_absent k (m ∷ ms) acc h = ground (
    arith,
    lookup-repositories_of_absent k ms (insert m.repository (new_repository o m) acc),
    lookup-insert m.repository k (new_repository o m) acc,
  )

  all_current_written :
      (row : OperatorSourceRow) (ms : List RegistryMetadata) (acc : Map Repository)
      → UniqueNames ms
      → row.repositories ≡ repositories_of o ms acc
      → all_current row ms ≡ true
  unfolding repositories_of
  all_current_written row [] acc u e = refl
  all_current_written row (m ∷ ms) acc u e =
      let next = insert m.repository (new_repository o m) acc in
      let found : lookup m.repository row.repositories ≡ some (new_repository o m) =
        ap (lookup m.repository) e
        ∙ lookup-repositories_of_absent m.repository ms next u.0
        ∙ lookup-insert_self m.repository (new_repository o m) acc in
      rw (found, all_current_written row ms next u.1 e)
        (unfold new_repository in rw (eq_refl m.release))

  All-repositories_of :
      (P : String × Repository → Type 0) (ms : List RegistryMetadata) (acc : Map Repository)
      → All (λ m. P (m.repository, new_repository o m)) ms
      → All P acc
      → All P (repositories_of o ms acc)
  unfolding repositories_of
  All-repositories_of P [] acc h a = a
  All-repositories_of P (m ∷ ms) acc h a =
      All-repositories_of P ms _ h.1 (All-insert P m.repository (new_repository o m) acc h.0 a)

abbrev IsListed : List RegistryMetadata → String × Repository → Type 0
IsListed ms e = contains e.0 (map repository_of ms) ≡ true

all_listed_of_All :
    (ms : List RegistryMetadata) (reps : Map Repository)
    → All (IsListed ms) reps
    → all_listed ms reps ≡ true
all_listed_of_All ms [] h = refl
all_listed_of_All ms ((k, r) ∷ reps) h = rw (h.0, all_listed_of_All ms reps h.1)

contains-cons :
    (k : String) (m : RegistryMetadata) (ms : List RegistryMetadata)
    → contains k (map repository_of ms) ≡ true
    → contains k (map repository_of (m ∷ ms)) ≡ true
unfolding contains
contains-cons k m ms h = ground arith

All-listed_self :
    (full ms : List RegistryMetadata)
    → ((k : String)
        → contains k (map repository_of ms) ≡ true
        → contains k (map repository_of full) ≡ true)
    → All (λ m. contains m.repository (map repository_of full) ≡ true) ms
All-listed_self full [] h = tt
All-listed_self full (m ∷ ms) h = (
  h m.repository (unfold contains in rw (eq_refl m.repository)),
  All-listed_self full ms (λ k c. h k (contains-cons k m ms c)),
)

-- Right after a Write of a list in which each repository stands once and has a release, a
-- comparison with the same list ends with no error and says that there is no update.
pub write-no_update :
    (o : OperatorSource) (ms : List RegistryMetadata) (ds : Datastore)
    → AllReleased ms
    → UniqueNames ms
    → (r : UpdateResult) × (operator_source_has_update o.meta.uid ms (write (some o) (some ms) ds).1
        ≡ (some r, none))
      × (r.registry_has_update ≡ false)
unfolding write add_row get_row new_row
write-no_update o ms ds rel u =
    let row = new_row o (repositories_of o ms []) in
    let (r, done, says, _) =
      has_update_verdict ms o.meta.uid (record { rows = insert o.meta.uid row ds.rows }) row
        (lookup-insert_self o.meta.uid row ds.rows) rel in
    let current = all_current_written o row ms [] u refl in
    let listed =
      all_listed_of_All ms (repositories_of o ms [])
        (All-repositories_of o (IsListed ms) ms [] (All-listed_self ms ms (λ k c. c)) tt) in
    (r, done, says ∙ rw (current, listed))
