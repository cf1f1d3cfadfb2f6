-- ===== src/Datastore/Written.antt =====
-- What the store offers after a Write.
use operator_marketplace.Common.{
  String, ◌≡◌, ◌⊎◌, refl, inl, inr, ◌∙◌, true, false, ◌||◌, some, List, [], ◌∷◌, All, arith, ◌==◌,
  eq_iff, Bool-cases, contains, contains-append, map,
}
use operator_marketplace.Common.Maps.{
  Map, lookup, insert, values, UniqueKeys, lookup-insert_self, All-insert, All-insert_except,
}
use operator_marketplace.Common.Errors.{ok}
use operator_marketplace.Api.OperatorSource.{OperatorSource}
use operator_marketplace.Datastore.{Datastore, new_repository, repositories_of, write, read}
use operator_marketplace.Datastore.Metadata.{
  RegistryMetadata, OpsrcRef, Repository, OperatorSourceRow, package_of, get_packages,
}
use operator_marketplace.Datastore.Rows.{RowMap, new_row, add_row, get_all_packages}
use operator_marketplace.Datastore.Invariant.{source_ref, IsValidRepository, repositories_of-valid}
use operator_marketplace.Datastore.Reading.{HasRef, RowHasRef, read-ref, or_false}

abbrev pub repository_of : RegistryMetadata → String
repository_of m = m.repository

abbrev packages_in : Map Repository → List String
packages_in reps = map package_of (values reps)

abbrev IsNamed : String × Repository → Type 0
IsNamed entry = entry.1.package_name ≡ entry.0

contains-packages_in-insert :
    (pkg k : String) (r : Repository) (reps : Map Repository)
    → All IsNamed reps
    → r.package_name ≡ k
    → contains pkg (packages_in (insert k r reps)) ≡ (k == pkg || contains pkg (packages_in reps))
unfolding insert contains
contains-packages_in-insert pkg k r [] h e = ground arith
contains-packages_in-insert pkg k r ((j, w) ∷ reps) h e =
    ground (arith, h.0, eq_iff j k, contains-packages_in-insert pkg k r reps h.1 e)

contains-repositories_of :
    (pkg : String) (o : OperatorSource) (ms : List RegistryMetadata) (acc : Map Repository)
    → All IsNamed acc
    → contains pkg (packages_in (repositories_of o ms acc))
      ≡ (contains pkg (map repository_of ms) || contains pkg (packages_in acc))
unfolding repositories_of contains
contains-repositories_of pkg o [] acc h = refl
contains-repositories_of pkg o (m ∷ ms) acc h =
    let r = new_repository o m in
    ground (
      arith,
      contains-repositories_of pkg o ms (insert m.repository r acc)
          (All-insert IsNamed m.repository r acc refl h),
      contains-packages_in-insert pkg m.repository r acc h refl,
    )

-- The packages of a source's new row are the repositories that were written.
pub contains-packages_written :
    (pkg : String) (o : OperatorSource) (ms : List RegistryMetadata)
    → contains pkg (get_packages (new_row o (repositories_of o ms [])))
      ≡ contains pkg (map repository_of ms)
unfolding get_packages new_row contains
contains-packages_written pkg o ms =
    contains-repositories_of pkg o ms [] tt ∙ or_false (contains pkg (map repository_of ms))

pub contains-get_all_packages :
    (pkg uid : String) (row : OperatorSourceRow) (m : RowMap)
    → lookup uid m ≡ some row
    → contains pkg (get_packages row) ≡ true
    → contains pkg (get_all_packages m) ≡ true
unfolding get_all_packages lookup
contains-get_all_packages pkg uid row [] e h = cc
contains-get_all_packages pkg uid row ((j, w) ∷ m) e h = ground (
  arith,
  contains-append pkg (get_packages w) (get_all_packages m),
  contains-get_all_packages pkg uid row m,
)

-- After a Write, what was written is among the packages of the store.
pub contains-write :
    (pkg : String) (o : OperatorSource) (ms : List RegistryMetadata) (ds : Datastore)
    → contains pkg (map repository_of ms) ≡ true
    → contains pkg (get_all_packages (write (some o) (some ms) ds).1.rows) ≡ true
unfolding write add_row
contains-write pkg o ms ds h =
    let row = new_row o (repositories_of o ms []) in
    contains-get_all_packages pkg o.meta.uid row (insert o.meta.uid row ds.rows)
      (lookup-insert_self o.meta.uid row ds.rows) (contains-packages_written pkg o ms ∙ h)

-- Every row but the source's own lacks the package: a repository belongs to one source only.
abbrev pub IsExclusive : String → OperatorSource → Datastore → Type 0
IsExclusive pkg o ds =
    All (λ e. ((e.0 == o.meta.uid) ≡ true) ⊎ (contains pkg (get_packages e.1) ≡ false)) ds.rows

HasRef-lacking :
    (pkg : String) (ref : OpsrcRef) (rs : List Repository)
    → contains pkg (map package_of rs) ≡ false
    → All (HasRef pkg ref) rs
unfolding contains
HasRef-lacking pkg ref [] h = tt
HasRef-lacking pkg ref (r ∷ rs) h = elim (Bool-cases (r.package_name == pkg)) [
  | inl e ↦ cc (rw e at h)
  | inr e ↦ (inl e, HasRef-lacking pkg ref rs (rw e at h))
]

HasRef-owned :
    (pkg : String) (ref : OpsrcRef) (reps : Map Repository)
    → All (IsValidRepository ref) reps
    → All (HasRef pkg ref) (values reps)
HasRef-owned pkg ref [] h = tt
HasRef-owned pkg ref ((k, r) ∷ reps) h = (inr h.0.owned, HasRef-owned pkg ref reps h.1)

others-RowHasRef :
    (pkg : String) (o : OperatorSource) (ref : OpsrcRef) (m : RowMap)
    → All (λ e. ((e.0 == o.meta.uid) ≡ true) ⊎ (contains pkg (get_packages e.1) ≡ false)) m
    → All (λ e. ((e.0 == o.meta.uid) ≡ true) ⊎ RowHasRef pkg ref e) m
unfolding get_packages
others-RowHasRef pkg o ref [] h = tt
others-RowHasRef pkg o ref ((uid, row) ∷ m) h = (one h.0, others-RowHasRef pkg o ref m h.1)
  where
    one :
        ((uid == o.meta.uid) ≡ true) ⊎ (contains pkg (get_packages row) ≡ false)
        → ((uid == o.meta.uid) ≡ true) ⊎ RowHasRef pkg ref (uid, row)
    one (inl e) = inl e
    one (inr n) = inr (HasRef-lacking pkg ref (values row.repositories) n)

-- After a source has written its repositories, Read of one of them names that source, if no other
-- source of the store offers the package.
pub read-write :
    (pkg : String) (o : OperatorSource) (ms : List RegistryMetadata) (ds : Datastore)
    → UniqueKeys ds.rows
    → IsExclusive pkg o ds
    → contains pkg (map repository_of ms) ≡ true
    → read pkg (write (some o) (some ms) ds).1 ≡ ok (source_ref o)
unfolding write add_row
read-write pkg o ms ds u x c =
    read-ref pkg (source_ref o) _
      (All-insert_except (RowHasRef pkg (source_ref o)) o.meta.uid
        (new_row o (repositories_of o ms [])) ds.rows u
        (unfold new_row in
          HasRef-owned pkg (source_ref o) (repositories_of o ms [])
            (repositories_of-valid o ms [] tt))
        (others-RowHasRef pkg o (source_ref o) ds.rows x))
      (contains-get_all_packages pkg o.meta.uid (new_row o (repositories_of o ms [])) _
        (lookup-insert_self o.meta.uid _ ds.rows) (contains-packages_written pkg o ms ∙ c))
