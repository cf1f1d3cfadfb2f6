-- ===== src/Datastore/Unordered.antt =====
-- The store without the order of its rows, which a Go map does not have: what it offers does not
-- depend on that order, and calls for different operator sources can be made in either order.
use mathlib.Core.Bool.{Bool-set}
use mathlib.Core.Quot
use mathlib.Core.Quot.{Quot, Quot-set}
use operator_marketplace.Common.{
  String, ◌≡◌, refl, sym, ap, ◌∙◌, Bool, true, false, Option, none, some, [], ◌∷◌, ◌==◌, eq_iff,
  arith, if◌then◌else◌, contains, contains-append, Bool-cases, inl, inr, eq_refl,
}
use operator_marketplace.Common.Maps.{
  lookup, lookup-insert, lookup-delete, lookup_later, UniqueKeys,
}
use operator_marketplace.Datastore.{
  Datastore, write, add_operator_source, remove_operator_source, repositories_of, read,
  get_operator_source,
}
use operator_marketplace.Datastore.Metadata.{OperatorSourceRow, OperatorSourceKey, get_packages}
use operator_marketplace.Datastore.Rows.{
  RowMap, new_row, add_row, add_empty_row, remove_row, get_row, get_all_packages,
}
use operator_marketplace.Datastore.Invariant.{
  IsValid, Call, writes, adds, removes, call, call-IsValid,
}
use operator_marketplace.Datastore.Reading.{is_ok, read-is_ok}
use operator_marketplace.Datastore.Written.{contains-get_all_packages}

-- The row that a call sets or removes, with its UID.
abbrev pub touched : Call → Option (String × Option OperatorSourceRow)
touched (writes (some o) (some ms)) = some (o.meta.uid, some (new_row o (repositories_of o ms [])))
touched (writes _ _) = none
touched (adds o) = some (o.meta.uid, some (new_row o []))
touched (removes uid) = some (uid, none)

abbrev override :
    Option (String × Option OperatorSourceRow)
    → String
    → Option OperatorSourceRow
    → Option OperatorSourceRow
override none uid old = old
override (some (at_uid, new)) uid old = if at_uid == uid then new else old

-- A call changes the row of one UID.
lookup-call :
    (c : Call) (ds : Datastore) (uid : String)
    → lookup uid (call c ds).rows ≡ override (touched c) uid (lookup uid ds.rows)
unfolding write add_operator_source remove_operator_source add_empty_row add_row remove_row
lookup-call (writes none ms) ds uid = refl
lookup-call (writes (some o) none) ds uid = refl
lookup-call (writes (some o) (some ms)) ds uid = lookup-insert o.meta.uid uid _ ds.rows
lookup-call (adds o) ds uid = lookup-insert o.meta.uid uid _ ds.rows
lookup-call (removes at_uid) ds uid = lookup-delete at_uid uid ds.rows

-- Some UID has a row that offers the package.
abbrev Offered : String → RowMap → Type 0
Offered pkg m =
    (uid : String) × (row : OperatorSourceRow) × (lookup uid m ≡ some row)
    × (contains pkg (get_packages row) ≡ true)

Offered-get_all_packages :
    (pkg : String) (m : RowMap)
    → UniqueKeys m
    → contains pkg (get_all_packages m) ≡ true
    → Offered pkg m
unfolding get_all_packages contains lookup
Offered-get_all_packages pkg [] u h = cc
Offered-get_all_packages pkg ((uid, row) ∷ m) u h =
    elim (Bool-cases (contains pkg (get_packages row))) [
      | inl e ↦ (uid, row, rw (eq_refl uid) refl, e)
      | inr e ↦ later (
          Offered-get_all_packages pkg m u.1
            (ground (arith, contains-append pkg (get_packages row) (get_all_packages m))))
    ]
  where
    later : Offered pkg m → Offered pkg ((uid, row) ∷ m)
    later (v, r, l, o) = (v, r, lookup_later uid row m v r u.0 l, o)

-- Well-formed stores, which are one if each UID has the same row in both.
abbrev Store : Type 0
Store = (ds : Datastore) × IsValid ds

abbrev SameRows : Store → Store → Type 0
SameRows a b = (uid : String) → lookup uid a.0.rows ≡ lookup uid b.0.rows

abbrev pub Contents : Type 0
Contents = Quot SameRows

offers_more :
    (pkg : String) (a b : Store)
    → SameRows a b
    → contains pkg (get_all_packages a.0.rows) ≡ true
    → contains pkg (get_all_packages b.0.rows) ≡ true
offers_more pkg a b same h =
    let (uid, row, l, o) = Offered-get_all_packages pkg a.0.rows a.1.unique h in
    contains-get_all_packages pkg uid row b.0.rows (sym (same uid) ∙ l) o

read-SameRows :
    (pkg : String) (a b : Store) → SameRows a b → is_ok (read pkg a.0) ≡ is_ok (read pkg b.0)
read-SameRows pkg a b same =
    read-is_ok pkg a.0
    ∙ both _ _ (offers_more pkg a b same) (offers_more pkg b a (λ uid. sym (same uid)))
    ∙ sym (read-is_ok pkg b.0)
  where
    both : (p q : Bool) → (p ≡ true → q ≡ true) → (q ≡ true → p ≡ true) → p ≡ q
    both true q f g = sym (f refl)
    both false true f g = g refl
    both false false f g = refl

-- Whether Read finds the package.
pub reads : String → Contents → Bool
reads pkg = Quot.lift Bool-set (λ a. is_ok (read pkg a.0)) (read-SameRows pkg)

call-SameRows :
    (c : Call) (a b : Store)
    → SameRows a b
    → SameRows (call c a.0, call-IsValid c a.0 a.1) (call c b.0, call-IsValid c b.0 b.1)
call-SameRows c a b same uid =
    lookup-call c a.0 uid ∙ ap (override (touched c) uid) (same uid) ∙ sym (lookup-call c b.0 uid)

pub after : Call → Contents → Contents
after c =
    Quot.lift Quot-set (λ a. Quot.mk (call c a.0, call-IsValid c a.0 a.1))
      (λ a b same. Quot.sound (call-SameRows c a b same))

-- The contents of a well-formed store.
pub contents : (ds : Datastore) → IsValid ds → Contents
contents ds v = Quot.mk (ds, v)

-- The calls are for different operator sources, or change nothing.
abbrev Differ :
    Option (String × Option OperatorSourceRow) → Option (String × Option OperatorSourceRow) → Type 0
Differ none d = Unit
Differ (some c) none = Unit
Differ (some (u, new)) (some (v, other)) = (u == v) ≡ false

abbrev pub AreApart : Call → Call → Type 0
AreApart c d = Differ (touched c) (touched d)

override_comm :
    (c d : Option (String × Option OperatorSourceRow)) (uid : String)
    (old : Option OperatorSourceRow)
    → Differ c d
    → override c uid (override d uid old) ≡ override d uid (override c uid old)
override_comm none d uid old h = refl
override_comm (some c) none uid old h = refl
override_comm (some (u, new)) (some (v, other)) uid old h =
    ground (arith, eq_iff u uid, eq_iff v uid, eq_iff u v)

call-call :
    (c d : Call) (ds : Datastore) (uid : String)
    → lookup uid (call c (call d ds)).rows
      ≡ override (touched c) uid (override (touched d) uid (lookup uid ds.rows))
call-call c d ds uid =
    lookup-call c (call d ds) uid ∙ ap (override (touched c) uid) (lookup-call d ds uid)

call_comm :
    (c d : Call) (ds : Datastore) (uid : String)
    → AreApart c d
    → lookup uid (call c (call d ds)).rows ≡ lookup uid (call d (call c ds)).rows
call_comm c d ds uid h =
    call-call c d ds uid
    ∙ override_comm (touched c) (touched d) uid (lookup uid ds.rows) h
    ∙ sym (call-call d c ds uid)

after_comm :
    (c d : Call) → AreApart c d → (q : Contents) → after c (after d q) ≡ after d (after c q)
unfolding after
after_comm c d h = Quot.ind (λ q. Quot-set _ _) (λ a. Quot.sound (λ uid. call_comm c d a.0 uid h))

abbrev key_of_row : Option OperatorSourceRow → Option OperatorSourceKey
key_of_row none = none
key_of_row (some row) = some row.key

-- Two calls of Write, AddOperatorSource and RemoveOperatorSource for different operator sources, on
-- a well-formed store, give the same contents in either order: each UID has the same row, and Read
-- succeeds for the same packages.
pub calls_apart :
    (c d : Call) (ds : Datastore) (v : IsValid ds)
    → AreApart c d
    → (after c (after d (contents ds v)) ≡ after d (after c (contents ds v)))
      × ((uid : String)
          → get_operator_source uid (call c (call d ds))
            ≡ get_operator_source uid (call d (call c ds)))
      × ((pkg : String)
          → is_ok (read pkg (call c (call d ds))) ≡ is_ok (read pkg (call d (call c ds))))
unfolding after contents reads get_operator_source get_row
calls_apart c d ds v h =
    let same = after_comm c d h (contents ds v) in
    (same, λ uid. ap key_of_row (call_comm c d ds uid h), λ pkg. ap (reads pkg) same)
