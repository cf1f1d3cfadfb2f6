-- ===== src/Common/Maps.antt =====
-- Go's maps with text keys, as association lists. A `range` over a map visits the entries in the
-- order of the list. A list may have any order, so a theorem about every list holds for every
-- order that Go's runtime may choose.
use Prim.Native.String.{String}
use mathlib.Core.Path.{◌≡◌, refl, subst, ap}
use mathlib.Core.Logic.{◌⊎◌, inl, inr}
use mathlib.Core.Bool.{true, false}
use mathlib.Core.Option.{Option, none, some}
use mathlib.Core.List.{List, [], ◌∷◌, Memᴰ}
use native.Mathlib.Omega.{arith}
use text.Mathlib.Text.{◌==◌}
use text.Mathlib.TextEquality.{eq_iff}
use text.Mathlib.TextPositions.{eq_refl}
use operator_marketplace.Common.Tests.{if◌then◌else◌, Bool-cases, eq-cases, eq_sym_false}
use operator_marketplace.Common.Lists.{All}

abbrev pub Map {ℓ} : Type ℓ → Type ℓ
Map V = List (String × V)

module _ {ℓ} {V : Type ℓ} where
  -- v, ok := m[k]
  unfoldable pub lookup : String → Map V → Option V
  lookup key [] = none
  lookup key ((at_key, v) ∷ m) = if at_key == key then some v else lookup key m

  -- m[k] = v
  unfoldable pub insert : String → V → Map V → Map V
  insert key v [] = (key, v) ∷ []
  insert key v ((at_key, held) ∷ m) =
      if at_key == key then (key, v) ∷ m else (at_key, held) ∷ insert key v m

  -- delete(m, k)
  unfoldable pub delete : String → Map V → Map V
  delete key [] = []
  delete key ((at_key, held) ∷ m) =
      let rest = delete key m in if at_key == key then rest else (at_key, held) ∷ rest

  -- for _, v := range m
  abbrev pub values : Map V → List V
  values [] = []
  values ((key, v) ∷ m) = v ∷ values m

  -- No entry has the key.
  abbrev pub IsFresh : String → Map V → Type ℓ
  IsFresh key [] = Unit
  IsFresh key ((at_key, v) ∷ m) = ((at_key == key) ≡ false) × IsFresh key m

  abbrev pub UniqueKeys : Map V → Type ℓ
  UniqueKeys [] = Unit
  UniqueKeys ((key, v) ∷ m) = IsFresh key m × UniqueKeys m

  pub lookup-insert :
      (key at_key : String) (v : V) (m : Map V)
      → lookup at_key (insert key v m) ≡ (if key == at_key then some v else lookup at_key m)
  unfolding lookup insert
  lookup-insert key at_key v [] = refl
  lookup-insert key at_key v ((i, held) ∷ m) =
      ground (arith, eq_iff key at_key, eq_iff i key, eq_iff i at_key, lookup-insert key at_key v m)

  pub lookup-insert_self : (key : String) (v : V) (m : Map V) → lookup key (insert key v m) ≡ some v
  lookup-insert_self key v m = simp (lookup-insert, eq_refl)

  pub lookup-delete :
      (key at_key : String) (m : Map V)
      → lookup at_key (delete key m) ≡ (if key == at_key then none else lookup at_key m)
  unfolding lookup delete
  lookup-delete key at_key [] = ground arith
  lookup-delete key at_key ((i, held) ∷ m) =
      ground (arith, eq_iff key at_key, eq_iff i key, eq_iff i at_key, lookup-delete key at_key m)

  -- The entry of the key is gone, and no other has come, gone or changed.
  abbrev pub IsWithout : String → Map V → Map V → Type ℓ
  IsWithout key before after =
      (at_key : String)
      → lookup at_key after ≡ (if key == at_key then none else lookup at_key before)

  pub lookup-delete_self : (key : String) (m : Map V) → lookup key (delete key m) ≡ none
  lookup-delete_self key m = simp (lookup-delete, eq_refl)

  pub lookup_fresh : (key : String) (m : Map V) → IsFresh key m → lookup key m ≡ none
  unfolding lookup
  lookup_fresh key [] h = refl
  lookup_fresh key ((at_key, v) ∷ m) h = rw h.0 (lookup_fresh key m h.1)

  -- An entry in front does not hide one of another key.
  pub lookup_later :
      (at_key : String) (held : V) (m : Map V) (key : String) (v : V)
      → IsFresh at_key m
      → lookup key m ≡ some v
      → lookup key ((at_key, held) ∷ m) ≡ some v
  unfolding lookup
  lookup_later at_key held m key v f h = elim (eq-cases at_key key) [
    | inl e ↦ cc (h, lookup_fresh at_key m f, ap (λ k. lookup k m) e.1)
    | inr e ↦ rw e.0 h
  ]

  -- Every entry of a map is what its key gives.
  pub All-lookup_self :
      (full m : Map V)
      → UniqueKeys m
      → ((key : String) (v : V) → lookup key m ≡ some v → lookup key full ≡ some v)
      → All (λ e. lookup e.0 full ≡ some e.1) m
  unfolding lookup
  All-lookup_self full [] u f = tt
  All-lookup_self full ((key, v) ∷ m) u f = (
    f key v (rw (eq_refl key) refl),
    All-lookup_self full m u.1 (λ k x h. f k x (lookup_later key v m k x u.0 h)),
  )

  pub IsFresh-of_lookup : (key : String) (m : Map V) → lookup key m ≡ none → IsFresh key m
  unfolding lookup
  IsFresh-of_lookup key [] h = tt
  IsFresh-of_lookup key ((at_key, v) ∷ m) h = elim (Bool-cases (at_key == key)) [
    | inl e ↦ cc (rw e at h)
    | inr e ↦ (e, IsFresh-of_lookup key m (rw e at h))
  ]

  pub mem_of_lookup : (key : String) (v : V) (m : Map V) → lookup key m ≡ some v → Memᴰ (key, v) m
  unfolding lookup
  mem_of_lookup key v [] h = cc
  mem_of_lookup key v ((at_key, held) ∷ m) h = elim (eq-cases at_key key) [
    | inl e ↦ Memᴰ.head (cc (e.1, rw e.0 at h))
    | inr e ↦ Memᴰ.tail (mem_of_lookup key v m (rw e.0 at h))
  ]

  IsFresh-insert :
      (i key : String) (v : V) (m : Map V)
      → (key == i) ≡ false
      → IsFresh i m
      → IsFresh i (insert key v m)
  unfolding insert
  IsFresh-insert i key v [] h f = (h, tt)
  IsFresh-insert i key v ((at_key, held) ∷ m) h f = elim (Bool-cases (at_key == key)) [
    | inl e ↦ rw e (h, f.1)
    | inr e ↦ rw e (f.0, IsFresh-insert i key v m h f.1)
  ]

  pub insert-UniqueKeys :
      (key : String) (v : V) (m : Map V) → UniqueKeys m → UniqueKeys (insert key v m)
  unfolding insert
  insert-UniqueKeys key v [] u = (tt, tt)
  insert-UniqueKeys key v ((at_key, held) ∷ m) u = elim (eq-cases at_key key) [
    | inl e ↦ rw e.0 (rw e.1 at u)
    | inr e ↦ rw e.0 (
      IsFresh-insert at_key key v m (eq_sym_false at_key key e.0) u.0,
      insert-UniqueKeys key v m u.1,
    )
  ]

  IsFresh-delete : (i key : String) (m : Map V) → IsFresh i m → IsFresh i (delete key m)
  unfolding delete
  IsFresh-delete i key [] f = tt
  IsFresh-delete i key ((at_key, held) ∷ m) f = elim (Bool-cases (at_key == key)) [
    | inl e ↦ rw e (IsFresh-delete i key m f.1)
    | inr e ↦ rw e (f.0, IsFresh-delete i key m f.1)
  ]

  pub delete-UniqueKeys : (key : String) (m : Map V) → UniqueKeys m → UniqueKeys (delete key m)
  unfolding delete
  delete-UniqueKeys key [] u = tt
  delete-UniqueKeys key ((at_key, held) ∷ m) u = elim (Bool-cases (at_key == key)) [
    | inl e ↦ rw e (delete-UniqueKeys key m u.1)
    | inr e ↦ rw e (IsFresh-delete at_key key m u.0, delete-UniqueKeys key m u.1)
  ]

  same :
      {at_key key : String} {v held : V}
      → at_key ≡ key
      → some held ≡ some v
      → ◌≡◌ {A = String × V} (at_key, held) (key, v)
  same p q = cc

  module _ {κ} (P : String × V → Type κ) where
    All-fresh :
        (key : String) (m : Map V)
        → IsFresh key m
        → All (λ e. ((e.0 == key) ≡ true) ⊎ P e) m
        → All P m
    All-fresh key [] f h = tt
    All-fresh key ((at_key, held) ∷ m) f h = (given h.0, All-fresh key m f.1 h.1)
      where
        given : ((at_key == key) ≡ true) ⊎ P (at_key, held) → P (at_key, held)
        given (inl e) = cc (e, f.0)
        given (inr q) = q

    pub All-insert :
        (key : String) (v : V) (m : Map V) → P (key, v) → All P m → All P (insert key v m)
    unfolding insert
    All-insert key v [] p h = (p, tt)
    All-insert key v ((at_key, held) ∷ m) p h = elim (Bool-cases (at_key == key)) [
      | inl e ↦ rw e (p, h.1)
      | inr e ↦ rw e (h.0, All-insert key v m p h.1)
    ]

    pub All-delete : (key : String) (m : Map V) → All P m → All P (delete key m)
    unfolding delete
    All-delete key [] h = tt
    All-delete key ((at_key, held) ∷ m) h = elim (Bool-cases (at_key == key)) [
      | inl e ↦ rw e (All-delete key m h.1)
      | inr e ↦ rw e (h.0, All-delete key m h.1)
    ]

    pub All-lookup :
        (key : String) (v : V) (m : Map V) → All P m → lookup key m ≡ some v → P (key, v)
    unfolding lookup
    All-lookup key v [] h e = cc
    All-lookup key v ((at_key, held) ∷ m) h e = elim (eq-cases at_key key) [
      | inl p ↦ subst P (same p.1 (rw p.0 at e)) h.0
      | inr p ↦ All-lookup key v m h.1 (rw p.0 at e)
    ]

    -- Only the entries of other keys need the predicate.
    pub All-insert_except :
        (key : String) (v : V) (m : Map V)
        → UniqueKeys m
        → P (key, v)
        → All (λ e. ((e.0 == key) ≡ true) ⊎ P e) m
        → All P (insert key v m)
    unfolding insert
    All-insert_except key v [] u p h = (p, tt)
    All-insert_except key v ((at_key, held) ∷ m) u p h = elim (eq-cases at_key key) [
      | inl e ↦ rw e.0 (p, All-fresh key m (rw e.1 at u.0) h.1)
      | inr e ↦ rw e.0 (other at_key held e.0 h.0, All-insert_except key v m u.1 p h.1)
    ]
      where
        other :
            (at_key : String) (held : V)
            → (at_key == key) ≡ false
            → ((at_key == key) ≡ true) ⊎ P (at_key, held)
            → P (at_key, held)
        other at_key held n (inl e) = cc
        other at_key held n (inr q) = q
