-- ===== src/Common/Sorting.antt =====
-- Go's sort.Strings: texts in the order of their characters. Two lists have the same sorted list
-- exactly if one is a permutation of the other.
use Prim.Native.Nat.{compare, Ordering}
use Prim.Native.Char.{code}
use Prim.Native.String.{String}
use mathlib.Core.Path.{◌≡◌, refl, sym, ap, ◌∙◌, subst}
use mathlib.Core.Logic.{◌↔◌, inl, inr}
use mathlib.Core.Bool.{Bool, true, false, ◌||◌}
use mathlib.Core.List.{List, [], ◌∷◌, Permᴰ}
use mathlib.Core.List.Permᴰ
use native.Mathlib.Omega.{arith}
use text.Mathlib.TextEquality.{codes_equal}
use operator_marketplace.Common.Tests.{if◌then◌else◌, Bool-cases}

-- s <= t in Go. The order of the characters' numbers is that of their bytes in UTF-8.
unfoldable pub text_leb : String → String → Bool
text_leb String.[] t = true
text_leb (String.◌∷◌ c s) String.[] = false
text_leb (String.◌∷◌ c s) (String.◌∷◌ d t) =
    let rest = text_leb s t in
    elim (compare (code c) (code d)) [
      | Ordering.lt ↦ true
      | Ordering.eq ↦ rest
      | Ordering.gt ↦ false
    ]

text_leb_total : (s t : String) → (text_leb s t || text_leb t s) ≡ true
unfolding text_leb
text_leb_total String.[] t = refl
text_leb_total (String.◌∷◌ c s) String.[] = refl
text_leb_total (String.◌∷◌ c s) (String.◌∷◌ d t) = ground (arith, text_leb_total s t)

text_leb_antisym : (s t : String) → text_leb s t ≡ true → text_leb t s ≡ true → s ≡ t
unfolding text_leb
text_leb_antisym String.[] String.[] p q = refl
text_leb_antisym String.[] (String.◌∷◌ d t) p q = cc
text_leb_antisym (String.◌∷◌ c s) String.[] p q = cc
text_leb_antisym (String.◌∷◌ c s) (String.◌∷◌ d t) p q =
    ground (arith, text_leb_antisym s t, codes_equal c d)

text_leb_trans : (s t u : String) → text_leb s t ≡ true → text_leb t u ≡ true → text_leb s u ≡ true
unfolding text_leb
text_leb_trans String.[] t u p q = refl
text_leb_trans (String.◌∷◌ c s) String.[] u p q = cc
text_leb_trans (String.◌∷◌ c s) (String.◌∷◌ d t) String.[] p q = cc
text_leb_trans (String.◌∷◌ c s) (String.◌∷◌ d t) (String.◌∷◌ e u) p q =
    ground (arith, text_leb_trans s t u)

-- Insertion in front of the first text that is not smaller.
abbrev place : String → List String → List String
place x [] = x ∷ []
place x (y ∷ ys) = let rest = place x ys in if text_leb x y then x ∷ y ∷ ys else y ∷ rest

-- sort.Strings
unfoldable pub sort : List String → List String
sort [] = []
sort (x ∷ xs) = place x (sort xs)

place_comm : (x y : String) (zs : List String) → place x (place y zs) ≡ place y (place x zs)
place_comm x y [] = ground (arith, text_leb_total x y, text_leb_antisym x y)
place_comm x y (z ∷ zs) = ground (
  arith,
  place_comm x y zs,
  text_leb_total x y,
  text_leb_antisym x y,
  text_leb_trans x y z,
  text_leb_trans y x z,
  text_leb_total x z,
  text_leb_total y z,
)

sort-Perm : {xs ys : List String} → Permᴰ xs ys → sort xs ≡ sort ys
unfolding sort
sort-Perm Permᴰ.nil = refl
sort-Perm (Permᴰ.cons {l₂ = l} e p) = rw (sort-Perm p) (ap (λ x. place x (sort l)) e)
sort-Perm (Permᴰ.swap {a = a} {b = b} {a' = a'} {b' = b'} {l = l} e f) =
    place_comm a b (sort l)
    ∙ ap (λ x. place x (place a (sort l))) f
    ∙ ap (λ x. place a' (place x (sort l))) e
sort-Perm (Permᴰ.trans p q) = sort-Perm p ∙ sort-Perm q

place-Perm : (x : String) (ys : List String) → Permᴰ (x ∷ ys) (place x ys)
place-Perm x [] = Permᴰ.cons refl Permᴰ.nil
place-Perm x (y ∷ ys) = elim (Bool-cases (text_leb x y)) [
  | inl e ↦ rw e (Permᴰ.refl (x ∷ y ∷ ys))
  | inr e ↦ rw e (Permᴰ.trans (Permᴰ.swap refl refl) (Permᴰ.cons refl (place-Perm x ys)))
]

pub Perm-sort : (xs : List String) → Permᴰ xs (sort xs)
unfolding sort
Perm-sort [] = Permᴰ.nil
Perm-sort (x ∷ xs) = Permᴰ.trans (Permᴰ.cons refl (Perm-sort xs)) (place-Perm x (sort xs))

pub sort_iff : (xs ys : List String) → (sort xs ≡ sort ys) ↔ Permᴰ xs ys
sort_iff xs ys = (
  (λ e. Permᴰ.trans (Perm-sort xs) (subst (λ l. Permᴰ l ys) (sym e) (Permᴰ.symm (Perm-sort ys)))),
  (λ p. sort-Perm p),
)
