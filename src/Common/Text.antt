-- ===== src/Common/Text.antt =====
-- Go's strings package, as far as the operators use it: Split and Join at a separator of one
-- character, Contains, TrimSuffix, and EqualFold over a case folding that is a parameter.
pub mod Contains
use Prim.Native.Nat.{compare, Ordering}
use Prim.Native.Char.{Char, code}
use Prim.Native.String.{String, ◌++◌ as ◌<>◌}
use mathlib.Core.Path.{◌≡◌, refl, sym, ap}
use mathlib.Core.Logic.{◌≢◌, inl, inr}
use mathlib.Core.Bool.{Bool, true, false, ◌&&◌, ◌||◌}
use mathlib.Core.List.{List, [], ◌∷◌}
use native.Mathlib.Omega.{arith}
use text.Mathlib.Text.{starts_with}
use text.Mathlib.TextEquality.{Char-path}
use text.Mathlib.TextLemmas.{nil-append, cons-append}
use operator_marketplace.Common.Tests.{if◌then◌else◌, Bool-cases}
use operator_marketplace.Common.Lists.{All}

abbrev pub char_eq : Char → Char → Bool
char_eq c d = elim (compare (code c) (code d)) [ Ordering.eq ↦ true | _ ↦ false ]

char_eq→eq : (c d : Char) → char_eq c d ≡ true → c ≡ d
char_eq→eq c d h = Char-path c d (ground arith)

-- A character in front of the first word.
abbrev push : Char → List String → List String
push c [] = String.◌∷◌ c "" ∷ []
push c (w ∷ ws) = String.◌∷◌ c w ∷ ws

-- strings.Split(s, sep)
unfoldable pub split : Char → String → List String
split sep String.[] = "" ∷ []
split sep (String.◌∷◌ c s) =
    let rest = split sep s in if char_eq c sep then "" ∷ rest else push c rest

-- strings.Join(words, sep)
unfoldable pub join : Char → List String → String
join sep [] = ""
join sep (w ∷ []) = w
join sep (w ∷ v ∷ ws) = w <> String.◌∷◌ sep (join sep (v ∷ ws))

-- No character of the text is the separator.
abbrev pub IsFree : Char → String → Type 0
IsFree sep String.[] = Unit
IsFree sep (String.◌∷◌ c s) = (char_eq c sep ≡ false) × IsFree sep s

-- strings.Contains(s, sub)
unfoldable pub contains_text : String → String → Bool
contains_text String.[] sub = starts_with "" sub
contains_text (String.◌∷◌ c s) sub = starts_with (String.◌∷◌ c s) sub || contains_text s sub

-- strings.TrimSuffix(s, sep)
unfoldable pub trim_suffix : Char → String → String
trim_suffix sep String.[] = ""
trim_suffix sep (String.◌∷◌ c String.[]) = if char_eq c sep then "" else String.◌∷◌ c ""
trim_suffix sep (String.◌∷◌ c (String.◌∷◌ d s)) = String.◌∷◌ c (trim_suffix sep (String.◌∷◌ d s))

-- strings.ToLower, over the lower case of a character.
unfoldable pub to_lower : (Char → Char) → String → String
to_lower lower String.[] = ""
to_lower lower (String.◌∷◌ c s) = String.◌∷◌ (lower c) (to_lower lower s)

-- strings.EqualFold, over the simple case folding of a character.
unfoldable pub equal_fold : (Char → Char) → String → String → Bool
equal_fold fold String.[] String.[] = true
equal_fold fold String.[] (String.◌∷◌ d t) = false
equal_fold fold (String.◌∷◌ c s) String.[] = false
equal_fold fold (String.◌∷◌ c s) (String.◌∷◌ d t) = char_eq (fold c) (fold d) && equal_fold fold s t

pub equal_fold_refl : (fold : Char → Char) (s : String) → equal_fold fold s s ≡ true
unfolding equal_fold
equal_fold_refl fold String.[] = refl
equal_fold_refl fold (String.◌∷◌ c s) = ground (arith, equal_fold_refl fold s)

push-ne-nil : (c : Char) (ws : List String) → push c ws ≢ []
push-ne-nil c [] e = cc
push-ne-nil c (w ∷ ws) e = cc

pub split-ne-nil : (sep : Char) (s : String) → split sep s ≢ []
unfolding split
split-ne-nil sep String.[] = λ e. cc
split-ne-nil sep (String.◌∷◌ c s) = elim (Bool-cases (char_eq c sep)) [
  | inl p ↦ rw p (λ e. cc)
  | inr p ↦ rw p (push-ne-nil c (split sep s))
]

join-cons :
    (sep : Char) (w : String) (ws : List String)
    → ws ≢ []
    → join sep (w ∷ ws) ≡ w <> String.◌∷◌ sep (join sep ws)
unfolding join
join-cons sep w [] h = absurd (h refl)
join-cons sep w (v ∷ ws) h = refl

join-push : (sep c : Char) (ws : List String) → join sep (push c ws) ≡ String.◌∷◌ c (join sep ws)
unfolding join
join-push sep c [] = refl
join-push sep c (w ∷ []) = refl
join-push sep c (w ∷ v ∷ ws) = cons-append c w _

-- Joining what Split made gives the text back.
pub join-split : (sep : Char) (s : String) → join sep (split sep s) ≡ s
unfolding split
join-split sep String.[] = unfold join in refl
join-split sep (String.◌∷◌ c s) = elim (Bool-cases (char_eq c sep)) [
  | inl p ↦ rw p (
      rw (join-cons sep "" (split sep s) (split-ne-nil sep s), nil-append, join-split sep s)
        (ap (λ d. String.◌∷◌ d s) (sym (char_eq→eq c sep p))))
  | inr p ↦ rw (p, join-push sep c (split sep s), join-split sep s)
]

split_free : (sep : Char) (w : String) → IsFree sep w → split sep w ≡ w ∷ []
unfolding split
split_free sep String.[] h = refl
split_free sep (String.◌∷◌ c w) h = rw (h.0, split_free sep w h.1)

split-append_free :
    (sep : Char) (w t : String) → IsFree sep w → split sep (w <> String.◌∷◌ sep t) ≡ w ∷ split sep t
unfolding split
split-append_free sep String.[] t h = rw nil-append (ground arith)
split-append_free sep (String.◌∷◌ c w) t h =
    rw (cons-append c w (String.◌∷◌ sep t), h.0, split-append_free sep w t h.1)

-- Splitting what Join made gives the words back, if there is one and none has a separator.
pub split-join :
    (sep : Char) (ws : List String) → ws ≢ [] → All (IsFree sep) ws → split sep (join sep ws) ≡ ws
split-join sep [] h free = absurd (h refl)
split-join sep (w ∷ []) h free = unfold join in split_free sep w free.0
split-join sep (w ∷ v ∷ ws) h free =
    rw (join-cons sep w (v ∷ ws) (λ e. cc), split-append_free sep w _ free.0)
      (ap (λ us. w ∷ us) (split-join sep (v ∷ ws) (λ e. cc) free.1))

All-push :
    (sep c : Char) (ws : List String)
    → char_eq c sep ≡ false
    → All (IsFree sep) ws
    → All (IsFree sep) (push c ws)
All-push sep c [] h a = ((h, tt), tt)
All-push sep c (w ∷ ws) h a = ((h, a.0), a.1)

-- No word that Split makes has the separator.
pub split-IsFree : (sep : Char) (s : String) → All (IsFree sep) (split sep s)
unfolding split
split-IsFree sep String.[] = (tt, tt)
split-IsFree sep (String.◌∷◌ c s) = elim (Bool-cases (char_eq c sep)) [
  | inl p ↦ rw p (tt, split-IsFree sep s)
  | inr p ↦ rw p (All-push sep c (split sep s) p (split-IsFree sep s))
]
