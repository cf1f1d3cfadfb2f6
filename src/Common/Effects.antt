-- ===== src/Common/Effects.antt =====
-- A function that reads and changes a state, and the sequencing of two of them. Go's error values
-- are part of the results, so a step has no other way to fail.
abbrev pub Eff : Type 0 → Type 0 → Type 0
Eff S A = S → A × S

infixl 5 ◌>>=◌ ◌>>◌
abbrev pub ◌>>=◌ : {S A B : Type 0} → Eff S A → (A → Eff S B) → Eff S B
◌>>=◌ m f s = let (a, s') = m s in f a s'

abbrev pub ◌>>◌ : {S A B : Type 0} → Eff S A → Eff S B → Eff S B
m >> n = m >>= λ _. n

abbrev pub pure : {S A : Type 0} → A → Eff S A
pure a s = (a, s)
