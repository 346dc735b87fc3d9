-- ===== src/Prelude/Lists.antt =====
-- Lists measured by native numbers, and predicates on lists by recursion.
use Prim.Native.Nat.{ℕ, suc, ◌+◌}
use mathlib.Core.Path.{◌≡◌}
use mathlib.Core.Logic.{◌⊎◌, inl, inr, ◌↔◌}
use mathlib.Core.List.{List, [], ◌∷◌, ◌++◌}
use native.Mathlib.Omega.{arith}

module _ {ℓ} {A : Type ℓ} where
  abbrev pub length : List A → ℕ
  length [] = 0
  length (x ∷ xs) = suc (length xs)

  abbrev pub All : (A → Type 0) → List A → Type 0
  All P [] = Unit
  All P (x ∷ xs) = P x × All P xs

  abbrev pub Any : (A → Type 0) → List A → Type 0
  Any P [] = ⊥
  Any P (x ∷ xs) = P x ⊎ Any P xs

  pub length-append : (xs ys : List A) → length (xs ++ ys) ≡ length xs + length ys
  length-append [] ys = omega arith
  length-append (x ∷ xs) ys = omega (arith, length-append xs ys)

module _ {ℓ} {A : Type ℓ} (P Q : A → Type 0) where
  pub Any-map : (xs : List A) → ((a : A) → P a → Q a) → Any P xs → Any Q xs
  Any-map [] f h = h
  Any-map (x ∷ xs) f (inl p) = inl (f x p)
  Any-map (x ∷ xs) f (inr h) = inr (Any-map xs f h)

  pub All-map : (xs : List A) → ((a : A) → P a → Q a) → All P xs → All Q xs
  All-map [] f h = h
  All-map (x ∷ xs) f (p, h) = (f x p, All-map xs f h)

  -- What holds of every element holds of the one that is found.
  pub Any-All : (xs : List A) → All P xs → Any Q xs → Any (λ a. P a × Q a) xs
  Any-All [] all h = h
  Any-All (x ∷ xs) (p, all) (inl q) = inl (p, q)
  Any-All (x ∷ xs) (p, all) (inr h) = inr (Any-All xs all h)

module _ {ℓ} {A : Type ℓ} (P : A → Type 0) where
  pub Any-append : (xs ys : List A) → Any P (xs ++ ys) ↔ (Any P xs ⊎ Any P ys)
  Any-append [] ys = (inr, λ h. elim h [ inl b ↦ absurd b | inr k ↦ k ])
  Any-append (x ∷ xs) ys = ground (arith, Any-append xs ys)

  pub All-append : (xs ys : List A) → All P xs → All P ys → All P (xs ++ ys)
  All-append [] ys h k = k
  All-append (x ∷ xs) ys (p, h) k = (p, All-append xs ys h k)

  -- One element that satisfies `P` and nothing more.
  pub Any-elim : (xs : List A) {C : Type 0} → ((a : A) → P a → C) → Any P xs → C
  Any-elim [] f h = absurd h
  Any-elim (x ∷ xs) f (inl p) = f x p
  Any-elim (x ∷ xs) f (inr h) = Any-elim xs f h
