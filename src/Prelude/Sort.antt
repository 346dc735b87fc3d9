-- ===== src/Prelude/Sort.antt =====
-- Sorting texts: the order behind `sort.Strings`, whose result the order alone determines.
use Prim.Native.Char.{code}
use Prim.Native.Nat.{compare, Ordering}
use Prim.Native.String.{String}
use mathlib.Core.Path.{◌≡◌, refl, sym, ap₂, ◌∙◌}
use mathlib.Core.Logic.{◌⊎◌, inl, inr, ◌↔◌, ∥∥₁_elim}
use mathlib.Core.Bool.{Bool, true, false, false≢true}
use mathlib.Core.List.{List, [], ◌∷◌, Perm, Permᴰ}
use mathlib.Core.List.Perm
use mathlib.Core.HLevel.{hedberg}
use native.Mathlib.Omega.{arith}
use text.Mathlib.Text.{◌==◌}
use text.Mathlib.TextEquality.{codes_equal, eq_iff}
use webmesh_vdi.Prelude.Tests.{if◌then◌else◌, Bool-cases}
use webmesh_vdi.Prelude.Lists.{Any}

-- `<=` on texts: lexicographic by code points, which is the order of their UTF-8 bytes.
unfoldable pub str_leb : String → String → Bool
str_leb String.[] t = true
str_leb (String.◌∷◌ c s) String.[] = false
str_leb (String.◌∷◌ c s) (String.◌∷◌ d t) = elim (compare (code c) (code d)) [
  | Ordering.lt ↦ true
  | Ordering.eq ↦ str_leb s t
  | Ordering.gt ↦ false
]

str_leb_total : (s t : String) → str_leb s t ≡ false → str_leb t s ≡ true
unfolding str_leb
str_leb_total String.[] String.[] h = refl
str_leb_total String.[] (String.◌∷◌ d t) h = cc
str_leb_total (String.◌∷◌ c s) String.[] h = refl
str_leb_total (String.◌∷◌ c s) (String.◌∷◌ d t) h = ground (arith, str_leb_total s t)

str_leb_trans : (s t u : String) → str_leb s t ≡ true → str_leb t u ≡ true → str_leb s u ≡ true
unfolding str_leb
str_leb_trans String.[] t u h k = refl
str_leb_trans (String.◌∷◌ c s) String.[] u h k = cc
str_leb_trans (String.◌∷◌ c s) (String.◌∷◌ d t) String.[] h k = cc
str_leb_trans (String.◌∷◌ c s) (String.◌∷◌ d t) (String.◌∷◌ e u) h k =
    ground (arith, str_leb_trans s t u)

-- Characters and rests of two texts, each below the other, agree.
heads_agree :
    (o : Ordering) (b : Bool)
    → elim o [ Ordering.lt ↦ true | Ordering.eq ↦ b | Ordering.gt ↦ false ] ≡ true
    → (o ≡ Ordering.lt) ⊎ ((o ≡ Ordering.eq) × (b ≡ true))
heads_agree o b h = ground arith

str_leb_antisymm : (s t : String) → str_leb s t ≡ true → str_leb t s ≡ true → s ≡ t
unfolding str_leb
str_leb_antisymm String.[] String.[] h k = refl
str_leb_antisymm String.[] (String.◌∷◌ d t) h k = cc
str_leb_antisymm (String.◌∷◌ c s) String.[] h k = cc
str_leb_antisymm (String.◌∷◌ c s) (String.◌∷◌ d t) h k =
    ap₂ String.◌∷◌ (codes_equal c d (ground arith))
      (str_leb_antisymm s t (ground arith) (ground arith))

-- `sort.Strings`, by insertion.
insert : String → List String → List String
insert a [] = a ∷ []
insert a (x ∷ xs) = if str_leb a x then a ∷ x ∷ xs else x ∷ insert a xs

unfoldable pub sort_strings : List String → List String
unfolding insert
sort_strings [] = []
sort_strings (x ∷ xs) = insert x (sort_strings xs)

insert_comm : (a b : String) (xs : List String) → insert a (insert b xs) ≡ insert b (insert a xs)
unfolding insert
insert_comm a b [] = ground (arith, str_leb_total a b, str_leb_antisymm a b)
insert_comm a b (x ∷ xs) = ground (
  arith,
  insert_comm a b xs,
  str_leb_total a b,
  str_leb_antisymm a b,
  str_leb_trans a b x,
  str_leb_trans b a x,
  str_leb_total a x,
  str_leb_total b x,
)

Permᴰ→sort_strings : {xs ys : List String} → Permᴰ xs ys → sort_strings xs ≡ sort_strings ys
unfolding sort_strings
Permᴰ→sort_strings Permᴰ.nil = refl
Permᴰ→sort_strings (Permᴰ.cons e p) = ap₂ insert e (Permᴰ→sort_strings p)
Permᴰ→sort_strings (Permᴰ.swap {a} {b} {l} e f) = rw (← e, ← f) (insert_comm a b (sort_strings l))
Permᴰ→sort_strings (Permᴰ.trans p q) = Permᴰ→sort_strings p ∙ Permᴰ→sort_strings q

insert-perm : (a : String) (xs : List String) → Perm (insert a xs) (a ∷ xs)
unfolding insert
insert-perm a [] = Perm.refl (a ∷ [])
insert-perm a (x ∷ xs) = elim (Bool-cases (str_leb a x)) [
  | inl e ↦ rw e (Perm.refl (a ∷ x ∷ xs))
  | inr e ↦ rw e (Perm.trans (Perm.cons x (insert-perm a xs)) (Perm.swap a x xs))
]

pub sort_strings-perm : (xs : List String) → Perm (sort_strings xs) xs
unfolding sort_strings
sort_strings-perm [] = Perm.refl []
sort_strings-perm (x ∷ xs) =
    Perm.trans (insert-perm x (sort_strings xs)) (Perm.cons x (sort_strings-perm xs))

-- Equality of texts is decided by the test that the program uses.
pub String-discrete : Discrete String
String-discrete s t = elim (Bool-cases (s == t)) [
  | inl e ↦ yes ((eq_iff s t).0 e)
  | inr e ↦ no (λ p. false≢true (sym e ∙ (eq_iff s t).1 p))
]

pub sort_strings_iff_perm : (xs ys : List String) → (sort_strings xs ≡ sort_strings ys) ↔ Perm xs ys
sort_strings_iff_perm xs ys = (
  λ e. Perm.trans (Perm.symm (sort_strings-perm xs)) (rw e (sort_strings-perm ys)),
  λ p. ∥∥₁_elim p (hedberg (hlevel String-discrete) _ _) Permᴰ→sort_strings,
)

-- A sorted list has the elements of the list.
module _ (P : String → Type 0) where
  Any-insert : (a : String) (xs : List String) → Any P (insert a xs) ↔ Any P (a ∷ xs)
  unfolding insert
  Any-insert a [] = (λ h. h, λ h. h)
  Any-insert a (x ∷ xs) = ground (arith, Any-insert a xs)

  pub Any-sort_strings : (xs : List String) → Any P (sort_strings xs) ↔ Any P xs
  unfolding sort_strings
  Any-sort_strings [] = (λ h. h, λ h. h)
  Any-sort_strings (x ∷ xs) = ground (arith, Any-insert x (sort_strings xs), Any-sort_strings xs)
