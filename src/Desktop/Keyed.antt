-- ===== src/Desktop/Keyed.antt =====
-- A map from texts, as an association list.
use webmesh_vdi.Prelude.{
  ◌≡◌, refl, inl, inr, String, true, false, Option, none, some, List, [], ◌∷◌, arith, Bool-cases,
  eq_iff, if◌then◌else◌,
}
use text.Mathlib.Text.{◌==◌}

same_key : (k : String) → (k == k) ≡ true
same_key k = ground (arith, eq_iff k k)

module _ {A : Type 0} where
  unfoldable pub lookup_key : String → List (String × A) → Option A
  lookup_key k [] = none
  lookup_key k ((n, a) ∷ es) = if n == k then some a else lookup_key k es

  unfoldable pub put_key : String → A → List (String × A) → List (String × A)
  put_key k a [] = (k, a) ∷ []
  put_key k a ((n, b) ∷ es) = if n == k then (k, a) ∷ es else (n, b) ∷ put_key k a es

  pub lookup-put_key :
      (k : String) (a : A) (es : List (String × A)) → lookup_key k (put_key k a es) ≡ some a
  unfolding lookup_key put_key
  lookup-put_key k a [] = rw (same_key k) refl
  lookup-put_key k a ((n, b) ∷ es) = elim (Bool-cases (n == k)) [
    | inl q ↦ simp (q, same_key k) refl
    | inr q ↦ simp q (lookup-put_key k a es)
  ]

  -- A change of a key loses no other.
  pub lookup-put_key_kept :
      (k n : String) (a b : A) (es : List (String × A))
      → lookup_key n es ≡ some b
      → (c : A) × (lookup_key n (put_key k a es) ≡ some c)
  unfolding lookup_key put_key
  lookup-put_key_kept k n a b [] h = absurd (cc h)
  lookup-put_key_kept k n a b ((m, x) ∷ es) h = elim (Bool-cases (m == k)) [
    | inl q ↦ elim (Bool-cases (k == n)) [
      | inl z ↦ (a, simp (q, z) refl)
      | inr z ↦
          let other : (m == n) ≡ false = ground (arith, eq_iff m k, q, z) in
          (b, simp (q, z) (simp other at h))
    ]
    | inr q ↦ elim (Bool-cases (m == n)) [
      | inl z ↦ (x, simp (q, z) refl)
      | inr z ↦ let (c, e) = lookup-put_key_kept k n a b es (simp z at h) in (c, simp (q, z) e)
    ]
  ]
