-- ===== src/Rbac/Equality.antt =====
-- Rule.DeepEqual against its meaning: the same items in each field, in any order.
use webmesh_vdi.Prelude.{String, ◌≡◌, ◌↔◌, true, List, [], ◌∷◌, arith, eq_iff, length}
use mathlib.Core.List.{Perm}
use webmesh_vdi.Prelude.Sort.{sort_strings, sort_strings_iff_perm}
use webmesh_vdi.Rbac.Rule.{Rule, same_items, str_slice_equal, deep_equal}

same_items_iff :
    (ss xx : List String) → length ss ≡ length xx → (same_items ss xx ≡ true) ↔ (ss ≡ xx)
unfolding same_items
same_items_iff [] [] e = ground arith
same_items_iff [] (x ∷ xx) e = absurd (omega arith)
same_items_iff (s ∷ ss) [] e = absurd (omega arith)
same_items_iff (s ∷ ss) (x ∷ xx) e = ground (arith, eq_iff x s, same_items_iff ss xx)

-- The comparison by index decides equality of the slices.
pub str_slice_equal_iff : (ss xx : List String) → (str_slice_equal ss xx ≡ true) ↔ (ss ≡ xx)
unfolding str_slice_equal
str_slice_equal_iff [] [] = ground arith
str_slice_equal_iff [] (x ∷ xx) = ground arith
str_slice_equal_iff (s ∷ ss) [] = ground arith
str_slice_equal_iff (s ∷ ss) (x ∷ xx) = ground (arith, same_items_iff (s ∷ ss) (x ∷ xx))

-- Each field of one rule is a rearrangement of that field of the other.
pub record SameRule (r s : Rule) : Type 0 where
  pub resources : Perm r.resources s.resources
  pub verbs : Perm r.verbs s.verbs
  pub resource_patterns : Perm r.resource_patterns s.resource_patterns
  pub namespaces : Perm r.namespaces s.namespaces

sorted_equal_iff :
    (xs ys : List String)
    → (str_slice_equal (sort_strings xs) (sort_strings ys) ≡ true) ↔ Perm xs ys
sorted_equal_iff xs ys =
    let e = str_slice_equal_iff (sort_strings xs) (sort_strings ys) in
    let p = sort_strings_iff_perm xs ys in (λ h. p.0 (e.0 h), λ h. e.1 (p.1 h))

-- DeepEqual holds exactly when the two rules list the same verbs, resources, patterns and
-- namespaces, as often and in any order.
pub deep_equal_iff : (r s : Rule) → (deep_equal r s ≡ true) ↔ SameRule r s
unfolding deep_equal
deep_equal_iff r s = (
  λ h. record {
    resources = (sorted_equal_iff r.resources s.resources).0 (ground arith);
    verbs = (sorted_equal_iff r.verbs s.verbs).0 (ground arith);
    resource_patterns = (sorted_equal_iff r.resource_patterns s.resource_patterns).0 (ground arith);
    namespaces = (sorted_equal_iff r.namespaces s.namespaces).0 (ground arith);
  },
  λ h.
      let a = (sorted_equal_iff r.resources s.resources).1 h.resources in
      let b = (sorted_equal_iff r.verbs s.verbs).1 h.verbs in
      let c = (sorted_equal_iff r.resource_patterns s.resource_patterns).1 h.resource_patterns in
      let d = (sorted_equal_iff r.namespaces s.namespaces).1 h.namespaces in ground arith,
)
