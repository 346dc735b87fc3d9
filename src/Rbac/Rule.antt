-- ===== src/Rbac/Rule.antt =====
-- apis/rbac/v1/rules.go and constants.go. Verbs and resources are strings, as in the source.
-- Regular expressions are those of Go's regexp package, which enters as the parameter `compile`:
-- a compiled pattern is its match function, and none stands for a compile error.
use webmesh_vdi.Prelude.{
  String, Bool, true, false, ◌&&◌, Option, none, some, List, [], ◌∷◌, length, ltb, if◌then◌else◌,
}
use webmesh_vdi.Prelude.Tests.{◌==◌ as eqb}
use text.Mathlib.Text.{◌==◌}
use webmesh_vdi.Prelude.Sort.{sort_strings}

abbrev pub namespace_all : String
namespace_all = "*"

abbrev pub resource_users : String
resource_users = "users"

abbrev pub resource_roles : String
resource_roles = "roles"

abbrev pub resource_templates : String
resource_templates = "templates"

abbrev pub resource_service_accounts : String
resource_service_accounts = "serviceaccounts"

abbrev pub resource_all : String
resource_all = "*"

abbrev pub verb_create : String
verb_create = "create"

abbrev pub verb_read : String
verb_read = "read"

abbrev pub verb_update : String
verb_update = "update"

abbrev pub verb_delete : String
verb_delete = "delete"

abbrev pub verb_use : String
verb_use = "use"

abbrev pub verb_launch : String
verb_launch = "launch"

abbrev pub verb_all : String
verb_all = "*"

pub record Rule : Type 0 where
  pub verbs : List String
  pub resources : List String
  pub resource_patterns : List String
  pub namespaces : List String

unfoldable pub is_empty : Rule → Bool
is_empty r =
    eqb (length r.verbs) 0
    && eqb (length r.resources) 0
    && eqb (length r.resource_patterns) 0
    && eqb (length r.namespaces) 0

-- `for i, s := range ss { if xx[i] == s { continue }; return false }; return true`. An index past
-- the end of `xx` is a panic; the callers compare the lengths first.
unfoldable pub same_items : List String → List String → Bool
same_items [] xx = true
same_items (s ∷ ss) [] = false
same_items (s ∷ ss) (x ∷ xx) = if x == s then same_items ss xx else false

unfoldable pub str_slice_equal : List String → List String → Bool
str_slice_equal ss xx =
    if eqb (length ss) 0 && eqb (length xx) 0
    then true
    else if eqb (length ss) (length xx)
    then (if ltb 0 (length ss) then same_items ss xx else same_items xx ss)
    else false

-- The four fields of the two copies are sorted, then compared one by one.
unfoldable pub deep_equal : Rule → Rule → Bool
deep_equal r rule =
    str_slice_equal (sort_strings r.resources) (sort_strings rule.resources)
    && str_slice_equal (sort_strings r.verbs) (sort_strings rule.verbs)
    && str_slice_equal (sort_strings r.resource_patterns) (sort_strings rule.resource_patterns)
    && str_slice_equal (sort_strings r.namespaces) (sort_strings rule.namespaces)

-- The loop of HasVerb, HasResourceType and HasNamespace.
unfoldable pub has_item : String → List String → String → Bool
has_item all [] x = false
has_item all (item ∷ items) x =
    if item == all then true else if item == x then true else has_item all items x

unfoldable pub has_verb : Rule → String → Bool
has_verb r verb = has_item verb_all r.verbs verb

unfoldable pub has_resource_type : Rule → String → Bool
has_resource_type r resource = has_item resource_all r.resources resource

unfoldable pub has_namespace : Rule → String → Bool
has_namespace r ns = has_item namespace_all r.namespaces ns

-- `regexp.Compile`
abbrev pub Compile : Type 0
Compile = String → Option (String → Bool)

module _ (compile : Compile) where
  -- One round of the loop over the patterns: a pattern that does not compile is skipped.
  unfoldable pub pattern_matches : String → String → Bool
  pattern_matches pat name = elim (compile pat) [ none ↦ false | some re ↦ re name ]

  unfoldable pub any_pattern_matches : List String → String → Bool
  any_pattern_matches [] name = false
  any_pattern_matches (pat ∷ pats) name =
      if pattern_matches pat name then true else any_pattern_matches pats name

  unfoldable pub matches_resource_name : Rule → String → Bool
  matches_resource_name r name = any_pattern_matches r.resource_patterns name
