-- ===== src/Rbac/Permits.antt =====
-- What a rule grants, stated without its loops, and the evaluation of users against it.
use webmesh_vdi.Prelude.{
  String, ◌≡◌, refl, ◌⊎◌, ◌↔◌, Bool, true, false, Option, none, some, List, [], ◌∷◌, Any, arith,
  eq_iff, ap, ◌∙◌,
}
use webmesh_vdi.Rbac.Rule.{
  Rule, Compile, has_item, has_verb, has_resource_type, has_namespace, pattern_matches,
  any_pattern_matches, matches_resource_name, verb_all, resource_all, namespace_all,
}
use webmesh_vdi.Rbac.Types.{UserRole, User, ApiAction}
use webmesh_vdi.Rbac.Evaluate.{
  rewrite_default, rule_allows, evaluate_rule, evaluate_rules, evaluate_role, evaluate_roles,
  evaluate_user,
}

-- The item itself or the wildcard is listed.
abbrev pub Lists : String → List String → String → Type 0
Lists all items x = Any (λ item. (item ≡ all) ⊎ (item ≡ x)) items

pub has_item_iff :
    (all : String) (items : List String) (x : String)
    → (has_item all items x ≡ true) ↔ Lists all items x
unfolding has_item
has_item_iff all [] x = ground arith
has_item_iff all (item ∷ items) x =
    ground (arith, eq_iff item all, eq_iff item x, has_item_iff all items x)

module _ (compile : Compile) where
  -- A pattern compiles and its expression matches the name.
  abbrev pub Matches : String → String → Type 0
  Matches name pat = (re : (String → Bool)) × (compile pat ≡ some re) × (re name ≡ true)

  pattern_matches_iff :
      (pat name : String) → (pattern_matches compile pat name ≡ true) ↔ Matches name pat
  unfolding pattern_matches
  pattern_matches_iff pat name = go (compile pat)
    where
      go :
          (o : Option (String → Bool))
          → (elim o [ none ↦ false | some re ↦ re name ] ≡ true)
            ↔ ((re : (String → Bool)) × (o ≡ some re) × (re name ≡ true))
      go none = (λ h. cc, λ m. cc (m.1))
      go (some re) = (
        λ h. (re, refl, h),
        λ m.
            ap {B = Bool}
              (λ (o : Option (String → Bool)). elim o [ none ↦ false | some f ↦ f name ]) m.1
            ∙ m.2,
      )

  patterns_iff :
      (pats : List String) (name : String)
      → (any_pattern_matches compile pats name ≡ true) ↔ Any (Matches name) pats
  unfolding any_pattern_matches
  patterns_iff [] name = ground arith
  patterns_iff (pat ∷ pats) name =
      ground (arith, pattern_matches_iff pat name, patterns_iff pats name)

  pub matches_resource_name_iff :
      (r : Rule) (name : String)
      → (matches_resource_name compile r name ≡ true) ↔ Any (Matches name) r.resource_patterns
  unfolding matches_resource_name
  matches_resource_name_iff r name = patterns_iff r.resource_patterns name

  -- What an action needs of a rule: its verb and resource listed, and its name and namespace, where
  -- it has them, matched and listed.
  pub record Permits (a : ApiAction) (r : Rule) : Type 0 where
    pub verb : Lists verb_all r.verbs a.verb
    pub resource : Lists resource_all r.resources a.resource_type
    pub name : (a.resource_name ≡ "") ⊎ Any (Matches a.resource_name) r.resource_patterns
    pub namespace :
        (a.resource_namespace ≡ "") ⊎ Lists namespace_all r.namespaces a.resource_namespace

  module _ (r : Rule) (a : ApiAction) where
    pub Permits-of_rule_allows : rule_allows compile r a ≡ true → Permits a r
    unfolding rule_allows has_verb has_resource_type has_namespace
    Permits-of_rule_allows h = record {
      verb = ground (arith, has_item_iff verb_all r.verbs a.verb);
      resource = ground (arith, has_item_iff resource_all r.resources a.resource_type);
      name = ground (arith, eq_iff a.resource_name "", matches_resource_name_iff r a.resource_name);
      namespace = ground (
        arith,
        eq_iff a.resource_namespace "",
        has_item_iff namespace_all r.namespaces a.resource_namespace,
      );
    }

    rule_allows-of_Permits : Permits a r → rule_allows compile r a ≡ true
    unfolding rule_allows has_verb has_resource_type has_namespace
    rule_allows-of_Permits p = ground (
      arith,
      has_item_iff verb_all r.verbs a.verb,
      has_item_iff resource_all r.resources a.resource_type,
      eq_iff a.resource_name "",
      matches_resource_name_iff r a.resource_name,
      eq_iff a.resource_namespace "",
      has_item_iff namespace_all r.namespaces a.resource_namespace,
    )

    pub rule_allows_iff : (rule_allows compile r a ≡ true) ↔ Permits a r
    rule_allows_iff = (Permits-of_rule_allows, rule_allows-of_Permits)

  -- The default service account is rewritten once: a second rule sees the same action.
  rewrite_default_idem : (a : ApiAction) → rewrite_default (rewrite_default a) ≡ rewrite_default a
  unfolding rewrite_default
  rewrite_default_idem a = ground arith

  abbrev pub Grants : ApiAction → UserRole → Type 0
  Grants a role = Any (Permits (rewrite_default a)) role.rules

  evaluate_rules_iff :
      (rules : List Rule) (a : ApiAction)
      → ((evaluate_rules compile rules a).0 ≡ true) ↔ Any (Permits (rewrite_default a)) rules
  unfolding evaluate_rules evaluate_rule
  evaluate_rules_iff [] a = ground arith
  evaluate_rules_iff (r ∷ rs) a =
      let rest = rw rewrite_default_idem at (evaluate_rules_iff rs (rewrite_default a)) in
      ground (arith, rule_allows_iff r (rewrite_default a), rest)

  -- One role's rules leave the action as it was, or rewritten.
  evaluate_rules-action :
      (rules : List Rule) (a : ApiAction)
      → rewrite_default (evaluate_rules compile rules a).1 ≡ rewrite_default a
  unfolding evaluate_rules evaluate_rule
  evaluate_rules-action [] a = refl
  evaluate_rules-action (r ∷ rs) a =
      ground (arith, evaluate_rules-action rs (rewrite_default a), rewrite_default_idem a)

  pub evaluate_role_iff :
      (role : UserRole) (a : ApiAction) → ((evaluate_role compile role a).0 ≡ true) ↔ Grants a role
  unfolding evaluate_role
  evaluate_role_iff role a = evaluate_rules_iff role.rules a

  -- `b` is the action as the roles before left it.
  evaluate_roles_iff :
      (roles : List UserRole) (a b : ApiAction)
      → rewrite_default b ≡ rewrite_default a
      → ((evaluate_roles compile roles b).0 ≡ true) ↔ Any (Grants a) roles
  unfolding evaluate_roles evaluate_role
  evaluate_roles_iff [] a b e = ground arith
  evaluate_roles_iff (role ∷ roles) a b e =
      let here = rw e at (evaluate_rules_iff role.rules b) in
      let rest =
        evaluate_roles_iff roles a (evaluate_rules compile role.rules b).1
          (evaluate_rules-action role.rules b ∙ e) in
      ground (arith, here, rest)

  -- A user may do what some rule of some of its roles permits, once the default service account is
  -- read as the templates of its namespace: the loops and the rewriting of the shared action give
  -- exactly that, in both directions.
  pub evaluate_user_iff :
      (u : User) (a : ApiAction) → ((evaluate_user compile u a).0 ≡ true) ↔ Any (Grants a) u.roles
  unfolding evaluate_user
  evaluate_user_iff u a = evaluate_roles_iff u.roles a a refl
