-- ===== src/Rbac/Escalation.antt =====
-- What RuleIncludes guarantees: no rule that a user may hand out grants an action that the user
-- does not have, as far as the resource getter knows the action's name.
use webmesh_vdi.Prelude.{
  String, ◌≡◌, sym, ◌∙◌, ◌⊎◌, inl, inr, true, Option, some, List, [], ◌∷◌, arith, eq_iff, Any, All,
  Any-map, All-map, Bool-cases,
}
use mathlib.Core.Path.{subst}
use mathlib.Core.List.{Perm}
use webmesh_vdi.Prelude.Sort.{Any-sort_strings, sort_strings_iff_perm}
use webmesh_vdi.Rbac.Rule.{
  Rule, Compile, deep_equal, has_verb, has_namespace, has_resource_type, matches_resource_name,
  verb_all, resource_all, namespace_all, resource_roles, resource_users, resource_templates,
}
use webmesh_vdi.Rbac.Types.{UserRole, User, ApiAction}
use webmesh_vdi.Rbac.Evaluate.{rewrite_default, evaluate_rule, evaluate_user}
use webmesh_vdi.Rbac.Includes.{
  ResourceGetter, role_names, user_names, has_all_verbs, has_all_namespaces, covers_names,
  covers_getter, covers_resource, covers_resources, rule_includes, rules_include_rule,
  role_includes_rule, roles_include_rule, user_includes_rule,
}
use webmesh_vdi.Rbac.Equality.{SameRule, deep_equal_iff}
use webmesh_vdi.Rbac.Permits.{
  Lists, Matches, Permits, Grants, has_item_iff, matches_resource_name_iff, evaluate_user_iff,
  Permits-of_rule_allows,
}

-- A wildcard in the checked rule is only covered by a wildcard.
Lists-trans :
    (all : String) (rs vs : List String) (v : String)
    → All (λ i. Lists all rs i) vs
    → Lists all vs v
    → Lists all rs v
Lists-trans all rs (i ∷ vs) v (here, rest) (inl (inl wild)) =
    Any-map _ _ rs (λ r h. elim h [ inl e ↦ inl e | inr e ↦ inl (e ∙ wild) ]) here
Lists-trans all rs (i ∷ vs) v (here, rest) (inl (inr e)) =
    Any-map _ _ rs (λ r h. elim h [ inl w ↦ inl w | inr p ↦ inr (p ∙ e) ]) here
Lists-trans all rs (i ∷ vs) v (here, rest) (inr h) = Lists-trans all rs vs v rest h
Lists-trans all rs [] v h k = absurd k

verbs_listed :
    (r : Rule) (vs : List String)
    → has_all_verbs r vs ≡ true
    → All (λ i. Lists verb_all r.verbs i) vs
unfolding has_all_verbs has_verb
verbs_listed r [] h = tt
verbs_listed r (v ∷ vs) h = ground (arith, has_item_iff verb_all r.verbs v, verbs_listed r vs)

namespaces_listed :
    (r : Rule) (nss : List String)
    → has_all_namespaces r nss ≡ true
    → All (λ i. Lists namespace_all r.namespaces i) nss
unfolding has_all_namespaces has_namespace
namespaces_listed r [] h = tt
namespaces_listed r (ns ∷ nss) h =
    ground (arith, has_item_iff namespace_all r.namespaces ns, namespaces_listed r nss)

-- `got` is what the getter returns for the resource type `t`.
abbrev pub Getter : ResourceGetter → String → Option (List String) → Type 0
Getter g t got =
    ((t ≡ resource_roles) × (got ≡ role_names g))
    ⊎ ((t ≡ resource_users) × (got ≡ user_names g))
    ⊎ ((t ≡ resource_templates) × (got ≡ g.get_templates))

-- The name is empty, or the getter of its resource type lists it.
abbrev pub Known : ResourceGetter → ApiAction → Type 0
Known g a =
    (a.resource_name ≡ "")
    ⊎ ((names : List String) × Getter g a.resource_type (some names)
        × Any (λ n. n ≡ a.resource_name) names)

Any-same : (P : String → Type 0) {xs ys : List String} → Perm xs ys → Any P ys → Any P xs
Any-same P {xs} {ys} p h =
    (Any-sort_strings P xs).0
      (subst (Any P) (sym ((sort_strings_iff_perm xs ys).1 p)) ((Any-sort_strings P ys).1 h))

module _ (compile : Compile) where
  covers_resources→All :
      (r s : Rule) (g : ResourceGetter) (rs : List String)
      → covers_resources compile r s g rs ≡ true
      → All (λ i. covers_resource compile r s g i ≡ true) rs
  unfolding covers_resources
  covers_resources→All r s g [] h = tt
  covers_resources→All r s g (t ∷ rs) h = ground (arith, covers_resources→All r s g rs)

  covers_resource-Lists :
      (r s : Rule) (g : ResourceGetter) (t : String)
      → covers_resource compile r s g t ≡ true
      → Lists resource_all r.resources t
  unfolding covers_resource has_resource_type
  covers_resource-Lists r s g t h = ground (arith, has_item_iff resource_all r.resources t)

  covers_names_lem :
      (r s : Rule) (names : List String) (x : String)
      → covers_names compile r s names ≡ true
      → Any (λ n. n ≡ x) names
      → matches_resource_name compile s x ≡ true
      → matches_resource_name compile r x ≡ true
  unfolding covers_names
  covers_names_lem r s [] x h m k = absurd m
  covers_names_lem r s (n ∷ names) x h (inl e) k =
      subst (λ y. matches_resource_name compile r y ≡ true) e
        (let k' : matches_resource_name compile s n ≡ true =
            subst (λ y. matches_resource_name compile s y ≡ true) (sym e) k in
          ground arith)
  covers_names_lem r s (n ∷ names) x h (inr m) k = covers_names_lem r s names x (ground arith) m k

  covers_resource-Getter :
      (r s : Rule) (g : ResourceGetter) (i t : String) (got : Option (List String))
      → covers_resource compile r s g i ≡ true
      → (i ≡ resource_all) ⊎ (i ≡ t)
      → Getter g t got
      → covers_getter compile r s true got ≡ true
  unfolding covers_resource
  covers_resource-Getter r s g i t got h w q = ground (
    arith,
    eq_iff i resource_all,
    eq_iff i resource_roles,
    eq_iff i resource_users,
    eq_iff i resource_templates,
  )

  covers_resources-Getter :
      (r s : Rule) (g : ResourceGetter) (rs : List String) (t : String) (got : Option (List String))
      → All (λ i. covers_resource compile r s g i ≡ true) rs
      → Lists resource_all rs t
      → Getter g t got
      → covers_getter compile r s true got ≡ true
  covers_resources-Getter r s g [] t got h w q = absurd w
  covers_resources-Getter r s g (i ∷ rs) t got (h, rest) (inl w) q =
      covers_resource-Getter r s g i t got h w q
  covers_resources-Getter r s g (i ∷ rs) t got (h, rest) (inr w) q =
      covers_resources-Getter r s g rs t got rest w q

  Permits-SameRule :
      (r s : Rule) (a : ApiAction) → SameRule r s → Permits compile a s → Permits compile a r
  Permits-SameRule r s a e p = record {
    verb = Any-same _ e.verbs p.verb;
    resource = Any-same _ e.resources p.resource;
    name = elim p.name [ inl n ↦ inl n | inr m ↦ inr (Any-same _ e.resource_patterns m) ];
    namespace = elim p.namespace [ inl n ↦ inl n | inr m ↦ inr (Any-same _ e.namespaces m) ];
  }

  module _ (r s : Rule) (g : ResourceGetter) (a : ApiAction) where
    record Covered : Type 0 where
      verbs : has_all_verbs r s.verbs ≡ true
      namespaces : has_all_namespaces r s.namespaces ≡ true
      resources : covers_resources compile r s g s.resources ≡ true

    rule_includes-cases : rule_includes compile r s g ≡ true → SameRule r s ⊎ Covered
    unfolding rule_includes
    rule_includes-cases h = elim (Bool-cases (deep_equal r s)) [
      | inl e ↦ inl ((deep_equal_iff r s).0 e)
      | inr e ↦
          inr (record { verbs = ground arith; namespaces = ground arith; resources = ground arith })
    ]

    Covered-name :
        Covered
        → Known g a
        → Permits compile a s
        → (a.resource_name ≡ "") ⊎ Any (Matches compile a.resource_name) r.resource_patterns
    unfolding covers_getter
    Covered-name c (inl e) p = inl e
    Covered-name c (inr (names, q, m)) p = elim p.name [
      | inl e ↦ inl e
      | inr n ↦
          let all = covers_resources→All r s g s.resources c.resources in
          let covered =
            covers_resources-Getter r s g s.resources a.resource_type (some names) all p.resource
              q in
          inr (
            (matches_resource_name_iff compile r a.resource_name).0 (
              covers_names_lem r s names a.resource_name covered m
                ((matches_resource_name_iff compile s a.resource_name).1 n)))
    ]

    Covered-Permits : Covered → Known g a → Permits compile a s → Permits compile a r
    Covered-Permits c k p = record {
      verb = Lists-trans verb_all r.verbs s.verbs a.verb (verbs_listed r s.verbs c.verbs) p.verb;
      resource =
          Lists-trans resource_all r.resources s.resources a.resource_type
            (All-map _ _ s.resources (covers_resource-Lists r s g)
              (covers_resources→All r s g s.resources c.resources))
            p.resource;
      name = Covered-name c k p;
      namespace = elim p.namespace [
        | inl n ↦ inl n
        | inr m ↦ inr (
            Lists-trans namespace_all r.namespaces s.namespaces a.resource_namespace
              (namespaces_listed r s.namespaces c.namespaces) m)
      ];
    }

    pub rule_includes_sound :
        rule_includes compile r s g ≡ true → Known g a → Permits compile a s → Permits compile a r
    rule_includes_sound h k p = elim (rule_includes-cases h) [
      | inl e ↦ Permits-SameRule r s a e p
      | inr c ↦ Covered-Permits c k p
    ]

  rules_include_rule_sound :
      (rs : List Rule) (s : Rule) (g : ResourceGetter) (a : ApiAction)
      → rules_include_rule compile rs s g ≡ true
      → Known g a
      → Permits compile a s
      → Any (Permits compile a) rs
  unfolding rules_include_rule
  rules_include_rule_sound [] s g a h k p = cc
  rules_include_rule_sound (r ∷ rs) s g a h k p = elim (Bool-cases (rule_includes compile r s g)) [
    | inl e ↦ inl (rule_includes_sound r s g a e k p)
    | inr e ↦ inr (rules_include_rule_sound rs s g a (rw (e, rules_include_rule) at h) k p)
  ]

  roles_include_rule_sound :
      (roles : List UserRole) (s : Rule) (g : ResourceGetter) (a : ApiAction)
      → roles_include_rule compile roles s g ≡ true
      → Known g (rewrite_default a)
      → Permits compile (rewrite_default a) s
      → Any (Grants compile a) roles
  unfolding roles_include_rule role_includes_rule
  roles_include_rule_sound [] s g a h k p = cc
  roles_include_rule_sound (role ∷ roles) s g a h k p =
      elim (Bool-cases (rules_include_rule compile role.rules s g)) [
        | inl e ↦ inl (rules_include_rule_sound role.rules s g (rewrite_default a) e k p)
        | inr e ↦ inr (roles_include_rule_sound roles s g a (rw (e, roles_include_rule) at h) k p)
      ]

  -- A rule that UserIncludesRule accepts allows nothing that the user may not do already: every
  -- action that the rule allows and whose name, after the rewriting of the default service account,
  -- is empty or listed by the getter of its resource type, is allowed to the user.
  pub user_includes_rule_sound :
      (u : User) (s : Rule) (g : ResourceGetter) (a : ApiAction)
      → user_includes_rule compile u s g ≡ true
      → (evaluate_rule compile s a).0 ≡ true
      → Known g (rewrite_default a)
      → (evaluate_user compile u a).0 ≡ true
  unfolding user_includes_rule evaluate_rule
  user_includes_rule_sound u s g a h e k = (evaluate_user_iff compile u a).1 (
      roles_include_rule_sound u.roles s g a h k
        (Permits-of_rule_allows compile s (rewrite_default a) e))
