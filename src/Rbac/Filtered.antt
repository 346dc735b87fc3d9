-- ===== src/Rbac/Filtered.antt =====
-- What the three filters keep.
use webmesh_vdi.Prelude.{
  String, ◌≡◌, inl, inr, ◌↔◌, Bool, true, List, [], ◌∷◌, Any, Bool-cases, ap, sym, ◌∙◌,
}
use webmesh_vdi.Rbac.Rule.{Compile, verb_use, resource_templates}
use webmesh_vdi.Rbac.Types.{User, UserRole, ApiAction}
use webmesh_vdi.Rbac.Evaluate.{rewrite_default, evaluate_user}
use webmesh_vdi.Rbac.Filters.{
  keep, template_action, namespace_action, service_account_action, filter_templates,
  filter_user_namespaces, filter_user_service_accounts,
}
use webmesh_vdi.Rbac.Permits.{Grants, Permits, evaluate_user_iff}

-- `x` is an element.
abbrev pub Has : String → List String → Type 0
Has x xs = Any (λ y. y ≡ x) xs

Has-keep :
    (test : String → Bool) (x : String) (xs : List String)
    → Has x (keep test xs) ↔ (Has x xs × (test x ≡ true))
unfolding keep
Has-keep test x [] = (λ h. absurd h, λ h. absurd h.0)
Has-keep test x (y ∷ ys) =
    let ih = Has-keep test x ys in
    let same = λ (e : y ≡ x). ap test e in
    elim (Bool-cases (test y)) [
      | inl t ↦ rw t (
        λ h. elim h [ inl e ↦ (inl e, sym (same e) ∙ t) | inr k ↦ (inr (ih.0 k).0, (ih.0 k).1) ],
        λ h. elim h.0 [ inl e ↦ inl e | inr k ↦ inr (ih.1 (k, h.1)) ],
      )
      | inr t ↦ rw t (
        λ h. (inr (ih.0 h).0, (ih.0 h).1),
        λ h. elim h.0 [ inl e ↦ cc (same e) | inr k ↦ ih.1 (k, h.1) ],
      )
    ]

module _ (compile : Compile) (u : User) where
  -- A template or a namespace is kept exactly when it was offered and one of the user's rules permits
  -- to launch it, respectively to launch templates in it.
  pub filters_iff :
      (x : String) (xs : List String)
      → (Has x (filter_templates compile u xs)
          ↔ (Has x xs × Any (Grants compile (template_action x)) u.roles))
        × (Has x (filter_user_namespaces compile u xs)
            ↔ (Has x xs × Any (Grants compile (namespace_action x)) u.roles))
  unfolding filter_templates filter_user_namespaces
  filters_iff x xs =
      let t = Has-keep (λ y. (evaluate_user compile u (template_action y)).0) x xs in
      let n = Has-keep (λ y. (evaluate_user compile u (namespace_action y)).0) x xs in
      let et = evaluate_user_iff compile u (template_action x) in
      let en = evaluate_user_iff compile u (namespace_action x) in
      (
        (λ h. ((t.0 h).0, et.0 (t.0 h).1), λ h. t.1 (h.0, et.1 h.1)),
        (λ h. ((n.0 h).0, en.0 (n.0 h).1), λ h. n.1 (h.0, en.1 h.1)),
      )

  abbrev pub use_templates_in : String → ApiAction
  use_templates_in ns = record {
    verb = verb_use;
    resource_type = resource_templates;
    resource_name = "";
    resource_namespace = ns;
  }

  -- The default service account is kept exactly when it was offered and one of the user's rules
  -- permits to use, not to launch, templates in the namespace.
  pub default_account_iff :
      (sas : List String) (ns : String)
      → Has "default" (filter_user_service_accounts compile u sas ns) ↔ (
          Has "default" sas
          × Any
              (λ (role : UserRole). Any (Permits compile (use_templates_in ns)) role.rules)
              u.roles)
  unfolding filter_user_service_accounts rewrite_default
  default_account_iff sas ns =
      let k =
        Has-keep (λ y. (evaluate_user compile u (service_account_action y ns)).0) "default" sas in
      let e = evaluate_user_iff compile u (service_account_action "default" ns) in
      (λ h. ((k.0 h).0, e.0 (k.0 h).1), λ h. k.1 (h.0, e.1 h.1))
