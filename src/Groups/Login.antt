-- ===== src/Groups/Login.antt =====
-- Which roles the groups of a user give.
use mathlib.Core.Path.{subst}
use webmesh_vdi.Prelude.{
  ◌≡◌, ◌≢◌, ◌↔◌, ◌⊎◌, inl, inr, refl, sym, ◌∙◌, ap, true, List, [], ◌∷◌, ◌++◌, map, arith, Any,
  Any-append, Bool-cases,
}
use webmesh_vdi.Prelude.Bytes.{Bytes, bytes_eq, bytes_eq_iff, codes}
use webmesh_vdi.Rbac.Types.{UserRole}
use webmesh_vdi.Local.Provider.{filter_user_roles_by_names, roles_named}
use webmesh_vdi.Groups.Mapping.{
  GroupRole, string_slice_contains, append_string_if_missing, group_list, counts, append_for_groups,
  append_role_if_bound, bound_roles, login_roles, any_counts, get_user_roles,
}

abbrev pub Among : {A : Type 0} → A → List A → Type 0
Among a xs = Any (λ b. b ≡ a) xs

-- A group of the annotation, not the empty text, is a group of the user.
pub Bound : List Bytes → GroupRole → Type 0
Bound user_groups r = Any (λ g. (g ≢ []) × Among g user_groups) (group_list r.annotation)

pub contains_iff : (ss : List Bytes) (s : Bytes) → (string_slice_contains ss s ≡ true) ↔ Among s ss
unfolding string_slice_contains
contains_iff [] s = ground arith
contains_iff (x ∷ ss) s = ground (arith, contains_iff ss s, bytes_eq_iff x s)

counts_iff :
    (groups : List Bytes) (g : Bytes) → (counts groups g ≡ true) ↔ ((g ≢ []) × Among g groups)
unfolding counts
counts_iff groups g = ground (arith, contains_iff groups g, bytes_eq_iff g [])

any_counts_iff :
    (user_groups gs : List Bytes)
    → (any_counts user_groups gs ≡ true) ↔ Any (λ g. (g ≢ []) × Among g user_groups) gs
unfolding any_counts
any_counts_iff user_groups [] = ground arith
any_counts_iff user_groups (g ∷ gs) =
    ground (arith, any_counts_iff user_groups gs, counts_iff user_groups g)

pub append_one : (sl : List Bytes) (x y : Bytes) → Among y (sl ++ x ∷ []) ↔ (Among y sl ⊎ (x ≡ y))
append_one sl x y = (
  λ h. elim ((Any-append _ sl (x ∷ [])).0 h) [
    | inl k ↦ inl k
    | inr k ↦ elim k [ inl w ↦ inr w | inr w ↦ absurd w ]
  ],
  λ h. elim h [
    | inl k ↦ (Any-append _ sl (x ∷ [])).1 (inl k)
    | inr k ↦ (Any-append _ sl (x ∷ [])).1 (inr (inl k))
  ],
)

append_string_iff :
    (sl : List Bytes) (x y : Bytes)
    → Among y (append_string_if_missing sl x) ↔ (Among y sl ⊎ (x ≡ y))
unfolding append_string_if_missing
append_string_iff sl x y = elim (Bool-cases (string_slice_contains sl x)) [
  | inl e ↦
      let known = (contains_iff sl x).0 e in
      rw e (inl, λ h. elim h [ inl k ↦ k | inr k ↦ rw (sym k) known ])
  | inr e ↦ rw e (append_one sl x y)
]

-- What the loop over the groups of an annotation adds.
append_for_groups_iff :
    (gs bound user_groups : List Bytes) (name y : Bytes)
    → Among y (append_for_groups bound user_groups name gs)
      ↔ (Among y bound ⊎ ((name ≡ y) × Any (λ g. (g ≢ []) × Among g user_groups) gs))
unfolding append_for_groups
append_for_groups_iff [] bound user_groups name y =
    (inl, λ h. elim h [ inl k ↦ k | inr k ↦ absurd k.1 ])
append_for_groups_iff (g ∷ gs) bound user_groups name y = elim (Bool-cases (counts user_groups g)) [
  | inl e ↦
      let ih = append_for_groups_iff gs (append_string_if_missing bound name) user_groups name y in
      let added = append_string_iff bound name y in
      let counted = (counts_iff user_groups g).0 e in
      rw e (
        λ h. elim (ih.0 h) [
          | inl k ↦ elim (added.0 k) [ inl w ↦ inl w | inr w ↦ inr (w, inl counted) ]
          | inr k ↦ inr (k.0, inr k.1)
        ],
        λ h. elim h [
          | inl k ↦ ih.1 (inl (added.1 (inl k)))
          | inr k ↦ ih.1 (inl (added.1 (inr k.0)))
        ],
      )
  | inr e ↦
      let ih = append_for_groups_iff gs bound user_groups name y in
      rw e (
        λ h. elim (ih.0 h) [ inl k ↦ inl k | inr k ↦ inr (k.0, inr k.1) ],
        λ h. elim h [
          | inl k ↦ ih.1 (inl k)
          | inr k ↦ elim k.1 [
            | inl w ↦ absurd (ground (arith, e, (counts_iff user_groups g).1 w))
            | inr w ↦ ih.1 (inr (k.0, w))
          ]
        ],
      )
]

bound_roles_iff :
    (roles : List GroupRole) (bound user_groups : List Bytes) (y : Bytes)
    → Among y (bound_roles bound user_groups roles)
      ↔ (Among y bound ⊎ Any (λ r. (codes r.role.name ≡ y) × Bound user_groups r) roles)
unfolding bound_roles append_role_if_bound Bound
bound_roles_iff [] bound user_groups y = (inl, λ h. elim h [ inl k ↦ k | inr k ↦ absurd k ])
bound_roles_iff (r ∷ roles) bound user_groups y =
    let ih = bound_roles_iff roles (append_role_if_bound bound user_groups r) user_groups y in
    let one =
      append_for_groups_iff (group_list r.annotation) bound user_groups (codes r.role.name) y in
    (
      λ h. elim (ih.0 h) [
        | inl k ↦ elim (one.0 k) [ inl w ↦ inl w | inr w ↦ inr (inl w) ]
        | inr k ↦ inr (inr k)
      ],
      λ h. elim h [
        | inl k ↦ ih.1 (inl (one.1 (inl k)))
        | inr k ↦ elim k [ inl w ↦ ih.1 (inl (one.1 (inr w))) | inr w ↦ ih.1 (inr w) ]
      ],
    )

roles_named_iff :
    (roles : List UserRole) (name : Bytes) (role : UserRole)
    → Among role (roles_named roles name) ↔ (Among role roles × (codes role.name ≡ name))
unfolding roles_named
roles_named_iff [] name role = (λ h. absurd h, λ h. absurd h.0)
roles_named_iff (r ∷ roles) name role =
    let ih = roles_named_iff roles name role in
    elim (Bool-cases (bytes_eq (codes r.name) name)) [
      | inl e ↦ rw e (
        λ h. elim h [
          | inl k ↦ (inl k, ap (λ x. codes x.name) (sym k) ∙ (bytes_eq_iff (codes r.name) name).0 e)
          | inr k ↦ (inr (ih.0 k).0, (ih.0 k).1)
        ],
        λ h. elim h.0 [ inl k ↦ inl k | inr k ↦ inr (ih.1 (k, h.1)) ],
      )
      | inr e ↦ rw e (
        λ h. (inr (ih.0 h).0, (ih.0 h).1),
        λ h. elim h.0 [
          | inl k ↦
              let named = ap (λ x. codes x.name) k ∙ h.1 in
              absurd (ground (arith, e, (bytes_eq_iff (codes r.name) name).1 named))
          | inr k ↦ ih.1 (k, h.1)
        ],
      )
    ]

pub filter_iff :
    (roles : List UserRole) (names : List Bytes) (role : UserRole)
    → Among role (filter_user_roles_by_names roles names)
      ↔ (Among role roles × Among (codes role.name) names)
unfolding filter_user_roles_by_names
filter_iff roles [] role = (λ h. absurd h, λ h. absurd h.1)
filter_iff roles (name ∷ names) role =
    let ih = filter_iff roles names role in
    let split = Any-append _ (roles_named roles name) (filter_user_roles_by_names roles names) in
    let one = roles_named_iff roles name role in
    (
      λ h. elim (split.0 h) [
        | inl k ↦ ((one.0 k).0, inl (sym (one.0 k).1))
        | inr k ↦ ((ih.0 k).0, inr (ih.0 k).1)
      ],
      λ h. elim h.1 [
        | inl k ↦ split.1 (inl (one.1 (h.0, sym k)))
        | inr k ↦ split.1 (inr (ih.1 (h.0, k)))
      ],
    )

-- A login with the groups of a directory gives a role exactly when it is a role of the cluster and one
-- of the cluster's roles with its name lists, in its annotation, a group that is not the empty text
-- and that the user has.
pub login_roles_iff :
    (roles : List GroupRole) (user_groups : List Bytes) (role : UserRole)
    → Among role (login_roles roles user_groups) ↔ (
        Among role (map (λ r. r.role) roles)
        × Any (λ r. (codes r.role.name ≡ codes role.name) × Bound user_groups r) roles)
unfolding login_roles
login_roles_iff roles user_groups role =
    let chosen = filter_iff (map (λ r. r.role) roles) (bound_roles [] user_groups roles) role in
    let names = bound_roles_iff roles [] user_groups (codes role.name) in
    (
      λ h. ((chosen.0 h).0, elim (names.0 (chosen.0 h).1) [ inl k ↦ absurd k | inr k ↦ k ]),
      λ h. chosen.1 (h.0, names.1 (inr h.1)),
    )

get_user_roles_iff :
    (roles : List GroupRole) (user_groups : List Bytes) (role : UserRole)
    → Among role (get_user_roles roles user_groups)
      ↔ Any (λ r. (r.role ≡ role) × Bound user_groups r) roles
unfolding get_user_roles Bound
get_user_roles_iff [] user_groups role = (λ h. h, λ h. h)
get_user_roles_iff (r ∷ roles) user_groups role =
    let ih = get_user_roles_iff roles user_groups role in
    let bound = any_counts_iff user_groups (group_list r.annotation) in
    elim (Bool-cases (any_counts user_groups (group_list r.annotation))) [
      | inl e ↦ rw e (
        λ h. elim h [ inl k ↦ inl (k, bound.0 e) | inr k ↦ inr (ih.0 k) ],
        λ h. elim h [ inl k ↦ inl k.0 | inr k ↦ inr (ih.1 k) ],
      )
      | inr e ↦ rw e (
        λ h. inr (ih.0 h),
        λ h. elim h [ inl k ↦ absurd (ground (arith, e, bound.1 k.1)) | inr k ↦ ih.1 k ],
      )
    ]

found_at : {A : Type 0} (P : A → Type 0) (xs : List A) → Any P xs → (x : A) × Among x xs × P x
found_at P [] h = elim h [ ]
found_at P (x ∷ xs) (inl p) = (x, inl refl, p)
found_at P (x ∷ xs) (inr h) = let (y, m, p) = found_at P xs h in (y, inr m, p)

put_at : {A : Type 0} (P : A → Type 0) (xs : List A) (x : A) → Among x xs → P x → Any P xs
put_at P [] x h p = elim h [ ]
put_at P (y ∷ xs) x (inl e) p = inl (subst P (sym e) p)
put_at P (y ∷ xs) x (inr h) p = inr (put_at P xs x h p)

Among-roles :
    (roles : List GroupRole) (role : UserRole)
    → Among role (map (λ r. r.role) roles) ↔ Any (λ r. r.role ≡ role) roles
Among-roles [] role = (λ h. h, λ h. h)
Among-roles (r ∷ roles) role =
    let ih = Among-roles roles role in
    (
      λ h. elim h [ inl k ↦ inl k | inr k ↦ inr (ih.0 k) ],
      λ h. elim h [ inl k ↦ inl k | inr k ↦ inr (ih.1 k) ],
    )

-- Where no two roles of the cluster have the same name, a login with the groups of a directory and the
-- look-up of the user by GetUser give the same roles for the same groups: those that list, in their
-- annotation, a group that is not the empty text and that the user has.
pub login_roles-get_user_roles :
    (roles : List GroupRole) (user_groups : List Bytes) (role : UserRole)
    → ((r r' : GroupRole)
        → Among r roles
        → Among r' roles
        → codes r.role.name ≡ codes r'.role.name
        → r ≡ r')
    → (Among role (login_roles roles user_groups)
        ↔ Any (λ r. (r.role ≡ role) × Bound user_groups r) roles)
      × (Among role (get_user_roles roles user_groups)
          ↔ Any (λ r. (r.role ≡ role) × Bound user_groups r) roles)
login_roles-get_user_roles roles user_groups role unique = (
  (
    λ h.
        let (present, named) = (login_roles_iff roles user_groups role).0 h in
        let (r, m, same) = found_at _ roles ((Among-roles roles role).0 present) in
        let (r', m', (named', bound)) = found_at _ roles named in
        let one = unique r r' m m' (ap (λ x. codes x.name) same ∙ sym named') in
        put_at (λ r. (r.role ≡ role) × Bound user_groups r) roles r m
          (same, subst (Bound user_groups) (sym one) bound),
    λ h.
        let (r, m, (same, bound)) = found_at _ roles h in
        (login_roles_iff roles user_groups role).1 (
          (Among-roles roles role).1 (put_at (λ r. r.role ≡ role) roles r m same),
          put_at (λ r. (codes r.role.name ≡ codes role.name) × Bound user_groups r) roles r m
              (ap (λ x. codes x.name) same, bound),
        ),
  ),
  get_user_roles_iff roles user_groups role,
)
