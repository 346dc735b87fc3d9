-- ===== src/Proxy/PathLaws.antt =====
-- Which requests a proxy serves, and what it takes for the home directory.
use webmesh_vdi.Prelude.{
  ◌≡◌, ◌≢◌, ◌↔◌, inl, inr, refl, sym, ◌∙◌, ap, Bool, true, false, ◌||◌, List, [], ◌∷◌, ◌++◌, arith,
  All, All-map, Bool-cases, if◌then◌else◌, ◌==◌, ℕ,
}
use mathlib.Core.Path.{subst}
use webmesh_vdi.Prelude.Bytes.{
  Bytes, codes, bytes_eq, bytes_eq_iff, has_prefix, append-of_has_prefix, Free, split_on, join,
  split_on-join, split_on-Free, split_on-ne-nil, cons_head,
}
use webmesh_vdi.Proxy.Conn.{ok, failed}
use webmesh_vdi.Proxy.Paths.{
  slash, dot, dot_dot, enter, reverse_onto, resolve, clean, rooted, join_path, home_dir,
  desktop_home_mnt_path, get_local_path,
}

-- An element of a path that names something.
pub record IsPlain (p : Bytes) : Type 0 where
  pub not_empty : p ≢ []
  pub not_dot : p ≢ dot
  pub not_dot_dot : p ≢ dot_dot
  pub no_slash : Free slash p

cons_head-Free :
    (c : ℕ) (ps : List Bytes) → c ≢ slash → All (Free slash) ps → All (Free slash) (cons_head c ps)
unfolding cons_head
cons_head-Free c [] n h = ((n, tt), tt)
cons_head-Free c (p ∷ ps) n (h, k) = ((n, h), k)

split_on-Free_parts : (s : Bytes) → All (Free slash) (split_on slash s)
unfolding split_on
split_on-Free_parts [] = (tt, tt)
split_on-Free_parts (c ∷ s) = elim (Bool-cases (c == slash)) [
  | inl e ↦ rw e (tt, split_on-Free_parts s)
  | inr e ↦ rw e (cons_head-Free c (split_on slash s) (ground arith) (split_on-Free_parts s))
]

bytes_ne : (p q : Bytes) → bytes_eq p q ≡ false → p ≢ q
bytes_ne p q e = ground (arith, bytes_eq_iff p q)

enter-IsPlain :
    (st : List Bytes) (p : Bytes) → Free slash p → All IsPlain st → All IsPlain (enter st p)
unfolding enter
enter-IsPlain [] p f h = elim (Bool-cases (bytes_eq p [] || bytes_eq p dot || bytes_eq p dot_dot)) [
  | inl e ↦ rw e tt
  | inr e ↦ rw e (
    record {
      not_empty = ground (arith, bytes_eq_iff p []);
      not_dot = ground (arith, bytes_eq_iff p dot);
      not_dot_dot = ground (arith, bytes_eq_iff p dot_dot);
      no_slash = f;
    },
    tt,
  )
]
enter-IsPlain (q ∷ st) p f h = elim (Bool-cases (bytes_eq p [] || bytes_eq p dot)) [
  | inl e ↦ rw e h
  | inr e ↦ elim (Bool-cases (bytes_eq p dot_dot)) [
    | inl e' ↦ rw (e, e') h.1
    | inr e' ↦
        rw (e, e')
          (
            record {
              not_empty = ground (arith, bytes_eq_iff p []);
              not_dot = ground (arith, bytes_eq_iff p dot);
              not_dot_dot = bytes_ne p dot_dot e';
              no_slash = f;
            },
            h,
          )
  ]
]

reverse_onto-IsPlain :
    (st out : List Bytes) → All IsPlain st → All IsPlain out → All IsPlain (reverse_onto st out)
reverse_onto-IsPlain [] out h k = k
reverse_onto-IsPlain (q ∷ st) out (p, h) k = reverse_onto-IsPlain st (q ∷ out) h (p, k)

resolve-IsPlain :
    (st ps : List Bytes) → All (Free slash) ps → All IsPlain st → All IsPlain (resolve st ps)
resolve-IsPlain st [] f h = reverse_onto-IsPlain st [] h tt
resolve-IsPlain st (p ∷ ps) (g, f) h = resolve-IsPlain (enter st p) ps f (enter-IsPlain st p g h)

clean-IsPlain : (s : Bytes) → All IsPlain (clean s)
unfolding clean
clean-IsPlain s = resolve-IsPlain [] (split_on slash s) (split_on-Free_parts s) tt

cons_cases : (ps : List Bytes) → ps ≢ [] → (p : Bytes) × (qs : List Bytes) × (ps ≡ p ∷ qs)
cons_cases [] n = absurd (n refl)
cons_cases (p ∷ qs) n = (p, qs, refl)

-- The elements of a path that starts with the text of the mount path.
home_parts :
    (s : Bytes)
    → (t : Bytes) × (rest : List Bytes) × (split_on slash (home_dir ++ s)
        ≡ codes "mnt" ∷ (codes "home" ++ t) ∷ rest)
unfolding split_on cons_head
home_parts s =
    let (t, rest, e) = cons_cases (split_on slash s) (split_on-ne-nil slash s) in
    (t, rest, rw e refl)

rooted-home :
    (t : Bytes) (rest : List Bytes)
    → has_prefix (rooted (codes "mnt" ∷ (codes "home" ++ t) ∷ rest)) desktop_home_mnt_path ≡ true
unfolding rooted join has_prefix
rooted-home t [] = refl
rooted-home t (q ∷ rest) = refl

home-of_prefix :
    (ps : List Bytes)
    → All IsPlain ps
    → has_prefix (rooted ps) desktop_home_mnt_path ≡ true
    → (t : Bytes) × (rest : List Bytes) × (ps ≡ codes "mnt" ∷ (codes "home" ++ t) ∷ rest)
unfolding rooted join has_prefix
home-of_prefix [] h k = cc k
home-of_prefix (q ∷ ps) h k =
    let (s, e) = append-of_has_prefix (slash ∷ join slash (q ∷ ps)) desktop_home_mnt_path k in
    let joined : join slash (q ∷ ps) ≡ home_dir ++ s = ground arith in
    let (t, rest, parts) = home_parts s in
    (
      t,
      rest,
      sym (split_on-join slash (q ∷ ps) (λ z. cc z) (All-map _ _ (q ∷ ps) (λ p i. i.no_slash) h))
          ∙ ap (split_on slash) joined
          ∙ parts,
    )

ok-of_if : (b : Bool) (a p m : Bytes) → (if b then ok a else failed m) ≡ ok p → (b ≡ true) × (p ≡ a)
ok-of_if true a p m h = (refl, cc)
ok-of_if false a p m h = cc

-- Where the mount path exists, a request is served exactly when the elements of its path, joined to the mount path and with the
-- dots resolved, are "mnt", an element that starts with "home", and any others; and what it is served
-- is the path of these elements, none of which is empty, a dot or two dots, or has a slash.
pub get_local_path_iff :
    (path p : Bytes)
    → (get_local_path true path ≡ ok p) ↔ (
        (t : Bytes) × (rest : List Bytes) × (clean (home_dir ++ slash ∷ path)
          ≡ codes "mnt" ∷ (codes "home" ++ t) ∷ rest)
        × (p ≡ rooted (codes "mnt" ∷ (codes "home" ++ t) ∷ rest))
        × IsPlain (codes "home" ++ t)
        × All IsPlain rest)
unfolding get_local_path join_path
get_local_path_iff path p =
    let ps = clean (home_dir ++ slash ∷ path) in
    let plain = clean-IsPlain (home_dir ++ slash ∷ path) in
    (
      λ h.
          let (prefixed, same) =
            ok-of_if (has_prefix (rooted ps) desktop_home_mnt_path) (rooted ps) p _ h in
          let (t, rest, parts) = home-of_prefix ps plain prefixed in
          let all = subst (All IsPlain) parts plain in
          (t, rest, parts, same ∙ ap rooted parts, all.1.0, all.1.1),
      λ (t, rest, parts, same, k, l). rw (parts, rooted-home t rest, same) refl,
    )

-- Where the mount path exists, a request for two dots and a name that starts with "home" and has no
-- slash is served with the entry of that name beside the mount path.
pub get_local_path-sibling :
    (t : Bytes)
    → Free slash t
    → get_local_path true (codes "../home" ++ t) ≡ ok (codes "/mnt/home" ++ t)
unfolding get_local_path join_path rooted clean split_on enter bytes_eq cons_head join has_prefix
get_local_path-sibling t f = rw (split_on-Free slash t f) refl
