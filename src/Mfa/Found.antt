-- ===== src/Mfa/Found.antt =====
-- The first line with a prefix among the lines that an update or a deletion leaves.
use webmesh_vdi.Prelude.{
  ◌≡◌, refl, ◌∙◌, true, false, ◌||◌, none, some, List, [], ◌∷◌, ◌++◌, map, arith, Bool-cases, inl,
  inr, if◌then◌else◌,
}
use mathlib.Core.List.{map-append}
use webmesh_vdi.Prelude.Bytes.{Bytes, bytes_eq, has_prefix}
use webmesh_vdi.Prelude.Lines.{drop_cr}
use webmesh_vdi.Mfa.Manager.{find_line}
use webmesh_vdi.Mfa.Scanned.{has_prefix-drop_cr}
use webmesh_vdi.Mfa.Rewritten.{kept, touched, written, others}

-- A line without the prefix is passed over.
find_line-other :
    (p text : Bytes) (ts : List Bytes)
    → has_prefix text p ≡ false
    → find_line p (text ∷ ts) ≡ find_line p ts
unfolding find_line
find_line-other p text ts h = elim (Bool-cases (bytes_eq text [])) [
  | inl e ↦ rw e
  | inr e ↦ rw (e, h)
]

find_line-first :
    (p text : Bytes) (ts : List Bytes)
    → bytes_eq text [] ≡ false
    → has_prefix text p ≡ true
    → find_line p (text ∷ ts) ≡ some text
unfolding find_line
find_line-first p text ts e h = rw (e, h)

find_line-kept :
    (name line : Bytes) (ts : List Bytes)
    → drop_cr line ≡ line
    → bytes_eq line [] ≡ false
    → has_prefix line name ≡ true
    → find_line name (map drop_cr (kept name line ts))
      ≡ (if touched name ts then some line else none)
unfolding kept touched
find_line-kept name line [] d n h = unfold find_line in refl
find_line-kept name line (text ∷ ts) d n h =
    let rest = find_line-kept name line ts d n h in
    elim (Bool-cases (bytes_eq text [])) [
      | inl e ↦ rw e rest
      | inr e ↦ elim (Bool-cases (has_prefix text name)) [
        | inl p ↦
            rw e (rw p (rw d (find_line-first name line (map drop_cr (kept name line ts)) n h)))
        | inr p ↦ rw e (
            rw p (
              find_line-other name (drop_cr text) (map drop_cr (kept name line ts))
                (has_prefix-drop_cr name text p)
              ∙ rest))
      ]
    ]

find_line-append :
    (p : Bytes) (xs ys : List Bytes)
    → find_line p xs ≡ none
    → find_line p (xs ++ ys) ≡ find_line p ys
unfolding find_line
find_line-append p [] ys h = refl
find_line-append p (x ∷ xs) ys h = elim (Bool-cases (bytes_eq x [])) [
  | inl e ↦ rw e (find_line-append p xs ys (rw e at h))
  | inr e ↦ elim (Bool-cases (has_prefix x p)) [
    | inl t ↦ cc (rw t at (rw e at h))
    | inr t ↦ rw e (rw t (find_line-append p xs ys (rw t at (rw e at h))))
  ]
]

-- The line that an update writes is the first one with the name as its prefix.
pub find_line-written :
    (name line : Bytes) (ts : List Bytes)
    → drop_cr line ≡ line
    → bytes_eq line [] ≡ false
    → has_prefix line name ≡ true
    → find_line name (map drop_cr (written name line ts)) ≡ some line
unfolding written
find_line-written name line ts d n h =
    let k = find_line-kept name line ts d n h in
    elim (Bool-cases (touched name ts)) [
      | inl e ↦ rw e (rw e at k)
      | inr e ↦ rw e (
          rw (map-append drop_cr (kept name line ts) (line ∷ [])) (
            find_line-append name (map drop_cr (kept name line ts)) (drop_cr line ∷ []) (rw e at k)
            ∙ (rw d (find_line-first name line [] n h))))
    ]

-- No line has a longer prefix than the name, if the new line has not.
find_line-kept_longer :
    (name p line : Bytes) (ts : List Bytes)
    → ((text : Bytes) → has_prefix text name ≡ false → has_prefix text p ≡ false)
    → has_prefix line p ≡ false
    → find_line p (map drop_cr (kept name line ts)) ≡ none
unfolding kept
find_line-kept_longer name p line [] m h = unfold find_line in refl
find_line-kept_longer name p line (text ∷ ts) m h =
    let rest = find_line-kept_longer name p line ts m h in
    let others = map drop_cr (kept name line ts) in
    elim (Bool-cases (bytes_eq text [])) [
      | inl e ↦ rw e rest
      | inr e ↦ elim (Bool-cases (has_prefix text name)) [
        | inl t ↦
            rw e
              (rw t (find_line-other p (drop_cr line) others (has_prefix-drop_cr p line h) ∙ rest))
        | inr t ↦ rw e (
            rw t (
              find_line-other p (drop_cr text) others (has_prefix-drop_cr p text (m text t))
              ∙ rest))
      ]
    ]

pub find_line-longer :
    (name p line : Bytes) (ts : List Bytes)
    → ((text : Bytes) → has_prefix text name ≡ false → has_prefix text p ≡ false)
    → has_prefix line p ≡ false
    → find_line p (map drop_cr (written name line ts)) ≡ none
unfolding written
find_line-longer name p line ts m h =
    let k = find_line-kept_longer name p line ts m h in
    elim (Bool-cases (touched name ts)) [
      | inl e ↦ rw e k
      | inr e ↦ rw e (
          rw (map-append drop_cr (kept name line ts) (line ∷ [])) (
            find_line-append p (map drop_cr (kept name line ts)) (drop_cr line ∷ []) k
            ∙ find_line-other p (drop_cr line) [] (has_prefix-drop_cr p line h)
            ∙ (unfold find_line in refl)))
    ]

pub find_line-others :
    (name p : Bytes) (ts : List Bytes)
    → ((text : Bytes) → has_prefix text name ≡ false → has_prefix text p ≡ false)
    → find_line p (map drop_cr (others name ts)) ≡ none
unfolding others
find_line-others name p [] m = unfold find_line in refl
find_line-others name p (text ∷ ts) m =
    let rest = find_line-others name p ts m in
    elim (Bool-cases (bytes_eq text [] || has_prefix text name)) [
      | inl e ↦ rw e rest
      | inr e ↦ rw e (
          find_line-other p (drop_cr text) (map drop_cr (others name ts))
            (has_prefix-drop_cr p text (m text (ground arith)))
          ∙ rest)
    ]
