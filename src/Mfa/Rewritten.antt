-- ===== src/Mfa/Rewritten.antt =====
-- The lines that an update or a deletion writes, in closed form.
use webmesh_vdi.Prelude.{
  ◌≡◌, refl, sym, ap, Bool, true, false, ◌||◌, List, [], ◌∷◌, ◌++◌, All, All-append, Bool-cases,
  inl, inr, if◌then◌else◌,
}
use mathlib.Core.List.{append_assoc, append-nil}
use webmesh_vdi.Prelude.Bytes.{Bytes, bytes_eq, has_prefix}
use webmesh_vdi.Prelude.Lines.{newline, unlines}
use webmesh_vdi.Mfa.Manager.{update_statuses, delete_lines}
use webmesh_vdi.Mfa.Scanned.{IsToken}

-- The lines that an update leaves, and whether it met the name.
unfoldable pub kept : Bytes → Bytes → List Bytes → List Bytes
kept name line [] = []
kept name line (text ∷ ts) =
    let rest = kept name line ts in
    if bytes_eq text [] then rest else if has_prefix text name then line ∷ rest else text ∷ rest

unfoldable pub touched : Bytes → List Bytes → Bool
touched name [] = false
touched name (text ∷ ts) =
    let rest = touched name ts in
    if bytes_eq text [] then rest else if has_prefix text name then true else rest

unfoldable pub written : Bytes → Bytes → List Bytes → List Bytes
written name line ts = if touched name ts then kept name line ts else kept name line ts ++ line ∷ []

-- The lines that a deletion leaves.
unfoldable pub others : Bytes → List Bytes → List Bytes
others name [] = []
others name (text ∷ ts) =
    let rest = others name ts in
    if bytes_eq text [] || has_prefix text name then rest else text ∷ rest

append_text :
    (buf text rest : Bytes)
    → (buf ++ text ++ newline ∷ []) ++ rest ≡ buf ++ (text ++ newline ∷ rest)
append_text buf text rest = simp (append_assoc)

if_same : (b : Bool) → b ≡ (if b then true else false)
if_same true = refl
if_same false = refl

if_true : (b : Bool) → (if b then true else true) ≡ true
if_true true = refl
if_true false = refl

pub update_statuses_lem :
    (name line : Bytes) (ts : List Bytes) (buf : Bytes) (b : Bool)
    → update_statuses name line ts buf b
      ≡ (buf ++ unlines (kept name line ts), if b then true else touched name ts)
unfolding update_statuses unlines kept touched
update_statuses_lem name line [] buf b = rw (append-nil buf) (ap (λ c. (buf, c)) (if_same b))
update_statuses_lem name line (text ∷ ts) buf b = elim (Bool-cases (bytes_eq text [])) [
  | inl e ↦ rw (e, update_statuses) (update_statuses_lem name line ts buf b)
  | inr e ↦ elim (Bool-cases (has_prefix text name)) [
    | inl p ↦
        rw (e, update_statuses)
          (rw p (
            rw (update_statuses_lem name line ts (buf ++ line ++ newline ∷ []) true) (
              rw (append_text buf line (unlines (kept name line ts))) (
                ap (λ c. (buf ++ (line ++ newline ∷ unlines (kept name line ts)), c))
                  (sym (if_true b))))))
    | inr p ↦
        rw (e, update_statuses)
          (rw p (
            rw (update_statuses_lem name line ts (buf ++ text ++ newline ∷ []) b)
              (rw (append_text buf text (unlines (kept name line ts))))))
  ]
]

pub delete_lines_lem :
    (name : Bytes) (ts : List Bytes) (buf : Bytes)
    → delete_lines name ts buf ≡ buf ++ unlines (others name ts)
unfolding delete_lines unlines others
delete_lines_lem name [] buf = sym (append-nil buf)
delete_lines_lem name (text ∷ ts) buf =
    elim (Bool-cases (bytes_eq text [] || has_prefix text name)) [
      | inl e ↦ rw (e, delete_lines) (delete_lines_lem name ts buf)
      | inr e ↦
          rw (e, delete_lines)
            (rw (delete_lines_lem name ts (buf ++ text ++ newline ∷ []))
              (rw (append_text buf text (unlines (others name ts)))))
    ]

pub kept-IsToken :
    (name line : Bytes) (ts : List Bytes)
    → IsToken line
    → All IsToken ts
    → All IsToken (kept name line ts)
unfolding kept
kept-IsToken name line [] l h = tt
kept-IsToken name line (text ∷ ts) l (h, hs) =
    let rest = kept-IsToken name line ts l hs in
    elim (Bool-cases (bytes_eq text [])) [
      | inl e ↦ rw e rest
      | inr e ↦ elim (Bool-cases (has_prefix text name)) [
        | inl p ↦ rw e (rw p (l, rest))
        | inr p ↦ rw e (rw p (h, rest))
      ]
    ]

pub others-IsToken :
    (name : Bytes) (ts : List Bytes) → All IsToken ts → All IsToken (others name ts)
unfolding others
others-IsToken name [] h = tt
others-IsToken name (text ∷ ts) (h, hs) =
    elim (Bool-cases (bytes_eq text [] || has_prefix text name)) [
      | inl e ↦ rw e (others-IsToken name ts hs)
      | inr e ↦ rw e (h, others-IsToken name ts hs)
    ]

pub written-IsToken :
    (name line : Bytes) (ts : List Bytes)
    → IsToken line
    → All IsToken ts
    → All IsToken (written name line ts)
unfolding written
written-IsToken name line ts l h =
    let k = kept-IsToken name line ts l h in
    elim (Bool-cases (touched name ts)) [
      | inl e ↦ rw e k
      | inr e ↦ rw e (All-append _ (kept name line ts) (line ∷ []) k (l, tt))
    ]
