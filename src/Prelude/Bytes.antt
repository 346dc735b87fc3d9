-- ===== src/Prelude/Bytes.antt =====
-- Texts as their bytes: strings.Split and strings.Join on one byte, strings.HasPrefix, and the lines
-- of a bufio.Scanner.
use Prim.Native.Char.{code}
use Prim.Native.Nat.{ℕ}
use Prim.Native.String.{String}
use mathlib.Core.Path.{◌≡◌, refl, sym, ap, ap₂, ◌∙◌}
use mathlib.Core.Logic.{◌≢◌, ◌↔◌, inl, inr}
use mathlib.Core.Bool.{Bool, true, false, not, ◌&&◌}
use mathlib.Core.List.{List, [], ◌∷◌, ◌++◌}
use native.Mathlib.Omega.{arith}
use webmesh_vdi.Prelude.Tests.{◌==◌, ==_iff, if◌then◌else◌, Bool-cases}
use webmesh_vdi.Prelude.Lists.{All}

abbrev pub Bytes : Type 0
Bytes = List ℕ

-- The bytes of an ASCII text.
abbrev pub codes : String → Bytes
codes String.[] = []
codes (String.◌∷◌ c s) = code c ∷ codes s

unfoldable pub bytes_eq : Bytes → Bytes → Bool
bytes_eq [] [] = true
bytes_eq [] (d ∷ ds) = false
bytes_eq (c ∷ cs) [] = false
bytes_eq (c ∷ cs) (d ∷ ds) = c == d && bytes_eq cs ds

pub bytes_eq_iff : (cs ds : Bytes) → (bytes_eq cs ds ≡ true) ↔ (cs ≡ ds)
unfolding bytes_eq
bytes_eq_iff [] [] = ground arith
bytes_eq_iff [] (d ∷ ds) = ground arith
bytes_eq_iff (c ∷ cs) [] = ground arith
bytes_eq_iff (c ∷ cs) (d ∷ ds) = ground (arith, bytes_eq_iff cs ds)

-- `strings.HasPrefix s p`
unfoldable pub has_prefix : Bytes → Bytes → Bool
has_prefix s [] = true
has_prefix [] (d ∷ p) = false
has_prefix (c ∷ s) (d ∷ p) = c == d && has_prefix s p

pub has_prefix-append : (p s : Bytes) → has_prefix (p ++ s) p ≡ true
unfolding has_prefix
has_prefix-append [] s = refl
has_prefix-append (c ∷ p) s = ground (arith, has_prefix-append p s)

pub append-of_has_prefix : (s p : Bytes) → has_prefix s p ≡ true → (t : Bytes) × (s ≡ p ++ t)
unfolding has_prefix
append-of_has_prefix s [] h = (s, refl)
append-of_has_prefix [] (d ∷ p) h = cc
append-of_has_prefix (c ∷ s) (d ∷ p) h =
    let (t, e) = append-of_has_prefix s p (ground arith) in (t, ground arith)

-- The byte does not occur.
abbrev pub Free : ℕ → Bytes → Type 0
Free sep s = All (λ c. c ≢ sep) s

-- No code of the text is the given one, as a test.
unfoldable pub lacks : ℕ → Bytes → Bool
lacks c [] = true
lacks c (d ∷ s) = not (d == c) && lacks c s

pub Free-of_lacks : (c : ℕ) (s : Bytes) → lacks c s ≡ true → Free c s
unfolding lacks
Free-of_lacks c [] h = tt
Free-of_lacks c (d ∷ s) h = (ground arith, Free-of_lacks c s (ground arith))

unfoldable pub cons_head : ℕ → List Bytes → List Bytes
cons_head c [] = (c ∷ []) ∷ []
cons_head c (p ∷ ps) = (c ∷ p) ∷ ps

cons_head-ne-nil : (c : ℕ) (ps : List Bytes) → cons_head c ps ≢ []
unfolding cons_head
cons_head-ne-nil c [] = λ h. cc h
cons_head-ne-nil c (p ∷ ps) = λ h. cc h

-- `strings.Split`, which gives one empty part for the empty text.
unfoldable pub split_on : ℕ → Bytes → List Bytes
unfolding cons_head
split_on sep [] = [] ∷ []
split_on sep (c ∷ cs) =
    let rest = split_on sep cs in if c == sep then [] ∷ rest else cons_head c rest

-- `strings.Join`
unfoldable pub join : ℕ → List Bytes → Bytes
join sep [] = []
join sep (p ∷ []) = p
join sep (p ∷ q ∷ ps) = p ++ sep ∷ join sep (q ∷ ps)

pub split_on-ne-nil : (sep : ℕ) (s : Bytes) → split_on sep s ≢ []
unfolding split_on
split_on-ne-nil sep [] = λ e. cc e
split_on-ne-nil sep (c ∷ cs) = elim (Bool-cases (c == sep)) [
  | inl e ↦ rw e (λ h. cc h)
  | inr e ↦ rw e (cons_head-ne-nil c (split_on sep cs))
]

join-cons_head :
    (sep c : ℕ) (ps : List Bytes) → ps ≢ [] → join sep (cons_head c ps) ≡ c ∷ join sep ps
unfolding join cons_head
join-cons_head sep c [] h = absurd (h refl)
join-cons_head sep c (p ∷ []) h = refl
join-cons_head sep c (p ∷ q ∷ ps) h = refl

join-nil_cons : (sep : ℕ) (ps : List Bytes) → ps ≢ [] → join sep ([] ∷ ps) ≡ sep ∷ join sep ps
unfolding join
join-nil_cons sep [] h = absurd (h refl)
join-nil_cons sep (p ∷ ps) h = refl

-- Joining what was split gives the text back.
pub join-split_on : (sep : ℕ) (s : Bytes) → join sep (split_on sep s) ≡ s
unfolding split_on
join-split_on sep [] = unfold join in refl
join-split_on sep (c ∷ cs) = elim (Bool-cases (c == sep)) [
  | inl e ↦ rw e (
      join-nil_cons sep (split_on sep cs) (split_on-ne-nil sep cs)
      ∙ ap₂ ◌∷◌ (sym ((==_iff c sep).0 e)) (join-split_on sep cs))
  | inr e ↦ rw e (
      join-cons_head sep c (split_on sep cs) (split_on-ne-nil sep cs)
      ∙ ap (◌∷◌ c) (join-split_on sep cs))
]

pub split_on-Free : (sep : ℕ) (p : Bytes) → Free sep p → split_on sep p ≡ p ∷ []
unfolding split_on
split_on-Free sep [] h = refl
split_on-Free sep (c ∷ p) h = ground (arith, split_on-Free sep p h.1)

pub split_on-append :
    (sep : ℕ) (p rest : Bytes) → Free sep p → split_on sep (p ++ sep ∷ rest) ≡ p ∷ split_on sep rest
unfolding split_on
split_on-append sep [] rest h = ground arith
split_on-append sep (c ∷ p) rest h = ground (arith, split_on-append sep p rest h.1)

-- Splitting what was joined gives the parts back, if there is one and no part has the separator.
pub split_on-join :
    (sep : ℕ) (ps : List Bytes) → ps ≢ [] → All (Free sep) ps → split_on sep (join sep ps) ≡ ps
unfolding join
split_on-join sep [] n h = absurd (n refl)
split_on-join sep (p ∷ []) n h = split_on-Free sep p h.0
split_on-join sep (p ∷ q ∷ ps) n h =
    split_on-append sep p (join sep (q ∷ ps)) h.0
    ∙ ap (◌∷◌ p) (split_on-join sep (q ∷ ps) (λ e. cc e) h.1)
