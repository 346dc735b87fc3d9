-- ===== src/Proxy/Lines.antt =====
-- A line that was written by itself is read whole, however the transport cuts it into records, and
-- nothing behind it is lost.
use webmesh_vdi.Prelude.{
  ℕ, zero, suc, ◌+◌, ◌-◌, ◌≤◌, ◌<◌, ◌≡◌, ◌≢◌, refl, sym, ◌∙◌, ap, inl, inr, none, some, List, [],
  ◌∷◌, ◌++◌, arith, All, length, length-append, leb, Bool-cases,
}
use mathlib.Core.List.{append_assoc, append-nil}
use webmesh_vdi.Prelude.Bytes.{Bytes, Free}
use webmesh_vdi.Prelude.Lines.{newline, drop_cr, drop_cr-Free, IsLine}
use webmesh_vdi.Proxy.Wire.{
  take, drop, line_of, line, more, absorb, feed, scan_line, growths, start_space, read_line,
}

abbrev pub concat : List Bytes → Bytes
concat [] = []
concat (r ∷ rs) = r ++ concat rs

-- The records that carry a text.
pub record Carries (s : Bytes) (rs : List Bytes) : Type 0 where
  pub whole : concat rs ≡ s
  pub nonempty : All (λ r. r ≢ []) rs

line_of-none : (r : Bytes) → Free newline r → line_of r ≡ none
unfolding line_of
line_of-none [] h = refl
line_of-none (c ∷ r) h = ground (arith, line_of-none r h.1)

pub line_of-some : (p q : Bytes) → Free newline p → line_of (p ++ newline ∷ q) ≡ some p
unfolding line_of
line_of-some [] q h = refl
line_of-some (c ∷ p) q h = ground (arith, line_of-some p q h.1)

pub take-drop : (n : ℕ) (s : Bytes) → take n s ++ drop n s ≡ s
take-drop zero s = refl
take-drop (suc n) [] = refl
take-drop (suc n) (c ∷ s) = ap (◌∷◌ c) (take-drop n s)

length-drop : (n : ℕ) (s : Bytes) → n ≤ length s → length (drop n s) + n ≡ length s
length-drop zero s h = omega arith
length-drop (suc n) [] h = absurd (omega arith)
length-drop (suc n) (c ∷ s) h = omega (arith, length-drop n s (omega arith))

Free-take : (n : ℕ) (s : Bytes) → Free newline s → Free newline (take n s)
Free-take zero s h = tt
Free-take (suc n) [] h = tt
Free-take (suc n) (c ∷ s) (k, h) = (k, Free-take n s h)

Free-drop : (n : ℕ) (s : Bytes) → Free newline s → Free newline (drop n s)
Free-drop zero s h = h
Free-drop (suc n) [] h = tt
Free-drop (suc n) (c ∷ s) (k, h) = Free-drop n s h

pub take-append : (n : ℕ) (p q : Bytes) → n ≤ length p → take n (p ++ q) ≡ take n p
take-append zero p q h = refl
take-append (suc n) [] q h = absurd (omega arith)
take-append (suc n) (c ∷ p) q h = ap (◌∷◌ c) (take-append n p q (omega arith))

pub drop-append : (n : ℕ) (p q : Bytes) → n ≤ length p → drop n (p ++ q) ≡ drop n p ++ q
drop-append zero p q h = refl
drop-append (suc n) [] q h = absurd (omega arith)
drop-append (suc n) (c ∷ p) q h = drop-append n p q (omega arith)

unfoldable total : List ℕ → ℕ
total [] = 0
total (g ∷ gs) = g + total gs

absorb-more :
    (left : List ℕ) (space : ℕ) (buf r : Bytes)
    → Free newline r
    → absorb left space buf r ≡ more left (space - length r) (buf ++ r)
unfolding absorb
absorb-more left space buf r h = rw (line_of-none r h, absorb) refl

absorb-line :
    (left : List ℕ) (space : ℕ) (buf p : Bytes)
    → Free newline p
    → absorb left space buf (p ++ newline ∷ []) ≡ line (drop_cr (buf ++ p)) []
unfolding absorb
absorb-line left space buf p h = rw (line_of-some p [] h, absorb) refl

-- A record without a newline is taken into the buffer, which grows where it has to.
feed-more :
    (left : List ℕ) (space : ℕ) (buf r : Bytes)
    → Free newline r
    → length r ≤ space + total left
    → (left' : List ℕ) × (space' : ℕ) × (feed left space buf r ≡ more left' space' (buf ++ r))
      × (space' + total left' + length r ≡ space + total left)
unfolding feed total
feed-more [] space buf r f h = elim (Bool-cases (leb (length r) space)) [
  | inl e ↦ ([], space - length r, rw e (absorb-more [] space buf r f), ground arith)
  | inr e ↦ absurd (ground arith)
]
feed-more (g ∷ left) space buf r f h = elim (Bool-cases (leb (length r) space)) [
  | inl e ↦ (g ∷ left, space - length r, rw e (absorb-more (g ∷ left) space buf r f), ground arith)
  | inr e ↦
      let short : space ≤ length r = ground arith in
      let (left', space', fed, room) =
        feed-more left g (buf ++ take space r) (drop space r) (Free-drop space r f)
          (omega (arith, length-drop space r short)) in
      (
        left',
        space',
        rw (e, line_of-none (take space r) (Free-take space r f))
            (fed ∙ (rw (append_assoc buf (take space r) (drop space r), take-drop space r))),
        omega (arith, length-drop space r short),
      )
]

-- A record that ends the line.
feed-line :
    (left : List ℕ) (space : ℕ) (buf p : Bytes)
    → Free newline p
    → length p < space + total left
    → feed left space buf (p ++ newline ∷ []) ≡ line (drop_cr (buf ++ p)) []
unfolding feed total
feed-line [] space buf p f h = elim (Bool-cases (leb (length (p ++ newline ∷ [])) space)) [
  | inl e ↦ rw e (absorb-line [] space buf p f)
  | inr e ↦ absurd (ground (arith, length-append p (newline ∷ [])))
]
feed-line (g ∷ left) space buf p f h = elim (Bool-cases (leb (length (p ++ newline ∷ [])) space)) [
  | inl e ↦ rw e (absorb-line (g ∷ left) space buf p f)
  | inr e ↦
      let short : space ≤ length p = ground (arith, length-append p (newline ∷ [])) in
      rw
        (
          e,
          take-append space p (newline ∷ []) short,
          line_of-none (take space p) (Free-take space p f),
          take-append space p (newline ∷ []) short,
          drop-append space p (newline ∷ []) short,
        )
        (feed-line left g (buf ++ take space p) (drop space p) (Free-drop space p f)
            (omega (arith, length-drop space p short))
          ∙ (rw (append_assoc buf (take space p) (drop space p), take-drop space p)))
]

nil-ne : (t : Bytes) → [] ≢ t ++ newline ∷ []
nil-ne [] = λ e. cc e
nil-ne (c ∷ t) = λ e. cc e

append-ne-nil : (q s : Bytes) → q ≢ [] → q ++ s ≢ []
append-ne-nil [] s n = absurd (n refl)
append-ne-nil (c ∷ q) s n = λ e. cc e

tail_nil : (r q : Bytes) → r ++ q ≡ [] → q ≡ []
tail_nil [] q h = h
tail_nil (c ∷ r) q h = cc

Free-append_inv : (r t : Bytes) → Free newline (r ++ t) → Free newline r × Free newline t
Free-append_inv [] t f = (tt, f)
Free-append_inv (c ∷ r) t (k, f) = let (a, b) = Free-append_inv r t f in ((k, a), b)

-- Two texts that make one text with a newline at its end.
cut_before :
    (r q t : Bytes)
    → r ++ q ≡ t ++ newline ∷ []
    → q ≢ []
    → (t' : Bytes) × (t ≡ r ++ t') × (q ≡ t' ++ newline ∷ [])
cut_before [] q t h n = (t, refl, h)
cut_before (c ∷ r) q [] h n = absurd (n (tail_nil r q (ground arith)))
cut_before (c ∷ r) q (d ∷ t) h n =
    let (t', e, k) = cut_before r q t (ground arith) n in (t', ground arith, k)

-- The whole stream up to the newline is one line, and what is behind it stays.
scan_line-concat :
    (rs rest : List Bytes) (left : List ℕ) (space : ℕ) (buf t : Bytes)
    → Free newline t
    → All (λ r. r ≢ []) rs
    → concat rs ≡ t ++ newline ∷ []
    → length t < space + total left
    → scan_line left space buf (rs ++ rest) ≡ (some (drop_cr (buf ++ t)), rest)
unfolding scan_line
scan_line-concat [] rest left space buf t f n e h = absurd (nil-ne t e)
scan_line-concat (r ∷ []) rest left space buf t f n e h =
    rw (sym (append-nil r) ∙ e, scan_line, feed-line left space buf t f h) refl
scan_line-concat (r ∷ q ∷ rs) rest left space buf t f (n, (k, ns)) e h =
    let (t', et, eq) = cut_before r (q ++ concat rs) t e (append-ne-nil q (concat rs) k) in
    let (fr, ft) = Free-append_inv r t' (rw (sym et) f) in
    let (left', space', fed, room) =
      feed-more left space buf r fr (omega (arith, ap length et, length-append r t')) in
    rw (scan_line, fed)
      (scan_line-concat (q ∷ rs) rest left' space' (buf ++ r) t' ft (k, ns) eq
          (omega (arith, ap length et, length-append r t'))
        ∙ rw (et, append_assoc buf r t') refl)

-- A line that was written as one text, of less than 65536 bytes without a newline or a carriage
-- return, and cut into any nonempty records, is read whole, and the records behind it are left.
pub read_line-Carries :
    (s : Bytes) (rs rest : List Bytes)
    → IsLine s
    → Carries (s ++ newline ∷ []) rs
    → read_line (rs ++ rest) ≡ (some s, rest)
unfolding read_line total
read_line-Carries s rs rest l c =
    rw
      (
        scan_line-concat rs rest growths start_space [] s l.one_line c.nonempty c.whole
            (omega (arith, l.fits)),
        drop_cr-Free s l.no_cr,
      )
      refl
