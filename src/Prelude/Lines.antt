-- ===== src/Prelude/Lines.antt =====
-- The lines of a bufio.Scanner with its default split function and buffer.
use Prim.Native.Nat.{ℕ, ◌<◌}
use mathlib.Core.Path.{◌≡◌, refl, ap, ◌∙◌}
use mathlib.Core.Logic.{◌≢◌}
use mathlib.Core.Bool.{Bool, true, false}
use mathlib.Core.List.{List, [], ◌∷◌, ◌++◌, append_assoc}
use native.Mathlib.Omega.{arith}
use webmesh_vdi.Prelude.Tests.{◌==◌, ltb, if◌then◌else◌}
use webmesh_vdi.Prelude.Lists.{All, All-map, length}
use webmesh_vdi.Prelude.Bytes.{Bytes, Free, cons_head}

abbrev pub newline : ℕ
newline = 10

abbrev pub carriage_return : ℕ
carriage_return = 13

-- The text between the newlines; what follows the last newline is a line if it is not empty.
unfoldable pub lines : Bytes → List Bytes
lines [] = []
lines (c ∷ cs) = let rest = lines cs in if c == newline then [] ∷ rest else cons_head c rest

-- ScanLines drops one carriage return at the end of a line.
unfoldable pub drop_cr : Bytes → Bytes
drop_cr [] = []
drop_cr (c ∷ []) = if c == carriage_return then [] else c ∷ []
drop_cr (c ∷ d ∷ cs) = c ∷ drop_cr (d ∷ cs)

-- bufio.MaxScanTokenSize: a line that does not fit the buffer ends the scan with ErrTooLong.
abbrev pub max_scan_token_size : ℕ
max_scan_token_size = 65536

-- The tokens up to the first line that is too long, and whether the scan ended without an error.
unfoldable pub tokens : List Bytes → List Bytes × Bool
tokens [] = ([], true)
tokens (l ∷ ls) =
    let (rest, ok) = tokens ls in
    if ltb (length l) max_scan_token_size then (drop_cr l ∷ rest, ok) else ([], false)

unfoldable pub scan : Bytes → List Bytes × Bool
scan s = tokens (lines s)

-- Each line with its newline.
unfoldable pub unlines : List Bytes → Bytes
unlines [] = []
unlines (l ∷ ls) = l ++ newline ∷ unlines ls

pub lines-append : (l rest : Bytes) → Free newline l → lines (l ++ newline ∷ rest) ≡ l ∷ lines rest
unfolding lines cons_head
lines-append [] rest h = refl
lines-append (c ∷ l) rest h = ground (arith, lines-append l rest h.1)

pub lines-unlines : (ls : List Bytes) → All (Free newline) ls → lines (unlines ls) ≡ ls
unfolding unlines
lines-unlines [] h = unfold lines in refl
lines-unlines (l ∷ ls) h = lines-append l (unlines ls) h.0 ∙ ap (◌∷◌ l) (lines-unlines ls h.1)

pub unlines-append : (ls ms : List Bytes) → unlines (ls ++ ms) ≡ unlines ls ++ unlines ms
unfolding unlines
unlines-append [] ms = refl
unlines-append (l ∷ ls) ms =
    rw (unlines-append ls ms, append_assoc l (newline ∷ unlines ls) (unlines ms))

-- A line as the scanner hands it out whole: short enough, with no newline, and with no carriage
-- return for it to drop.
pub record IsLine (l : Bytes) : Type 0 where
  pub one_line : Free newline l
  pub no_cr : Free carriage_return l
  pub fits : length l < max_scan_token_size

pub drop_cr-Free : (l : Bytes) → Free carriage_return l → drop_cr l ≡ l
unfolding drop_cr
drop_cr-Free [] h = refl
drop_cr-Free (c ∷ []) h = ground arith
drop_cr-Free (c ∷ d ∷ cs) h = ap (◌∷◌ c) (drop_cr-Free (d ∷ cs) h.1)

tokens-IsLine : (ls : List Bytes) → All IsLine ls → tokens ls ≡ (ls, true)
unfolding tokens
tokens-IsLine [] h = refl
tokens-IsLine (l ∷ ls) (h, rest) =
    ground (arith, tokens-IsLine ls rest, drop_cr-Free l h.no_cr, h.fits)

-- Scanning lines that were written one by one gives them back, without an error.
pub scan-unlines : (ls : List Bytes) → All IsLine ls → scan (unlines ls) ≡ (ls, true)
unfolding scan
scan-unlines ls h =
    rw (lines-unlines ls (All-map _ _ ls (λ l k. k.one_line) h)) (tokens-IsLine ls h)

-- What the scanner hands out has no newline.
pub Free-cons_head :
    (c : ℕ) (ps : List Bytes)
    → c ≢ newline
    → All (Free newline) ps
    → All (Free newline) (cons_head c ps)
unfolding cons_head
Free-cons_head c [] n h = ((n, tt), tt)
Free-cons_head c (p ∷ ps) n (h, k) = ((n, h), k)
