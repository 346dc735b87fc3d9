-- ===== src/Mfa/Scanned.antt =====
-- What a scan hands out, and the second scan of what was written from it.
use webmesh_vdi.Prelude.{
  ℕ, ◌≡◌, refl, true, false, List, [], ◌∷◌, map, arith, All, All-map, length, ltb, Bool-cases, ◌==◌,
  inl, inr,
}
use Prim.Native.Nat.{◌≤◌, ◌<◌}
use webmesh_vdi.Prelude.Bytes.{Bytes, Free, has_prefix}
use webmesh_vdi.Prelude.Lines.{
  newline, carriage_return, lines, drop_cr, max_scan_token_size, tokens, scan, unlines,
  lines-unlines, Free-cons_head,
}

-- One line, short enough for the scanner; a carriage return may stand at its end.
pub record IsToken (l : Bytes) : Type 0 where
  pub one_line : Free newline l
  pub fits : length l < max_scan_token_size

length-drop_cr : (l : Bytes) → length (drop_cr l) ≤ length l
unfolding drop_cr
length-drop_cr [] = omega arith
length-drop_cr (c ∷ []) = ground arith
length-drop_cr (c ∷ d ∷ l) = grind (arith, length-drop_cr (d ∷ l))

Free-drop_cr : (s : ℕ) (l : Bytes) → Free s l → Free s (drop_cr l)
unfolding drop_cr
Free-drop_cr s [] h = tt
Free-drop_cr s (c ∷ []) h = elim (Bool-cases (c == carriage_return)) [
  | inl e ↦ rw e tt
  | inr e ↦ rw e h
]
Free-drop_cr s (c ∷ d ∷ l) h = (h.0, Free-drop_cr s (d ∷ l) h.1)

-- Dropping the carriage return gives no line a new prefix.
pub has_prefix-drop_cr : (p l : Bytes) → has_prefix l p ≡ false → has_prefix (drop_cr l) p ≡ false
unfolding drop_cr has_prefix
has_prefix-drop_cr [] l h = h
has_prefix-drop_cr (x ∷ p) [] h = refl
has_prefix-drop_cr (x ∷ p) (c ∷ []) h = ground arith
has_prefix-drop_cr (x ∷ p) (c ∷ d ∷ l) h = ground (arith, has_prefix-drop_cr p (d ∷ l))

IsToken-drop_cr : (l : Bytes) → IsToken l → IsToken (drop_cr l)
IsToken-drop_cr l t = record {
  one_line = Free-drop_cr newline l t.one_line;
  fits = grind (arith, length-drop_cr l, t.fits);
}

Free-lines : (s : Bytes) → All (Free newline) (lines s)
unfolding lines
Free-lines [] = tt
Free-lines (c ∷ s) = elim (Bool-cases (c == newline)) [
  | inl e ↦ rw e (tt, Free-lines s)
  | inr e ↦ rw e (Free-cons_head c (lines s) (ground arith) (Free-lines s))
]

tokens-IsToken : (ls : List Bytes) → All (Free newline) ls → All IsToken (tokens ls).0
unfolding tokens
tokens-IsToken [] h = tt
tokens-IsToken (l ∷ ls) (h, hs) = elim (Bool-cases (ltb (length l) max_scan_token_size)) [
  | inl e ↦
      rw e (IsToken-drop_cr l (record { one_line = h; fits = ground arith }), tokens-IsToken ls hs)
  | inr e ↦ rw e tt
]

pub scan-IsToken : (s : Bytes) → All IsToken (scan s).0
unfolding scan
scan-IsToken s = tokens-IsToken (lines s) (Free-lines s)

tokens_lem : (ls : List Bytes) → All IsToken ls → tokens ls ≡ (map drop_cr ls, true)
unfolding tokens
tokens_lem [] h = refl
tokens_lem (l ∷ ls) (h, rest) = ground (arith, tokens_lem ls rest, h.fits)

-- A second scan drops a second carriage return, and nothing else.
pub scan-unlines-IsToken :
    (ls : List Bytes) → All IsToken ls → scan (unlines ls) ≡ (map drop_cr ls, true)
unfolding scan
scan-unlines-IsToken ls h =
    rw (lines-unlines ls (All-map _ _ ls (λ l k. k.one_line) h)) (tokens_lem ls h)
