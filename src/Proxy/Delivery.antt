-- ===== src/Proxy/Delivery.antt =====
-- What one side of a connection writes as the other side reads it: the records of crypto/tls, which
-- cut a Write but never join two.
use webmesh_vdi.Prelude.{
  ℕ, ◌-◌, ◌<◌, ◌≡◌, ◌≢◌, refl, sym, ap, false, List, [], ◌∷◌, ◌++◌, arith, All, length,
  length-append, leb,
}
use mathlib.Core.Path.{subst}
use mathlib.Core.List.{append_assoc, append-nil}
use webmesh_vdi.Prelude.Bytes.{Bytes}
use webmesh_vdi.Prelude.Lines.{newline, IsLine}
use webmesh_vdi.Proxy.Wire.{take, drop, read_full}
use webmesh_vdi.Proxy.Lines.{concat, Carries, read_line-Carries}
use webmesh_vdi.Proxy.Integers.{ℤ, IsInt64, to_uint64, put_uint, length-put_uint, int64_of_bytes}
use webmesh_vdi.Proxy.Conn.{
  Conn, ok, read_byte, read_string, read_int64, took, first_byte, scanned, eight_bytes,
}

-- The records carry the Writes one after the other.
abbrev pub Delivered : List Bytes → List Bytes → Type 0
Delivered [] records = records ≡ []
Delivered (w ∷ ws) records =
    (rs : List Bytes) × (rest : List Bytes) × (records ≡ rs ++ rest)
    × Carries w rs
    × Delivered ws rest

take-all : (s : Bytes) → take (length s) s ≡ s
take-all [] = refl
take-all (c ∷ s) = ap (◌∷◌ c) (take-all s)

drop-all : (s : Bytes) → drop (length s) s ≡ []
drop-all [] = refl
drop-all (c ∷ s) = drop-all s

length-nonempty : (q : Bytes) → q ≢ [] → 0 < length q
length-nonempty [] n = absurd (n refl)
length-nonempty (c ∷ q) n = omega arith

-- Reading as many bytes as the records have leaves what is behind them.
read_full-concat :
    (r : Bytes) (rs rest : List Bytes)
    → All (λ q. q ≢ []) rs
    → read_full (length (concat (r ∷ rs))) ((r ∷ rs) ++ rest) ≡ (concat (r ∷ rs), rest)
unfolding read_full
read_full-concat r [] rest n = rw (append-nil r, take-all r, drop-all r) (ground arith)
read_full-concat r (q ∷ rs) rest (k, n) =
    let ih = read_full-concat q rs rest n in
    let longer : leb (length (concat (r ∷ q ∷ rs))) (length r) ≡ false = ground (
      arith,
      length-append r (concat (q ∷ rs)),
      length-append q (concat rs),
      length-nonempty q k,
    ) in
    let less : length (concat (r ∷ q ∷ rs)) - length r ≡ length (concat (q ∷ rs)) =
      omega (arith, length-append r (concat (q ∷ rs))) in
    rw (longer, less, ih) refl

read_full-Carries :
    (w : Bytes) (rs rest : List Bytes)
    → w ≢ []
    → Carries w rs
    → read_full (length w) (rs ++ rest) ≡ (w, rest)
read_full-Carries w [] rest n c = absurd (n (sym c.whole))
read_full-Carries w (r ∷ rs) rest n c = rw (sym c.whole) (read_full-concat r rs rest c.nonempty.1)

module _ (c : Conn) (is_open : c.closed ≡ false) (rs rest : List Bytes)
    (at : c.input ≡ rs ++ rest) where
  pub read_byte-Carries : (b : ℕ) → Carries (b ∷ []) rs → read_byte c ≡ (ok b, took (b ∷ []) rest c)
  unfolding read_byte
  read_byte-Carries b h =
      rw (is_open, at, read_full-Carries (b ∷ []) rs rest (λ e. cc e) h) (unfold first_byte in refl)

  pub read_string-Carries :
      (s : Bytes)
      → IsLine s
      → Carries (s ++ newline ∷ []) rs
      → read_string c ≡ (ok s, took s rest c)
  unfolding read_string
  read_string-Carries s l h =
      rw (is_open, at, read_line-Carries s rs rest l h) (unfold scanned in refl)

  pub read_int64-Carries :
      (z : ℤ)
      → IsInt64 z
      → Carries (put_uint 8 (to_uint64 z)) rs
      → read_int64 c ≡ (ok z, took (put_uint 8 (to_uint64 z)) rest c)
  unfolding read_int64
  read_int64-Carries z b h =
      let w = put_uint 8 (to_uint64 z) in
      let full : read_full 8 (rs ++ rest) ≡ (w, rest) =
        subst (λ (n : ℕ). read_full n (rs ++ rest) ≡ (w, rest)) (length-put_uint 8 (to_uint64 z))
          (read_full-Carries w rs rest
            (λ e. omega (arith, ap length e, length-put_uint 8 (to_uint64 z))) h) in
      rw (is_open, at, full)
        (unfold eight_bytes in (rw (length-put_uint 8 (to_uint64 z), int64_of_bytes z b) refl))

concat-append : (rs qs : List Bytes) → concat (rs ++ qs) ≡ concat rs ++ concat qs
concat-append [] qs = refl
concat-append (r ∷ rs) qs = rw (concat-append rs qs, append_assoc r (concat rs) (concat qs)) refl

-- The records have the bytes of the Writes.
pub concat-Delivered : (ws rs : List Bytes) → Delivered ws rs → concat rs ≡ concat ws
concat-Delivered [] rs h = rw h refl
concat-Delivered (w ∷ ws) records (rs, rest, e, c, h) =
    rw (e, concat-append rs rest, c.whole, concat-Delivered ws rest h) refl
