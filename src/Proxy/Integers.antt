-- ===== src/Proxy/Integers.antt =====
-- The 64-bit integers of pkg/proxyproto/conn.go, on the wire as eight bytes, the lowest first.
use webmesh_vdi.Prelude.{
  ℕ, zero, suc, ◌+◌, ◌-◌, ◌*◌, ◌/◌, ◌%◌, ◌^◌, ◌<◌, ◌≡◌, refl, ap, [], ◌∷◌, arith, ltb, length,
  if◌then◌else◌,
}
use webmesh_vdi.Prelude.Bytes.{Bytes}

pub data ℤ : Type 0 where
  pos : ℕ → ℤ
  negsuc : ℕ → ℤ

-- An int64: negsuc n is -1 - n.
abbrev pub IsInt64 : ℤ → Type 0
IsInt64 (pos n) = n < 2 ^ 63
IsInt64 (negsuc n) = n < 2 ^ 63

-- `uint64(num)`
unfoldable pub to_uint64 : ℤ → ℕ
to_uint64 (pos n) = n % 2 ^ 64
to_uint64 (negsuc n) = 2 ^ 64 - 1 - n % 2 ^ 64

-- `int64(u)`
unfoldable pub to_int64 : ℕ → ℤ
to_int64 u = if ltb u (2 ^ 63) then pos u else negsuc (2 ^ 64 - 1 - u)

-- The `k` lowest bytes: binary.LittleEndian.PutUint64 for eight.
unfoldable pub put_uint : ℕ → ℕ → Bytes
put_uint zero u = []
put_uint (suc k) u = (u % 256) ∷ put_uint k (u / 256)

-- binary.LittleEndian.Uint64 on eight bytes.
unfoldable pub get_uint : Bytes → ℕ
get_uint [] = 0
get_uint (b ∷ bs) = b + 256 * get_uint bs

pub length-put_uint : (k u : ℕ) → length (put_uint k u) ≡ k
unfolding put_uint
length-put_uint zero u = refl
length-put_uint (suc k) u = ap suc (length-put_uint k (u / 256))

get_uint-put_uint : (k u : ℕ) → u < 256 ^ k → get_uint (put_uint k u) ≡ u
unfolding put_uint get_uint
get_uint-put_uint zero u h = omega arith
get_uint-put_uint (suc k) u h = omega (arith, get_uint-put_uint k (u / 256) (omega arith))

to_int64-to_uint64 : (z : ℤ) → IsInt64 z → to_int64 (to_uint64 z) ≡ z
unfolding to_uint64 to_int64
to_int64-to_uint64 (pos n) h = ground arith
to_int64-to_uint64 (negsuc n) h = ground arith

to_uint64-bound : (z : ℤ) → to_uint64 z < 2 ^ 64
unfolding to_uint64
to_uint64-bound (pos n) = omega arith
to_uint64-bound (negsuc n) = omega arith

pub int64_of_bytes : (z : ℤ) → IsInt64 z → to_int64 (get_uint (put_uint 8 (to_uint64 z))) ≡ z
int64_of_bytes z h =
    rw (get_uint-put_uint 8 (to_uint64 z) (to_uint64-bound z)) (to_int64-to_uint64 z h)
