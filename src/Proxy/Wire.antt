-- ===== src/Proxy/Wire.antt =====
-- Reading from a TLS connection as pkg/proxyproto/conn.go does. The bytes that are still to come are
-- a list of records: one Read of crypto/tls returns bytes of one record at most.
use webmesh_vdi.Prelude.{
  ℕ, zero, suc, ◌-◌, Option, none, some, List, [], ◌∷◌, ◌++◌, length, leb, ◌==◌, if◌then◌else◌,
}
use webmesh_vdi.Prelude.Bytes.{Bytes}
use webmesh_vdi.Prelude.Lines.{newline, drop_cr}

abbrev pub take : ℕ → Bytes → Bytes
take zero s = []
take (suc n) [] = []
take (suc n) (c ∷ s) = c ∷ take n s

abbrev pub drop : ℕ → Bytes → Bytes
drop zero s = s
drop (suc n) [] = []
drop (suc n) (c ∷ s) = drop n s

abbrev pub put_back : Bytes → List Bytes → List Bytes
put_back [] records = records
put_back (c ∷ s) records = (c ∷ s) ∷ records

-- io.ReadFull of `n` bytes: what was read, which is shorter at the end of the stream, and the
-- records that are left.
unfoldable pub read_full : ℕ → List Bytes → Bytes × List Bytes
read_full n [] = ([], [])
read_full n (r ∷ rs) =
    let (more, rest) = read_full (n - length r) rs in
    if leb n (length r) then (take n r, put_back (drop n r) rs) else (r ++ more, rest)

-- What stands before the first newline.
unfoldable pub line_of : Bytes → Option Bytes
line_of [] = none
line_of (c ∷ s) =
    let rest = line_of s in
    if c == newline then some [] else (elim rest [ none ↦ none | some p ↦ some (c ∷ p) ])

-- The buffer of a bufio.Scanner starts at 4096 bytes and doubles up to 65536: the space that each
-- growth adds.
abbrev pub start_space : ℕ
start_space = 4096

abbrev pub growths : List ℕ
growths = 4096 ∷ 8192 ∷ 16384 ∷ 32768 ∷ []

-- Where the scanner stands once it has read from one record: it has a line, with the unread part of
-- the record; it wants another record; or its buffer is full and cannot grow, with the unread part of
-- the record. Bytes behind the newline that were read into the buffer are lost with the scanner.
pub data Fed : Type 0 where
  line : (text unread : Bytes) → Fed
  more : (left : List ℕ) (space : ℕ) (buf : Bytes) → Fed
  full : (unread : Bytes) → Fed

-- The record fits the space.
unfoldable pub absorb : List ℕ → ℕ → Bytes → Bytes → Fed
absorb left space buf r = elim (line_of r) [
  | some p ↦ line (drop_cr (buf ++ p)) []
  | none ↦ more left (space - length r) (buf ++ r)
]

unfoldable pub feed : List ℕ → ℕ → Bytes → Bytes → Fed
feed [] space buf r =
    if leb (length r) space then absorb [] space buf r else elim (line_of (take space r)) [
      | some p ↦ line (drop_cr (buf ++ p)) (drop space r)
      | none ↦ full (drop space r)
    ]
feed (g ∷ left) space buf r =
    let grown = feed left g (buf ++ take space r) (drop space r) in
    if leb (length r) space then absorb (g ∷ left) space buf r else elim (line_of (take space r)) [
      | some p ↦ line (drop_cr (buf ++ p)) (drop space r)
      | none ↦ grown
    ]

-- At the end of the stream what is in the buffer is the line, unless the buffer is full and cannot
-- grow: `none` is ErrTooLong.
unfoldable pub at_end : List ℕ → ℕ → Bytes → Option Bytes
at_end [] zero buf = none
at_end [] (suc space) buf = some (drop_cr buf)
at_end (g ∷ left) space buf = some (drop_cr buf)

-- One Scan with the Text behind it.
unfoldable pub scan_line : List ℕ → ℕ → Bytes → List Bytes → Option Bytes × List Bytes
scan_line left space buf [] = (at_end left space buf, [])
scan_line left space buf (r ∷ rs) = elim (feed left space buf r) [
  | line text unread ↦ (some text, put_back unread rs)
  | more left' space' buf' ↦ scan_line left' space' buf' rs
  | full unread ↦ (none, put_back unread rs)
]

-- A new scanner on the connection.
unfoldable pub read_line : List Bytes → Option Bytes × List Bytes
read_line records = scan_line growths start_space [] records
