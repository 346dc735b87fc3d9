-- ===== src/Proxy/Paths.antt =====
-- The paths that a proxy serves: getLocalPathFromRequest of pkg/proxyproto/server/util.go, with the
-- lexical path/filepath.Join and Base that it uses.
use webmesh_vdi.Prelude.{ℕ, Bool, not, ◌||◌, Option, none, some, List, [], ◌∷◌, ◌++◌, if◌then◌else◌}
use webmesh_vdi.Prelude.Bytes.{Bytes, codes, bytes_eq, has_prefix, split_on, join}
use webmesh_vdi.Proxy.Conn.{Fallible, ok, failed}

abbrev pub slash : ℕ
slash = 47

abbrev pub dot : Bytes
dot = codes "."

abbrev pub dot_dot : Bytes
dot_dot = codes ".."

-- One element of a rooted path, put on the elements before it, the last of them first.
unfoldable pub enter : List Bytes → Bytes → List Bytes
enter [] p = if bytes_eq p [] || bytes_eq p dot || bytes_eq p dot_dot then [] else p ∷ []
enter (q ∷ st) p =
    if bytes_eq p [] || bytes_eq p dot
    then q ∷ st
    else if bytes_eq p dot_dot
    then st
    else p ∷ q ∷ st

abbrev pub reverse_onto : List Bytes → List Bytes → List Bytes
reverse_onto [] out = out
reverse_onto (q ∷ st) out = reverse_onto st (q ∷ out)

abbrev pub resolve : List Bytes → List Bytes → List Bytes
resolve st [] = reverse_onto st []
resolve st (p ∷ ps) = resolve (enter st p) ps

-- The elements of the cleaned path `/s`.
unfoldable pub clean : Bytes → List Bytes
clean s = resolve [] (split_on slash s)

unfoldable pub rooted : List Bytes → Bytes
rooted ps = slash ∷ join slash ps

-- `filepath.Join("/dir", path)` for an absolute directory that is given without its first slash.
unfoldable pub join_path : Bytes → Bytes → Bytes
join_path dir path = rooted (clean (dir ++ slash ∷ path))

unfoldable pub last_part : List Bytes → Option Bytes
last_part [] = none
last_part (p ∷ ps) =
    let rest = last_part ps in
    elim rest [ some q ↦ some q | none ↦ if bytes_eq p [] then none else some p ]

-- `filepath.Base`
unfoldable pub base : Bytes → Bytes
base [] = dot
base (c ∷ s) = elim (last_part (split_on slash (c ∷ s))) [ some p ↦ p | none ↦ slash ∷ [] ]

abbrev pub home_dir : Bytes
home_dir = codes "mnt/home"

-- DesktopHomeMntPath
abbrev pub desktop_home_mnt_path : Bytes
desktop_home_mnt_path = codes "/mnt/home"

abbrev pub transfer_disabled : Bytes
transfer_disabled = codes "File transfer is disabled for this desktop session"

-- `home_stat` is what os.Stat says of the mount path. The error names the joined path.
unfoldable pub get_local_path : Bool → Bytes → Fallible Bytes
get_local_path home_stat path =
    let abs_path = join_path home_dir path in
    if not home_stat
    then failed transfer_disabled
    else if has_prefix abs_path desktop_home_mnt_path
    then ok abs_path
    else failed (abs_path ++ codes " is outside the user's home directory")
