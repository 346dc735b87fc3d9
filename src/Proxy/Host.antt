-- ===== src/Proxy/Host.antt =====
-- What the handlers of pkg/proxyproto/server/handlers.go call: the operating system, the sanitizer of
-- names, the sniffing of a content type, the encoding as JSON and the tarball of a directory
-- (pkg/util/common) are parameters. The files as the handlers describe them are of pkg/types.
use webmesh_vdi.Prelude.{ℕ, zero, suc, Bool, Option, List, [], ◌∷◌, if◌then◌else◌}
use webmesh_vdi.Prelude.Bytes.{Bytes}
use webmesh_vdi.Proxy.Integers.{ℤ, pos}
use webmesh_vdi.Proxy.Conn.{Fallible, ok, failed}

pub record FileInfo : Type 0 where
  pub name : Bytes
  pub is_dir : Bool
  pub size : ℤ

-- An entry of a directory, with what its Info gives.
pub record DirEntry : Type 0 where
  pub name : Bytes
  pub is_dir : Bool
  pub info : Fallible FileInfo

-- An opened file: what its Reads give from the start, and whether it can be read and sought.
pub record File : Type 0 where
  pub reads : List Bytes
  pub readable : Bool
  pub seekable : Bool

pub data FileStat : Type 0 where
  file_stat : (name : Bytes) (is_directory : Bool) (size : ℤ) → FileStat

-- StatDesktopFileResponse: a directory has contents.
pub record StatResponse : Type 0 where
  pub stat : FileStat
  pub contents : Option (List FileStat)

-- What the handlers call outside of this repository, and the state that those calls change.
pub record Host (S : Type 0) : Type 0 where
  pub home_stat : S → Bool
  pub stat : Bytes → S → Fallible FileInfo
  pub read_dir : Bytes → S → Fallible (List DirEntry)
  pub open_file : Bytes → S → Fallible File
  pub mkdir_all : Bytes → S → Fallible ℕ × S
  pub chown : Bytes → S → Fallible ℕ × S
  pub create : Bytes → S → Fallible ℕ × S
  pub write_file : Bytes → Bytes → S → Fallible ℕ × S
  pub tar_directory : Bytes → S → Fallible Bytes × S
  pub sanitize_base_name : Bytes → Bytes
  pub detect_content_type : Bytes → Bytes
  pub marshal_indent : StatResponse → Fallible Bytes

-- The first 512 bytes, as a buffer that starts with zeros holds them.
abbrev pub header : ℕ → Bytes → Bytes
header zero s = []
header (suc n) [] = 0 ∷ header n []
header (suc n) (c ∷ s) = c ∷ header n s

-- The size of an entry that is a directory, or whose Info fails, is 0.
unfoldable pub size_of_info : Fallible FileInfo → ℤ
size_of_info (ok info) = info.size
size_of_info (failed message) = pos 0

unfoldable pub entry_stat : DirEntry → FileStat
entry_stat e = file_stat e.name e.is_dir (if e.is_dir then pos 0 else size_of_info e.info)
