-- ===== src/Secrets/Engine.antt =====
-- The secrets engine of pkg/secrets/secrets_engine.go: a cache with an expiry in front of a backend.
-- The clock is an argument, in seconds.
use webmesh_vdi.Prelude.{
  ℕ, ◌+◌, Bool, true, false, Option, none, some, [], ◌∷◌, ◌++◌, ◌==◌, ltb, if◌then◌else◌,
}
use webmesh_vdi.Prelude.Bytes.{Bytes, bytes_eq}
use webmesh_vdi.Prelude.Lines.{newline}
use webmesh_vdi.Secrets.Store.{ReadResult, found, absent, unreadable, Backend}

pub record CacheItem (M : Type 0) : Type 0 where
  pub contents : Option Bytes
  pub contents_map : Option M
  pub expires_at : ℕ

pub record Engine (B : Type 0) (M : Type 0) : Type 0 where
  pub state : B
  pub cache : Bytes → Option (CacheItem M)
  pub cache_ttl : ℕ

unfoldable pub ends_in_newline : Bytes → Bool
ends_in_newline [] = false
ends_in_newline (c ∷ []) = c == newline
ends_in_newline (c ∷ d ∷ s) = ends_in_newline (d ∷ s)

-- The value with the line added, on a line of its own.
unfoldable pub appended : Bytes → Bytes → Bytes
appended [] line = line
appended (c ∷ s) line = (c ∷ s) ++ (if ends_in_newline (c ∷ s) then line else newline ∷ line)

module _ {B : Type 0} {M : Type 0} (backend : Backend B M) where
  unfoldable pub cached : Option (CacheItem M) → ℕ → Option (CacheItem M)
  cached none now = none
  cached (some item) now = if ltb now item.expires_at then some item else none

  unfoldable pub read_cache : Bytes → ℕ → Engine B M → Option Bytes
  read_cache name now e = elim (cached (e.cache name) now) [
    | some item ↦ item.contents
    | none ↦ none
  ]

  unfoldable pub read_cache_map : Bytes → ℕ → Engine B M → Option M
  read_cache_map name now e = elim (cached (e.cache name) now) [
    | some item ↦ item.contents_map
    | none ↦ none
  ]

  abbrev pub set_cache : Bytes → CacheItem M → Engine B M → Engine B M
  set_cache name item e = record e {
    cache = λ other. if bytes_eq other name then some item else e.cache other;
  }

  unfoldable pub write_cache : Bytes → Option Bytes → ℕ → Engine B M → Engine B M
  write_cache name contents now e =
      set_cache name
        record { contents = contents; contents_map = none; expires_at = now + e.cache_ttl } e

  unfoldable pub write_cache_map : Bytes → Option M → ℕ → Engine B M → Engine B M
  write_cache_map name m now e =
      set_cache name record { contents = none; contents_map = m; expires_at = now + e.cache_ttl } e

  unfoldable pub fetched : Bytes → ℕ → ReadResult Bytes → Engine B M → ReadResult Bytes × Engine B M
  fetched name now (found v) e = (found v, write_cache name (some v) now e)
  fetched name now absent e = (absent, e)
  fetched name now unreadable e = (unreadable, e)

  unfoldable pub read_secret : Bytes → Bool → ℕ → Engine B M → ReadResult Bytes × Engine B M
  unfolding fetched
  read_secret name use_cache now e = elim (if use_cache then read_cache name now e else none) [
    | some v ↦ (found v, e)
    | none ↦ fetched name now (backend.read name e.state) e
  ]

  unfoldable pub fetched_map : Bytes → ℕ → ReadResult M → Engine B M → ReadResult M × Engine B M
  fetched_map name now (found m) e = (found m, write_cache_map name (some m) now e)
  fetched_map name now absent e = (absent, e)
  fetched_map name now unreadable e = (unreadable, e)

  unfoldable pub read_secret_map : Bytes → Bool → ℕ → Engine B M → ReadResult M × Engine B M
  unfolding fetched_map
  read_secret_map name use_cache now e =
      elim (if use_cache then read_cache_map name now e else none) [
        | some m ↦ (found m, e)
        | none ↦ fetched_map name now (backend.read_map name e.state) e
      ]

  -- The nil error is `true`.
  unfoldable pub write_secret : Bytes → Option Bytes → ℕ → Engine B M → Bool × Engine B M
  write_secret name contents now e =
      let (done, st) = backend.write name contents e.state in
      (
        done,
        if done
            then write_cache name contents now (record e { state = st })
            else record e { state = st },
      )

  unfoldable pub write_secret_map : Bytes → Option M → ℕ → Engine B M → Bool × Engine B M
  write_secret_map name m now e =
      let (done, st) = backend.write_map name m e.state in
      (
        done,
        if done
            then write_cache_map name m now (record e { state = st })
            else record e { state = st },
      )

  unfoldable pub append_to : Bytes → Bytes → ℕ → ReadResult Bytes × Engine B M → Bool × Engine B M
  append_to name line now (found v, e) = write_secret name (some (appended v line)) now e
  append_to name line now (absent, e) = write_secret name (some (appended [] line)) now e
  append_to name line now (unreadable, e) = (false, e)

  unfoldable pub append_secret : Bytes → Bytes → ℕ → Engine B M → Bool × Engine B M
  unfolding append_to
  append_secret name line now e = append_to name line now (read_secret name true now e)
