-- ===== src/Proxy/Spec.antt =====
-- What a proxy promises for a download, without connections: the file and its description, or the
-- text of the first error.
use webmesh_vdi.Prelude.{
  ◌≡◌, refl, inl, inr, not, ◌||◌, ◌==◌, List, length, if◌then◌else◌, Bool-cases,
}
use webmesh_vdi.Prelude.Bytes.{Bytes}
use webmesh_vdi.Proxy.Lines.{concat}
use webmesh_vdi.Proxy.Conn.{Conn, Fallible, ok, failed, write_error}
use webmesh_vdi.Proxy.Requests.{FGetRequest, FGetResponse}
use webmesh_vdi.Proxy.Paths.{base, get_local_path}
use webmesh_vdi.Proxy.Host.{FileInfo, File, Host, header}
use webmesh_vdi.Proxy.Server.{
  no_header, no_seek, or_error, serve_opened, serve_file, serve_dir, serve_path, answer_get,
  write_response,
}

-- A description with the body that follows it.
abbrev pub Download : Type 0
Download = FGetResponse × List Bytes

unfoldable pub then_with :
    {A S B : Type 0} → Fallible A → (A → S → Fallible B × S) → S → Fallible B × S
then_with (ok a) k s = k a s
then_with (failed message) k s = (failed message, s)

-- What the answer to a result is on the wire.
unfoldable pub reply : {S : Type 0} → Fallible Download × S → Conn → Conn × S
reply (ok (res, body), s) c = (write_response res body c, s)
reply (failed message, s) c = (write_error message c, s)

module _ {S : Type 0} (host : Host S) where
  unfoldable pub opened_download : FileInfo → File → S → Fallible Download × S
  opened_download info f s =
      if not f.readable || (length (concat f.reads) == 0)
      then (failed no_header, s)
      else if not f.seekable
      then (failed no_seek, s)
      else (
        ok (
          record {
            name = base info.name;
            content_type = host.detect_content_type (header 512 (concat f.reads));
            size = info.size;
          },
          f.reads,
        ),
        s,
      )

  unfoldable pub file_download : FileInfo → Bytes → S → Fallible Download × S
  file_download info path s = then_with (host.open_file path s) (opened_download info) s

  unfoldable pub tar_download : Bytes → S → Fallible Download × S
  tar_download path s =
      let (r, s') = host.tar_directory path s in
      then_with r
        (λ tarball t. then_with (host.stat tarball t) (λ info. file_download info tarball) t) s'

  unfoldable pub download : FGetRequest → S → Fallible Download × S
  download req s =
      then_with (get_local_path (host.home_stat s) req.path)
        (λ path t.
          then_with (host.stat path t)
            (λ info. if info.is_dir then tar_download path else file_download info path) t)
        s

  or_error-then_with :
      {A : Type 0} (r : Fallible A) (k : A → Conn → S → Conn × S)
      (g : A → S → Fallible Download × S) (c : Conn) (s : S)
      → ((a : A) → (t : S) → k a c t ≡ reply (g a t) c)
      → or_error host r k c s ≡ reply (then_with r g s) c
  unfolding or_error reply then_with
  or_error-then_with (ok a) k g c s h = h a s
  or_error-then_with (failed message) k g c s h = refl

  serve_opened-reply :
      (info : FileInfo) (f : File) (c : Conn) (s : S)
      → serve_opened host info f c s ≡ reply (opened_download info f s) c
  unfolding serve_opened opened_download reply
  serve_opened-reply info f c s =
      elim (Bool-cases (not f.readable || (length (concat f.reads) == 0))) [
        | inl e ↦ rw e refl
        | inr e ↦ elim (Bool-cases (not f.seekable)) [
          | inl e' ↦ rw (e, e') refl
          | inr e' ↦ rw (e, e') refl
        ]
      ]

  serve_file-reply :
      (info : FileInfo) (path : Bytes) (c : Conn) (s : S)
      → serve_file host info path c s ≡ reply (file_download info path s) c
  unfolding serve_file file_download
  serve_file-reply info path c s =
      or_error-then_with (host.open_file path s) _ _ c s (λ f t. serve_opened-reply info f c t)

  serve_dir-reply :
      (path : Bytes) (c : Conn) (s : S) → serve_dir host path c s ≡ reply (tar_download path s) c
  unfolding serve_dir tar_download
  serve_dir-reply path c s =
      let (r, s') = host.tar_directory path s in
      or_error-then_with r _ _ c s' (λ tarball t.
        or_error-then_with (host.stat tarball t) _ _ c t
          (λ info t'. serve_file-reply info tarball c t'))

  serve_path-reply :
      (path : Bytes) (info : FileInfo) (c : Conn) (s : S)
      → serve_path host path info c s
        ≡ reply ((if info.is_dir then tar_download path else file_download info path) s) c
  unfolding serve_path
  serve_path-reply path info c s = elim (Bool-cases info.is_dir) [
    | inl e ↦ rw e (serve_dir-reply path c s)
    | inr e ↦ simp e (serve_file-reply info path c s)
  ]

  -- The handler answers with what the download is.
  pub answer_get-reply :
      (req : FGetRequest) (c : Conn) (s : S) → answer_get host req c s ≡ reply (download req s) c
  unfolding answer_get download
  answer_get-reply req c s =
      or_error-then_with (get_local_path (host.home_stat s) req.path) _ _ c s (λ path t.
        or_error-then_with (host.stat path t) _ _ c t (λ info t'. serve_path-reply path info c t'))
