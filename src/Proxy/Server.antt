-- ===== src/Proxy/Server.antt =====
-- The handlers of a desktop proxy: pkg/proxyproto/server/handlers.go and the dispatch of server.go.
-- What they call outside of it is the parameter `host`.
use webmesh_vdi.Prelude.{
  ℕ, zero, suc, ◌+◌, ◌-◌, true, false, not, ◌||◌, Option, none, some, List, [], ◌∷◌, map, length,
  leb, ◌==◌, if◌then◌else◌,
}
use webmesh_vdi.Prelude.Bytes.{Bytes, codes}
use webmesh_vdi.Proxy.Wire.{take, drop, put_back}
use webmesh_vdi.Proxy.Lines.{concat}
use webmesh_vdi.Proxy.Integers.{ℤ, pos, negsuc}
use webmesh_vdi.Proxy.Conn.{
  Fallible, ok, failed, Conn, close, end_of_file, new_conn, write, write_status, write_error,
  request_ok, and_then,
}
use webmesh_vdi.Proxy.Requests.{
  FStatRequest, FGetRequest, FGetResponse, FPutRequest, request_type_display, request_type_audio,
  request_type_fstat, request_type_fget, request_type_fput, recv_stat_request, recv_get_request,
  recv_put_request, send_get_response,
}
use webmesh_vdi.Proxy.Host.{FileInfo, File, file_stat, StatResponse, Host, header, entry_stat}
use webmesh_vdi.Proxy.Paths.{base, join_path, get_local_path}

abbrev pub no_header : Bytes
no_header = codes "Failed to read header from file"

abbrev pub no_seek : Bytes
no_seek = codes "Failed to seek to beginning of file"

abbrev pub upload_dir : Bytes
upload_dir = codes "/mnt/home/Uploads"

-- WriteResponse: errors are logged.
unfoldable pub write_response : FGetResponse → List Bytes → Conn → Conn
write_response res body c =
    let (r, d) = and_then (write_status request_ok c) (λ n. send_get_response res body) in d

-- io.CopyN copies nothing, and without an error, where the size is negative.
unfoldable pub to_copy : ℤ → ℕ
to_copy (pos n) = n
to_copy (negsuc n) = 0

-- The request types that have a handler.
pub data Handler : Type 0 where
  display_handler : Handler
  audio_handler : Handler
  stat_handler : Handler
  get_handler : Handler
  put_handler : Handler

unfoldable pub handler : ℕ → Option Handler
handler rt =
    if rt == request_type_display
    then some display_handler
    else if rt == request_type_audio
    then some audio_handler
    else if rt == request_type_fstat
    then some stat_handler
    else if rt == request_type_fget
    then some get_handler
    else if rt == request_type_fput
    then some put_handler
    else none

-- How a connection ends up: its goroutine panics on a nil connection, it is left alone, it is
-- handed to one of the two streaming handlers, or a file handler has served it.
pub data Served (S : Type 0) : Type 0 where
  panicked : Conn → S → Served S
  unhandled : Conn → S → Served S
  streaming : Handler → Conn → S → Served S
  served : Conn → S → Served S

-- A Write to the file that fails ends the copying.
unfoldable pub after_write :
    {S : Type 0}
    → Fallible ℕ × S
    → List Bytes
    → (S → Fallible ℕ × List Bytes × S)
    → Fallible ℕ × List Bytes × S
after_write (ok k, s) rs rest = rest s
after_write (failed message, s) rs rest = (failed message, rs, s)

module _ {S : Type 0} (host : Host S) where
  -- A handler's call: go on with its result, or write its error to the client and return.
  unfoldable pub or_error :
      {A : Type 0} → Fallible A → (A → Conn → S → Conn × S) → Conn → S → Conn × S
  or_error (ok a) k c s = k a c s
  or_error (failed message) k c s = (write_error message c, s)

  -- What was read from the request, or its error, is answered, and `defer` closes the connection.
  unfoldable pub answer_read :
      {A : Type 0} → Fallible A × Conn → (A → Conn → S → Conn × S) → S → Conn × S
  unfolding or_error
  answer_read (r, c) k s = let (d, t) = or_error r k c s in (close d, t)

  unfoldable pub serve_opened : FileInfo → File → Conn → S → Conn × S
  serve_opened info f c s =
      if not f.readable || (length (concat f.reads) == 0)
      then (write_error no_header c, s)
      else if not f.seekable
      then (write_error no_seek c, s)
      else (
        write_response
            record {
              name = base info.name;
              content_type = host.detect_content_type (header 512 (concat f.reads));
              size = info.size;
            }
            f.reads c,
        s,
      )

  unfoldable pub serve_file : FileInfo → Bytes → Conn → S → Conn × S
  serve_file info path c s = or_error (host.open_file path s) (serve_opened info) c s

  unfoldable pub serve_dir : Bytes → Conn → S → Conn × S
  unfolding or_error
  serve_dir path c s =
      let (r, s') = host.tar_directory path s in
      or_error r
        (λ tarball c' t. or_error (host.stat tarball t) (λ info. serve_file info tarball) c' t) c s'

  unfoldable pub serve_path : Bytes → FileInfo → Conn → S → Conn × S
  serve_path path info = if info.is_dir then serve_dir path else serve_file info path

  unfoldable pub answer_get : FGetRequest → Conn → S → Conn × S
  unfolding or_error
  answer_get req c s =
      or_error (get_local_path (host.home_stat s) req.path)
        (λ path d t. or_error (host.stat path t) (serve_path path) d t) c s

  unfoldable pub handle_get : Conn → S → Conn × S
  unfolding answer_read
  handle_get c s = answer_read (recv_get_request c) answer_get s

  -- What a stat request answers with.
  unfoldable pub stat_response : Bytes → FileInfo → S → Fallible StatResponse
  stat_response path info s =
      let entries = host.read_dir path s in
      if info.is_dir
      then elim entries [
        | ok files ↦ ok record {
          stat = file_stat info.name true (pos 0);
          contents = some (map entry_stat files);
        }
        | failed message ↦ failed message
      ]
      else ok record { stat = file_stat info.name false info.size; contents = none }

  -- The answer goes out as one Write behind the status; errors of the two are logged.
  unfoldable pub write_stat : Bytes → Conn → S → Conn × S
  write_stat out c s = let (r, d) = and_then (write_status request_ok c) (λ n. write out) in (d, s)

  unfoldable pub describe : Bytes → FileInfo → Conn → S → Conn × S
  unfolding or_error
  describe path info c s =
      or_error (stat_response path info s)
        (λ resp d t. or_error (host.marshal_indent resp) write_stat d t) c s

  unfoldable pub answer_stat : FStatRequest → Conn → S → Conn × S
  unfolding or_error
  answer_stat req c s =
      or_error (get_local_path (host.home_stat s) req.path)
        (λ path d t. or_error (host.stat path t) (describe path) d t) c s

  unfoldable pub handle_stat : Conn → S → Conn × S
  unfolding answer_read
  handle_stat c s = answer_read (recv_stat_request c) answer_stat s

  -- io.CopyN to a file: what it says, the records that are left, and the state.
  unfoldable pub copy_n : Bytes → ℕ → List Bytes → S → Fallible ℕ × List Bytes × S
  unfolding after_write
  copy_n path zero rs s = (ok 0, rs, s)
  copy_n path (suc n) [] s = (failed end_of_file, [], s)
  copy_n path (suc n) (r ∷ rs) s =
      let rest = copy_n path (suc n - length r) rs in
      let left = put_back (drop (suc n) r) rs in
      if leb (length r) n
      then after_write (host.write_file path r s) rs rest
      else after_write (host.write_file path (take (suc n) r) s) left (λ t. (ok 0, left, t))

  -- The upload, once its file is created.
  unfoldable pub store_upload : Bytes → FPutRequest → Conn → S → Conn × S
  unfolding or_error
  store_upload path req c s =
      let (r, left, s') = copy_n path (to_copy req.size) c.input s in
      let d = record c {
        input = left;
        rsize = c.rsize + (length (concat c.input) - length (concat left));
      } in
      or_error r
        (λ k c1 s1.
          let (owned, s2) = host.chown path s1 in
          or_error owned (λ n c2 s3. let (sent, c3) = write_status request_ok c2 in (c3, s3)) c1 s2)
        d s'

  unfoldable pub upload_path : FPutRequest → Bytes
  upload_path req = join_path (codes "mnt/home/Uploads") (host.sanitize_base_name req.name)

  -- The three calls before the copying.
  unfoldable pub prepare_upload : Bytes → S → Fallible ℕ × S
  prepare_upload path s =
      let (made, s1) = host.mkdir_all upload_dir s in
      let (owned, s2) = host.chown upload_dir s1 in
      elim made [
        | failed message ↦ (failed message, s1)
        | ok n ↦ elim owned [ failed message ↦ (failed message, s2) | ok n' ↦ host.create path s2 ]
      ]

  unfoldable pub answer_put : FPutRequest → Conn → S → Conn × S
  unfolding or_error
  answer_put req c s =
      let (created, t) = prepare_upload (upload_path req) s in
      or_error created (λ n. store_upload (upload_path req) req) c t

  unfoldable pub handle_put : Conn → S → Conn × S
  unfolding answer_read
  handle_put c s = answer_read (recv_put_request c) answer_put s

  unfoldable pub run_handler : Option Handler → Conn → S → Served S
  run_handler none c s = unhandled c s
  run_handler (some display_handler) c s = streaming display_handler c s
  run_handler (some audio_handler) c s = streaming audio_handler c s
  run_handler (some stat_handler) c s = let (d, t) = handle_stat c s in served d t
  run_handler (some get_handler) c s = let (d, t) = handle_get c s in served d t
  run_handler (some put_handler) c s = let (d, t) = handle_put c s in served d t

  unfoldable pub dispatch : Fallible ℕ × Conn → S → Served S
  unfolding run_handler
  dispatch (ok rtype, c) s = run_handler (handler rtype) c s
  dispatch (failed message, c) s = panicked c s

  unfoldable pub handle_conn : Conn → S → Served S
  unfolding dispatch
  handle_conn c s = dispatch (new_conn c) s
