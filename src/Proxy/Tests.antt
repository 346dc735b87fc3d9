-- ===== src/Proxy/Tests.antt =====
-- Tests of the protocol on concrete connections.
use webmesh_vdi.Prelude.{
  ◌≡◌, ◌⊎◌, ◌↔◌, refl, ap, Bool, true, false, not, ◌&&◌, some, List, [], ◌∷◌, ◌++◌, arith, All,
  length, ◌==◌, leb,
}
use mathlib.Core.List.{append-nil}
use webmesh_vdi.Prelude.Bytes.{
  Bytes, codes, lacks, Free-of_lacks, bytes_eq, has_prefix, split_on, join, cons_head,
}
use webmesh_vdi.Prelude.Lines.{newline, carriage_return, IsLine, drop_cr}
use webmesh_vdi.Proxy.Wire.{take, read_full, line_of, absorb, feed, scan_line, at_end, read_line}
use webmesh_vdi.Proxy.Lines.{concat, read_line-Carries}
use webmesh_vdi.Proxy.Integers.{pos, to_uint64, to_int64, put_uint, get_uint}
use webmesh_vdi.Proxy.Conn.{
  Conn, ok, failed, and_then, write, write_byte, write_string, write_int64, client_init, dial,
  close_on_error, copy, ◌>>=◌, new_conn, read_type, read_byte, first_byte, read_string, scanned,
  close, write_status, read_int64, eight_bytes,
}
use webmesh_vdi.Proxy.Requests.{
  FGetRequest, FGetResponse, FPutRequest, send_get_request, send_get_response, send_put_request,
  recv_get_request, recv_get_response, recv_put_request,
}
use webmesh_vdi.Proxy.Paths.{
  slash, home_dir, get_local_path, join_path, clean, enter, rooted, base, last_part,
}
use webmesh_vdi.Proxy.PathLaws.{IsPlain, get_local_path_iff, get_local_path-sibling}
use webmesh_vdi.Proxy.Delivery.{Delivered}
use webmesh_vdi.Proxy.RoundTrip.{IsResponse, get_response_round_trip}
use webmesh_vdi.Proxy.Host.{Host}
use webmesh_vdi.Proxy.Server.{
  handle_conn, upload_path, prepare_upload, to_copy, or_error, handler, dispatch, run_handler,
  answer_read, handle_get, answer_get, serve_path, serve_file, serve_opened, write_response,
  handle_put, answer_put, store_upload, copy_n, after_write,
}
use webmesh_vdi.Proxy.Client.{done, ask_get, await_get, ask_put, await_put}
use webmesh_vdi.Proxy.Spec.{download, file_download, opened_download, then_with}
use webmesh_vdi.Proxy.Exchange.{accepted, answered, conn_of, state_of}
use webmesh_vdi.Proxy.Download.{Gets, await_get-download}
use webmesh_vdi.Proxy.Copied.{Stores}
use webmesh_vdi.Proxy.Upload.{await_put-stored}
use webmesh_vdi.Proxy.Faults.{read_line-loses, Panics, Forgotten, Handled, handle_conn-cases}

-- One record for each Write.
nonempty : List Bytes → Bool
nonempty [] = true
nonempty (w ∷ ws) = not (length w == 0) && nonempty ws

Delivered-whole : (ws : List Bytes) → nonempty ws ≡ true → Delivered ws ws
unfolding nonempty
Delivered-whole [] h = refl
Delivered-whole (w ∷ ws) h = (
  w ∷ [],
  ws,
  refl,
  record {
    whole = append-nil w;
    nonempty = (λ e. ground (arith, ap (λ (l : Bytes). length l) e), tt);
  },
  Delivered-whole ws (ground arith),
)

IsLine-of_lacks :
    (l : Bytes)
    → lacks newline l ≡ true
    → lacks carriage_return l ≡ true
    → leb (length l) 1000 ≡ true
    → IsLine l
IsLine-of_lacks l h k short = record {
  one_line = Free-of_lacks newline l h;
  no_cr = Free-of_lacks carriage_return l k;
  fits = ground arith;
}

name-IsLine : IsLine (codes "a.txt")
unfolding lacks
name-IsLine = IsLine-of_lacks (codes "a.txt") refl refl refl

type-IsLine : IsLine (codes "text/plain")
unfolding lacks
type-IsLine = IsLine-of_lacks (codes "text/plain") refl refl refl

read_line-Carries_example :
    read_line ((codes "a." ∷ codes "txt" ∷ (newline ∷ []) ∷ []) ++ codes "rest" ∷ [])
    ≡ (some (codes "a.txt"), codes "rest" ∷ [])
read_line-Carries_example =
    read_line-Carries (codes "a.txt") (codes "a." ∷ codes "txt" ∷ (newline ∷ []) ∷ [])
      (codes "rest" ∷ []) name-IsLine
      record { whole = refl; nonempty = (λ e. cc e, (λ e. cc e, (λ e. cc e, tt))) }

abbrev text_response : FGetResponse
text_response = record { name = codes "a.txt"; content_type = codes "text/plain"; size = pos 2 }

abbrev text_body : List Bytes
text_body = codes "hi" ∷ []

text_response-IsResponse : IsResponse text_response
text_response-IsResponse = record {
  name_line = name-IsLine;
  type_line = type-IsLine;
  size_bound = omega arith;
}

get_response_round_trip_example :
    ((send_get_response text_response text_body (accepted [])).0 ≡ ok 0)
    × (d : Conn) × (recv_get_response
          (accepted (send_get_response text_response text_body (accepted [])).1.output)
        ≡ (ok text_response, d))
    × (concat d.input ≡ concat text_body)
unfolding nonempty send_get_response ◌>>=◌ and_then write write_string write_int64 copy put_uint
    to_uint64
get_response_round_trip_example =
    get_response_round_trip text_response text_body (accepted [])
      (accepted (send_get_response text_response text_body (accepted [])).1.output)
      record { is_open = refl; is_whole = refl } refl text_response-IsResponse refl
      (Delivered-whole (send_get_response text_response text_body (accepted [])).1.output refl)

-- A host with one file, and with room for one upload, which is its state.
abbrev memory_host : Host Bytes
memory_host = record {
  home_stat = λ s. true;
  stat = λ path s. ok record { name = codes "a.txt"; is_dir = false; size = pos 2 };
  read_dir = λ path s. failed (codes "not a directory");
  open_file = λ path s. ok record { reads = text_body; readable = true; seekable = true };
  mkdir_all = λ path s. (ok 0, s);
  chown = λ path s. (ok 0, s);
  create = λ path s. (ok 0, []);
  write_file = λ path r s. (ok 0, s ++ r);
  tar_directory = λ path s. (failed (codes "no space left"), s);
  sanitize_base_name = λ name. name;
  detect_content_type = λ s. codes "text/plain";
  marshal_indent = λ resp. failed (codes "unsupported");
}

abbrev text_request : FGetRequest
text_request = record { path = codes "a.txt" }

abbrev text_asked : Conn
text_asked = (ask_get text_request).1

abbrev text_answer : List Bytes
text_answer = (conn_of (handle_conn memory_host (accepted text_asked.output) [])).output

text_download : download memory_host text_request [] ≡ (ok (text_response, text_body), [])
unfolding download then_with get_local_path join_path clean split_on cons_head enter bytes_eq rooted
    join has_prefix file_download opened_download base last_part
text_download = refl

text_asked-Delivered : Delivered text_asked.output text_asked.output
unfolding nonempty ask_get and_then dial close_on_error client_init write_byte write
    send_get_request write_string
text_asked-Delivered = Delivered-whole text_asked.output refl

text_answer-Delivered : Delivered text_answer text_answer
unfolding nonempty conn_of handle_conn new_conn close_on_error read_type ◌>>=◌ and_then read_byte
    first_byte read_full dial client_init write_byte write write_string write_int64 copy put_uint
    get_uint to_uint64 to_int64 handler dispatch run_handler answer_read or_error read_string
    scanned read_line scan_line feed absorb line_of at_end drop_cr write_status ask_get
    send_get_request recv_get_request handle_get answer_get serve_path serve_file serve_opened
    write_response send_get_response get_local_path join_path clean split_on cons_head enter
    bytes_eq rooted join has_prefix base last_part
text_answer-Delivered = Delivered-whole text_answer refl

await_get-download_example :
    Gets (download memory_host text_request []).0 (await_get (answered text_answer text_asked))
    × (state_of (handle_conn memory_host (accepted text_asked.output) [])
        ≡ (download memory_host text_request []).1)
await_get-download_example =
    await_get-download memory_host text_request text_asked.output text_answer [] name-IsLine
      text_asked-Delivered (rw text_download text_response-IsResponse) text_answer-Delivered

abbrev upload : FPutRequest
upload = record { name = codes "a.txt"; size = pos 2 }

abbrev upload_asked : Conn
upload_asked = (ask_put upload text_body).1

abbrev upload_answer : List Bytes
upload_answer = (conn_of (handle_conn memory_host (accepted upload_asked.output) [])).output

abbrev upload_stores : Stores memory_host (upload_path memory_host upload)
upload_stores = record {
  stored = λ s. s;
  written = λ s r. s ++ r;
  owned = λ s. s;
  writes = λ s r. refl;
  appends = λ s r. refl;
  chowns = λ s. refl;
  keeps = λ s. refl;
}

upload_asked-Delivered : Delivered upload_asked.output upload_asked.output
unfolding nonempty ask_put and_then dial close_on_error client_init write_byte write
    send_put_request write_string write_int64 copy put_uint to_uint64 ◌>>=◌
upload_asked-Delivered = Delivered-whole upload_asked.output refl

upload_answer-Delivered : Delivered upload_answer upload_answer
unfolding nonempty conn_of handle_conn new_conn close_on_error read_type ◌>>=◌ and_then read_byte
    first_byte read_full dial client_init write_byte write write_string write_int64 copy put_uint
    get_uint to_uint64 to_int64 handler dispatch run_handler answer_read or_error read_string
    scanned read_line scan_line feed absorb line_of at_end drop_cr write_status ask_put
    send_put_request recv_put_request read_int64 eight_bytes handle_put answer_put upload_path
    prepare_upload store_upload to_copy copy_n after_write join_path clean split_on cons_head enter
    bytes_eq rooted join
upload_answer-Delivered = Delivered-whole upload_answer refl

await_put-stored_example :
    ((c : Conn) × (await_put (ask_put upload text_body).0 (answered upload_answer upload_asked)
        ≡ ((ok 0, close c), done)))
    × (state_of (handle_conn memory_host (accepted upload_asked.output) [])
        ≡ take (to_copy upload.size) (concat text_body))
unfolding to_copy prepare_upload
await_put-stored_example =
    await_put-stored memory_host upload text_body upload_asked.output upload_answer [] [] 0
      upload_stores record { name_line = name-IsLine; size_bound = omega arith } refl refl
      (omega arith) upload_asked-Delivered upload_answer-Delivered

read_line-loses_example :
    read_line ((codes "a.txt" ++ newline ∷ codes "text/plain") ∷ codes "rest" ∷ [])
    ≡ (some (drop_cr (codes "a.txt")), codes "rest" ∷ [])
read_line-loses_example =
    read_line-loses (codes "a.txt") (codes "text/plain") (codes "rest" ∷ []) name-IsLine.one_line
      (omega arith)

get_local_path-sibling_example : get_local_path true (codes "../home2") ≡ ok (codes "/mnt/home2")
get_local_path-sibling_example = get_local_path-sibling (codes "2") (λ e. omega (arith, e), tt)

abbrev stat_sent : List Bytes
stat_sent = (3 ∷ []) ∷ (codes "a.txt" ++ newline ∷ []) ∷ []

handle_conn-cases_example :
    Panics memory_host stat_sent []
    ⊎ (Forgotten memory_host stat_sent [] ⊎ Handled memory_host stat_sent [])
handle_conn-cases_example = handle_conn-cases memory_host stat_sent []

get_local_path_iff_example :
    (get_local_path true (codes "a.txt") ≡ ok (codes "/mnt/home/a.txt")) ↔ (
      (t : Bytes) × (rest : List Bytes) × (clean (home_dir ++ slash ∷ codes "a.txt")
        ≡ codes "mnt" ∷ (codes "home" ++ t) ∷ rest)
      × (codes "/mnt/home/a.txt" ≡ rooted (codes "mnt" ∷ (codes "home" ++ t) ∷ rest))
      × IsPlain (codes "home" ++ t)
      × All IsPlain rest)
get_local_path_iff_example = get_local_path_iff (codes "a.txt") (codes "/mnt/home/a.txt")
