-- ===== src/Proxy/Upload.antt =====
-- An upload end to end: PutFile of the client and the handler that answers it.
use webmesh_vdi.Prelude.{ℕ, ◌+◌, ◌-◌, ◌≤◌, ◌≡◌, refl, sym, ◌∙◌, ap, List, [], ◌∷◌, ◌++◌, length}
use mathlib.Core.Path.{subst}
use webmesh_vdi.Prelude.Bytes.{Bytes}
use webmesh_vdi.Proxy.Wire.{take}
use webmesh_vdi.Proxy.Lines.{concat}
use webmesh_vdi.Proxy.Conn.{
  Conn, ok, and_then, wrote, write, write_byte, write_status, took, close_on_error, client_init,
  dial, close, request_ok,
}
use webmesh_vdi.Proxy.Requests.{FPutRequest, request_type_fput}
use webmesh_vdi.Proxy.Delivery.{Delivered, read_byte-Carries}
use webmesh_vdi.Proxy.RoundTrip.{
  IsUp, wrote_all, IsUp-wrote_all, output-wrote_all, write-IsUp, IsUpload, put_writes,
  send_put_request-IsUp, recv_put_request-Delivered,
}
use webmesh_vdi.Proxy.Host.{Host}
use webmesh_vdi.Proxy.Server.{
  to_copy, or_error, store_upload, prepare_upload, upload_path, answer_put, answer_read, handle_put,
  handler, run_handler, dispatch, handle_conn, served,
}
use webmesh_vdi.Proxy.Client.{done, after_send, after_status, ask_put, await_put}
use webmesh_vdi.Proxy.Exchange.{accepted, answered, conn_of, state_of, new_conn-Carries, served_by}
use webmesh_vdi.Proxy.Download.{read_status-ok}
use webmesh_vdi.Proxy.Copied.{Stores, copy_n-Copied}

-- What PutFile writes.
abbrev pub put_asked : FPutRequest → List Bytes → List Bytes
put_asked req body = (request_type_fput ∷ []) ∷ put_writes req body

abbrev pub uploading : FPutRequest → List Bytes → Conn
uploading req body =
    wrote_all (put_asked req body) record (accepted []) { rtype = request_type_fput }

ask_put_lem :
    (req : FPutRequest) (body : List Bytes) → ask_put req body ≡ (ok 0, uploading req body)
unfolding ask_put dial client_init close_on_error and_then write_byte write
ask_put_lem req body =
    send_put_request-IsUp req body
      (wrote (request_type_fput ∷ []) record (accepted []) { rtype = request_type_fput })
      record { is_open = refl; is_whole = refl }

module _ {S : Type 0} (host : Host S) where
  -- The request of an upload arrives at its handler, and its body is next.
  pub record Arrived (req : FPutRequest) (body records : List Bytes) (s : S) : Type 0 where
    pub conn : Conn
    pub up : IsUp conn
    pub unanswered : conn.output ≡ []
    pub body_next : concat conn.input ≡ concat body
    pub run :
        handle_conn host (accepted records) s
        ≡ served (close (answer_put host req conn s).0) (answer_put host req conn s).1

  handle_conn-Arrived :
      (req : FPutRequest) (body records : List Bytes) (s : S)
      → IsUpload req
      → Delivered (put_asked req body) records
      → Arrived req body records s
  unfolding handle_conn dispatch answer_read run_handler handler handle_put or_error
  handle_conn-Arrived req body records s l (rs, rest, e, c, h) =
      let typed = record (took (request_type_fput ∷ []) rest (accepted records)) {
        rtype = request_type_fput;
      } in
      let got = recv_put_request-Delivered req body typed l refl h in
      record {
        conn = got.after;
        up = record { is_open = got.still_open; is_whole = got.still_whole };
        unanswered = got.unwritten;
        body_next = got.body_next;
        run =
            ap (λ p. dispatch host p s) (new_conn-Carries rs rest records request_type_fput e c)
            ∙ ap (λ p. served_by (answer_read host p (answer_put host) s)) got.received;
      }

  -- What the handler makes of a body that is long enough.
  record StoredUpload (file_content : S → Bytes) (content : Bytes) (req : FPutRequest) (c : Conn)
      (s : S) : Type 0 where
    written_conn : Conn
    final : S
    answer : answer_put host req c s ≡ (written_conn, final)
    status : written_conn.output ≡ c.output ++ (request_ok ∷ []) ∷ []
    stored_content : file_content final ≡ content

  answer_put-StoredUpload :
      (req : FPutRequest) (c : Conn) (s s1 : S) (k : ℕ) (file : Stores host (upload_path host req))
      → IsUp c
      → prepare_upload host (upload_path host req) s ≡ (ok k, s1)
      → file.stored s1 ≡ []
      → to_copy req.size ≤ length (concat c.input)
      → StoredUpload file.stored (take (to_copy req.size) (concat c.input)) req c s
  unfolding answer_put or_error store_upload write_status write_byte
  answer_put-StoredUpload req c s s1 k file u made empty enough =
      let path = upload_path host req in
      let done_copy = copy_n-Copied host path file (to_copy req.size) c.input s1 enough in
      let d = record c {
        input = done_copy.left;
        rsize = c.rsize + (length (concat c.input) - length (concat done_copy.left));
      } in
      record {
        written_conn = wrote (request_ok ∷ []) d;
        final = file.owned done_copy.final;
        answer =
            rw
              (
                made,
                done_copy.copied,
                file.chowns done_copy.final,
                write-IsUp (request_ok ∷ []) d
                    record { is_open = u.is_open; is_whole = u.is_whole },
              )
              refl;
        status = refl;
        stored_content =
            file.keeps done_copy.final
            ∙ done_copy.content
            ∙ ap (λ t. t ++ take (to_copy req.size) (concat c.input)) empty;
      }

-- For every host and every upload whose name is a single line and whose size is an int64: let the
-- host give the upload a new, empty file, which keeps what is written to it and can be handed to its
-- owner; let the body have at least as many bytes as the size says; and let both sides have a new
-- connection that takes what is written, with the records of each side carrying what the other wrote,
-- however they are cut. Then PutFile returns without an error, with the connection closed and no
-- sender left waiting, and the file has exactly the first bytes of the body, as many as the size says
-- (none for a negative size).
pub await_put-stored :
    {S : Type 0} (host : Host S) (req : FPutRequest) (body records answer : List Bytes) (s s1 : S)
    (k : ℕ) (file : Stores host (upload_path host req))
    → IsUpload req
    → prepare_upload host (upload_path host req) s ≡ (ok k, s1)
    → file.stored s1 ≡ []
    → to_copy req.size ≤ length (concat body)
    → Delivered (ask_put req body).1.output records
    → Delivered (conn_of (handle_conn host (accepted records) s)).output answer
    → ((c : Conn) × (await_put (ask_put req body).0 (answered answer (ask_put req body).1)
          ≡ ((ok 0, close c), done)))
      × (file.stored (state_of (handle_conn host (accepted records) s))
          ≡ take (to_copy req.size) (concat body))
unfolding conn_of state_of await_put after_status after_send
await_put-stored host req body records answer s s1 k file l made empty enough sent got =
    let n = to_copy req.size in
    let asked =
      subst (λ ws. Delivered ws records)
        (ap (λ p. p.1.output) (ask_put_lem req body)
          ∙ output-wrote_all (put_asked req body)
              (record (accepted []) { rtype = request_type_fput }))
        sent in
    let at = handle_conn-Arrived host req body records s l asked in
    let kept =
      answer_put-StoredUpload host req at.conn s s1 k file at.up made empty
        (subst (λ t. n ≤ length t) (sym at.body_next) enough) in
    let whole : handle_conn host (accepted records) s
        ≡ served (close kept.written_conn) kept.final =
      at.run ∙ ap (λ p. served (close p.0) p.1) kept.answer in
    let (rs, rest, e, c, h) =
      subst (λ ws. Delivered ws answer)
        (ap (λ p. (conn_of p).output) whole
          ∙ kept.status
          ∙ ap (λ (ws : List Bytes). ws ++ (request_ok ∷ []) ∷ []) at.unanswered)
        got in
    let asker = answered answer (uploading req body) in
    let open_asker =
      (IsUp-wrote_all (put_asked req body) (record (accepted []) { rtype = request_type_fput })
        record { is_open = refl; is_whole = refl }).is_open in
    let read = read_status-ok asker _ (read_byte-Carries asker open_asker rs rest e request_ok c) in
    (
      (
        took (request_ok ∷ []) rest asker,
        ap (λ p. await_put p.0 (answered answer p.1)) (ask_put_lem req body)
            ∙ ap (λ p. after_status (ok 0) p) read,
      ),
      ap (λ p. file.stored (state_of p)) whole
          ∙ kept.stored_content
          ∙ ap (λ t. take n t) at.body_next,
    )
