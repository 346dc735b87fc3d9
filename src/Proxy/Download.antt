-- ===== src/Proxy/Download.antt =====
-- A download end to end: GetFile of the client and the handler that answers it.
use webmesh_vdi.Prelude.{ℕ, ◌≡◌, refl, sym, ◌∙◌, ap, true, false, List, [], ◌∷◌, ◌++◌}
use mathlib.Core.Path.{subst}
use webmesh_vdi.Prelude.Bytes.{Bytes}
use webmesh_vdi.Prelude.Lines.{newline, IsLine}
use webmesh_vdi.Proxy.Lines.{concat}
use webmesh_vdi.Proxy.Conn.{
  Conn, Fallible, ok, failed, ◌>>=◌, and_then, wrote, write, write_byte, write_string, write_status,
  write_error, took, read_byte, read_string, read_status, failure_of_status, close_on_error,
  close_failed, closing, fail, close, request_ok, request_failed,
}
use webmesh_vdi.Proxy.Requests.{FGetRequest, FGetResponse, send_get_response, recv_get_response}
use webmesh_vdi.Proxy.Delivery.{Delivered, read_byte-Carries, read_string-Carries}
use webmesh_vdi.Proxy.RoundTrip.{
  IsUp, wrote_all, IsUp-wrote_all, output-wrote_all, write-IsUp, bind-ok, IsResponse,
  response_writes, send_get_response-IsUp, recv_get_response-Delivered,
}
use webmesh_vdi.Proxy.Host.{Host}
use webmesh_vdi.Proxy.Server.{handle_conn, served, write_response}
use webmesh_vdi.Proxy.Client.{ask_get, await_get}
use webmesh_vdi.Proxy.Spec.{Download, reply, download, answer_get-reply}
use webmesh_vdi.Proxy.Exchange.{
  accepted, answered, asking, ask_get_lem, conn_of, state_of, handle_conn-get,
}

-- What the wire can carry: single lines, and a size that is an int64.
abbrev pub Sendable : Fallible Download → Type 0
Sendable (ok (res, body)) = IsResponse res
Sendable (failed message) = IsLine message

-- The client has the download: its description, with the body to be read from the connection, or its
-- error, with the connection closed.
abbrev pub Gets : Fallible Download → Fallible FGetResponse × Conn → Type 0
Gets (ok (res, body)) (r, c) = (r ≡ ok res) × (concat c.input ≡ concat body)
Gets (failed message) (r, c) = (r ≡ failed message) × (c.closed ≡ true)

abbrev reply_writes : Fallible Download → List Bytes
reply_writes (ok (res, body)) = (request_ok ∷ []) ∷ response_writes res body
reply_writes (failed message) = (request_failed ∷ []) ∷ (message ++ newline ∷ []) ∷ []

reply-writes :
    {S : Type 0} (r : Fallible Download) (s : S) (c : Conn)
    → IsUp c
    → reply (r, s) c ≡ (wrote_all (reply_writes r) c, s)
unfolding reply write_response write_error write_status write_byte write_string
reply-writes (ok (res, body)) s c u =
    let st = request_ok ∷ [] in
    ap (λ (p : Fallible ℕ × Conn). ((and_then p (λ n. send_get_response res body)).1, s))
      (write-IsUp st c u)
    ∙ unfold and_then in
      ap (λ (p : Fallible ℕ × Conn). (p.1, s))
        (send_get_response-IsUp res body (wrote st c) (IsUp-wrote_all (st ∷ []) c u))
reply-writes (failed message) s c u =
    let st = request_failed ∷ [] in
    let text = message ++ newline ∷ [] in
    ap (λ (p : Fallible ℕ × Conn). (p.1, s))
      (bind-ok (write st) (λ n. write text) c _ 1 (write-IsUp st c u)
        ∙ write-IsUp text (wrote st c) (IsUp-wrote_all (st ∷ []) c u))

pub read_status-ok :
    (c d : Conn) → read_byte c ≡ (ok request_ok, d) → read_status c ≡ (ok request_ok, d)
unfolding read_status failure_of_status close_on_error
read_status-ok c d h =
    bind-ok (close_on_error read_byte) failure_of_status c d request_ok (ap close_failed h)

read_status-failed :
    (c d e : Conn) (message : Bytes)
    → read_byte c ≡ (ok request_failed, d)
    → read_string d ≡ (ok message, e)
    → read_status c ≡ (failed message, close e)
unfolding read_status failure_of_status close_on_error closing
read_status-failed c d e message h k =
    bind-ok (close_on_error read_byte) failure_of_status c d request_failed (ap close_failed h)
    ∙ ap (λ (p : Fallible ℕ × Conn). (p.0, close p.1))
        (bind-ok read_string (λ m. fail m) d e message k)

-- The client reads the reply.
await_get-Gets :
    (r : Fallible Download) (c : Conn)
    → Sendable r
    → c.closed ≡ false
    → Delivered (reply_writes r) c.input
    → Gets r (await_get c)
unfolding await_get close_on_error ◌>>=◌ and_then
await_get-Gets (ok (res, body)) c l o (rs, rest, e, h, k) =
    let d = took (request_ok ∷ []) rest c in
    let got = recv_get_response-Delivered res body d l o k in
    let whole : await_get c ≡ (ok res, got.after) =
      bind-ok read_status _ c d request_ok
        (read_status-ok c d (read_byte-Carries c o rs rest e request_ok h))
      ∙ ap close_failed got.received in
    (ap (λ p. p.0) whole, ap (λ p. concat p.1.input) whole ∙ got.body_next)
await_get-Gets (failed message) c l o (rs, rest, e, h, (rs', rest', e', h', k)) =
    let d = took (request_failed ∷ []) rest c in
    let whole : await_get c ≡ (failed message, close (took message rest' d)) =
      ap (λ p. and_then p (λ st. close_on_error recv_get_response))
        (read_status-failed c d (took message rest' d) message
          (read_byte-Carries c o rs rest e request_failed h)
          (read_string-Carries d o rs' rest' e' message l h')) in
    (ap (λ p. p.0) whole, ap (λ p. p.1.closed) whole)

-- For every host and every request whose path is a single line, if the two sides have a new
-- connection that takes what is written, if the records that the proxy reads carry what GetFile
-- wrote, if the answer that the client reads carries what the proxy wrote, however the two are cut,
-- and if the download, or its error, is made of single lines and an int64: GetFile gives the name, the
-- type, the size and the bytes of the download, or fails with its error and a closed connection;
-- and the host is left in the state that the download leaves it in.
pub await_get-download :
    {S : Type 0} (host : Host S) (req : FGetRequest) (records answer : List Bytes) (s : S)
    → IsLine req.path
    → Delivered (ask_get req).1.output records
    → Sendable (download host req s).0
    → Delivered (conn_of (handle_conn host (accepted records) s)).output answer
    → Gets (download host req s).0 (await_get (answered answer (ask_get req).1))
      × (state_of (handle_conn host (accepted records) s) ≡ (download host req s).1)
unfolding conn_of state_of
await_get-download host req records answer s l sent ok_reply got =
    let asked = subst (λ p. Delivered p.1.output records) (ask_get_lem req) sent in
    let (d, up, fresh, run) = handle_conn-get host req records s l asked in
    let (r, t) = download host req s in
    let whole : handle_conn host (accepted records) s
        ≡ served (close (wrote_all (reply_writes r) d)) t =
      run
      ∙ ap (λ p. served (close p.0) p.1) (answer_get-reply host req d s ∙ reply-writes r t d up) in
    let written : Delivered (reply_writes r) answer =
      subst (λ ws. Delivered ws answer)
        (ap (λ p. (conn_of p).output) whole
          ∙ output-wrote_all (reply_writes r) d
          ∙ ap (λ ws. ws ++ reply_writes r) fresh)
        got in
    (
      subst (λ p. Gets r (await_get (answered answer p.1))) (sym (ask_get_lem req))
          (await_get-Gets r (answered answer (asking req)) ok_reply refl written),
      ap state_of whole,
    )
