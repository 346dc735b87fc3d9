-- ===== src/Proxy/Exchange.antt =====
-- A call of the client and the handler that answers it, end to end.
use webmesh_vdi.Prelude.{ℕ, ◌≡◌, refl, ◌∙◌, ap, false, List, [], ◌∷◌, ◌++◌, length}
use webmesh_vdi.Prelude.Bytes.{Bytes}
use webmesh_vdi.Prelude.Lines.{newline, IsLine}
use webmesh_vdi.Proxy.Lines.{Carries}
use webmesh_vdi.Proxy.Conn.{
  Conn, ok, and_then, write, write_string, write_byte, took, read_byte, read_string, close_on_error,
  dial, client_init, new_conn, read_type, set_type, close, close_failed,
}
use webmesh_vdi.Proxy.Requests.{FGetRequest, request_type_fget, send_get_request, recv_get_request}
use webmesh_vdi.Proxy.Delivery.{Delivered, read_byte-Carries, read_string-Carries}
use webmesh_vdi.Proxy.RoundTrip.{IsUp, wrote_all, bind-ok}
use webmesh_vdi.Proxy.Host.{Host}
use webmesh_vdi.Proxy.Server.{
  handle_conn, Served, panicked, unhandled, streaming, served, run_handler, handler, handle_get,
  answer_get, answer_read, dispatch, or_error,
}
use webmesh_vdi.Proxy.Client.{ask_get}

-- A connection that the proxy has accepted, with what the client has sent.
abbrev pub accepted : List Bytes → Conn
accepted records = record {
  rtype = 0;
  input = records;
  output = [];
  rsize = 0;
  wsize = 0;
  closed = false;
  broken = false;
}

-- The client's connection when the answer has come.
abbrev pub answered : List Bytes → Conn → Conn
answered records c = record c { input = records }

-- What the client writes to ask for a file.
abbrev pub get_asked : FGetRequest → List Bytes
get_asked req = (request_type_fget ∷ []) ∷ (req.path ++ newline ∷ []) ∷ []

abbrev pub asking : FGetRequest → Conn
asking req = wrote_all (get_asked req) record (accepted []) { rtype = request_type_fget }

pub ask_get_lem :
    (req : FGetRequest) → ask_get req ≡ (ok (length (req.path ++ newline ∷ [])), asking req)
unfolding ask_get dial client_init close_on_error and_then write_byte write send_get_request
    write_string
ask_get_lem req = refl

-- The connection of a client that an answer has reached, and its state, as the proxy leaves them.
unfoldable pub conn_of : {S : Type 0} → Served S → Conn
conn_of (panicked c s) = c
conn_of (unhandled c s) = c
conn_of (streaming h c s) = c
conn_of (served c s) = c

unfoldable pub state_of : {S : Type 0} → Served S → S
state_of (panicked c s) = s
state_of (unhandled c s) = s
state_of (streaming h c s) = s
state_of (served c s) = s

-- The first byte of an accepted connection is its type.
pub new_conn-Carries :
    (rs rest records : List Bytes) (rt : ℕ)
    → records ≡ rs ++ rest
    → Carries (rt ∷ []) rs
    → new_conn (accepted records)
      ≡ (ok rt, record (took (rt ∷ []) rest (accepted records)) { rtype = rt })
unfolding new_conn close_on_error read_type
new_conn-Carries rs rest records rt e h = ap close_failed (
    bind-ok read_byte set_type (accepted records) _ rt
      (read_byte-Carries (accepted records) refl rs rest e rt h))

abbrev pub served_by : {S : Type 0} → Conn × S → Served S
served_by (c, s) = served c s

module _ {S : Type 0} (host : Host S) where
  -- A download request arrives at its handler.
  pub handle_conn-get :
      (req : FGetRequest) (records : List Bytes) (s : S)
      → IsLine req.path
      → Delivered (get_asked req) records
      → (d : Conn) × IsUp d
        × (d.output ≡ [])
        × (handle_conn host (accepted records) s
            ≡ served (close (answer_get host req d s).0) (answer_get host req d s).1)
  unfolding handle_conn dispatch answer_read run_handler handler handle_get recv_get_request
      or_error
  handle_conn-get req records s l (rs, rest, e, c, (rs', rest', e', c', h)) =
      let typed = record (took (request_type_fget ∷ []) rest (accepted records)) {
        rtype = request_type_fget;
      } in
      let asked = took req.path rest' typed in
      (
        asked,
        record { is_open = refl; is_whole = refl },
        refl,
        ap (λ p. dispatch host p s) (new_conn-Carries rs rest records request_type_fget e c)
            ∙ ap (λ p. served_by (answer_read host p (answer_get host) s))
                (bind-ok read_string _ typed asked req.path
                  (read_string-Carries typed refl rs' rest' e' req.path l c')),
      )
