-- ===== src/Proxy/RoundTrip.antt =====
-- What is sent over an open connection is what is received, however the transport cuts it.
use webmesh_vdi.Prelude.{ℕ, ◌≡◌, refl, sym, ◌∙◌, ap, false, List, [], ◌∷◌, ◌++◌, length}
use mathlib.Core.Path.{subst}
use mathlib.Core.List.{append_assoc, append-nil}
use webmesh_vdi.Prelude.Bytes.{Bytes}
use webmesh_vdi.Prelude.Lines.{newline, IsLine}
use webmesh_vdi.Proxy.Lines.{concat}
use webmesh_vdi.Proxy.Integers.{IsInt64, to_uint64, put_uint}
use webmesh_vdi.Proxy.Conn.{
  Conn, Fallible, ok, Action, and_then, ◌>>=◌, wrote, write, write_string, write_int64, took, copy,
  read_string, read_int64,
}
use webmesh_vdi.Proxy.Requests.{
  FGetResponse, FPutRequest, send_get_response, recv_get_response, send_put_request,
  recv_put_request,
}
use webmesh_vdi.Proxy.Delivery.{
  Delivered, concat-Delivered, read_string-Carries, read_int64-Carries,
}

-- A connection that takes what is written.
pub record IsUp (c : Conn) : Type 0 where
  pub is_open : c.closed ≡ false
  pub is_whole : c.broken ≡ false

abbrev pub wrote_all : List Bytes → Conn → Conn
wrote_all [] c = c
wrote_all (w ∷ ws) c = wrote_all ws (wrote w c)

pub IsUp-wrote_all : (ws : List Bytes) (c : Conn) → IsUp c → IsUp (wrote_all ws c)
IsUp-wrote_all [] c u = u
IsUp-wrote_all (w ∷ ws) c u =
    IsUp-wrote_all ws (wrote w c) record { is_open = u.is_open; is_whole = u.is_whole }

pub output-wrote_all : (ws : List Bytes) (c : Conn) → (wrote_all ws c).output ≡ c.output ++ ws
output-wrote_all [] c = sym (append-nil c.output)
output-wrote_all (w ∷ ws) c = output-wrote_all ws (wrote w c) ∙ append_assoc c.output (w ∷ []) ws

pub write-IsUp : (s : Bytes) (c : Conn) → IsUp c → write s c ≡ (ok (length s), wrote s c)
unfolding write
write-IsUp s c u = rw (u.is_open, u.is_whole) refl

-- An action that gives a result, followed by another.
pub bind-ok :
    {A B : Type 0} (m : Action A) (k : A → Action B) (c d : Conn) (a : A)
    → m c ≡ (ok a, d)
    → (m >>= k) c ≡ k a d
unfolding ◌>>=◌ and_then
bind-ok m k c d a h = ap (λ (t : Fallible _ × Conn). and_then t k) h

-- What io.Copy writes of a body.
abbrev pub chunks : List Bytes → List Bytes
chunks [] = []
chunks ([] ∷ body) = chunks body
chunks ((b ∷ s) ∷ body) = (b ∷ s) ∷ chunks body

concat-chunks : (body : List Bytes) → concat (chunks body) ≡ concat body
concat-chunks [] = refl
concat-chunks ([] ∷ body) = concat-chunks body
concat-chunks ((b ∷ s) ∷ body) = ap (λ (t : Bytes). b ∷ s ++ t) (concat-chunks body)

pub copy-IsUp :
    (body : List Bytes) (c : Conn) → IsUp c → copy body c ≡ (ok 0, wrote_all (chunks body) c)
unfolding copy
copy-IsUp [] c u = refl
copy-IsUp ([] ∷ body) c u = copy-IsUp body c u
copy-IsUp ((b ∷ s) ∷ body) c u =
    bind-ok (write (b ∷ s)) (λ n. copy body) c (wrote (b ∷ s) c) (length (b ∷ s))
      (write-IsUp (b ∷ s) c u)
    ∙ copy-IsUp body (wrote (b ∷ s) c) (IsUp-wrote_all ((b ∷ s) ∷ []) c u)

-- The Writes of a response.
abbrev pub response_writes : FGetResponse → List Bytes → List Bytes
response_writes f body =
    (f.name ++ newline ∷ [])
    ∷ (f.content_type ++ newline ∷ [])
    ∷ put_uint 8 (to_uint64 f.size)
    ∷ chunks body

pub send_get_response-IsUp :
    (f : FGetResponse) (body : List Bytes) (c : Conn)
    → IsUp c
    → send_get_response f body c ≡ (ok 0, wrote_all (response_writes f body) c)
unfolding send_get_response write_string write_int64
send_get_response-IsUp f body c u =
    let a = f.name ++ newline ∷ [] in
    let b = f.content_type ++ newline ∷ [] in
    let n = put_uint 8 (to_uint64 f.size) in
    bind-ok (write a) _ c _ (length a) (write-IsUp a c u)
    ∙ bind-ok (write b) _ (wrote a c) _ (length b) (write-IsUp b _ (IsUp-wrote_all (a ∷ []) c u))
    ∙ bind-ok (write n) _ _ _ (length n) (write-IsUp n _ (IsUp-wrote_all (a ∷ b ∷ []) c u))
    ∙ copy-IsUp body _ (IsUp-wrote_all (a ∷ b ∷ n ∷ []) c u)

-- The Writes of an upload.
abbrev pub put_writes : FPutRequest → List Bytes → List Bytes
put_writes f body = (f.name ++ newline ∷ []) ∷ put_uint 8 (to_uint64 f.size) ∷ chunks body

pub send_put_request-IsUp :
    (f : FPutRequest) (body : List Bytes) (c : Conn)
    → IsUp c
    → send_put_request f body c ≡ (ok 0, wrote_all (put_writes f body) c)
unfolding send_put_request write_string write_int64
send_put_request-IsUp f body c u =
    let a = f.name ++ newline ∷ [] in
    let n = put_uint 8 (to_uint64 f.size) in
    bind-ok (write a) _ c _ (length a) (write-IsUp a c u)
    ∙ bind-ok (write n) _ _ _ (length n) (write-IsUp n _ (IsUp-wrote_all (a ∷ []) c u))
    ∙ copy-IsUp body _ (IsUp-wrote_all (a ∷ n ∷ []) c u)

-- A response whose two texts are single lines.
pub record IsResponse (f : FGetResponse) : Type 0 where
  pub name_line : IsLine f.name
  pub type_line : IsLine f.content_type
  pub size_bound : IsInt64 f.size

pub record IsUpload (f : FPutRequest) : Type 0 where
  pub name_line : IsLine f.name
  pub size_bound : IsInt64 f.size

-- What a connection is left with when it has read a value and its body is next.
pub record Received (A : Type 0) (m : Action A) (a : A) (body : List Bytes) (d : Conn)
    : Type 0 where
  pub after : Conn
  pub received : m d ≡ (ok a, after)
  pub body_next : concat after.input ≡ concat body
  pub still_open : after.closed ≡ d.closed
  pub unwritten : after.output ≡ d.output
  pub still_whole : after.broken ≡ d.broken

pub recv_get_response-Delivered :
    (f : FGetResponse) (body : List Bytes) (d : Conn)
    → IsResponse f
    → d.closed ≡ false
    → Delivered (response_writes f body) d.input
    → Received FGetResponse recv_get_response f body d
unfolding recv_get_response
recv_get_response-Delivered f body d l o
      (rs, rest, e, c, (rs', rest', e', c', (rs'', rest'', e'', c'', h))) =
    let named = took f.name rest d in
    let typed = took f.content_type rest' named in
    let sized = took (put_uint 8 (to_uint64 f.size)) rest'' typed in
    record {
      after = sized;
      received =
          bind-ok read_string _ d named f.name
            (read_string-Carries d o rs rest e f.name l.name_line c)
          ∙ bind-ok read_string _ named typed f.content_type
              (read_string-Carries named o rs' rest' e' f.content_type l.type_line c')
          ∙ bind-ok read_int64 _ typed sized f.size
              (read_int64-Carries typed o rs'' rest'' e'' f.size l.size_bound c'');
      body_next = concat-Delivered (chunks body) rest'' h ∙ concat-chunks body;
      still_open = refl;
      unwritten = refl;
      still_whole = refl;
    }

pub recv_put_request-Delivered :
    (f : FPutRequest) (body : List Bytes) (d : Conn)
    → IsUpload f
    → d.closed ≡ false
    → Delivered (put_writes f body) d.input
    → Received FPutRequest recv_put_request f body d
unfolding recv_put_request
recv_put_request-Delivered f body d l o (rs, rest, e, c, (rs', rest', e', c', h)) =
    let named = took f.name rest d in
    let sized = took (put_uint 8 (to_uint64 f.size)) rest' named in
    record {
      after = sized;
      received =
          bind-ok read_string _ d named f.name
            (read_string-Carries d o rs rest e f.name l.name_line c)
          ∙ bind-ok read_int64 _ named sized f.size
              (read_int64-Carries named o rs' rest' e' f.size l.size_bound c');
      body_next = concat-Delivered (chunks body) rest' h ∙ concat-chunks body;
      still_open = refl;
      unwritten = refl;
      still_whole = refl;
    }

-- A response sent over a fresh connection that takes what is written, with a name and a type that
-- are single lines and a size that is an int64, arrives however the transport cuts the Writes into
-- records: sending gives no error, the receiver reads the same name, type and size, and the bytes
-- that are left for it to read are those of the body.
pub get_response_round_trip :
    (f : FGetResponse) (body : List Bytes) (c d : Conn)
    → IsUp c
    → c.output ≡ []
    → IsResponse f
    → d.closed ≡ false
    → Delivered (send_get_response f body c).1.output d.input
    → ((send_get_response f body c).0 ≡ ok 0)
      × (d' : Conn) × (recv_get_response d ≡ (ok f, d'))
      × (concat d'.input ≡ concat body)
get_response_round_trip f body c d u fresh l o h =
    let sent = send_get_response-IsUp f body c u in
    let carried : Delivered (response_writes f body) d.input =
      subst (λ (ws : List Bytes). Delivered ws d.input)
        (ap (λ (p : Fallible ℕ × Conn). p.1.output) sent
          ∙ output-wrote_all (response_writes f body) c
          ∙ ap (λ (ws : List Bytes). ws ++ response_writes f body) fresh)
        h in
    let got = recv_get_response-Delivered f body d l o carried in
    (ap (λ (p : Fallible ℕ × Conn). p.0) sent, got.after, got.received, got.body_next)

-- An upload sent over a fresh connection that takes what is written, with a name that is a single
-- line and a size that is an int64, arrives however the transport cuts the Writes into records:
-- sending gives no error, the receiver reads the same name and size, and the bytes that are left for
-- it to read are those of the body.
pub put_request_round_trip :
    (f : FPutRequest) (body : List Bytes) (c d : Conn)
    → IsUp c
    → c.output ≡ []
    → IsUpload f
    → d.closed ≡ false
    → Delivered (send_put_request f body c).1.output d.input
    → ((send_put_request f body c).0 ≡ ok 0)
      × (d' : Conn) × (recv_put_request d ≡ (ok f, d'))
      × (concat d'.input ≡ concat body)
put_request_round_trip f body c d u fresh l o h =
    let sent = send_put_request-IsUp f body c u in
    let carried : Delivered (put_writes f body) d.input =
      subst (λ (ws : List Bytes). Delivered ws d.input)
        (ap (λ (p : Fallible ℕ × Conn). p.1.output) sent
          ∙ output-wrote_all (put_writes f body) c
          ∙ ap (λ (ws : List Bytes). ws ++ put_writes f body) fresh)
        h in
    let got = recv_put_request-Delivered f body d l o carried in
    (ap (λ (p : Fallible ℕ × Conn). p.0) sent, got.after, got.received, got.body_next)
