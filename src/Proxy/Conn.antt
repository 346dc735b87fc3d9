-- ===== src/Proxy/Conn.antt =====
-- The type Conn of pkg/proxyproto/conn.go: one connection between the API and a proxy. The calls
-- that the other side has not read yet are kept apart: `output` lists the Writes.
use webmesh_vdi.Prelude.{
  ℕ, ◌+◌, Bool, true, false, ◌||◌, Option, none, some, List, [], ◌∷◌, ◌++◌, length, if◌then◌else◌,
  ◌==◌,
}
use webmesh_vdi.Prelude.Bytes.{Bytes, codes}
use webmesh_vdi.Prelude.Lines.{newline}
use webmesh_vdi.Proxy.Wire.{read_full, read_line}
use webmesh_vdi.Proxy.Integers.{ℤ, to_int64, to_uint64, put_uint, get_uint}

-- A result or the text of an error.
pub data Fallible (A : Type 0) : Type 0 where
  ok : A → Fallible A
  failed : (message : Bytes) → Fallible A

-- `broken` says that the other side no longer takes what is written.
pub record Conn : Type 0 where
  pub rtype : ℕ
  pub input : List Bytes
  pub output : List Bytes
  pub rsize : ℕ
  pub wsize : ℕ
  pub closed : Bool
  pub broken : Bool

-- What a method of a connection does: its result and the connection after it.
abbrev pub Action : Type 0 → Type 0
Action A = Conn → Fallible A × Conn

abbrev pub return : {A : Type 0} → A → Action A
return a c = (ok a, c)

abbrev pub fail : {A : Type 0} → Bytes → Action A
fail message c = (failed message, c)

infixl 20 ◌>>=◌
-- The early return on an error.
unfoldable pub and_then : {A B : Type 0} → Fallible A × Conn → (A → Action B) → Fallible B × Conn
and_then (ok a, c) k = k a c
and_then (failed message, c) k = (failed message, c)

unfoldable pub ◌>>=◌ : {A B : Type 0} → Action A → (A → Action B) → Action B
unfolding and_then
(m >>= k) c = and_then (m c) k

abbrev pub end_of_file : Bytes
end_of_file = codes "EOF"

abbrev pub unexpected_end : Bytes
unexpected_end = codes "unexpected EOF"

abbrev pub token_too_long : Bytes
token_too_long = codes "bufio.Scanner: token too long"

abbrev pub closed_connection : Bytes
closed_connection = codes "use of closed network connection"

abbrev pub close : Conn → Conn
close c = record c { closed = true }

-- `defer c.Close()`
unfoldable pub closing : {A : Type 0} → Action A → Action A
closing m c = let (r, d) = m c in (r, close d)

-- Where an action failed, the caller closes the connection and hands the error on.
abbrev pub close_failed : {A : Type 0} → Fallible A × Conn → Fallible A × Conn
close_failed (ok a, c) = (ok a, c)
close_failed (failed message, c) = (failed message, close c)

unfoldable pub close_on_error : {A : Type 0} → Action A → Action A
close_on_error m c = close_failed (m c)

abbrev pub took : Bytes → List Bytes → Conn → Conn
took s rest c = record c { input = rest; rsize = c.rsize + length s }

unfoldable pub first_byte : Bytes × List Bytes → Action ℕ
first_byte ([], rest) c = (failed end_of_file, c)
first_byte (b ∷ s, rest) c = (ok b, took (b ∷ s) rest c)

unfoldable pub read_byte : Action ℕ
unfolding first_byte
read_byte c = if c.closed then (failed closed_connection, c) else first_byte (read_full 1 c.input) c

abbrev pub set_type : ℕ → Action ℕ
set_type t c = (ok t, record c { rtype = t })

unfoldable pub read_type : Action ℕ
read_type = read_byte >>= set_type

unfoldable pub scanned : Option Bytes × List Bytes → Action Bytes
scanned (none, rest) c = (failed token_too_long, record c { input = rest })
scanned (some s, rest) c = (ok s, took s rest c)

unfoldable pub read_string : Action Bytes
unfolding scanned
read_string c = if c.closed then (failed closed_connection, c) else scanned (read_line c.input) c

-- What io.ReadFull says of a read that was to give eight bytes.
unfoldable pub eight_bytes : Bytes → Fallible ℤ
eight_bytes s =
    if length s == 8
    then ok (to_int64 (get_uint s))
    else failed (if length s == 0 then end_of_file else unexpected_end)

unfoldable pub read_int64 : Action ℤ
unfolding eight_bytes
read_int64 c =
    let (s, rest) = read_full 8 c.input in
    if c.closed then (failed closed_connection, c) else (eight_bytes s, took s rest c)

abbrev pub wrote : Bytes → Conn → Conn
wrote s c = record c { output = c.output ++ s ∷ []; wsize = c.wsize + length s }

unfoldable pub write : Bytes → Action ℕ
write s c =
    if c.closed || c.broken then (failed closed_connection, c) else (ok (length s), wrote s c)

unfoldable pub write_byte : ℕ → Action ℕ
write_byte b = write (b ∷ [])

unfoldable pub write_string : Bytes → Action ℕ
write_string s = write (s ++ newline ∷ [])

unfoldable pub write_int64 : ℤ → Action ℕ
write_int64 z = write (put_uint 8 (to_uint64 z))

-- io.Copy from a body, a list of what its Reads give, to the connection.
unfoldable pub copy : List Bytes → Action ℕ
copy [] = return 0
copy ([] ∷ body) = copy body
copy ((b ∷ s) ∷ body) = let rest = copy body in write (b ∷ s) >>= λ n. rest

abbrev pub request_ok : ℕ
request_ok = 1

abbrev pub request_failed : ℕ
request_failed = 2

unfoldable pub write_status : ℕ → Action ℕ
write_status st = write_byte st

-- A status that is not RequestOK is followed by the text of an error.
unfoldable pub failure_of_status : ℕ → Action ℕ
failure_of_status status =
    if status == request_ok
    then return status
    else closing (read_string >>= λ message. fail message)

unfoldable pub read_status : Action ℕ
unfolding failure_of_status
read_status = close_on_error read_byte >>= failure_of_status

-- The errors of the two writes are logged.
unfoldable pub write_error : Bytes → Conn → Conn
write_error message c =
    let (r, d) = (write_status request_failed >>= λ n. write_string message) c in d

-- NewConn: a connection whose type cannot be read is closed.
unfoldable pub new_conn : Action ℕ
new_conn = close_on_error read_type

-- clientInit
unfoldable pub client_init : Action ℕ
client_init c = write_byte c.rtype c

-- Dial, once crypto/tls has given the connection.
unfoldable pub dial : ℕ → Fallible ℕ × Conn
dial rtype = close_on_error client_init record {
  rtype = rtype;
  input = [];
  output = [];
  rsize = 0;
  wsize = 0;
  closed = false;
  broken = false;
}
