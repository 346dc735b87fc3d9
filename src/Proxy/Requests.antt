-- ===== src/Proxy/Requests.antt =====
-- The requests and responses of pkg/proxyproto/requests.go, and how they are sent and received.
use webmesh_vdi.Prelude.{ℕ, List, ◌==◌, if◌then◌else◌}
use webmesh_vdi.Prelude.Bytes.{Bytes, codes}
use webmesh_vdi.Proxy.Integers.{ℤ}
use webmesh_vdi.Proxy.Conn.{
  Action, return, ◌>>=◌, write_string, write_int64, read_string, read_int64, copy,
}

abbrev pub request_type_display : ℕ
request_type_display = 1

abbrev pub request_type_audio : ℕ
request_type_audio = 2

abbrev pub request_type_fstat : ℕ
request_type_fstat = 3

abbrev pub request_type_fget : ℕ
request_type_fget = 4

abbrev pub request_type_fput : ℕ
request_type_fput = 5

-- RequestType.String
unfoldable pub request_type_name : ℕ → Bytes
request_type_name r =
    if r == request_type_display
    then codes "display"
    else if r == request_type_audio
    then codes "audio"
    else if r == request_type_fstat
    then codes "stat-file"
    else if r == request_type_fget
    then codes "get-file"
    else if r == request_type_fput
    then codes "put-file"
    else codes "unknown"

pub record FStatRequest : Type 0 where
  pub path : Bytes

pub record FGetRequest : Type 0 where
  pub path : Bytes

-- The body that is sent is a list of what its Reads give. The body that is received is the
-- connection.
pub record FGetResponse : Type 0 where
  pub name : Bytes
  pub content_type : Bytes
  pub size : ℤ

pub record FPutRequest : Type 0 where
  pub name : Bytes
  pub size : ℤ

unfoldable pub send_stat_request : FStatRequest → Action ℕ
send_stat_request f = write_string f.path

unfoldable pub recv_stat_request : Action FStatRequest
recv_stat_request = read_string >>= λ path. return record { path = path }

unfoldable pub send_get_request : FGetRequest → Action ℕ
send_get_request f = write_string f.path

unfoldable pub recv_get_request : Action FGetRequest
recv_get_request = read_string >>= λ path. return record { path = path }

unfoldable pub send_get_response : FGetResponse → List Bytes → Action ℕ
send_get_response f body = do
  a ← write_string f.name
  b ← write_string f.content_type
  n ← write_int64 f.size
  copy body

unfoldable pub recv_get_response : Action FGetResponse
recv_get_response = do
  name ← read_string
  content_type ← read_string
  size ← read_int64
  return record { name = name; content_type = content_type; size = size }

unfoldable pub send_put_request : FPutRequest → List Bytes → Action ℕ
send_put_request f body = do a ← write_string f.name; n ← write_int64 f.size; copy body

unfoldable pub recv_put_request : Action FPutRequest
recv_put_request = do
  name ← read_string
  size ← read_int64
  return record { name = name; size = size }
