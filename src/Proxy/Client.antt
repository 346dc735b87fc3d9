-- ===== src/Proxy/Client.antt =====
-- The client of pkg/proxyproto/client/client.go. Each call has a part before the proxy answers and a
-- part that reads the answer: `ask` gives the connection with what was written on it.
use webmesh_vdi.Prelude.{ℕ, List}
use webmesh_vdi.Prelude.Bytes.{Bytes}
use webmesh_vdi.Proxy.Conn.{
  Fallible, ok, failed, Conn, Action, ◌>>=◌, and_then, close, close_on_error, dial, read_status,
}
use webmesh_vdi.Proxy.Requests.{
  FStatRequest, FGetRequest, FGetResponse, FPutRequest, request_type_display, request_type_audio,
  request_type_fstat, request_type_fget, request_type_fput, send_stat_request, send_get_request,
  send_put_request, recv_get_response,
}

-- DisplayProxy and AudioProxy.
unfoldable pub ask_display : Fallible ℕ × Conn
ask_display = dial request_type_display

unfoldable pub ask_audio : Fallible ℕ × Conn
ask_audio = dial request_type_audio

unfoldable pub await_stream : Action ℕ
await_stream = read_status

-- StatFile: the answer is read by the caller.
unfoldable pub ask_stat : FStatRequest → Fallible ℕ × Conn
ask_stat req = and_then (dial request_type_fstat) (λ n. close_on_error (send_stat_request req))

unfoldable pub await_stat : Action ℕ
await_stat = read_status

-- GetFile
unfoldable pub ask_get : FGetRequest → Fallible ℕ × Conn
ask_get req = and_then (dial request_type_fget) (λ n. close_on_error (send_get_request req))

unfoldable pub await_get : Action FGetResponse
await_get = read_status >>= λ st. close_on_error recv_get_response

-- PutFile sends the request in a goroutine of its own while it waits for the status.
unfoldable pub ask_put : FPutRequest → List Bytes → Fallible ℕ × Conn
ask_put req body = and_then (dial request_type_fput) (λ n. send_put_request req body)

-- The goroutine has handed over its result, or waits for ever on the channel.
pub data Sender : Type 0 where
  done : Sender
  blocked : Sender

unfoldable pub after_send : Fallible ℕ → Conn → Fallible ℕ × Conn
after_send (ok n) c = (ok n, close c)
after_send (failed message) c = (failed message, close c)

unfoldable pub after_status : Fallible ℕ → Fallible ℕ × Conn → (Fallible ℕ × Conn) × Sender
after_status sent (ok st, c) = (after_send sent c, done)
after_status sent (failed message, c) = ((failed message, c), blocked)

-- The status comes first; only then is the result of the sending taken from its channel.
unfoldable pub await_put : Fallible ℕ → Conn → (Fallible ℕ × Conn) × Sender
unfolding after_status after_send
await_put sent c = after_status sent (read_status c)
