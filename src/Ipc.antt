-- ===== src/Ipc.antt =====
-- ipc/ipc.hpp, real_ipc.hpp and real_ipc.cpp: servers and clients as state machines, and the interface of
-- the clients. The socket calls are not there yet in the source.
pub mod Session
use sys_scope.Base.{ℕ, ◌≡◌, Bool, true, false, [], Text, codes, ℤ, negsuc, if◌then◌else◌}
use sys_scope.Core.Result.{Result, ok, error}

pub data IpcCommandType : Type 0 where
  ping get_snapshot get_diagnostics : IpcCommandType

-- The server's thread is never started, so `stop` has nothing to join.
pub record RealIpcServer : Type 0 where
  pub socket_path : Text
  pub running : Bool
  pub server_fd : ℤ

pub record MockIpcServer : Type 0 where
  pub socket_path : Text
  pub running : Bool

pub record RealIpcClient : Type 0 where
  pub socket_path : Text
  pub client_fd : ℤ
  pub connected : Bool

pub record MockIpcClient : Type 0 where
  pub socket_path : Text
  pub connected : Bool

abbrev pub new_real_client : RealIpcClient
new_real_client = record { socket_path = []; client_fd = negsuc 0; connected = false }

abbrev pub new_mock_client : MockIpcClient
new_mock_client = record { socket_path = []; connected = false }

pub start : Text → RealIpcServer → Bool × RealIpcServer
start path s = (true, record s { socket_path = path; running = true })

pub stop : RealIpcServer → RealIpcServer
stop s = record s { running = false }

pub mock_start : Text → MockIpcServer → Bool × MockIpcServer
mock_start path s = (true, record s { socket_path = path; running = true })

pub mock_stop : MockIpcServer → MockIpcServer
mock_stop s = record s { running = false }

pub connect : Text → RealIpcClient → Bool × RealIpcClient
connect path c = (true, record c { socket_path = path; connected = true })

pub disconnect : RealIpcClient → RealIpcClient
disconnect c = record c { connected = false }

pub mock_connect : Text → MockIpcClient → Bool × MockIpcClient
mock_connect path c = (true, record c { socket_path = path; connected = true })

pub mock_disconnect : MockIpcClient → MockIpcClient
mock_disconnect c = record c { connected = false }

-- RealIpcClient's answers
pub reply : IpcCommandType → Text
reply ping = codes "PONG"
reply get_snapshot = codes "{\"status\":\"OK\",\"target\":\"linux\"}"
reply get_diagnostics = codes "OK"

-- MockIpcClient's answers
pub mock_reply : IpcCommandType → Text
mock_reply ping = codes "PONG"
mock_reply get_snapshot = codes "OK"
mock_reply get_diagnostics = codes "OK"

abbrev pub disconnected : Text
disconnected = codes "IPC Client disconnected."

-- The payload is not looked at.
pub send_request : IpcCommandType → Text → RealIpcClient → Result Text
unfolding reply
send_request cmd payload c = if c.connected then ok (reply cmd) else error disconnected

pub mock_send_request : IpcCommandType → Text → MockIpcClient → Result Text
unfolding mock_reply
mock_send_request cmd payload c = if c.connected then ok (mock_reply cmd) else error disconnected

-- IIpcClient, with the type of the state that its functions change.
pub record IIpcClient (S : Type 0) : Type 0 where
  pub connects_to : Text → S → Bool × S
  pub disconnects : S → S
  pub sends : IpcCommandType → Text → S → Result Text

pub real_client : IIpcClient RealIpcClient
real_client = record { connects_to = connect; disconnects = disconnect; sends = send_request }

pub mock_client : IIpcClient MockIpcClient
mock_client = record {
  connects_to = mock_connect;
  disconnects = mock_disconnect;
  sends = mock_send_request;
}

-- What a client keeps, with its answers `r`: whether it is connected, which a connect and a disconnect
-- set, and which decides between the answer to the command and the error.
pub record IsClient {S : Type 0} (api : IIpcClient S) (is_connected : S → Bool)
    (r : IpcCommandType → Text) : Type 0 where
  pub connected : (path : Text) (c : S) → is_connected (api.connects_to path c).1 ≡ true
  pub disconnected_after : (c : S) → is_connected (api.disconnects c) ≡ false
  pub answered :
      (cmd : IpcCommandType) (payload : Text) (c : S)
      → api.sends cmd payload c ≡ (if is_connected c then ok (r cmd) else error disconnected)
