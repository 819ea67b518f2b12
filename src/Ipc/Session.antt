-- ===== src/Ipc/Session.antt =====
-- A client of any kind over a session of calls.
use sys_scope.Base.{◌≡◌, refl, Bool, true, false, List, [], ◌∷◌, Text, if◌then◌else◌}
use sys_scope.Core.Result.{Result, ok, error}
use sys_scope.Ipc.{
  IpcCommandType, RealIpcClient, MockIpcClient, connect, disconnect, send_request, mock_connect,
  mock_disconnect, mock_send_request, disconnected, reply, mock_reply, IIpcClient, real_client,
  mock_client, IsClient,
}

pub data Call : Type 0 where
  connecting : Text → Call
  disconnecting : Call
  requests : IpcCommandType → Text → Call

-- The answers to the requests of a session.
pub answers : {S : Type 0} → IIpcClient S → List Call → S → List (Result Text)
answers api [] c = []
answers api (connecting path ∷ cs) c = answers api cs (api.connects_to path c).1
answers api (disconnecting ∷ cs) c = answers api cs (api.disconnects c)
answers api (requests cmd payload ∷ cs) c = api.sends cmd payload c ∷ answers api cs c

-- What the protocol promises: an answer to each request that is made while connected, and else the
-- error of a client that is not connected.
abbrev pub promised : (IpcCommandType → Text) → List Call → Bool → List (Result Text)
promised r [] connected = []
promised r (connecting path ∷ cs) connected = promised r cs true
promised r (disconnecting ∷ cs) connected = promised r cs false
promised r (requests cmd payload ∷ cs) connected =
    (if connected then ok (r cmd) else error disconnected) ∷ promised r cs connected

-- Every client that keeps the interface's laws keeps the promise.
pub answers-IsClient :
    {S : Type 0} (api : IIpcClient S) (is_connected : S → Bool) (r : IpcCommandType → Text)
    → IsClient api is_connected r
    → (cs : List Call) (c : S) → answers api cs c ≡ promised r cs (is_connected c)
unfolding answers
answers-IsClient api is_connected r h [] c = refl
answers-IsClient api is_connected r h (connecting path ∷ cs) c =
    rw (answers-IsClient api is_connected r h cs (api.connects_to path c).1, h.connected path c)
      refl
answers-IsClient api is_connected r h (disconnecting ∷ cs) c =
    rw (answers-IsClient api is_connected r h cs (api.disconnects c), h.disconnected_after c) refl
answers-IsClient api is_connected r h (requests cmd payload ∷ cs) c =
    rw (h.answered cmd payload c, answers-IsClient api is_connected r h cs c) refl

real_client-IsClient : IsClient real_client (λ c. c.connected) reply
unfolding real_client connect disconnect send_request
real_client-IsClient = record {
  connected = λ path c. refl;
  disconnected_after = λ c. refl;
  answered = λ cmd payload c. refl;
}

mock_client-IsClient : IsClient mock_client (λ c. c.connected) mock_reply
unfolding mock_client mock_connect mock_disconnect mock_send_request
mock_client-IsClient = record {
  connected = λ path c. refl;
  disconnected_after = λ c. refl;
  answered = λ cmd payload c. refl;
}

-- Both clients keep the promise, each with its own table of replies: `reply` and `mock_reply`, which differ
-- on get_snapshot.
pub answers-promised :
    (cs : List Call) (c : RealIpcClient) (m : MockIpcClient)
    → (answers real_client cs c ≡ promised reply cs c.connected)
      × (answers mock_client cs m ≡ promised mock_reply cs m.connected)
answers-promised cs c m = (
  answers-IsClient real_client (λ c. c.connected) reply real_client-IsClient cs c,
  answers-IsClient mock_client (λ m. m.connected) mock_reply mock_client-IsClient cs m,
)
