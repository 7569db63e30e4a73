-- ===== src/Ipc/Client.antt =====
-- crates/ipc/src/client.rs: one request to the daemon.
use link_pilot.Prelude.{
  ℕ, String, Option, List, Bool, Result, err, map_err, ◌>>=◌, ◌>>◌, [], if◌then◌else◌, ◌⧺◌,
}
use link_pilot.Core.Endpoint.{Endpoint, unix_socket, named_pipe}
use link_pilot.Core.Files.{FilePath}
use link_pilot.Core.Protocol.{Request, Response}
use link_pilot.Ipc.Transport.{Bytes, TransportError, Stream, Messages, read_frame, write_frame}

-- A timeout stands for that of `DEFAULT_TIMEOUT`.
pub data ClientError : Type 0 where
  io : String → ClientError
  transport : TransportError → ClientError
  unsupported_endpoint : ClientError
  offline : String → ClientError
  timeout : ClientError

-- A connection: the faults of writing to it, and what comes back for the bytes that are written.
pub record Connection : Type 0 where
  pub faults : List (Option (ℕ × String))
  pub answer : Bytes → Stream

-- The system's answers: the start of the runtime, whether the future is done in time, the file of the
-- socket, and the connection.
pub record Network : Type 0 where
  pub start : Result (Unit {0}) String
  pub in_time : Bool
  pub exists : FilePath → Bool
  pub connect : FilePath → Result Connection String
  pub show_path : FilePath → String

module _ (requests : Messages Request) (responses : Messages Response) where
  -- The two frames on an open connection.
  unfoldable pub exchange : Connection → Request → Result Response ClientError
  exchange connection request =
      let (sent, sink) =
        write_frame requests request (record { written = []; faults = connection.faults }) in
      map_err (λ e. transport e) (sent >> (read_frame responses (connection.answer sink.written)).0)

  module _ (network : Network) where
    unfoldable pub send_async : Endpoint → Request → Result Response ClientError
    send_async (named_pipe name) request = err unsupported_endpoint
    send_async (unix_socket path) request =
        if network.exists path
        then (map_err (λ e. offline e) (network.connect path) >>= λ connection.
            exchange connection request)
        else err (offline ("no socket at " ⧺ network.show_path path))

    unfoldable pub send : Endpoint → Request → Result Response ClientError
    send endpoint request =
        map_err (λ e. io e) network.start
        >> (if network.in_time then send_async endpoint request else err timeout)
