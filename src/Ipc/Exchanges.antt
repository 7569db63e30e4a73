-- ===== src/Ipc/Exchanges.antt =====
-- The client and the server at the two ends of a connection (crates/ipc/src/client.rs, server.rs).
use mathlib.Core.List.{append-nil}
use link_pilot.Prelude.{◌≡◌, refl, sym, ap, ◌∙◌, true, none, [], ◌++◌, ok, ◌%◌, ◌^◌, ◌≤◌, length}
use link_pilot.Core.Endpoint.{unix_socket}
use link_pilot.Core.Files.{FilePath}
use link_pilot.Core.Protocol.{Request}
use link_pilot.Ipc.Transport.{
  Bytes, Stream, Messages, read_raw_frame, read_exact, split_at, max_frame_bytes, to_be_bytes,
  encode, write_all, flushed, write_frame, read_frame,
}
use link_pilot.Ipc.Frames.{encode_ok, read_frame-encode}
use link_pilot.Ipc.Server.{Service, reply, serve_connection}
use link_pilot.Ipc.Connections.{serve_step}
use link_pilot.Ipc.Client.{Network, Connection, exchange, send_async, send}

-- The message is read back from its JSON.
abbrev pub IsRead : {T : Type 0} → Messages T → T → Type 0
IsRead messages msg =
    (json : Bytes) → messages.to_vec msg ≡ ok json → messages.from_slice json ≡ ok msg

module _ {S Value : Type 0} (service : Service S Value) (s : S) where
  -- What the daemon in state `s` sends back for the bytes of one frame.
  abbrev pub served : Bytes → Stream
  served written = record {
    bytes =
        (serve_connection service 2 (record { bytes = written; error = none })
          (record { written = []; faults = [] }) s).1.0.written;
    error = none;
  }

  -- The connection to this daemon.
  abbrev pub connected : Connection
  connected = record { faults = []; answer = served }

  served-frame :
      (json out : Bytes)
      → length json ≤ max_frame_bytes
      → encode service.responses (reply service json s).0 ≡ ok out
      → served (to_be_bytes (length json % 2 ^ 32) ++ json)
        ≡ record { bytes = out ++ []; error = none }
  unfolding serve_connection read_raw_frame read_exact split_at
  served-frame json out fits encodes =
      ap served (sym (append-nil (to_be_bytes (length json % 2 ^ 32) ++ json)))
      ∙ ap (λ o. record { bytes = o.1.0.written; error = none })
          (serve_step service (λ r. out) 1 json [] [] s encodes fits)
      ∙ ap (λ b. record { bytes = b; error = none }) (sym (append-nil out))

  exchange-served :
      (request : Request) (bytes out : Bytes)
      → encode service.requests request ≡ ok bytes
      → IsRead service.requests request
      → encode service.responses (service.handle request s).0 ≡ ok out
      → IsRead service.responses (service.handle request s).0
      → exchange service.requests service.responses connected request
        ≡ ok (service.handle request s).0
  unfolding exchange write_frame write_all flushed reply
  exchange-served request bytes out encoded asks answered tells =
      let (json, shown, fits, same) = encode_ok service.requests request bytes encoded in
      let r = (service.handle request s).0 in
      let said : (reply service json s).0 ≡ r = rw (asks json shown, reply) refl in
      let back = read_frame-encode service.responses r out [] none tells answered in
      let got : (read_frame service.responses (served bytes)).0 ≡ ok r =
        ap (λ b. (read_frame service.responses (served b)).0) same
        ∙ ap (λ t. (read_frame service.responses t).0)
            (served-frame json out fits (rw said answered))
        ∙ ap (λ o. o.0) back in
      rw (encoded, write_frame, got) refl

  -- A request that the client can encode, to a daemon that it reaches in time, over a connection whose
  -- writes have no faults, is answered by what the
  -- daemon's handler says to it; that response must have an encoding within the bound, and both
  -- messages must be read back from their JSON.
  pub send-handle :
      (network : Network) (path : FilePath) (request : Request) (bytes out : Bytes)
      → network.start ≡ ok tt
      → network.in_time ≡ true
      → network.exists path ≡ true
      → network.connect path ≡ ok connected
      → encode service.requests request ≡ ok bytes
      → IsRead service.requests request
      → encode service.responses (service.handle request s).0 ≡ ok out
      → IsRead service.responses (service.handle request s).0
      → send service.requests service.responses network (unix_socket path) request
        ≡ ok (service.handle request s).0
  unfolding send send_async
  send-handle network path request bytes out starts soon there connects encoded asks answered
        tells =
      let talk = exchange-served request bytes out encoded asks answered tells in
      simp (starts, soon, there, connects, talk)
