-- ===== src/Tests/Wires.antt =====
-- The IPC at concrete data: frames, a connection, and a client at the other end.
use link_pilot.Prelude.{
  ℕ, String, ◌≡◌, refl, true, none, some, List, [], ◌∷◌, ◌++◌, Result, ok, err, if◌then◌else◌,
  arith, is_empty, suc,
}
use link_pilot.Core.Protocol.{Request, Response}
use link_pilot.Ipc.Transport.{Bytes, Messages, encode, frame, read_frame}
use link_pilot.Ipc.Frames.{read_frame-encode}
use link_pilot.Ipc.Server.{Service, reply, serve_connection}
use link_pilot.Core.Endpoint.{unix_socket}
use link_pilot.Ipc.Client.{Network, send}
use link_pilot.Ipc.Exchanges.{connected, send-handle}
use link_pilot.Ipc.Connections.{frames, answers, serve_connection-frames}

-- Messages of one kind, the empty object.
abbrev units : Messages (Unit {0})
units = record { to_vec = λ u. ok (b'{' ∷ b'}' ∷ []); from_slice = λ bs. ok tt }

encoded : encode units tt ≡ ok (0 ∷ 0 ∷ 0 ∷ 2 ∷ b'{' ∷ b'}' ∷ [])
unfolding encode frame
encoded = refl

read_frame-encode_example :
    read_frame units (record { bytes = (0 ∷ 0 ∷ 0 ∷ 2 ∷ b'{' ∷ b'}' ∷ []) ++ 9 ∷ []; error = none })
    ≡ (ok tt, record { bytes = 9 ∷ []; error = none })
read_frame-encode_example =
    read_frame-encode units tt (0 ∷ 0 ∷ 0 ∷ 2 ∷ b'{' ∷ b'}' ∷ []) (9 ∷ []) none (λ json h. refl)
      encoded

-- The JSON of a response, of the two kinds that are given.
abbrev json_of : Response → Result Bytes String
json_of (Response.pong id version) = ok (b'{' ∷ b'}' ∷ [])
json_of (Response.error id code message) = ok (b'"' ∷ b'E' ∷ b'"' ∷ [])
json_of _ = err "too long"

-- A daemon that counts its pings; no request parses but the payload `{}`.
abbrev counter : Service ℕ String
counter = record {
  requests = record {
    to_vec = λ r. ok [];
    from_slice = λ bs. if is_empty bs then err "EOF" else ok (Request.state_ping "p");
  };
  responses = record { to_vec = json_of; from_slice = λ bs. err "unused" };
  value_of = λ bs. err "EOF";
  get = λ k v. none;
  as_str = λ v. some v;
  handle = λ r n. (Response.pong "p" "0.2.0", suc n);
}

abbrev enc : Response → Bytes
enc (Response.pong id version) = 0 ∷ 0 ∷ 0 ∷ 2 ∷ b'{' ∷ b'}' ∷ []
enc _ = 0 ∷ 0 ∷ 0 ∷ 3 ∷ b'"' ∷ b'E' ∷ b'"' ∷ []

abbrev payloads : List Bytes
payloads = (b'{' ∷ b'}' ∷ []) ∷ [] ∷ []

serve_connection-frames_example :
    serve_connection counter 3
      (record { bytes = frames payloads; error = none })
      (record { written = []; faults = [] })
      0
    ≡ (
      some (ok tt),
      (
        record { written = [] ++ (answers counter enc payloads 0).0; faults = [] },
        (answers counter enc payloads 0).1,
      ),
    )
unfolding encode frame reply
serve_connection-frames_example =
    serve_connection-frames counter enc payloads [] 0 (refl, (refl, tt))
      (omega arith, (omega arith, tt))

-- A daemon that answers a ping; its messages are the payload `{}`.
abbrev echo : Service ℕ String
echo = record counter {
  requests = record {
    to_vec = λ r. ok (b'{' ∷ b'}' ∷ []);
    from_slice = λ bs. ok (Request.state_ping "p");
  };
  responses = record {
    to_vec = λ r. ok (b'{' ∷ b'}' ∷ []);
    from_slice = λ bs. ok (Response.pong "p" "0.2.0");
  };
}

abbrev socket : Network
socket = record {
  start = ok tt;
  in_time = true;
  exists = λ path. true;
  connect = λ path. ok (connected echo 0);
  show_path = λ path. "socket";
}

ping_encoded : encode echo.requests (Request.state_ping "p") ≡ ok (enc (Response.pong "p" "0.2.0"))
unfolding encode frame
ping_encoded = refl

pong_encoded :
    encode echo.responses (Response.pong "p" "0.2.0") ≡ ok (enc (Response.pong "p" "0.2.0"))
unfolding encode frame
pong_encoded = refl

send-handle_example :
    send echo.requests echo.responses socket
      (unix_socket ("linkpilot.sock" ∷ []))
      (Request.state_ping "p")
    ≡ ok (Response.pong "p" "0.2.0")
send-handle_example =
    send-handle echo 0 socket ("linkpilot.sock" ∷ []) (Request.state_ping "p")
      (enc (Response.pong "p" "0.2.0")) (enc (Response.pong "p" "0.2.0")) refl refl refl refl
      ping_encoded (λ json h. refl) pong_encoded (λ json h. refl)
