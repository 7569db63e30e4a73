-- ===== src/Ipc/Server.antt =====
-- crates/ipc/src/server.rs: the loop of one connection over the handler.
use mathlib.Core.Option
use link_pilot.Prelude.{ℕ, String, Option, none, some, Result, ok, err, suc, zero, unwrap_or, ◌⧺◌}
use link_pilot.Core.Protocol.{Request, Response, error_unknown_verb}
use link_pilot.Ipc.Transport.{
  Bytes, Sink, TransportError, closed, Stream, Messages, read_raw_frame, write_frame,
}

-- The parameters: JSON of requests and responses, `serde_json` on untyped values, and the handler over
-- a state.
pub record Service (S Value : Type 0) : Type 0 where
  pub requests : Messages Request
  pub responses : Messages Response
  pub value_of : Bytes → Result Value String
  pub get : String → Value → Option Value
  pub as_str : Value → Option String
  pub handle : Request → S → Response × S

module _ {S Value : Type 0} (service : Service S Value) where
  -- `peek_request_id` of crates/ipc/src/transport.rs.
  unfoldable pub peek_request_id : Bytes → Option String
  peek_request_id raw = elim (service.value_of raw) [
    | err e ↦ none
    | ok v ↦ Option.bind (service.get "request_id" v) service.as_str
  ]

  -- The reply to a frame.
  unfoldable pub reply : Bytes → S → Response × S
  reply raw s = elim (service.requests.from_slice raw) [
    | ok req ↦ service.handle req s
    | err e ↦ (
      Response.error (unwrap_or (peek_request_id raw) "") error_unknown_verb
          ("request type not recognised by this daemon: " ⧺ e),
      s,
    )
  ]

  -- `serve_connection_unix`: each turn of the loop reads a frame; the fuel bounds the turns. The
  -- result is `none` where the fuel runs out, else the return value.
  unfoldable pub serve_connection :
      ℕ → Stream → Sink → S → Option (Result (Unit {0}) TransportError) × (Sink × S)
  serve_connection zero stream written s = (none, (written, s))
  serve_connection (suc fuel) stream written s =
      let (r, stream') = read_raw_frame stream in
      elim r [
        | err closed ↦ (some (ok tt), (written, s))
        | err e ↦ (some (err e), (written, s))
        | ok raw ↦
            let (resp, s') = reply raw s in
            let (sent, written') = write_frame service.responses resp written in
            elim sent [
              | err e ↦ (some (err e), (written', s'))
              | ok _ ↦ serve_connection fuel stream' written' s'
            ]
      ]
