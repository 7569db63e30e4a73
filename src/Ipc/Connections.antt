-- ===== src/Ipc/Connections.antt =====
-- What a connection answers (crates/ipc/src/server.rs).
use mathlib.Core.List.{append_assoc, append-nil}
use link_pilot.Prelude.{
  ℕ, ◌≡◌, refl, sym, ap, ◌∙◌, none, some, List, [], ◌∷◌, ◌++◌, ok, ◌%◌, ◌^◌, ◌≤◌, suc, length, All,
}
use link_pilot.Core.Protocol.{Response}
use link_pilot.Ipc.Transport.{
  Bytes, max_frame_bytes, to_be_bytes, read_raw_frame, read_exact, split_at, encode, write_all,
  flushed, write_frame,
}
use link_pilot.Ipc.Frames.{read_raw_frame-append}
use link_pilot.Ipc.Server.{Service, reply, serve_connection}

-- The payloads, framed one after the other.
abbrev pub frames : List Bytes → Bytes
frames [] = []
frames (p ∷ ps) = (to_be_bytes (length p % 2 ^ 32) ++ p) ++ frames ps

module _ {S Value : Type 0} (service : Service S Value) (enc : Response → Bytes) where
  -- The replies to the payloads in their order, each from the state after the one before, and the
  -- state after the last.
  abbrev pub answers : List Bytes → S → Bytes × S
  answers [] s = ([], s)
  answers (p ∷ ps) s =
      let (resp, s') = reply service p s in
      let (rest, s'') = answers ps s' in (enc resp ++ rest, s'')

  -- Each response that is given in turn has an encoding.
  abbrev pub Encodes : List Bytes → S → Type 0
  Encodes [] s = Unit {0}
  Encodes (p ∷ ps) s =
      let (resp, s') = reply service p s in
      (encode service.responses resp ≡ ok (enc resp)) × Encodes ps s'

  write_frame_ok :
      (r : Response) (written : Bytes)
      → encode service.responses r ≡ ok (enc r)
      → write_frame service.responses r (record { written = written; faults = [] })
        ≡ (ok tt, record { written = written ++ enc r; faults = [] })
  unfolding write_frame write_all flushed
  write_frame_ok r written encodes = rw (encodes, write_frame) refl

  -- A turn reads a frame and writes the reply to it.
  pub serve_step :
      (fuel : ℕ) (p rest written : Bytes) (s : S)
      → encode service.responses (reply service p s).0 ≡ ok (enc (reply service p s).0)
      → length p ≤ max_frame_bytes
      → serve_connection service
          (suc fuel)
          (record { bytes = (to_be_bytes (length p % 2 ^ 32) ++ p) ++ rest; error = none })
          (record { written = written; faults = [] })
          s
        ≡ serve_connection service fuel
            (record { bytes = rest; error = none })
            (record { written = written ++ enc (reply service p s).0; faults = [] })
            (reply service p s).1
  unfolding serve_connection
  serve_step fuel p rest written s encodes fits =
      let read = read_raw_frame-append p rest none fits in
      let sent = write_frame_ok (reply service p s).0 written encodes in
      rw (read, serve_connection)
        (rw (sent, serve_connection)
          (λ i. serve_connection service fuel ((read i).1) ((sent i).1) (reply service p s).1))

  -- Frames within the bound are all answered, in their order, by what the handler says or by the error
  -- of an unknown verb, and at the end of the stream the connection is closed without an error. The
  -- responses that are given to these frames must have an encoding within the bound, and the writes
  -- have no faults.
  pub serve_connection-frames :
      (payloads : List Bytes) (written : Bytes) (s : S)
      → Encodes payloads s
      → All (λ p. length p ≤ max_frame_bytes) payloads
      → serve_connection service
          (suc (length payloads))
          (record { bytes = frames payloads; error = none })
          (record { written = written; faults = [] })
          s
        ≡ (
          some (ok tt),
          (
            record { written = written ++ (answers payloads s).0; faults = [] },
            (answers payloads s).1,
          ),
        )
  unfolding serve_connection read_raw_frame read_exact split_at
  serve_connection-frames [] written s encodes fits =
      ap (λ w. (some (ok tt), (record { written = w; faults = [] }, s))) (sym (append-nil written))
  serve_connection-frames (p ∷ ps) written s encodes fits =
      serve_step (suc (length ps)) p (frames ps) written s encodes.0 fits.0
      ∙ serve_connection-frames ps (written ++ enc (reply service p s).0) (reply service p s).1
          encodes.1 fits.1
      ∙ ap (λ w. (some (ok tt), (record { written = w; faults = [] }, (answers (p ∷ ps) s).1)))
          (append_assoc written (enc (reply service p s).0) (answers ps (reply service p s).1).0)
