-- ===== src/Ipc/Transport.antt =====
-- crates/ipc/src/transport.rs: length-prefixed JSON frames. Bytes are numbers below 256.
use link_pilot.Prelude.{
  ℕ, String, Option, none, some, List, [], ◌∷◌, ◌++◌, Result, ok, err, map_err, if◌then◌else◌, ltb,
  ◌+◌, ◌*◌, ◌/◌, ◌%◌, ◌^◌, suc, zero, length, ◌>>=◌,
}

abbrev pub Bytes : Type 0
Bytes = List ℕ

-- `std::io::Error` of a read: the end of the stream, or another error by its message.
pub data ReadError : Type 0 where
  unexpected_eof : ReadError
  failed : String → ReadError

pub data TransportError : Type 0 where
  io : ReadError → TransportError
  serde : String → TransportError
  frame_too_large : ℕ → TransportError
  closed : TransportError

-- What a stream still delivers: bytes, then its end or an error.
pub record Stream : Type 0 where
  pub bytes : Bytes
  pub error : Option String

-- What was written to a stream, and the faults of the writes and flushes to come, in their order: at each
-- none, or an error with the number of bytes that were written before it. An empty list is without faults.
pub record Sink : Type 0 where
  pub written : Bytes
  pub faults : List (Option (ℕ × String))

abbrev pub max_frame_bytes : ℕ
max_frame_bytes = 4194304

-- `(n as u32).to_be_bytes()`
abbrev pub to_be_bytes : ℕ → Bytes
to_be_bytes n = n / 2 ^ 24 % 256 ∷ n / 2 ^ 16 % 256 ∷ n / 2 ^ 8 % 256 ∷ n % 256 ∷ []

-- The first `n` bytes and the others, if there are so many.
unfoldable pub split_at : ℕ → Bytes → Option (Bytes × Bytes)
split_at zero bs = some ([], bs)
split_at (suc n) [] = none
split_at (suc n) (b ∷ bs) = elim (split_at n bs) [
  | none ↦ none
  | some (front, rest) ↦ some (b ∷ front, rest)
]

abbrev pub end_error : Option String → ReadError
end_error none = unexpected_eof
end_error (some e) = failed e

-- `read_exact` on a buffer of `n` bytes.
unfoldable pub read_exact : ℕ → Stream → Result Bytes ReadError × Stream
read_exact n s = elim (split_at n s.bytes) [
  | none ↦ (err (end_error s.error), record s { bytes = [] })
  | some (front, rest) ↦ (ok front, record s { bytes = rest })
]

-- The error of the first read: an end there is a closed connection.
abbrev pub header_error : ReadError → TransportError
header_error unexpected_eof = closed
header_error (failed e) = io (failed e)

-- `u32::from_be_bytes`
abbrev pub from_be_bytes : Bytes → ℕ
from_be_bytes (a ∷ b ∷ c ∷ d ∷ _) = a * 2 ^ 24 + b * 2 ^ 16 + c * 2 ^ 8 + d
from_be_bytes _ = 0

-- The second part of `read_raw_frame`, on the length.
unfoldable pub read_payload : ℕ → Stream → Result Bytes TransportError × Stream
read_payload len s =
    let (r, s') = read_exact len s in
    if ltb max_frame_bytes len then (err (frame_too_large len), s) else (map_err io r, s')

unfoldable pub read_raw_frame : Stream → Result Bytes TransportError × Stream
read_raw_frame s =
    let (r, s') = read_exact 4 s in
    elim r [
      | ok header ↦ read_payload (from_be_bytes header) s'
      | err e ↦ (err (header_error e), s')
    ]

abbrev first_bytes : ℕ → Bytes → Bytes
first_bytes zero bs = []
first_bytes (suc n) [] = []
first_bytes (suc n) (b ∷ bs) = b ∷ first_bytes n bs

abbrev write_next :
    List (Option (ℕ × String)) → Bytes → Bytes → Result (Unit {0}) TransportError × Sink
write_next [] written bytes = (ok tt, record { written = written ++ bytes; faults = [] })
write_next (none ∷ faults) written bytes =
    (ok tt, record { written = written ++ bytes; faults = faults })
write_next (some (n, e) ∷ faults) written bytes =
    (err (io (failed e)), record { written = written ++ first_bytes n bytes; faults = faults })

-- `write_all`
unfoldable pub write_all : Bytes → Sink → Result (Unit {0}) TransportError × Sink
write_all bytes sink = write_next sink.faults sink.written bytes

abbrev flush_next : List (Option (ℕ × String)) → Bytes → Result (Unit {0}) TransportError × Sink
flush_next [] written = (ok tt, record { written = written; faults = [] })
flush_next (none ∷ faults) written = (ok tt, record { written = written; faults = faults })
flush_next (some (n, e) ∷ faults) written =
    (err (io (failed e)), record { written = written; faults = faults })

-- `flush`, after a write that went well.
unfoldable pub flushed :
    Result (Unit {0}) TransportError × Sink → Result (Unit {0}) TransportError × Sink
flushed (err e, sink) = (err e, sink)
flushed (ok _, sink) = flush_next sink.faults sink.written

-- `serde_json` on messages: `to_vec` of those sent, `from_slice` of those received.
pub record Messages (T : Type 0) : Type 0 where
  pub to_vec : T → Result Bytes String
  pub from_slice : Bytes → Result T String

module _ {T : Type 0} (messages : Messages T) where
  -- The frame of a payload, within the bound.
  unfoldable pub frame : Bytes → Result Bytes TransportError
  frame json =
      if ltb max_frame_bytes (length json)
      then err (frame_too_large (length json))
      else ok (to_be_bytes (length json % 2 ^ 32) ++ json)

  unfoldable pub encode : T → Result Bytes TransportError
  encode msg = map_err serde (messages.to_vec msg) >>= frame

  unfoldable pub decode : Bytes → Result T TransportError
  decode bytes = map_err serde (messages.from_slice bytes)

  -- `read_frame` reads as `read_raw_frame` does, and decodes.
  unfoldable pub read_frame : Stream → Result T TransportError × Stream
  read_frame s = let (r, s') = read_raw_frame s in (r >>= decode, s')

  -- `write_frame`; the error of the flush comes after the bytes.
  unfoldable pub write_frame : T → Sink → Result (Unit {0}) TransportError × Sink
  write_frame msg sink = elim (encode msg) [
    | ok bytes ↦ flushed (write_all bytes sink)
    | err e ↦ (err e, sink)
  ]
