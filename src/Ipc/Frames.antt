-- ===== src/Ipc/Frames.antt =====
-- Reading frames back (crates/ipc/src/transport.rs).
use link_pilot.Prelude.{
  ℕ, String, ◌≡◌, ◌≢◌, refl, ap, ◌∙◌, true, false, Option, some, [], ◌∷◌, ◌++◌, ok, err, ltb, ◌%◌,
  ◌^◌, ◌<◌, ◌≤◌, length, arith, Bool-cases, Result-cases, inl, inr,
}
use link_pilot.Ipc.Transport.{
  Bytes, Messages, max_frame_bytes, to_be_bytes, from_be_bytes, split_at, read_exact, read_payload,
  read_raw_frame, frame, encode, decode, read_frame,
}

ok≢err : {A : Type 0} {E : Type 0} (a : A) (x : E) → ok a ≢ err x
ok≢err a x h = cc

be_bytes : (n : ℕ) → n < 2 ^ 32 → from_be_bytes (to_be_bytes n) ≡ n
be_bytes n h = omega arith

split_at-append : (xs ys : Bytes) → split_at (length xs) (xs ++ ys) ≡ some (xs, ys)
unfolding split_at
split_at-append [] ys = refl
split_at-append (x ∷ xs) ys = rw (split_at-append xs ys) refl

read_exact-append :
    (xs ys : Bytes) (e : Option String)
    → read_exact (length xs) (record { bytes = xs ++ ys; error = e })
      ≡ (ok xs, record { bytes = ys; error = e })
unfolding read_exact
read_exact-append xs ys e = rw (split_at-append xs ys, read_exact) refl

-- A frame is read back whole, and what comes after it is left.
pub read_raw_frame-append :
    (json rest : Bytes) (e : Option String)
    → length json ≤ max_frame_bytes
    → read_raw_frame
        (record { bytes = (to_be_bytes (length json % 2 ^ 32) ++ json) ++ rest; error = e })
      ≡ (ok json, record { bytes = rest; error = e })
unfolding read_raw_frame read_payload read_exact split_at
read_raw_frame-append json rest e h =
    let size : from_be_bytes (to_be_bytes (length json % 2 ^ 32)) ≡ length json =
      be_bytes (length json % 2 ^ 32) (omega arith) ∙ omega arith in
    let fits : ltb max_frame_bytes (length json) ≡ false = ground arith in
    ap (λ n. read_payload n (record { bytes = json ++ rest; error = e })) size
    ∙ rw (fits, read_exact-append json rest e) refl

module _ {T : Type 0} (messages : Messages T) where
  -- What is encoded is the payload after its length, within the bound.
  pub encode_ok :
      (msg : T) (bytes : Bytes)
      → encode messages msg ≡ ok bytes
      → (json : Bytes) × (messages.to_vec msg ≡ ok json)
        × (length json ≤ max_frame_bytes)
        × (bytes ≡ to_be_bytes (length json % 2 ^ 32) ++ json)
  unfolding encode frame
  encode_ok msg bytes h = elim (Result-cases (messages.to_vec msg)) [
    | inr (x, failed) ↦ absurd (none_ok x failed)
    | inl (json, shown) ↦ elim (Bool-cases (ltb max_frame_bytes (length json))) [
      | inl long ↦ absurd (too_long json shown long)
      | inr fits ↦ (json, shown, ground arith, same json shown fits)
    ]
  ]
    where
      none_ok : (x : String) → messages.to_vec msg ≡ err x → ⊥
      none_ok x failed = ground arith

      too_long :
          (json : Bytes)
          → messages.to_vec msg ≡ ok json
          → ltb max_frame_bytes (length json) ≡ true
          → ⊥
      too_long json shown long = ground arith

      same :
          (json : Bytes)
          → messages.to_vec msg ≡ ok json
          → ltb max_frame_bytes (length json) ≡ false
          → bytes ≡ to_be_bytes (length json % 2 ^ 32) ++ json
      same json shown fits = ground arith

  -- What `encode` gives, `read_frame` reads back, whatever follows in the stream; messages must be read
  -- back from their JSON.
  pub read_frame-encode :
      (msg : T) (bytes rest : Bytes) (e : Option String)
      → ((json : Bytes) → messages.to_vec msg ≡ ok json → messages.from_slice json ≡ ok msg)
      → encode messages msg ≡ ok bytes
      → read_frame messages (record { bytes = bytes ++ rest; error = e })
        ≡ (ok msg, record { bytes = rest; error = e })
  unfolding read_frame decode
  read_frame-encode msg bytes rest e trips h =
      let (json, shown, fits, same) = encode_ok msg bytes h in
      rw (same, read_raw_frame-append json rest e fits, trips json shown) refl
