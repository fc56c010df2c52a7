-- ===== src/Gateway/Control/Frames.antt =====
-- Frames are read as they were written (services/gateway/sidecar.rs).
use lam.Prelude.{
  ℕ, ◌+◌, ◌*◌, ◌/◌, ◌%◌, ◌^◌, ◌≤◌, Option, none, some, List, ◌++◌, length, ◌≡◌, refl, arith,
}
use lam.Errors.{ok}
use lam.Gateway.Control.{
  ControlEnvelope, ControlCrates, to_be_bytes, frame_parts, encode_frame, decode_frame,
}

-- four bytes hold a length of at most 64 KiB
frame_parts-to_be_bytes :
    (n : ℕ) (body : List ℕ) → n ≤ 65_536 → frame_parts (to_be_bytes n ++ body) ≡ some (n, body)
unfolding frame_parts to_be_bytes
frame_parts-to_be_bytes n body h =
    let whole : n / 2 ^ 24 % 256 * 2 ^ 24
          + n / 2 ^ 16 % 256 * 2 ^ 16
          + n / 2 ^ 8 % 256 * 2 ^ 8
          + n % 256
        ≡ n =
      omega arith in
    ground arith

length-frame : (n : ℕ) (body : List ℕ) → length (to_be_bytes n ++ body) ≡ length body + 4
unfolding to_be_bytes
length-frame n body = omega arith

module _ {V : Type 0} (crates : ControlCrates V) where
  -- A message that could be framed is read from its frame, where serde_json reads what it wrote.
  pub decode_frame-encode_frame :
      (envelope : ControlEnvelope V) (frame : List ℕ)
      → ((bytes : List ℕ)
          → crates.to_bytes envelope ≡ some bytes
          → crates.from_bytes bytes ≡ some envelope)
      → encode_frame crates envelope ≡ ok frame
      → decode_frame crates frame ≡ ok envelope
  unfolding encode_frame decode_frame
  decode_frame-encode_frame envelope frame reads h = go (crates.to_bytes envelope) refl
    where
      go :
          (o : Option (List ℕ))
          → crates.to_bytes envelope ≡ o
          → decode_frame crates frame ≡ ok envelope
      go none e = ground arith
      go (some body) e = ground (
        arith,
        reads body e,
        frame_parts-to_be_bytes (length body) body,
        length-frame (length body) body,
      )
