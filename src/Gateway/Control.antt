-- ===== src/Gateway/Control.antt =====
-- The control protocol of services/gateway/sidecar.rs: framed messages with a nonce and an HMAC, and the
-- handlers of concurrent connections that share the last nonce and the request to shut down.
--
-- serde_json, SHA-256 and hexadecimal come from outside (`ControlCrates`), bytes are numbers below 256.
pub mod Frames
pub mod Replay
mod Examples
use Prim.Native.Nat.{bit_or, bit_xor}
use lam.Prelude.{
  ℕ, zero, suc, ◌+◌, ◌-◌, ◌*◌, ◌/◌, ◌%◌, ◌^◌, String, Bool, true, false, not, ◌&&◌, ◌||◌, ◌==◌,
  nat_eq, leb, ltb, Option, none, some, List, [], ◌∷◌, ◌++◌, map, length, if◌then◌else◌,
}
use lam.Errors.{
  ErrorCode, AppError, Result, ok, err, error, guard, ok_or, ◌>>=◌, ◌>>◌,
  gateway_control_peer_forbidden, gateway_control_version_mismatch, gateway_control_nonce_replay,
  gateway_control_auth_invalid, gateway_control_frame_invalid, gateway_control_message_limit,
  gateway_identity_key_invalid,
}

pub data ControlCommand : Type 0 where
  status readiness shutdown drain : ControlCommand

-- `V` stands for the values of serde_json.
pub record ControlEnvelope (V : Type 0) : Type 0 where
  pub protocol_version : ℕ
  pub request_nonce : ℕ
  pub command : ControlCommand
  pub payload : V
  pub mac : String

abbrev max_control_message_bytes : ℕ
max_control_message_bytes = 65_536

abbrev pub control_protocol_version : ℕ
control_protocol_version = 1

-- What the crates give: the JSON of an envelope and of its four signed parts, in bytes, an envelope
-- parsed, SHA-256, and hexadecimal both ways.
pub record ControlCrates (V : Type 0) : Type 0 where
  pub to_bytes : ControlEnvelope V → Option (List ℕ)
  pub signed_bytes : ControlEnvelope V → Option (List ℕ)
  pub from_bytes : List ℕ → Option (ControlEnvelope V)
  pub sha256 : List ℕ → List ℕ
  pub encode : List ℕ → String
  pub decode : String → Option (List ℕ)

-- `to_be_bytes` and `from_be_bytes` of a u32
unfoldable pub to_be_bytes : ℕ → List ℕ
to_be_bytes n = n / 2 ^ 24 % 256 ∷ n / 2 ^ 16 % 256 ∷ n / 2 ^ 8 % 256 ∷ n % 256 ∷ []

unfoldable pub frame_parts : List ℕ → Option (ℕ × List ℕ)
frame_parts (a ∷ b ∷ c ∷ d ∷ body) = some (a * 2 ^ 24 + b * 2 ^ 16 + c * 2 ^ 8 + d, body)
frame_parts _ = none

-- the fold of `constant_time_bytes`
unfoldable pub byte_difference : List ℕ → List ℕ → ℕ → ℕ
byte_difference (l ∷ ls) (r ∷ rs) difference =
    byte_difference ls rs (bit_or difference (bit_xor l r))
byte_difference _ _ difference = difference

unfoldable pub constant_time_bytes : List ℕ → List ℕ → Bool
unfolding byte_difference
constant_time_bytes expected provided =
    length expected == length provided && byte_difference expected provided 0 == 0

-- a pad of 64 bytes, of which the first are changed by the key
unfoldable pub padded : ℕ → ℕ → List ℕ → List ℕ
padded zero byte key = []
padded (suc n) byte [] = byte ∷ padded n byte []
padded (suc n) byte (k ∷ key) = bit_xor byte k ∷ padded n byte key

pub record AuthenticatedControl : Type 0 where
  pub key : List ℕ
  pub expected_uid : ℕ

-- `AuthenticatedControl::new`
unfoldable pub new_control : List ℕ → ℕ → Result AuthenticatedControl
new_control key expected_uid =
    guard (length key == 32) (error gateway_identity_key_invalid)
    >> ok (record { key = key; expected_uid = expected_uid })

module _ {V : Type 0} (crates : ControlCrates V) where
  unfoldable pub encode_frame : ControlEnvelope V → Result (List ℕ)
  unfolding to_be_bytes
  encode_frame envelope =
      ok_or (crates.to_bytes envelope) (error gateway_control_frame_invalid) >>= λ body.
      guard (leb (length body) max_control_message_bytes) (error gateway_control_message_limit)
      >> ok (to_be_bytes (length body) ++ body)

  unfoldable pub decode_frame : List ℕ → Result (ControlEnvelope V)
  unfolding frame_parts
  decode_frame frame = ok_or (frame_parts frame) (error gateway_control_frame_invalid) >>= λ parts.
      guard (leb parts.0 max_control_message_bytes && length frame == parts.0 + 4)
        (error gateway_control_frame_invalid)
      >> ok_or (crates.from_bytes parts.1) (error gateway_control_frame_invalid)

  unfoldable pub hmac_sha256 : List ℕ → List ℕ → List ℕ
  unfolding padded
  hmac_sha256 key message =
      crates.sha256 (padded 64 0x5c key ++ crates.sha256 (padded 64 0x36 key ++ message))

  unfoldable pub control_payload : ControlEnvelope V → Result (List ℕ)
  control_payload envelope =
      ok_or (crates.signed_bytes envelope) (error gateway_control_frame_invalid)

  module _ (control : AuthenticatedControl) where
    unfoldable pub sign : ℕ → ControlCommand → V → Result (ControlEnvelope V)
    unfolding control_payload hmac_sha256
    sign request_nonce command payload =
        let unsigned : ControlEnvelope V = record {
          protocol_version = control_protocol_version;
          request_nonce = request_nonce;
          command = command;
          payload = payload;
          mac = "";
        } in
        control_payload unsigned >>= λ signed.
        guard (leb (length signed) (max_control_message_bytes - 128))
          (error gateway_control_message_limit)
        >> (let envelope : ControlEnvelope V = record unsigned {
          mac = crates.encode (hmac_sha256 control.key signed);
        } in
            ok_or (crates.to_bytes envelope) (error gateway_control_frame_invalid) >>= λ body.
            guard (leb (length body) max_control_message_bytes)
              (error gateway_control_message_limit)
            >> ok envelope)

    -- the two checks of the MAC
    unfoldable pub check_mac : ControlEnvelope V → Result (Unit {0})
    unfolding control_payload hmac_sha256 constant_time_bytes
    check_mac envelope =
        ok_or (crates.decode envelope.mac) (error gateway_control_auth_invalid) >>= λ provided.
        control_payload envelope >>= λ signed.
        guard (constant_time_bytes (hmac_sha256 control.key signed) provided)
          (error gateway_control_auth_invalid)

    unfoldable pub verify_and_advance : ℕ → ControlEnvelope V → ℕ → Result ℕ
    unfolding check_mac
    verify_and_advance peer_uid envelope last_nonce =
        guard (peer_uid == control.expected_uid) (error gateway_control_peer_forbidden)
        >> (guard (envelope.protocol_version == control_protocol_version)
              (error gateway_control_version_mismatch)
            >> (guard (ltb last_nonce envelope.request_nonce) (error gateway_control_nonce_replay)
                >> (check_mac envelope >> ok envelope.request_nonce)))

    unfoldable pub verify_response : ℕ → ControlEnvelope V → ℕ → Result (Unit {0})
    unfolding check_mac
    verify_response peer_uid envelope expected_nonce =
        guard (peer_uid == control.expected_uid) (error gateway_control_peer_forbidden)
        >> (guard
              (envelope.protocol_version == control_protocol_version
                && envelope.request_nonce == expected_nonce)
              (error gateway_control_version_mismatch)
            >> check_mac envelope)

    -- What the handlers share: `last_nonce` and `requested`; `accepted` records the messages that were
    -- accepted, the last one first.
    pub record ControlState : Type 0 where
      pub last_nonce : ℕ
      pub requested : Bool
      pub accepted : List (ControlEnvelope V)

    -- `handle_control_stream` between its reads of the shared state: it has a message of a peer, then the
    -- nonce that it loaded, and at the end the code of a refusal or the accepted nonce.
    pub data Handler : Type 0 where
      received : ℕ → ControlEnvelope V → Handler
      loaded : ℕ → ControlEnvelope V → ℕ → Handler
      refused : ErrorCode → Handler
      answered : ℕ → Handler

    abbrev pub is_shutdown : ControlCommand → Bool
    is_shutdown shutdown = true
    is_shutdown _ = false

    -- `compare_exchange`, and what follows it
    unfoldable pub exchange : ControlEnvelope V → ℕ → ℕ → ControlState → Handler × ControlState
    exchange envelope current nonce s =
        if s.last_nonce == current
        then (
          answered nonce,
          record {
            last_nonce = nonce;
            requested = s.requested || is_shutdown envelope.command;
            accepted = envelope ∷ s.accepted;
          },
        )
        else (refused gateway_control_nonce_replay, s)

    -- the next access of a handler to the shared state
    unfoldable pub advance : Handler → ControlState → Handler × ControlState
    unfolding exchange
    advance (received peer envelope) s = (loaded peer envelope s.last_nonce, s)
    advance (loaded peer envelope current) s = elim (verify_and_advance peer envelope current) [
      | err e ↦ (refused e.code, s)
      | ok nonce ↦ exchange envelope current nonce s
    ]
    advance (refused code) s = (refused code, s)
    advance (answered nonce) s = (answered nonce, s)

    -- the turn of the handler at a place
    unfoldable pub turn : ℕ → List Handler → ControlState → List Handler × ControlState
    unfolding advance
    turn n [] s = ([], s)
    turn zero (h ∷ hs) s = let r = advance h s in (r.0 ∷ hs, r.1)
    turn (suc n) (h ∷ hs) s = let r = turn n hs s in (h ∷ r.0, r.1)

    -- the handlers take turns in any order
    unfoldable pub interleaved : List ℕ → List Handler → ControlState → List Handler × ControlState
    unfolding turn
    interleaved [] hs s = (hs, s)
    interleaved (n ∷ schedule) hs s = let r = turn n hs s in interleaved schedule r.0 r.1
