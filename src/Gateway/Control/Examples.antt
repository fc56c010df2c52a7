-- ===== src/Gateway/Control/Examples.antt =====
-- Checks at concrete inputs: two connections bring the same message, and both load the last nonce before
-- either exchanges it.
use lam.Prelude.{ℕ, false, ◌==◌, string_eq, if◌then◌else◌, none, some, List, [], ◌∷◌, ◌≡◌, refl}
use lam.Errors.{ok, gateway_control_nonce_replay}
use lam.Gateway.Control.{
  ControlEnvelope, ControlCrates, AuthenticatedControl, ControlState, Handler, received, answered,
  refused, shutdown, encode_frame, decode_frame, hmac_sha256, check_mac, verify_and_advance,
  interleaved,
}
use lam.Gateway.Control.Frames.{decode_frame-encode_frame}
use lam.Gateway.Control.Replay.{IsReplayFree, interleaved-IsReplayFree}

abbrev stop : ControlEnvelope ℕ
stop = record {
  protocol_version = 1;
  request_nonce = 7;
  command = shutdown;
  payload = 0;
  mac = "ff";
}

-- one envelope is written and read, and every digest is one byte
abbrev crates : ControlCrates ℕ
crates = record {
  to_bytes = λ e. some (5 ∷ 6 ∷ []);
  signed_bytes = λ e. some (9 ∷ []);
  from_bytes = λ bytes. some stop;
  sha256 = λ bytes. 255 ∷ [];
  encode = λ bytes. "ff";
  decode = λ text. if text == "ff" then some (255 ∷ []) else none;
}

abbrev control : AuthenticatedControl
control = record { key = 1 ∷ 2 ∷ []; expected_uid = 501 }

framed : encode_frame crates stop ≡ ok (0 ∷ 0 ∷ 0 ∷ 2 ∷ 5 ∷ 6 ∷ [])
unfolding encode_frame
framed = refl

decode_frame-encode_frame_example : decode_frame crates (0 ∷ 0 ∷ 0 ∷ 2 ∷ 5 ∷ 6 ∷ []) ≡ ok stop
decode_frame-encode_frame_example =
    decode_frame-encode_frame crates stop (0 ∷ 0 ∷ 0 ∷ 2 ∷ 5 ∷ 6 ∷ []) (λ bytes e. refl) framed

abbrev start : ControlState crates control
start = record { last_nonce = 0; requested = false; accepted = [] }

abbrev twice : List (Handler crates control)
twice = received 501 stop ∷ received 501 stop ∷ []

one_wins :
    (interleaved crates control (0 ∷ 1 ∷ 1 ∷ 0 ∷ []) twice start).0
    ≡ refused gateway_control_nonce_replay ∷ answered 7 ∷ []
unfolding interleaved verify_and_advance check_mac hmac_sha256
one_wins = refl

interleaved-IsReplayFree_example :
    IsReplayFree crates control (interleaved crates control (0 ∷ 1 ∷ 1 ∷ 0 ∷ []) twice start).1
interleaved-IsReplayFree_example =
    interleaved-IsReplayFree crates control (0 ∷ 1 ∷ 1 ∷ 0 ∷ []) twice start
      (record { once = refl; newest = refl; authentic = refl; asked = refl })
