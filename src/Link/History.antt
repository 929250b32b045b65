-- ===== src/Link/History.antt =====
-- src/microReticulum/Link.cpp: what happens to a link, one call after the other.
pub mod Authentic
pub mod Moves
pub mod Proofs
use micro_reticulum.Prelude.{ℕ, List, [], ◌∷◌, Option, Bool}
use micro_reticulum.Bytes.{Bytes}
use micro_reticulum.Packet.Types.{Packet}
use micro_reticulum.Cryptography.Token.{Primitives}
use micro_reticulum.Link.{Host, Link, Effect, Try, done, threw}
use micro_reticulum.Link.Establishment.{validate_proof}
use micro_reticulum.Link.Session.{teardown, send_keepalive, identify}
use micro_reticulum.Link.Receive.{receive}

-- The calls of the transport and of the application, with the time, and what comes with them.
pub data Event : Type 0 where
  receives : (now : ℕ) (proved : Bool) (interface : Option ℕ) → Packet → Event
  validates : (now : ℕ) (interface : Option ℕ) → Packet → Event
  identifies : (now : ℕ) (public_key signing_key : Bytes) → Event
  keeps_alive tears_down : (now : ℕ) → Event

-- An exception is the caller's; the link is what the call has left by then.
abbrev pub escaped : Try → Link × List Effect
escaped (done l es) = (l, es)
escaped (threw l es) = (l, es)

module _ (h : Host) (p : Primitives) where
  unfoldable pub step : Event → Link → Link × List Effect
  step (receives now proved interface q) l = receive h p now proved interface q l
  step (validates now interface q) l = validate_proof h now interface q l
  step (identifies now public_key signing_key) l = escaped (identify h now public_key signing_key l)
  step (keeps_alive now) l = escaped (send_keepalive now l)
  step (tears_down now) l = escaped (teardown now l)

  unfoldable pub run : List Event → Link → Link
  run [] l = l
  run (e ∷ es) l = run es (step e l).0
