-- ===== src/Tests/Receipts.antt =====
-- src/microReticulum/Packet.cpp, `PacketReceipt`, with a destination whose valid signatures are the
-- hash twice.
use micro_reticulum.Prelude.{◌≡◌, refl, List, [], ◌∷◌, ◌++◌, some, true, false, replicate, pos}
use micro_reticulum.Bytes.{Bytes, same}
use micro_reticulum.Packet.Receipt.{
  Receipt, failed, sent, delivered, deliver, validate_proof, accepted, arrives, ticks, run, Event,
}
use micro_reticulum.Packet.Receipt.Proofs.{IsProof, validate_proof-IsProof}

abbrev receipt : Receipt
receipt = record {
  hash = replicate 32 7;
  identity = some (λ signature message. some (same signature (message ++ message)));
  proved = false;
  status = sent;
  sent_at = 100;
  concluded_at = 0;
  timeout = pos 10;
  has_delivery_fn = true;
  has_delivery = false;
  has_timeout_fn = true;
  has_timeout = false;
}

-- A timeout and a proof after it: the receipt has failed and is delivered later.
abbrev late : List Event
late = ticks 105 ∷ ticks 111 ∷ ticks 112 ∷ arrives 120 false (replicate 96 7) ∷ ticks 130 ∷ []

late_delivered : (run receipt late).0.status ≡ delivered
unfolding run same
late_delivered = refl

validate_proof-IsProof_example :
    ((validate_proof 120 receipt (replicate 96 7)).2 ≡ accepted
      → (signature : Bytes) × IsProof receipt (replicate 96 7) signature)
    × ((signature : Bytes)
        → IsProof receipt (replicate 96 7) signature
        → validate_proof 120 receipt (replicate 96 7) ≡ deliver 120 receipt)
validate_proof-IsProof_example = validate_proof-IsProof 120 receipt (replicate 96 7) refl

-- A valid proof that comes over a link delivers nothing, and the receipt times out.
abbrev over_link : List Event
over_link = arrives 101 true (replicate 96 7) ∷ ticks 111 ∷ []

over_link_failed : (run receipt over_link).0.status ≡ failed
unfolding run same
over_link_failed = refl
