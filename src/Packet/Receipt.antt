-- ===== src/Packet/Receipt.antt =====
-- src/microReticulum/Packet.h and Packet.cpp: `PacketReceipt`, which proves that a packet was
-- delivered or gives up on it.
pub mod Proofs
use micro_reticulum.Prelude.{
  ℕ, suc, ◌+◌, ◌/◌, List, [], ◌∷◌, ◌++◌, Option, none, some, Bool, true, false, ◌&&◌, ◌||◌,
  if◌then◌else◌, ltb, ◌==◌, length, ℤ, pos, negsuc,
}
use micro_reticulum.Bytes.{Bytes, left, mid_len, same}

pub data Status : Type 0 where
  failed sent delivered culled : Status

abbrev pub is_sent : Status → Bool
is_sent sent = true
is_sent _ = false

abbrev pub is_minus_one : ℤ → Bool
is_minus_one (pos n) = false
is_minus_one (negsuc n) = n == 0

-- `Identity::validate`, from a signature and a message; `none` where it throws.
abbrev pub Validate : Type 0
Validate = Bytes → Bytes → Option Bool

-- The callbacks are there or not; `_fn` is the std::function.
pub record Receipt : Type 0 where
  pub hash : Bytes
  pub identity : Option Validate
  pub proved : Bool
  pub status : Status
  pub sent_at : ℕ
  pub concluded_at : ℕ
  pub timeout : ℤ
  pub has_delivery_fn : Bool
  pub has_delivery : Bool
  pub has_timeout_fn : Bool
  pub has_timeout : Bool

-- The calls of callbacks. What one throws is caught and logged.
pub data Call : Type 0 where
  delivery_fn delivery timeout_fn timeout : Call

-- What a proof is answered with; `thrown` also where there is no identity to ask, which is an
-- assertion.
pub data Answer : Type 0 where
  accepted rejected thrown : Answer

abbrev pub hash_bytes : ℕ
hash_bytes = 256 / 8

abbrev pub sig_bytes : ℕ
sig_bytes = 512 / 8

abbrev pub expl_length : ℕ
expl_length = 256 / 8 + 512 / 8

abbrev pub impl_length : ℕ
impl_length = 512 / 8

abbrev pub Outcome : Type 0
Outcome = Receipt × List Call × Answer

abbrev pub delivery_calls : Receipt → List Call
delivery_calls r =
    if r.has_delivery_fn then delivery_fn ∷ [] else if r.has_delivery then delivery ∷ [] else []

abbrev pub timeout_calls : Receipt → List Call
timeout_calls r =
    if r.has_timeout_fn then timeout_fn ∷ [] else if r.has_timeout then timeout ∷ [] else []

abbrev pub deliver : ℕ → Receipt → Outcome
deliver now r =
    (record r { status = delivered; proved = true; concluded_at = now }, delivery_calls r, accepted)

abbrev pub ask : Option Validate → Bytes → Bytes → Option Bool
ask none signature message = none
ask (some validate) signature message = validate signature message

abbrev pub judge_signature : ℕ → Receipt → Option Bool → Outcome
judge_signature now r none = (r, [], thrown)
judge_signature now r (some true) = deliver now r
judge_signature now r (some false) = (r, [], rejected)

abbrev has_identity : Option Validate → Bool
has_identity none = false
has_identity (some v) = true

-- `validate_proof`: an explicit proof is the hash and a signature, an implicit one the signature.
unfoldable pub validate_proof : ℕ → Receipt → Bytes → Outcome
unfolding left mid_len same
validate_proof now r proof =
    if length proof == expl_length
    then if same (left proof hash_bytes) r.hash
      then judge_signature now r (ask r.identity (mid_len proof hash_bytes sig_bytes) r.hash)
      else (r, [], rejected)
    else if length proof == impl_length
    then if has_identity r.identity
      then judge_signature now r (ask r.identity (left proof sig_bytes) r.hash)
      else (r, [], rejected)
    else (r, [], rejected)

-- `validate_link_proof`: every length counts as explicit, and the validity of the signature is the
-- constant `false`.
unfoldable pub validate_link_proof : ℕ → Receipt → Bytes → Outcome
unfolding left same
validate_link_proof now r proof =
    if true || length proof == expl_length
    then if same (left proof hash_bytes) r.hash
      then if false then deliver now r else (r, [], rejected)
      else (r, [], rejected)
    else (r, [], rejected)

-- `validate_proof_packet`, for a proof that came over a link or not.
unfoldable pub validate_proof_packet : ℕ → Receipt → Bool → Bytes → Outcome
unfolding validate_proof validate_link_proof
validate_proof_packet now r linked proof =
    if linked then validate_link_proof now r proof else validate_proof now r proof

abbrev pub is_timed_out : ℕ → ℕ → ℤ → Bool
is_timed_out now sent_at (pos n) = ltb (sent_at + n) now
is_timed_out now sent_at (negsuc n) = ltb sent_at (now + suc n)

unfoldable pub check_timeout : ℕ → Receipt → Receipt × List Call
check_timeout now r =
    if is_sent r.status && is_timed_out now r.sent_at r.timeout
    then (
      record r { status = if is_minus_one r.timeout then culled else failed; concluded_at = now },
      timeout_calls r,
    )
    else (r, [])

-- What happens to a receipt.
pub data Event : Type 0 where
  arrives : ℕ → Bool → Bytes → Event
  ticks : ℕ → Event

pub step : Receipt → Event → Receipt × List Call
unfolding validate_proof_packet check_timeout
step r (arrives now linked proof) =
    let (t, calls, answer) = validate_proof_packet now r linked proof in (t, calls)
step r (ticks now) = check_timeout now r

unfoldable pub run : Receipt → List Event → Receipt × List Call
unfolding step
run r [] = (r, [])
run r (e ∷ es) = let (t, calls) = step r e in let (u, more) = run t es in (u, calls ++ more)
