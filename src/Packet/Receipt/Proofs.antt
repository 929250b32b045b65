-- ===== src/Packet/Receipt/Proofs.antt =====
-- src/microReticulum/Packet.cpp, `PacketReceipt`: which proofs are accepted, and what becomes of a
-- receipt in the end.
use micro_reticulum.Prelude.{
  ℕ, ◌≡◌, ◌⊎◌, inl, inr, refl, sym, subst, ap, ◌∙◌, ◌++◌, Option, none, some, Bool, true, false,
  ◌==◌, ==_iff, length, length-append, Bool-cases, arith,
}
use micro_reticulum.Bytes.{Bytes, left, mid_len, same}
use micro_reticulum.Bytes.Compare.{same_iff}
use micro_reticulum.Bytes.Slices.{mid_len-rest, left-append, length-mid_len, left-mid_len, left_all}
use micro_reticulum.Packet.Receipt.{
  has_identity, Status, sent, Receipt, accepted, Validate, ask, judge_signature, deliver,
  validate_proof, hash_bytes, sig_bytes, expl_length, impl_length,
}

-- One more while the packet is only sent.
abbrev pending : Status → ℕ
pending sent = 1
pending _ = 0

-- A proof of the receipt's packet: a signature of its hash by its destination, behind the hash or
-- alone.
pub record IsProof (r : Receipt) (proof signature : Bytes) : Type 0 where
  pub signature_size : length signature ≡ sig_bytes
  pub signed : ask r.identity signature r.hash ≡ some true
  pub layout : (proof ≡ r.hash ++ signature) ⊎ (proof ≡ signature)

judge_signature-accepted :
    (now : ℕ) (r : Receipt) (a : Option Bool)
    → (judge_signature now r a).2 ≡ accepted
    → a ≡ some true
judge_signature-accepted now r none h = absurd cc
judge_signature-accepted now r (some true) h = refl
judge_signature-accepted now r (some false) h = absurd cc

validate_proof_sound :
    (now : ℕ) (r : Receipt) (proof : Bytes)
    → (validate_proof now r proof).2 ≡ accepted
    → (signature : Bytes) × IsProof r proof signature
unfolding validate_proof
validate_proof_sound now r proof h = elim (Bool-cases (length proof == expl_length)) [
  | inl long ↦ elim (Bool-cases (same (left proof hash_bytes) r.hash)) [
    | inl match ↦
        let size = (==_iff (length proof) expl_length).0 long in
        (
          mid_len proof hash_bytes sig_bytes,
          record {
            signature_size = length-mid_len proof hash_bytes sig_bytes size (omega arith);
            signed = judge_signature-accepted now r _ (rw (validate_proof, long, match) at h);
            layout = inl (
                sym (left-mid_len proof hash_bytes sig_bytes size (omega arith))
                ∙ ap (λ b. b ++ mid_len proof hash_bytes sig_bytes)
                    ((same_iff (left proof hash_bytes) r.hash).0 match));
          },
        )
    | inr other ↦ absurd (cc (rw (validate_proof, long, other) at h))
  ]
  | inr not_long ↦ elim (Bool-cases (length proof == impl_length)) [
    | inl short ↦ elim (Bool-cases (has_identity r.identity)) [
      | inl known ↦
          let size = (==_iff (length proof) impl_length).0 short in
          (
            proof,
            record {
              signature_size = size;
              signed =
                  subst (λ b. ask r.identity b r.hash ≡ some true) (left_all proof sig_bytes size)
                    (judge_signature-accepted now r _
                      (rw (validate_proof, not_long, short, known) at h));
              layout = inr refl;
            },
          )
      | inr unknown ↦ absurd (cc (rw (validate_proof, not_long, short, unknown) at h))
    ]
    | inr not_short ↦ absurd (cc (rw (validate_proof, not_long, not_short) at h))
  ]
]

known-has_identity :
    (v : Option Validate) (signature hash : Bytes)
    → ask v signature hash ≡ some true
    → has_identity v ≡ true
known-has_identity none signature hash h = absurd cc
known-has_identity (some v) signature hash h = refl

validate_proof_complete :
    (now : ℕ) (r : Receipt) (proof signature : Bytes)
    → length r.hash ≡ hash_bytes
    → IsProof r proof signature
    → validate_proof now r proof ≡ deliver now r
unfolding validate_proof
validate_proof_complete now r proof signature sized w = elim w.layout [
  | inl both ↦
      let size : length proof ≡ expl_length =
        rw both (omega (arith, length-append r.hash signature, w.signature_size, sized)) in
      let long : length proof == expl_length ≡ true = (==_iff _ _).1 size in
      let first : left proof hash_bytes ≡ r.hash =
        rw both (left-append hash_bytes r.hash signature sized) in
      let rest : mid_len proof hash_bytes sig_bytes ≡ signature =
        rw both (
          mid_len-rest hash_bytes sig_bytes r.hash signature sized w.signature_size
            (omega arith)) in
      rw (long, first, (same_iff r.hash r.hash).1 refl, rest, w.signed) refl
  | inr alone ↦
      let size : length proof ≡ impl_length = rw alone w.signature_size in
      let not_long : length proof == expl_length ≡ false = ground (arith, size) in
      let short : length proof == impl_length ≡ true = (==_iff _ _).1 size in
      let whole : left proof sig_bytes ≡ signature = left_all proof sig_bytes size ∙ alone in
      rw (not_long, short, known-has_identity r.identity signature r.hash w.signed, whole, w.signed)
        refl
]

-- For a receipt with a hash of 32 bytes `validate_proof` accepts exactly the proofs of the packet,
-- explicit or implicit, and then the packet is delivered and proved at that time and the delivery
-- callback is called.
pub validate_proof-IsProof :
    (now : ℕ) (r : Receipt) (proof : Bytes)
    → length r.hash ≡ hash_bytes
    → ((validate_proof now r proof).2 ≡ accepted → (signature : Bytes) × IsProof r proof signature)
      × ((signature : Bytes)
          → IsProof r proof signature
          → validate_proof now r proof ≡ deliver now r)
validate_proof-IsProof now r proof sized = (
  validate_proof_sound now r proof,
  λ signature w. validate_proof_complete now r proof signature sized w,
)
