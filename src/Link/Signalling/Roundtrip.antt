-- ===== src/Link/Signalling/Roundtrip.antt =====
-- src/microReticulum/Link.cpp: what is read back from the signalled bytes, and the id of a link
-- whose request was changed on its way.
use micro_reticulum.Prelude.{
  ℕ, ◌+◌, ◌-◌, ◌/◌, ◌%◌, ◌^◌, ◌<◌, ◌≡◌, refl, sym, ap, ap₂, ◌∙◌, inl, inr, [], ◌∷◌, ◌++◌, Option,
  none, some, false, ltb, ◌==◌, length, length-append, append_assoc, append-nil, get_or_past,
  Bool-cases, arith,
}
use micro_reticulum.Bytes.{Bytes}
use micro_reticulum.Bytes.Slices.{left-append, mid_len-rest}
use micro_reticulum.Packet.Types.{Packet}
use micro_reticulum.Packet.Wire.{get_hashable_part}
use micro_reticulum.Link.{ecpubsize, half_ecpubsize, sig_bytes, mode_aes256_cbc, Host}
use micro_reticulum.Link.Signalling.{
  signalling_value, signalling_bytes, mtu_at, mtu_from_lr_packet, mtu_from_lp_packet,
  mode_from_lr_packet, mode_from_lp_packet, unsignalled_part, link_id_from_lr_packet,
}

-- The bytes of an MTU of 16 bits in the only enabled mode.
abbrev pub three_bytes : ℕ → Bytes
three_bytes mtu = 2 ^ 5 ∷ mtu / 2 ^ 8 ∷ mtu % 2 ^ 8 ∷ []

abbrev v3 : ℕ → Bytes
v3 v = v / 2 ^ 16 % 2 ^ 8 ∷ v / 2 ^ 8 % 2 ^ 8 ∷ v % 2 ^ 8 ∷ []

content : Option Bytes → Bytes
content none = []
content (some b) = b

pub signalling_bytes-three_bytes :
    (mtu mode : ℕ)
    → mtu < 2 ^ 16
    → mode ≡ mode_aes256_cbc
    → signalling_bytes mtu mode ≡ some (three_bytes mtu)
unfolding signalling_bytes signalling_value
signalling_bytes-three_bytes mtu mode small m =
    let v : signalling_value mtu 1 ≡ mtu + 2 ^ 21 = ground (arith, signalling_value) in
    let bytes : v3 (mtu + 2 ^ 21) ≡ three_bytes mtu =
      ap₂ (◌∷◌) (omega arith) (ap₂ (◌∷◌) (omega arith) (ap₂ (◌∷◌) (omega arith) refl)) in
    rw (m, v) (ap some bytes)

pub signalling_bytes_enabled :
    (mtu mode : ℕ) (s : Bytes)
    → mtu < 2 ^ 16
    → signalling_bytes mtu mode ≡ some s
    → (mode ≡ mode_aes256_cbc) × (s ≡ three_bytes mtu)
unfolding content signalling_bytes
signalling_bytes_enabled mtu mode s small h = elim (Bool-cases (mode == mode_aes256_cbc)) [
  | inl e ↦
      let m : mode ≡ 1 = ground arith in
      (m, sym (ap content (sym (signalling_bytes-three_bytes mtu mode small m) ∙ h)))
  | inr e ↦ absurd (cc (rw (signalling_bytes, e) at h))
]

no_bytes : (s : Bytes) → length s ≡ 0 → s ≡ []
no_bytes [] h = refl
no_bytes (x ∷ xs) h = absurd (omega arith)

-- What the link id is a hash of does not depend on what is signalled behind the keys.
pub unsignalled_part-append :
    (p : Packet) (front keys s : Bytes)
    → get_hashable_part p.header_type p.raw ≡ front ++ (keys ++ s)
    → p.payload ≡ keys ++ s
    → length keys ≡ ecpubsize
    → unsignalled_part p ≡ front ++ keys
unfolding unsignalled_part
unsignalled_part-append p front keys s hashed pay len =
    let size : length p.payload ≡ 64 + length s =
      omega (arith, ap length pay, length-append keys s, len) in
    let regrouped : get_hashable_part p.header_type p.raw ≡ (front ++ keys) ++ s =
      hashed ∙ sym (append_assoc front keys s) in
    let whole : length (get_hashable_part p.header_type p.raw) ≡ length (front ++ keys) + length s =
      ap length regrouped ∙ length-append (front ++ keys) s in
    elim (Bool-cases (ltb ecpubsize (length p.payload))) [
      | inl more ↦
          let wide : ltb (length (get_hashable_part p.header_type p.raw))
                (length p.payload - ecpubsize)
              ≡ false =
            ground (arith, size, whole) in
          rw (unsignalled_part, more, wide)
            (rw (regrouped) (
              left-append _ (front ++ keys) s
                (omega (arith, size, length-append (front ++ keys) s))))
      | inr none_more ↦
          let bare : s ≡ [] = no_bytes s (ground (arith, size)) in
          rw (unsignalled_part, none_more) (hashed ∙ rw bare (ap (◌++◌ front) (append-nil keys)))
    ]

mtu_at-append :
    (front : Bytes) (n mtu : ℕ)
    → length front ≡ n
    → mtu < 2 ^ 16
    → mtu_at (front ++ three_bytes mtu) n ≡ mtu
unfolding mtu_at
mtu_at-append front n mtu len small =
    let b0 = get_or_past n 0 front (three_bytes mtu) 0 (omega (arith, len)) in
    let b1 = get_or_past (n + 1) 1 front (three_bytes mtu) 0 (omega (arith, len)) in
    let b2 = get_or_past (n + 2) 2 front (three_bytes mtu) 0 (omega (arith, len)) in
    rw (b0, b1, b2) (omega arith)

-- What stands behind the keys of a request, and behind the signature and the key of a proof.
pub mtu_from_lr_packet-append :
    (p : Packet) (keys : Bytes) (mtu : ℕ)
    → mtu < 2 ^ 16
    → length keys ≡ ecpubsize
    → p.payload ≡ keys ++ three_bytes mtu
    → (mtu_from_lr_packet p ≡ mtu) × (mode_from_lr_packet p ≡ mode_aes256_cbc)
unfolding mtu_from_lr_packet mode_from_lr_packet
mtu_from_lr_packet-append p keys mtu small len pay =
    let size : length (keys ++ three_bytes mtu) ≡ 67 =
      omega (arith, length-append keys (three_bytes mtu), len) in
    let first = get_or_past 64 0 keys (three_bytes mtu) 0 (omega (arith, len)) in
    (rw (pay, size) (mtu_at-append keys 64 mtu len small), rw (pay, size, first) refl)

pub mtu_from_lp_packet-append :
    (p : Packet) (signed : Bytes) (mtu : ℕ)
    → mtu < 2 ^ 16
    → length signed ≡ sig_bytes + half_ecpubsize
    → p.payload ≡ signed ++ three_bytes mtu
    → (mtu_from_lp_packet p ≡ mtu) × (mode_from_lp_packet p ≡ mode_aes256_cbc)
unfolding mtu_from_lp_packet mode_from_lp_packet
mtu_from_lp_packet-append p signed mtu small len pay =
    let size : length (signed ++ three_bytes mtu) ≡ 99 =
      omega (arith, length-append signed (three_bytes mtu), len) in
    let back = mid_len-rest 96 3 signed (three_bytes mtu) len refl (omega arith) in
    let first = get_or_past 96 0 signed (three_bytes mtu) 0 (omega (arith, len)) in
    (rw (pay, size, back) (mtu_at-append [] 0 mtu refl small), rw (pay, size, first) refl)

-- The id of a link is the same whatever stands behind the keys of its request: two requests with
-- the same keys, and the same hashed bytes before them, name the same link, also where a node on
-- the way has changed or removed the signalled MTU.
pub link_id_from_lr_packet_unsignalled :
    (h : Host) (p q : Packet) (front keys s t : Bytes)
    → get_hashable_part p.header_type p.raw ≡ front ++ (keys ++ s)
    → get_hashable_part q.header_type q.raw ≡ front ++ (keys ++ t)
    → p.payload ≡ keys ++ s
    → q.payload ≡ keys ++ t
    → length keys ≡ ecpubsize
    → link_id_from_lr_packet h p ≡ link_id_from_lr_packet h q
unfolding link_id_from_lr_packet
link_id_from_lr_packet_unsignalled h p q front keys s t hp hq dp dq len = ap h.truncated_hash (
    unsignalled_part-append p front keys s hp dp len
    ∙ sym (unsignalled_part-append q front keys t hq dq len))
