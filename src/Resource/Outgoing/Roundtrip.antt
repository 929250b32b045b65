-- ===== src/Resource/Outgoing/Roundtrip.antt =====
-- src/microReticulum/Resource.cpp: the parts of a sender put together again by a receiver.
use native.Mathlib.Nat.{lt-div-mul-add}
use micro_reticulum.Prelude.{
  ℕ, zero, suc, ◌+◌, ◌-◌, ◌*◌, ◌/◌, ◌≤◌, ◌<◌, ◌≡◌, refl, sym, ap, ap₂, Option, none, ◌∙◌, subst,
  inl, inr, List, [], ◌∷◌, ◌++◌, map, some, Bool, true, false, ◌&&◌, if◌then◌else◌, ltb, leb, ◌==◌,
  length, drop, length-append, length-drop, take-append-drop, drop-drop, take_all, drop_all,
  drop-append, append-nil, Bool-cases, if_both, arith,
}
use micro_reticulum.Bytes.{Bytes, mid, mid_len, same}
use micro_reticulum.Bytes.Compare.{same_iff}
use micro_reticulum.Packet.Hash.{mid-drop}
use micro_reticulum.Bytes.Slices.{left_le, length-mid_len_le}
use micro_reticulum.Packet.Context.{resource_prf}
use micro_reticulum.Packet.Types.{packet_mdu, proof}
use micro_reticulum.Resource.{complete, is_failed, hash_bytes, random_hash_size, Effect, sends}
use micro_reticulum.Resource.Incoming.{Incoming, joined}
use micro_reticulum.Resource.Assembly.{stream, check, assemble, proof_data, concluded}
use micro_reticulum.Resource.Outgoing.{
  Part, Outgoing, slices, cut, unsent, outgoing, prepared, validate_proof,
}

suc_mul : (i s : ℕ) → suc i * s ≡ i * s + s
suc_mul i s = omega arith

-- One chunk and what is behind it.
chunk-append :
    (b : Bytes) (k s : ℕ)
    → 0 < s
    → mid_len b k (if ltb (length b) (k + s) then length b - k else s) ++ drop (k + s) b ≡ drop k b
unfolding mid_len
chunk-append b k s some_size = elim (Bool-cases (leb (length b) k)) [
  | inl past ↦
      let none_left : drop k b ≡ [] = drop_all k b (ground (arith, past)) in
      rw (past, none_left) (drop_all (k + s) b (ground (arith, past)))
  | inr inside ↦ elim (Bool-cases (ltb (length b) (k + s))) [
    | inl short ↦
        let all : ltb (length b - k) (length b - k) ≡ false = ground arith in
        rw
          (
            short,
            inside,
            all,
            drop_all (k + s) b (ground (arith, short)),
            take_all (length b - k) (drop k b) (omega (arith, length-drop k b)),
          )
          (append-nil (drop k b))
    | inr long ↦
        let all : ltb (length b - k) s ≡ false = ground (arith, long, inside) in
        rw (long, inside, all, drop-drop (k + s) k s b refl) (take-append-drop s (drop k b))
  ]
]

-- The chunks from an index on are what the buffer has from there, if there are enough of them.
joined-slices :
    (sdu : ℕ) (b : Bytes) (n i : ℕ)
    → 0 < sdu
    → length b ≤ (i + n) * sdu
    → joined (slices sdu b n i) ≡ drop (i * sdu) b
unfolding slices
joined-slices sdu b zero i some_size enough = sym (drop_all (i * sdu) b (omega arith))
joined-slices sdu b (suc n) i some_size enough =
    let more : i + suc n ≡ suc i + n = omega arith in
    let next : suc i * sdu ≡ i * sdu + sdu = suc_mul i sdu in
    let rest =
      joined-slices sdu b n (suc i) some_size (subst (λ m. length b ≤ m * sdu) more enough) in
    rw (rest, next) (chunk-append b (i * sdu) sdu some_size)

-- Chunks of at most the length of a packet's data are not cut.
map-slices :
    (sdu : ℕ) (b : Bytes) (n i : ℕ)
    → sdu ≤ packet_mdu
    → map cut (slices sdu b n i) ≡ slices sdu b n i
unfolding slices
map-slices sdu b zero i fits = refl
map-slices sdu b (suc n) i fits =
    let size : ℕ = if ltb (length b) (i * sdu + sdu) then length b - i * sdu else sdu in
    let small : size ≤ sdu = ground arith in
    let short = length-mid_len_le b (i * sdu) size in
    ap₂ (◌∷◌) (left_le (mid_len b (i * sdu) size) packet_mdu (omega (arith, fits, small, short)))
      (map-slices sdu b n (suc i) fits)

stream-map : (bs : List Bytes) → stream (map some bs) ≡ joined bs
unfolding stream
stream-map [] = refl
stream-map (b ∷ bs) = ap (◌++◌ b) (stream-map bs)

-- There are enough parts for the whole buffer.
enough_parts : (n sdu : ℕ) → 0 < sdu → n ≤ (n + sdu - 1) / sdu * sdu
enough_parts n sdu h = omega (arith, lt-div-mul-add {a = n + sdu - 1} {b = sdu} h)

parts_bytes : (bs : List Bytes) → map (λ (p : Part). some p.bytes) (map unsent bs) ≡ map some bs
parts_bytes [] = refl
parts_bytes (b ∷ bs) = ap (◌∷◌ (some b)) (parts_bytes bs)

accepted_proof :
    (sent : Outgoing) (b : Bytes)
    → is_failed sent.status ≡ false
    → (length b == hash_bytes * 2 && same (mid b hash_bytes) sent.expected_proof) ≡ true
    → (validate_proof b sent).0.status ≡ complete
unfolding validate_proof
accepted_proof sent b open_still fits =
    if_both (λ (x : Outgoing × List Effect). x.0.status ≡ complete) (is_failed sent.status)
      (λ e. absurd (cc (e, open_still)))
      (λ e.
        if_both (λ (x : Outgoing × List Effect). x.0.status ≡ complete)
          (length b == hash_bytes * 2 && same (mid b hash_bytes) sent.expected_proof) (λ f. refl)
          (λ f. absurd (cc (f, fits))))

module _ (full_hash : Bytes → Bytes) where
  -- A receiver that has all parts of a sender.
  pub record HasAll (o : Outgoing) (r : Incoming) : Type 0 where
    pub same_parts : r.parts ≡ map (λ (p : Part). some p.bytes) o.parts
    pub same_hash : r.hash ≡ o.hash
    pub same_random : r.random_hash ≡ o.random_hash
    pub encrypted : r.is_encrypted ≡ true
    pub uncompressed : r.is_compressed ≡ false
    pub not_failed : is_failed r.status ≡ false

  -- What a receiver makes of all the parts: the payload and its proof.
  pub record Restored (content : Bytes) (o : Outgoing) (sent : Outgoing)
      (x : Incoming × List Effect) : Type 0 where
    pub is_whole : x.0.status ≡ complete
    pub restored : x.0.content ≡ content
    pub proof_sent :
        x.1 ≡ sends proof resource_prf (proof_data full_hash o.hash content) ∷ concluded x.0
    pub is_accepted :
        (validate_proof (proof_data full_hash o.hash content) sent).0.status ≡ complete

  stream_all :
      (sdu : ℕ) (b : Bytes)
      → 0 < sdu
      → stream (map some (slices sdu b ((length b + sdu - 1) / sdu) 0)) ≡ b
  stream_all sdu b some_size =
      let n : ℕ = (length b + sdu - 1) / sdu in
      let enough : length b ≤ (0 + n) * sdu =
        omega (arith, enough_parts (length b) sdu some_size) in
      let zero_offset : 0 * sdu ≡ 0 = omega arith in
      stream-map (slices sdu b n 0)
      ∙ joined-slices sdu b n 0 some_size enough
      ∙ ap (λ k. drop k b) zero_offset

  assemble-outgoing :
      (sdu : ℕ) (random_hash : Bytes) (encrypt decrypt : Bytes → Bytes) (has_concluded : Bool)
      (content : Bytes)
      → (r : Incoming) (sent : Outgoing) → 0 < sdu
      → sdu ≤ packet_mdu
      → length random_hash ≡ random_hash_size
      → decrypt (encrypt (random_hash ++ content)) ≡ random_hash ++ content
      → ((b : Bytes) → length (full_hash b) ≡ hash_bytes)
      → let o = outgoing full_hash sdu random_hash encrypt has_concluded content in
        HasAll o r
        → sent.expected_proof ≡ o.expected_proof
        → is_failed sent.status ≡ false
        → Restored content o sent (assemble full_hash decrypt r)
  unfolding assemble check validate_proof outgoing
  assemble-outgoing sdu random_hash encrypt decrypt has_concluded content r sent some_size fits len
        inverse hashed w same_proof open_still =
      let o : Outgoing = outgoing full_hash sdu random_hash encrypt has_concluded content in
      let encrypted : Bytes = encrypt (random_hash ++ content) in
      let n : ℕ = (length encrypted + sdu - 1) / sdu in
      let all : stream r.parts ≡ encrypted =
        ap stream (w.same_parts ∙ parts_bytes (map cut (slices sdu encrypted n 0)))
        ∙ ap (λ bs. stream (map some bs)) (map-slices sdu encrypted n 0 fits)
        ∙ stream_all sdu encrypted some_size in
      let plain : mid (random_hash ++ content) 4 ≡ content =
        mid-drop (random_hash ++ content) 4 ∙ drop-append 4 random_hash content len in
      let valid : same (full_hash (content ++ r.random_hash)) r.hash ≡ true =
        (same_iff _ _).1 (ap (λ x. full_hash (content ++ x)) w.same_random ∙ sym w.same_hash) in
      let whole : Incoming = record r { status = complete; content = content } in
      let proved : Bytes = proof_data full_hash o.hash content in
      let run : assemble full_hash decrypt r ≡ check full_hash (random_hash ++ content) r =
        simp (assemble, w.not_failed, w.uncompressed, w.encrypted, all, inverse) refl in
      let checked : check full_hash (random_hash ++ content) r
          ≡ (whole, sends proof resource_prf proved ∷ concluded whole) =
        simp (check, plain, valid)
          (ap
            (λ k.
              (whole, sends proof resource_prf (proof_data full_hash k content) ∷ concluded whole))
            w.same_hash) in
      let size : length proved ≡ 64 = omega (
        arith,
        length-append o.hash (full_hash (content ++ o.hash)),
        hashed (content ++ random_hash),
        hashed (content ++ o.hash),
      ) in
      let second : mid proved 32 ≡ full_hash (content ++ o.hash) =
        mid-drop proved 32
        ∙ drop-append 32 o.hash (full_hash (content ++ o.hash)) (hashed (content ++ random_hash)) in
      let equal : same (mid proved 32) sent.expected_proof ≡ true =
        (same_iff _ _).1 (second ∙ sym same_proof) in
      let proof_fits : (length proved == hash_bytes * 2
            && same (mid proved hash_bytes) sent.expected_proof)
          ≡ true =
        rw (size, equal) refl in
      subst (Restored content o sent) (sym (run ∙ checked)) (record {
        is_whole = refl;
        restored = refl;
        proof_sent = refl;
        is_accepted = accepted_proof sent proved open_still proof_fits;
      })

  -- A payload that is not empty is cut into parts, and a receiver that has all of them, with the
  -- hash and the random bytes of the advertisement, assembles the payload again, whatever its
  -- length, where a part has at most the 464 bytes of a packet's data. The transfer is complete,
  -- and the proof that it sends completes the sender's, unless that has failed. The link decrypts
  -- what it encrypts, and a hash has 32 bytes.
  pub assemble-prepared :
      (sdu : ℕ) (random_hash : Bytes) (encrypt decrypt : Bytes → Bytes) (has_concluded : Bool)
      (content : Bytes)
      → (r : Incoming) (o sent : Outgoing) → 0 < sdu
      → sdu ≤ packet_mdu
      → length random_hash ≡ random_hash_size
      → decrypt (encrypt (random_hash ++ content)) ≡ random_hash ++ content
      → ((b : Bytes) → length (full_hash b) ≡ hash_bytes)
      → prepared full_hash sdu random_hash encrypt has_concluded content ≡ some o
      → HasAll o r
      → sent.expected_proof ≡ o.expected_proof
      → is_failed sent.status ≡ false
      → Restored content o sent (assemble full_hash decrypt r)
  unfolding prepared
  assemble-prepared sdu random_hash encrypt decrypt has_concluded [] r o sent some_size fits len
        inverse hashed h w same_proof open_still =
      absurd (cc h)
  assemble-prepared sdu random_hash encrypt decrypt has_concluded (x ∷ xs) r o sent some_size fits
        len inverse hashed h w same_proof open_still =
      let made : Outgoing = outgoing full_hash sdu random_hash encrypt has_concluded (x ∷ xs) in
      let e : made ≡ o = ap (λ (q : Option Outgoing). elim q [ none ↦ made | some y ↦ y ]) h in
      subst (λ y. Restored (x ∷ xs) y sent (assemble full_hash decrypt r)) e
        (assemble-outgoing sdu random_hash encrypt decrypt has_concluded (x ∷ xs) r sent some_size
          fits len inverse hashed (subst (λ y. HasAll y r) (sym e) w)
          (same_proof ∙ ap (λ (y : Outgoing). y.expected_proof) (sym e)) open_still)
