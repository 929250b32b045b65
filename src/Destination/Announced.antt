-- ===== src/Destination/Announced.antt =====
-- src/microReticulum/Destination.cpp, `announce`, with the `validate_announce` of
-- src/microReticulum/Identity.cpp on the other side.
use micro_reticulum.Prelude.{
  ℕ, ◌+◌, ◌≤◌, ◌≡◌, refl, sym, ap, ap₂, ◌∙◌, ◌&&◌, if_both, ◌⊎◌, inl, inr, subst, [], ◌∷◌, ◌++◌,
  Option, none, some, Bool, true, false, not, if◌then◌else◌, ltb, leb, ◌==◌, length, length-append,
  append_assoc, arith,
}
use micro_reticulum.Bytes.{Bytes, left, mid, mid_len, same}
use micro_reticulum.Bytes.Compare.{same_iff}
use micro_reticulum.Bytes.Slices.{left-append, mid_len-append, mid-append, length-left, left_le}
use micro_reticulum.Bytes.Hex.{to_hex}
use micro_reticulum.Packet.Context.{context_none, path_response}
use micro_reticulum.Packet.Types.{Packet, packet_mdu, flag_unset, single}
use micro_reticulum.Identity.{
  signature_bytes, Keys, Identity, no_keys, get_public_key, truncated_hash, create_keys,
  load_public_key, validate, sign,
}
use micro_reticulum.Identity.Sealing.{load_public_key-create_keys}
use micro_reticulum.Identity.Announce.{
  KnownStore, Announced, is_announce, before_signature, read_announce, signed_data, known_key,
  remember, note_known, validate_parts, validate_announce,
}
use micro_reticulum.Destination.{
  Destination, incoming, has_dot, expand_name, name_hash_of, hash_of, named, new_destination,
  time_bytes, announce_data, or_default, announce_new, announce, recent, find_response,
}

-- What stands behind the fixed part, if anything does.
tail-append :
    (n : ℕ) (a b : Bytes)
    → length a ≡ n
    → (if ltb n (length (a ++ b)) then mid (a ++ b) n else []) ≡ b
tail-append n a [] h =
    let size = length-append a [] in
    let over : ltb n (length (a ++ [])) ≡ false = ground (arith, size) in rw over refl
tail-append n a (x ∷ xs) h =
    let size = length-append a (x ∷ xs) in
    let over : ltb n (length (a ++ (x ∷ xs))) ≡ true = ground (arith, size) in
    rw over (mid-append n a (x ∷ xs) h (omega arith))

-- An announce without a ratchet is read as its parts.
read_announce-append :
    (pk nh rh sig app : Bytes)
    → length pk ≡ 64
    → length nh ≡ 10
    → length rh ≡ 10
    → length sig ≡ 64
    → read_announce flag_unset (pk ++ (nh ++ (rh ++ (sig ++ app)))) ≡ record {
      public_key = pk;
      name_hash = nh;
      random_hash = rh;
      ratchet = [];
      signature = sig;
      app_data = app;
    }
unfolding read_announce
read_announce-append pk nh rh sig app lk ln lr ls =
    let b : Bytes = pk ++ (nh ++ (rh ++ (sig ++ app))) in
    let two : length (pk ++ nh) ≡ 74 = omega (arith, length-append pk nh) in
    let three : length ((pk ++ nh) ++ rh) ≡ 84 = omega (arith, length-append (pk ++ nh) rh, two) in
    let four : length (((pk ++ nh) ++ rh) ++ sig) ≡ 148 =
      omega (arith, length-append ((pk ++ nh) ++ rh) sig, three) in
    let b2 : b ≡ (pk ++ nh) ++ (rh ++ (sig ++ app)) =
      sym (append_assoc pk nh (rh ++ (sig ++ app))) in
    let b3 : b ≡ ((pk ++ nh) ++ rh) ++ (sig ++ app) =
      b2 ∙ sym (append_assoc (pk ++ nh) rh (sig ++ app)) in
    let b4 : b ≡ (((pk ++ nh) ++ rh) ++ sig) ++ app =
      b3 ∙ sym (append_assoc ((pk ++ nh) ++ rh) sig app) in
    let e1 : left b 64 ≡ pk = left-append 64 pk (nh ++ (rh ++ (sig ++ app))) lk in
    let e2 : mid_len b 64 10 ≡ nh =
      mid_len-append 64 10 pk nh (rh ++ (sig ++ app)) lk ln (omega arith) in
    let e3 : mid_len b 74 10 ≡ rh =
      ap (λ z. mid_len z 74 10) b2
      ∙ mid_len-append 74 10 (pk ++ nh) rh (sig ++ app) two lr (omega arith) in
    let e4 : mid_len b 84 64 ≡ sig =
      ap (λ z. mid_len z 84 64) b3
      ∙ mid_len-append 84 64 ((pk ++ nh) ++ rh) sig app three ls (omega arith) in
    let e5 : (if ltb 148 (length b) then mid b 148 else []) ≡ app =
      ap (λ z. if ltb 148 (length z) then mid z 148 else []) b4
      ∙ tail-append 148 (((pk ++ nh) ++ rh) ++ sig) app four in
    rw (e1, e2, e3, e4, e5) refl

length-time_bytes : (now : ℕ) → length (time_bytes now) ≡ 5
length-time_bytes now = refl

length-or_default : (b : Bytes) → length b ≤ 316 → length (or_default b []) ≤ 316
length-or_default [] h = h
length-or_default (x ∷ xs) h = h

-- A packet that carries an announce payload for a destination hash.
pub record Carries (packed : Bytes → Bytes → Packet) : Type 0 where
  pub carries_announce : (h b : Bytes) → is_announce (packed h b).packet_type ≡ true
  pub carries_flag : (h b : Bytes) → (packed h b).context_flag ≡ flag_unset
  pub carries_hash : (h b : Bytes) → (packed h b).destination_hash ≡ h
  pub carries_content : (h b : Bytes) → (packed h b).payload ≡ b

module _ (k : Keys) where
  abbrev key_of : (prv sig_prv : Bytes) → Bytes
  key_of prv sig_prv = k.x25519_public prv ++ k.ed25519_public sig_prv

  length-key_of : (prv sig_prv : Bytes) → length (key_of prv sig_prv) ≡ 64
  length-key_of prv sig_prv = omega (
    arith,
    length-append (k.x25519_public prv) (k.ed25519_public sig_prv),
    k.length-x25519_public prv,
    k.length-ed25519_public sig_prv,
  )

  -- The text whose hash is the name hash, and the name hash.
  abbrev bare_name : (app_name aspects : Bytes) → Bytes
  bare_name app_name aspects = app_name ++ ((0x2e ∷ aspects) ++ [])

  abbrev bare_hash : (app_name aspects : Bytes) → Bytes
  bare_hash app_name aspects = left (k.full_hash (bare_name app_name aspects)) 10

  expand_name_made :
      (hexhash : Option Bytes) (app_name aspects : Bytes)
      → has_dot app_name ≡ false
      → expand_name hexhash app_name (some aspects)
        ≡ some (app_name ++ ((0x2e ∷ aspects) ++ elim hexhash [ none ↦ [] | some h ↦ 0x2e ∷ h ]))
  unfolding expand_name
  expand_name_made hexhash app_name aspects no_dot = rw no_dot refl

  name_hash_of_made :
      (app_name aspects : Bytes)
      → has_dot app_name ≡ false
      → name_hash_of k app_name (some aspects) ≡ some (bare_hash app_name aspects)
  unfolding name_hash_of
  name_hash_of_made app_name aspects no_dot =
      rw (name_hash_of, expand_name_made none app_name aspects no_dot) refl

  hash_of_made :
      (i : Identity) (app_name aspects : Bytes)
      → has_dot app_name ≡ false
      → hash_of k (some i) app_name (some aspects)
        ≡ some (truncated_hash k (bare_hash app_name aspects ++ i.hash))
  unfolding hash_of
  hash_of_made i app_name aspects no_dot =
      rw (hash_of, name_hash_of_made app_name aspects no_dot) refl

  module _ (s : KnownStore) where
    note_known-known :
        (now : ℕ) (q : Packet) (a : Announced) (known app_data : Bytes) (st : s.State)
        → length a.public_key ≡ 64
        → (known ≡ []) ⊎ (known ≡ a.public_key)
        → (note_known k s now q a known app_data st).1 ≡ true
    unfolding remember
    note_known-known now q a [] app_data st len w =
        let fits : (length a.public_key == 64) ≡ true = rw len refl in rw (note_known, fits) refl
    note_known-known now q a (x ∷ xs) app_data st len (inl e) = absurd cc
    note_known-known now q a (x ∷ xs) app_data st len (inr e) =
        (same_iff a.public_key (x ∷ xs)).1 (sym e)

    -- An announce of this key with its signature and the hash of its destination.
    validate_parts-owner :
        (now : ℕ) (q : Packet) (a : Announced) (st : s.State) (prv sig_prv : Bytes)
        → a.public_key ≡ key_of prv sig_prv
        → a.signature ≡ k.sign_with sig_prv (signed_data q.destination_hash a)
        → q.destination_hash
          ≡ truncated_hash k (a.name_hash ++ truncated_hash k (key_of prv sig_prv))
        → (known_key (s.get st q.destination_hash) ≡ [])
          ⊎ (known_key (s.get st q.destination_hash) ≡ key_of prv sig_prv)
        → (validate_parts k s now false q a st).1 ≡ true
    unfolding validate_parts validate create_keys
    validate_parts-owner now q a st prv sig_prv ek es eh w =
        let app_data : Bytes =
          if leb (length q.payload) (before_signature + signature_bytes) then [] else a.app_data in
        let message : Bytes = signed_data q.destination_hash a in
        let judged : Identity → s.State × Bool = λ i. elim (validate k a.signature message i) [
          | none ↦ (st, false)
          | some valid ↦
              if not valid
              then (st, false)
              else if false
              then (st, true)
              else if same q.destination_hash (truncated_hash k (a.name_hash ++ i.hash))
              then note_known k s now q a (known_key (s.get st q.destination_hash)) app_data st
              else (st, false)
        ] in
        let loaded : load_public_key k a.public_key no_keys
            ≡ record (create_keys k prv sig_prv) { prv = none; sig_prv = none } =
          ap (λ b. load_public_key k b no_keys) ek ∙ load_public_key-create_keys k prv sig_prv in
        let signed : k.verify (k.ed25519_public sig_prv) a.signature message ≡ true =
          ap (λ b. k.verify (k.ed25519_public sig_prv) b message) es
          ∙ k.verify-sign_with sig_prv message in
        let named : same q.destination_hash
              (truncated_hash k (a.name_hash ++ truncated_hash k (key_of prv sig_prv)))
            ≡ true =
          (same_iff _ _).1 eh in
        let known : (known_key (s.get st q.destination_hash) ≡ [])
            ⊎ (known_key (s.get st q.destination_hash) ≡ a.public_key) =
          subst
            (λ b.
              (known_key (s.get st q.destination_hash) ≡ [])
              ⊎ (known_key (s.get st q.destination_hash) ≡ b))
            (sym ek) w in
        let len : length a.public_key ≡ 64 = rw ek (length-key_of prv sig_prv) in
        ap (λ i. (judged i).1) loaded
        ∙ rw (signed, named)
            (note_known-known now q a (known_key (s.get st q.destination_hash)) app_data st len
              known)

    -- A destination, its announce and the packet that carries it, and that the packet is accepted.
    pub record Heard (prv sig_prv : Bytes) (fresh : Bytes × Bytes) (app_name aspects : Bytes)
        (now later : ℕ) (random tag app_data : Bytes) (is_response : Bool)
        (registered : Bytes → Bool) (packed : Bytes → Bytes → Packet) (st : s.State) : Type 0 where
      pub destination : Destination
      pub content : Bytes
      pub made :
          new_destination k registered fresh
            (some (create_keys k prv sig_prv))
            incoming
            single
            app_name
            aspects
          ≡ some destination
      pub announced :
          announce k now random tag app_data is_response true destination
          ≡ some (
            record destination { path_responses = (tag, (now, content)) ∷ [] },
            some (if is_response then path_response else context_none, content),
          )
      pub heard : (validate_announce k s later false (packed destination.hash content) st).1 ≡ true

    -- A destination with an identity and an app name without a dot can be made and announced, as an
    -- answer to a path request or not, and whoever receives a packet with its hash and the announce
    -- accepts it, if it knows no key for this hash or knows that of the identity. The hash is not
    -- registered yet, the packet can be sent, the random part has five bytes, and the application's
    -- data at most 316, which is what a packet has room for.
    pub validate_announce-Heard :
        (prv sig_prv : Bytes) (fresh : Bytes × Bytes) (app_name aspects : Bytes) (now later : ℕ)
        (random tag app_data hash : Bytes) (is_response : Bool) (registered : Bytes → Bool)
        (packed : Bytes → Bytes → Packet) (st : s.State)
        → has_dot app_name ≡ false
        → length random ≡ 5
        → Carries packed
        → hash_of k (some (create_keys k prv sig_prv)) app_name (some aspects) ≡ some hash
        → (known_key (s.get st hash) ≡ [])
          ⊎ (known_key (s.get st hash) ≡ get_public_key (create_keys k prv sig_prv))
        → registered hash ≡ false
        → length app_data ≤ 316
        → Heard prv sig_prv fresh app_name aspects now later random tag app_data is_response
            registered packed st
    unfolding new_destination named announce announce_new announce_data recent find_response sign
        create_keys validate_announce
    validate_announce-Heard prv sig_prv fresh app_name aspects now later random tag app_data hash
          is_response registered packed st no_dot lr carries eh w new small =
        let owner : Identity = create_keys k prv sig_prv in
        let pk : Bytes = key_of prv sig_prv in
        let bare : Bytes = bare_name app_name aspects in
        let nh : Bytes = bare_hash app_name aspects in
        let rh : Bytes = random ++ time_bytes now in
        let app : Bytes = or_default app_data [] in
        let h : Bytes = truncated_hash k (nh ++ owner.hash) in
        let message : Bytes = h ++ (pk ++ (nh ++ (rh ++ app))) in
        let sig : Bytes = k.sign_with sig_prv message in
        let content : Bytes = pk ++ (nh ++ (rh ++ (sig ++ app))) in
        let d : Destination = record {
          direction = incoming;
          kind = single;
          identity = some owner;
          name = app_name ++ ((0x2e ∷ aspects) ++ (0x2e ∷ to_hex false owner.hash));
          hash = h;
          name_hash = nh;
          default_app_data = [];
          path_responses = [];
          request_handlers = [];
        } in
        let q : Packet = packed h content in
        let a : Announced = record {
          public_key = pk;
          name_hash = nh;
          random_hash = rh;
          ratchet = [];
          signature = sig;
          app_data = app;
        } in
        let short : length app ≤ 316 = length-or_default app_data small in
        let ln : length nh ≡ 10 =
          length-left (k.full_hash bare) 10 (omega (arith, k.length-full_hash bare)) in
        let read : read_announce q.context_flag q.payload ≡ a =
          ap₂ read_announce (carries.carries_flag h content) (carries.carries_content h content)
          ∙ read_announce-append pk nh rh sig app (length-key_of prv sig_prv) ln
              (omega (arith, length-append random (time_bytes now), length-time_bytes now))
              (k.length-sign_with sig_prv message) in
        let uncut : left content packet_mdu ≡ content = left_le content packet_mdu (
          omega (
            arith,
            length-append pk (nh ++ (rh ++ (sig ++ app))),
            length-append nh (rh ++ (sig ++ app)),
            length-append rh (sig ++ app),
            length-append sig app,
            length-append random (time_bytes now),
            length-time_bytes now,
            length-key_of prv sig_prv,
            k.length-sign_with sig_prv message,
            ln,
            lr,
            short,
          )) in
        let is_hash : q.destination_hash ≡ h = carries.carries_hash h content in
        let same_hash : hash ≡ h = (let got = hash_of_made owner app_name aspects no_dot in cc) in
        let known : (known_key (s.get st q.destination_hash) ≡ [])
            ⊎ (known_key (s.get st q.destination_hash) ≡ pk) =
          subst (λ z. (known_key (s.get st z) ≡ []) ⊎ (known_key (s.get st z) ≡ pk))
            (same_hash ∙ sym is_hash) w in
        record {
          destination = d;
          content = content;
          made =
              rw
                (
                  new_destination,
                  named,
                  expand_name_made (some (to_hex false owner.hash)) app_name aspects no_dot,
                  hash_of_made owner app_name aspects no_dot,
                  name_hash_of_made app_name aspects no_dot,
                )
                (ap (λ (b : Bool). if b then none else some d)
                  (ap registered (sym same_hash) ∙ new));
          announced =
              if_both (λ z. z ≡ announce_new k now random tag app_data is_response true d)
                (is_response && not (same tag [])) (λ e. refl) (λ e. refl)
              ∙ ap
                  (λ z. some (
                    record d { path_responses = (tag, (now, content)) ∷ [] },
                    some (if is_response then path_response else context_none, z),
                  ))
                  uncut;
          heard =
              let v : validate_announce k s later false q st
                  ≡ validate_parts k s later false q (read_announce q.context_flag q.payload) st =
                rw (validate_announce, carries.carries_announce h content) refl in
              ap (λ z. z.1) v
              ∙ ap (λ z. (validate_parts k s later false q z st).1) read
              ∙ validate_parts-owner later q a st prv sig_prv refl
                  (ap (λ z. k.sign_with sig_prv (z ++ (pk ++ (nh ++ (rh ++ app))))) (sym is_hash))
                  is_hash known;
        }
