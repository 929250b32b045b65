-- ===== src/Link/Requests/Exchange.antt =====
-- src/microReticulum/Link.cpp: a request over a link that travels as a resource, and its response.
use micro_reticulum.Prelude.{
  ℕ, zero, suc, All, false, ◌+◌, ◌<◌, ◌≡◌, refl, sym, ap, ◌∙◌, List, [], ◌∷◌, ◌++◌, Option, none,
  some, true, false, ltb, leb, length, length-append, append_assoc, drop-append, arith,
}
use micro_reticulum.Bytes.{Bytes, same}
use micro_reticulum.Bytes.Compare.{same_iff}
use micro_reticulum.Packet.Receipt.{Receipt}
use micro_reticulum.Destination.{RequestHandler, find_handler}
use micro_reticulum.Link.{is_active, Host, Link}
use micro_reticulum.Link.Requests.{
  MessagePack, link_mdu, ready, RequestReceipt, Concluded, Wants, pack_request_envelope,
  pack_response_envelope, behind, unpack_request_envelope, unpack_response_envelope, reply_with,
  Generator, allows, handle_request, request_resource_concluded, response_received, take_response,
  handle_response, response_resource_concluded, new_receipt, request_timeout, packed_request,
  request, insert_at,
}

-- A pending request that has another id.
abbrev pub Differs : Bytes → RequestReceipt → Type 0
Differs request_id r = same r.request_id request_id ≡ false

-- The sizes that a response brings.
abbrev sized : (total_size size : ℕ) → RequestReceipt → RequestReceipt
sized total_size size r = record r {
  response_size = total_size;
  response_transfer_size = r.response_transfer_size + size;
}

module _ (m : MessagePack) where
  behind-append : (a b : Bytes) (n : ℕ) → length a ≡ n → behind m n (a ++ b) ≡ some b
  behind-append a b n h =
      let size = length-append a b in
      let long : ltb (length (a ++ b)) n ≡ false = ground (arith, size) in
      rw (long, drop-append n a b h) refl

  -- An envelope that is packed is unpacked as it was.
  pub unpack_request_envelope-pack_request_envelope :
      (timestamp : ℕ) (path_hash content : Bytes)
      → unpack_request_envelope m (pack_request_envelope m timestamp path_hash content)
        ≡ some (record { requested_at = timestamp; path_hash = path_hash; request_data = content })
  unfolding unpack_request_envelope
  unpack_request_envelope-pack_request_envelope timestamp path_hash content =
      let array : Bytes = m.pack_array 3 in
      let time : Bytes = m.pack_float64 timestamp in
      let hash : Bytes = m.pack_binary path_hash in
      let packed : Bytes = array ++ (time ++ (hash ++ content)) in
      let size : length packed ≡ length array + (length time + (length hash + length content)) =
        omega (
          arith,
          length-append array (time ++ (hash ++ content)),
          length-append time (hash ++ content),
          length-append hash content,
        ) in
      let long : ltb (length packed) 2 ≡ false =
        ground (arith, size, m.length-pack_array 3, m.length-pack_binary path_hash) in
      let whole : packed ≡ (array ++ (time ++ hash)) ++ content =
        ap (λ b. array ++ b) (sym (append_assoc time hash content))
        ∙ sym (append_assoc array (time ++ hash) content) in
      let rest =
        behind-append (array ++ (time ++ hash)) content (length (array ++ (time ++ hash))) refl in
      rw
        (
          long,
          m.read_array-pack_array 3 (time ++ (hash ++ content)),
          m.read_float32-pack_float64 timestamp (hash ++ content),
          m.read_float64-pack_float64 timestamp (hash ++ content),
          m.read_binary-pack_binary path_hash content,
          ap (behind m (length (array ++ (time ++ hash)))) whole ∙ rest,
        )
        refl

  unpack_response_envelope-pack_response_envelope :
      (request_id content : Bytes)
      → unpack_response_envelope m (pack_response_envelope m request_id content)
        ≡ some (request_id, content)
  unfolding unpack_response_envelope
  unpack_response_envelope-pack_response_envelope request_id content =
      let array : Bytes = m.pack_array 2 in
      let id : Bytes = m.pack_binary request_id in
      let size : length (array ++ (id ++ content)) ≡ length array + (length id + length content) =
        omega (arith, length-append array (id ++ content), length-append id content) in
      let long : ltb (length (array ++ (id ++ content))) 2 ≡ false =
        ground (arith, size, m.length-pack_array 2, m.length-pack_binary request_id) in
      let rest = behind-append (array ++ id) content (length (array ++ id)) refl in
      rw
        (
          long,
          m.read_array-pack_array 2 (id ++ content),
          m.read_binary-pack_binary request_id content,
          ap (behind m (length (array ++ id))) (sym (append_assoc array id content)) ∙ rest,
        )
        refl

  -- The pending request with the id is the one that is answered, wherever it stands.
  take_response-insert_at :
      (now total_size size at : ℕ) (request_id content : Bytes) (r : RequestReceipt)
      (pending : List RequestReceipt)
      → r.request_id ≡ request_id
      → All (Differs request_id) pending
      → take_response now request_id content total_size size (insert_at at r pending) ≡ (
        pending,
        (response_received now content (sized total_size size r)).0 ∷ [],
        (response_received now content (sized total_size size r)).1,
      )
  unfolding take_response insert_at
  take_response-insert_at now total_size size zero request_id content r pending e others =
      rw ((same_iff r.request_id request_id).1 e) refl
  take_response-insert_at now total_size size (suc n) request_id content r [] e others =
      rw ((same_iff r.request_id request_id).1 e) refl
  take_response-insert_at now total_size size (suc n) request_id content r (x ∷ rs) e
        (other, others) =
      let rest = take_response-insert_at now total_size size n request_id content r rs e others in
      rw other (
        ap (λ (z : Concluded). let (left_over, found, calls) = z in (x ∷ left_over, found, calls))
          rest)

  response_resource_concluded-insert_at :
      (now total_size size at : ℕ) (request_id content : Bytes) (l : Link) (r : RequestReceipt)
      (pending : List RequestReceipt)
      → is_active l.status ≡ true
      → r.request_id ≡ request_id
      → All (Differs request_id) pending
      → response_resource_concluded m now total_size size request_id
          (some (pack_response_envelope m request_id content))
          l
          (insert_at at r pending)
        ≡ (
          pending,
          (response_received now content (sized total_size size r)).0 ∷ [],
          (response_received now content (sized total_size size r)).1,
        )
  unfolding response_resource_concluded handle_response
  response_resource_concluded-insert_at now total_size size at request_id content l r pending up e
        others =
      let taken =
        take_response-insert_at now total_size size at request_id content r pending e others in
      rw
        (
          response_resource_concluded,
          unpack_response_envelope-pack_response_envelope request_id content,
          up,
        )
        taken

  module _ (h : Host) (generate : Generator) (handlers : List (Bytes × RequestHandler)) where
    -- What the owner of the destination generates for a request.
    abbrev pub generated : RequestHandler → (at : ℕ) (packed content : Bytes) → Link → Bytes
    generated handler at packed content o =
        generate handler.path content (h.truncated_hash packed) o.link_id o.remote_identity at

    pub record Exchanged (path content : Bytes) (handler : RequestHandler)
        (asked_at answered_at timeout total_size size : ℕ) (wants : Wants) (send : Option Receipt)
        (at : ℕ) (l o : Link) (pending : List RequestReceipt) : Type 0 where
      pub receipt : RequestReceipt
      pub concluded : RequestReceipt
      pub requested :
          request h m asked_at path content timeout wants send false at l pending
          ≡ some (insert_at at receipt pending, some receipt)
      pub answered :
          request_resource_concluded h m generate handlers
            (some (packed_request h m asked_at path content))
            o
          ≡ reply_with m receipt.request_id
              (generated handler asked_at (packed_request h m asked_at path content) content o)
      pub taken :
          (let response =
              generated handler asked_at (packed_request h m asked_at path content) content o in
            let after =
              response_resource_concluded m answered_at total_size size receipt.request_id
                (some (pack_response_envelope m receipt.request_id response))
                l
                (insert_at at receipt pending) in
            (after.0 ≡ pending)
            × (after.1 ≡ concluded ∷ [])
            × (concluded.status ≡ ready)
            × (concluded.response ≡ response))

    -- A request that is too large for a packet is asked on an active link without an exception,
    -- arrives as the data of a resource at an active link whose destination has a handler for the
    -- path that allows the remote identity, and is answered with what the handler generates for the
    -- path, the data and the id of the request. When that response comes back as a resource, the
    -- receipt of the request is ready with it and is pending no more, wherever it stands among the
    -- pending requests, none of which has the same id.
    pub request-Exchanged :
        (path content : Bytes) (handler : RequestHandler)
        (asked_at answered_at timeout total_size size : ℕ) (wants : Wants) (send : Option Receipt)
        (at : ℕ) (l o : Link) (pending : List RequestReceipt)
        → link_mdu < length (packed_request h m asked_at path content)
        → is_active l.status ≡ true
        → is_active o.status ≡ true
        → find_handler (h.truncated_hash path) handlers ≡ some handler
        → allows h handler.allow handler.allowed_list o.remote_identity ≡ true
        → All (Differs (h.truncated_hash (packed_request h m asked_at path content))) pending
        → Exchanged path content handler asked_at answered_at timeout total_size size wants send at
            l o pending
    unfolding request request_resource_concluded handle_request response_received
    request-Exchanged path content handler asked_at answered_at timeout total_size size wants send
          at l o pending large up other_up found allowed others =
        let packed : Bytes = packed_request h m asked_at path content in
        let id : Bytes = h.truncated_hash packed in
        let response : Bytes = generated handler asked_at packed content o in
        let r : RequestReceipt =
          new_receipt asked_at (request_timeout timeout l) (length packed) id none wants in
        let over : leb (length packed) link_mdu ≡ false = ground arith in
        let v =
          response_resource_concluded-insert_at answered_at total_size size at id response l r
            pending up refl others in
        record {
          receipt = r;
          concluded =
              (response_received answered_at response (record r {
                response_size = total_size;
                response_transfer_size = r.response_transfer_size + size;
              })).0;
          requested = rw over refl;
          answered =
              rw
                (
                  request_resource_concluded,
                  unpack_request_envelope-pack_request_envelope asked_at (h.truncated_hash path)
                      content,
                  other_up,
                  found,
                  allowed,
                )
                refl;
          taken = (ap (λ (z : Concluded). z.0) v, ap (λ (z : Concluded). z.1) v, refl, refl);
        }
