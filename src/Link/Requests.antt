-- ===== src/Link/Requests.antt =====
-- src/microReticulum/Link.cpp: requests and responses over a link, with the envelopes around their
-- payloads and the class RequestReceipt of LinkData.h. `data` of a request is `content` here.
pub mod Exchange
pub mod Allowed
use micro_reticulum.Prelude.{
  ℕ, zero, suc, ℤ, ◌/◌, ◌^◌, ◌+◌, ◌*◌, ◌<◌, ◌≡◌, List, [], ◌∷◌, ◌++◌, Option, none, some, Bool,
  true, false, ◌||◌, if◌then◌else◌, ltb, leb, ◌==◌, length, drop, pos,
}
use micro_reticulum.Bytes.{Bytes, left, same}
use micro_reticulum.Packet.Receipt as PacketReceipts
use micro_reticulum.Packet.Receipt.{Receipt}
use micro_reticulum.Destination.{
  RequestHandler, RequestPolicy, allow_none, allow_all, allow_list, find_handler,
}
use micro_reticulum.Link.{is_active, Host, Link}

-- MessagePack of another library: the encodings, and the reading of one value off the front.
pub record MessagePack : Type 0 where
  pub pack_array : ℕ → Bytes
  pub pack_binary : Bytes → Bytes
  pub pack_float32 : ℕ → Bytes
  pub pack_float64 : ℕ → Bytes
  pub read_array : Bytes → Option (ℕ × Bytes)
  pub read_binary : Bytes → Option (Bytes × Bytes)
  pub read_float32 : Bytes → Option (ℕ × Bytes)
  pub read_float64 : Bytes → Option (ℕ × Bytes)
  pub read_array-pack_array : (n : ℕ) (b : Bytes) → read_array (pack_array n ++ b) ≡ some (n, b)
  pub read_binary-pack_binary : (a b : Bytes) → read_binary (pack_binary a ++ b) ≡ some (a, b)
  pub read_float32-pack_float64 : (t : ℕ) (b : Bytes) → read_float32 (pack_float64 t ++ b) ≡ none
  pub read_float64-pack_float64 :
      (t : ℕ) (b : Bytes) → read_float64 (pack_float64 t ++ b) ≡ some (t, b)
  pub length-pack_array : (n : ℕ) → 0 < length (pack_array n)
  pub length-pack_binary : (b : Bytes) → 0 < length (pack_binary b)

pub record ResourceRequest : Type 0 where
  pub requested_at : ℕ
  pub path_hash : Bytes
  pub request_data : Bytes

-- `Type::Link::MDU`
abbrev pub link_mdu : ℕ
link_mdu = 431

pub data Status : Type 0 where
  failed sent delivered receiving ready : Status

abbrev pub is_failed : Status → Bool
is_failed failed = true
is_failed _ = false

-- Without the link and the resource. The callbacks are there or not.
pub record RequestReceipt : Type 0 where
  pub hash : Bytes
  pub packet_receipt : Option Receipt
  pub started_at : ℕ
  pub request_id : Bytes
  pub request_size : ℕ
  pub response : Bytes
  pub response_transfer_size : ℕ
  pub response_size : ℕ
  pub status : Status
  pub sent_at : ℕ
  pub progress : ℕ
  pub concluded_at : ℕ
  pub response_concluded_at : ℕ
  pub timeout : ℕ
  pub has_response : Bool
  pub has_failed : Bool
  pub has_progress : Bool

pub data Call : Type 0 where
  delivery progress_of response_of failed_of : Call

-- What answers a request: nothing, a packet, or a resource for the request of this id.
pub data Reply : Type 0 where
  no_reply : Reply
  replies_packet : Bytes → Reply
  replies_resource : Bytes → Bytes → Reply

module _ (m : MessagePack) where
  abbrev pub pack_request_envelope : (timestamp : ℕ) (path_hash raw_payload : Bytes) → Bytes
  pack_request_envelope timestamp path_hash raw_payload =
      m.pack_array 3 ++ (m.pack_float64 timestamp ++ (m.pack_binary path_hash ++ raw_payload))

  abbrev pub pack_response_envelope : (request_id raw_payload : Bytes) → Bytes
  pack_response_envelope request_id raw_payload =
      m.pack_array 2 ++ (m.pack_binary request_id ++ raw_payload)

  -- What is behind a prefix of this size, if the whole is that long.
  abbrev pub behind : (cursor : ℕ) (packed : Bytes) → Option Bytes
  behind cursor packed = if ltb (length packed) cursor then none else some (drop cursor packed)

  -- The time, of either size, and its encoding.
  abbrev pub read_time : Bytes → Option (ℕ × Bytes × Bytes)
  read_time b = elim (m.read_float32 b) [
    | some (t, rest) ↦ some (t, m.pack_float32 t, rest)
    | none ↦ elim (m.read_float64 b) [
      | some (t, rest) ↦ some (t, m.pack_float64 t, rest)
      | none ↦ none
    ]
  ]

  unfoldable pub unpack_request_envelope : Bytes → Option ResourceRequest
  unpack_request_envelope packed =
      if ltb (length packed) 2 then none else elim (m.read_array packed) [
        | none ↦ none
        | some (n, b) ↦ if ltb n 3 then none else elim (read_time b) [
          | none ↦ none
          | some (t, time, c) ↦ elim (m.read_binary c) [
            | none ↦ none
            | some (path_hash, d) ↦
                elim (behind (length (m.pack_array n ++ (time ++ m.pack_binary path_hash)))
                  packed) [
                    | none ↦ none
                    | some content ↦
                        some (record {
                          requested_at = t;
                          path_hash = path_hash;
                          request_data = content;
                        })
                  ]
          ]
        ]
      ]

  -- The request id and the payload.
  unfoldable pub unpack_response_envelope : Bytes → Option (Bytes × Bytes)
  unpack_response_envelope packed =
      if ltb (length packed) 2 then none else elim (m.read_array packed) [
        | none ↦ none
        | some (n, b) ↦ if ltb n 2 then none else elim (m.read_binary b) [
          | none ↦ none
          | some (id, c) ↦ elim (behind (length (m.pack_array n ++ m.pack_binary id)) packed) [
            | none ↦ none
            | some content ↦ some (id, content)
          ]
        ]
      ]

  -- `reply` of the generator; no bytes are no response.
  abbrev pub reply_with : (request_id response : Bytes) → Reply
  reply_with request_id [] = no_reply
  reply_with request_id (x ∷ xs) =
      let packed = pack_response_envelope request_id (x ∷ xs) in
      if leb (length packed) link_mdu
      then replies_packet packed
      else replies_resource request_id packed

-- `_allowed_list.count(hash) > 0`
unfoldable pub is_listed : Bytes → List Bytes → Bool
is_listed hash [] = false
is_listed hash (b ∷ bs) = same b hash || is_listed hash bs

-- The function that generates the response, from the path, the data, the request id, the link id,
-- the public key of the remote identity, and the time of the request.
abbrev pub Generator : Type 0
Generator = Bytes → Bytes → Bytes → Bytes → Option Bytes → ℕ → Bytes

module _ (h : Host) where
  abbrev pub allows : RequestPolicy → (allowed_list : List Bytes) (remote : Option Bytes) → Bool
  allows allow_none allowed_list remote = false
  allows allow_all allowed_list remote = true
  allows allow_list allowed_list none = false
  allows allow_list allowed_list (some key) = is_listed (h.truncated_hash key) allowed_list

  module _ (m : MessagePack) (generate : Generator) (handlers : List (Bytes × RequestHandler)) where
    unfoldable pub handle_request : (request_id : Bytes) → ResourceRequest → Link → Reply
    handle_request request_id r l =
        if is_active l.status
        then elim (find_handler r.path_hash handlers) [
          | none ↦ no_reply
          | some handler ↦
              if allows handler.allow handler.allowed_list l.remote_identity
              then reply_with m request_id (
                  generate handler.path r.request_data request_id l.link_id l.remote_identity
                    r.requested_at)
              else no_reply
        ]
        else no_reply

    -- `Link::request_resource_concluded`, with the data of the resource if it is complete.
    unfoldable pub request_resource_concluded : (complete : Option Bytes) → Link → Reply
    request_resource_concluded none l = no_reply
    request_resource_concluded (some packed) l = elim (unpack_request_envelope m packed) [
      | none ↦ no_reply
      | some r ↦ handle_request (h.truncated_hash packed) r l
    ]

abbrev pub calls_if : Bool → Call → List Call
calls_if there c = if there then c ∷ [] else []

-- `RequestReceipt::response_received`
unfoldable pub response_received :
    (now : ℕ) (response : Bytes) → RequestReceipt → RequestReceipt × List Call
response_received now response r = if is_failed r.status then (r, []) else (
  record r {
    progress = 1;
    response = response;
    status = ready;
    response_concluded_at = now;
    packet_receipt = elim r.packet_receipt [
      | none ↦ none
      | some p ↦
          some (record p { status = PacketReceipts.delivered; proved = true; concluded_at = now })
    ];
  },
  (elim r.packet_receipt [ none ↦ [] | some p ↦ calls_if p.has_delivery delivery ])
      ++ (calls_if r.has_progress progress_of ++ calls_if r.has_response response_of),
)

-- `RequestReceipt::request_timed_out`, without the erasure from the pending requests.
unfoldable pub request_timed_out : (now : ℕ) → RequestReceipt → RequestReceipt × List Call
request_timed_out now r =
    (record r { status = failed; concluded_at = now }, calls_if r.has_failed failed_of)

-- The pending requests that stay, in the order of their addresses, the receipts that are concluded,
-- and what is called.
abbrev pub Concluded : Type 0
Concluded = List RequestReceipt × List RequestReceipt × List Call

unfoldable pub take_response :
    (now : ℕ) (request_id response : Bytes) (size transfer_size : ℕ)
    → List RequestReceipt
    → Concluded
take_response now request_id response size transfer_size [] = ([], [], [])
take_response now request_id response size transfer_size (r ∷ rs) =
    let (rest, found, calls) = take_response now request_id response size transfer_size rs in
    let (done, told) = response_received now response (record r {
      response_size = size;
      response_transfer_size = r.response_transfer_size + transfer_size;
    }) in
    if same r.request_id request_id then (rs, done ∷ [], told) else (r ∷ rest, found, calls)

unfoldable pub handle_response :
    (now : ℕ) (request_id response : Bytes) (size transfer_size : ℕ)
    → Link
    → List RequestReceipt
    → Concluded
handle_response now request_id response size transfer_size l pending =
    if is_active l.status
    then take_response now request_id response size transfer_size pending
    else (pending, [], [])

-- All requests with this id time out.
unfoldable pub time_out_all : (now : ℕ) (request_id : Bytes) → List RequestReceipt → Concluded
time_out_all now request_id [] = ([], [], [])
time_out_all now request_id (r ∷ rs) =
    let (rest, lost, calls) = time_out_all now request_id rs in
    let (late, told) = request_timed_out now r in
    if same r.request_id request_id
    then (rest, late ∷ lost, told ++ calls)
    else (r ∷ rest, lost, calls)

-- `Link::response_resource_concluded` of a resource with this request id and these sizes, and with
-- its data if it is complete.
unfoldable pub response_resource_concluded :
    (m : MessagePack) (now total_size size : ℕ) (request_id : Bytes) (complete : Option Bytes)
    → Link
    → List RequestReceipt
    → Concluded
response_resource_concluded m now total_size size request_id none l pending =
    time_out_all now request_id pending
response_resource_concluded m now total_size size request_id (some packed) l pending =
    elim (unpack_response_envelope m packed) [
      | none ↦ (pending, [], [])
      | some (id, response) ↦ handle_response now id response total_size size l pending
    ]

-- The callbacks that are given: for the response, a failure and progress.
abbrev pub Wants : Type 0
Wants = Bool × Bool × Bool

-- The constructor of the receipt, from the receipt of the packet or none. The timeout is not 0
-- where `request` calls it.
abbrev pub new_receipt :
    (now timeout size : ℕ) (hash : Bytes) (packet_receipt : Option Receipt) → Wants → RequestReceipt
new_receipt now timeout size hash packet_receipt (response, failure, progress) = record {
  hash = hash;
  packet_receipt = packet_receipt;
  started_at = elim packet_receipt [ none ↦ 0 | some p ↦ now ];
  request_id = hash;
  request_size = size;
  response = [];
  response_transfer_size = 0;
  response_size = 0;
  status = sent;
  sent_at = now;
  progress = 0;
  concluded_at = 0;
  response_concluded_at = 0;
  timeout = timeout;
  has_response = response;
  has_failed = failure;
  has_progress = progress;
}

-- A `std::set` that is ordered by the addresses of its objects, as a list in that order: an object
-- comes to stand anywhere.
unfoldable pub insert_at : ℕ → RequestReceipt → List RequestReceipt → List RequestReceipt
insert_at zero r rs = r ∷ rs
insert_at (suc n) r [] = r ∷ []
insert_at (suc n) r (x ∷ rs) = x ∷ insert_at n r rs

-- The argument of `set_timeout`, in seconds.
abbrev pub to_int16 : Host → ℕ → ℤ
to_int16 h seconds = if ltb seconds (2 ^ 15) then pos seconds else h.past_int16

-- 6 round trips and 11.25 seconds where none is given.
abbrev pub request_timeout : (timeout : ℕ) → Link → ℕ
request_timeout timeout l = if timeout == 0 then l.rtt * 6 + 11250 else timeout

abbrev pub packed_request : (h : Host) (m : MessagePack) (now : ℕ) (path content : Bytes) → Bytes
packed_request h m now path content = pack_request_envelope m now (h.truncated_hash path) content

-- `Link::request`: the pending requests afterwards, and the receipt. A request that fits is sent as
-- a packet, with the receipt that `send` returns or none; any other as a resource. An exception of
-- either is the caller's, and `none` here. The place of the receipt among the others is that of its
-- address.
unfoldable pub request :
    (h : Host) (m : MessagePack) (now : ℕ) (path content : Bytes) (timeout : ℕ) (wants : Wants)
    (send : Option Receipt) (thrown : Bool) (at : ℕ)
    → Link
    → List RequestReceipt
    → Option (List RequestReceipt × Option RequestReceipt)
request h m now path content timeout wants send thrown at l pending =
    let packed = packed_request h m now path content in
    let late = request_timeout timeout l in
    let size = length packed in
    let as_resource = new_receipt now late size (h.truncated_hash packed) none wants in
    if thrown
    then none
    else if leb size link_mdu
    then elim send [
      | none ↦ some (pending, none)
      | some p ↦
          let made =
            new_receipt now late size (left p.hash 16)
              (some (record p { timeout = to_int16 h (late / 1000) })) wants in
          some (insert_at at made pending, some made)
    ]
    else some (insert_at at as_resource pending, some as_resource)
