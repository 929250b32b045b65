-- ===== src/Destination.antt =====
-- src/microReticulum/Destination.h and Destination.cpp: names and hashes, the constructor, request
-- handlers and announces. A text is the list of its bytes.
pub mod Announced
use micro_reticulum.Prelude.{
  ℕ, ◌+◌, ◌*◌, ◌/◌, ◌%◌, ◌^◌, ◌≡◌, List, [], ◌∷◌, ◌++◌, Option, none, some, Bool, true, false, not,
  ◌&&◌, ◌||◌, if◌then◌else◌, ltb, ◌==◌,
}
use micro_reticulum.Bytes.{Bytes, left, same}
use micro_reticulum.Bytes.Hex.{to_hex}
use micro_reticulum.Packet.Context.{context_none, path_response}
use micro_reticulum.Packet.Types.{DestinationType, packet_mdu, single, group, plain, link}
use micro_reticulum.Identity.{Keys, Identity, get_public_key, truncated_hash, create_keys, sign}
use micro_reticulum.Identity.Announce.{name_hash_bytes}

pub data Direction : Type 0 where
  incoming outgoing : Direction

pub data RequestPolicy : Type 0 where
  allow_none allow_all allow_list : RequestPolicy

-- Without the generator of responses, which the caller of `handle_request` has.
pub record RequestHandler : Type 0 where
  pub path : Bytes
  pub allow : RequestPolicy
  pub allowed_list : List Bytes

-- Without the callbacks, the links and the MTU. `path_responses` has a time and the announce data
-- for each tag.
pub record Destination : Type 0 where
  pub direction : Direction
  pub kind : DestinationType
  pub identity : Option Identity
  pub name : Bytes
  pub hash : Bytes
  pub name_hash : Bytes
  pub default_app_data : Bytes
  pub path_responses : List (Bytes × (ℕ × Bytes))
  pub request_handlers : List (Bytes × RequestHandler)

abbrev pub is_incoming : Direction → Bool
is_incoming incoming = true
is_incoming outgoing = false

abbrev pub is_plain : DestinationType → Bool
is_plain plain = true
is_plain _ = false

abbrev pub is_single : DestinationType → Bool
is_single single = true
is_single _ = false

-- `strchr(app_name, '.')`
unfoldable pub has_dot : Bytes → Bool
has_dot [] = false
has_dot (x ∷ xs) = x == 0x2e || has_dot xs

-- A C string that may be null, and an identity by its hexadecimal hash. An exception is `none`.
unfoldable pub expand_name :
    (hexhash : Option Bytes) (app_name : Bytes) (aspects : Option Bytes) → Option Bytes
expand_name hexhash app_name aspects =
    let behind : Bytes = elim aspects [ none ↦ [] | some a ↦ 0x2e ∷ a ] in
    let last : Bytes = elim hexhash [ none ↦ [] | some h ↦ 0x2e ∷ h ] in
    if has_dot app_name then none else some (app_name ++ (behind ++ last))

-- `app_and_aspects_from_name`: what is before the first dot, and what is behind it if there is one.
unfoldable pub app_and_aspects : Bytes → Bytes × Option Bytes
app_and_aspects [] = ([], none)
app_and_aspects (x ∷ xs) =
    let (app, aspects) = app_and_aspects xs in
    if x == 0x2e then ([], some xs) else (x ∷ app, aspects)

abbrev pub identity_hash : Option Identity → Bytes
identity_hash none = []
identity_hash (some i) = i.hash

-- `path_responses.find(tag)`
unfoldable pub find_response : (tag : Bytes) → List (Bytes × (ℕ × Bytes)) → Option Bytes
find_response tag [] = none
find_response tag ((t, (at, data_bytes)) ∷ rs) =
    if same t tag then some data_bytes else find_response tag rs

-- The entries that are at most 30 seconds old.
unfoldable pub recent : (now : ℕ) → List (Bytes × (ℕ × Bytes)) → List (Bytes × (ℕ × Bytes))
recent now [] = []
recent now ((t, (at, data_bytes)) ∷ rs) =
    let rest = recent now rs in
    if ltb (at + 30 * 1000) now then rest else (t, (at, data_bytes)) ∷ rest

-- `std::map::insert`, which keeps an entry that is there.
abbrev pub insert_response :
    (tag : Bytes) (at : ℕ) (data_bytes : Bytes)
    → List (Bytes × (ℕ × Bytes))
    → List (Bytes × (ℕ × Bytes))
insert_response tag at data_bytes rs = elim (find_response tag rs) [
  | none ↦ (tag, (at, data_bytes)) ∷ rs
  | some old ↦ rs
]

unfoldable pub find_handler :
    (path_hash : Bytes) → List (Bytes × RequestHandler) → Option RequestHandler
find_handler path_hash [] = none
find_handler path_hash ((h, r) ∷ rs) =
    if same h path_hash then some r else find_handler path_hash rs

unfoldable pub erase_handler :
    (path_hash : Bytes) → List (Bytes × RequestHandler) → List (Bytes × RequestHandler) × Bool
erase_handler path_hash [] = ([], false)
erase_handler path_hash ((h, r) ∷ rs) =
    let (rest, found) = erase_handler path_hash rs in
    if same h path_hash then (rs, true) else ((h, r) ∷ rest, found)

-- The seconds of a time in milliseconds, in five bytes.
abbrev pub time_bytes : ℕ → Bytes
time_bytes now =
    let t = now / 1000 in
    t / 2 ^ 32 % 2 ^ 8
    ∷ t / 2 ^ 24 % 2 ^ 8
    ∷ t / 2 ^ 16 % 2 ^ 8
    ∷ t / 2 ^ 8 % 2 ^ 8
    ∷ t % 2 ^ 8
    ∷ []

abbrev pub or_default : (app_data default_app_data : Bytes) → Bytes
or_default [] default_app_data = default_app_data
or_default (x ∷ xs) default_app_data = x ∷ xs

-- `Transport::register_destination` refuses one that comes in and is registered already.
abbrev pub if_unregistered : (registered : Bytes → Bool) → Option Destination → Option Destination
if_unregistered registered none = none
if_unregistered registered (some d) =
    if is_incoming d.direction && registered d.hash then none else some d

-- The packet that goes out, with the payload that its constructor leaves.
abbrev pub as_packet : Bool → ℕ → Bytes → Option (ℕ × Bytes)
as_packet goes context content = if goes then some (context, left content packet_mdu) else none

module _ (k : Keys) where
  unfoldable pub name_hash_of : (app_name : Bytes) (aspects : Option Bytes) → Option Bytes
  name_hash_of app_name aspects = elim (expand_name none app_name aspects) [
    | none ↦ none
    | some n ↦ some (left (k.full_hash n) name_hash_bytes)
  ]

  -- `Destination::hash`
  unfoldable pub hash_of :
      (identity : Option Identity) (app_name : Bytes) (aspects : Option Bytes) → Option Bytes
  hash_of identity app_name aspects = elim (name_hash_of app_name aspects) [
    | none ↦ none
    | some n ↦ some (truncated_hash k (n ++ identity_hash identity))
  ]

  unfoldable pub hash_from_name_and_identity :
      (full_name : Bytes) (identity : Option Identity) → Option Bytes
  hash_from_name_and_identity full_name identity =
      let (app, aspects) = app_and_aspects full_name in
      hash_of identity app (some (elim aspects [ none ↦ [] | some a ↦ a ]))

  -- The rest of the constructor, with the aspects of the name and of the hash, and those of the
  -- name hash.
  unfoldable pub named :
      (identity : Option Identity) (direction : Direction) (kind : DestinationType)
      (app_name full_aspects aspects : Bytes)
      → Option Destination
  named identity direction kind app_name full_aspects aspects =
      let hexhash : Option Bytes = elim identity [
        | none ↦ none
        | some i ↦ some (to_hex false i.hash)
      ] in
      elim (expand_name hexhash app_name (some full_aspects)) [
        | none ↦ none
        | some name ↦ elim (hash_of identity app_name (some full_aspects)) [
          | none ↦ none
          | some hash ↦ elim (name_hash_of app_name (some aspects)) [
            | none ↦ none
            | some name_hash ↦ some (record {
              direction = direction;
              kind = kind;
              identity = identity;
              name = name;
              hash = hash;
              name_hash = name_hash;
              default_app_data = [];
              path_responses = [];
              request_handlers = [];
            })
          ]
        ]
      ]

  -- The constructor from a name; `fresh` are the keys of the identity that it creates where none is
  -- given, and `registered` says which hashes the transport has. An exception is `none`.
  unfoldable pub new_destination :
      (registered : Bytes → Bool) (fresh : Bytes × Bytes) (identity : Option Identity)
      (direction : Direction) (kind : DestinationType) (app_name aspects : Bytes)
      → Option Destination
  new_destination registered fresh none direction kind app_name aspects =
      if_unregistered registered (
        if is_incoming direction && not (is_plain kind)
        then (let i = create_keys k fresh.0 fresh.1 in
            named (some i) direction kind app_name (aspects ++ (0x2e ∷ to_hex false i.hash))
              aspects)
        else named none direction kind app_name aspects aspects)
  new_destination registered fresh (some i) direction kind app_name aspects =
      if_unregistered registered
        (if is_plain kind then none else named (some i) direction kind app_name aspects aspects)

  -- The payload of an announce, with five random bytes.
  unfoldable pub announce_data :
      (now : ℕ) (random app_data : Bytes) (i : Identity) → Destination → Option Bytes
  announce_data now random app_data i d =
      let random_hash = random ++ time_bytes now in
      let message = d.hash ++ (get_public_key i ++ (d.name_hash ++ (random_hash ++ app_data))) in
      elim (sign k message i) [
        | none ↦ none
        | some signature ↦
            some (get_public_key i ++ (d.name_hash ++ (random_hash ++ (signature ++ app_data))))
      ]

  -- What goes out: the context of the announce packet and its payload. An exception behind the
  -- guards is caught, and nothing goes out, as where `goes` says that the packet is not sent; that
  -- of a guard is `none`, as is an identity that is not there, which is an assertion.
  unfoldable pub announce_new :
      (now : ℕ) (random tag app_data : Bytes) (is_response goes : Bool)
      → Destination
      → Option (Destination × Option (ℕ × Bytes))
  announce_new now random tag app_data is_response goes d = elim d.identity [
    | none ↦ none
    | some i ↦ elim (announce_data now random (or_default app_data d.default_app_data) i d) [
      | none ↦ some (d, none)
      | some content ↦ some (
        record d { path_responses = insert_response tag now content d.path_responses },
        as_packet goes (if is_response then path_response else context_none) content,
      )
    ]
  ]

  unfoldable pub announce :
      (now : ℕ) (random tag app_data : Bytes) (is_response goes : Bool)
      → Destination
      → Option (Destination × Option (ℕ × Bytes))
  announce now random tag app_data is_response goes d =
      let kept = record d { path_responses = recent now d.path_responses } in
      let fresh = announce_new now random tag app_data is_response goes kept in
      if is_single d.kind && is_incoming d.direction
      then if is_response && not (same tag [])
        then elim (find_response tag kept.path_responses) [
          | none ↦ fresh
          | some content ↦ some (kept, as_packet goes path_response content)
        ]
        else fresh
      else none

  -- `none` is the exception of an empty path. A handler that is there stays.
  unfoldable pub register_request_handler :
      (path : Bytes) (allow : RequestPolicy) (allowed_list : List Bytes)
      → Destination
      → Option Destination
  register_request_handler [] allow allowed_list d = none
  register_request_handler (x ∷ xs) allow allowed_list d =
      let path_hash = truncated_hash k (x ∷ xs) in
      let handler : RequestHandler = record {
        path = x ∷ xs;
        allow = allow;
        allowed_list = allowed_list;
      } in
      some (elim (find_handler path_hash d.request_handlers) [
        | none ↦ record d { request_handlers = (path_hash, handler) ∷ d.request_handlers }
        | some old ↦ d
      ])

  unfoldable pub deregister_request_handler : (path : Bytes) → Destination → Destination × Bool
  deregister_request_handler path d =
      let (rest, found) = erase_handler (truncated_hash k path) d.request_handlers in
      (record d { request_handlers = rest }, found)
