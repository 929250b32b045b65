-- ===== src/Tests/Requests.antt =====
-- src/microReticulum/Link.cpp: a request and its response, at the keys of Tests/Links and encodings
-- that can be followed by hand.
use micro_reticulum.Prelude.{
  ℕ, ◌<◌, ◌≡◌, refl, List, [], ◌∷◌, ◌++◌, Option, none, some, true, false, if◌then◌else◌, leb, ◌==◌,
  length, take, drop, replicate, length-append, take-append, drop-append, arith,
}
use micro_reticulum.Bytes.{Bytes, left, same}
use micro_reticulum.Destination.{RequestHandler, allow_list, find_handler}
use micro_reticulum.Link.{active, Link}
use micro_reticulum.Link.Requests.{
  MessagePack, ResourceRequest, link_mdu, Generator, is_listed, allows, handle_request,
  packed_request, RequestReceipt, new_receipt,
}
use micro_reticulum.Link.Requests.Exchange.{Exchanged, request-Exchanged}
use micro_reticulum.Link.Requests.Allowed.{is_reply, Answers, handle_request-Answers}
use micro_reticulum.Tests.Links.{byte_host}
use micro_reticulum.Tests.Sessions.{link_at}

abbrev read_marked : ℕ → Bytes → Option (ℕ × Bytes)
read_marked mark [] = none
read_marked mark (x ∷ []) = none
read_marked mark (x ∷ y ∷ b) = if x == mark then some (y, b) else none

abbrev read_one : Bytes → Option (ℕ × Bytes)
read_one [] = none
read_one (x ∷ b) = some (x, b)

abbrev read_counted : Bytes → Option (Bytes × Bytes)
read_counted [] = none
read_counted (n ∷ b) = if leb n (length b) then some (take n b, drop n b) else none

read_counted-append : (a b : Bytes) → read_counted (length a ∷ (a ++ b)) ≡ some (a, b)
read_counted-append a b =
    let fits : leb (length a) (length (a ++ b)) ≡ true = ground (arith, length-append a b) in
    rw (fits, take-append (length a) a b refl, drop-append (length a) a b refl) refl

abbrev plain_pack : MessagePack
plain_pack = record {
  pack_array = λ n. n ∷ [];
  pack_binary = λ b. length b ∷ b;
  pack_float32 = λ t. 0xca ∷ t ∷ [];
  pack_float64 = λ t. 0xcb ∷ t ∷ [];
  read_array = read_one;
  read_binary = read_counted;
  read_float32 = read_marked 0xca;
  read_float64 = read_marked 0xcb;
  read_array-pack_array = λ n b. refl;
  read_binary-pack_binary = λ a b. read_counted-append a b;
  read_float32-pack_float64 = λ t b. refl;
  read_float64-pack_float64 = λ t b. refl;
  length-pack_array = λ n. omega arith;
  length-pack_binary = λ b. omega arith;
}

abbrev path : Bytes
path = replicate 20 0x70

-- A handler for one peer, whose response is the path and the data.
abbrev peer : Bytes
peer = replicate 64 8

abbrev handler : RequestHandler
handler = record { path = path; allow = allow_list; allowed_list = replicate 16 8 ∷ [] }

abbrev handlers : List (Bytes × RequestHandler)
handlers = (replicate 16 0x70, handler) ∷ []

abbrev echoes : Generator
echoes = λ p d id link remote at. p ++ d

abbrev serving : Link
serving = record (link_at false active) { remote_identity = some peer }

abbrev content : Bytes
content = replicate 500 7

found : find_handler (left path 16) handlers ≡ some handler
unfolding find_handler left same
found = refl

allowed : allows byte_host allow_list handler.allowed_list (some peer) ≡ true
unfolding is_listed left same
allowed = refl

large : link_mdu < length (packed_request byte_host plain_pack 9 path content)
unfolding left
large = omega arith

-- A request that waits for its response already.
abbrev other : RequestReceipt
other = new_receipt 5 5000 40 (replicate 16 1) none (false, false, false)

other_id :
    same other.request_id
      (byte_host.truncated_hash (packed_request byte_host plain_pack 9 path content))
    ≡ false
unfolding same left
other_id = refl

request-Exchanged_example :
    Exchanged plain_pack byte_host echoes handlers path content handler 9 12 5 600 600
      (true, true, false)
      none
      1
      (link_at true active)
      serving
      (other ∷ [])
request-Exchanged_example =
    request-Exchanged plain_pack byte_host echoes handlers path content handler 9 12 5 600 600
      (true, true, false) none 1 (link_at true active) serving (other ∷ []) large refl refl found
      allowed (other_id, tt)

abbrev asked : ResourceRequest
asked = record { requested_at = 9; path_hash = replicate 16 0x70; request_data = 1 ∷ [] }

answers :
    is_reply (handle_request byte_host plain_pack echoes handlers (3 ∷ []) asked serving) ≡ true
unfolding handle_request find_handler is_listed left same
answers = refl

handle_request-Answers_example : Answers byte_host plain_pack echoes handlers asked serving
handle_request-Answers_example =
    handle_request-Answers byte_host plain_pack echoes handlers (3 ∷ []) asked serving answers

-- Nobody is told anything over a link without an identity.
refused :
    is_reply
      (handle_request byte_host plain_pack echoes handlers (3 ∷ []) asked (link_at false active))
    ≡ false
unfolding handle_request find_handler left same
refused = refl
