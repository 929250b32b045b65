-- ===== src/Link/Requests/Allowed.antt =====
-- src/microReticulum/Link.cpp, `handle_request`: who gets an answer.
use mathlib.Core.List.{Mem, mem-cons_self, mem-cons_of_mem}
use micro_reticulum.Prelude.{
  ◌≡◌, refl, subst, inl, inr, List, [], ◌∷◌, Option, none, some, Bool, true, false, Bool-cases,
  Option-cases, if_both,
}
use micro_reticulum.Bytes.{Bytes, same}
use micro_reticulum.Bytes.Compare.{same_iff}
use micro_reticulum.Destination.{
  RequestHandler, RequestPolicy, allow_none, allow_all, allow_list, find_handler,
}
use micro_reticulum.Link.{is_active, Host, Link}
use micro_reticulum.Link.Requests.{
  MessagePack, ResourceRequest, Reply, no_reply, replies_packet, replies_resource, is_listed,
  Generator, allows, handle_request,
}

-- The policy is to allow all, or the remote identity is known and on the list.
pub data Permits (h : Host) (allowed_list : List Bytes) (remote : Option Bytes)
    : RequestPolicy → Type 0 where
  everyone : Permits h allowed_list remote allow_all
  those_listed :
      (key : Bytes)
      → remote ≡ some key
      → Mem (h.truncated_hash key) allowed_list
      → Permits h allowed_list remote allow_list

is_listed-Mem : (b : Bytes) (bs : List Bytes) → is_listed b bs ≡ true → Mem b bs
unfolding is_listed
is_listed-Mem b [] h = absurd cc
is_listed-Mem b (x ∷ xs) h = elim (Bool-cases (same x b)) [
  | inl e ↦ subst (λ z. Mem z (x ∷ xs)) ((same_iff x b).0 e) mem-cons_self
  | inr f ↦ mem-cons_of_mem x (is_listed-Mem b xs (rw f at h))
]

allows-Permits :
    (h : Host) (p : RequestPolicy) (bs : List Bytes) (remote : Option Bytes)
    → allows h p bs remote ≡ true
    → Permits h bs remote p
allows-Permits h allow_none bs remote e = absurd cc
allows-Permits h allow_all bs remote e = everyone
allows-Permits h allow_list bs none e = absurd cc
allows-Permits h allow_list bs (some key) e =
    those_listed key refl (is_listed-Mem (h.truncated_hash key) bs e)

-- Whether something goes out.
abbrev pub is_reply : Reply → Bool
is_reply no_reply = false
is_reply (replies_packet b) = true
is_reply (replies_resource id b) = true

module _ (h : Host) (m : MessagePack) (generate : Generator)
    (handlers : List (Bytes × RequestHandler)) where
  pub record Answers (r : ResourceRequest) (l : Link) : Type 0 where
    pub is_up : is_active l.status ≡ true
    pub handler : RequestHandler
    pub is_found : find_handler r.path_hash handlers ≡ some handler
    pub is_permitted : Permits h handler.allowed_list l.remote_identity handler.allow

  -- A request is answered only on an active link, by the handler that is registered for its path
  -- hash, and only if that allows everyone, or has the hash of the link's remote identity on its
  -- list.
  pub handle_request-Answers :
      (request_id : Bytes) (r : ResourceRequest) (l : Link)
      → is_reply (handle_request h m generate handlers request_id r l) ≡ true
      → Answers r l
  unfolding handle_request
  handle_request-Answers request_id r l =
      if_both (λ z. is_reply z ≡ true → Answers r l) (is_active l.status)
        (λ up. elim (Option-cases (find_handler r.path_hash handlers)) [
          | inl e ↦ rw e (λ f. absurd cc)
          | inr (handler, e) ↦ rw e (
              if_both (λ z. is_reply z ≡ true → Answers r l)
                (allows h handler.allow handler.allowed_list l.remote_identity)
                (λ a f. record {
                  is_up = up;
                  handler = handler;
                  is_found = e;
                  is_permitted =
                      allows-Permits h handler.allow handler.allowed_list l.remote_identity a;
                })
                (λ a f. absurd cc))
        ])
        (λ down f. absurd cc)
