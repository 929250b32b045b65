-- ===== src/Transport/Filter.antt =====
-- src/microReticulum/Transport.cpp, `packet_filter`, `add_packet_hash`, and the part of `inbound`
-- that decides whether a packet's hash is remembered.
use micro_reticulum.Prelude.{
  ℕ, ◌≡◌, ◌⊎◌, inl, inr, [], ◌∷◌, Bool, true, false, not, ◌&&◌, ◌||◌, if◌then◌else◌, ltb, ◌==◌,
  Bool-cases, arith,
}
use micro_reticulum.Bytes.{Bytes, same}
use micro_reticulum.Packet.Context.{
  resource, resource_req, resource_prf, cache_request, channel, keepalive, lrproof,
}
use micro_reticulum.Packet.Types.{DestinationType, single, group, plain, link, announce, Packet}
use micro_reticulum.Packet.Wire.{is_announce, is_proof}

-- The list of packet hashes, a store of the microStore library: what has been put is there.
pub record HashList : Type 1 where
  pub State : Type 0
  pub exists : State → Bytes → Bool
  pub put : State → Bytes → State
  pub exists-put : (s : State) (k : Bytes) → exists (put s k) k ≡ true

-- What the filter reads of the node. The callback accepts everything where none is set, or where it
-- throws.
pub record Node : Type 0 where
  pub filter_packet : Packet → Bool
  pub shared_instance : Bool
  pub identity_hash : Bytes
  pub in_link_table : Bytes → Bool

abbrev has_bytes : Bytes → Bool
has_bytes [] = false
has_bytes (x ∷ xs) = true

-- A transport id that names another node.
abbrev pub for_other_node : Node → Packet → Bool
for_other_node n p =
    has_bytes p.transport_id
    && not (is_announce p.packet_type)
    && not (same p.transport_id n.identity_hash)

-- The contexts that are not filtered.
abbrev pub is_exempt : ℕ → Bool
is_exempt c =
    c == keepalive
    || c == resource_req
    || c == resource_prf
    || c == resource
    || c == cache_request
    || c == channel

-- Plain and group packets travel one hop, and are never announces.
abbrev pub local_rule : Packet → Bool
local_rule p = if is_announce p.packet_type then false else not (ltb 1 p.hops)

-- Single and link packets pass once, but for the announces of single destinations.
abbrev pub once_rule : Bool → Packet → Bool → Bool
once_rule seen p is_single =
    if seen then (if is_announce p.packet_type then is_single else false) else true

abbrev pub type_rule : Bool → Packet → DestinationType → Bool
type_rule seen p plain = local_rule p
type_rule seen p group = local_rule p
type_rule seen p single = once_rule seen p true
type_rule seen p link = once_rule seen p false

module _ (h : HashList) (n : Node) where
  unfoldable pub packet_filter : h.State → Packet → Bool
  packet_filter s p =
      if n.shared_instance
      then true
      else if for_other_node n p
      then false
      else if is_exempt p.context
      then true
      else type_rule (h.exists s p.packet_hash) p p.destination_type

  -- A packet of a link that the node carries, or a link request proof, is remembered later.
  unfoldable pub remember_packet_hash : Packet → Bool
  remember_packet_hash p =
      not (n.in_link_table p.destination_hash)
      && not (is_proof p.packet_type && p.context == lrproof)

  unfoldable pub add_packet_hash : h.State → Bytes → h.State
  add_packet_hash s hash = h.put s hash

  -- The start of `inbound`: the packet is filtered, and remembered if it passes.
  unfoldable pub accept : h.State → Packet → h.State × Bool
  unfolding packet_filter remember_packet_hash add_packet_hash
  accept s p =
      if n.filter_packet p && packet_filter s p
      then ((if remember_packet_hash p then add_packet_hash s p.packet_hash else s), true)
      else (s, false)

  -- The packets that the filter lets pass only once: of single destinations and links, not an
  -- announce of a single destination, and not of an exempt context.
  pub record IsOnce (p : Packet) : Type 0 where
    pub filtered : n.shared_instance ≡ false
    pub not_exempt : is_exempt p.context ≡ false
    pub kind : (p.destination_type ≡ single) ⊎ (p.destination_type ≡ link)
    pub not_single_announce : p.packet_type ≡ announce → p.destination_type ≡ link

  type_rule_seen :
      (p : Packet) (d : DestinationType)
      → (d ≡ single) ⊎ (d ≡ link)
      → (p.packet_type ≡ announce → d ≡ link)
      → type_rule true p d ≡ false
  type_rule_seen p d k a = ground (arith, k, a)

  packet_filter_seen :
      (t : h.State) (p : Packet)
      → IsOnce p
      → h.exists t p.packet_hash ≡ true
      → packet_filter t p ≡ false
  unfolding packet_filter
  packet_filter_seen t p o seen = elim (Bool-cases (for_other_node n p)) [
    | inl other ↦ rw (o.filtered, other)
    | inr ours ↦
        rw (o.filtered, ours, o.not_exempt, seen)
          (type_rule_seen p p.destination_type o.kind o.not_single_announce)
  ]

  accept-put :
      (s t : h.State) (p : Packet)
      → remember_packet_hash p ≡ true
      → accept s p ≡ (t, true)
      → t ≡ h.put s p.packet_hash
  unfolding accept add_packet_hash
  accept-put s t p r e = elim (Bool-cases (n.filter_packet p && packet_filter s p)) [
    | inl passed ↦ cc (rw (passed, accept, r) at e)
    | inr dropped ↦ cc (rw (dropped, accept) at e)
  ]

  -- A packet for a single destination or a link that passed and was remembered does not pass a
  -- second time, but for exempt contexts, announces of single destinations, and nodes that are
  -- connected to a shared instance.
  pub accept_twice :
      (s t : h.State) (p : Packet)
      → IsOnce p
      → remember_packet_hash p ≡ true
      → accept s p ≡ (t, true)
      → accept t p ≡ (t, false)
  unfolding accept
  accept_twice s t p o r e =
      let known : h.exists t p.packet_hash ≡ true =
        rw (accept-put s t p r e) (h.exists-put s p.packet_hash) in
      rw (packet_filter_seen t p o known) (ground arith)
