-- ===== src/Lib.antt =====
-- A model of the core of microReticulum, the C++ implementation of the Reticulum network stack,
-- and the theorems about it. A node keeps its bytes in shared buffers
-- (src/microReticulum/Bytes.h). A packet (src/microReticulum/Packet.h) is packed into a buffer,
-- unpacked by the receiver, and identified by a hash of the part that does not change on its way.
-- The transport (src/microReticulum/Transport.cpp) filters what comes in, forwards it, and learns
-- paths from announces. Sets that remember tokens for a bounded time
-- (src/microReticulum/Utilities/GenerationalSet.h) serve the transport. A destination
-- (src/microReticulum/Destination.h) is announced under the keys of an identity
-- (src/microReticulum/Identity.h); a link (src/microReticulum/Link.h) to it is opened by a request
-- and a signed proof, and carries packets, requests and the parts of resources
-- (src/microReticulum/Resource.h).
--
-- Prelude has what all files share: the native numbers and their Boolean tests, and lists over
-- them.
--
-- Bytes is the buffer as a value: `mid`, `left`, `right` and `compare` of
-- src/microReticulum/Bytes.cpp. Bytes/Hex is its hexadecimal text, Bytes/Compare the order of two
-- buffers, Bytes/Slices what its slices are. Bytes/Shared is the buffer as an object: a store of
-- buffers and of objects that point to them and say whether they are exclusive, and a function
-- from store to store for each method that writes; its children hold the proofs about who owns a
-- buffer, about writes, and about `writable`.
--
-- Packet/Types and Packet/Context are the enumerations of src/microReticulum/Type.h and the packet
-- object; Packet/Flags is `get_packed_flags` and `unpack_flags`; Packet/Wire is `pack`, `unpack`
-- and `get_hashable_part`. A method that sets fields is a function that returns the packet,
-- `throw` is a value of a result type, and encryption and the hash function are parameters.
-- Packet/Hash, Packet/Wire/Reading and Packet/Wire/Roundtrip have the proofs. Packet/Receipt is
-- the class PacketReceipt of src/microReticulum/Packet.cpp, as a sequence of proofs and clock
-- ticks that happen to a receipt.
--
-- Transport/Filter is `packet_filter` and the start of `inbound`; the hash list, a store of
-- another library, is a record with the law that what was put is there. Transport/Forward is the
-- bytes that a node sends on: to the next hop, along a link, and into transport.
-- Transport/Announce is the decision of `inbound` whether an announce replaces a path, and the
-- entry that is written; Transport/Blobs is the random blobs of a path and their times;
-- Transport/Rate is the announce rate limit of one destination, as a function from entry to entry.
-- Transport/Retransmit is one entry of the announce table, visited by `jobs` and heard of by
-- `inbound`; its proofs are in Transport/Retransmit/Lifetime. Transport/Queue is the queue of
-- announces of one interface, in `outbound`. Transport/Links is one entry of the link table: the
-- request that makes it, and the proof and the packets that come for its link, with an interface
-- as a number. Times are natural numbers where the code has floating-point seconds: an addition is
-- exact, and a rate violation count stays whole.
--
-- Utilities/OrderedSet is std::set as an ordered list, over an order given as an instance;
-- Utilities/GenerationalSet is the set of two generations, with its iterator in
-- Utilities/GenerationalSet/Iteration and the proofs on what it remembers in
-- Utilities/GenerationalSet/Dedup.
--
-- Cryptography/Padding is src/microReticulum/Cryptography/PKCS7.h and Cryptography/Token is
-- src/microReticulum/Cryptography/Token.cpp. The ciphers and the authentication code come from
-- another library; they are a record of functions with the laws that decryption undoes encryption
-- on whole blocks and that a code has 32 bytes. The random vector of a token is an argument.
--
-- Provisioning/Value, Provisioning/Field, Provisioning/Namespace and Provisioning/Registry are the
-- classes of these names in src/microReticulum/Provisioning. Provisioning/Index is what two of
-- them share, a vector with a map of positions. A setter or a getter acts on the state of the
-- running program, whose type is a parameter, as is the type of floating-point numbers; a method
-- that calls one takes that state and returns it where it can change. Setters are taken not to
-- call back into the namespace.
--
-- Identity is src/microReticulum/Identity.h and src/microReticulum/Identity.cpp over the curves,
-- HKDF and SHA-256 of other libraries, a record Keys; Identity/Announce is `remember` and
-- `validate_announce` over a store of another library, of which nothing is assumed. Destination is
-- src/microReticulum/Destination.cpp: names, announces and request handlers. A text is the list of
-- its bytes. The proofs are in Identity/Sealing, Identity/Announce/Accepted and
-- Destination/Announced.
--
-- Link is the class of src/microReticulum/Link.cpp and its data in src/microReticulum/LinkData.h;
-- keys, signatures and hashes are the functions of a record Host, and what the class sends,
-- registers or calls back is a list of effects. Link/Signalling is the MTU and the mode that a
-- request and its proof carry, Link/Handshake the constructor, `validate_request`, `handshake` and
-- `prove`, Link/Establishment `validate_proof`, Link/Session what an established link does,
-- Link/Receive `receive`. Link/History is a link under any sequence of these calls; Link/Agreement
-- joins both sides. Link/Requests is `request`, `handle_request`, `handle_response` and the class
-- RequestReceipt, over MessagePack as a record of functions. An exception is a value, and where
-- the code catches it the state keeps what was assigned before; the encryption of a packet and the
-- MTU of the link are reasons for one. Times are in milliseconds. Cryptography/Derivation is
-- src/microReticulum/Cryptography/HKDF.cpp.
--
-- Resource is the class of src/microReticulum/Resource.cpp and its data in
-- src/microReticulum/ResourceData.h. Resource/Windows is how the number of requested parts grows
-- and shrinks. Resource/Incoming is the receiving side: the hash map, requests and the filing of
-- parts; Resource/Assembly is what `accept`, `receive_part` and `assemble` do with them.
-- Resource/Outgoing is the sending side: `start`, `advertise`, `request`, `validate_proof` and the
-- sender's branches of the watchdog. What becomes of a packet that is sent is an argument: it goes
-- out, no interface takes it, or there is an exception. The field `completed` is
-- `_consecutive_completed_height` plus one, so that it is a natural number. The smoothing of
-- round-trip times and the length of timeouts are left out.
--
-- The walk up the parents of a namespace is on fuel, one more than the number of namespaces, since
-- each namespace stands behind its parent. All other loops recurse on their list or on a count.
-- Bytes are natural numbers, below 256 where a theorem says so, and the shifts and casts of the
-- code are written as operations on bits and remainders.
--
-- Tests applies the theorems at concrete inputs.
--
-- Not modelled: responses that come as packets, the watchdog of links, the packed form of resource
-- advertisements, progress, compressed and split resources, the files of identities, the receipt
-- of packets by destinations, interfaces, the messages and the storage of provisioning,
-- persistence, and the tables of the transport apart from the path entry, the rate entry, the
-- announce entry, the link entry and the hash list; the cryptography, compression and memory
-- adapters of other libraries; logging.
pub mod Bytes
pub mod Cryptography
pub mod Destination
pub mod Identity
pub mod Link
pub mod Packet
pub mod Prelude
pub mod Provisioning
pub mod Resource
pub mod Tests
pub mod Transport
pub mod Utilities
