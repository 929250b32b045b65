-- ===== src/Resource/Incoming/Requests.antt =====
-- src/microReticulum/Resource.cpp, `request_next`: which parts it asks for.
use micro_reticulum.Prelude.{
  ℕ, zero, suc, ◌+◌, ◌≤◌, ◌<◌, ◌≡◌, refl, inl, inr, ◌⊎◌, List, [], ◌∷◌, Option, none, some, Bool,
  true, false, ◌||◌, ltb, ◌-◌, ◌++◌, if◌then◌else◌, leb, length, All, if_both, arith,
}
use micro_reticulum.Bytes.{Bytes, same}
use micro_reticulum.Packet.Context.{resource_req}
use micro_reticulum.Packet.Types.{data_packet}
use micro_reticulum.Resource.{
  is_failed, entry, zero_hash, hashmap_is_exhausted, hashmap_is_not_exhausted, Effect, sends, went,
}
use micro_reticulum.Resource.Incoming.{Incoming, slot_filled, leading, joined, search, request_next}
use micro_reticulum.Resource.Incoming.Parts.{filled, Counted}

-- The known hash of a part that is missing, so many positions from the first one on.
pub record IsWanted (hashmap : Bytes) (parts : List (Option Bytes)) (first n : ℕ) (b : Bytes)
    : Type 0 where
  pub position : ℕ
  pub from : first ≤ position
  pub before : position < first + n
  pub inside : position < length parts
  pub missing : slot_filled parts position ≡ false
  pub known : b ≡ entry hashmap position
  pub nonzero : same b zero_hash ≡ false

IsWanted-later :
    (hashmap : Bytes) (parts : List (Option Bytes)) (n j : ℕ) (b : Bytes)
    → IsWanted hashmap parts (suc j) n b
    → IsWanted hashmap parts j (suc n) b
IsWanted-later hashmap parts n j b w = record {
  position = w.position;
  from = omega (arith, w.from);
  before = omega (arith, w.before);
  inside = w.inside;
  missing = w.missing;
  known = w.known;
  nonzero = w.nonzero;
}

All-later :
    (hashmap : Bytes) (parts : List (Option Bytes)) (n j : ℕ) (bs : List Bytes)
    → All (IsWanted hashmap parts (suc j) n) bs
    → All (IsWanted hashmap parts j (suc n)) bs
All-later hashmap parts n j [] a = a
All-later hashmap parts n j (b ∷ bs) (w, ws) =
    (IsWanted-later hashmap parts n j b w, All-later hashmap parts n j bs ws)

-- What a search finds: hashes that are wanted, no more of them than positions, and if the first
-- slot is there and empty then a hash or the end of the hashmap.
record Found (hashmap : Bytes) (parts : List (Option Bytes)) (n j : ℕ) (r : List Bytes × Bool)
    : Type 0 where
  wanted : All (IsWanted hashmap parts j n) r.0
  few : length r.0 ≤ n
  some_found :
      j < length parts → 0 < n → slot_filled parts j ≡ false → (0 < length r.0) ⊎ (r.1 ≡ true)

search-Found :
    (hashmap : Bytes) (parts : List (Option Bytes)) (n j : ℕ)
    → Found hashmap parts n j (search hashmap parts n j)
unfolding search
search-Found hashmap parts zero j = record {
  wanted = tt;
  few = omega arith;
  some_found = λ i p e. absurd (omega arith);
}
search-Found hashmap parts (suc n) j =
    let rest = search-Found hashmap parts n (suc j) in
    let found : List Bytes × Bool = search hashmap parts n (suc j) in
    let later = All-later hashmap parts n j found.0 rest.wanted in
    if_both (Found hashmap parts (suc n) j) (leb (length parts) j)
      (λ e. record { wanted = tt; few = omega arith; some_found = λ i p f. absurd (ground arith) })
      (λ e.
        if_both (Found hashmap parts (suc n) j) (slot_filled parts j)
          (λ f. record {
            wanted = later;
            few = omega (arith, rest.few);
            some_found = λ i p g. absurd (cc (f, g));
          })
          (λ f.
            if_both (Found hashmap parts (suc n) j) (same (entry hashmap j) zero_hash)
              (λ g. record { wanted = tt; few = omega arith; some_found = λ i p h. inr refl })
              (λ g. record {
                wanted = (
                  record {
                    position = j;
                    from = omega arith;
                    before = omega arith;
                    inside = ground arith;
                    missing = f;
                    known = refl;
                    nonzero = g;
                  },
                  later,
                );
                few = omega (arith, rest.few);
                some_found = λ i p h. inl (omega arith);
              })))

first_missing :
    (parts : List (Option Bytes))
    → filled parts < length parts
    → (leading parts < length parts) × (slot_filled parts (leading parts) ≡ false)
unfolding filled leading
first_missing [] h = absurd (omega arith)
first_missing (none ∷ ss) h = (omega arith, refl)
first_missing (some a ∷ ss) h = let (i, e) = first_missing ss (omega arith) in (omega (arith, i), e)

-- The hash from which the sender continues.
abbrev last_known : Incoming → Bytes
last_known r = if ltb 0 r.hashmap_height then entry r.hashmap (r.hashmap_height - 1) else zero_hash

-- What a request of a transfer that lacks parts comes to.
pub record Asks (r t : Incoming) (es : List Effect) (hashes : List Bytes) : Type 0 where
  pub asked : All (IsWanted r.hashmap r.parts r.completed r.window.window) hashes
  pub outstanding : t.outstanding_parts ≡ length hashes
  pub at_most : length hashes ≤ r.window.window
  pub sent :
      es
      ≡ sends data_packet resource_req (
          (if t.waiting_for_hmu
            then hashmap_is_exhausted ∷ last_known r
            else hashmap_is_not_exhausted ∷ [])
          ++ (r.hash ++ joined hashes))
        ∷ []
  pub goes_on : (0 < length hashes) ⊎ (t.waiting_for_hmu ≡ true)

-- While parts are missing, a transfer that has not failed and does not wait for more of the hashmap
-- sends a request packet: a flag, with the last known hash where the hashmap is exhausted, then the
-- hash of the resource, and what it asks for, which is something: parts that are missing, whose
-- hashes it knows and which lie in the window behind the last consecutive part, at most as many as
-- the window; and if for none, then for the next slice of the hashmap. It counts what it has asked
-- for as outstanding. The packet goes out.
pub request_next-Asks :
    (now raw_size : ℕ) (r : Incoming)
    → Counted r
    → r.received_count < r.total_parts
    → 0 < r.window.window
    → is_failed r.status ≡ false
    → r.waiting_for_hmu ≡ false
    → Asks r
        (request_next now raw_size went r).0
        (request_next now raw_size went r).1
        (search r.hashmap r.parts r.window.window r.completed).0
unfolding request_next
request_next-Asks now raw_size r c less some_window alive ready =
    let f = search-Found r.hashmap r.parts r.window.window r.completed in
    let (inside, empty) = first_missing r.parts (omega (arith, c.counts, c.sizes)) in
    let goes : (is_failed r.status || r.waiting_for_hmu) ≡ false = rw (alive, ready) refl in
    rw (request_next, goes)
      (record {
        asked = f.wanted;
        outstanding = refl;
        sent = refl;
        at_most = f.few;
        goes_on = f.some_found (omega (arith, inside, c.leads)) some_window (rw c.leads empty);
      })
