-- ===== src/Transport/Announce.antt =====
-- src/microReticulum/Transport.cpp, `inbound`: whether a valid announce for a destination that is
-- not local enters the path table, and what the path then remembers. Times are numbers of ticks.
use micro_reticulum.Prelude.{
  ℕ, ◌+◌, ◌*◌, ◌≤◌, ◌<◌, ◌≡◌, List, [], Option, none, some, Bool, true, false, not, ◌&&◌,
  if◌then◌else◌, ltb, leb, ◌==◌, arith, ◌∷◌,
}
use micro_reticulum.Bytes.{Bytes}
use micro_reticulum.Transport.Blobs.{
  has_blob, remember_blob, timebase_from_random_blob, timebase_from_random_blobs, path_emitted_loop,
  has_blob-le,
}

-- The fields of a `DestinationEntry` that the decision reads and writes.
pub record PathEntry : Type 0 where
  pub timestamp : ℕ
  pub received_from : Bytes
  pub hops : ℕ
  pub expires : ℕ
  pub random_blobs : List Bytes

-- What the decision reads of an announce packet: its hops, where it came from, and the random blob
-- with its time of emission.
pub record Announce : Type 0 where
  pub hops : ℕ
  pub received_from : Bytes
  pub random_blob : Bytes
  pub emitted : ℕ

-- `Type::Interface::modes`
pub data Mode : Type 0 where
  mode_none full point_to_point access_point roaming boundary gateway : Mode

-- Seconds.
abbrev pub path_time : Mode → ℕ
path_time access_point = 60 * 60 * 24
path_time roaming = 60 * 60 * 6
path_time _ = 60 * 60 * 24 * 7

abbrev pub pathfinder_m : ℕ
pathfinder_m = 128

-- The answer, and whether `mark_path_unknown_state` has been called.
pub record Verdict : Type 0 where
  pub should_add : Bool
  pub marked : Bool

abbrev pub rejected : Verdict
rejected = record { should_add = false; marked = false }

abbrev pub renewed : Verdict
renewed = record { should_add = true; marked = true }

-- No more hops than the known path: only a newer announce with a new blob.
unfoldable pub judge_shorter : PathEntry → Announce → Verdict
judge_shorter e a =
    if not (has_blob a.random_blob e.random_blobs)
      && ltb (timebase_from_random_blobs e.random_blobs) a.emitted
    then renewed
    else rejected

-- More hops: the path has expired, or the announce is newer, or just as old and the path is dead.
unfoldable pub judge_longer : ℕ → Bool → PathEntry → Announce → Verdict
judge_longer now unresponsive e a =
    let path_emitted = path_emitted_loop a.emitted 0 e.random_blobs in
    if leb e.expires now
    then if not (has_blob a.random_blob e.random_blobs) then renewed else rejected
    else if ltb path_emitted a.emitted
    then if not (has_blob a.random_blob e.random_blobs) then renewed else rejected
    else if a.emitted == path_emitted
    then if unresponsive then record { should_add = true; marked = false } else rejected
    else rejected

-- `RNS_BLOCK_UNRESPONSIVE_ANNOUNCE`: a path still marked unresponsive is always replaced.
unfoldable pub judge_known : ℕ → Bool → PathEntry → Announce → Verdict
unfolding judge_shorter judge_longer
judge_known now unresponsive e a =
    let v = if leb a.hops e.hops then judge_shorter e a else judge_longer now unresponsive e a in
    if unresponsive && not v.marked then record v { should_add = true } else v

unfoldable pub judge : ℕ → Bool → Option PathEntry → Announce → Verdict
unfolding judge_known
judge now unresponsive none a = record { should_add = true; marked = false }
judge now unresponsive (some e) a = judge_known now unresponsive e a

-- `RNS_REJECT_BLACKHOLED_ANNOUNCE`, over the blackholed identities and the one that is recalled for
-- the destination.
unfoldable pub announces_blackholed : List Bytes → Option Bytes → Bool
announces_blackholed table none = false
announces_blackholed table (some identity) = has_blob identity table

-- Whether the announce is added. A hop count past the limit is refused first.
unfoldable pub should_add :
    List Bytes → Option Bytes → ℕ → Bool → Option PathEntry → Announce → Bool
unfolding judge announces_blackholed
should_add table identity now unresponsive path a =
    if ltb a.hops (pathfinder_m + 1)
    then (judge now unresponsive path a).should_add && not (announces_blackholed table identity)
    else false

abbrev blobs_of : Option PathEntry → List Bytes
blobs_of none = []
blobs_of (some e) = e.random_blobs

-- The entry that is stored for an announce that is added.
unfoldable pub new_entry : Mode → ℕ → Option PathEntry → Announce → PathEntry
new_entry mode now path a = record {
  timestamp = now;
  received_from = a.received_from;
  hops = a.hops;
  expires = now + path_time mode;
  random_blobs = remember_blob a.random_blob (blobs_of path);
}

-- More announces that are stored for the path, each with the mode of its interface and its time.
unfoldable pub store_all : List (Mode × ℕ × Announce) → PathEntry → PathEntry
unfolding new_entry
store_all [] e = e
store_all ((mode, now, a) ∷ rest) e = store_all rest (new_entry mode now (some e) a)

-- An announce that replaces a responsive path over no more hops was emitted after every
-- announce that the path remembers, and has a random blob that the path does not remember.
pub should_add_newer :
    (table : List Bytes) (identity : Option Bytes) (now : ℕ) (e : PathEntry) (a : Announce)
    (b : Bytes)
    → should_add table identity now false (some e) a ≡ true
    → a.hops ≤ e.hops
    → has_blob b e.random_blobs ≡ true
    → (timebase_from_random_blob b < a.emitted) × (has_blob a.random_blob e.random_blobs ≡ false)
unfolding should_add judge_known judge_shorter
should_add_newer table identity now e a b h few known =
    ground (arith, has_blob-le b e.random_blobs known)
