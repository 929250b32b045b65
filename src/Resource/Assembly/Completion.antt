-- ===== src/Resource/Assembly/Completion.antt =====
-- src/microReticulum/Resource.cpp, `receive_part`: the state behind a packet, and what a complete
-- transfer is.
use micro_reticulum.Prelude.{
  ℕ, zero, suc, Bool-cases, inl, inr, ◌≡◌, refl, sym, ap, ◌∙◌, List, ◌++◌, Bool, true, false, ◌&&◌,
  ◌||◌, not, ltb, ◌==◌, length, if_both, ==_iff, arith,
}
use micro_reticulum.Bytes.{Bytes, mid, same}
use micro_reticulum.Bytes.Compare.{same_iff}
use micro_reticulum.Resource.{
  Status, no_status, queued, advertised, transferring, awaiting_proof, assembling, complete, failed,
  corrupt, is_failed, is_corrupt, is_over, is_thrown, Sending, random_hash_size, Effect,
  get_map_hash, entry,
}
use micro_reticulum.Resource.Incoming.{
  Incoming, cancel, search, request_next, note_part, next_round, file_at, file_from, file_part,
  leading, slot_filled,
}
use micro_reticulum.Resource.Incoming.Parts.{filled, Counted, file_part-Counted, filled_all}
use micro_reticulum.Resource.Assembly.{check, assemble, receive_part}

abbrev is_complete : Status → Bool
is_complete complete = true
is_complete _ = false

-- The counts are kept by whatever keeps the slots.
same_slots :
    {r t : Incoming}
    → t.received_count ≡ r.received_count
    → t.completed ≡ r.completed
    → t.total_parts ≡ r.total_parts
    → t.parts ≡ r.parts
    → Counted r
    → Counted t
same_slots a b d e c = record {
  counts = a ∙ c.counts ∙ ap filled (sym e);
  leads = b ∙ c.leads ∙ ap leading (sym e);
  sizes = d ∙ c.sizes ∙ ap length (sym e);
}

-- A call that keeps the counts and the status.
record Goes (r : Incoming) (t : Incoming) : Type 0 where
  still : Counted r → Counted t
  still_open : is_complete t.status ≡ is_complete r.status

abbrev Runs : Incoming → Incoming × List Effect → Type 0
Runs r x = Goes r x.0

idle : (r : Incoming) → Goes r r
idle r = record { still = λ c. c; still_open = refl }

note_part-Goes : (now raw_size : ℕ) (r : Incoming) → Goes r (note_part now raw_size r)
unfolding note_part
note_part-Goes now raw_size r =
    if_both (Goes r) (r.req_resp == 0)
      (λ e. record { still = λ c. same_slots refl refl refl refl c; still_open = refl })
      (λ e. record { still = λ c. same_slots refl refl refl refl c; still_open = refl })

after : {r t u : Incoming} → Goes r t → Goes t u → Goes r u
after a b = record { still = λ c. b.still (a.still c); still_open = b.still_open ∙ a.still_open }

complete_over : (s : Status) → is_complete s ≡ true → is_over s ≡ true
complete_over complete e = refl
complete_over failed e = refl
complete_over corrupt e = refl
complete_over no_status e = cc
complete_over queued e = cc
complete_over advertised e = cc
complete_over transferring e = cc
complete_over awaiting_proof e = cc
complete_over assembling e = cc

over_not : (s : Status) → is_over s ≡ false → is_complete s ≡ false
over_not s e = elim (Bool-cases (is_complete s)) [
  | inl f ↦ absurd (cc (e, complete_over s f))
  | inr f ↦ f
]

cancel-Goes : (r : Incoming) → Runs r (cancel r)
unfolding cancel
cancel-Goes r =
    if_both (Runs r) (is_corrupt r.status) (λ e. idle r)
      (λ e.
        if_both (Runs r) (is_over r.status) (λ f. idle r)
          (λ f. record {
            still = λ c. same_slots refl refl refl refl c;
            still_open = sym (over_not r.status f);
          }))

request_next-Goes :
    (now raw_size : ℕ) (outcome : Sending) (r : Incoming)
    → Runs r (request_next now raw_size outcome r)
unfolding request_next
request_next-Goes now raw_size outcome r =
    let found = search r.hashmap r.parts r.window.window r.completed in
    let asking : Incoming = record r {
      outstanding_parts = length found.0;
      waiting_for_hmu = found.1;
    } in
    let first : Goes r asking = record {
      still = λ c. same_slots refl refl refl refl c;
      still_open = refl;
    } in
    if_both (Runs r) (is_failed r.status || r.waiting_for_hmu) (λ e. idle r)
      (λ e.
        if_both (Runs r) (is_thrown outcome) (λ f. after first (cancel-Goes asking))
          (λ f. record { still = λ c. same_slots refl refl refl refl c; still_open = refl }))

next_round-Goes :
    (now raw_size : ℕ) (outcome : Sending) (r : Incoming)
    → Runs r (next_round now raw_size outcome r)
unfolding next_round
next_round-Goes now raw_size outcome r =
    after
      (if_both (Goes r) (ltb 0 r.req_sent && ltb r.req_sent now)
        (λ e. record { still = λ c. same_slots refl refl refl refl c; still_open = refl })
        (λ e. record { still = λ c. same_slots refl refl refl refl c; still_open = refl }))
      (request_next-Goes now raw_size outcome _)

file_at-status :
    (part_hash part : Bytes) (j : ℕ) (r : Incoming) → (file_at part_hash part j r).status ≡ r.status
unfolding file_at
file_at-status part_hash part j r =
    if_both (λ (t : Incoming). t.status ≡ r.status)
      (same (entry r.hashmap j) part_hash && not (slot_filled r.parts j)) (λ e. refl) (λ e. refl)

file_from-status :
    (part_hash part : Bytes) (n j : ℕ) (r : Incoming)
    → (file_from part_hash part n j r).status ≡ r.status
unfolding file_from
file_from-status part_hash part zero j r = refl
file_from-status part_hash part (suc n) j r =
    file_from-status part_hash part n (suc j) (file_at part_hash part j r)
    ∙ file_at-status part_hash part j r

file_part-status :
    (part_hash part : Bytes) (r : Incoming) → (file_part part_hash part r).status ≡ r.status
unfolding file_part
file_part-status part_hash part r = file_from-status part_hash part _ _ r

failed_open : (s : Status) → is_failed s ≡ true → is_complete s ≡ false
failed_open failed e = refl
failed_open complete e = cc
failed_open corrupt e = refl
failed_open transferring e = refl
failed_open no_status e = refl
failed_open queued e = refl
failed_open advertised e = refl
failed_open awaiting_proof e = refl
failed_open assembling e = refl

all_there : (a b : Bool) → (a && b) ≡ true → a ≡ true
all_there true b e = refl
all_there false b e = cc

module _ (full_hash : Bytes → Bytes) where
  -- The counts are right, and if the transfer is complete then every slot is filled and the bytes
  -- have the hash of the resource.
  pub record IsSound (t : Incoming) : Type 0 where
    pub counted : Counted t
    pub assembled : t.status ≡ complete → leading t.parts ≡ length t.parts
    pub verified : t.status ≡ complete → full_hash (t.content ++ t.random_hash) ≡ t.hash

  abbrev Sound : Incoming × List Effect → Type 0
  Sound x = IsSound x.0

  unfinished : (t : Incoming) → Counted t → is_complete t.status ≡ false → IsSound t
  unfinished t c e = record {
    counted = c;
    assembled = λ f. absurd (cc (e, ap is_complete f));
    verified = λ f. absurd (cc (e, ap is_complete f));
  }

  check-Sound :
      (plaintext : Bytes) (r : Incoming)
      → Counted r
      → leading r.parts ≡ length r.parts
      → Sound (check full_hash plaintext r)
  unfolding check
  check-Sound plaintext r c all =
      if_both Sound (same (full_hash (mid plaintext random_hash_size ++ r.random_hash)) r.hash)
        (λ e. record {
          counted = same_slots refl refl refl refl c;
          assembled = λ f. all;
          verified = λ f. (same_iff _ _).0 e;
        })
        (λ e. unfinished _ (same_slots refl refl refl refl c) refl)

  assemble-Sound :
      (decrypt : Bytes → Bytes) (r : Incoming)
      → Counted r
      → leading r.parts ≡ length r.parts
      → is_complete r.status ≡ false
      → Sound (assemble full_hash decrypt r)
  unfolding assemble cancel
  assemble-Sound decrypt r c all open_still =
      if_both Sound (is_failed r.status) (λ e. unfinished r c open_still)
        (λ e.
          if_both Sound r.is_compressed (λ f. unfinished _ (same_slots refl refl refl refl c) refl)
            (λ f. check-Sound _ r c all))

  -- Whatever packet comes, the counts of a transfer are right behind it, and if it is complete then
  -- all of its parts are there and the assembled bytes have the advertised hash.
  pub receive_part-IsSound :
      (decrypt : Bytes → Bytes) (now raw_size next_size : ℕ) (outcome : Sending) (part : Bytes)
      (r : Incoming)
      → Counted r
      → IsSound (receive_part full_hash decrypt now raw_size next_size outcome part r).0
  unfolding receive_part
  receive_part-IsSound decrypt now raw_size next_size outcome part r c =
      let noted : Incoming = note_part now raw_size r in
      let n = note_part-Goes now raw_size r in
      let begun : Incoming = record noted { status = transferring } in
      let part_hash : Bytes = get_map_hash full_hash r.random_hash part in
      let filed : Incoming = file_part part_hash part begun in
      let kept : Counted filed =
        file_part-Counted part_hash part begun (same_slots refl refl refl refl (n.still c)) in
      let on : filed.status ≡ transferring = file_part-status part_hash part begun in
      if_both Sound (is_failed r.status)
        (λ e. unfinished noted (n.still c) (n.still_open ∙ failed_open r.status e))
        (λ e.
          if_both Sound (filed.received_count == filed.total_parts && not filed.assembly_lock)
            (λ f.
              assemble-Sound decrypt (record filed { assembly_lock = true })
                (same_slots refl refl refl refl kept)
                (filled_all filed.parts (
                  omega (
                    arith,
                    kept.counts,
                    kept.sizes,
                    (==_iff filed.received_count filed.total_parts).0 (
                        all_there (filed.received_count == filed.total_parts)
                          (not filed.assembly_lock) f),
                  )))
                (ap is_complete on))
            (λ f.
              if_both Sound (filed.outstanding_parts == 0)
                (λ g.
                  let round = next_round-Goes now next_size outcome filed in
                  unfinished _ (round.still kept) (round.still_open ∙ ap is_complete on))
                (λ g. unfinished filed kept (ap is_complete on))))
