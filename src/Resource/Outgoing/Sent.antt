-- ===== src/Resource/Outgoing/Sent.antt =====
-- src/microReticulum/Resource.cpp, the sending end: which parts have been sent, and how long it
-- waits.
use micro_reticulum.Prelude.{
  ℕ, zero, suc, ◌+◌, ◌-◌, ◌/◌, ◌%◌, ◌<◌, ◌≡◌, refl, sym, ap, ◌∙◌, subst, inl, inr, ◌⊎◌, List, [],
  ◌∷◌, Option, none, some, Bool, true, false, ◌||◌, ◌&&◌, not, if◌then◌else◌, ltb, ◌==◌, length,
  get_elem?, get_or, set, min, if_both, Bool-cases, ==_iff, arith,
}
use micro_reticulum.Bytes.{Bytes, mid, mid_len}
use micro_reticulum.Resource.{
  Status, no_status, queued, advertised, transferring, awaiting_proof, assembling, complete, failed,
  corrupt, is_failed, is_over, maphash_len, hash_bytes, max_retries, hashmap_max_len,
  hashmap_is_exhausted, Effect, Sending, went, refused, thrown, is_went, is_thrown, entry,
}
use micro_reticulum.Resource.Outgoing.{
  Part, Outgoing, collision_guard_size, cancel_outgoing, split_hashes, is_among, send_slot,
  send_parts, behind, send_hashmap, then_await, request_parts, tick_in, tick,
}

unfoldable pub count_sent : List Part → ℕ
count_sent [] = 0
count_sent (p ∷ ps) = if p.is_sent then suc (count_sent ps) else count_sent ps

count_sent-set :
    (ps : List Part) (i : ℕ) (p : Part)
    → get_elem? ps i ≡ some p
    → count_sent (set ps i (record p { is_sent = true }))
      ≡ (if p.is_sent then count_sent ps else suc (count_sent ps))
unfolding count_sent
count_sent-set [] i p h = absurd (cc h)
count_sent-set (q ∷ ps) zero p h =
    let same : q ≡ p = ap (λ (o : Option Part). elim o [ none ↦ q | some x ↦ x ]) h in
    subst
      (λ (x : Part). suc (count_sent ps) ≡ (
        if x.is_sent
        then if q.is_sent then suc (count_sent ps) else count_sent ps
        else suc (if q.is_sent then suc (count_sent ps) else count_sent ps)))
      same (elim (Bool-cases q.is_sent) [ inl e ↦ rw e refl | inr e ↦ rw e refl ])
count_sent-set (q ∷ ps) (suc i) p h =
    let rest = count_sent-set ps i p h in
    elim (Bool-cases q.is_sent) [
      | inl e ↦ elim (Bool-cases p.is_sent) [
        | inl f ↦ rw (e, f) (ap suc (rw f at rest))
        | inr f ↦ rw (e, f) (ap suc (rw f at rest))
      ]
      | inr e ↦ elim (Bool-cases p.is_sent) [
        | inl f ↦ rw (e, f) (rw f at rest)
        | inr f ↦ rw (e, f) (rw f at rest)
      ]
    ]

length-set : (ps : List Part) (i : ℕ) (p : Part) → length (set ps i p) ≡ length ps
length-set [] i p = refl
length-set (q ∷ ps) zero p = refl
length-set (q ∷ ps) (suc i) p = ap suc (length-set ps i p)

-- The counter says how many parts have been sent, and a resource that awaits its proof has sent
-- all.
pub record IsTracked (o : Outgoing) : Type 0 where
  pub tracked : o.sent_parts ≡ count_sent o.parts
  pub awaits : o.status ≡ awaiting_proof → o.sent_parts ≡ length o.parts

abbrev is_awaiting : Status → Bool
is_awaiting awaiting_proof = true
is_awaiting _ = false

-- A call that keeps the counter right, and does not begin to await the proof.
record Sends (o t : Outgoing) : Type 0 where
  keeps : o.sent_parts ≡ count_sent o.parts → t.sent_parts ≡ count_sent t.parts
  waits : is_awaiting o.status ≡ false → is_awaiting t.status ≡ false

idle : (o : Outgoing) → Sends o o
idle o = record { keeps = λ c. c; waits = λ e. e }

chained : {o t u : Outgoing} → Sends o t → Sends t u → Sends o u
chained a b = record { keeps = λ c. b.keeps (a.keeps c); waits = λ e. b.waits (a.waits e) }

abbrev Kept : Outgoing → Outgoing × List Effect × Bool → Type 0
Kept o x = Sends o x.0

-- A packet that some interface takes, unless there is an exception.
abbrev pub is_taken : Sending → Bool
is_taken refused = false
is_taken _ = true

cancel_outgoing-Sends :
    (link_active : Bool) (o : Outgoing) → Sends o (cancel_outgoing link_active o).0
unfolding cancel_outgoing
cancel_outgoing-Sends link_active o =
    if_both (λ (x : Outgoing × List Effect). Sends o x.0) (is_over o.status) (λ e. idle o)
      (λ e. record { keeps = λ c. c; waits = λ f. refl })

went_or_thrown : (s : Sending) → is_taken s ≡ true → is_thrown s ≡ false → is_went s ≡ true
went_or_thrown went taken e = refl
went_or_thrown refused taken e = cc
went_or_thrown thrown taken e = cc

send_slot-Sends :
    (now i : ℕ) (link_active : Bool) (outcome : Sending) (o : Outgoing) (g : Option Part)
    → is_taken outcome ≡ true
    → get_elem? o.parts i ≡ g
    → Kept o (send_slot now i link_active outcome o g)
unfolding send_slot
send_slot-Sends now i link_active outcome o none taken e = idle o
send_slot-Sends now i link_active outcome o (some p) taken e =
    if_both (Kept o) (is_thrown outcome) (λ t. cancel_outgoing-Sends link_active o)
      (λ t.
        let marked : Bool → ℕ = λ b. count_sent (set o.parts i (record p { is_sent = b })) in
        record {
          keeps = λ c.
              let counted : (if p.is_sent then o.sent_parts else suc o.sent_parts) ≡ marked true =
                elim (Bool-cases p.is_sent) [
                  | inl f ↦ rw f c ∙ sym (rw f at (count_sent-set o.parts i p e))
                  | inr f ↦ rw f (ap suc c) ∙ sym (rw f at (count_sent-set o.parts i p e))
                ] in
              counted ∙ ap marked (sym (went_or_thrown outcome taken t));
          waits = λ f. f;
        })

send_parts-Sends :
    (now : ℕ) (link_active : Bool) (outcomes : ℕ → Sending) (requested : List Bytes) (n i : ℕ)
    (o : Outgoing)
    → ((j : ℕ) → is_taken (outcomes j) ≡ true)
    → Kept o (send_parts now link_active outcomes requested n i o)
unfolding send_parts
send_parts-Sends now link_active outcomes requested zero i o taken = idle o
send_parts-Sends now link_active outcomes requested (suc n) i o taken =
    let first : Outgoing × List Effect × Bool =
      if is_among (entry o.hashmap i) requested
      then send_slot now i link_active (outcomes i) o (get_elem? o.parts i)
      else (o, [], true) in
    let one : Kept o first =
      if_both (Kept o) (is_among (entry o.hashmap i) requested)
        (λ e. send_slot-Sends now i link_active (outcomes i) o (get_elem? o.parts i) (taken i) refl)
        (λ e. idle o) in
    if_both (Kept o) first.2
      (λ e.
        chained one (send_parts-Sends now link_active outcomes requested n (suc i) first.0 taken))
      (λ e. one)

send_hashmap-Sends :
    (now : ℕ) (link_active : Bool) (outcome : Sending) (b : Bytes) (n : ℕ) (o : Outgoing)
    → Kept o (send_hashmap now link_active outcome b n o)
unfolding send_hashmap
send_hashmap-Sends now link_active outcome b n o =
    let part_index : ℕ = behind o.hashmap b n o.receiver_min_consecutive_height in
    let seen : Outgoing = record o { receiver_min_consecutive_height = part_index - 1 - 75 } in
    let first : Sends o seen = record { keeps = λ c. c; waits = λ e. e } in
    if_both (Kept o) (part_index % hashmap_max_len == 0 && not (is_thrown outcome))
      (λ e. record { keeps = λ c. c; waits = λ f. f })
      (λ e. chained first (cancel_outgoing-Sends link_active seen))

then_await-IsTracked :
    (o : Outgoing)
    → o.sent_parts ≡ count_sent o.parts
    → is_awaiting o.status ≡ false
    → IsTracked (then_await o)
then_await-IsTracked o c e =
    if_both IsTracked (o.sent_parts == length o.parts)
      (λ f. record { tracked = c; awaits = λ g. (==_iff o.sent_parts (length o.parts)).0 f })
      (λ f. record { tracked = c; awaits = λ g. absurd (cc (e, ap is_awaiting g)) })

-- Whatever a receiver asks for, and wherever an exception ends it, the sender's counter stays the
-- number of parts that it has sent, and it awaits the proof only when that is all of them, provided
-- that some interface takes each part that is sent.
pub request_parts-IsTracked :
    (now : ℕ) (link_active : Bool) (outcomes : ℕ → Sending) (outcome : Sending)
    (request_data : Bytes) (o : Outgoing)
    → ((j : ℕ) → is_taken (outcomes j) ≡ true)
    → IsTracked o
    → IsTracked (request_parts now link_active outcomes outcome request_data o).0
unfolding request_parts
request_parts-IsTracked now link_active outcomes outcome request_data o taken w =
    let begun : Outgoing = record o {
      rtt = if o.rtt == 0 then now - o.adv_sent else o.rtt;
      status = transferring;
      retries_left = max_retries;
    } in
    let wants_more : Bool = get_or request_data 0 0 == hashmap_is_exhausted in
    let pad : ℕ = if wants_more then 1 + maphash_len else 1 in
    let hashes : Bytes = mid request_data (pad + hash_bytes) in
    let requested = split_hashes hashes (length hashes / maphash_len) 0 in
    let start = o.receiver_min_consecutive_height in
    let n = min (start + collision_guard_size) (length o.parts) - start in
    let sent : Outgoing = (send_parts now link_active outcomes requested n start begun).0 in
    let s = send_parts-Sends now link_active outcomes requested n start begun taken in
    let last_hash = mid_len request_data 1 maphash_len in
    let told : Outgoing = (send_hashmap now link_active outcome last_hash n sent).0 in
    let t = chained s (send_hashmap-Sends now link_active outcome last_hash n sent) in
    let P : Outgoing × List Effect → Type 0 = λ x. IsTracked x.0 in
    if_both P (is_failed o.status || length request_data == 0) (λ e. w)
      (λ e.
        if_both P (ltb (length request_data) (pad + hash_bytes))
          (λ f. record { tracked = w.tracked; awaits = λ g. absurd (cc g) })
          (λ f.
            if_both P (not (send_parts now link_active outcomes requested n start begun).2)
              (λ i. record {
                tracked = s.keeps w.tracked;
                awaits = λ j. absurd (cc (s.waits refl, ap is_awaiting j));
              })
              (λ h.
                if_both P wants_more
                  (λ g.
                    if_both IsTracked (send_hashmap now link_active outcome last_hash n sent).2
                      (λ i. then_await-IsTracked told (t.keeps w.tracked) (t.waits refl))
                      (λ i. record {
                        tracked = t.keeps w.tracked;
                        awaits = λ j. absurd (cc (t.waits refl, ap is_awaiting j));
                      }))
                  (λ g. then_await-IsTracked sent (s.keeps w.tracked) (s.waits refl)))))

-- Ticks of the watchdog, each at its time, with the link active or not, and with what becomes of an
-- advertisement, that find the time of the
-- transfer over.
unfoldable pub ticks : List (ℕ × Bool × Sending) → Outgoing → Outgoing
ticks [] o = o
ticks ((now, link_active, outcome) ∷ ts) o = ticks ts (tick now link_active outcome o).0

-- What waits for the other end.
abbrev pub is_waiting : Status → Bool
is_waiting advertised = true
is_waiting transferring = true
is_waiting awaiting_proof = true
is_waiting _ = false

cancelled :
    (link_active : Bool) (o : Outgoing)
    → is_over o.status ≡ false
    → (cancel_outgoing link_active o).0.status ≡ failed
unfolding cancel_outgoing
cancelled link_active o e =
    if_both (λ (x : Outgoing × List Effect). x.0.status ≡ failed) (is_over o.status)
      (λ f. absurd (cc (e, f))) (λ f. refl)

-- A tick ends the transfer or uses up a retry.
abbrev Ticked : Outgoing → Outgoing × List Effect → Type 0
Ticked o x =
    (x.0.status ≡ failed) ⊎ ((x.0.status ≡ o.status) × (suc x.0.retries_left ≡ o.retries_left))

tick_in-Ticked :
    (now : ℕ) (link_active : Bool) (outcome : Sending) (o : Outgoing) (s : Status)
    → o.status ≡ s
    → is_waiting s ≡ true
    → Ticked o (tick_in now link_active outcome o s)
unfolding tick_in
tick_in-Ticked now link_active outcome o advertised e w =
    let less : Outgoing = record o { retries_left = o.retries_left - 1 } in
    if_both (Ticked o) (o.retries_left == 0) (λ f. inl (cancelled link_active o (ap is_over e)))
      (λ f.
        if_both (Ticked o) (is_thrown outcome)
          (λ g. inl (cancelled link_active less (ap is_over e))) (λ g. inr (refl, ground arith)))
tick_in-Ticked now link_active outcome o transferring e w =
    inl (cancelled link_active o (ap is_over e))
tick_in-Ticked now link_active outcome o awaiting_proof e w =
    if_both (Ticked o) (o.retries_left == 0) (λ f. inl (cancelled link_active o (ap is_over e)))
      (λ f. inr (refl, ground arith))
tick_in-Ticked now link_active outcome o no_status e w = cc
tick_in-Ticked now link_active outcome o queued e w = cc
tick_in-Ticked now link_active outcome o assembling e w = cc
tick_in-Ticked now link_active outcome o complete e w = cc
tick_in-Ticked now link_active outcome o failed e w = cc
tick_in-Ticked now link_active outcome o corrupt e w = cc

ticks_failed :
    (ts : List (ℕ × Bool × Sending)) (o : Outgoing)
    → o.status ≡ failed
    → (ticks ts o).status ≡ failed
unfolding ticks tick_in
ticks_failed [] o e = e
ticks_failed ((now, link_active, outcome) ∷ ts) o e =
    let stays : tick now link_active outcome o ≡ (o, []) =
      ap (tick_in now link_active outcome o) e in
    ticks_failed ts (tick now link_active outcome o).0
      (ap (λ (x : Outgoing × List Effect). x.0.status) stays ∙ e)

-- A sender does not wait for ever: one that waits for a request, for more of them or for a proof
-- has failed behind more expired ticks than it has retries left.
pub ticks-failed :
    (ts : List (ℕ × Bool × Sending)) (o : Outgoing)
    → is_waiting o.status ≡ true
    → o.retries_left < length ts
    → (ticks ts o).status ≡ failed
unfolding ticks
ticks-failed [] o w h = absurd (omega arith)
ticks-failed ((now, link_active, outcome) ∷ ts) o w h =
    elim (tick_in-Ticked now link_active outcome o o.status refl w) [
      | inl e ↦ ticks_failed ts (tick now link_active outcome o).0 e
      | inr (e, f) ↦
          ticks-failed ts (tick now link_active outcome o).0 (ap is_waiting e ∙ w)
            (omega (arith, f))
    ]
