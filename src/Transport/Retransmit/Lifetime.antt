-- ===== src/Transport/Retransmit/Lifetime.antt =====
-- src/microReticulum/Transport.cpp: how long an announce stays in the announce table, and what takes
-- it off.
use micro_reticulum.Prelude.{
  ℕ, suc, ◌+◌, ◌-◌, ◌<◌, ◌≡◌, refl, sym, subst, inl, inr, List, [], ◌∷◌, none, some, Bool, true,
  ◌&&◌, if◌then◌else◌, leb, Bool-cases, Option-cases, arith,
}
use micro_reticulum.Bytes.{Bytes}
use micro_reticulum.Transport.Retransmit.{
  AnnounceEntry, pathfinder_r, pathfinder_g, pathfinder_rw, visit, hear, Event, after_visit, step,
  run, visits, hears,
}

-- Each visit comes after the time that the entry waits for: first its own, and then 5.5 seconds
-- after the visit before.
abbrev pub Due : ℕ → List Event → Type 0
Due timeout [] = Unit {0}
Due timeout (hears now hops ∷ es) = Due timeout es
Due timeout (visits now recalled ∷ es) =
    (timeout < now) × Due (now + pathfinder_g + pathfinder_rw) es

abbrev pub visit_count : List Event → ℕ
visit_count [] = 0
visit_count (hears now hops ∷ es) = visit_count es
visit_count (visits now recalled ∷ es) = suc (visit_count es)

hear_kept :
    (now hops : ℕ) (e t : AnnounceEntry)
    → hear now hops e ≡ some t
    → (t.retries ≡ e.retries) × (t.retransmit_timeout ≡ e.retransmit_timeout)
unfolding hear
hear_kept now hops e t h = ground arith

visit_due :
    (identity_hash : Bytes) (now : ℕ) (recalled : Bool) (e : AnnounceEntry)
    → e.retransmit_timeout < now
    → (after_visit e (visit identity_hash now recalled e)).0 ≡ (
        if recalled && leb e.retries pathfinder_r
        then some (record e {
          retransmit_timeout = now + pathfinder_g + pathfinder_rw;
          retries = suc e.retries;
        })
        else none)
unfolding visit
visit_due identity_hash now recalled e late = ground arith

few_left :
    (recalled : Bool) (r : ℕ) → recalled && leb r pathfinder_r ≡ true → leb r pathfinder_r ≡ true
few_left recalled r h = ground arith

left_fewer :
    (r n : ℕ)
    → leb r pathfinder_r ≡ true
    → pathfinder_r + 1 - r < suc n
    → pathfinder_r + 1 - suc r < n
left_fewer r n some_left h = ground arith

-- An entry that is visited when due is gone after as many visits as it has sends left and one more:
-- three for an announce that has not been sent.
pub run-Due :
    (identity_hash : Bytes) (e : AnnounceEntry) (es : List Event)
    → Due e.retransmit_timeout es
    → pathfinder_r + 1 - e.retries < visit_count es
    → (run identity_hash (some e) es).0 ≡ none
unfolding run step
run-Due identity_hash e [] d few = absurd (omega arith)
run-Due identity_hash e (hears now hops ∷ es) d few = elim (Option-cases (hear now hops e)) [
  | inl gone ↦ rw (run, step, gone) refl
  | inr (t, k) ↦
      let (r, w) = hear_kept now hops e t k in
      rw (run, step, k)
        (run-Due identity_hash t es (subst (λ m. Due m es) (sym w) d) (omega (arith, r, few)))
]
run-Due identity_hash e (visits now recalled ∷ es) (late, d) few =
    let after = visit_due identity_hash now recalled e late in
    elim (Bool-cases (recalled && leb e.retries pathfinder_r)) [
      | inr done ↦ rw (run, step, after, done) refl
      | inl again ↦
          rw (run, step, after, again)
            (run-Due identity_hash _ es d
              (left_fewer e.retries (visit_count es) (few_left recalled e.retries again) few))
    ]
