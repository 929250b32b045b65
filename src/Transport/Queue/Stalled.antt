-- ===== src/Transport/Queue/Stalled.antt =====
-- src/microReticulum/Transport.cpp: an interface whose queue has an announce.
use micro_reticulum.Prelude.{
  ℕ, ◌≡◌, refl, sym, subst, ap, ◌∙◌, List, [], ◌∷◌, none, Bool, true, false, ◌&&◌, if◌then◌else◌,
  ltb, length, if_both,
}
use micro_reticulum.Bytes.{same}
use micro_reticulum.Transport.Queue.{Queued, Outlet, Relayed, is_empty, enqueue, offer}

-- The announces that are transmitted, in order, and the interface afterwards.
unfoldable pub run : (limit : ℕ) → List Relayed → Outlet → Outlet × List Relayed
run limit [] o = (o, [])
run limit (a ∷ rest) o =
    let (next, sends) = offer limit a o in
    let (last, sent) = run limit rest next in (last, if sends then a ∷ sent else sent)

-- Announces of other nodes without an attached interface.
pub data AllRelayed : List Relayed → Type 0 where
  none_left : AllRelayed []
  one_more :
      {a : Relayed} {rest : List Relayed}
      → a.attached ≡ none
      → ltb 0 a.hops ≡ true
      → AllRelayed rest
      → AllRelayed (a ∷ rest)

enqueue-is_empty : (a : Relayed) (q : List Queued) → is_empty (enqueue a q) ≡ false
unfolding enqueue
enqueue-is_empty a [] = refl
enqueue-is_empty a (x ∷ xs) =
    if_both (λ z. is_empty z ≡ false) (same x.destination a.destination_hash) (λ e. refl)
      (λ e. refl)

-- An offer that is not transmitted and leaves a queue.
record Holds (r : Outlet × Bool) : Type 0 where
  is_held : r.1 ≡ false
  is_queued : is_empty r.0.announce_queue ≡ false

offer-Holds :
    (limit : ℕ) (a : Relayed) (o : Outlet)
    → a.attached ≡ none
    → ltb 0 a.hops ≡ true
    → is_empty o.announce_queue ≡ false
    → Holds (offer limit a o)
unfolding offer
offer-Holds limit a o free far waiting =
    let kept : (is_empty o.announce_queue && ltb o.announce_allowed_at a.outbound_time) ≡ false =
      rw waiting refl in
    let opened : offer limit a o ≡ (
        if ltb (length o.announce_queue) limit
        then (record o { announce_queue = enqueue a o.announce_queue }, false)
        else (o, false)) =
      simp (offer, free, far, kept) refl in
    subst Holds (sym opened) (
      if_both Holds (ltb (length o.announce_queue) limit)
        (λ e. record { is_held = refl; is_queued = enqueue-is_empty a o.announce_queue })
        (λ e. record { is_held = refl; is_queued = waiting }))

-- Once the queue of an interface has an announce, `outbound` transmits none of the announces of
-- other nodes without an attached interface that follow, whatever their number and times, as long
-- as nothing but these calls changes the queue; and the queue is not empty behind them.
pub run-stalled :
    (limit : ℕ) (offers : List Relayed) (o : Outlet)
    → is_empty o.announce_queue ≡ false
    → AllRelayed offers
    → ((run limit offers o).1 ≡ []) × (is_empty (run limit offers o).0.announce_queue ≡ false)
unfolding run
run-stalled limit [] o waiting all = (refl, waiting)
run-stalled limit (a ∷ rest) o waiting (one_more free far others) =
    let w = offer-Holds limit a o free far waiting in
    let (silent, left) = run-stalled limit rest (offer limit a o).0 w.is_queued others in
    (
      ap
            (λ b.
              if b
              then a ∷ (run limit rest (offer limit a o).0).1
              else (run limit rest (offer limit a o).0).1)
            w.is_held
          ∙ silent,
      left,
    )
