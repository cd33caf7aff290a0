-- ===== src/Events/Feed.antt =====
-- The events that the feed shows.
use audio_server.Common.{
  Bool, Bool-cases, List, [], ap, arith, false, if◌then◌else◌, inl, inr, length, length-take-le,
  not, refl, take, take-take_cons, true, ℕ, ◌∙◌, ◌∷◌, ◌≡◌, ◌≤◌,
}
use audio_server.Events.{
  Input, Page, Reach, connect, event, framed, history_end, malformed, next, on_frame, push,
  socket_closed, socket_errored, socket_opened, start, step, ticket_failed, ticket_given,
  timer_fired, unmounted,
}

module _ {R : Type 0} where
  -- Whether the page has not been unmounted, by its history.
  abbrev pub is_mounted : List (Input R) → Bool
  is_mounted [] = true
  is_mounted (unmounted ∷ inputs) = false
  is_mounted (_ ∷ inputs) = is_mounted inputs

  -- All events that the page has received while it was mounted, the latest first.
  abbrev pub received : List (Input R) → List (R × ℕ)
  received [] = []
  received (framed (event raw) now ∷ inputs) =
      let earlier = received inputs in if is_mounted inputs then (raw, now) ∷ earlier else earlier
  received (_ ∷ inputs) = received inputs

  step-cancelled :
      (i : Input R) (inputs : List (Input R)) (p : Page R)
      → p.cancelled ≡ not (is_mounted inputs)
      → (step i p).cancelled ≡ not (is_mounted (i ∷ inputs))
  unfolding step connect on_frame
  step-cancelled (framed malformed now) inputs p h = ground arith
  step-cancelled (framed history_end now) inputs p h = ground arith
  step-cancelled (framed (event raw) now) inputs p h = ground arith
  step-cancelled unmounted inputs p h = refl
  step-cancelled ticket_failed inputs p h = h
  step-cancelled ticket_given inputs p h = ground arith
  step-cancelled socket_opened inputs p h = ground arith
  step-cancelled socket_errored inputs p h = ground arith
  step-cancelled socket_closed inputs p h = ground arith
  step-cancelled timer_fired inputs p h = ground arith

  Reach-cancelled :
      {inputs : List (Input R)} {p : Page R}
      → Reach inputs p
      → p.cancelled ≡ not (is_mounted inputs)
  unfolding connect
  Reach-cancelled start = refl
  Reach-cancelled (next {inputs = is} r i h) = step-cancelled i is _ (Reach-cancelled r)

  push-take : (x : R × ℕ) (xs : List (R × ℕ)) → push x (take 500 xs) ≡ take 500 (x ∷ xs)
  unfolding push
  push-take x xs = take-take_cons 499 x xs

  step-events :
      (i : Input R) (inputs : List (Input R)) (p : Page R)
      → p.cancelled ≡ not (is_mounted inputs)
      → p.events ≡ take 500 (received inputs)
      → (step i p).events ≡ take 500 (received (i ∷ inputs))
  unfolding step connect on_frame
  step-events (framed malformed now) inputs p c h = ground arith
  step-events (framed history_end now) inputs p c h = ground arith
  step-events (framed (event raw) now) inputs p c h = elim (Bool-cases (is_mounted inputs)) [
    | inl m ↦
        let alive : p.cancelled ≡ false = rw (c, m) in
        rw (m, alive) (ap (λ l. push (raw, now) l) h ∙ push-take (raw, now) (received inputs))
    | inr m ↦ let over : p.cancelled ≡ true = rw (c, m) in rw (m, over) h
  ]
  step-events unmounted inputs p c h = h
  step-events ticket_failed inputs p c h = h
  step-events ticket_given inputs p c h = ground arith
  step-events socket_opened inputs p c h = ground arith
  step-events socket_errored inputs p c h = ground arith
  step-events socket_closed inputs p c h = ground arith
  step-events timer_fired inputs p c h = ground arith

  Reach-events :
      {inputs : List (Input R)} {p : Page R}
      → Reach inputs p
      → p.events ≡ take 500 (received inputs)
  unfolding connect
  Reach-events start = refl
  Reach-events (next {inputs = is} r i h) = step-events i is _ (Reach-cancelled r) (Reach-events r)

  -- Over all its connections the page shows exactly the latest 500 of the events that it has received
  -- while it was mounted, the latest first.
  pub events-received :
      {inputs : List (Input R)} {p : Page R}
      → Reach inputs p
      → (p.events ≡ take 500 (received inputs)) × (length p.events ≤ 500)
  events-received r = let e = Reach-events r in (e, rw e (length-take-le 500 _))
