-- ===== src/Events/Invariant.antt =====
-- The connection of the feed of events.
use audio_server.Common.{List, arith, false, refl, true, ℕ, ◌+◌, ◌≡◌, ◌≢◌, ◌≤◌}
use audio_server.Events.{
  CanHappen, Input, Page, Reach, connect, error, event, framed, history_end, malformed, mounted,
  next, on_frame, socket_closed, socket_errored, socket_opened, start, step, ticket_failed,
  ticket_given, timer_fired, unmounted,
}

module _ {R : Type 0} where
  -- The callbacks that are still to come.
  abbrev pub outstanding : Page R → ℕ
  outstanding p = p.fetching + p.sockets + p.timers

  pub record IsSingle (p : Page R) : Type 0 where
    pub at_most : outstanding p ≤ 1
    pub at_work : p.cancelled ≡ false → p.conn ≢ error → outstanding p ≡ 1
    pub stopped : p.cancelled ≡ false → p.conn ≡ error → outstanding p ≡ 0
    pub cleared : p.cancelled ≡ true → p.timers ≡ 0

  step-IsSingle : (i : Input R) (p : Page R) → CanHappen i p → IsSingle p → IsSingle (step i p)
  unfolding step connect on_frame
  step-IsSingle (framed malformed now) p h s = ground arith
  step-IsSingle (framed history_end now) p h s = ground arith
  step-IsSingle (framed (event raw) now) p h s = ground arith
  step-IsSingle i p h s = ground arith

  mounted-IsSingle : IsSingle (mounted {R = R})
  unfolding connect
  mounted-IsSingle = ground arith

  pub Reach-IsSingle : {inputs : List (Input R)} {p : Page R} → Reach inputs p → IsSingle p
  Reach-IsSingle start = mounted-IsSingle
  Reach-IsSingle (next r i h) = step-IsSingle i _ h (Reach-IsSingle r)

  pub only_unmounted :
      (p : Page R) → outstanding p ≡ 0 → (i : Input R) → CanHappen i p → i ≡ unmounted
  only_unmounted p none_left unmounted h = refl
  only_unmounted p none_left ticket_failed h = absurd (omega arith)
  only_unmounted p none_left ticket_given h = absurd (omega arith)
  only_unmounted p none_left socket_opened h = absurd (omega arith)
  only_unmounted p none_left socket_errored h = absurd (omega arith)
  only_unmounted p none_left socket_closed h = absurd (omega arith)
  only_unmounted p none_left timer_fired h = absurd (omega arith)
  only_unmounted p none_left (framed f now) h = absurd (omega arith)

  step_quiet :
      (i : Input R) (p : Page R)
      → CanHappen i p
      → p.cancelled ≡ true
      → (outstanding (step i p) ≤ outstanding p) × ((step i p).events ≡ p.events)
  unfolding step
  step_quiet (framed f now) p h over = ground arith
  step_quiet i p h over = ground arith

  -- Whatever has happened to a page that is still mounted, exactly one ticket request, socket or timer
  -- is under way, so it never has two sockets; the one exception is a page in the error state, which
  -- has none and to which only its end can happen: it never tries to connect again.
  pub one_connection :
      {inputs : List (Input R)} {p : Page R}
      → Reach inputs p
      → p.cancelled ≡ false
      → (p.conn ≢ error → outstanding p ≡ 1)
        × (p.conn ≡ error → (outstanding p ≡ 0) × ((i : Input R) → CanHappen i p → i ≡ unmounted))
  one_connection r alive =
      let s = Reach-IsSingle r in
      (s.at_work alive, λ e. (s.stopped alive e, only_unmounted _ (s.stopped alive e)))

  -- From its end on a page does nothing of itself: no timer is left, and no input lets the number of
  -- its requests and sockets grow or changes its events.
  unmounted_quiet :
      {inputs : List (Input R)} {p : Page R}
      → Reach inputs p
      → p.cancelled ≡ true
      → (p.timers ≡ 0)
        × ((i : Input R)
            → CanHappen i p
            → (outstanding (step i p) ≤ outstanding p) × ((step i p).events ≡ p.events))
  unmounted_quiet r over = ((Reach-IsSingle r).cleared over, λ i h. step_quiet i _ h over)
