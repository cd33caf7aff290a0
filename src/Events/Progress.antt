-- ===== src/Events/Progress.antt =====
-- How a page of the feed comes to a live connection.
use mathlib.Core.Path.{subst}
use native.Mathlib.Decide.{dec_lt}
use audio_server.Common.{List, [], arith, false, length, sym, ℕ, ◌<◌, ◌∷◌, ◌≡◌, ◌≢◌, ◌≤◌}
use audio_server.Events.{
  CanHappen, Input, Page, Reach, connect, error, live, socket_opened, step, ticket_given,
  timer_fired, unmounted,
}
use audio_server.Events.Invariant.{Reach-IsSingle, only_unmounted, outstanding}

module _ {R : Type 0} where
  -- What may happen to a page from now on, the earliest first.
  pub data Leads : Page R → List (Input R) → Page R → Type 0 where
    stays : {p : Page R} → Leads p [] p
    then :
        {p q : Page R} {inputs : List (Input R)}
        → (i : Input R) → CanHappen i p
        → Leads (step i p) inputs q
        → Leads p (i ∷ inputs) q

  -- A way to a live connection that takes at most `n` inputs.
  pub record ComesLive (n : ℕ) (p : Page R) : Type 0 where
    pub inputs : List (Input R)
    pub few : length inputs ≤ n
    pub q : Page R
    pub leads : Leads p inputs q
    pub is_live : q.conn ≡ live

  by_socket : (p : Page R) → p.cancelled ≡ false → 0 < p.sockets → ComesLive 1 p
  unfolding step
  by_socket p alive h = record {
    inputs = socket_opened ∷ [];
    few = omega arith;
    q = step socket_opened p;
    leads = then socket_opened h stays;
    is_live = ground arith;
  }

  by_ticket : (p : Page R) → p.cancelled ≡ false → 0 < p.fetching → ComesLive 2 p
  unfolding step
  by_ticket p alive h =
      let w = by_socket (step ticket_given p) (ground arith) (ground arith) in
      record {
        inputs = ticket_given ∷ w.inputs;
        few = omega (arith, w.few);
        q = w.q;
        leads = then ticket_given h w.leads;
        is_live = w.is_live;
      }

  by_timer : (p : Page R) → p.cancelled ≡ false → 0 < p.timers → ComesLive 3 p
  unfolding step connect
  by_timer p alive h =
      let w = by_ticket (step timer_fired p) (ground arith) (ground arith) in
      record {
        inputs = timer_fired ∷ w.inputs;
        few = omega (arith, w.few);
        q = w.q;
        leads = then timer_fired h w.leads;
        is_live = w.is_live;
      }

  within : (m : ℕ) (p : Page R) → m ≤ 3 → ComesLive m p → ComesLive 3 p
  within m p h w = record {
    inputs = w.inputs;
    few = omega (arith, w.few);
    q = w.q;
    leads = w.leads;
    is_live = w.is_live;
  }

  one_left : (p : Page R) → p.cancelled ≡ false → outstanding p ≡ 1 → ComesLive 3 p
  one_left p alive h = elim (dec_lt 0 p.sockets) [
    | yes open_socket ↦ within 1 p (omega arith) (by_socket p alive open_socket)
    | no no_socket ↦ elim (dec_lt 0 p.fetching) [
      | yes asked ↦ within 2 p (omega arith) (by_ticket p alive asked)
      | no not_asked ↦ by_timer p alive (omega arith)
    ]
  ]

  -- A page that has given up.
  pub record IsStuck (p : Page R) : Type 0 where
    pub failed : p.conn ≡ error
    pub nothing_left : outstanding p ≡ 0

  unmounted-IsStuck : (p : Page R) → IsStuck p → IsStuck (step unmounted p)
  unfolding step
  unmounted-IsStuck p h = record { failed = h.failed; nothing_left = omega (arith, h.nothing_left) }

  Leads-IsStuck :
      {p q : Page R} {inputs : List (Input R)} → Leads p inputs q → IsStuck p → IsStuck q
  Leads-IsStuck stays h = h
  Leads-IsStuck (then {p = p} i can rest) h = Leads-IsStuck rest (
      subst (λ x. IsStuck (step x p)) (sym (only_unmounted p h.nothing_left i can))
        (unmounted-IsStuck p h))

  -- Whatever has happened to a page that is still mounted, it can come to a live connection unless it
  -- is in the error state, and then by three inputs at most: the timer, the ticket and the socket. From
  -- the error state nothing that can happen leads to one.
  pub comes_live :
      {inputs : List (Input R)} {p : Page R}
      → Reach inputs p
      → p.cancelled ≡ false
      → (p.conn ≢ error → ComesLive 3 p) × ((n : ℕ) → ComesLive n p → p.conn ≢ error)
  comes_live {p = p} r alive =
      let s = Reach-IsSingle r in
      (
        λ working. one_left p alive (s.at_work alive working),
        λ n way failed.
            let stuck : IsStuck way.q =
              Leads-IsStuck way.leads
                (record { failed = failed; nothing_left = s.stopped alive failed }) in
            cc (way.is_live, stuck.failed),
      )
