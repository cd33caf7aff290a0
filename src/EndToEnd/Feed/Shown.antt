-- ===== src/EndToEnd/Feed/Shown.antt =====
-- What the feed of events shows over all its connections.
use mathlib.Core.List.{append-nil, append_assoc, map-append, reverse-cons, reverse-reverse}
use audio_server.Common.{
  List, [], ap, arith, length, length-append, map, refl, reverse, suc, sym, take, true, zero, ℕ,
  ◌+◌, ◌++◌, ◌∙◌, ◌∷◌, ◌≡◌,
}
use audio_server.Events.{
  Frame, Input, Page, Reach, event, framed, history_end, malformed, socket_closed, socket_errored,
  socket_opened, ticket_failed, ticket_given, timer_fired, unmounted,
}
use audio_server.Events.Feed.{events-received, is_mounted, received}
use audio_server.Backend.AdminSession.{
  AdminFrame, Command, admin_loop, admin_ws_session, lpush, ltrim, published, publish, recent, sent,
  text,
}
use audio_server.Backend.AdminSession
use audio_server.EndToEnd.Feed.{
  Connection, all_frames, backwards, events_of, framed_part, session_of, told,
}

module _ {R : Type 0} where
  events_of-append : (xs ys : List (Frame R)) → events_of (xs ++ ys) ≡ events_of xs ++ events_of ys
  unfolding events_of
  events_of-append [] ys = refl
  events_of-append (event raw ∷ xs) ys = ap (λ l. raw ∷ l) (events_of-append xs ys)
  events_of-append (history_end ∷ xs) ys = events_of-append xs ys
  events_of-append (malformed ∷ xs) ys = events_of-append xs ys

  received-framed_part :
      (inputs : List (Input R))
      → is_mounted inputs ≡ true
      → map (λ (e : R × ℕ). e.0) (received inputs) ≡ events_of (framed_part inputs)
  unfolding events_of framed_part
  received-framed_part [] h = refl
  received-framed_part (framed (event raw) now ∷ inputs) h =
      rw h (ap (λ l. raw ∷ l) (received-framed_part inputs h))
  received-framed_part (framed history_end now ∷ inputs) h = received-framed_part inputs h
  received-framed_part (framed malformed now ∷ inputs) h = received-framed_part inputs h
  received-framed_part (unmounted ∷ inputs) h = absurd (ground arith)
  received-framed_part (ticket_failed ∷ inputs) h = received-framed_part inputs h
  received-framed_part (ticket_given ∷ inputs) h = received-framed_part inputs h
  received-framed_part (socket_opened ∷ inputs) h = received-framed_part inputs h
  received-framed_part (socket_errored ∷ inputs) h = received-framed_part inputs h
  received-framed_part (socket_closed ∷ inputs) h = received-framed_part inputs h
  received-framed_part (timer_fired ∷ inputs) h = received-framed_part inputs h

module _ {A : Type 0} where
  take-all : (l : List A) (n : ℕ) → length l ≡ n → take n l ≡ l
  take-all [] zero h = refl
  take-all [] (suc n) h = refl
  take-all (x ∷ xs) zero h = absurd (omega arith)
  take-all (x ∷ xs) (suc n) h = ap (λ l. x ∷ l) (take-all xs n (omega arith))

  length-reverse : (l : List A) → length (reverse l) ≡ length l
  length-reverse [] = refl
  length-reverse (x ∷ xs) =
      ap length (reverse-cons x xs)
      ∙ length-append (reverse xs) (x ∷ [])
      ∙ omega (arith, length-reverse xs)

module _ {A B : Type 0} (f : A → B) where
  map-take : (n : ℕ) (l : List A) → map f (take n l) ≡ take n (map f l)
  map-take zero l = refl
  map-take (suc n) [] = refl
  map-take (suc n) (x ∷ xs) = ap (λ l. f x ∷ l) (map-take n xs)

  length-map : (l : List A) → length (map f l) ≡ length l
  length-map [] = refl
  length-map (x ∷ xs) = ap suc (length-map xs)

module _ {P R : Type 0} (parse : P → Frame R) where
  loop-published :
      (live : List P)
      → admin_loop (map (λ (payload : P). published payload) live)
        ≡ map (λ (payload : P). text payload) live
  unfolding admin_loop
  loop-published [] = refl
  loop-published (x ∷ xs) = ap (λ l. text x ∷ l) (loop-published xs)

  backwards-text :
      (l : List P) (frames : List (AdminFrame P)) (earlier : List (Frame R))
      → backwards parse (map (λ (payload : P). text payload) l ++ frames) earlier
        ≡ backwards parse frames (map parse (reverse l) ++ earlier)
  unfolding backwards
  backwards-text [] frames earlier = refl
  backwards-text (x ∷ xs) frames earlier =
      backwards-text xs frames (parse x ∷ earlier)
      ∙ ap (λ l. backwards parse frames l)
          (sym (append_assoc (map parse (reverse xs)) (parse x ∷ []) earlier)
            ∙ ap (λ l. l ++ earlier)
                (sym (map-append parse (reverse xs) (x ∷ []))
                  ∙ ap (λ l. map parse l) (sym (reverse-cons x xs))))

  no_more :
      (l : List P) (earlier : List (Frame R))
      → backwards parse (map (λ (payload : P). text payload) l) earlier
        ≡ map parse (reverse l) ++ earlier
  unfolding backwards
  no_more l earlier =
      ap (λ (frames : List (AdminFrame P)). backwards parse frames earlier)
        (sym (append-nil (map (λ (payload : P). text payload) l)))
      ∙ backwards-text l [] earlier

  session_of-sent :
      (c : Connection P)
      → session_of parse c
        ≡ map (λ (payload : P). text payload) (reverse (recent c.before []))
          ++ (AdminSession.history_end ∷ map (λ (payload : P). text payload) (sent c.after))
  unfolding admin_ws_session
  session_of-sent c =
      let history = recent c.before [] in
      let live = sent c.after in
      let as_text = λ (payload : P). text payload in
      rw (loop-published live) (
        take-all _ (suc (length history + length live)) (
          length-append (map as_text (reverse history)) _
          ∙ omega (
            arith,
            length-map as_text (reverse history),
            length-reverse history,
            length-map as_text live,
          )))

  backwards-session :
      (c : Connection P) (earlier : List (Frame R))
      → backwards parse (session_of parse c) earlier
        ≡ map parse (reverse (sent c.after))
          ++ (history_end ∷ (map parse (recent c.before []) ++ earlier))
  unfolding backwards
  backwards-session c earlier =
      let history = recent c.before [] in
      let live = sent c.after in
      let as_text = λ (payload : P). text payload in
      ap (λ l. backwards parse l earlier) (session_of-sent c)
      ∙ backwards-text (reverse history) (AdminSession.history_end ∷ map as_text live) earlier
      ∙ ap (λ l. backwards parse (map as_text live) (history_end ∷ (map parse l ++ earlier)))
          (reverse-reverse history)
      ∙ no_more live (history_end ∷ (map parse history ++ earlier))

  events_of-all_frames :
      (connections : List (Connection P))
      → events_of (all_frames parse connections) ≡ events_of (map parse (told connections))
  unfolding told events_of
  events_of-all_frames [] = refl
  events_of-all_frames (c ∷ connections) =
      let history = recent c.before [] in
      let live = reverse (sent c.after) in
      ap events_of (backwards-session c (all_frames parse connections))
      ∙ events_of-append (map parse live) _
      ∙ ap (λ l. events_of (map parse live) ++ l)
          (events_of-append (map parse history) (all_frames parse connections)
            ∙ ap (λ l. events_of (map parse history) ++ l) (events_of-all_frames connections)
            ∙ sym (events_of-append (map parse history) (map parse (told connections)))
            ∙ ap events_of (sym (map-append parse history (told connections))))
      ∙ sym (events_of-append (map parse live) _)
      ∙ ap events_of (sym (map-append parse live (history ++ told connections)))

  -- Over all its connections on which nothing was lost, a page that is still mounted shows the latest
  -- 500 of the events that it was told and can read, the latest first: for each connection, what was
  -- published after it subscribed, and before that the history that it began with, so what a page had
  -- shown before it connected again and is still in the history is shown another time.
  pub feed_end_to_end :
      (connections : List (Connection P)) {inputs : List (Input R)} {p : Page R}
      → Reach inputs p
      → is_mounted inputs ≡ true
      → framed_part inputs ≡ all_frames parse connections
      → map (λ (e : R × ℕ). e.0) p.events ≡ take 500 (events_of (map parse (told connections)))
  feed_end_to_end connections {inputs} r alive told_so =
      let raw = λ (e : R × ℕ). e.0 in
      ap (λ l. map raw l) (events-received r).0
      ∙ map-take raw 500 (received inputs)
      ∙ ap (λ l. take 500 l)
          (received-framed_part inputs alive
            ∙ ap events_of told_so
            ∙ events_of-all_frames connections)
