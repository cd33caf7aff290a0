-- ===== src/Events/View/Rows.antt =====
-- Which events the feed lists, and when it cannot be shown.
use mathlib.Core.Path.{subst}
use audio_server.Common.{
  All, Bool, Bool-cases, List, Option, Option-cases, String, [], any, ap, arith, false, inl, inr,
  is_text, none, refl, some, take, true, ℕ, ◌&&◌, ◌∙◌, ◌∷◌, ◌≡◌, ◌≢◌, suc, zero,
}
use audio_server.Events.{Input, Page, Reach, error, event, framed, live, history_end, malformed}
use audio_server.Events.Feed.{events-received, is_mounted, received}
use audio_server.Events.View.{
  Formats, RawEvent, Row, cons_row, crashed, detail_text, feed, is_empty, is_failed, is_live,
  list_feed, listed, parse_frame, row, rows, show_text, shown, slice_to, event_color, failure,
  waiting,
}

abbrev pub Entry : Type 0 → Type 0
Entry V = RawEvent V × ℕ

module _ {V : Type 0} where
  -- A frame is what a text of the socket is parsed to.
  abbrev pub IsParsed : Input (RawEvent V) → Type 0
  IsParsed (framed f now) = (o : Option (RawEvent V)) × (f ≡ parse_frame o)
  IsParsed _ = Unit

  abbrev pub is_mark : Entry V → Bool
  is_mark (e, ts) = is_text e.type "__history_end__"

  abbrev IsEvent : Entry V → Type 0
  IsEvent entry = is_mark entry ≡ false

  parse_frame-event :
      (o : Option (RawEvent V)) (raw : RawEvent V)
      → event raw ≡ parse_frame o
      → is_text raw.type "__history_end__" ≡ false
  unfolding parse_frame
  parse_frame-event none raw h = absurd cc
  parse_frame-event (some e) raw h = ground arith

  received-IsEvent :
      (inputs : List (Input (RawEvent V))) → All IsParsed inputs → All IsEvent (received inputs)
  received-IsEvent [] ps = tt
  received-IsEvent (framed (event raw) now ∷ inputs) ((o, e), ps) =
      elim (Bool-cases (is_mounted inputs)) [
        | inl m ↦ rw m (parse_frame-event o raw e, received-IsEvent inputs ps)
        | inr m ↦ rw m (received-IsEvent inputs ps)
      ]
  received-IsEvent (framed malformed now ∷ inputs) (p, ps) = received-IsEvent inputs ps
  received-IsEvent (framed history_end now ∷ inputs) (p, ps) = received-IsEvent inputs ps
  received-IsEvent (_ ∷ inputs) (p, ps) = received-IsEvent inputs ps

  All-take : (n : ℕ) (xs : List (Entry V)) → All IsEvent xs → All IsEvent (take n xs)
  All-take zero xs a = tt
  All-take (suc n) [] a = tt
  All-take (suc n) (x ∷ xs) (a, as') = (a, All-take n xs as')

  -- An event without the field `player_id`.
  abbrev pub lacks_player : Entry V → Bool
  lacks_player (e, ts) = elim e.player_id [ none ↦ true | some player_id ↦ false ]

  module _ (formats : Formats V) where
    -- What a row says of its event: when it came, its name, and its text by the first eight
    -- characters of the player's id.
    pub record IsRowOf (entry : Entry V) (r : Row) : Type 0 where
      pub time : r.time ≡ formats.time entry.1
      pub event : r.event ≡ show_text entry.0.event
      pub detail :
          (id : String) × (entry.0.player_id ≡ some id)
          × (r.detail ≡ detail_text formats (slice_to 8 id) entry.0)

    abbrev pub AreRowsOf : List (Entry V) → List Row → Type 0
    AreRowsOf [] [] = Unit
    AreRowsOf [] (r ∷ rs) = ⊥
    AreRowsOf (entry ∷ events) [] = ⊥
    AreRowsOf (entry ∷ events) (r ∷ rs) = IsRowOf entry r × AreRowsOf events rs

    row_of : RawEvent V → ℕ → String → Row
    row_of e ts id = record {
      time = formats.time ts;
      color = event_color e.event;
      event = show_text e.event;
      detail = detail_text formats (slice_to 8 id) e;
    }

    row_of-IsRowOf :
        (e : RawEvent V) (ts : ℕ) (id : String)
        → e.player_id ≡ some id
        → IsRowOf (e, ts) (row_of e ts id)
    unfolding row_of
    row_of-IsRowOf e ts id p = record { time = refl; event = refl; detail = (id, p, refl) }

    rows-lacking :
        (e : RawEvent V) (ts : ℕ) (events : List (Entry V))
        → is_text e.type "__history_end__" ≡ false
        → e.player_id ≡ none
        → rows formats ((e, ts) ∷ events) ≡ crashed
    unfolding rows row
    rows-lacking e ts events no_mark lacks = rw (no_mark, lacks) refl

    rows-cons :
        (e : RawEvent V) (ts : ℕ) (events : List (Entry V)) (id : String)
        → is_text e.type "__history_end__" ≡ false
        → e.player_id ≡ some id
        → rows formats ((e, ts) ∷ events) ≡ cons_row (shown (row_of e ts id)) (rows formats events)
    unfolding rows row row_of
    rows-cons e ts events id no_mark p = rw (no_mark, p) refl

    rows-crashed :
        (events : List (Entry V))
        → All IsEvent events
        → any lacks_player events ≡ true
        → rows formats events ≡ crashed
    rows-crashed [] es h = absurd cc
    rows-crashed ((e, ts) ∷ events) (no_mark, es) h = elim (Option-cases e.player_id) [
      | inl lacks ↦ rows-lacking e ts events no_mark lacks
      | inr (id, p) ↦
          rows-cons e ts events id no_mark p
          ∙ ap (λ r. cons_row (shown (row_of e ts id)) r) (rows-crashed events es (rw p at h))
    ]

    rows-AreRowsOf :
        (events : List (Entry V))
        → All IsEvent events
        → any lacks_player events ≡ false
        → (rs : List Row) × (rows formats events ≡ shown rs) × AreRowsOf events rs
    unfolding rows
    rows-AreRowsOf [] es h = ([], refl, tt)
    rows-AreRowsOf ((e, ts) ∷ events) (no_mark, es) h = elim (Option-cases e.player_id) [
      | inl lacks ↦ absurd (let h' = rw lacks at h in cc)
      | inr (id, p) ↦
          let (rs, same, are) = rows-AreRowsOf events es (rw p at h) in
          (
            row_of e ts id ∷ rs,
            rows-cons e ts events id no_mark p ∙ ap (λ r. cons_row (shown (row_of e ts id)) r) same,
            (row_of-IsRowOf e ts id p, are),
          )
    ]

    -- What the page shows under its header.
    pub data Shows (events : List (Entry V)) (p : Page (RawEvent V)) : Type 0 where
      shows_failure : p.conn ≡ error → feed formats p ≡ shown failure → Shows events p
      shows_waiting : p.conn ≡ live → events ≡ [] → feed formats p ≡ shown waiting → Shows events p
      shows_rows :
          (rs : List Row)
          → p.conn ≢ error
          → feed formats p ≡ shown (listed rs)
          → AreRowsOf events rs
          → Shows events p
      shows_nothing :
          p.conn ≢ error
          → any lacks_player events ≡ true
          → feed formats p ≡ crashed
          → Shows events p

    list_feed-Shows :
        (p : Page (RawEvent V))
        → All IsEvent p.events
        → p.conn ≢ error
        → feed formats p ≡ list_feed (rows formats p.events)
        → Shows p.events p
    list_feed-Shows p es works e = elim (Bool-cases (any lacks_player p.events)) [
      | inl lacks ↦ shows_nothing works lacks (e ∙ ap list_feed (rows-crashed p.events es lacks))
      | inr complete ↦
          let (rs, same, are) = rows-AreRowsOf p.events es complete in
          shows_rows rs works (e ∙ ap list_feed same) are
    ]

    feed-Shows : (p : Page (RawEvent V)) → All IsEvent p.events → Shows p.events p
    unfolding feed
    feed-Shows p es = elim (Bool-cases (is_failed p.conn)) [
      | inl failed ↦ shows_failure (ground arith) (rw failed refl)
      | inr works ↦ elim (Bool-cases (is_empty p.events && is_live p.conn)) [
        | inl waits ↦ shows_waiting (ground arith) (ground arith) (rw (works, waits) refl)
        | inr rest ↦ list_feed-Shows p es (ground arith) (rw (works, rest) refl)
      ]
    ]

    -- Whatever the socket has sent, the page shows its error, the text for no events, or one row for
    -- each of the latest 500 events that it has received, in their order, with the time, the name
    -- and the text of each; but it cannot be shown, unless it shows its error, if one of these
    -- events has no field `player_id`.
    pub received-Shows :
        {inputs : List (Input (RawEvent V))} {p : Page (RawEvent V)}
        → Reach inputs p
        → All IsParsed inputs
        → Shows (take 500 (received inputs)) p
    received-Shows {inputs} {p} r ps =
        let e = (events-received r).0 in
        subst (λ events. Shows events p) e
          (feed-Shows p (rw e (All-take 500 _ (received-IsEvent inputs ps))))
