-- ===== src/Sse/Polling.antt =====
-- `SseStream::poll_next` is the reader's machine, with the events as items.
use navar.Base.{
  ◌≡◌, refl, ap, ap₂, subst, ◌∙◌, inl, inr, List, [], ◌∷◌, map, Option, some, Result, ok, err,
  Bytes,
}
use navar.Body.{Body, data_frame, trailers_frame, not_ready, item, Polled, poll_frame}
use navar.Buf.{bytes_buf}
use navar.Reader.{Machine, offer, offer_frame, poll_with, poll_machine}
use navar.Sse.Append.{append_frame-feed}
use navar.Sse.View.{View, feed, view}
use navar.Sse.{SseEvent, SseStream, after_frame, on_frame, on_answer, poll_next}
use navar.Std.Deque.Laws.{pop_front-Pops}
use navar.Std.Deque.{contents, pop_front}
use navar.Std.Utf8.{Text}

-- What is kept between frames: the line begun, the event that is being built, and the last id.
pub record Kept : Type 0 where
  pub left : Bytes
  pub building : SseEvent
  pub last_id : Option Text

abbrev pub kept_of : View → Kept
kept_of v = record { left = v.left; building = v.events.building; last_id = v.events.last_id }

abbrev pub no_events : Kept → View
no_events k = record {
  left = k.left;
  events = record { building = k.building; complete = []; last_id = k.last_id };
}

-- What a frame brings: the events that it completes, each as `Ok`.
abbrev pub read : {E : Type 0} → Kept → Bytes → Kept × List (Result E SseEvent)
read k bs = (kept_of (feed (no_events k) bs), map ok (feed (no_events k) bs).events.complete)

module _ {E : Type 0} where
  abbrev pub machine : SseStream E → Machine Kept SseEvent E
  machine s = record {
    kept = kept_of (view s);
    queue = map ok (contents s.ready_events);
    body = s.body;
  }

  abbrev seen :
      Polled (Result E SseEvent) (SseStream E)
      → Polled (Result E SseEvent) (Machine Kept SseEvent E)
  seen p = record { answer = p.answer; woken = p.woken; stream = machine p.stream }

  abbrev Refines :
      Option (Polled (Result E SseEvent) (SseStream E))
      → Polled (Result E SseEvent) (Machine Kept SseEvent E)
      → Type 0
  Refines r m = (p : Polled (Result E SseEvent) (SseStream E)) × (r ≡ some p) × (seen p ≡ m)

  after_frame-Refines :
      (s : SseStream E)
      → Refines
          (some (after_frame s (pop_front s.ready_events)))
          (offer (kept_of (view s)) (map ok (contents s.ready_events)) s.body)
  unfolding after_frame offer
  after_frame-Refines s = elim (pop_front-Pops s.ready_events) [
    | inl (empty, e) ↦ rw (e, empty) (_, refl, rw empty)
    | inr (ev, rest, c, e) ↦ rw (e, c) (_, refl, refl)
  ]

  view-no_events :
      (s : SseStream E) → contents s.ready_events ≡ [] → view s ≡ no_events (kept_of (view s))
  view-no_events s empty =
      ap
        (λ c. record {
          left = contents s.buffer;
          events = record { building = s.pending_event; complete = c; last_id = s.last_event_id };
        })
        empty

  -- A frame of data, when no event is ready.
  data-Refines :
      (s : SseStream E) (d : Bytes)
      → contents s.ready_events ≡ []
      → Refines (on_frame s (some d)) (offer_frame read (kept_of (view s)) (some d) s.body)
  unfolding on_frame offer_frame
  data-Refines s d empty =
      let (s', run, fed, same) = append_frame-feed bytes_buf s d in
      rw run (
        subst (Refines (some (after_frame s' (pop_front s'.ready_events))))
          (ap₂ (λ v b. offer (kept_of v) (map ok v.events.complete) b)
            (fed ∙ ap (λ v. feed v d) (view-no_events s empty)) same)
          (after_frame-Refines s'))

  body-Refines :
      (s : SseStream E) (b : Body Bytes E)
      → contents s.ready_events ≡ []
      → Refines
          (on_answer (record s { body = (poll_frame b).1 }) (poll_frame b).0)
          (poll_with read (kept_of (view s)) [] b)
  unfolding on_answer poll_with on_frame offer_frame offer
  body-Refines s [] empty = (_, refl, rw empty)
  body-Refines s (not_ready ∷ b) empty = (_, refl, rw empty)
  body-Refines s (item (err e) ∷ b) empty = (_, refl, rw empty)
  body-Refines s (item (ok (trailers_frame h)) ∷ b) empty = (_, refl, rw empty)
  body-Refines s (item (ok (data_frame d)) ∷ b) empty = data-Refines (record s { body = b }) d empty

  -- Every poll of an `SseStream` is one of the machine: it does not panic, it gives the same answer and
  -- the same wake-up, and leaves the same state.
  pub poll_next-Refines : (s : SseStream E) → Refines (poll_next s) (poll_machine read (machine s))
  unfolding poll_next poll_with offer
  poll_next-Refines s = elim (pop_front-Pops s.ready_events) [
    | inl (empty, e) ↦ rw (e, empty) (body-Refines s s.body empty)
    | inr (ev, rest, c, e) ↦ rw (e, c) (_, refl, refl)
  ]
