-- ===== src/Sse/Failing.antt =====
-- The life of an `SseStream` over any body, also one that fails on the way.
use navar.Base.{
  ℕ, ◌+◌, ◌<◌, ◌≡◌, refl, sym, ap, ◌∙◌, List, [], ◌∷◌, map, some, Result, ok, arith, length,
}
use navar.Body.{Body}
use navar.Buf.{Buf}
use navar.Reader.Drive.{drive, items_of, drive-items_of}
use navar.Reader.Failing.{runs, around, values_of, items_of-runs, values_of-items_of}
use navar.Reader.Pieces.{bytes_of, in_one_piece, length-in_one_piece}
use navar.Sse.Polling.{no_events, read}
use navar.Sse.Stream.{fresh, sse_reader, read-nil, read-append}
use navar.Sse.View.{feed}
use navar.Sse.{SseEvent, new, poll_next}
use navar.Std.Deque.{with_capacity}

values_of-ok : {A : Type 0} (E : Type 0) (xs : List A) → values_of (map {B = Result E A} ok xs) ≡ xs
values_of-ok E [] = refl
values_of-ok E (x ∷ xs) = ap (λ t. x ∷ t) (values_of-ok E xs)

module _ {E N : Type 0} (b : Buf N) (body : Body N E) where
  -- The events of each run of bytes, with the body's errors between them.
  abbrev pub events_around : List (Result E SseEvent)
  events_around = around read fresh (runs b body).failed (runs b body).last

  -- A stream over any body, polled often enough, gives the events that the bytes before each error of the
  -- body complete, then that error, and ends after the last bytes: a line or an event that an error falls
  -- into is completed by what follows. Its events are, in order, all those of the body's bytes, as if no
  -- poll had failed.
  pub drive-around :
      (fuel : ℕ)
      → length events_around + length body < fuel
      → (drive poll_next fuel (new b body) ≡ some events_around)
        × (values_of events_around ≡ (feed (no_events fresh) (bytes_of b body)).events.complete)
  unfolding new with_capacity
  drive-around fuel enough =
      let all : items_of read fresh (in_one_piece b body) ≡ events_around =
        items_of-runs read read-nil read-append b body fresh in
      (
        drive-items_of sse_reader fuel (new b body)
              (omega (arith, ap length all, length-in_one_piece b body, enough))
            ∙ ap some all,
        ap values_of (sym all)
            ∙ values_of-items_of read read-nil read-append b body fresh
            ∙ values_of-ok E (feed (no_events fresh) (bytes_of b body)).events.complete,
      )
