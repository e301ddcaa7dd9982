-- ===== src/Sse/Stream.antt =====
-- The whole life of an `SseStream`: from a body of any buffers to the list of its events.
use navar.Base.{
  ℕ, ◌+◌, ◌<◌, ◌≡◌, refl, sym, ap, ◌∙◌, List, [], ◌∷◌, ◌++◌, append_assoc, append-nil, map, none,
  some, Result, ok, Bytes, arith, length, foldl,
}
use mathlib.Core.List.{map-append}
use navar.Body.{Body, Polled}
use navar.Buf.{Buf}
use navar.Lines.Split.{cut}
use navar.Reader.Drive.{drive, items_of, drive-items_of}
use navar.Reader.Pieces.{bytes_of, NeverFails, in_one_piece, length-in_one_piece, items_of-bytes_of}
use navar.Reader.{Reader}
use navar.Reader.Wakes.{Settled, poll-Settled}
use navar.Sse.Polling.{Kept, kept_of, no_events, read, machine, poll_next-Refines}
use navar.Sse.View.{Events, View, read_text, read_line, feed, feed-append}
use navar.Sse.{SseEvent, SseStream, default_event, new, poll_next}
use navar.Std.Deque.{with_capacity}
use navar.Std.Utf8.{Text}

-- Events that were complete before stay in front.
abbrev after : List SseEvent → Events → Events
after cs v = record v { complete = cs ++ v.complete }

read_text-after :
    (cs : List SseEvent) (v : Events) (line : Text)
    → read_text (after cs v) line ≡ after cs (read_text v line)
unfolding read_text
read_text-after cs v line = ground (arith, append_assoc cs v.complete (v.building ∷ []))

foldl-read_line-after :
    (lines : List Bytes) (cs : List SseEvent) (v : Events)
    → foldl read_line (after cs v) lines ≡ after cs (foldl read_line v lines)
foldl-read_line-after [] cs v = refl
foldl-read_line-after (l ∷ ls) cs v =
    ap (λ w. foldl read_line w ls) (read_text-after cs v _)
    ∙ foldl-read_line-after ls cs (read_line v l)

feed-after :
    (cs : List SseEvent) (v : View) (bs : Bytes)
    → feed (record v { events = after cs v.events }) bs
      ≡ record { left = (feed v bs).left; events = after cs (feed v bs).events }
unfolding feed
feed-after cs v bs =
    ap (λ e. record { left = (cut v.left bs).left; events = e })
      (foldl-read_line-after (cut v.left bs).lines cs v.events)

-- The second part of a feed, from what the first part keeps.
abbrev rest : Kept → Bytes → Bytes → View
rest k xs ys = feed (no_events (kept_of (feed (no_events k) xs))) ys

feed-append-no_events :
    (k : Kept) (xs ys : Bytes)
    → feed (no_events k) (xs ++ ys) ≡ record {
      left = (rest k xs ys).left;
      events = after (feed (no_events k) xs).events.complete (rest k xs ys).events;
    }
feed-append-no_events k xs ys =
    let v = feed (no_events k) xs in
    feed-append (no_events k) xs ys
    ∙ ap (λ c. feed (record v { events = record (v.events) { complete = c } }) ys)
        (sym (append-nil v.events.complete))
    ∙ feed-after v.events.complete (no_events (kept_of v)) ys

-- A stream that has read nothing.
abbrev pub fresh : Kept
fresh = record { left = []; building = default_event; last_id = none }

module _ {E : Type 0} where
  pub read-nil : (k : Kept) → read {E = E} k [] ≡ (k, [])
  unfolding feed cut
  read-nil k = refl

  pub read-append :
      (k : Kept) (xs ys : Bytes)
      → read {E = E} k (xs ++ ys) ≡ (
        (read {E = E} (read {E = E} k xs).0 ys).0,
        (read {E = E} k xs).1 ++ (read (read {E = E} k xs).0 ys).1,
      )
  read-append k xs ys =
      ap (λ v. (kept_of v, map ok v.events.complete)) (feed-append-no_events k xs ys)
      ∙ ap (λ t. (kept_of (rest k xs ys), t))
          (map-append ok (feed (no_events k) xs).events.complete (rest k xs ys).events.complete)

  abbrev pub sse_reader : Reader (SseStream E) Kept SseEvent E
  sse_reader = record {
    poll = poll_next;
    view = machine;
    read = read;
    poll-refines = poll_next-Refines;
  }

  -- Every poll of an `SseStream` returns. Where it answers `Pending`, it has asked to be polled again, or the
  -- poll of its body was not ready, so that the body wakes the task; and where it answers that it has ended,
  -- the next poll answers so again.
  pub poll_next-Settled :
      (s : SseStream E)
      → (p : Polled (Result E SseEvent) (SseStream E)) × (poll_next s ≡ some p)
        × Settled sse_reader s p p.answer
  poll_next-Settled = poll-Settled sse_reader

  -- The events of all the bytes, as `Ok` items.
  abbrev pub events_in : Bytes → List (Result E SseEvent)
  events_in bs = map ok (feed (no_events fresh) bs).events.complete

  -- A stream over a body that does not fail, polled often enough, gives the events of the body's bytes
  -- and ends: whatever the frames, their pieces, the trailers and the polls that were not ready.
  pub drive-new :
      {N : Type 0} (b : Buf N) (body : Body N E) (fuel : ℕ)
      → NeverFails body
      → length (events_in (bytes_of b body)) + length body < fuel
      → drive poll_next fuel (new b body) ≡ some (events_in (bytes_of b body))
  unfolding new with_capacity
  drive-new b body fuel h enough =
      let all : items_of read fresh (in_one_piece b body) ≡ events_in (bytes_of b body) =
        items_of-bytes_of read read-nil read-append b body fresh h in
      drive-items_of sse_reader fuel (new b body)
        (omega (arith, ap length all, length-in_one_piece b body))
      ∙ ap some all
