-- ===== src/Ndjson/Stream.antt =====
-- The whole life of an `NdjsonStream`: from a body of any buffers to the list of its items.
use navar.Base.{
  ℕ, ◌+◌, ◌<◌, ◌≡◌, refl, ap, ◌∙◌, List, [], ◌++◌, map, some, Result, Bytes, arith, length,
}
use mathlib.Core.List.{map-append}
use navar.Body.{Body, Polled}
use navar.Buf.{Buf}
use navar.Lines.Split.{Cut, cut, cut-append}
use navar.Reader.Wakes.{Settled, poll-Settled}
use navar.Ndjson.Polling.{read, machine, poll_next-machine}
use navar.Ndjson.{NdjsonStream, new, poll_next}
use navar.Reader.Drive.{drive, items_of, drive-items_of}
use navar.Reader.Pieces.{bytes_of, NeverFails, in_one_piece, length-in_one_piece, items_of-bytes_of}
use navar.Reader.{Reader}
use navar.Std.Deque.{with_capacity}

module _ {T E : Type 0} (from_slice : Bytes → Result E T) where
  pub read-nil : (left : Bytes) → read from_slice left [] ≡ (left, [])
  unfolding cut
  read-nil left = refl

  pub read-append :
      (left xs ys : Bytes)
      → read from_slice left (xs ++ ys) ≡ (
        (read from_slice (read from_slice left xs).0 ys).0,
        (read from_slice left xs).1 ++ (read from_slice (read from_slice left xs).0 ys).1,
      )
  read-append left xs ys =
      let next = cut (cut left xs).left ys in
      ap (λ (c : Cut). (c.left, map from_slice c.lines)) (cut-append xs ys left)
      ∙ ap (λ t. (next.left, t)) (map-append from_slice (cut left xs).lines next.lines)

  abbrev pub ndjson_reader : Reader (NdjsonStream T E) Bytes T E
  ndjson_reader = record {
    poll = poll_next from_slice;
    view = machine from_slice;
    read = read from_slice;
    poll-refines = poll_next-machine from_slice;
  }

  -- Every poll of an `NdjsonStream` returns. Where it answers `Pending`, it has asked to be polled again, or
  -- the poll of its body was not ready; and where it answers that it has ended, the next poll does so again.
  pub polls_wake :
      (s : NdjsonStream T E)
      → (p : Polled (Result E T) (NdjsonStream T E)) × (poll_next from_slice s ≡ some p)
        × Settled ndjson_reader s p p.answer
  polls_wake = poll-Settled ndjson_reader

  -- One item for each line that a newline ends.
  abbrev pub items_in : Bytes → List (Result E T)
  items_in bs = map from_slice (cut [] bs).lines

  -- A stream over a body that does not fail, polled often enough, gives an item for each line of the
  -- body's bytes that a newline ends, in order, and then ends: whatever the frames, their pieces, the
  -- trailers and the polls that were not ready. A last line with no newline is dropped.
  pub drive-new_items :
      {N : Type 0} (b : Buf N) (body : Body N E) (fuel : ℕ)
      → NeverFails body
      → length (items_in (bytes_of b body)) + length body < fuel
      → drive (poll_next from_slice) fuel (new b body) ≡ some (items_in (bytes_of b body))
  unfolding new with_capacity
  drive-new_items b body fuel h enough =
      let all : items_of (read from_slice) [] (in_one_piece b body) ≡ items_in (bytes_of b body) =
        items_of-bytes_of (read from_slice) read-nil read-append b body [] h in
      drive-items_of ndjson_reader fuel (new b body)
        (omega (arith, ap length all, length-in_one_piece b body))
      ∙ ap some all
