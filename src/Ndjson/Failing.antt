-- ===== src/Ndjson/Failing.antt =====
-- The life of an `NdjsonStream` over any body, also one that fails on the way.
use navar.Base.{ℕ, ◌+◌, ◌<◌, ◌≡◌, sym, ap, ◌∙◌, List, [], some, Result, Bytes, arith, length}
use navar.Body.{Body}
use navar.Buf.{Buf}
use navar.Ndjson.Polling.{read}
use navar.Ndjson.Stream.{ndjson_reader, items_in, read-nil, read-append}
use navar.Ndjson.{new, poll_next}
use navar.Reader.Drive.{drive, items_of, drive-items_of}
use navar.Reader.Failing.{runs, around, values_of, items_of-runs, values_of-items_of}
use navar.Reader.Pieces.{bytes_of, in_one_piece, length-in_one_piece}
use navar.Std.Deque.{with_capacity}

module _ {T E N : Type 0} (from_slice : Bytes → Result E T) (b : Buf N) (body : Body N E) where
  -- The items of each run of bytes, with the body's errors between them.
  abbrev pub items_around : List (Result E T)
  items_around = around (read from_slice) [] (runs b body).failed (runs b body).last

  -- A stream over any body, polled often enough, gives an item for each line that the bytes before each
  -- error of the body complete, then that error, and ends after the last bytes: a line that an error falls
  -- into is completed by what follows. The values among its items are, in order, those of all the body's
  -- lines that a newline ends and that can be parsed, as if no poll had failed.
  pub drive-items_around :
      (fuel : ℕ)
      → length items_around + length body < fuel
      → (drive (poll_next from_slice) fuel (new b body) ≡ some items_around)
        × (values_of items_around ≡ values_of (items_in from_slice (bytes_of b body)))
  unfolding new with_capacity
  drive-items_around fuel enough =
      let all : items_of (read from_slice) [] (in_one_piece b body) ≡ items_around =
        items_of-runs (read from_slice) (read-nil from_slice) (read-append from_slice) b body [] in
      (
        drive-items_of (ndjson_reader from_slice) fuel (new b body)
              (omega (arith, ap length all, length-in_one_piece b body, enough))
            ∙ ap some all,
        ap values_of (sym all)
            ∙ values_of-items_of (read from_slice) (read-nil from_slice) (read-append from_slice) b
                body [],
      )
