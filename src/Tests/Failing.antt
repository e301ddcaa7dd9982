-- ===== src/Tests/Failing.antt =====
-- Streams over bodies that fail on the way, inside a line.
use navar.Base.{ℕ, ◌+◌, ◌≡◌, [], ◌∷◌, some, Result, ok, err, Bytes, length, arith}
use navar.Body.{Body, data_frame, item}
use navar.Ndjson.Failing.{items_around, drive-items_around}
use navar.Ndjson.Stream.{items_in}
use navar.Ndjson
use navar.Reader.Drive.{drive}
use navar.Reader.Failing.{values_of}
use navar.Reader.Pieces.{bytes_of}
use navar.Sse.Failing.{events_around, drive-around}
use navar.Sse.Polling.{no_events}
use navar.Sse.Stream.{fresh}
use navar.Sse.View.{feed}
use navar.Sse
use navar.Tests.Data.{Two, two_buf, codes}

abbrev failing : Body Two ℕ
failing =
    item (ok (data_frame (codes "data: a\n", codes "\nda")))
    ∷ item (err 9)
    ∷ item (ok (data_frame (codes "ta: ", codes "b\n\n")))
    ∷ []

drive-around_example :
    (drive Sse.poll_next (length (events_around two_buf failing) + 4) (Sse.new two_buf failing)
      ≡ some (events_around two_buf failing))
    × (values_of (events_around two_buf failing)
        ≡ (feed (no_events fresh) (bytes_of two_buf failing)).events.complete)
drive-around_example =
    drive-around two_buf failing (length (events_around two_buf failing) + 4) (omega arith)

abbrev length_of : Bytes → Result ℕ ℕ
length_of bs = ok (length bs)

drive-items_around_example :
    (drive
        (Ndjson.poll_next length_of)
        (length (items_around length_of two_buf failing) + 4)
        (Ndjson.new two_buf failing)
      ≡ some (items_around length_of two_buf failing))
    × (values_of (items_around length_of two_buf failing)
        ≡ values_of (items_in length_of (bytes_of two_buf failing)))
drive-items_around_example =
    drive-items_around length_of two_buf failing
      (length (items_around length_of two_buf failing) + 4) (omega arith)
