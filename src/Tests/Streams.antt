-- ===== src/Tests/Streams.antt =====
-- SSE and NDJSON streams over a body in pieces.
use navar.Base.{
  ℕ, ◌+◌, ◌≡◌, refl, inl, [], ◌∷◌, Bool, true, false, ◌==◌, none, some, Result, ok, err, Bytes,
  length, arith,
}
use navar.Body.{Body, data_frame, trailers_frame, not_ready, item, Polled}
use navar.Buf.{bytes_buf}
use navar.Lines.Split.{IsLine}
use navar.Ndjson.Append.{After, append_frame-After}
use navar.Ndjson.Polling.{poll_next-machine}
use navar.Ndjson.Polling
use navar.Ndjson.Stream.{items_in, drive-new_items, ndjson_reader, polls_wake}
use navar.Ndjson
use navar.Reader.Wakes.{Settled}
use navar.Reader.Drive.{drive}
use navar.Reader.{poll_machine}
use navar.Reader.Pieces.{bytes_of}
use navar.Request.RoundTrip.{Codec, drive-ndjson_body}
use navar.Request.{wait, arrived, ndjson_body}
use navar.Sse.Append.{append_frame-feed}
use navar.Sse.Format.{Message, print_all, IsMessage, IsValue, event_of}
use navar.Sse.Polling.{poll_next-Refines, machine, read}
use navar.Sse.RoundTrip.{drive-print_all}
use navar.Sse.Stream.{drive-new, events_in, sse_reader, poll_next-Settled}
use navar.Sse.View.{view, feed}
use navar.Sse.{SseEvent, SseStream, new, append_frame, poll_next}
use navar.Std.Text.{trim_end, trim_start, is_whitespace}
use navar.Std.Utf8.{encode, encode_char}
use navar.Tests.Data.{Two, two_buf, codes}

-- The body of an event stream: a line cut inside a frame's pieces and between frames.
abbrev sse_body : Body Two ℕ
sse_body =
    item (ok (data_frame (codes "id: 7\nda", codes "ta: he")))
    ∷ not_ready
    ∷ item (ok (trailers_frame []))
    ∷ item (ok (data_frame (codes "llo\n\n", codes "data: x")))
    ∷ []

sse_driven :
    drive poll_next
      (length (events_in {E = ℕ} (bytes_of two_buf sse_body)) + length sse_body + 1)
      (new two_buf sse_body)
    ≡ some (events_in (bytes_of two_buf sse_body))
sse_driven =
    drive-new two_buf sse_body
      (length (events_in {E = ℕ} (bytes_of two_buf sse_body)) + length sse_body + 1) tt
      (omega arith)

abbrev sse_start : SseStream ℕ
sse_start = new two_buf sse_body

fed :
    (s' : SseStream ℕ) × (append_frame two_buf sse_start (codes "data: a", codes "\n\n") ≡ some s')
    × (view s' ≡ feed (view sse_start) (codes "data: a\n\n"))
    × (s'.body ≡ sse_start.body)
fed = append_frame-feed two_buf sse_start (codes "data: a", codes "\n\n")

poll_next-Refines_example :
    (p : _) × (poll_next sse_start ≡ some p)
    × (record { answer = p.answer; woken = p.woken; stream = machine p.stream }
        ≡ poll_machine read (machine sse_start))
poll_next-Refines_example = poll_next-Refines sse_start

abbrev pub message : Message
message = record {
  id = some (codes "7");
  event = none;
  first_line = codes "hi";
  more_lines = codes "x" ∷ [];
}

abbrev pub message_body : Body Two ℕ
message_body =
    item (ok (data_frame (codes "id: 7\ndata:", codes " hi\nda")))
    ∷ not_ready
    ∷ item (ok (data_frame (codes "ta: x", codes "\n\n")))
    ∷ []

IsValue-seven : IsValue (codes "7")
unfolding trim_end trim_start is_whitespace
IsValue-seven = record {
  chars = (inl (omega arith), tt);
  one_line = (refl, tt);
  no_space_before = refl;
  no_space_after = refl;
}

IsValue-hi : IsValue (codes "hi")
unfolding trim_end trim_start is_whitespace
IsValue-hi = record {
  chars = (inl (omega arith), (inl (omega arith), tt));
  one_line = (refl, (refl, tt));
  no_space_before = refl;
  no_space_after = refl;
}

IsValue-x : IsValue (codes "x")
unfolding trim_end trim_start is_whitespace
IsValue-x = record {
  chars = (inl (omega arith), tt);
  one_line = (refl, tt);
  no_space_before = refl;
  no_space_after = refl;
}

pub IsMessage-message : IsMessage message
IsMessage-message = record {
  id_value = IsValue-seven;
  event_value = tt;
  first_value = IsValue-hi;
  first_ne_nil = λ h. cc;
  more_values = (IsValue-x, tt);
}

pub message_bytes : bytes_of two_buf message_body ≡ print_all (message ∷ [])
unfolding encode encode_char
message_bytes = refl

drive-print_all_example :
    drive poll_next 5 (new two_buf message_body) ≡ some (ok (event_of message) ∷ [])
drive-print_all_example =
    drive-print_all two_buf message_body (message ∷ []) 5 tt (IsMessage-message, tt) message_bytes
      (omega arith)

abbrev length_of : Bytes → Result ℕ ℕ
length_of bs = ok (length bs)

abbrev nd_body : Body Two ℕ
nd_body =
    item (ok (data_frame (codes "ab\nc", codes "d")))
    ∷ not_ready
    ∷ item (ok (data_frame (codes "\n", codes "e")))
    ∷ []

ndjson_driven :
    drive
      (Ndjson.poll_next length_of)
      (length (items_in length_of (bytes_of two_buf nd_body)) + length nd_body + 1)
      (Ndjson.new two_buf nd_body)
    ≡ some (items_in length_of (bytes_of two_buf nd_body))
ndjson_driven =
    drive-new_items length_of two_buf nd_body
      (length (items_in length_of (bytes_of two_buf nd_body)) + length nd_body + 1) tt (omega arith)

abbrev nd_start : Ndjson.NdjsonStream ℕ ℕ
nd_start = Ndjson.new two_buf nd_body

appended :
    After length_of nd_start
      (codes "ab\nc")
      (Ndjson.append_frame length_of two_buf nd_start (codes "ab", codes "\nc"))
appended = append_frame-After length_of two_buf nd_start (codes "ab", codes "\nc")

poll_next-machine_example :
    (p : _) × (Ndjson.poll_next length_of nd_start ≡ some p)
    × (record {
      answer = p.answer;
      woken = p.woken;
      stream = Ndjson.Polling.machine length_of p.stream;
    }
        ≡ poll_machine (Ndjson.Polling.read length_of) (Ndjson.Polling.machine length_of nd_start))
poll_next-machine_example = poll_next-machine length_of nd_start

-- Booleans, each written as one digit.
abbrev pub line_of : Bool → Bytes
line_of true = codes "1"
line_of false = codes "0"

abbrev pub to_vec : Bool → Result ℕ Bytes
to_vec b = ok (line_of b)

abbrev pub from_slice : Bytes → Result ℕ Bool
from_slice [] = err 0
from_slice (b ∷ bs) = ok (b == 49)

pub line_of-IsLine : (b : Bool) → IsLine (line_of b)
line_of-IsLine true = (refl, tt)
line_of-IsLine false = (refl, tt)

pub from_slice-line_of : (b : Bool) → from_slice (line_of b) ≡ ok b
from_slice-line_of true = refl
from_slice-line_of false = refl

abbrev pub bools : Codec to_vec from_slice
bools = record {
  line = line_of;
  writes = λ b. refl;
  one_line = line_of-IsLine;
  reads = from_slice-line_of;
}

drive-ndjson_body_example :
    drive
      (Ndjson.poll_next from_slice)
      6
      (Ndjson.new bytes_buf (ndjson_body to_vec (arrived true ∷ wait ∷ arrived false ∷ [])))
    ≡ some (ok true ∷ ok false ∷ [])
drive-ndjson_body_example =
    drive-ndjson_body bools (arrived true ∷ wait ∷ arrived false ∷ []) 6 (omega arith)

poll_next-Settled_example :
    (p : Polled (Result ℕ SseEvent) (SseStream ℕ)) × (poll_next sse_start ≡ some p)
    × Settled sse_reader sse_start p p.answer
poll_next-Settled_example = poll_next-Settled sse_start

ndjson_woken :
    (p : Polled (Result ℕ ℕ) (Ndjson.NdjsonStream ℕ ℕ)) × (Ndjson.poll_next length_of nd_start
      ≡ some p)
    × Settled (ndjson_reader length_of) nd_start p p.answer
ndjson_woken = polls_wake length_of nd_start
