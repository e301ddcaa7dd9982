-- ===== src/Sse.antt =====
-- src/response_helpers/sse.rs: `SseEvent`, and `SseStream` with its body, buffers and queue.
pub mod Event
pub mod View
pub mod Append
pub mod Polling
pub mod Stream
pub mod Failing
pub mod Format
pub mod Fields
pub mod RoundTrip
use navar.Base.{
  ℕ, zero, suc, ◌+◌, ◌-◌, Bool, true, false, not, List, [], ◌∷◌, ◌++◌, Option, none, some, Result,
  ok, err, Poll, ready, pending, Bytes, ◌==◌, if◌then◌else◌, is_empty, foldl, ◌>>=◌,
}
use mathlib.Core.Option
use navar.Body.{Body, Frame, poll_frame, map_frame, into_data, Polled}
use navar.Buf.{Buf, bytes_buf}
use navar.Lines.{read_frame, scan}
use navar.Std.Deque.{Deque, with_capacity, len, push_back, pop_front, pop_fronts}
use navar.Std.Text.{trim_start, trim_end, Parts, splitn2, text_eq}
use navar.Std.Utf8.{Text, from_utf8_lossy}

-- The source calls the third field `data`.
pub record SseEvent : Type 0 where
  pub id : Option Text
  pub event : Option Text
  pub payload : Text

abbrev pub default_event : SseEvent
default_event = record { id = none; event = none; payload = [] }

-- `E` is `anyhow::Error`.
pub record SseStream (E : Type 0) : Type 0 where
  pub body : Body Bytes E
  pub buffer : Deque ℕ
  pub line_buf : Bytes
  pub pending_event : SseEvent
  pub ready_events : Deque SseEvent
  pub last_event_id : Option Text

-- The names of the fields that an event has.
abbrev pub data_name : Text
data_name = b'd' ∷ b'a' ∷ b't' ∷ b'a' ∷ []

abbrev pub id_name : Text
id_name = b'i' ∷ b'd' ∷ []

abbrev pub event_name : Text
event_name = b'e' ∷ b'v' ∷ b'e' ∷ b'n' ∷ b't' ∷ []

module _ {E : Type 0} where
  -- `SseStream::new`, on a body of any buffers.
  unfoldable pub new : {N : Type 0} → Buf N → Body N E → SseStream E
  unfolding with_capacity
  new b body = record {
    body = map_frame (λ d. b.copy_to_bytes d (b.remaining d)) body;
    buffer = with_capacity 256;
    line_buf = [];
    pending_event = default_event;
    ready_events = with_capacity 0;
    last_event_id = none;
  }

  -- `match name`, with the line's name and value.
  pub process_field : SseStream E → Text → Text → SseStream E
  process_field s name value =
      if text_eq name data_name
      then record s {
        pending_event = record ev {
          payload =
              (if not (is_empty ev.payload) then ev.payload ++ b'\n' ∷ [] else ev.payload) ++ value;
        };
      }
      else if text_eq name id_name
      then record s { pending_event = record ev { id = some value }; last_event_id = some value }
      else if text_eq name event_name
      then record s { pending_event = record ev { event = some value } }
      else s
    where
      ev : SseEvent
      ev = s.pending_event

  pub process_line : SseStream E → Text → SseStream E
  unfolding process_field
  process_line s line =
      if is_empty line
      then record s {
        ready_events = push_back s.ready_events s.pending_event;
        pending_event = default_event;
      }
      else process_field s parts.first (Option.get_or (Option.map trim_start parts.second) [])
    where
      parts : Parts
      parts = splitn2 b':' line

  -- The handling of one extracted line: `line_buf` is taken, and put back cleared.
  pub take_line : SseStream E → Bytes → SseStream E
  unfolding process_line
  take_line s buf =
      record (process_line (record s { line_buf = [] }) (trim_end (from_utf8_lossy buf))) {
        line_buf = [];
      }

  -- A panic, or a copy loop without end, would be `none`.
  unfoldable pub append_frame : {D : Type 0} → Buf D → SseStream E → D → Option (SseStream E)
  unfolding read_frame scan take_line pop_fronts
  append_frame b s frame = do
    let old_len = len s.buffer
    buffer ← read_frame b (foldl push_back) (b.remaining frame + 1) s.buffer frame
    (s', processed) ←
        scan buffer take_line (len buffer - old_len) old_len (record s { buffer = buffer }, 0)
    some (record s' { buffer = pop_fronts processed s'.buffer })

  -- After a frame: the next ready event, or a wake-up and `Pending`.
  after_frame :
      SseStream E → Option (SseEvent × Deque SseEvent) → Polled (Result E SseEvent) (SseStream E)
  after_frame s (some (ev, rest)) = record {
    answer = ready (some (ok ev));
    woken = false;
    stream = record s { ready_events = rest };
  }
  after_frame s none = record { answer = pending; woken = true; stream = s }

  on_frame : SseStream E → Option Bytes → Option (Polled (Result E SseEvent) (SseStream E))
  unfolding append_frame after_frame
  on_frame s (some bytes) = do
    s' ← append_frame bytes_buf s bytes
    some (after_frame s' (pop_front s'.ready_events))
  on_frame s none = some (record { answer = pending; woken = true; stream = s })

  on_answer :
      SseStream E
      → Poll (Option (Result E (Frame Bytes)))
      → Option (Polled (Result E SseEvent) (SseStream E))
  unfolding on_frame
  on_answer s (ready (some (ok frame))) = on_frame s (into_data frame)
  on_answer s (ready (some (err e))) =
      some (record { answer = ready (some (err e)); woken = false; stream = s })
  on_answer s (ready none) = some (record { answer = ready none; woken = false; stream = s })
  on_answer s pending = some (record { answer = pending; woken = false; stream = s })

  -- `poll_next`: with no event ready, one poll of the body.
  poll_next_with :
      SseStream E
      → Option (SseEvent × Deque SseEvent)
      → Option (Polled (Result E SseEvent) (SseStream E))
  unfolding on_answer
  poll_next_with s (some (ev, rest)) = some (record {
    answer = ready (some (ok ev));
    woken = false;
    stream = record s { ready_events = rest };
  })
  poll_next_with s none =
      let (answer, body) = poll_frame s.body in on_answer (record s { body = body }) answer

  unfoldable pub poll_next : SseStream E → Option (Polled (Result E SseEvent) (SseStream E))
  unfolding poll_next_with pop_front
  poll_next s = poll_next_with s (pop_front s.ready_events)
