-- ===== src/Ndjson.antt =====
-- src/response_helpers/ndjson.rs: `NdjsonStream` with its body, buffers and queue. `from_slice`, of
-- serde_json, is an argument: it reads one line as a value of `T` or gives an error of `E`, which stands
-- for `anyhow::Error`.
pub mod Append
pub mod Polling
pub mod Stream
pub mod Failing
use navar.Base.{
  ℕ, ◌+◌, ◌-◌, Bool, true, false, List, [], ◌∷◌, ◌++◌, Option, none, some, Result, ok, err, Poll,
  ready, pending, Bytes, ◌>>=◌,
}
use navar.Body.{Body, Frame, poll_frame, map_frame, into_data, Polled}
use navar.Buf.{Buf, bytes_buf}
use navar.Lines.{read_frame, scan}
use navar.Std.Deque.{Deque, with_capacity, len, push_back, extend, pop_front, drain}

pub record NdjsonStream (T E : Type 0) : Type 0 where
  pub body : Body Bytes E
  pub buffer : Deque ℕ
  pub line_buf : Bytes
  pub queue : Deque (Result E T)

module _ {T E : Type 0} where
  -- `NdjsonStream::new`, on a body of any buffers.
  unfoldable pub new : {N : Type 0} → Buf N → Body N E → NdjsonStream T E
  unfolding with_capacity
  new b body = record {
    body = map_frame (λ d. b.copy_to_bytes d (b.remaining d)) body;
    buffer = with_capacity 256;
    line_buf = [];
    queue = with_capacity 16;
  }

  module _ (from_slice : Bytes → Result E T) where
    -- The handling of one extracted line: `line_buf` is taken, and put back cleared.
    pub take_line : NdjsonStream T E → Bytes → NdjsonStream T E
    take_line s buf = record s { queue = push_back s.queue (from_slice buf); line_buf = [] }

    -- A panic, or a copy loop without end, would be `none`.
    unfoldable pub append_frame :
        {D : Type 0} → Buf D → NdjsonStream T E → D → Option (NdjsonStream T E)
    unfolding read_frame scan take_line drain
    append_frame b s frame = do
      let old_len = len s.buffer
      buffer ← read_frame b extend (b.remaining frame + 1) s.buffer frame
      (s', processed) ←
          scan buffer take_line (len buffer - old_len) old_len (record s { buffer = buffer }, 0)
      rest ← drain processed s'.buffer
      some (record s' { buffer = rest })

    -- After a frame: the next item of the queue, or a wake-up and `Pending`.
    after_frame :
        NdjsonStream T E
        → Option (Result E T × Deque (Result E T))
        → Polled (Result E T) (NdjsonStream T E)
    after_frame s (some (r, rest)) = record {
      answer = ready (some r);
      woken = false;
      stream = record s { queue = rest };
    }
    after_frame s none = record { answer = pending; woken = true; stream = s }

    on_frame : NdjsonStream T E → Option Bytes → Option (Polled (Result E T) (NdjsonStream T E))
    unfolding append_frame after_frame
    on_frame s (some bytes) = do
      s' ← append_frame bytes_buf s bytes
      some (after_frame s' (pop_front s'.queue))
    on_frame s none = some (record { answer = pending; woken = true; stream = s })

    on_answer :
        NdjsonStream T E
        → Poll (Option (Result E (Frame Bytes)))
        → Option (Polled (Result E T) (NdjsonStream T E))
    unfolding on_frame
    on_answer s (ready (some (ok frame))) = on_frame s (into_data frame)
    on_answer s (ready (some (err e))) =
        some (record { answer = ready (some (err e)); woken = false; stream = s })
    on_answer s (ready none) = some (record { answer = ready none; woken = false; stream = s })
    on_answer s pending = some (record { answer = pending; woken = false; stream = s })

    -- `poll_next`: with nothing in the queue, one poll of the body.
    poll_next_with :
        NdjsonStream T E
        → Option (Result E T × Deque (Result E T))
        → Option (Polled (Result E T) (NdjsonStream T E))
    unfolding on_answer
    poll_next_with s (some (r, rest)) =
        some (record { answer = ready (some r); woken = false; stream = record s { queue = rest } })
    poll_next_with s none =
        let (answer, body) = poll_frame s.body in on_answer (record s { body = body }) answer

    unfoldable pub poll_next : NdjsonStream T E → Option (Polled (Result E T) (NdjsonStream T E))
    unfolding poll_next_with pop_front
    poll_next s = poll_next_with s (pop_front s.queue)
