-- ===== src/Reader.antt =====
-- What `SseStream` and `NdjsonStream` promise: both are a queue of items behind a body, which they poll
-- only when the queue is empty. `Machine` says so with no buffers: `read` is what a reader makes of more
-- bytes, given what it keeps between frames. `Reader` is the interface that the two streams fill.
pub mod Drive
pub mod Pieces
pub mod Failing
pub mod Wakes
use navar.Base.{
  ℕ, Bool, true, false, List, [], ◌∷◌, ◌++◌, Option, none, some, Result, ok, err, Poll, ready,
  pending, Bytes, ◌≡◌,
}
use navar.Body.{Answer, Body, Frame, into_data, not_ready, item, Polled}

-- `G` is what is kept between frames, `I` an item.
pub record Machine (G I E : Type 0) : Type 0 where
  pub kept : G
  pub queue : List (Result E I)
  pub body : Body Bytes E

module _ {G I E : Type 0} where
  -- With no item the reader asks to be polled again.
  unfoldable pub offer : G → List (Result E I) → Body Bytes E → Polled (Result E I) (Machine G I E)
  offer g [] b = record {
    answer = pending;
    woken = true;
    stream = record { kept = g; queue = []; body = b };
  }
  offer g (r ∷ rs) b = record {
    answer = ready (some r);
    woken = false;
    stream = record { kept = g; queue = rs; body = b };
  }

  unfoldable pub offer_frame :
      (G → Bytes → G × List (Result E I))
      → G
      → Option Bytes
      → Body Bytes E
      → Polled (Result E I) (Machine G I E)
  unfolding offer
  offer_frame read g none b = offer g [] b
  offer_frame read g (some d) b = offer (read g d).0 (read g d).1 b

  -- A poll of the machine, by its queue and its body.
  unfoldable pub poll_with :
      (G → Bytes → G × List (Result E I))
      → G
      → List (Result E I)
      → Body Bytes E
      → Polled (Result E I) (Machine G I E)
  unfolding offer_frame offer
  poll_with read g (r ∷ rs) b = offer g (r ∷ rs) b
  poll_with read g [] [] = record {
    answer = ready none;
    woken = false;
    stream = record { kept = g; queue = []; body = [] };
  }
  poll_with read g [] (not_ready ∷ b) = record {
    answer = pending;
    woken = false;
    stream = record { kept = g; queue = []; body = b };
  }
  poll_with read g [] (item (err e) ∷ b) = record {
    answer = ready (some (err e));
    woken = false;
    stream = record { kept = g; queue = []; body = b };
  }
  poll_with read g [] (item (ok frame) ∷ b) = offer_frame read g (into_data frame) b

  abbrev pub poll_machine :
      (G → Bytes → G × List (Result E I)) → Machine G I E → Polled (Result E I) (Machine G I E)
  poll_machine read m = poll_with read m.kept m.queue m.body

-- A stream `S` that does what the machine does: `poll` never panics, and `view` turns each of its polls
-- into one of the machine.
pub record Reader (S G I E : Type 0) : Type 0 where
  pub poll : S → Option (Polled (Result E I) S)
  pub view : S → Machine G I E
  pub read : G → Bytes → G × List (Result E I)
  pub poll-refines :
      (s : S)
      → (p : Polled (Result E I) S) × (poll s ≡ some p)
        × (record { answer = p.answer; woken = p.woken; stream = view p.stream }
            ≡ poll_machine read (view s))
