-- ===== src/Ndjson/Polling.antt =====
-- `NdjsonStream::poll_next` is the reader's machine, with the parsed lines as items.
use navar.Base.{
  ◌≡◌, refl, ap, ap₂, subst, ◌∙◌, inl, inr, List, [], ◌∷◌, ◌++◌, map, Option, some, Result, ok, err,
  Bytes,
}
use navar.Body.{Body, data_frame, trailers_frame, not_ready, item, Polled, poll_frame}
use navar.Buf.{bytes_buf}
use navar.Lines.Split.{cut}
use navar.Ndjson.Append.{append_frame-After}
use navar.Ndjson.{NdjsonStream, after_frame, on_frame, on_answer, poll_next}
use navar.Reader.{Machine, offer, offer_frame, poll_with, poll_machine}
use navar.Std.Deque.Laws.{pop_front-Pops}
use navar.Std.Deque.{contents, pop_front}

module _ {T E : Type 0} (from_slice : Bytes → Result E T) where
  -- What a frame brings: an item for each line that it completes. The line begun is kept.
  abbrev pub read : Bytes → Bytes → Bytes × List (Result E T)
  read left bs = ((cut left bs).left, map from_slice (cut left bs).lines)

  abbrev pub machine : NdjsonStream T E → Machine Bytes T E
  machine s = record { kept = contents s.buffer; queue = contents s.queue; body = s.body }

  abbrev seen : Polled (Result E T) (NdjsonStream T E) → Polled (Result E T) (Machine Bytes T E)
  seen p = record { answer = p.answer; woken = p.woken; stream = machine p.stream }

  abbrev Refines :
      Option (Polled (Result E T) (NdjsonStream T E))
      → Polled (Result E T) (Machine Bytes T E)
      → Type 0
  Refines r m = (p : Polled (Result E T) (NdjsonStream T E)) × (r ≡ some p) × (seen p ≡ m)

  after_frame-Refines :
      (s : NdjsonStream T E)
      → Refines
          (some (after_frame from_slice s (pop_front s.queue)))
          (offer (contents s.buffer) (contents s.queue) s.body)
  unfolding after_frame offer
  after_frame-Refines s = elim (pop_front-Pops s.queue) [
    | inl (empty, e) ↦ rw (e, empty) (_, refl, rw empty)
    | inr (r, rest, c, e) ↦ rw (e, c) (_, refl, refl)
  ]

  data-Refines :
      (s : NdjsonStream T E) (d : Bytes)
      → contents s.queue ≡ []
      → Refines
          (on_frame from_slice s (some d))
          (offer_frame read (contents s.buffer) (some d) s.body)
  unfolding on_frame offer_frame
  data-Refines s d empty =
      let a = append_frame-After from_slice bytes_buf s d in
      rw a.result (
        subst (Refines (some (after_frame from_slice a.stream (pop_front a.stream.queue))))
          (ap₂ (λ k q. offer k q a.stream.body) a.left
              (a.items ∙ ap (λ q. q ++ map from_slice (cut (contents s.buffer) d).lines) empty)
            ∙ ap (offer _ _) a.same_body)
          (after_frame-Refines a.stream))

  body-Refines :
      (s : NdjsonStream T E) (b : Body Bytes E)
      → contents s.queue ≡ []
      → Refines
          (on_answer from_slice (record s { body = (poll_frame b).1 }) (poll_frame b).0)
          (poll_with read (contents s.buffer) [] b)
  unfolding on_answer poll_with on_frame offer_frame offer
  body-Refines s [] empty = (_, refl, rw empty)
  body-Refines s (not_ready ∷ b) empty = (_, refl, rw empty)
  body-Refines s (item (err e) ∷ b) empty = (_, refl, rw empty)
  body-Refines s (item (ok (trailers_frame h)) ∷ b) empty = (_, refl, rw empty)
  body-Refines s (item (ok (data_frame d)) ∷ b) empty = data-Refines (record s { body = b }) d empty

  -- Every poll of an `NdjsonStream` is one of the machine: it does not panic, it gives the same answer
  -- and the same wake-up, and leaves the same state.
  pub poll_next-machine :
      (s : NdjsonStream T E) → Refines (poll_next from_slice s) (poll_machine read (machine s))
  unfolding poll_next poll_with offer
  poll_next-machine s = elim (pop_front-Pops s.queue) [
    | inl (empty, e) ↦ rw (e, empty) (body-Refines s s.body empty)
    | inr (r, rest, c, e) ↦ rw (e, c) (_, refl, refl)
  ]
