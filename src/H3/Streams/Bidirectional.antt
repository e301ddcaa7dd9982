-- ===== src/H3/Streams/Bidirectional.antt =====
-- A bidirectional stream sends and receives at once: its operations in any order, over a transport whose
-- two directions do not disturb each other.
use navar.Base.{
  ℕ, zero, suc, ◌+◌, ◌≡◌, refl, sym, ap, ◌∙◌, List, [], ◌∷◌, ◌++◌, append-nil, append_assoc, Option,
  some, Result, ok, err, Poll, ready, pending, Bytes, drop, length, leb, ◌>>=◌, Bool-cases, inl,
  inr, arith,
}
use navar.Buf.{Buf}
use navar.H3.Streams.Receiving.{piece, read_lem}
use navar.H3.Streams.Sending.{Op, sends, polls_ready, polls_finish}
use navar.H3.Streams.Written.{
  Progresses, write_out-Written, taken-flush_after, flush_after-ok, take_all_lem,
}
use navar.H3.Streams.{
  Writer, Source, Answer, H3BidiStream, after_write, write_out, flush_after, poll_ready_bidi,
  poll_finish_bidi, send_data_bidi, poll_data_bidi,
}

-- A read takes nothing out, and a write or a flush brings nothing in.
pub record Independent {S I : Type 0} (w : Writer S I) (r : Source S I) : Type 0 where
  pub taken_read : (s : S) (cap : ℕ) → w.taken (r.poll_read s cap).1 ≡ w.taken s
  pub coming_write : (s : S) (bs : Bytes) → r.coming (w.poll_write s bs).1 ≡ r.coming s
  pub coming_flush : (s : S) → r.coming (w.poll_flush s).1 ≡ r.coming s

-- What h3 does with a stream of both directions.
pub data BidiOp (D : Type 0) : Type 0 where
  out : Op D → BidiOp D
  polls_data : BidiOp D

module _ {S I D : Type 0} (w : Writer S I) (r : Source S I) (b : Buf D) where
  -- One operation, with rounds enough for the bytes that are buffered: the data it brings, and the stream.
  abbrev pub run_op : BidiOp D → H3BidiStream S → Option (Bytes × H3BidiStream S)
  run_op (out (sends d)) s = send_data_bidi b s d >>= λ s'. some ([], s')
  run_op (out polls_ready) s = poll_ready_bidi w (length s.send_buf + 1) s >>= λ p. some ([], p.1)
  run_op (out polls_finish) s = poll_finish_bidi w (length s.send_buf + 1) s >>= λ p. some ([], p.1)
  run_op polls_data s = some (piece (poll_data_bidi r s).0, (poll_data_bidi r s).1)

  abbrev pub run_all : List (BidiOp D) → H3BidiStream S → Option (Bytes × H3BidiStream S)
  run_all [] s = some ([], s)
  run_all (op ∷ ops) s = run_op op s >>= λ p. run_all ops p.1 >>= λ q. some (p.0 ++ q.0, q.1)

  -- The data that is given to be sent.
  abbrev pub data_in : BidiOp D → Bytes
  data_in (out (sends d)) = b.unread d
  data_in (out polls_ready) = []
  data_in (out polls_finish) = []
  data_in polls_data = []

  abbrev pub all_data_in : List (BidiOp D) → Bytes
  all_data_in [] = []
  all_data_in (op ∷ ops) = data_in op ++ all_data_in ops

  -- All that was given to be sent: what the transport took, and what is still buffered.
  abbrev pub given_out : H3BidiStream S → Bytes
  given_out s = w.taken s.inner ++ s.send_buf

  -- What is sent for good after `poll_finish`: after an `Ok` only what the transport took counts.
  abbrev pub delivered : Answer → H3BidiStream S → Bytes
  delivered (ready (ok u)) t = w.taken t.inner
  delivered (ready (err e)) t = given_out t
  delivered pending t = given_out t

  -- What a run brings is what was to come, and what it was given is taken or buffered, in order.
  pub record Kept (s : H3BidiStream S) (given : Bytes) (o : Option (Bytes × H3BidiStream S))
      : Type 0 where
    pub brought : Bytes
    pub left : H3BidiStream S
    pub returns : o ≡ some (brought, left)
    pub outwards : given_out left ≡ given_out s ++ given
    pub inwards : r.coming s.inner ≡ brought ++ r.coming left.inner

  module _ (progress : Progresses w) (apart : Independent w r) where
    after_write-coming :
        (again : S → Bytes → Option (Answer × S × Bytes)) (buf : Bytes) (a : Poll (Result I ℕ))
        (s t : S) (answer : Answer) (left : Bytes)
        → ((n : ℕ) → again s (drop n buf) ≡ some (answer, t, left) → r.coming t ≡ r.coming s)
        → after_write w again buf (a, s) ≡ some (answer, t, left)
        → r.coming t ≡ r.coming s
    unfolding after_write
    after_write-coming again buf (ready (ok n)) s t answer left next h =
        elim (Bool-cases (leb n (length buf))) [
          | inl e ↦ next n (rw e at h)
          | inr e ↦ let no = rw e at h in cc no
        ]
    after_write-coming again buf (ready (err e)) s t answer left next h =
        let same : s ≡ t = cc h in ap r.coming (sym same)
    after_write-coming again buf pending s t answer left next h =
        let same : s ≡ t = cc h in ap r.coming (sym same)

    write_out-coming :
        (fuel : ℕ) (s : S) (buf : Bytes) (answer : Answer) (t : S) (left : Bytes)
        → write_out w fuel s buf ≡ some (answer, t, left)
        → r.coming t ≡ r.coming s
    unfolding write_out
    write_out-coming zero s buf answer t left h = cc
    write_out-coming (suc fuel) s [] answer t left h =
        let same : s ≡ t = cc h in ap r.coming (sym same)
    write_out-coming (suc fuel) s (x ∷ buf) answer t left h =
        after_write-coming (write_out w fuel) (x ∷ buf) (w.poll_write s (x ∷ buf)).0
          (w.poll_write s (x ∷ buf)).1 t answer left
          (λ n e.
            write_out-coming fuel (w.poll_write s (x ∷ buf)).1 (drop n (x ∷ buf)) answer t left e)
          h
        ∙ apart.coming_write s (x ∷ buf)

    flush_after-coming : (a : Answer) (s : S) → r.coming (flush_after w a s).1 ≡ r.coming s
    unfolding flush_after
    flush_after-coming (ready (ok u)) s = apart.coming_flush s
    flush_after-coming (ready (err e)) s = refl
    flush_after-coming pending s = refl

    run_op-Kept : (op : BidiOp D) (s : H3BidiStream S) → Kept s (data_in op) (run_op op s)
    unfolding send_data_bidi poll_ready_bidi poll_finish_bidi poll_data_bidi
    run_op-Kept (out (sends d)) s = record {
      brought = [];
      left = record s { send_buf = s.send_buf ++ b.unread d };
      returns = rw (take_all_lem b s.send_buf d);
      outwards = sym (append_assoc (w.taken s.inner) s.send_buf (b.unread d));
      inwards = refl;
    }
    run_op-Kept (out polls_ready) s =
        let wr =
          write_out-Written w progress (length s.send_buf + 1) s.inner s.send_buf (omega arith) in
        record {
          brought = [];
          left = record { inner = wr.stream; send_buf = wr.left };
          returns = rw wr.result;
          outwards = wr.in_order ∙ sym (append-nil (given_out s));
          inwards = sym (
              write_out-coming (length s.send_buf + 1) s.inner s.send_buf wr.answer wr.stream
                wr.left wr.result);
        }
    run_op-Kept (out polls_finish) s =
        let wr =
          write_out-Written w progress (length s.send_buf + 1) s.inner s.send_buf (omega arith) in
        record {
          brought = [];
          left = record { inner = (flush_after w wr.answer wr.stream).1; send_buf = wr.left };
          returns = rw wr.result;
          outwards =
              ap (λ t. t ++ wr.left) (taken-flush_after w wr.answer wr.stream)
              ∙ wr.in_order
              ∙ sym (append-nil (given_out s));
          inwards = sym (
              flush_after-coming wr.answer wr.stream
              ∙ write_out-coming (length s.send_buf + 1) s.inner s.send_buf wr.answer wr.stream
                  wr.left wr.result);
        }
    run_op-Kept polls_data s = record {
      brought = piece (poll_data_bidi r s).0;
      left = record s { inner = (r.poll_read s.inner 4096).1 };
      returns = refl;
      outwards =
          ap (λ t. t ++ s.send_buf) (apart.taken_read s.inner 4096)
          ∙ sym (append-nil (given_out s));
      inwards = read_lem r s.inner (r.poll_read s.inner 4096).0 refl;
    }

    run_all-Kept :
        (ops : List (BidiOp D)) (s : H3BidiStream S) → Kept s (all_data_in ops) (run_all ops s)
    run_all-Kept [] s = record {
      brought = [];
      left = s;
      returns = refl;
      outwards = sym (append-nil (given_out s));
      inwards = refl;
    }
    run_all-Kept (op ∷ ops) s =
        let one = run_op-Kept op s in
        let rest = run_all-Kept ops one.left in
        record {
          brought = one.brought ++ rest.brought;
          left = rest.left;
          returns = rw one.returns rw rest.returns;
          outwards =
              rest.outwards
              ∙ ap (λ t. t ++ all_data_in ops) one.outwards
              ∙ append_assoc (given_out s) (data_in op) (all_data_in ops);
          inwards =
              one.inwards
              ∙ ap (λ t. one.brought ++ t) rest.inwards
              ∙ sym (append_assoc one.brought rest.brought (r.coming rest.left.inner));
        }

    delivered_lem :
        (a : Answer) (t : H3BidiStream S) {given : Bytes}
        → given_out t ≡ given
        → (a ≡ ready (ok tt) → t.send_buf ≡ [])
        → delivered a t ≡ given
    delivered_lem (ready (ok tt)) t all empty =
        sym (append-nil (w.taken t.inner))
        ∙ ap (λ left. w.taken t.inner ++ left) (sym (empty refl))
        ∙ all
    delivered_lem (ready (err e)) t all empty = all
    delivered_lem pending t all empty = all

    -- A stream that is polled to finish, with rounds enough for the bytes that are buffered.
    delivered-finish :
        (s : H3BidiStream S)
        → (answer : Answer) × (t : H3BidiStream S) × (poll_finish_bidi w (length s.send_buf + 1) s
            ≡ some (answer, t))
          × (delivered answer t ≡ given_out s)
    unfolding poll_finish_bidi poll_ready_bidi
    delivered-finish s =
        let wr =
          write_out-Written w progress (length s.send_buf + 1) s.inner s.send_buf (omega arith) in
        let t : H3BidiStream S = record {
          inner = (flush_after w wr.answer wr.stream).1;
          send_buf = wr.left;
        } in
        (
          (flush_after w wr.answer wr.stream).0,
          t,
          rw wr.result,
          delivered_lem (flush_after w wr.answer wr.stream).0 t
              (ap (λ u. u ++ wr.left) (taken-flush_after w wr.answer wr.stream) ∙ wr.in_order)
              (λ h. wr.all_out (flush_after-ok w wr.answer wr.stream h)),
        )

    -- Over a transport whose writes make progress, and whose reads, writes and flushes leave the other
    -- direction alone, a bidirectional stream that is given data to send, is polled to write it out or to
    -- finish, and is polled for data, in any order, returns from each of these, and keeps both directions.
    -- What the transport has taken, with what is buffered, is all the data that was given, in order; once
    -- the stream is then polled to finish, and answers `Ok`, the transport alone has taken all of it. The
    -- data that it brought, with what is still to come, is what was to come, in order.
    pub run_all-given_out :
        (ops : List (BidiOp D)) (s : H3BidiStream S)
        → (brought : Bytes) × (left : H3BidiStream S) × (run_all ops s ≡ some (brought, left))
          × (given_out left ≡ given_out s ++ all_data_in ops)
          × (r.coming s.inner ≡ brought ++ r.coming left.inner)
          × (answer : Answer) × (t : H3BidiStream S) × (poll_finish_bidi w
                (length left.send_buf + 1)
                left
              ≡ some (answer, t))
          × (delivered answer t ≡ given_out s ++ all_data_in ops)
    run_all-given_out ops s =
        let v = run_all-Kept ops s in
        let (answer, t, finished, all) = delivered-finish v.left in
        (v.brought, v.left, v.returns, v.outwards, v.inwards, answer, t, finished, all ∙ v.outwards)
