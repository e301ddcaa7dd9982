-- ===== src/H3/Streams/Sending.antt =====
-- What is given to a stream to send reaches the transport in order, and nothing else does.
use navar.Base.{
  ◌+◌, ◌≡◌, refl, sym, ap, ◌∙◌, List, [], ◌∷◌, ◌++◌, append-nil, append_assoc, Option, some, ok,
  ready, Bytes, length, ◌>>=◌, arith,
}
use navar.Buf.{Buf, bytes_buf}
use navar.H3.Streams.{Writer, H3SendStream, Answer, flush_after, poll_ready, poll_finish, send_data}
use navar.H3.Streams.Written.{
  Progresses, Written, write_out-Written, taken-flush_after, flush_after-ok, take_all_lem,
}

-- What h3 does with a stream that sends.
pub data Op (D : Type 0) : Type 0 where
  sends : D → Op D
  polls_ready polls_finish : Op D

module _ {S I D : Type 0} (w : Writer S I) (b : Buf D) where
  -- One operation, with rounds enough for the bytes that are buffered.
  abbrev pub perform : Op D → H3SendStream S → Option (H3SendStream S)
  perform (sends d) s = send_data b s d
  perform polls_ready s = poll_ready w (length s.buf + 1) s >>= λ r. some r.1
  perform polls_finish s = poll_finish w (length s.buf + 1) s >>= λ r. some r.1

  abbrev pub perform_all : List (Op D) → H3SendStream S → Option (H3SendStream S)
  perform_all [] s = some s
  perform_all (op ∷ ops) s = perform op s >>= perform_all ops

  abbrev pub data_of : List (Op D) → Bytes
  data_of [] = []
  data_of (sends d ∷ ops) = b.unread d ++ data_of ops
  data_of (polls_ready ∷ ops) = data_of ops
  data_of (polls_finish ∷ ops) = data_of ops

  -- All that was given: what the transport took, and what is still buffered.
  abbrev pub given : H3SendStream S → Bytes
  given s = w.taken s.inner ++ s.buf

  abbrev Performs : Op D → H3SendStream S → Option (H3SendStream S) → Type 0
  Performs op s r =
      (s' : H3SendStream S) × (r ≡ some s') × (given s' ≡ given s ++ data_of (op ∷ []))

  perform_lem : Progresses w → (op : Op D) (s : H3SendStream S) → Performs op s (perform op s)
  unfolding send_data poll_ready poll_finish
  perform_lem progress (sends d) s = (
    record s { buf = s.buf ++ b.unread d },
    rw (take_all_lem b s.buf d),
    sym (append_assoc (w.taken s.inner) s.buf (b.unread d))
        ∙ ap (λ t. given s ++ t) (sym (append-nil (b.unread d))),
  )
  perform_lem progress polls_ready s =
      let wr = write_out-Written w progress (length s.buf + 1) s.inner s.buf (omega arith) in
      (
        record { inner = wr.stream; buf = wr.left },
        rw wr.result,
        wr.in_order ∙ sym (append-nil (given s)),
      )
  perform_lem progress polls_finish s =
      let wr = write_out-Written w progress (length s.buf + 1) s.inner s.buf (omega arith) in
      (
        record { inner = (flush_after w wr.answer wr.stream).1; buf = wr.left },
        rw wr.result,
        ap (λ t. t ++ wr.left) (taken-flush_after w wr.answer wr.stream)
            ∙ wr.in_order
            ∙ sym (append-nil (given s)),
      )

  data_of-cons :
      (op : Op D) (ops : List (Op D)) → data_of (op ∷ ops) ≡ data_of (op ∷ []) ++ data_of ops
  data_of-cons (sends d) ops = ap (λ t. t ++ data_of ops) (sym (append-nil (b.unread d)))
  data_of-cons polls_ready ops = refl
  data_of-cons polls_finish ops = refl

  -- Over a transport whose writes make progress, each operation returns, and what the transport has
  -- taken, with what is buffered, is all the data that was given, in order: whatever the writes take at
  -- a time, and whichever of them fail or are not ready.
  pub perform_all-given :
      Progresses w
      → (ops : List (Op D)) (s : H3SendStream S)
      → (s' : H3SendStream S) × (perform_all ops s ≡ some s') × (given s' ≡ given s ++ data_of ops)
  perform_all-given progress [] s = (s, refl, sym (append-nil (given s)))
  perform_all-given progress (op ∷ ops) s =
      let (s₁, run, kept) = perform_lem progress op s in
      let (s₂, runs, keeps) = perform_all-given progress ops s₁ in
      (
        s₂,
        rw run runs,
        keeps
            ∙ ap (λ t. t ++ data_of ops) kept
            ∙ append_assoc (given s) (data_of (op ∷ [])) (data_of ops)
            ∙ ap (λ t. given s ++ t) (sym (data_of-cons op ops)),
      )

  ready_with : Option (Answer × S × Bytes) → Option (Answer × H3SendStream S)
  ready_with r = do (answer, inner, buf) ← r; some (answer, record { inner = inner; buf = buf })

  finish_with : Option (Answer × S × Bytes) → Option (Answer × H3SendStream S)
  unfolding ready_with
  finish_with r = do
    (answer, s') ← ready_with r
    some
        ((flush_after w answer s'.inner).0, record s' { inner = (flush_after w answer s'.inner).1 })

  finish_with-taken :
      (s s' : H3SendStream S) {r : Option (Answer × S × Bytes)}
      → Written w s.inner s.buf r
      → finish_with r ≡ some (ready (ok tt), s')
      → (s'.buf ≡ []) × (w.taken s'.inner ≡ given s)
  unfolding finish_with
  finish_with-taken s s' wr e =
      let at_end = rw wr.result at e in
      let done : (flush_after w wr.answer wr.stream).0 ≡ ready (ok tt) = cc at_end in
      let same : record { inner = (flush_after w wr.answer wr.stream).1; buf = wr.left } ≡ s' =
        cc at_end in
      let empty : wr.left ≡ [] = wr.all_out (flush_after-ok w wr.answer wr.stream done) in
      (
        ap (λ t. t.buf) (sym same) ∙ empty,
        ap (λ t. w.taken t.inner) (sym same)
            ∙ taken-flush_after w wr.answer wr.stream
            ∙ sym (append-nil (w.taken wr.stream))
            ∙ ap (λ t. w.taken wr.stream ++ t) (sym empty)
            ∙ wr.in_order,
      )

  -- Over a transport whose writes make progress, where `poll_finish` answers `Ok`, the transport has
  -- taken all that was given, and nothing is still buffered.
  pub poll_finish-taken :
      Progresses w
      → (s s' : H3SendStream S) → poll_finish w (length s.buf + 1) s ≡ some (ready (ok tt), s')
      → (s'.buf ≡ []) × (w.taken s'.inner ≡ given s)
  unfolding poll_finish poll_ready finish_with
  poll_finish-taken progress s s' h =
      finish_with-taken s s'
        (write_out-Written w progress (length s.buf + 1) s.inner s.buf (omega arith)) h
