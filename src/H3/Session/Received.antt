-- ===== src/H3/Session/Received.antt =====
-- The body of a response over HTTP/3: what `H3ResponseBody` gives to one poll after another.
use mathlib.Core.Option
use navar.Base.{
  ℕ, zero, suc, ◌+◌, ◌<◌, ◌≡◌, refl, sym, ap, ◌∙◌, [], ◌∷◌, ◌++◌, Option, none, some, Result, ok,
  err, Poll, ready, pending, Bytes, arith,
}
use navar.Body.{Body, Frame, item, not_ready, data_frame}
use navar.Buf.{Buf, bytes_buf}
use navar.H3.Session.{H3Error, H3ResponseBody, to_frame, poll_frame}
use navar.Reader.Pieces.{NeverFails, bytes_of}

-- `poll_recv_data` of a request stream: it gives the data that are still to come, and comes to an end.
pub record Receives (S N E : Type 0) (b : Buf N) : Type 0 where
  pub poll_recv_data : S → Poll (Result E (Option N)) × S
  pub coming : S → Bytes
  pub polls_left : S → ℕ
  pub coming_data :
      (s : S) (d : N)
      → (poll_recv_data s).0 ≡ ready (ok (some d))
      → coming s ≡ b.unread d ++ coming (poll_recv_data s).1
  pub coming_end : (s : S) → (poll_recv_data s).0 ≡ ready (ok none) → coming s ≡ []
  pub coming_pending :
      (s : S) → (poll_recv_data s).0 ≡ pending → coming s ≡ coming (poll_recv_data s).1
  pub polls_left_lt :
      (s : S)
      → ((poll_recv_data s).0 ≡ ready (ok none) → ⊥)
      → polls_left (poll_recv_data s).1 < polls_left s

module _ {S N E : Type 0} {b : Buf N} (r : Receives S N E b) where
  -- One poll's answer, and what follows it.
  abbrev then_rest :
      Poll (Option (Result (H3Error E) (Frame Bytes)))
      → Option (Body Bytes (H3Error E))
      → Option (Body Bytes (H3Error E))
  then_rest (ready none) rest = some []
  then_rest (ready (some fr)) rest = Option.map (λ body. item fr ∷ body) rest
  then_rest pending rest = Option.map (λ body. not_ready ∷ body) rest

  -- The answers of a body that ends within `fuel` polls.
  unfoldable pub answers : ℕ → H3ResponseBody S → Option (Body Bytes (H3Error E))
  answers zero s = none
  answers (suc fuel) s =
      then_rest (poll_frame b r.poll_recv_data s).0
        (answers fuel (poll_frame b r.poll_recv_data s).1)

  -- The answers are all of them, and give the bytes that were to come.
  pub record Received (s : S) (o : Option (Body Bytes (H3Error E))) : Type 0 where
    pub body : Body Bytes (H3Error E)
    pub all : o ≡ some body
    pub in_order : NeverFails body → bytes_of bytes_buf body ≡ r.coming s

  then_rest-Received :
      (s : S) (a : Poll (Result E (Option N))) {o : Option (Body Bytes (H3Error E))}
      → (r.poll_recv_data s).0 ≡ a
      → ((a ≡ ready (ok none) → ⊥) → Received (r.poll_recv_data s).1 o)
      → Received s (then_rest (to_frame b a) o)
  then_rest-Received s (ready (ok none)) e rest = record {
    body = [];
    all = refl;
    in_order = λ h. sym (r.coming_end s e);
  }
  then_rest-Received s (ready (ok (some d))) e rest =
      let left = rest (λ h. cc) in
      record {
        body = item (ok (data_frame (b.copy_to_bytes d (b.remaining d)))) ∷ left.body;
        all = rw left.all;
        in_order = λ h.
            ap (λ t. t ++ bytes_of bytes_buf left.body) (b.copy_to_bytes-unread d)
            ∙ ap (λ t. b.unread d ++ t) (left.in_order h)
            ∙ sym (r.coming_data s d e);
      }
  then_rest-Received s (ready (err x)) e rest =
      let left = rest (λ h. cc) in
      record {
        body = item (err (record { inner = x })) ∷ left.body;
        all = rw left.all;
        in_order = λ h. absurd h;
      }
  then_rest-Received s pending e rest =
      let left = rest (λ h. cc) in
      record {
        body = not_ready ∷ left.body;
        all = rw left.all;
        in_order = λ h. left.in_order h ∙ sym (r.coming_pending s e);
      }

  pub answers-Received :
      (fuel : ℕ) (s : S) → r.polls_left s < fuel → Received s (answers fuel (record { stream = s }))
  unfolding answers poll_frame
  answers-Received zero s h = elim h [ ]
  answers-Received (suc fuel) s h =
      then_rest-Received s (r.poll_recv_data s).0 refl (λ more.
        answers-Received fuel (r.poll_recv_data s).1 (omega (arith, r.polls_left_lt s more)))

  -- The body that a response has: all the answers of its stream.
  pub body_of : H3ResponseBody S → Body Bytes (H3Error E)
  body_of s = (answers-Received (r.polls_left s.stream + 1) s.stream (omega arith)).body

  pub answers_all :
      (s : H3ResponseBody S) → answers (r.polls_left s.stream + 1) s ≡ some (body_of s)
  unfolding body_of
  answers_all s = (answers-Received (r.polls_left s.stream + 1) s.stream (omega arith)).all

  -- Where no poll of a response's body is an error: polled often enough, it gives the answers of its body and
  -- ends, and the bytes of its frames are those that the request stream receives, in order.
  pub answers-body_of :
      (s : H3ResponseBody S)
      → NeverFails (body_of s)
      → (answers (r.polls_left s.stream + 1) s ≡ some (body_of s))
        × (bytes_of bytes_buf (body_of s) ≡ r.coming s.stream)
  unfolding body_of
  answers-body_of s h =
      let got = answers-Received (r.polls_left s.stream + 1) s.stream (omega arith) in
      (got.all, got.in_order h)
