-- ===== src/H3/Streams/Written.antt =====
-- The loop that writes a buffer out, the flush after it, and the loop that fills a buffer.
use navar.Base.{
  ℕ, zero, suc, ◌<◌, ◌≡◌, ◌≢◌, refl, sym, ap, ◌∙◌, inl, inr, [], ◌∷◌, ◌++◌, append-nil,
  append_assoc, Option, some, Result, ok, err, Poll, ready, pending, Bytes, true, take, drop,
  length, le→leb, ◌==◌, arith, length-drop, take-append-drop, Bool-cases, ==_iff, length_zero,
  drop-length,
}
use navar.Buf.{Buf, bytes_buf}
use navar.H3.Errors.{stream_error}
use navar.H3.Streams.{Writer, Answer, after_write, write_out, flush_after, take_all}

-- A write that takes nothing of a buffer that is not empty does not happen.
abbrev pub Progresses : {S I : Type 0} → Writer S I → Type 0
Progresses {S} w =
    (s : S) (bs : Bytes) (n : ℕ) → bs ≢ [] → (w.poll_write s bs).0 ≡ ready (ok n) → 0 < n

module _ {S I : Type 0} (w : Writer S I) where
  -- The outcome of the loop: nothing is lost, and an `Ok` means that all is out.
  pub record Written (s : S) (buf : Bytes) (r : Option (Answer × S × Bytes)) : Type 0 where
    pub answer : Answer
    pub stream : S
    pub left : Bytes
    pub result : r ≡ some (answer, stream, left)
    pub in_order : w.taken stream ++ left ≡ w.taken s ++ buf
    pub all_out : answer ≡ ready (ok tt) → left ≡ []

  Written-take :
      (s s' : S) (buf : Bytes) (n : ℕ) {r : Option (Answer × S × Bytes)}
      → w.taken s' ≡ w.taken s ++ take n buf
      → Written s' (drop n buf) r
      → Written s buf r
  Written-take s s' buf n took rest = record {
    answer = rest.answer;
    stream = rest.stream;
    left = rest.left;
    result = rest.result;
    in_order =
        rest.in_order
        ∙ ap (λ t. t ++ drop n buf) took
        ∙ append_assoc (w.taken s) (take n buf) (drop n buf)
        ∙ ap (λ t. w.taken s ++ t) (take-append-drop n buf);
    all_out = rest.all_out;
  }

  after_write-Written :
      (again : S → Bytes → Option (Answer × S × Bytes)) (s : S) (buf : Bytes)
      (a : Poll (Result I ℕ))
      → (w.poll_write s buf).0 ≡ a
      → ((n : ℕ)
          → a ≡ ready (ok n)
          → Written (w.poll_write s buf).1 (drop n buf) (again (w.poll_write s buf).1 (drop n buf)))
      → Written s buf (after_write w again buf (a, (w.poll_write s buf).1))
  unfolding after_write
  after_write-Written again s buf (ready (ok n)) e next =
      let (fits, took) = w.taken_write s buf n e in
      rw (le→leb n (length buf) fits)
        (Written-take s (w.poll_write s buf).1 buf n took (next n refl))
  after_write-Written again s buf (ready (err x)) e next = record {
    answer = ready (err stream_error);
    stream = (w.poll_write s buf).1;
    left = buf;
    result = refl;
    in_order = ap (λ t. t ++ buf) (w.taken_no_write s buf (λ n h. cc));
    all_out = λ h. cc;
  }
  after_write-Written again s buf pending e next = record {
    answer = pending;
    stream = (w.poll_write s buf).1;
    left = buf;
    result = refl;
    in_order = ap (λ t. t ++ buf) (w.taken_no_write s buf (λ n h. cc));
    all_out = λ h. cc;
  }

  pub write_out-Written :
      Progresses w
      → (fuel : ℕ) (s : S) (buf : Bytes) → length buf < fuel
      → Written s buf (write_out w fuel s buf)
  unfolding write_out
  write_out-Written progress zero s buf h = elim h [ ]
  write_out-Written progress (suc fuel) s [] h = record {
    answer = ready (ok tt);
    stream = s;
    left = [];
    result = refl;
    in_order = refl;
    all_out = λ e. refl;
  }
  write_out-Written progress (suc fuel) s (x ∷ buf) h =
      after_write-Written (write_out w fuel) s (x ∷ buf) (w.poll_write s (x ∷ buf)).0 refl (λ n e.
        write_out-Written progress fuel (w.poll_write s (x ∷ buf)).1 (drop n (x ∷ buf))
          (omega (arith, progress s (x ∷ buf) n (λ k. cc) e, length-drop n (x ∷ buf))))

  pub taken-flush_after : (a : Answer) (s : S) → w.taken (flush_after w a s).1 ≡ w.taken s
  unfolding flush_after
  taken-flush_after (ready (ok u)) s = w.taken_flush s
  taken-flush_after (ready (err e)) s = refl
  taken-flush_after pending s = refl

  pub flush_after-ok :
      (a : Answer) (s : S) → (flush_after w a s).0 ≡ ready (ok tt) → a ≡ ready (ok tt)
  unfolding flush_after
  flush_after-ok (ready (ok tt)) s h = refl
  flush_after-ok (ready (err e)) s h = cc
  flush_after-ok pending s h = cc

module _ {D : Type 0} (b : Buf D) where
  nothing_unread : (d : D) → b.remaining d ≡ 0 → b.unread d ≡ []
  nothing_unread d e = length_zero (b.unread d) (sym (b.remaining-unread d) ∙ e)

  emptied : (d : D) → (b.remaining (b.advance d (b.remaining d)) == 0) ≡ true
  emptied d =
      let gone : b.unread (b.advance d (b.remaining d)) ≡ [] =
        b.advance-unread d (b.remaining d) (omega arith)
        ∙ ap (λ n. drop n (b.unread d)) (b.remaining-unread d)
        ∙ drop-length (b.unread d) in
      (==_iff _ 0).1 (b.remaining-unread (b.advance d (b.remaining d)) ∙ ap length gone)

  pub take_all_lem : (buf : Bytes) (d : D) → take_all b 2 buf d ≡ some (buf ++ b.unread d)
  unfolding take_all
  take_all_lem buf d = elim (Bool-cases (b.remaining d == 0)) [
    | inl e ↦ rw e (
        ap some
          (sym (append-nil buf) ∙ ap (λ t. buf ++ t) (sym (nothing_unread d ((==_iff _ _).0 e)))))
    | inr e ↦ rw (e, emptied d, b.copy_to_bytes-unread d)
  ]
