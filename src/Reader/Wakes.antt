-- ===== src/Reader/Wakes.antt =====
-- When a reader that answers `Pending` is polled again.
use navar.Base.{
  ◌≡◌, refl, sym, ap, ◌∙◌, inl, inr, ◌⊎◌, true, List, [], ◌∷◌, Option, none, some, Result, ok, err,
  Poll, ready, pending, Bytes,
}
use navar.Body.{Body, data_frame, trailers_frame, not_ready, item, Polled, poll_frame}
use navar.Reader.{Machine, Reader, offer, offer_frame, poll_with, poll_machine}

-- The task will be woken: the reader has seen to it, or the body has, which it has polled.
abbrev pub Wakes : {A S E : Type 0} → Body Bytes E → Polled A S → Type 0
Wakes body p = (p.woken ≡ true) ⊎ ((poll_frame body).0 ≡ pending)

module _ {G I E : Type 0} (read : G → Bytes → G × List (Result E I)) where
  offer-Wakes :
      (g : G) (q : List (Result E I)) (b b' : Body Bytes E)
      → (offer g q b).answer ≡ pending
      → Wakes b' (offer g q b)
  unfolding offer
  offer-Wakes g [] b b' h = inl refl
  offer-Wakes g (r ∷ q) b b' h = cc

  poll_with-Wakes :
      (g : G) (q : List (Result E I)) (b : Body Bytes E)
      → (poll_with read g q b).answer ≡ pending
      → Wakes b (poll_with read g q b)
  unfolding poll_with offer_frame
  poll_with-Wakes g (r ∷ q) b h = offer-Wakes g (r ∷ q) b b h
  poll_with-Wakes g [] [] h = cc
  poll_with-Wakes g [] (not_ready ∷ b) h = inr refl
  poll_with-Wakes g [] (item (err e) ∷ b) h = cc
  poll_with-Wakes g [] (item (ok (trailers_frame t)) ∷ b) h =
      offer-Wakes g [] b (item (ok (trailers_frame t)) ∷ b) h
  poll_with-Wakes g [] (item (ok (data_frame d)) ∷ b) h =
      offer-Wakes (read g d).0 (read g d).1 b (item (ok (data_frame d)) ∷ b) h

  -- What a machine answers after its end.
  abbrev Ended : Polled (Result E I) (Machine G I E) → Type 0
  Ended p = (poll_machine read p.stream).answer ≡ ready none

  offer-Ended :
      (g : G) (q : List (Result E I)) (b : Body Bytes E)
      → (offer g q b).answer ≡ ready none
      → Ended (offer g q b)
  unfolding offer
  offer-Ended g [] b h = cc
  offer-Ended g (r ∷ q) b h = cc

  poll_with-Ended :
      (g : G) (q : List (Result E I)) (b : Body Bytes E)
      → (poll_with read g q b).answer ≡ ready none
      → Ended (poll_with read g q b)
  unfolding poll_with offer_frame
  poll_with-Ended g (r ∷ q) b h = offer-Ended g (r ∷ q) b h
  poll_with-Ended g [] [] h = refl
  poll_with-Ended g [] (not_ready ∷ b) h = cc
  poll_with-Ended g [] (item (err e) ∷ b) h = cc
  poll_with-Ended g [] (item (ok (trailers_frame t)) ∷ b) h = offer-Ended g [] b h
  poll_with-Ended g [] (item (ok (data_frame d)) ∷ b) h = offer-Ended (read g d).0 (read g d).1 b h

module _ {S G I E : Type 0} (r : Reader S G I E) where
  abbrev Ends : S → Type 0
  Ends s = (q : Polled (Result E I) S) × (r.poll s ≡ some q) × (q.answer ≡ ready none)

  -- After `Pending` the task will be woken; after the end, the next poll answers the end again.
  abbrev pub Settled : S → Polled (Result E I) S → Poll (Option (Result E I)) → Type 0
  Settled s p pending = Wakes (r.view s).body p
  Settled s p (ready none) = Ends p.stream
  Settled s p (ready (some x)) = Unit {0}

  Settled-seen :
      (s : S) (p : Polled (Result E I) S)
      → record { answer = p.answer; woken = p.woken; stream = r.view p.stream }
        ≡ poll_machine r.read (r.view s)
      → (a : Poll (Option (Result E I))) → p.answer ≡ a
      → Settled s p a
  Settled-seen s p same pending e =
      elim (poll_with-Wakes r.read (r.view s).kept (r.view s).queue (r.view s).body
        (sym (ap (λ x. x.answer) same) ∙ e)) [
          | inl w ↦ inl (ap (λ x. x.woken) same ∙ w)
          | inr w ↦ inr w
        ]
  Settled-seen s p same (ready none) e =
      let (q, run, again) = r.poll-refines p.stream in
      (
        q,
        run,
        ap (λ x. x.answer) again
            ∙ ap (λ x. (poll_machine r.read x.stream).answer) same
            ∙ poll_with-Ended r.read (r.view s).kept (r.view s).queue (r.view s).body
                (sym (ap (λ x. x.answer) same) ∙ e),
      )
  Settled-seen s p same (ready (some x)) e = tt

  pub poll-Settled :
      (s : S) → (p : Polled (Result E I) S) × (r.poll s ≡ some p) × Settled s p p.answer
  poll-Settled s =
      let (p, run, same) = r.poll-refines s in (p, run, Settled-seen s p same p.answer refl)
