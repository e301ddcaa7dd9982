-- ===== src/Reader/Drive.antt =====
-- A task that polls a reader until its stream ends.
use navar.Base.{
  ℕ, zero, suc, ◌+◌, ◌<◌, List, [], ◌∷◌, ◌++◌, Option, none, some, Result, ok, err, Poll, ready,
  pending, Bytes, ◌≡◌, refl, ap, ◌∙◌, length, ◌>>=◌, arith,
}
use navar.Body.{Body, data_frame, trailers_frame, not_ready, item, Polled}
use navar.Reader.{Machine, Reader, offer, poll_with, poll_machine}

after_poll : {A : Type 0} → Poll (Option A) → Option (List A) → Option (List A)
after_poll (ready (some a)) rest = do later ← rest; some (a ∷ later)
after_poll (ready none) rest = some []
after_poll pending rest = rest

-- The items of at most `fuel` polls, up to the end of the stream; `none` means that it has not ended.
unfoldable pub drive : {S A : Type 0} → (S → Option (Polled A S)) → ℕ → S → Option (List A)
unfolding after_poll
drive poll zero s = none
drive poll (suc fuel) s = do
  p ← poll s
  let rest = drive poll fuel p.stream
  after_poll p.answer rest

module _ {G I E : Type 0} (read : G → Bytes → G × List (Result E I)) where
  -- The items to come: those of each frame, and the body's errors, in order. What follows the last
  -- complete item is not among them.
  unfoldable pub items_of : G → Body Bytes E → List (Result E I)
  items_of g [] = []
  items_of g (not_ready ∷ b) = items_of g b
  items_of g (item (err e) ∷ b) = err e ∷ items_of g b
  items_of g (item (ok (trailers_frame h)) ∷ b) = items_of g b
  items_of g (item (ok (data_frame d)) ∷ b) = (read g d).1 ++ items_of (read g d).0 b

  abbrev pub to_come : Machine G I E → List (Result E I)
  to_come m = m.queue ++ items_of m.kept m.body

  abbrev poll_total : Machine G I E → Option (Polled (Result E I) (Machine G I E))
  poll_total m = some (poll_machine read m)

  abbrev Drives : ℕ → G → List (Result E I) → Body Bytes E → Type 0
  Drives fuel g q b =
      length (q ++ items_of g b) + length b < fuel
      → drive poll_total fuel (record { kept = g; queue = q; body = b }) ≡ some (q ++ items_of g b)

  -- What a poll offers, and then the rest.
  drive-offer :
      (fuel : ℕ) (g : G) (q : List (Result E I)) (b : Body Bytes E)
      → ((q' : List (Result E I)) → Drives fuel g q' b)
      → length (q ++ items_of g b) + length b < fuel
      → after_poll (offer g q b).answer (drive poll_total fuel (offer g q b).stream)
        ≡ some (q ++ items_of g b)
  unfolding offer after_poll
  drive-offer fuel g [] b next h = next [] h
  drive-offer fuel g (r ∷ q) b next h = rw (next q (omega arith))

  drive_machine : (fuel : ℕ) (g : G) (q : List (Result E I)) (b : Body Bytes E) → Drives fuel g q b
  unfolding drive poll_with items_of
  drive_machine zero g q b h = elim h [ ]
  drive_machine (suc fuel) g (r ∷ q) b h = rw (drive_machine fuel g q b (omega arith))
  drive_machine (suc fuel) g [] [] h = refl
  drive_machine (suc fuel) g [] (not_ready ∷ b) h = drive_machine fuel g [] b (omega arith)
  drive_machine (suc fuel) g [] (item (err e) ∷ b) h = rw (drive_machine fuel g [] b (omega arith))
  drive_machine (suc fuel) g [] (item (ok (trailers_frame t)) ∷ b) h =
      drive_machine fuel g [] b (omega arith)
  drive_machine (suc fuel) g [] (item (ok (data_frame d)) ∷ b) h =
      drive-offer fuel (read g d).0 (read g d).1 b (λ q'. drive_machine fuel (read g d).0 q' b)
        (omega arith)

module _ {S G I E : Type 0} (r : Reader S G I E) where
  -- The stream and the machine give the same items in the same polls.
  drive_refines :
      (fuel : ℕ) (s : S) → drive r.poll fuel s ≡ drive (poll_total r.read) fuel (r.view s)
  unfolding drive
  drive_refines zero s = refl
  drive_refines (suc fuel) s =
      let (p, polled, same) = r.poll-refines s in
      rw (polled, ← same) (ap (after_poll p.answer) (drive_refines fuel p.stream))

  -- Enough polls give every item of the body, in order, and then the end of the stream.
  pub drive-items_of :
      (fuel : ℕ) (s : S)
      → length (to_come r.read (r.view s)) + length (r.view s).body < fuel
      → drive r.poll fuel s ≡ some (to_come r.read (r.view s))
  drive-items_of fuel s h =
      drive_refines fuel s
      ∙ drive_machine r.read fuel (r.view s).kept (r.view s).queue (r.view s).body h
