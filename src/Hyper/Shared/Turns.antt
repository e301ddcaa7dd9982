-- ===== src/Hyper/Shared/Turns.antt =====
-- The requests of one HTTP/1 session take turns.
use navar.Base.{
  ℕ, ◌≡◌, ◌≢◌, ◌↔◌, refl, sym, ap, ◌∙◌, inl, inr, Bool, true, false, Bool-cases, List, [], ◌∷◌,
  Option, none, some, Result, ok, err, put-All, ◌==◌, ==_iff,
}
use navar.Hyper.Shared.{
  Sending, locking, readying, answering, finished, dropped, Call, sent, ended, Sender, on_locked,
  on_ready, on_answer, on_drop, Session, with_task, Step, locks, readies, answers, drops, Reach,
  starts, steps,
}

abbrev pub holds : {Q E R : Type 0} → Sending Q E R → Bool
holds (locking q) = false
holds (readying q) = true
holds (answering q) = true
holds (finished r) = false
holds dropped = false

abbrev pub is_answering : {Q E R : Type 0} → Sending Q E R → Bool
is_answering (locking q) = false
is_answering (readying q) = false
is_answering (answering q) = true
is_answering (finished r) = false
is_answering dropped = false

-- The task whose request has begun and has not ended.
abbrev pub in_flight : {Q : Type 0} → List (Call Q) → Option ℕ
in_flight [] = none
in_flight (sent i q ∷ calls) = some i
in_flight (ended i ∷ calls) = none

-- A request begins only when none is in flight, and the one that ends is the one that is.
abbrev pub TakesTurns : {Q : Type 0} → List (Call Q) → Type 0
TakesTurns [] = Unit {0}
TakesTurns (sent i q ∷ calls) = (in_flight calls ≡ none) × TakesTurns calls
TakesTurns (ended i ∷ calls) = (in_flight calls ≡ some i) × TakesTurns calls

holds_of_answering : {Q E R : Type 0} (t : Sending Q E R) → is_answering t ≡ true → holds t ≡ true
holds_of_answering (locking q) h = cc
holds_of_answering (readying q) h = cc
holds_of_answering (answering q) h = refl
holds_of_answering (finished r) h = cc
holds_of_answering dropped h = cc

-- Of task `j`: it holds the mutex when it is the owner, and its request is in flight when it awaits an answer.
record Fits {Q E R : Type 0} (sender : Sender Q) (j : ℕ) (t : Sending Q E R) : Type 0 where
  owner : holds t ≡ true → sender.owner ≡ some j
  flying : is_answering t ≡ true → in_flight sender.calls ≡ some j
  back : in_flight sender.calls ≡ some j → is_answering t ≡ true

module _ {Q E R : Type 0} where
  record Inv (s : Session Q E R) : Type 0 where
    fits : (j : ℕ) → Fits s.sender j (s.tasks j)
    turns : TakesTurns s.sender.calls

  becomes :
      (s : Session Q E R) (i : ℕ) (sender : Sender Q) (t : Sending Q E R)
      → Fits sender i t
      → ((j : ℕ) → j ≢ i → Fits sender j (s.tasks j))
      → TakesTurns sender.calls
      → Inv (with_task s i (sender, t))
  becomes s i sender t here there v = record {
    fits = put-All (λ j x. Fits sender j x) s.tasks i t here there;
    turns = v;
  }

  module _ (s : Session Q E R) (i : ℕ) (inv : Inv s) where
    -- Where task `i` holds the mutex, no other does, and none of theirs is in flight.
    alone_holds : holds (s.tasks i) ≡ true → (j : ℕ) → j ≢ i → holds (s.tasks j) ≡ true → ⊥
    alone_holds h j ne h' =
        let both : some j ≡ some i = sym ((inv.fits j).owner h') ∙ (inv.fits i).owner h in
        ne (let same : j ≡ i = cc in same)

    idle_flight : is_answering (s.tasks i) ≡ false → in_flight s.sender.calls ≡ some i → ⊥
    idle_flight h e = let no : false ≡ true = sym h ∙ (inv.fits i).back e in cc no

    not_holding : holds (s.tasks i) ≡ true → (j : ℕ) → j ≢ i → holds (s.tasks j) ≡ false
    not_holding h j ne = elim (Bool-cases (holds (s.tasks j))) [
      | inl t ↦ absurd (alone_holds h j ne t)
      | inr f ↦ f
    ]

    none_beside : holds (s.tasks i) ≡ true → (j : ℕ) → j ≢ i → in_flight s.sender.calls ≡ some j → ⊥
    none_beside h j ne e = alone_holds h j ne (holds_of_answering (s.tasks j) ((inv.fits j).back e))

    -- Nothing is in flight where the owner awaits no answer.
    clear :
        holds (s.tasks i) ≡ true
        → is_answering (s.tasks i) ≡ false
        → (o : Option ℕ) → in_flight s.sender.calls ≡ o
        → o ≡ none
    clear h idle none e = refl
    clear h idle (some j) e = elim (Bool-cases (j == i)) [
      | inl t ↦ absurd (idle_flight idle (e ∙ ap some ((==_iff j i).0 t)))
      | inr f ↦
          absurd
            (none_beside h j (λ t. let no : true ≡ false = sym ((==_iff j i).1 t) ∙ f in cc no) e)
    ]

    Fits-quiet :
        (sender : Sender Q) (j : ℕ) (t : Sending Q E R)
        → holds t ≡ false
        → (in_flight sender.calls ≡ some j → ⊥)
        → Fits sender j t
    Fits-quiet sender j t h quiet = record {
      owner = λ h'. let no : false ≡ true = sym h ∙ h' in cc no;
      flying = λ h'. let no : false ≡ true = sym h ∙ holds_of_answering t h' in cc no;
      back = λ e. absurd (quiet e);
    }

    -- The owner goes to an end, or on, with calls of which the others see none in flight.
    owner_moves :
        (sender : Sender Q) (t : Sending Q E R)
        → holds (s.tasks i) ≡ true
        → Fits sender i t
        → ((j : ℕ) → j ≢ i → in_flight sender.calls ≡ some j → ⊥)
        → TakesTurns sender.calls
        → Inv (with_task s i (sender, t))
    owner_moves sender t h here none_there v =
        becomes s i sender t here
          (λ j ne. Fits-quiet sender j (s.tasks j) (not_holding h j ne) (none_there j ne)) v

    on_locked-Inv :
        (q : Q)
        → s.tasks i ≡ locking q
        → s.sender.owner ≡ none
        → Inv (with_task s i (on_locked i q s.sender))
    unfolding on_locked
    on_locked-Inv q e free =
        becomes s i _ _
          (record {
            owner = λ h. refl;
            flying = λ h. cc;
            back = λ h. absurd (idle_flight (ap is_answering e) h);
          })
          (λ j ne. Fits-quiet _ j (s.tasks j) (unowned j) (λ h.
            let no : false ≡ true =
              sym (unowned j) ∙ holds_of_answering (s.tasks j) ((inv.fits j).back h) in
            cc no))
          inv.turns
      where
        unowned : (j : ℕ) → holds (s.tasks j) ≡ false
        unowned j = elim (Bool-cases (holds (s.tasks j))) [
          | inl t ↦ let no : none ≡ some j = sym free ∙ (inv.fits j).owner t in cc no
          | inr f ↦ f
        ]

    on_ready-Inv :
        (q : Q) (r : Result E (Unit {0}))
        → s.tasks i ≡ readying q
        → Inv (with_task s i (on_ready i q s.sender r))
    unfolding on_ready
    on_ready-Inv q (ok u) e =
        owner_moves _ _ (ap holds e)
          (record {
            owner = λ h. (inv.fits i).owner (ap holds e);
            flying = λ h. refl;
            back = λ h. refl;
          })
          (λ j ne h. ne (let same : j ≡ i = cc in same))
          (clear (ap holds e) (ap is_answering e) _ refl, inv.turns)
    on_ready-Inv q (err x) e =
        owner_moves _ _ (ap holds e) (Fits-quiet _ i _ refl (idle_flight (ap is_answering e)))
          (none_beside (ap holds e)) inv.turns

    on_answer-Inv :
        (q : Q) (r : Result E R)
        → s.tasks i ≡ answering q
        → Inv (with_task s i (on_answer i s.sender r))
    unfolding on_answer
    on_answer-Inv q r e =
        owner_moves _ _ (ap holds e) (Fits-quiet _ i _ refl (λ h. cc)) (λ j ne h. cc)
          ((inv.fits i).flying (ap is_answering e), inv.turns)

    at_rest :
        (t : Sending Q E R)
        → holds t ≡ false
        → is_answering (s.tasks i) ≡ false
        → Inv (with_task s i (s.sender, t))
    at_rest t h idle =
        becomes s i s.sender t (Fits-quiet s.sender i t h (idle_flight idle)) (λ j ne. inv.fits j)
          inv.turns

    on_drop-Inv : (t : Sending Q E R) → s.tasks i ≡ t → Inv (with_task s i (on_drop i s.sender t))
    unfolding on_drop
    on_drop-Inv (locking q) e = at_rest dropped refl (ap is_answering e)
    on_drop-Inv (readying q) e =
        owner_moves _ _ (ap holds e) (Fits-quiet _ i _ refl (idle_flight (ap is_answering e)))
          (none_beside (ap holds e)) inv.turns
    on_drop-Inv (answering q) e =
        owner_moves _ _ (ap holds e) (Fits-quiet _ i _ refl (λ h. cc)) (λ j ne h. cc)
          ((inv.fits i).flying (ap is_answering e), inv.turns)
    on_drop-Inv (finished r) e = at_rest (finished r) refl (ap is_answering e)
    on_drop-Inv dropped e = at_rest dropped refl (ap is_answering e)

  Step-Inv : {s t : Session Q E R} → Step s t → Inv s → Inv t
  Step-Inv {s} (locks i q e free) inv = on_locked-Inv s i inv q e free
  Step-Inv {s} (readies i q r e) inv = on_ready-Inv s i inv q r e
  Step-Inv {s} (answers i q r e) inv = on_answer-Inv s i inv q r e
  Step-Inv {s} (drops i) inv = on_drop-Inv s i inv (s.tasks i) refl

  Reach-Inv : {reqs : ℕ → Q} {s : Session Q E R} → Reach reqs s → Inv s
  Reach-Inv {reqs} starts = record {
    fits = λ j. record { owner = λ h. cc; flying = λ h. cc; back = λ h. cc };
    turns = tt;
  }
  Reach-Inv (steps r st) = Step-Inv st (Reach-Inv r)

  -- Whatever requests share an HTTP/1 session, in whichever order they come and whichever of their futures
  -- are dropped: a request begins on the connection only when none is in flight, the one that ends is the
  -- one that is, and a task awaits an answer exactly when its own request is in flight.
  pub Reach-TakesTurns :
      {reqs : ℕ → Q} {s : Session Q E R}
      → Reach reqs s
      → (i : ℕ)
      → TakesTurns s.sender.calls
        × ((is_answering (s.tasks i) ≡ true) ↔ (in_flight s.sender.calls ≡ some i))
  Reach-TakesTurns {reqs} {s} r i =
      let inv = Reach-Inv r in (inv.turns, ((inv.fits i).flying, (inv.fits i).back))
