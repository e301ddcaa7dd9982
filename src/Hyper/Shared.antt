-- ===== src/Hyper/Shared.antt =====
-- navar-hyper/src/lib.rs: requests that share one HTTP/1 session. Its sender is behind a mutex, which
-- `send_request` of `HyperSender` holds until the answer is there, or its future is dropped. What hyper
-- answers is part of a step.
pub mod Turns
use navar.Base.{ℕ, ◌≡◌, Bool, List, [], ◌∷◌, Option, none, some, Result, ok, err, put}

-- Where a call of `send_request` stands: at the lock, at `ready`, at hyper's `send_request`, or at an end.
pub data Sending (Q E R : Type 0) : Type 0 where
  locking : Q → Sending Q E R
  readying : Q → Sending Q E R
  answering : Q → Sending Q E R
  finished : Result E R → Sending Q E R
  dropped : Sending Q E R

-- What the connection sees: a request begins, and it ends with an answer or is given up.
pub data Call (Q : Type 0) : Type 0 where
  sent : ℕ → Q → Call Q
  ended : ℕ → Call Q

-- The mutex with its owner, and the calls so far, newest first.
pub record Sender (Q : Type 0) : Type 0 where
  pub owner : Option ℕ
  pub calls : List (Call Q)

module _ {Q E R : Type 0} where
  -- `sender.lock().await`
  unfoldable pub on_locked : ℕ → Q → Sender Q → Sender Q × Sending Q E R
  on_locked i q sender = (record sender { owner = some i }, readying q)

  -- `sender.ready().await?`, and the request is sent; with an error the lock goes away.
  unfoldable pub on_ready : ℕ → Q → Sender Q → Result E (Unit {0}) → Sender Q × Sending Q E R
  on_ready i q sender (ok u) = (record sender { calls = sent i q ∷ sender.calls }, answering q)
  on_ready i q sender (err e) = (record sender { owner = none }, finished (err e))

  -- The answer of `sender.send_request(req).await`; the lock goes away.
  unfoldable pub on_answer : ℕ → Sender Q → Result E R → Sender Q × Sending Q E R
  on_answer i sender r = (record { owner = none; calls = ended i ∷ sender.calls }, finished r)

  -- The future is dropped, and its lock with it.
  unfoldable pub on_drop : ℕ → Sender Q → Sending Q E R → Sender Q × Sending Q E R
  on_drop i sender (locking q) = (sender, dropped)
  on_drop i sender (readying q) = (record sender { owner = none }, dropped)
  on_drop i sender (answering q) =
      (record { owner = none; calls = ended i ∷ sender.calls }, dropped)
  on_drop i sender (finished r) = (sender, finished r)
  on_drop i sender dropped = (sender, dropped)

module _ (Q E R : Type 0) where
  pub record Session : Type 0 where
    pub sender : Sender Q
    pub tasks : ℕ → Sending Q E R

module _ {Q E R : Type 0} where
  -- Task `i` is what `after` says.
  abbrev pub with_task : Session Q E R → ℕ → Sender Q × Sending Q E R → Session Q E R
  with_task s i after = record { sender = after.0; tasks = put s.tasks i after.1 }

  pub data Step (s : Session Q E R) : Session Q E R → Type 0 where
    locks :
        (i : ℕ) (q : Q)
        → s.tasks i ≡ locking q
        → s.sender.owner ≡ none
        → Step s (with_task s i (on_locked i q s.sender))
    readies :
        (i : ℕ) (q : Q) (r : Result E (Unit {0}))
        → s.tasks i ≡ readying q
        → Step s (with_task s i (on_ready i q s.sender r))
    answers :
        (i : ℕ) (q : Q) (r : Result E R)
        → s.tasks i ≡ answering q
        → Step s (with_task s i (on_answer i s.sender r))
    drops : (i : ℕ) → Step s (with_task s i (on_drop i s.sender (s.tasks i)))

  -- A new session, and one task for each request.
  abbrev pub start : (ℕ → Q) → Session Q E R
  start reqs = record {
    sender = record { owner = none; calls = [] };
    tasks = λ i. locking (reqs i);
  }

  pub data Reach (reqs : ℕ → Q) : Session Q E R → Type 0 where
    starts : Reach reqs (start reqs)
    steps : {s t : Session Q E R} → Reach reqs s → Step s t → Reach reqs t
