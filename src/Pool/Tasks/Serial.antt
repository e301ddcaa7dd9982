-- ===== src/Pool/Tasks/Serial.antt =====
-- Tasks that run at the same time, and the same calls one after another.
pub mod Points
pub mod Runs
use navar.Base.{ℕ, ◌≡◌, ◌≢◌, refl, ap, ◌∙◌, List, [], ◌∷◌, Result}
use navar.Body.{Body}
use navar.Buf.{Buf}
use navar.Normalize.{Boxes}
use navar.Pool.Steady.{Gives}
use navar.Pool.Tasks.{
  Outcome, HandleTask, idle, begun, entering, connecting, shaking, sending, done, dropped,
}
use navar.Pool.{DashMap, Kinds, Plugins, Pooled, new, handle}

abbrev pub Absent : ℕ → List ℕ → Type 0
Absent j [] = Unit {0}
Absent j (i ∷ order) = (j ≢ i) × Absent j order

-- No task is there twice.
abbrev pub Distinct : List ℕ → Type 0
Distinct [] = Unit {0}
Distinct (i ∷ order) = Absent i order × Distinct order

module _ {k : Kinds} {N : Type 0} {b : Buf k.Data} {n : Buf N} (boxes : Boxes b n)
    (into : k.BodyError → k.Error) (d : DashMap k.Authority k.Session) (p : Plugins k)
    (shard : k.Authority → ℕ) (reqs : ℕ → k.Req) where
  -- The calls of tasks, the last one first, by a new service that handles one after another.
  abbrev pub serially : List ℕ → Pooled k d
  serially [] = new boxes into d p
  serially (i ∷ order) = (handle boxes into d p (reqs i) (serially order)).1

  -- Task `j` is one of them, with this outcome.
  pub data Answered (j : ℕ) (o : Outcome boxes into d p shard) : List ℕ → Type 0 where
    last :
        {order : List ℕ}
        → (handle boxes into d p (reqs j) (serially order)).0 ≡ o
        → Answered j o (j ∷ order)
    earlier : {i : ℕ} {order : List ℕ} → Answered j o order → Answered j o (i ∷ order)

  -- A task that has ended is one of the calls, with its outcome.
  abbrev pub Accounted : List ℕ → ℕ → HandleTask boxes into d p shard → Type 0
  Accounted order j (done r) = Answered j r order
  Accounted order j idle = Unit {0}
  Accounted order j (begun req) = Unit {0}
  Accounted order j (entering a req) = Unit {0}
  Accounted order j (connecting a req) = Unit {0}
  Accounted order j (shaking a req conn) = Unit {0}
  Accounted order j (sending s req) = Unit {0}
  Accounted order j dropped = Unit {0}
