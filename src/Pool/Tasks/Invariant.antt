-- ===== src/Pool/Tasks/Invariant.antt =====
-- What holds of the tasks and of what they share, between their steps.
use navar.Base.{ℕ, ◌≡◌, ◌≢◌, refl, ◌∙◌, Option, none, some, ◌>>=◌}
use navar.Buf.{Buf}
use navar.Normalize.{Boxes}
use navar.Pool.Once.{insertions, Served, Keeps, insert-Keeps, inserted-Inv, bind_some}
use navar.Pool.Once
use navar.Pool.Tasks.Locks.{Owned}
use navar.Pool.Tasks.{
  Task, idle, begun, entering, connecting, shaking, sending, done, dropped, System,
}
use navar.Pool.{DashMap, Kinds, Plugins}

-- The authority whose entry a task holds.
abbrev pub holder : {Q A C S R : Type 0} → Task Q A C S R → Option A
holder idle = none
holder (begun req) = none
holder (entering a req) = none
holder (connecting a req) = some a
holder (shaking a req conn) = some a
holder (sending s req) = none
holder (done r) = none
holder dropped = none

module _ {k : Kinds} {R : Type 0} (d : DashMap k.Authority k.Session) (p : Plugins k) where
  -- What the pool holds for a task: nothing for an entry that it holds, its own session when it sends.
  abbrev pub Fits : d.Carrier → Task k.Req k.Authority k.Conn k.Session R → Type 0
  Fits pool idle = Unit {0}
  Fits pool (begun req) = Unit {0}
  Fits pool (entering a req) = p.authority (p.uri req) ≡ some a
  Fits pool (connecting a req) = (p.authority (p.uri req) ≡ some a) × (d.entry pool a ≡ none)
  Fits pool (shaking a req conn) = (p.authority (p.uri req) ≡ some a) × (d.entry pool a ≡ none)
  Fits pool (sending s req) = (p.authority (p.uri req) >>= d.entry pool) ≡ some s
  Fits pool (done r) = Unit {0}
  Fits pool dropped = Unit {0}

  -- A session for an authority that the task does not hold.
  pub Fits-insert :
      (pool : d.Carrier) (a : k.Authority) (s : k.Session)
      (t : Task k.Req k.Authority k.Conn k.Session R)
      → d.entry pool a ≡ none
      → ((a' : k.Authority) → holder t ≡ some a' → a' ≢ a)
      → Fits pool t
      → Fits (d.insert pool a s) t
  Fits-insert pool a s idle vacant ne f = tt
  Fits-insert pool a s (begun req) vacant ne f = tt
  Fits-insert pool a s (entering a' req) vacant ne f = f
  Fits-insert pool a s (connecting a' req) vacant ne f =
      (f.0, d.entry-insert_ne pool a' a s (ne a' refl) ∙ f.1)
  Fits-insert pool a s (shaking a' req conn) vacant ne f =
      (f.0, d.entry-insert_ne pool a' a s (ne a' refl) ∙ f.1)
  Fits-insert pool a s (sending s' req) vacant ne f =
      bind_some (p.authority (p.uri req)) (λ a' e. insert-Keeps d p pool a s vacant a' s' e) f
  Fits-insert pool a s (done r) vacant ne f = tt
  Fits-insert pool a s dropped vacant ne f = tt

module _ {k : Kinds} {N : Type 0} {b : Buf k.Data} {n : Buf N} (boxes : Boxes b n)
    (into : k.BodyError → k.Error) (d : DashMap k.Authority k.Session) (p : Plugins k)
    (shard : k.Authority → ℕ) where
  pub record Inv (s : System boxes into d p shard) : Type 0 where
    pub served : Once.Inv d p s.shared.service
    pub fits : (j : ℕ) → Fits d p s.shared.service.pool (s.tasks j)
    pub owned : Owned shard s.shared.locks (λ j. holder (s.tasks j))
