-- ===== src/Pool/Tasks/Safety.antt =====
-- Tasks that run at the same time keep what one request after another keeps.
use navar.Base.{ℕ, ◌≤◌, arith}
use navar.Buf.{Buf}
use navar.Normalize.{Boxes}
use navar.Pool.Once.{insertions, Served, present_le_one}
use navar.Pool.Tasks.Steps.{Reach-Inv}
use navar.Pool.Tasks.{System, Reach}
use navar.Pool.{DashMap, Kinds, Plugins}

module _ {k : Kinds} {N : Type 0} {b : Buf k.Data} {n : Buf N} (boxes : Boxes b n)
    (into : k.BodyError → k.Error) (d : DashMap k.Authority k.Session) (p : Plugins k)
    (shard : k.Authority → ℕ) where
  -- Whatever requests run at the same time, on however many threads, in whichever order their polls come,
  -- and whichever of their futures are dropped on the way: each authority has had at most one session, and
  -- every request that was sent went through the one that the pool holds for its authority.
  pub Reach-once :
      {threads count : ℕ} {reqs : ℕ → k.Req} {s : System boxes into d p shard}
      → Reach boxes into d p shard threads count reqs s
      → (a : k.Authority)
      → (insertions d p a s.shared.service.log ≤ 1)
        × Served d p s.shared.service.pool s.shared.service.log
  Reach-once {s} r a =
      let v = (Reach-Inv boxes into d p shard r).served in
      (omega (arith, v.once a, present_le_one (d.entry s.shared.service.pool a)), v.served)
