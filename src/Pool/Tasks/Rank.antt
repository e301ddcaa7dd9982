-- ===== src/Pool/Tasks/Rank.antt =====
-- How many steps the tasks of a run are away from their ends.
use navar.Base.{ℕ, ◌<◌, ◌≡◌, true, Option, none, some, Result, ok, err, arith, sum_of, sum_of-put}
use navar.Buf.{Buf}
use navar.Normalize.{Boxes}
use navar.Pool.Tasks.{
  Task, idle, begun, entering, connecting, shaking, sending, done, dropped, HandleTask, can_run,
  on_call, on_lock, on_connected, on_shaken, advance, can_drop, drop_task, System, Step, runs,
  drops, Shared,
}
use navar.Pool.{DashMap, Kinds, Plugins}

-- The steps that a task can still take.
abbrev pub rank : {Q A C S R : Type 0} → Task Q A C S R → ℕ
rank idle = 0
rank (begun req) = 5
rank (entering a req) = 4
rank (connecting a req) = 3
rank (shaking a req conn) = 2
rank (sending s req) = 1
rank (done r) = 0
rank dropped = 0

module _ {k : Kinds} {N : Type 0} {b : Buf k.Data} {n : Buf N} (boxes : Boxes b n)
    (into : k.BodyError → k.Error) (d : DashMap k.Authority k.Session) (p : Plugins k)
    (shard : k.Authority → ℕ) where
  rank-on_call :
      (req : k.Req) (sh : Shared k d) (o : Option k.Authority)
      → rank (on_call boxes into d p shard req sh o).1 < 5
  unfolding on_call
  rank-on_call req sh none = omega arith
  rank-on_call req sh (some a) = omega arith

  rank-on_lock :
      (i : ℕ) (a : k.Authority) (req : k.Req) (sh : Shared k d) (o : Option k.Session)
      → rank (on_lock boxes into d p shard i a req sh o).1 < 4
  unfolding on_lock
  rank-on_lock i a req sh none = omega arith
  rank-on_lock i a req sh (some s) = omega arith

  rank-on_connected :
      (a : k.Authority) (req : k.Req) (sh : Shared k d) (r : Result k.Error k.Conn)
      → rank (on_connected boxes into d p shard a req sh r).1 < 3
  unfolding on_connected
  rank-on_connected a req sh (ok conn) = omega arith
  rank-on_connected a req sh (err e) = omega arith

  rank-on_shaken :
      (a : k.Authority) (req : k.Req) (sh : Shared k d) (r : Result k.Error (k.Session × k.Driver))
      → rank (on_shaken boxes into d p shard a req sh r).1 < 2
  unfolding on_shaken
  rank-on_shaken a req sh (ok (s, driver)) = omega arith
  rank-on_shaken a req sh (err e) = omega arith

  rank-advance :
      (i : ℕ) (sh : Shared k d) (t : HandleTask boxes into d p shard)
      → can_run boxes into d p shard sh t ≡ true
      → rank (advance boxes into d p shard i sh t).1 < rank t
  unfolding advance can_run
  rank-advance i sh idle can = cc
  rank-advance i sh (begun req) can = rank-on_call req sh (p.authority (p.uri req))
  rank-advance i sh (entering a req) can = rank-on_lock i a req sh (d.entry sh.service.pool a)
  rank-advance i sh (connecting a req) can =
      rank-on_connected a req _ (p.connect sh.service.log (p.uri req))
  rank-advance i sh (shaking a req conn) can =
      rank-on_shaken a req _ (p.handshake sh.service.log conn)
  rank-advance i sh (sending s req) can = omega arith
  rank-advance i sh (done r) can = cc
  rank-advance i sh dropped can = cc

  rank-drop_task :
      (sh : Shared k d) (t : HandleTask boxes into d p shard)
      → can_drop boxes into d p shard sh t ≡ true
      → rank (drop_task boxes into d p shard sh t).1 < rank t
  unfolding drop_task can_drop
  rank-drop_task sh idle can = cc
  rank-drop_task sh (begun req) can = omega arith
  rank-drop_task sh (entering a req) can = cc
  rank-drop_task sh (connecting a req) can = omega arith
  rank-drop_task sh (shaking a req conn) can = omega arith
  rank-drop_task sh (sending s req) can = omega arith
  rank-drop_task sh (done r) can = cc
  rank-drop_task sh dropped can = cc

  abbrev pub total_rank : ℕ → System boxes into d p shard → ℕ
  total_rank count s = sum_of rank count s.tasks

  pub Step-rank :
      {count : ℕ} {s t : System boxes into d p shard}
      → Step boxes into d p shard count s t
      → total_rank count t < total_rank count s
  Step-rank {count} {s} (runs i below can) = omega (
    arith,
    rank-advance i s.shared (s.tasks i) can,
    sum_of-put rank count s.tasks i (advance boxes into d p shard i s.shared (s.tasks i)).1 below,
  )
  Step-rank {count} {s} (drops i below can) = omega (
    arith,
    rank-drop_task s.shared (s.tasks i) can,
    sum_of-put rank count s.tasks i (drop_task boxes into d p shard s.shared (s.tasks i)).1 below,
  )
