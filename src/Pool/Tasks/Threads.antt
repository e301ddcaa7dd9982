-- ===== src/Pool/Tasks/Threads.antt =====
-- The threads of the executor add up.
use navar.Base.{
  ℕ, zero, suc, ◌+◌, ◌≤◌, ◌<◌, ◌≡◌, refl, ap, ◌∙◌, true, sym, Bool-cases, inl, inr, ◌==◌, ==_iff,
  Option, none, some, Result, ok, err, arith, put, put-other, sum_of, sum_of-put,
}
use navar.Buf.{Buf}
use navar.Normalize.{Boxes}
use navar.Pool.Tasks.Invariant.{holder}
use navar.Pool.Tasks.{
  Task, idle, begun, entering, connecting, shaking, sending, done, dropped, HandleTask, After,
  can_run, on_call, on_lock, on_connected, on_shaken, advance, drop_task, System, runs, drops,
  start, Reach, starts, steps, Shared,
}
use navar.Pool.{DashMap, Kinds, Plugins}

-- A task that has a thread of its own.
abbrev pub on_thread : {Q A C S R : Type 0} → Task Q A C S R → ℕ
on_thread idle = 0
on_thread (begun req) = 0
on_thread (entering a req) = 1
on_thread (connecting a req) = 0
on_thread (shaking a req conn) = 0
on_thread (sending s req) = 0
on_thread (done r) = 0
on_thread dropped = 0

pub sum_of-on_thread_le :
    {Q A C S R : Type 0} (count : ℕ) (tasks : ℕ → Task Q A C S R)
    → sum_of on_thread count tasks ≤ count
unfolding sum_of
sum_of-on_thread_le zero tasks = omega arith
sum_of-on_thread_le (suc n) tasks =
    let small : on_thread (tasks n) ≤ 1 = ground arith in
    omega (arith, small, sum_of-on_thread_le n tasks)

-- Where one of the tasks has no thread of its own, a thread is left for it.
pub sum_of-on_thread_lt :
    {Q A C S R : Type 0} (count : ℕ) (tasks : ℕ → Task Q A C S R) (i : ℕ)
    → i < count
    → on_thread (tasks i) ≡ 0
    → sum_of on_thread count tasks < count
unfolding sum_of
sum_of-on_thread_lt zero tasks i below h = absurd (omega arith)
sum_of-on_thread_lt (suc n) tasks i below h = elim (Bool-cases (i == n)) [
  | inl e ↦
      let last : on_thread (tasks n) ≡ 0 =
        ap (λ j. on_thread (tasks j)) (sym ((==_iff i n).0 e)) ∙ h in
      omega (arith, last, sum_of-on_thread_le n tasks)
  | inr e ↦
      let small : on_thread (tasks n) ≤ 1 = ground arith in
      let other : i < n = ground arith in
      omega (arith, small, sum_of-on_thread_lt n tasks i other h)
]

module _ {k : Kinds} {N : Type 0} {b : Buf k.Data} {n : Buf N} (boxes : Boxes b n)
    (into : k.BodyError → k.Error) (d : DashMap k.Authority k.Session) (p : Plugins k)
    (shard : k.Authority → ℕ) where
  -- The threads in use are those of the tasks that are inside `pool.entry`.
  abbrev Pays : Shared k d → HandleTask boxes into d p shard → After boxes into d p shard → Type 0
  Pays sh t x = x.0.free + on_thread x.1 ≡ sh.free + on_thread t

  Pays-on_call :
      (req : k.Req) (sh : Shared k d) (o : Option k.Authority)
      → 0 < sh.free
      → Pays sh (begun req) (on_call boxes into d p shard req sh o)
  unfolding on_call
  Pays-on_call req sh none h = omega arith
  Pays-on_call req sh (some a) h = omega arith

  Pays-on_lock :
      (i : ℕ) (a : k.Authority) (req : k.Req) (sh : Shared k d) (o : Option k.Session)
      → Pays sh (entering a req) (on_lock boxes into d p shard i a req sh o)
  unfolding on_lock
  Pays-on_lock i a req sh none = omega arith
  Pays-on_lock i a req sh (some s) = omega arith

  Pays-on_connected :
      (a : k.Authority) (req : k.Req) (sh : Shared k d) (r : Result k.Error k.Conn)
      → Pays sh (connecting a req) (on_connected boxes into d p shard a req sh r)
  unfolding on_connected
  Pays-on_connected a req sh (ok conn) = refl
  Pays-on_connected a req sh (err e) = refl

  Pays-on_shaken :
      (a : k.Authority) (req : k.Req) (conn : k.Conn) (sh : Shared k d)
      (r : Result k.Error (k.Session × k.Driver))
      → Pays sh (shaking a req conn) (on_shaken boxes into d p shard a req sh r)
  unfolding on_shaken
  Pays-on_shaken a req conn sh (ok (s, driver)) = refl
  Pays-on_shaken a req conn sh (err e) = refl

  Pays-advance :
      (i : ℕ) (sh : Shared k d) (t : HandleTask boxes into d p shard)
      → can_run boxes into d p shard sh t ≡ true
      → Pays sh t (advance boxes into d p shard i sh t)
  unfolding advance can_run
  Pays-advance i sh idle can = refl
  Pays-advance i sh (begun req) can = Pays-on_call req sh (p.authority (p.uri req)) (ground arith)
  Pays-advance i sh (entering a req) can = Pays-on_lock i a req sh (d.entry sh.service.pool a)
  Pays-advance i sh (connecting a req) can =
      Pays-on_connected a req _ (p.connect sh.service.log (p.uri req))
  Pays-advance i sh (shaking a req conn) can =
      Pays-on_shaken a req conn _ (p.handshake sh.service.log conn)
  Pays-advance i sh (sending s req) can = refl
  Pays-advance i sh (done r) can = refl
  Pays-advance i sh dropped can = refl

  Pays-drop_task :
      (sh : Shared k d) (t : HandleTask boxes into d p shard)
      → Pays sh t (drop_task boxes into d p shard sh t)
  unfolding drop_task
  Pays-drop_task sh idle = refl
  Pays-drop_task sh (begun req) = refl
  Pays-drop_task sh (entering a req) = refl
  Pays-drop_task sh (connecting a req) = refl
  Pays-drop_task sh (shaking a req conn) = refl
  Pays-drop_task sh (sending s req) = refl
  Pays-drop_task sh (done r) = refl
  Pays-drop_task sh dropped = refl

  -- The threads add up, and tasks past the last have not begun to run.
  pub record Accounts (threads count : ℕ) (s : System boxes into d p shard) : Type 0 where
    pub adds_up : s.shared.free + sum_of on_thread count s.tasks ≡ threads
    pub untouched : (j : ℕ) → count ≤ j → holder (s.tasks j) ≡ none

  with_task-Accounts :
      {threads count : ℕ} (s : System boxes into d p shard) (i : ℕ) (x : After boxes into d p shard)
      → i < count
      → Pays s.shared (s.tasks i) x
      → Accounts threads count s
      → Accounts threads count (record { shared = x.0; tasks = put s.tasks i x.1 })
  with_task-Accounts {count} s i x below pays v = record {
    adds_up = omega (arith, v.adds_up, pays, sum_of-put on_thread count s.tasks i x.1 below);
    untouched = λ j past. ap holder (put-other s.tasks i j x.1 (omega arith)) ∙ v.untouched j past;
  }

  none_entered :
      (threads m : ℕ) (reqs : ℕ → k.Req)
      → threads + sum_of on_thread m (start boxes into d p shard threads reqs).tasks ≡ threads
  unfolding sum_of
  none_entered threads zero reqs = omega arith
  none_entered threads (suc m) reqs = omega (arith, none_entered threads m reqs)

  pub Reach-Accounts :
      {threads count : ℕ} {reqs : ℕ → k.Req} {s : System boxes into d p shard}
      → Reach boxes into d p shard threads count reqs s
      → Accounts threads count s
  Reach-Accounts {threads} {count} {reqs} starts = record {
    adds_up = none_entered threads count reqs;
    untouched = λ j past. refl;
  }
  Reach-Accounts (steps {s} r (runs i below can)) =
      with_task-Accounts s i _ below (Pays-advance i s.shared (s.tasks i) can) (Reach-Accounts r)
  Reach-Accounts (steps {s} r (drops i below can)) =
      with_task-Accounts s i _ below (Pays-drop_task s.shared (s.tasks i)) (Reach-Accounts r)
