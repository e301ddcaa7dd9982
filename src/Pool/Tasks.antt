-- ===== src/Pool/Tasks.antt =====
-- src/base_service.rs: `BaseService::handle` as tasks that run at the same time, each going from one await
-- to the next. `pool.entry` locks a shard of the map, and the guard is held over the awaits of `connect`
-- and `handshake`; a thread that asks for a locked shard is blocked until the lock is free. An executor has
-- so many threads, and each poll of a task, and the drop of its future, needs a free one.
pub mod Locks
pub mod Invariant
pub mod Effects
pub mod Steps
pub mod Safety
pub mod Origin
pub mod Threads
pub mod Progress
pub mod Rank
pub mod Deadlock
pub mod Alone
pub mod Serial
use navar.Base.{
  ℕ, ◌+◌, ◌-◌, ◌<◌, ◌≡◌, Bool, true, false, List, [], ◌∷◌, Option, none, some, Result, ok, err, ltb,
  put,
}
use navar.Body.{Body}
use navar.Buf.{Buf}
use navar.Normalize.{Boxes}
use navar.Pool.{
  DashMap, Response, Kinds, Event, connected, shook_hands, spawned, inserted, sent, Plugins, Pooled,
  normalized, new,
}

-- Where a call of `handle` stands, with the values that are live there. `connecting` and `shaking` hold the
-- entry of their authority; `entering` is inside `pool.entry`, on a thread of its own.
pub data Task (Req Authority Conn Session R : Type 0) : Type 0 where
  idle : Task Req Authority Conn Session R
  begun : Req → Task Req Authority Conn Session R
  entering : Authority → Req → Task Req Authority Conn Session R
  connecting : Authority → Req → Task Req Authority Conn Session R
  shaking : Authority → Req → Conn → Task Req Authority Conn Session R
  sending : Session → Req → Task Req Authority Conn Session R
  done : R → Task Req Authority Conn Session R
  dropped : Task Req Authority Conn Session R

-- What the tasks share: the service, the locks of the shards with their owners, and the free threads.
pub record Shared (k : Kinds) (d : DashMap k.Authority k.Session) : Type 0 where
  pub service : Pooled k d
  pub locks : ℕ → Option ℕ
  pub free : ℕ

abbrev pub is_free : Option ℕ → Bool
is_free none = true
is_free (some i) = false

module _ {k : Kinds} {N : Type 0} {b : Buf k.Data} {n : Buf N} (boxes : Boxes b n)
    (into : k.BodyError → k.Error) (d : DashMap k.Authority k.Session) (p : Plugins k)
    (shard : k.Authority → ℕ) where
  abbrev pub Outcome : Type 0
  Outcome = Result k.Error (Response k.Parts (Body N k.Error))

  abbrev pub HandleTask : Type 0
  HandleTask = Task k.Req k.Authority k.Conn k.Session Outcome

  abbrev pub After : Type 0
  After = Shared k d × HandleTask

  abbrev pub note : Event k → Shared k d → Shared k d
  note e sh = record sh { service = record (sh.service) { log = e ∷ sh.service.log } }

  abbrev pub lock : k.Authority → ℕ → Shared k d → Shared k d
  lock a i sh = record sh { locks = put sh.locks (shard a) (some i) }

  abbrev pub unlock : k.Authority → Shared k d → Shared k d
  unlock a sh = record sh { locks = put sh.locks (shard a) none }

  abbrev pub store : k.Authority → k.Session → Shared k d → Shared k d
  store a s sh = record sh { service = record (sh.service) { pool = d.insert sh.service.pool a s } }

  -- Whether a task can go on: a blocked one when its shard is free, any other when a thread is.
  unfoldable pub can_run : Shared k d → HandleTask → Bool
  can_run sh idle = false
  can_run sh (begun req) = ltb 0 sh.free
  can_run sh (entering a req) = is_free (sh.locks (shard a))
  can_run sh (connecting a req) = ltb 0 sh.free
  can_run sh (shaking a req conn) = ltb 0 sh.free
  can_run sh (sending s req) = ltb 0 sh.free
  can_run sh (done r) = false
  can_run sh dropped = false

  -- The call up to `pool.entry`, which takes the thread.
  unfoldable pub on_call : k.Req → Shared k d → Option k.Authority → After
  on_call req sh none = (sh, done (err p.missing_authority))
  on_call req sh (some a) = (record sh { free = sh.free - 1 }, entering a req)

  -- `pool.entry` returns. An occupied entry is read and unlocked; a vacant one stays locked.
  unfoldable pub on_lock : ℕ → k.Authority → k.Req → Shared k d → Option k.Session → After
  on_lock i a req sh (some s) = (record sh { free = sh.free + 1 }, sending s req)
  on_lock i a req sh none = (lock a i (record sh { free = sh.free + 1 }), connecting a req)

  -- `connect(..).await?`; with an error the guard goes away.
  unfoldable pub on_connected : k.Authority → k.Req → Shared k d → Result k.Error k.Conn → After
  on_connected a req sh (ok conn) = (sh, shaking a req conn)
  on_connected a req sh (err e) = (unlock a sh, done (err e))

  -- `handshake(..).await?`, the spawn of the driver, and `vacant.insert`, which unlocks.
  unfoldable pub on_shaken :
      k.Authority → k.Req → Shared k d → Result k.Error (k.Session × k.Driver) → After
  on_shaken a req sh (ok (s, driver)) =
      (unlock a (store a s (note (inserted a s) (note (spawned driver) sh))), sending s req)
  on_shaken a req sh (err e) = (unlock a sh, done (err e))

  unfoldable pub advance : ℕ → Shared k d → HandleTask → After
  unfolding on_call on_lock on_connected on_shaken normalized
  advance i sh idle = (sh, idle)
  advance i sh (begun req) = on_call req sh (p.authority (p.uri req))
  advance i sh (entering a req) = on_lock i a req sh (d.entry sh.service.pool a)
  advance i sh (connecting a req) =
      let r = p.connect sh.service.log (p.uri req) in
      on_connected a req (note (connected (p.uri req) r) sh) r
  advance i sh (shaking a req conn) =
      let r = p.handshake sh.service.log conn in on_shaken a req (note (shook_hands conn r) sh) r
  advance i sh (sending s req) =
      let r = p.send_request sh.service.log s req in
      (note (sent s req r) sh, done (normalized boxes into d p r))
  advance i sh (done r) = (sh, done r)
  advance i sh dropped = (sh, dropped)

  -- The future of a task that waits at an await, or that has not been polled, is dropped.
  unfoldable pub can_drop : Shared k d → HandleTask → Bool
  can_drop sh (begun req) = ltb 0 sh.free
  can_drop sh (connecting a req) = ltb 0 sh.free
  can_drop sh (shaking a req conn) = ltb 0 sh.free
  can_drop sh (sending s req) = ltb 0 sh.free
  can_drop sh idle = false
  can_drop sh (entering a req) = false
  can_drop sh (done r) = false
  can_drop sh dropped = false

  unfoldable pub drop_task : Shared k d → HandleTask → After
  drop_task sh (connecting a req) = (unlock a sh, dropped)
  drop_task sh (shaking a req conn) = (unlock a sh, dropped)
  drop_task sh (begun req) = (sh, dropped)
  drop_task sh (sending s req) = (sh, dropped)
  drop_task sh idle = (sh, idle)
  drop_task sh (entering a req) = (sh, entering a req)
  drop_task sh (done r) = (sh, done r)
  drop_task sh dropped = (sh, dropped)

  pub record System : Type 0 where
    pub shared : Shared k d
    pub tasks : ℕ → HandleTask

  -- Task `i` is what `after` says.
  abbrev pub with_task : System → ℕ → After → System
  with_task s i after = record { shared = after.0; tasks = put s.tasks i after.1 }

  -- One step of a system of `count` tasks.
  pub data Step (count : ℕ) (s : System) : System → Type 0 where
    runs :
        (i : ℕ)
        → i < count
        → can_run s.shared (s.tasks i) ≡ true
        → Step count s (with_task s i (advance i s.shared (s.tasks i)))
    drops :
        (i : ℕ)
        → i < count
        → can_drop s.shared (s.tasks i) ≡ true
        → Step count s (with_task s i (drop_task s.shared (s.tasks i)))

  -- A new service on an executor of `threads` threads; the first `count` tasks handle `reqs`.
  abbrev pub start : ℕ → (ℕ → k.Req) → System
  start threads reqs = record {
    shared = record { service = new boxes into d p; locks = λ x. none; free = threads };
    tasks = λ i. begun (reqs i);
  }

  pub data Reach (threads count : ℕ) (reqs : ℕ → k.Req) : System → Type 0 where
    starts : Reach threads count reqs (start threads reqs)
    steps :
        {s t : System} → Reach threads count reqs s → Step count s t → Reach threads count reqs t
