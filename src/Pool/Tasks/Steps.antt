-- ===== src/Pool/Tasks/Steps.antt =====
-- What every step of the tasks keeps.
use navar.Base.{ℕ, ◌≡◌, refl, ap, subst, true, Option, none, some, put}
use navar.Buf.{Buf}
use navar.Normalize.{Boxes}
use navar.Pool.Once.{insertions}
use navar.Pool.Tasks.{
  idle, begun, entering, connecting, shaking, sending, done, dropped, Shared, HandleTask, is_free,
  can_run, advance, can_drop, drop_task, System, with_task, Step, runs, drops, start, Reach, starts,
  steps,
}
use navar.Pool.{DashMap, Kinds, Plugins, new}
use navar.Pool.Tasks.Invariant.{holder, Fits, Inv}
use navar.Pool.Tasks.Effects.{
  becomes, same_locks, released, on_call-Inv, on_lock-Inv, on_connected-Inv, on_shaken-Inv,
}

is_free-none : (o : Option ℕ) → is_free o ≡ true → o ≡ none
is_free-none none h = refl
is_free-none (some i) h = cc

module _ {k : Kinds} {N : Type 0} {b : Buf k.Data} {n : Buf N} (boxes : Boxes b n)
    (into : k.BodyError → k.Error) (d : DashMap k.Authority k.Session) (p : Plugins k)
    (shard : k.Authority → ℕ) where
  module _ (s : System boxes into d p shard) (i : ℕ) (inv : Inv boxes into d p shard s) where
    abbrev sh : Shared k d
    sh = s.shared

    at_task : (t : HandleTask boxes into d p shard) → s.tasks i ≡ t → Fits d p sh.service.pool t
    at_task t e = subst (Fits d p sh.service.pool) e (inv.fits i)

    advance-Inv :
        (t : HandleTask boxes into d p shard)
        → s.tasks i ≡ t
        → can_run boxes into d p shard sh t ≡ true
        → Inv boxes into d p shard
            (with_task boxes into d p shard s i (advance boxes into d p shard i sh t))
    unfolding advance can_run insertions
    advance-Inv idle e can = cc
    advance-Inv (begun req) e can =
        on_call-Inv boxes into d p shard s i inv req (p.authority (p.uri req)) refl e
    advance-Inv (entering a req) e can =
        on_lock-Inv boxes into d p shard s i inv a req (d.entry sh.service.pool a) refl
          (at_task (entering a req) e) (is_free-none (sh.locks (shard a)) can) e
    advance-Inv (connecting a req) e can =
        on_connected-Inv boxes into d p shard s i inv a req (p.connect sh.service.log (p.uri req))
          (at_task (connecting a req) e) e
    advance-Inv (shaking a req conn) e can =
        on_shaken-Inv boxes into d p shard s i inv a req conn (p.handshake sh.service.log conn)
          (at_task (shaking a req conn) e) e
    advance-Inv (sending x req) e can =
        becomes boxes into d p shard s i inv _ sh.locks sh.free _
          (record {
            once = inv.served.once;
            served = (at_task (sending x req) e, inv.served.served);
          })
          tt (same_locks boxes into d p shard s i inv _ (ap holder e))
    advance-Inv (done r) e can = cc
    advance-Inv dropped e can = cc

    drop_task-Inv :
        (t : HandleTask boxes into d p shard)
        → s.tasks i ≡ t
        → can_drop boxes into d p shard sh t ≡ true
        → Inv boxes into d p shard
            (with_task boxes into d p shard s i (drop_task boxes into d p shard sh t))
    unfolding drop_task can_drop
    drop_task-Inv idle e can = cc
    drop_task-Inv (begun req) e can =
        becomes boxes into d p shard s i inv sh.service.log sh.locks sh.free dropped inv.served tt
          (same_locks boxes into d p shard s i inv _ (ap holder e))
    drop_task-Inv (entering a req) e can = cc
    drop_task-Inv (connecting a req) e can =
        becomes boxes into d p shard s i inv sh.service.log (put sh.locks (shard a) none) sh.free
          dropped inv.served tt (released boxes into d p shard s i inv a _ (ap holder e) refl)
    drop_task-Inv (shaking a req conn) e can =
        becomes boxes into d p shard s i inv sh.service.log (put sh.locks (shard a) none) sh.free
          dropped inv.served tt (released boxes into d p shard s i inv a _ (ap holder e) refl)
    drop_task-Inv (sending x req) e can =
        becomes boxes into d p shard s i inv sh.service.log sh.locks sh.free dropped inv.served tt
          (same_locks boxes into d p shard s i inv _ (ap holder e))
    drop_task-Inv (done r) e can = cc
    drop_task-Inv dropped e can = cc

  Step-Inv :
      {count : ℕ} {s t : System boxes into d p shard}
      → Step boxes into d p shard count s t
      → Inv boxes into d p shard s
      → Inv boxes into d p shard t
  Step-Inv {s} (runs i below can) inv = advance-Inv s i inv (s.tasks i) refl can
  Step-Inv {s} (drops i below can) inv = drop_task-Inv s i inv (s.tasks i) refl can

  Inv-start :
      (threads : ℕ) (reqs : ℕ → k.Req)
      → Inv boxes into d p shard (start boxes into d p shard threads reqs)
  unfolding new insertions
  Inv-start threads reqs = record {
    served = record { once = λ a. rw (d.entry-empty a); served = tt };
    fits = λ j. tt;
    owned = record { owner = λ i a h. cc; held = λ x i h. cc };
  }

  pub Reach-Inv :
      {threads count : ℕ} {reqs : ℕ → k.Req} {s : System boxes into d p shard}
      → Reach boxes into d p shard threads count reqs s
      → Inv boxes into d p shard s
  Reach-Inv {threads} {reqs} starts = Inv-start threads reqs
  Reach-Inv (steps r st) = Step-Inv st (Reach-Inv r)
