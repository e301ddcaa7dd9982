-- ===== src/Pool/Tasks/Serial/Runs.antt =====
-- Tasks that run at the same time, over a network that answers the same at all times, from step to step.
use navar.Base.{ℕ, ◌≡◌, refl, sym, subst, List, []}
use navar.Buf.{Buf}
use navar.Normalize.{Boxes}
use navar.Pool.Steady.{Steady, replied}
use navar.Pool.Tasks.Invariant.{Fits, Inv}
use navar.Pool.Tasks.Serial.{Distinct, serially, Answered, Accounted}
use navar.Pool.Tasks.Steps.{Reach-Inv}
use navar.Pool.Tasks.{
  idle, begun, entering, connecting, shaking, sending, done, dropped, HandleTask, advance,
  drop_task, System, with_task, runs, drops, Reach, starts, steps,
}
use navar.Pool.Tasks.Serial.Points.{
  Stage, Serial, Stage-Accounted, goes_on, on_call-Serial, on_lock-Serial, on_connected-Serial,
  on_shaken-Serial,
}
use navar.Pool.{DashMap, Kinds, Plugins, normalized}

module _ {k : Kinds} {N : Type 0} {b : Buf k.Data} {n : Buf N} (boxes : Boxes b n)
    (into : k.BodyError → k.Error) (d : DashMap k.Authority k.Session) (p : Plugins k)
    (shard : k.Authority → ℕ) (reqs : ℕ → k.Req) where
  module _ (s : System boxes into d p shard) (i : ℕ) (v : Serial boxes into d p shard reqs s) where
    module _ (steady : Steady p) (inv : Inv boxes into d p shard s) where
      on_answer-Serial :
          (x : k.Session) (req : k.Req)
          → Stage boxes into d p shard reqs v.order i (sending x req)
          → Serial boxes into d p shard reqs (
              with_task boxes into d p shard s i
                (advance boxes into d p shard i s.shared (sending x req)))
      unfolding advance replied
      on_answer-Serial x req g = goes_on boxes into d p shard reqs s i v _ _ refl (
          subst (λ r. Answered boxes into d p shard reqs i (normalized boxes into d p r) v.order)
            (sym (steady.answers s.shared.service.log x req)) g)

      advance-Serial :
          (t : HandleTask boxes into d p shard)
          → s.tasks i ≡ t
          → Serial boxes into d p shard reqs
              (with_task boxes into d p shard s i (advance boxes into d p shard i s.shared t))
      unfolding advance
      advance-Serial idle e = goes_on boxes into d p shard reqs s i v _ _ refl tt
      advance-Serial (begun req) e =
          on_call-Serial boxes into d p shard reqs s i v req (p.authority (p.uri req)) refl
            (subst (Stage boxes into d p shard reqs v.order i) e (v.stage i))
      advance-Serial (entering a req) e =
          on_lock-Serial boxes into d p shard reqs s i v steady a req
            (d.entry s.shared.service.pool a)
            (subst (Fits d p s.shared.service.pool) e (inv.fits i)) refl
            (subst (Stage boxes into d p shard reqs v.order i) e (v.stage i))
      advance-Serial (connecting a req) e =
          on_connected-Serial boxes into d p shard reqs s i v steady a req
            (p.connect s.shared.service.log (p.uri req)) refl
            (subst (Fits d p s.shared.service.pool) e (inv.fits i))
            (subst (Stage boxes into d p shard reqs v.order i) e (v.stage i))
      advance-Serial (shaking a req conn) e =
          on_shaken-Serial boxes into d p shard reqs s i v steady a req conn
            (p.handshake s.shared.service.log conn) refl
            (subst (Fits d p s.shared.service.pool) e (inv.fits i))
            (subst (Stage boxes into d p shard reqs v.order i) e (v.stage i))
      advance-Serial (sending x req) e =
          on_answer-Serial x req (subst (Stage boxes into d p shard reqs v.order i) e (v.stage i))
      advance-Serial (done r) e =
          goes_on boxes into d p shard reqs s i v _ _ refl
            (subst (Stage boxes into d p shard reqs v.order i) e (v.stage i))
      advance-Serial dropped e = goes_on boxes into d p shard reqs s i v _ _ refl tt

    drop_task-Serial :
        (t : HandleTask boxes into d p shard)
        → s.tasks i ≡ t
        → Serial boxes into d p shard reqs
            (with_task boxes into d p shard s i (drop_task boxes into d p shard s.shared t))
    unfolding drop_task
    drop_task-Serial idle e = goes_on boxes into d p shard reqs s i v _ _ refl tt
    drop_task-Serial (begun req) e = goes_on boxes into d p shard reqs s i v _ _ refl tt
    drop_task-Serial (entering a req) e =
        goes_on boxes into d p shard reqs s i v _ _ refl
          (subst (Stage boxes into d p shard reqs v.order i) e (v.stage i))
    drop_task-Serial (connecting a req) e = goes_on boxes into d p shard reqs s i v _ _ refl tt
    drop_task-Serial (shaking a req conn) e = goes_on boxes into d p shard reqs s i v _ _ refl tt
    drop_task-Serial (sending x req) e = goes_on boxes into d p shard reqs s i v _ _ refl tt
    drop_task-Serial (done r) e =
        goes_on boxes into d p shard reqs s i v _ _ refl
          (subst (Stage boxes into d p shard reqs v.order i) e (v.stage i))
    drop_task-Serial dropped e = goes_on boxes into d p shard reqs s i v _ _ refl tt

  Reach-Serial :
      {threads count : ℕ} {s : System boxes into d p shard}
      → Steady p
      → Reach boxes into d p shard threads count reqs s
      → Serial boxes into d p shard reqs s
  Reach-Serial steady starts = record {
    order = [];
    distinct = tt;
    same_pool = refl;
    stage = λ j. (refl, tt);
  }
  Reach-Serial steady (steps {s} r (runs i below can)) =
      advance-Serial s i (Reach-Serial steady r) steady (Reach-Inv boxes into d p shard r)
        (s.tasks i) refl
  Reach-Serial steady (steps {s} r (drops i below can)) =
      drop_task-Serial s i (Reach-Serial steady r) (s.tasks i) refl

  -- Over a network that answers the same at all times, requests that run at the same time are as good as
  -- requests one after another: in whichever order their polls come, and whichever of their futures are
  -- dropped, there is an order of some of the calls, none twice, such that a new service that handles these
  -- calls one after another has the same pool, and gives every call that has ended the outcome that it has.
  pub Reach-serially :
      {threads count : ℕ} {s : System boxes into d p shard}
      → Steady p
      → Reach boxes into d p shard threads count reqs s
      → (order : List ℕ) × Distinct order
        × ((serially boxes into d p shard reqs order).pool ≡ s.shared.service.pool)
        × ((i : ℕ) → Accounted boxes into d p shard reqs order i (s.tasks i))
  Reach-serially {s = s} steady r =
      let v = Reach-Serial steady r in
      (
        v.order,
        v.distinct,
        v.same_pool,
        λ i. Stage-Accounted boxes into d p shard reqs v.order i (s.tasks i) (v.stage i),
      )
