-- ===== src/Pool/Tasks/Serial/Points.antt =====
-- Each task has a point at which its call could have run as a whole: where the entry is found occupied, or
-- where opening a session fails or is done.
use navar.Base.{
  ℕ, ◌≡◌, ◌≢◌, refl, sym, ap, ◌∙◌, subst, List, [], ◌∷◌, Option, none, some, Result, ok, err,
  put-All,
}
use navar.Buf.{Buf}
use navar.Normalize.{Boxes}
use navar.Pool.Steady.{
  Steady, Gives, replied, Gives-no_authority, Gives-held, Gives-no_connection, Gives-no_handshake,
  Gives-opened,
}
use navar.Pool.Tasks.Serial.{Absent, Distinct, serially, Answered, last, earlier, Accounted}
use navar.Pool.Tasks.{
  idle, begun, entering, connecting, shaking, sending, done, dropped, Outcome, Shared, HandleTask,
  note, on_call, on_lock, on_connected, on_shaken, System, with_task,
}
use navar.Pool.{DashMap, Kinds, connected, shook_hands, Plugins, Pooled}

module _ {k : Kinds} {N : Type 0} {b : Buf k.Data} {n : Buf N} (boxes : Boxes b n)
    (into : k.BodyError → k.Error) (d : DashMap k.Authority k.Session) (p : Plugins k)
    (shard : k.Authority → ℕ) (reqs : ℕ → k.Req) where
  -- A task before its point is not among the calls; one past it has, or will have, its call's outcome.
  abbrev pub Stage : List ℕ → ℕ → HandleTask boxes into d p shard → Type 0
  Stage order j idle = Unit {0}
  Stage order j (begun req) = (reqs j ≡ req) × Absent j order
  Stage order j (entering a req) = (reqs j ≡ req) × Absent j order
  Stage order j (connecting a req) = (reqs j ≡ req) × Absent j order
  Stage order j (shaking a req conn) =
      (reqs j ≡ req) × Absent j order × (p.connect [] (p.uri req) ≡ ok conn)
  Stage order j (sending s req) =
      Answered boxes into d p shard reqs j (replied boxes into d p s req) order
  Stage order j (done r) = Answered boxes into d p shard reqs j r order
  Stage order j dropped = Unit {0}

  -- Another task's call.
  Stage-other :
      (order : List ℕ) (i j : ℕ) (t : HandleTask boxes into d p shard)
      → j ≢ i
      → Stage order j t
      → Stage (i ∷ order) j t
  Stage-other order i j idle ne g = tt
  Stage-other order i j (begun req) ne (asked, away) = (asked, (ne, away))
  Stage-other order i j (entering a req) ne (asked, away) = (asked, (ne, away))
  Stage-other order i j (connecting a req) ne (asked, away) = (asked, (ne, away))
  Stage-other order i j (shaking a req conn) ne (asked, away, c) = (asked, (ne, away), c)
  Stage-other order i j (sending s req) ne g = earlier g
  Stage-other order i j (done r) ne g = earlier g
  Stage-other order i j dropped ne g = tt

  pub Stage-Accounted :
      (order : List ℕ) (j : ℕ) (t : HandleTask boxes into d p shard)
      → Stage order j t
      → Accounted boxes into d p shard reqs order j t
  Stage-Accounted order j idle g = tt
  Stage-Accounted order j (begun req) g = tt
  Stage-Accounted order j (entering a req) g = tt
  Stage-Accounted order j (connecting a req) g = tt
  Stage-Accounted order j (shaking a req conn) g = tt
  Stage-Accounted order j (sending s req) g = tt
  Stage-Accounted order j (done r) g = g
  Stage-Accounted order j dropped g = tt

  pub record Serial (s : System boxes into d p shard) : Type 0 where
    pub order : List ℕ
    pub distinct : Distinct order
    pub same_pool : (serially boxes into d p shard reqs order).pool ≡ s.shared.service.pool
    pub stage : (j : ℕ) → Stage order j (s.tasks j)

  module _ (s : System boxes into d p shard) (i : ℕ) (v : Serial s) where
    -- Task `i` becomes `t`, before its point or past it.
    pub goes_on :
        (sh : Shared k d) (t : HandleTask boxes into d p shard)
        → s.shared.service.pool ≡ sh.service.pool
        → Stage v.order i t
        → Serial (with_task boxes into d p shard s i (sh, t))
    goes_on sh t same g = record {
      order = v.order;
      distinct = v.distinct;
      same_pool = v.same_pool ∙ same;
      stage = put-All (λ j x. Stage v.order j x) s.tasks i t g (λ j ne. v.stage j);
    }

    abbrev pub before : Pooled k d
    before = serially boxes into d p shard reqs v.order

    -- Task `i` is at its point, and its call leaves the pool that there is then.
    at_point :
        (sh : Shared k d) (t : HandleTask boxes into d p shard) (o : Outcome boxes into d p shard)
        (req : k.Req)
        → reqs i ≡ req
        → Absent i v.order
        → Gives boxes into d p req before o sh.service.pool
        → (Answered boxes into d p shard reqs i o (i ∷ v.order) → Stage (i ∷ v.order) i t)
        → Serial (with_task boxes into d p shard s i (sh, t))
    at_point sh t o req asked away gives g =
        let called : Gives boxes into d p (reqs i) before o sh.service.pool =
          subst (λ q. Gives boxes into d p q before o sh.service.pool) (sym asked) gives in
        record {
          order = i ∷ v.order;
          distinct = (away, v.distinct);
          same_pool = called.pool_left;
          stage =
              put-All (λ j x. Stage (i ∷ v.order) j x) s.tasks i t (g (last called.outcome))
                (λ j ne. Stage-other v.order i j (s.tasks j) ne (v.stage j));
        }

    -- The pool is the one before the call.
    unchanged :
        {o : Outcome boxes into d p shard} {req : k.Req}
        → Gives boxes into d p req before o before.pool
        → Gives boxes into d p req before o s.shared.service.pool
    unchanged {o} {req} gives = subst (Gives boxes into d p req before o) v.same_pool gives

    found :
        (a : k.Authority) (o : Option k.Session)
        → d.entry s.shared.service.pool a ≡ o
        → d.entry before.pool a ≡ o
    found a o e = ap (λ pool. d.entry pool a) v.same_pool ∙ e

    pub on_call-Serial :
        (req : k.Req) (o : Option k.Authority)
        → p.authority (p.uri req) ≡ o
        → Stage v.order i (begun req)
        → Serial (with_task boxes into d p shard s i (on_call boxes into d p shard req s.shared o))
    unfolding on_call
    on_call-Serial req none h (asked, away) =
        at_point _ _ _ req asked away (unchanged (Gives-no_authority boxes into d p req before h))
          (λ g. g)
    on_call-Serial req (some a) h g = goes_on _ _ refl g

    module _ (steady : Steady p) where
      pub on_lock-Serial :
          (a : k.Authority) (req : k.Req) (o : Option k.Session)
          → p.authority (p.uri req) ≡ some a
          → d.entry s.shared.service.pool a ≡ o
          → Stage v.order i (entering a req)
          → Serial
              (with_task boxes into d p shard s i (on_lock boxes into d p shard i a req s.shared o))
      unfolding on_lock
      on_lock-Serial a req (some x) h e (asked, away) =
          at_point _ _ _ req asked away
            (unchanged (Gives-held boxes into d p steady req before a h x (found a (some x) e)))
            (λ g. g)
      on_lock-Serial a req none h e g = goes_on _ _ refl g

      pub on_connected-Serial :
          (a : k.Authority) (req : k.Req) (r : Result k.Error k.Conn)
          → p.connect s.shared.service.log (p.uri req) ≡ r
          → (p.authority (p.uri req) ≡ some a) × (d.entry s.shared.service.pool a ≡ none)
          → Stage v.order i (connecting a req)
          → Serial (
              with_task boxes into d p shard s i (
                on_connected boxes into d p shard a req
                  (note boxes into d p shard (connected (p.uri req) r) s.shared)
                  r))
      unfolding on_connected
      on_connected-Serial a req (ok conn) c f (asked, away) =
          goes_on _ _ refl (asked, away, sym (steady.connects s.shared.service.log (p.uri req)) ∙ c)
      on_connected-Serial a req (err e) c (h, vacant) (asked, away) =
          at_point _ _ _ req asked away
            (unchanged (
              Gives-no_connection boxes into d p steady req before a h (found a none vacant) e
                (sym (steady.connects s.shared.service.log (p.uri req)) ∙ c)))
            (λ g. g)

      pub on_shaken-Serial :
          (a : k.Authority) (req : k.Req) (conn : k.Conn)
          (r : Result k.Error (k.Session × k.Driver))
          → p.handshake s.shared.service.log conn ≡ r
          → (p.authority (p.uri req) ≡ some a) × (d.entry s.shared.service.pool a ≡ none)
          → Stage v.order i (shaking a req conn)
          → Serial (
              with_task boxes into d p shard s i (
                on_shaken boxes into d p shard a req
                  (note boxes into d p shard (shook_hands conn r) s.shared)
                  r))
      unfolding on_shaken
      on_shaken-Serial a req conn (ok (x, driver)) shook (h, vacant) (asked, away, reached) =
          at_point _ _ _ req asked away
            (subst
              (λ pool.
                Gives boxes into d p req before (replied boxes into d p x req) (d.insert pool a x))
              v.same_pool
              (Gives-opened boxes into d p steady req before a h (found a none vacant) conn x driver
                reached (sym (steady.shakes s.shared.service.log conn) ∙ shook)))
            (λ g. g)
      on_shaken-Serial a req conn (err e) shook (h, vacant) (asked, away, reached) =
          at_point _ _ _ req asked away
            (unchanged (
              Gives-no_handshake boxes into d p steady req before a h (found a none vacant) conn e
                reached (sym (steady.shakes s.shared.service.log conn) ∙ shook)))
            (λ g. g)
