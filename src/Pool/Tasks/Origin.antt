-- ===== src/Pool/Tasks/Origin.antt =====
-- Where the sessions come from that tasks send through.
use navar.Base.{ℕ, ◌≡◌, refl, sym, ◌∙◌, subst, List, Option, none, some, Result, ok, err, put-All}
use mathlib.Core.List.{Memᴰ}
use navar.Buf.{Buf}
use navar.Normalize.{Boxes}
use navar.Pool.Origin.{Origin, Originated, insert-Originated, Served-sent, found_at}
use navar.Pool.Tasks.Invariant.{Fits, Inv}
use navar.Pool.Tasks.Steps.{Reach-Inv}
use navar.Pool.Tasks.{
  idle, begun, entering, connecting, shaking, sending, done, dropped, Shared, HandleTask, note,
  on_call, on_lock, on_connected, on_shaken, advance, drop_task, System, with_task, runs, drops,
  Reach, starts, steps,
}
use navar.Pool.{DashMap, Kinds, Event, connected, shook_hands, sent, Plugins, new}

module _ {k : Kinds} {N : Type 0} {b : Buf k.Data} {n : Buf N} (boxes : Boxes b n)
    (into : k.BodyError → k.Error) (d : DashMap k.Authority k.Session) (p : Plugins k)
    (shard : k.Authority → ℕ) (reqs : ℕ → k.Req) where
  -- One of the requests.
  abbrev pub Asked : k.Req → Type 0
  Asked q = (i : ℕ) × (reqs i ≡ q)

  -- A task handles one of the requests, and its connection is to that request's URI.
  abbrev Stage : HandleTask boxes into d p shard → Type 0
  Stage idle = Unit {0}
  Stage (begun req) = Asked req
  Stage (entering a req) = Asked req
  Stage (connecting a req) = Asked req
  Stage (shaking a req conn) =
      Asked req × ((before : List (Event k)) × (p.connect before (p.uri req) ≡ ok conn))
  Stage (sending s req) = Unit {0}
  Stage (done r) = Unit {0}
  Stage dropped = Unit {0}

  record Known (s : System boxes into d p shard) : Type 0 where
    origins : Originated d p Asked s.shared.service.pool
    stage : (j : ℕ) → Stage (s.tasks j)

  module _ (s : System boxes into d p shard) (i : ℕ) (inv : Inv boxes into d p shard s)
      (known : Known s) where
    -- Task `i` becomes `t`.
    becomes :
        (sh : Shared k d) (t : HandleTask boxes into d p shard)
        → Originated d p Asked sh.service.pool
        → Stage t
        → Known (with_task boxes into d p shard s i (sh, t))
    becomes sh t o g = record {
      origins = o;
      stage = put-All (λ j x. Stage x) s.tasks i t g (λ j ne. known.stage j);
    }

    on_call-Known :
        (req : k.Req) (o : Option k.Authority)
        → Asked req
        → Known (with_task boxes into d p shard s i (on_call boxes into d p shard req s.shared o))
    unfolding on_call
    on_call-Known req none g = becomes _ _ known.origins tt
    on_call-Known req (some a) g = becomes _ _ known.origins g

    on_lock-Known :
        (a : k.Authority) (req : k.Req) (o : Option k.Session)
        → Asked req
        → Known
            (with_task boxes into d p shard s i (on_lock boxes into d p shard i a req s.shared o))
    unfolding on_lock
    on_lock-Known a req (some x) g = becomes _ _ known.origins tt
    on_lock-Known a req none g = becomes _ _ known.origins g

    on_connected-Known :
        (a : k.Authority) (req : k.Req) (r : Result k.Error k.Conn) (before : List (Event k))
        → Asked req
        → p.connect before (p.uri req) ≡ r
        → Known (
            with_task boxes into d p shard s i (
              on_connected boxes into d p shard a req
                (note boxes into d p shard (connected (p.uri req) r) s.shared)
                r))
    unfolding on_connected
    on_connected-Known a req (ok conn) before g c = becomes _ _ known.origins (g, (before, c))
    on_connected-Known a req (err e) before g c = becomes _ _ known.origins tt

    on_shaken-Known :
        (a : k.Authority) (req : k.Req) (conn : k.Conn) (r : Result k.Error (k.Session × k.Driver))
        (after : List (Event k))
        → p.authority (p.uri req) ≡ some a
        → Stage (shaking a req conn)
        → p.handshake after conn ≡ r
        → Known (
            with_task boxes into d p shard s i (
              on_shaken boxes into d p shard a req
                (note boxes into d p shard (shook_hands conn r) s.shared)
                r))
    unfolding on_shaken
    on_shaken-Known a req conn (ok (x, driver)) after h (g, (before, c)) shook =
        becomes _ _
          (insert-Originated d p Asked s.shared.service.pool a x
            (record {
              req = req;
              among = g;
              authority = h;
              conn = conn;
              before = before;
              connects = c;
              after = after;
              driver = driver;
              shakes = shook;
            })
            known.origins)
          tt
    on_shaken-Known a req conn (err e) after h g shook = becomes _ _ known.origins tt

    advance-Known :
        (t : HandleTask boxes into d p shard)
        → s.tasks i ≡ t
        → Known (with_task boxes into d p shard s i (advance boxes into d p shard i s.shared t))
    unfolding advance
    advance-Known idle e = becomes _ _ known.origins tt
    advance-Known (begun req) e =
        on_call-Known req (p.authority (p.uri req)) (subst Stage e (known.stage i))
    advance-Known (entering a req) e =
        on_lock-Known a req (d.entry s.shared.service.pool a) (subst Stage e (known.stage i))
    advance-Known (connecting a req) e =
        on_connected-Known a req (p.connect s.shared.service.log (p.uri req)) _
          (subst Stage e (known.stage i)) refl
    advance-Known (shaking a req conn) e =
        on_shaken-Known a req conn (p.handshake s.shared.service.log conn) _
          (subst (Fits d p s.shared.service.pool) e (inv.fits i)).0 (subst Stage e (known.stage i))
          refl
    advance-Known (sending x req) e = becomes _ _ known.origins tt
    advance-Known (done r) e = becomes _ _ known.origins tt
    advance-Known dropped e = becomes _ _ known.origins tt

    drop_task-Known :
        (t : HandleTask boxes into d p shard)
        → s.tasks i ≡ t
        → Known (with_task boxes into d p shard s i (drop_task boxes into d p shard s.shared t))
    unfolding drop_task
    drop_task-Known idle e = becomes _ _ known.origins tt
    drop_task-Known (begun req) e = becomes _ _ known.origins tt
    drop_task-Known (entering a req) e = becomes _ _ known.origins (subst Stage e (known.stage i))
    drop_task-Known (connecting a req) e = becomes _ _ known.origins tt
    drop_task-Known (shaking a req conn) e = becomes _ _ known.origins tt
    drop_task-Known (sending x req) e = becomes _ _ known.origins tt
    drop_task-Known (done r) e = becomes _ _ known.origins tt
    drop_task-Known dropped e = becomes _ _ known.origins tt

  Reach-Known :
      {threads count : ℕ} {s : System boxes into d p shard}
      → Reach boxes into d p shard threads count reqs s
      → Known s
  unfolding new
  Reach-Known starts = record {
    origins = λ a x e. let no : none ≡ some x = sym (d.entry-empty a) ∙ e in cc no;
    stage = λ j. (j, refl);
  }
  Reach-Known (steps {s} r (runs i below can)) =
      advance-Known s i (Reach-Inv boxes into d p shard r) (Reach-Known r) (s.tasks i) refl
  Reach-Known (steps {s} r (drops i below can)) =
      drop_task-Known s i (Reach-Inv boxes into d p shard r) (Reach-Known r) (s.tasks i) refl

  -- A request that has been sent went through a session of its own authority, which shook hands on a
  -- connection to the URI of one of the requests.
  pub Reach-Origin :
      {threads count : ℕ} {s : System boxes into d p shard} (x : k.Session) (q : k.Req) {r : _}
      → Reach boxes into d p shard threads count reqs s
      → Memᴰ (sent x q r) s.shared.service.log
      → (a : k.Authority) × (p.authority (p.uri q) ≡ some a) × Origin d p Asked a x
  Reach-Origin {s = s} x q reached m =
      let (a, h, held) = found_at (p.authority (p.uri q)) (
        Served-sent d p s.shared.service.pool s.shared.service.log
          (Reach-Inv boxes into d p shard reached).served.served m) in
      (a, h, (Reach-Known reached).origins a x held)
