-- ===== src/Pool/Tasks/Effects.antt =====
-- What each part of a call of `handle` keeps, as a step of one task.
use navar.Base.{
  ℕ, ◌+◌, ◌-◌, ◌≡◌, ◌≢◌, refl, sym, ap, ◌∙◌, List, ◌∷◌, Option, none, some, Result, ok, err, put,
  put_self, put-other, put-All,
}
use navar.Buf.{Buf}
use navar.Normalize.{Boxes}
use navar.Pool.Once.{insertions, Served, Keeps, insert-Keeps, inserted-Inv, bind_some}
use navar.Pool.Once
use navar.Pool.Tasks.Locks.{Owned, Owned-same, Owned-take, Owned-release, Owned-unique}
use navar.Pool.Tasks.{
  begun, entering, connecting, shaking, sending, done, Shared, HandleTask, note, on_call, on_lock,
  on_connected, on_shaken, System, with_task,
}
use navar.Pool.{DashMap, Kinds, Event, connected, shook_hands, Plugins}
use navar.Pool.Tasks.Invariant.{holder, Fits, Fits-insert, Inv}

module _ {k : Kinds} {N : Type 0} {b : Buf k.Data} {n : Buf N} (boxes : Boxes b n)
    (into : k.BodyError → k.Error) (d : DashMap k.Authority k.Session) (p : Plugins k)
    (shard : k.Authority → ℕ) where
  module _ (s : System boxes into d p shard) (i : ℕ) (inv : Inv boxes into d p shard s) where
    abbrev sh : Shared k d
    sh = s.shared

    -- Task `i` becomes `t`, and the pool stays.
    pub becomes :
        (log : List (Event k)) (locks : ℕ → Option ℕ) (free : ℕ)
        (t : HandleTask boxes into d p shard)
        → Once.Inv d p (record { pool = sh.service.pool; log = log })
        → Fits d p sh.service.pool t
        → Owned shard locks (λ j. holder (put s.tasks i t j))
        → Inv boxes into d p shard (record {
          shared = record {
            service = record { pool = sh.service.pool; log = log };
            locks = locks;
            free = free;
          };
          tasks = put s.tasks i t;
        })
    becomes log locks free t v f o = record {
      served = v;
      fits = put-All (λ j x. Fits d p sh.service.pool x) s.tasks i t f (λ j ne. inv.fits j);
      owned = o;
    }

    others :
        (t : HandleTask boxes into d p shard) (j : ℕ)
        → j ≢ i
        → holder (put s.tasks i t j) ≡ holder (s.tasks j)
    others t j ne = ap holder (put-other s.tasks i j t ne)

    own : (t : HandleTask boxes into d p shard) → holder (put s.tasks i t i) ≡ holder t
    own t = ap holder (put_self s.tasks i t)

    pub same_locks :
        (t : HandleTask boxes into d p shard)
        → holder (s.tasks i) ≡ holder t
        → Owned shard sh.locks (λ j. holder (put s.tasks i t j))
    same_locks t e = Owned-same shard i (others t) inv.owned (own t ∙ sym e)

    pub released :
        (a : k.Authority) (t : HandleTask boxes into d p shard)
        → holder (s.tasks i) ≡ some a
        → holder t ≡ none
        → Owned shard (put sh.locks (shard a) none) (λ j. holder (put s.tasks i t j))
    released a t e h = Owned-release shard i (others t) inv.owned a e (own t ∙ h)

    pub on_call-Inv :
        (req : k.Req) (o : Option k.Authority)
        → p.authority (p.uri req) ≡ o
        → s.tasks i ≡ begun req
        → Inv boxes into d p shard
            (with_task boxes into d p shard s i (on_call boxes into d p shard req sh o))
    unfolding on_call
    on_call-Inv req none h e =
        becomes sh.service.log sh.locks sh.free _ inv.served tt (same_locks _ (ap holder e))
    on_call-Inv req (some a) h e =
        becomes sh.service.log sh.locks (sh.free - 1) (entering a req) inv.served h
          (same_locks _ (ap holder e))

    pub on_lock-Inv :
        (a : k.Authority) (req : k.Req) (o : Option k.Session)
        → d.entry sh.service.pool a ≡ o
        → p.authority (p.uri req) ≡ some a
        → sh.locks (shard a) ≡ none
        → s.tasks i ≡ entering a req
        → Inv boxes into d p shard
            (with_task boxes into d p shard s i (on_lock boxes into d p shard i a req sh o))
    unfolding on_lock
    on_lock-Inv a req (some x) h auth free e =
        becomes sh.service.log sh.locks (sh.free + 1) (sending x req) inv.served (rw auth h)
          (same_locks _ (ap holder e))
    on_lock-Inv a req none h auth free e =
        becomes sh.service.log (put sh.locks (shard a) (some i)) (sh.free + 1) (connecting a req)
          inv.served (auth, h)
          (Owned-take shard i (others _) inv.owned a (ap holder e) (own (connecting a req)) free)

    pub on_connected-Inv :
        (a : k.Authority) (req : k.Req) (r : Result k.Error k.Conn)
        → (p.authority (p.uri req) ≡ some a) × (d.entry sh.service.pool a ≡ none)
        → s.tasks i ≡ connecting a req
        → Inv boxes into d p shard (
            with_task boxes into d p shard s i (
              on_connected boxes into d p shard a req
                (note boxes into d p shard (connected (p.uri req) r) sh)
                r))
    unfolding on_connected insertions
    on_connected-Inv a req (ok conn) f e =
        becomes _ sh.locks sh.free (shaking a req conn)
          (record { once = inv.served.once; served = inv.served.served }) f
          (same_locks _ (ap holder e))
    on_connected-Inv a req (err x) f e =
        becomes _ (put sh.locks (shard a) none) sh.free (done (err x))
          (record { once = inv.served.once; served = inv.served.served }) tt
          (released a _ (ap holder e) refl)

    -- The others do not hold the authority whose session is stored.
    others_apart :
        (a : k.Authority)
        → holder (s.tasks i) ≡ some a
        → (j : ℕ) → j ≢ i
        → (a' : k.Authority) → holder (s.tasks j) ≡ some a'
        → a' ≢ a
    others_apart a held j ne a' held' e =
        ne (Owned-unique shard j i a' a inv.owned held' held (ap shard e))

    pub on_shaken-Inv :
        (a : k.Authority) (req : k.Req) (conn : k.Conn) (r : Result k.Error (k.Session × k.Driver))
        → (p.authority (p.uri req) ≡ some a) × (d.entry sh.service.pool a ≡ none)
        → s.tasks i ≡ shaking a req conn
        → Inv boxes into d p shard (
            with_task boxes into d p shard s i (
              on_shaken boxes into d p shard a req
                (note boxes into d p shard (shook_hands conn r) sh)
                r))
    unfolding on_shaken insertions
    on_shaken-Inv a req conn (ok (x, driver)) f e = record {
      served =
          inserted-Inv boxes into d p a x driver
            (record {
              pool = sh.service.pool;
              log = shook_hands conn (ok (x, driver)) ∷ sh.service.log;
            })
            f.1 (record { once = inv.served.once; served = inv.served.served });
      fits =
          put-All (λ j t. Fits d p (d.insert sh.service.pool a x) t) s.tasks i (sending x req)
            (rw f.0 (d.entry-insert_self sh.service.pool a x))
            (λ j ne.
              Fits-insert d p sh.service.pool a x (s.tasks j) f.1
                (others_apart a (ap holder e) j ne) (inv.fits j));
      owned = released a _ (ap holder e) refl;
    }
    on_shaken-Inv a req conn (err x) f e =
        becomes _ (put sh.locks (shard a) none) sh.free (done (err x))
          (record { once = inv.served.once; served = inv.served.served }) tt
          (released a _ (ap holder e) refl)
