-- ===== src/Pool/Tasks/Alone.antt =====
-- A task that nothing interrupts does what `handle` does.
use navar.Base.{
  ℕ, zero, suc, ◌+◌, ◌-◌, ◌<◌, ◌≡◌, refl, ap, true, Option, none, some, Result, ok, err, arith, ltb,
  if◌then◌else◌,
}
use navar.Buf.{Buf}
use navar.Normalize.{Boxes}
use navar.Pool.Tasks.{
  begun, entering, connecting, shaking, sending, done, Outcome, note, lock, Shared, HandleTask,
  After, can_run, on_call, on_lock, on_connected, on_shaken, advance, is_free,
}
use navar.Pool.{
  DashMap, Kinds, connected, shook_hands, Plugins, Pooled, send_through, after_handshake,
  after_connect, on_entry, on_authority, handle,
}

module _ {k : Kinds} {N : Type 0} {b : Buf k.Data} {n : Buf N} (boxes : Boxes b n)
    (into : k.BodyError → k.Error) (d : DashMap k.Authority k.Session) (p : Plugins k)
    (shard : k.Authority → ℕ) where
  -- At most so many steps of one task; it stops where it cannot go on.
  unfoldable pub alone : ℕ → ℕ → After boxes into d p shard → After boxes into d p shard
  unfolding can_run advance
  alone zero i x = x
  alone (suc fuel) i x =
      let rest = alone fuel i (advance boxes into d p shard i x.0 x.1) in
      if can_run boxes into d p shard x.0 x.1 then rest else x

  -- A task that has ended with the outcome, and left the service, of a call.
  abbrev pub Ends : After boxes into d p shard → Outcome boxes into d p shard × Pooled k d → Type 0
  Ends x o = (x.1 ≡ done o.0) × (x.0.service ≡ o.1)

  alone-done :
      (fuel i : ℕ) (sh : Shared k d) (r : Outcome boxes into d p shard)
      → alone fuel i (sh, done r) ≡ (sh, done r)
  unfolding alone can_run
  alone-done zero i sh r = refl
  alone-done (suc fuel) i sh r = refl

  alone-step :
      (fuel i : ℕ) (sh : Shared k d) (t : HandleTask boxes into d p shard)
      {o : Outcome boxes into d p shard × Pooled k d}
      → can_run boxes into d p shard sh t ≡ true
      → Ends (alone fuel i (advance boxes into d p shard i sh t)) o
      → Ends (alone (suc fuel) i (sh, t)) o
  unfolding alone
  alone-step fuel i sh t can ends = rw can ends

  ended :
      (fuel i : ℕ) (sh : Shared k d) (r : Outcome boxes into d p shard)
      → Ends (alone fuel i (sh, done r)) (r, sh.service)
  ended fuel i sh r = rw (alone-done fuel i sh r) (refl, refl)

  abbrev Free : Shared k d → Type 0
  Free sh = ltb 0 sh.free ≡ true

  Ends-sending :
      (fuel i : ℕ) (sh : Shared k d) (s : k.Session) (req : k.Req)
      → Free sh
      → Ends (alone (suc fuel) i (sh, sending s req)) (send_through boxes into d p s req sh.service)
  unfolding can_run advance send_through
  Ends-sending fuel i sh s req free = alone-step fuel i sh (sending s req) free (ended fuel i _ _)

  Ends-on_shaken :
      (i : ℕ) (a : k.Authority) (req : k.Req) (sh : Shared k d)
      (r : Result k.Error (k.Session × k.Driver))
      → Free sh
      → Ends
          (alone 1 i (on_shaken boxes into d p shard a req sh r))
          (after_handshake boxes into d p a req sh.service r)
  unfolding on_shaken after_handshake
  Ends-on_shaken i a req sh (ok (s, driver)) free = Ends-sending 0 i _ s req free
  Ends-on_shaken i a req sh (err e) free = ended 1 i _ (err e)

  Ends-on_connected :
      (i : ℕ) (a : k.Authority) (req : k.Req) (sh : Shared k d) (r : Result k.Error k.Conn)
      → Free sh
      → Ends
          (alone 2 i (on_connected boxes into d p shard a req sh r))
          (after_connect boxes into d p a req sh.service r)
  unfolding on_connected after_connect advance can_run
  Ends-on_connected i a req sh (ok conn) free = alone-step 1 i sh (shaking a req conn) free (
      Ends-on_shaken i a req
        (note boxes into d p shard (shook_hands conn (p.handshake sh.service.log conn)) sh)
        (p.handshake sh.service.log conn) free)
  Ends-on_connected i a req sh (err e) free = ended 2 i _ (err e)

  Ends-on_lock :
      (i : ℕ) (a : k.Authority) (req : k.Req) (sh : Shared k d) (o : Option k.Session)
      → Ends
          (alone 3 i (on_lock boxes into d p shard i a req sh o))
          (on_entry boxes into d p a req sh.service o)
  unfolding on_lock on_entry advance can_run
  Ends-on_lock i a req sh (some s) = Ends-sending 2 i _ s req (ground arith)
  Ends-on_lock i a req sh none =
      let locked : Shared k d = lock boxes into d p shard a i (record sh { free = sh.free + 1 }) in
      alone-step 2 i locked (connecting a req) (ground arith) (
        Ends-on_connected i a req
          (note boxes into d p shard (connected (p.uri req) (p.connect sh.service.log (p.uri req)))
            locked)
          (p.connect sh.service.log (p.uri req)) (ground arith))

  Ends-on_call :
      (i : ℕ) (req : k.Req) (sh : Shared k d) (o : Option k.Authority)
      → ((x : ℕ) → sh.locks x ≡ none)
      → Ends
          (alone 4 i (on_call boxes into d p shard req sh o))
          (on_authority boxes into d p req sh.service o)
  unfolding on_call on_authority advance can_run
  Ends-on_call i req sh none unlocked = ended 4 i sh _
  Ends-on_call i req sh (some a) unlocked =
      let taken : Shared k d = record sh { free = sh.free - 1 } in
      alone-step 3 i taken (entering a req) (ap is_free (unlocked (shard a)))
        (Ends-on_lock i a req taken (d.entry sh.service.pool a))

  -- Where no other task holds a lock and a thread is free, the five steps of a task that runs alone come
  -- to the outcome of `handle`, and leave the pool and the log as `handle` does.
  pub alone-handle :
      (i : ℕ) (sh : Shared k d) (req : k.Req)
      → ((x : ℕ) → sh.locks x ≡ none)
      → 0 < sh.free
      → Ends (alone 5 i (sh, begun req)) (handle boxes into d p req sh.service)
  unfolding handle advance can_run
  alone-handle i sh req unlocked free =
      alone-step 4 i sh (begun req) (ground arith)
        (Ends-on_call i req sh (p.authority (p.uri req)) unlocked)
