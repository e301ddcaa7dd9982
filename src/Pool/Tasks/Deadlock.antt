-- ===== src/Pool/Tasks/Deadlock.antt =====
-- However many threads there are, one request more, all to one shard, can block each other for ever.
use navar.Base.{
  ℕ, zero, suc, ◌+◌, ◌-◌, ◌≤◌, ◌==◌, ==_iff, put-other, put-All, inl, inr, Bool-cases, ◌<◌, ◌≡◌,
  refl, ap, ◌∙◌, subst, true, false, none, some, arith, put_self,
}
use navar.Buf.{Buf}
use navar.Normalize.{Boxes}
use navar.Pool.Tasks.Progress.{unfinished}
use navar.Pool.Tasks.{
  begun, entering, connecting, After, lock, can_run, can_drop, on_call, on_lock, advance, System,
  with_task, runs, start, Reach, starts, steps, is_free,
}
use navar.Pool.{DashMap, Kinds, Plugins, new}

module _ {k : Kinds} {N : Type 0} {b : Buf k.Data} {n : Buf N} (boxes : Boxes b n)
    (into : k.BodyError → k.Error) (d : DashMap k.Authority k.Session) (p : Plugins k)
    (shard : k.Authority → ℕ) where
  go_on :
      {threads count : ℕ} {reqs : ℕ → k.Req} (s : System boxes into d p shard) (i : ℕ)
      (x : After boxes into d p shard)
      → Reach boxes into d p shard threads count reqs s
      → i < count
      → can_run boxes into d p shard s.shared (s.tasks i) ≡ true
      → advance boxes into d p shard i s.shared (s.tasks i) ≡ x
      → Reach boxes into d p shard threads count reqs (with_task boxes into d p shard s i x)
  go_on {threads} {count} {reqs} s i x r below can e =
      subst
        (λ y. Reach boxes into d p shard threads count reqs (with_task boxes into d p shard s i y))
        e (steps r (runs i below can))

  -- Task `i` is at no end, and can neither run nor be dropped.
  abbrev pub Stuck : System boxes into d p shard → ℕ → Type 0
  Stuck s i =
      (unfinished (s.tasks i) ≡ true)
      × (can_run boxes into d p shard s.shared (s.tasks i) ≡ false)
      × (can_drop boxes into d p shard s.shared (s.tasks i) ≡ false)

  module _ (threads : ℕ) (reqs : ℕ → k.Req) (a : ℕ → k.Authority)
      (auth : (i : ℕ) → p.authority (p.uri (reqs i)) ≡ some (a i)) where
    -- The first task has the entry, and the next `m` are inside `pool.entry`, each on a thread.
    record Waiting (m : ℕ) (s : System boxes into d p shard) : Type 0 where
      reached : Reach boxes into d p shard threads (threads + 1) reqs s
      adds_up : s.shared.free + m ≡ threads
      locked : s.shared.locks (shard (a 0)) ≡ some 0
      first : s.tasks 0 ≡ connecting (a 0) (reqs 0)
      inside : (i : ℕ) → 0 < i → i ≤ m → s.tasks i ≡ entering (a i) (reqs i)
      outside : (i : ℕ) → m < i → s.tasks i ≡ begun (reqs i)

    abbrev at_start : System boxes into d p shard
    at_start = start boxes into d p shard threads reqs

    abbrev first_enters : System boxes into d p shard
    first_enters =
        with_task boxes into d p shard at_start 0
          (record (at_start.shared) { free = threads - 1 }, entering (a 0) (reqs 0))

    abbrev first_holds : System boxes into d p shard
    first_holds = with_task boxes into d p shard first_enters 0 (
      lock boxes into d p shard (a 0) 0 (record (at_start.shared) { free = threads - 1 + 1 }),
      connecting (a 0) (reqs 0),
    )

    Waiting-zero : 0 < threads → Waiting 0 first_holds
    unfolding can_run advance on_call on_lock new
    Waiting-zero some_thread =
        let r₁ : Reach boxes into d p shard threads (threads + 1) reqs first_enters =
          go_on at_start 0 _ starts (omega arith) (ground arith) (rw (auth 0)) in
        let r₂ : Reach boxes into d p shard threads (threads + 1) reqs first_holds =
          go_on first_enters 0 _ r₁ (omega arith) refl (rw (d.entry-empty (a 0))) in
        record {
          reached = r₂;
          adds_up = omega arith;
          locked = put_self (λ x. none) (shard (a 0)) (some 0);
          first = refl;
          inside = λ i pos small. absurd (omega arith);
          outside = λ i pos.
              put-other first_enters.tasks 0 i (connecting (a 0) (reqs 0))
                (λ e. absurd (omega (arith, e, pos)))
              ∙ put-other at_start.tasks 0 i (entering (a 0) (reqs 0))
                  (λ e. absurd (omega (arith, e, pos)));
        }

    Waiting-suc :
        (m : ℕ) (s : System boxes into d p shard)
        → m < threads
        → Waiting m s
        → (t : System boxes into d p shard) × Waiting (suc m) t
    unfolding can_run advance on_call
    Waiting-suc m s room v = (
      with_task boxes into d p shard s (suc m)
          (record (s.shared) { free = s.shared.free - 1 }, entering (a (suc m)) (reqs (suc m))),
      record {
        reached =
            go_on s (suc m) _ v.reached (omega arith)
              (rw (v.outside (suc m) (omega arith)) (ground (arith, v.adds_up)))
              (rw (v.outside (suc m) (omega arith)) (rw (auth (suc m))));
        adds_up = omega (arith, v.adds_up);
        locked = v.locked;
        first = put-other s.tasks (suc m) 0 _ (λ e. absurd (omega (arith, e))) ∙ v.first;
        inside =
            put-All (λ i x. 0 < i → i ≤ suc m → x ≡ entering (a i) (reqs i)) s.tasks (suc m) _
              (λ pos small. refl) (λ i ne pos small. v.inside i pos (omega (arith, ne, small)));
        outside = λ i past.
            put-other s.tasks (suc m) i _ (λ e. absurd (omega (arith, e, past)))
            ∙ v.outside i (omega arith);
      },
    )

    Waiting-all :
        0 < threads → (m : ℕ) → m ≤ threads → (s : System boxes into d p shard) × Waiting m s
    Waiting-all some_thread zero h = (first_holds, Waiting-zero some_thread)
    Waiting-all some_thread (suc m) h =
        let (s, v) = Waiting-all some_thread m (omega arith) in Waiting-suc m s (omega arith) v

    Waiting-Stuck :
        ((i : ℕ) → shard (a i) ≡ shard (a 0))
        → (s : System boxes into d p shard) → Waiting threads s
        → (i : ℕ) → i ≤ threads
        → Stuck s i
    unfolding can_run can_drop
    Waiting-Stuck one_shard s v i small =
        let no_thread : s.shared.free ≡ 0 = omega (arith, v.adds_up) in
        elim (Bool-cases (i == 0)) [
          | inl e ↦ rw ((==_iff i 0).0 e) (rw (v.first, no_thread) (refl, refl, refl))
          | inr e ↦
              rw (v.inside i (ground arith) small)
                (refl, ap is_free (ap s.shared.locks (one_shard i) ∙ v.locked), refl)
        ]

    -- However many threads an executor has, at least one, one request more, with all their authorities in one shard of
    -- the map, as requests to one new host have, can come to a state with no way on: the first waits for
    -- its connection with the entry locked, the others block all threads until the entry is free, and no
    -- task can run, or be dropped.
    pub threads_deadlock :
        0 < threads
        → ((i : ℕ) → shard (a i) ≡ shard (a 0))
        → (s : System boxes into d p shard) × Reach boxes into d p shard threads
            (threads + 1)
            reqs
            s
          × ((i : ℕ) → i ≤ threads → Stuck s i)
    threads_deadlock some_thread one_shard =
        let (s, v) = Waiting-all some_thread threads (omega arith) in
        (s, v.reached, Waiting-Stuck one_shard s v)
