-- ===== src/Pool/Tasks/Progress.antt =====
-- With enough threads, the tasks can always go on to their ends.
use navar.Base.{
  ℕ, zero, suc, ◌+◌, ◌<◌, ◌≤◌, ◌≡◌, refl, sym, ap, ◌∙◌, ◌⊎◌, inl, inr, Bool, true, false,
  Bool-cases, Option, none, some, arith, ltb,
}
use navar.Buf.{Buf}
use navar.Normalize.{Boxes}
use navar.Pool.Tasks.Rank.{total_rank, Step-rank}
use navar.Pool.Tasks.Invariant.{holder, Inv}
use navar.Pool.Tasks.Steps.{Reach-Inv}
use navar.Pool.Tasks.{
  Task, idle, begun, entering, connecting, shaking, sending, done, dropped, HandleTask, can_run,
  advance, System, with_task, runs, Reach, steps, Shared, is_free,
}
use navar.Pool.{DashMap, Kinds, Plugins}
use navar.Pool.Tasks.Threads.{on_thread, sum_of-on_thread_lt, Accounts, Reach-Accounts}

abbrev pub unfinished : {Q A C S R : Type 0} → Task Q A C S R → Bool
unfinished idle = false
unfinished (begun req) = true
unfinished (entering a req) = true
unfinished (connecting a req) = true
unfinished (shaking a req conn) = true
unfinished (sending s req) = true
unfinished (done r) = false
unfinished dropped = false

-- One of the first `n` passes a test, or none does.
some_or_none :
    (test : ℕ → Bool) (n : ℕ)
    → ((i : ℕ) × (i < n) × (test i ≡ true)) ⊎ ((i : ℕ) → i < n → test i ≡ false)
some_or_none test zero = inr (λ i h. absurd (omega arith))
some_or_none test (suc n) = elim (some_or_none test n) [
  | inl (i, below, e) ↦ inl (i, omega arith, e)
  | inr all ↦ elim (Bool-cases (test n)) [
    | inl e ↦ inl (n, omega arith, e)
    | inr e ↦ inr (λ i below. elim (Bool-cases (ltb i n)) [
      | inl lt ↦ all i (ground arith)
      | inr ge ↦ let last : i ≡ n = ground arith in ap test last ∙ e
    ])
  ]
]

module _ {k : Kinds} {N : Type 0} {b : Buf k.Data} {n : Buf N} (boxes : Boxes b n)
    (into : k.BodyError → k.Error) (d : DashMap k.Authority k.Session) (p : Plugins k)
    (shard : k.Authority → ℕ) where
  ltb_of_lt : (m : ℕ) → 0 < m → ltb 0 m ≡ true
  ltb_of_lt m h = ground arith

  can_run-holder :
      (sh : Shared k d) (t : HandleTask boxes into d p shard) (a : k.Authority)
      → holder t ≡ some a
      → ltb 0 sh.free ≡ true
      → can_run boxes into d p shard sh t ≡ true
  unfolding can_run
  can_run-holder sh idle a h free = cc
  can_run-holder sh (begun req) a h free = cc
  can_run-holder sh (entering a' req) a h free = cc
  can_run-holder sh (connecting a' req) a h free = ground arith
  can_run-holder sh (shaking a' req conn) a h free = ground arith
  can_run-holder sh (sending s req) a h free = cc
  can_run-holder sh (done r) a h free = cc
  can_run-holder sh dropped a h free = cc

  on_thread-holder :
      (t : HandleTask boxes into d p shard) (a : k.Authority) → holder t ≡ some a → on_thread t ≡ 0
  on_thread-holder idle a h = cc
  on_thread-holder (begun req) a h = cc
  on_thread-holder (entering a' req) a h = cc
  on_thread-holder (connecting a' req) a h = refl
  on_thread-holder (shaking a' req conn) a h = refl
  on_thread-holder (sending s req) a h = cc
  on_thread-holder (done r) a h = cc
  on_thread-holder dropped a h = cc

  abbrev Runnable : ℕ → System boxes into d p shard → Type 0
  Runnable count s =
      (j : ℕ) × (j < count) × (can_run boxes into d p shard s.shared (s.tasks j) ≡ true)

  module _ {threads count : ℕ} (s : System boxes into d p shard) (inv : Inv boxes into d p shard s)
      (v : Accounts boxes into d p shard threads count s) (enough : count ≤ threads) where
    free_for : (i : ℕ) → i < count → on_thread (s.tasks i) ≡ 0 → ltb 0 s.shared.free ≡ true
    free_for i below h =
        ltb_of_lt s.shared.free
          (omega (arith, v.adds_up, enough, sum_of-on_thread_lt count s.tasks i below h))

    -- A blocked task waits for one that can go on.
    Runnable-entering :
        (i : ℕ) (x : ℕ) (o : Option ℕ)
        → i < count
        → s.shared.locks x ≡ o
        → (is_free o ≡ true → can_run boxes into d p shard s.shared (s.tasks i) ≡ true)
        → Runnable count s
    Runnable-entering i x none below h go = (i, below, go refl)
    Runnable-entering i x (some j) below h go =
        let (a, holds, same) = inv.owned.held x j h in
        elim (Bool-cases (ltb j count)) [
          | inl lt ↦
              let below' : j < count = ground arith in
              (
                j,
                below',
                can_run-holder s.shared (s.tasks j) a holds
                    (free_for j below' (on_thread-holder (s.tasks j) a holds)),
              )
          | inr ge ↦
              let nothing = v.untouched j (ground arith) in
              let no : none ≡ some a = sym nothing ∙ holds in cc no
        ]

    Runnable-unfinished :
        (i : ℕ) (t : HandleTask boxes into d p shard)
        → i < count
        → s.tasks i ≡ t
        → unfinished t ≡ true
        → Runnable count s
    unfolding can_run
    Runnable-unfinished i idle below e h = cc
    Runnable-unfinished i (begun req) below e h =
        (i, below, rw e (free_for i below (ap on_thread e)))
    Runnable-unfinished i (entering a req) below e h =
        Runnable-entering i (shard a) (s.shared.locks (shard a)) below refl (λ go. rw e go)
    Runnable-unfinished i (connecting a req) below e h =
        (i, below, rw e (free_for i below (ap on_thread e)))
    Runnable-unfinished i (shaking a req conn) below e h =
        (i, below, rw e (free_for i below (ap on_thread e)))
    Runnable-unfinished i (sending x req) below e h =
        (i, below, rw e (free_for i below (ap on_thread e)))
    Runnable-unfinished i (done r) below e h = cc
    Runnable-unfinished i dropped below e h = cc

  -- The tasks have all ended.
  abbrev pub AllEnded : ℕ → System boxes into d p shard → Type 0
  AllEnded count s = (i : ℕ) → i < count → unfinished (s.tasks i) ≡ false

  -- Steps that run tasks, and drop none.
  pub data Runs (count : ℕ)
      : System boxes into d p shard → System boxes into d p shard → Type 0 where
    stay : {s : System boxes into d p shard} → Runs count s s
    run_on :
        {s t : System boxes into d p shard} (i : ℕ)
        → i < count
        → can_run boxes into d p shard s.shared (s.tasks i) ≡ true
        → Runs count
            (with_task boxes into d p shard s i
              (advance boxes into d p shard i s.shared (s.tasks i)))
            t
        → Runs count s t

  ends_in :
      {threads count : ℕ} {reqs : ℕ → k.Req} (fuel : ℕ) (s : System boxes into d p shard)
      → count ≤ threads
      → Reach boxes into d p shard threads count reqs s
      → total_rank boxes into d p shard count s < fuel
      → (t : System boxes into d p shard) × Runs count s t × AllEnded count t
  ends_in zero s enough r h = absurd (omega arith)
  ends_in {count} (suc fuel) s enough r h =
      elim (some_or_none (λ i. unfinished (s.tasks i)) count) [
        | inl (i, below, e) ↦
            let v = Reach-Accounts boxes into d p shard r in
            let (j, below', can) =
              Runnable-unfinished s (Reach-Inv boxes into d p shard r) v enough i (s.tasks i) below
                refl e in
            let st = runs j below' can in
            let (t, rest, ended) =
              ends_in fuel _ enough (steps r st)
                (omega (arith, Step-rank boxes into d p shard st, h)) in
            (t, run_on j below' can rest, ended)
        | inr all ↦ (s, stay, all)
      ]

  -- On an executor with as many threads as there are requests, from every state that they can reach their
  -- tasks can run on until all have ended, with none of them dropped: no interleaving is a deadlock.
  pub Reach-ends :
      {threads count : ℕ} {reqs : ℕ → k.Req} {s : System boxes into d p shard}
      → count ≤ threads
      → Reach boxes into d p shard threads count reqs s
      → (t : System boxes into d p shard) × Runs count s t × AllEnded count t
  Reach-ends {count} {s} enough r =
      ends_in (total_rank boxes into d p shard count s + 1) s enough r (omega arith)
