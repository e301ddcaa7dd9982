-- ===== src/Pool/Once.antt =====
-- Each authority is connected to once, and its session serves all later requests.
use navar.Base.{
  ℕ, ◌+◌, ◌≤◌, ◌≡◌, refl, sym, ap, ◌∙◌, List, [], ◌∷◌, Option, none, some, Result, ok, err, arith,
  ◌>>=◌,
}
use mathlib.Core.Logic.{ite, if_pos, if_neg}
use Prim.Native.Nat.add
use navar.Buf.{Buf}
use navar.Normalize.{Boxes}
use navar.Pool.{
  DashMap, Kinds, Event, connected, shook_hands, spawned, inserted, sent, Plugins, Pooled, new,
  send_through, after_handshake, after_connect, on_entry, on_authority, handle, run,
}

abbrev present : {A : Type 0} → Option A → ℕ
present none = 0
present (some a) = 1

pub present_le_one : {A : Type 0} (o : Option A) → present o ≤ 1
present_le_one none = omega arith
present_le_one (some a) = omega arith

none_or_some : {A : Type 0} {a : A} → none ≡ some a → ⊥
none_or_some h = cc

pub bind_some :
    {A B : Type 0} {f g : A → Option B} {b : B} (o : Option A)
    → ((a : A) → f a ≡ some b → g a ≡ some b)
    → (o >>= f) ≡ some b
    → (o >>= g) ≡ some b
bind_some none h e = e
bind_some (some a) h e = h a e

count_insert :
    {K V : Type 0} (d : DashMap K V) (pool : d.Carrier) (a a' : K) (s : V) (n : ℕ)
    → d.entry pool a ≡ none
    → n ≡ present (d.entry pool a')
    → ite (d.same_key a a') 1 0 + n ≡ present (d.entry (d.insert pool a s) a')
count_insert d pool a a' s n vacant h = elim (d.same_key a a') [
  | yes e ↦
      rw (if_pos _ e, ← e, d.entry-insert_self pool a s)
        (let empty : n ≡ 0 = h ∙ ap (λ x. present (d.entry pool x)) (sym e) ∙ ap present vacant in
          omega arith)
  | no ne ↦ rw (if_neg _ ne, d.entry-insert_ne pool a' a s (λ e. ne (sym e))) (add.zero n ∙ h)
]

module _ {k : Kinds} (d : DashMap k.Authority k.Session) (p : Plugins k) where
  -- How often a session was put into the pool for `a`.
  unfoldable pub insertions : k.Authority → List (Event k) → ℕ
  insertions a [] = 0
  insertions a (inserted a' s ∷ log) = ite (d.same_key a' a) 1 0 + insertions a log
  insertions a (connected u r ∷ log) = insertions a log
  insertions a (shook_hands c r ∷ log) = insertions a log
  insertions a (spawned x ∷ log) = insertions a log
  insertions a (sent s q r ∷ log) = insertions a log

  -- Every request that was sent went through the session that `pool` holds for its authority.
  abbrev pub Served : d.Carrier → List (Event k) → Type 0
  Served pool [] = Unit {0}
  Served pool (sent s q r ∷ log) =
      ((p.authority (p.uri q) >>= d.entry pool) ≡ some s) × Served pool log
  Served pool (connected u r ∷ log) = Served pool log
  Served pool (shook_hands c r ∷ log) = Served pool log
  Served pool (spawned x ∷ log) = Served pool log
  Served pool (inserted a s ∷ log) = Served pool log

  pub record Inv (st : Pooled k d) : Type 0 where
    pub once : (a : k.Authority) → insertions a st.log ≡ present (d.entry st.pool a)
    pub served : Served st.pool st.log

  -- A pool that holds what another held.
  abbrev pub Keeps : d.Carrier → d.Carrier → Type 0
  Keeps old pool =
      (a : k.Authority) (s : k.Session) → d.entry old a ≡ some s → d.entry pool a ≡ some s

  Served-Keeps :
      (old pool : d.Carrier) (log : List (Event k))
      → Keeps old pool
      → Served old log
      → Served pool log
  Served-Keeps old pool [] h v = tt
  Served-Keeps old pool (sent s q r ∷ log) h v =
      (bind_some (p.authority (p.uri q)) (λ a e. h a s e) v.0, Served-Keeps old pool log h v.1)
  Served-Keeps old pool (connected u r ∷ log) h v = Served-Keeps old pool log h v
  Served-Keeps old pool (shook_hands c r ∷ log) h v = Served-Keeps old pool log h v
  Served-Keeps old pool (spawned x ∷ log) h v = Served-Keeps old pool log h v
  Served-Keeps old pool (inserted a s ∷ log) h v = Served-Keeps old pool log h v

  pub insert-Keeps :
      (pool : d.Carrier) (a : k.Authority) (s : k.Session)
      → d.entry pool a ≡ none
      → Keeps pool (d.insert pool a s)
  insert-Keeps pool a s vacant a' s' e = elim (d.same_key a' a) [
    | yes h ↦ absurd (none_or_some (sym vacant ∙ ap (d.entry pool) (sym h) ∙ e))
    | no h ↦ d.entry-insert_ne pool a' a s h ∙ e
  ]

module _ {k : Kinds} {N : Type 0} {b : Buf k.Data} {n : Buf N} (boxes : Boxes b n)
    (into : k.BodyError → k.Error) (d : DashMap k.Authority k.Session) (p : Plugins k) where
  send_through-Inv :
      (a : k.Authority) (s : k.Session) (req : k.Req) (st : Pooled k d)
      → p.authority (p.uri req) ≡ some a
      → d.entry st.pool a ≡ some s
      → Inv d p st
      → Inv d p (send_through boxes into d p s req st).1
  unfolding send_through insertions
  send_through-Inv a s req st h e v = record { once = v.once; served = (rw h e, v.served) }

  pub inserted-Inv :
      (a : k.Authority) (s : k.Session) (x : k.Driver) (st : Pooled k d)
      → d.entry st.pool a ≡ none
      → Inv d p st
      → Inv d p (record { pool = d.insert st.pool a s; log = inserted a s ∷ spawned x ∷ st.log })
  unfolding insertions
  inserted-Inv a s x st vacant v = record {
    once = λ a'. count_insert d st.pool a a' s (insertions d p a' st.log) vacant (v.once a');
    served = Served-Keeps d p st.pool _ st.log (insert-Keeps d p st.pool a s vacant) v.served;
  }

  -- An event that neither fills the pool nor sends.
  after_handshake-Inv :
      (a : k.Authority) (req : k.Req) (st : Pooled k d) (r : Result k.Error (k.Session × k.Driver))
      → p.authority (p.uri req) ≡ some a
      → d.entry st.pool a ≡ none
      → Inv d p st
      → Inv d p (after_handshake boxes into d p a req st r).1
  unfolding after_handshake
  after_handshake-Inv a req st (ok (s, x)) h vacant v =
      send_through-Inv a s req _ h (d.entry-insert_self st.pool a s)
        (inserted-Inv a s x st vacant v)
  after_handshake-Inv a req st (err e) h vacant v = v

  after_connect-Inv :
      (a : k.Authority) (req : k.Req) (st : Pooled k d) (r : Result k.Error k.Conn)
      → p.authority (p.uri req) ≡ some a
      → d.entry st.pool a ≡ none
      → Inv d p st
      → Inv d p (after_connect boxes into d p a req st r).1
  unfolding after_connect insertions
  after_connect-Inv a req st (ok conn) h vacant v =
      after_handshake-Inv a req _ _ h vacant (record { once = v.once; served = v.served })
  after_connect-Inv a req st (err e) h vacant v = v

  on_entry-Inv :
      (a : k.Authority) (req : k.Req) (st : Pooled k d) (o : Option k.Session)
      → p.authority (p.uri req) ≡ some a
      → d.entry st.pool a ≡ o
      → Inv d p st
      → Inv d p (on_entry boxes into d p a req st o).1
  unfolding on_entry insertions
  on_entry-Inv a req st (some s) h held v = send_through-Inv a s req st h held v
  on_entry-Inv a req st none h vacant v =
      after_connect-Inv a req _ _ h vacant (record { once = v.once; served = v.served })

  on_authority-Inv :
      (req : k.Req) (st : Pooled k d) (o : Option k.Authority)
      → p.authority (p.uri req) ≡ o
      → Inv d p st
      → Inv d p (on_authority boxes into d p req st o).1
  unfolding on_authority
  on_authority-Inv req st none h v = v
  on_authority-Inv req st (some a) h v = on_entry-Inv a req st (d.entry st.pool a) h refl v

  pub handle-Inv :
      (req : k.Req) (st : Pooled k d) → Inv d p st → Inv d p (handle boxes into d p req st).1
  unfolding handle
  handle-Inv req st v = on_authority-Inv req st (p.authority (p.uri req)) refl v

  run-Inv :
      (reqs : List k.Req) (st : Pooled k d) → Inv d p st → Inv d p (run boxes into d p reqs st)
  unfolding run
  run-Inv [] st v = v
  run-Inv (req ∷ reqs) st v = run-Inv reqs _ (handle-Inv req st v)

  new-Inv : Inv d p (new boxes into d p)
  unfolding new insertions
  new-Inv = record { once = λ a'. rw (d.entry-empty a'); served = tt }

  pub run-Served :
      (reqs : List k.Req)
      → Served d p
          (run boxes into d p reqs (new boxes into d p)).pool
          (run boxes into d p reqs (new boxes into d p)).log
  run-Served reqs = (run-Inv reqs (new boxes into d p) new-Inv).served

  -- After any requests to a new service, each authority has had at most one session, no matter which
  -- requests failed, and every request that was sent went through the one that the pool holds for its
  -- authority.
  pub run-new :
      (reqs : List k.Req) (a : k.Authority)
      → (insertions d p a (run boxes into d p reqs (new boxes into d p)).log ≤ 1)
        × Served d p
            (run boxes into d p reqs (new boxes into d p)).pool
            (run boxes into d p reqs (new boxes into d p)).log
  run-new reqs a =
      let v = run-Inv reqs (new boxes into d p) new-Inv in
      (
        omega (
          arith,
          v.once a,
          present_le_one (d.entry (run boxes into d p reqs (new boxes into d p)).pool a),
        ),
        v.served,
      )
