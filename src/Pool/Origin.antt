-- ===== src/Pool/Origin.antt =====
-- Where the sessions of the pool come from.
use navar.Base.{
  ◌≡◌, refl, sym, ap, ◌∙◌, subst, List, [], ◌∷◌, Option, none, some, Result, ok, err, ◌>>=◌,
}
use mathlib.Core.List.{Memᴰ}
use mathlib.Core.List.Memᴰ
use navar.Buf.{Buf}
use navar.Normalize.{Boxes}
use navar.Pool.Once.{Served, run-Served}
use navar.Pool.{
  DashMap, Kinds, Event, connected, shook_hands, spawned, inserted, sent, Plugins, Pooled, new,
  send_through, after_handshake, after_connect, on_entry, on_authority, handle, run,
}

-- What a search for a value, and then in a table, went over.
pub found_at :
    {A B : Type 0} (o : Option A) {f : A → Option B} {b : B}
    → (o >>= f) ≡ some b
    → (a : A) × (o ≡ some a) × (f a ≡ some b)
found_at none e = cc
found_at (some a) e = (a, refl, e)

module _ {k : Kinds} (d : DashMap k.Authority k.Session) (p : Plugins k) where
  -- One of the requests had the authority, and its connection was the one that the session shook hands on.
  pub record Origin (asked : k.Req → Type 0) (a : k.Authority) (s : k.Session) : Type 0 where
    pub req : k.Req
    pub among : asked req
    pub authority : p.authority (p.uri req) ≡ some a
    pub conn : k.Conn
    pub before : List (Event k)
    pub connects : p.connect before (p.uri req) ≡ ok conn
    pub after : List (Event k)
    pub driver : k.Driver
    pub shakes : p.handshake after conn ≡ ok (s, driver)

  abbrev pub Originated : (k.Req → Type 0) → d.Carrier → Type 0
  Originated asked pool =
      (a : k.Authority) (s : k.Session) → d.entry pool a ≡ some s → Origin asked a s

  pub insert-Originated :
      (asked : k.Req → Type 0) (pool : d.Carrier) (a : k.Authority) (s : k.Session)
      → Origin asked a s
      → Originated asked pool
      → Originated asked (d.insert pool a s)
  insert-Originated asked pool a s o v a' s' e = elim (d.same_key a' a) [
    | yes h ↦
        let held : some s ≡ some s' =
          sym (d.entry-insert_self pool a s) ∙ ap (d.entry (d.insert pool a s)) (sym h) ∙ e in
        let same : s ≡ s' = cc in
        subst (λ x. Origin asked x s') (sym h) (subst (Origin asked a) same o)
    | no h ↦ v a' s' (sym (d.entry-insert_ne pool a' a s h) ∙ e)
  ]

  -- A request that is in the log went through the session of the pool.
  pub Served-sent :
      (pool : d.Carrier) (log : List (Event k)) {s : k.Session} {q : k.Req} {r : _}
      → Served d p pool log
      → Memᴰ (sent s q r) log
      → (p.authority (p.uri q) >>= d.entry pool) ≡ some s
  Served-sent pool [] v m = absurd (Memᴰ.not-nil m)
  Served-sent pool (sent s q r ∷ log) {s = s'} {q = q'} v (Memᴰ.head e) =
      let same_session : s ≡ s' = cc in
      let same_request : q ≡ q' = cc in
      ap (λ x. p.authority (p.uri x) >>= d.entry pool) (sym same_request)
      ∙ v.0
      ∙ ap some same_session
  Served-sent pool (sent s q r ∷ log) v (Memᴰ.tail m) = Served-sent pool log v.1 m
  Served-sent pool (connected u r ∷ log) v (Memᴰ.head e) = cc
  Served-sent pool (connected u r ∷ log) v (Memᴰ.tail m) = Served-sent pool log v m
  Served-sent pool (shook_hands c r ∷ log) v (Memᴰ.head e) = cc
  Served-sent pool (shook_hands c r ∷ log) v (Memᴰ.tail m) = Served-sent pool log v m
  Served-sent pool (spawned x ∷ log) v (Memᴰ.head e) = cc
  Served-sent pool (spawned x ∷ log) v (Memᴰ.tail m) = Served-sent pool log v m
  Served-sent pool (inserted a s ∷ log) v (Memᴰ.head e) = cc
  Served-sent pool (inserted a s ∷ log) v (Memᴰ.tail m) = Served-sent pool log v m

module _ {k : Kinds} {N : Type 0} {b : Buf k.Data} {n : Buf N} (boxes : Boxes b n)
    (into : k.BodyError → k.Error) (d : DashMap k.Authority k.Session) (p : Plugins k)
    (reqs : List k.Req) where
  after_handshake-Originated :
      (a : k.Authority) (req : k.Req) (st : Pooled k d) (r : Result k.Error (k.Session × k.Driver))
      (conn : k.Conn) (before after : List (Event k))
      → Memᴰ req reqs
      → p.authority (p.uri req) ≡ some a
      → p.connect before (p.uri req) ≡ ok conn
      → p.handshake after conn ≡ r
      → Originated d p (λ q. Memᴰ q reqs) st.pool
      → Originated d p (λ q. Memᴰ q reqs) (after_handshake boxes into d p a req st r).1.pool
  unfolding after_handshake send_through
  after_handshake-Originated a req st (ok (s, x)) conn before after m h c hs v =
      insert-Originated d p (λ q. Memᴰ q reqs) st.pool a s
        (record {
          req = req;
          among = m;
          authority = h;
          conn = conn;
          before = before;
          connects = c;
          after = after;
          driver = x;
          shakes = hs;
        })
        v
  after_handshake-Originated a req st (err e) conn before after m h c hs v = v

  after_connect-Originated :
      (a : k.Authority) (req : k.Req) (st : Pooled k d) (r : Result k.Error k.Conn)
      (before : List (Event k))
      → Memᴰ req reqs
      → p.authority (p.uri req) ≡ some a
      → p.connect before (p.uri req) ≡ r
      → Originated d p (λ q. Memᴰ q reqs) st.pool
      → Originated d p (λ q. Memᴰ q reqs) (after_connect boxes into d p a req st r).1.pool
  unfolding after_connect
  after_connect-Originated a req st (ok conn) before m h c v =
      after_handshake-Originated a req _ _ conn before st.log m h c refl v
  after_connect-Originated a req st (err e) before m h c v = v

  on_entry-Originated :
      (a : k.Authority) (req : k.Req) (st : Pooled k d) (o : Option k.Session)
      → Memᴰ req reqs
      → p.authority (p.uri req) ≡ some a
      → Originated d p (λ q. Memᴰ q reqs) st.pool
      → Originated d p (λ q. Memᴰ q reqs) (on_entry boxes into d p a req st o).1.pool
  unfolding on_entry send_through
  on_entry-Originated a req st (some s) m h v = v
  on_entry-Originated a req st none m h v = after_connect-Originated a req _ _ st.log m h refl v

  on_authority-Originated :
      (req : k.Req) (st : Pooled k d) (o : Option k.Authority)
      → Memᴰ req reqs
      → p.authority (p.uri req) ≡ o
      → Originated d p (λ q. Memᴰ q reqs) st.pool
      → Originated d p (λ q. Memᴰ q reqs) (on_authority boxes into d p req st o).1.pool
  unfolding on_authority
  on_authority-Originated req st none m h v = v
  on_authority-Originated req st (some a) m h v =
      on_entry-Originated a req st (d.entry st.pool a) m h v

  run-Originated :
      (rest : List k.Req) (st : Pooled k d)
      → ((q : k.Req) → Memᴰ q rest → Memᴰ q reqs)
      → Originated d p (λ q. Memᴰ q reqs) st.pool
      → Originated d p (λ q. Memᴰ q reqs) (run boxes into d p rest st).pool
  unfolding run handle
  run-Originated [] st within v = v
  run-Originated (req ∷ rest) st within v =
      run-Originated rest _ (λ q m. within q (Memᴰ.tail m))
        (on_authority-Originated req st (p.authority (p.uri req)) (within req (Memᴰ.head refl)) refl
          v)

  new-Originated : Originated d p (λ q. Memᴰ q reqs) (new boxes into d p).pool
  unfolding new
  new-Originated a s e = let no : none ≡ some s = sym (d.entry-empty a) ∙ e in cc no

  -- After any requests to a new service, whatever request was sent went through a session of its own
  -- authority, which shook hands on a connection to the URI of one of the requests.
  pub sent-Origin :
      (s : k.Session) (q : k.Req) {r : _}
      → Memᴰ (sent s q r) (run boxes into d p reqs (new boxes into d p)).log
      → (a : k.Authority) × (p.authority (p.uri q) ≡ some a) × Origin d p (λ q. Memᴰ q reqs) a s
  sent-Origin s q m =
      let st : Pooled k d = run boxes into d p reqs (new boxes into d p) in
      let (a, h, held) =
        found_at (p.authority (p.uri q))
          (Served-sent d p st.pool st.log (run-Served boxes into d p reqs) m) in
      (a, h, run-Originated reqs (new boxes into d p) (λ q m. m) new-Originated a s held)
