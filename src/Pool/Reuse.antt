-- ===== src/Pool/Reuse.antt =====
-- A session, once pooled, is used for every later request of its authority; a failure to open one leaves
-- the pool as it was.
use navar.Base.{◌≡◌, refl, List, [], ◌∷◌, Option, none, some, Result, ok, err}
use navar.Buf.{Buf}
use navar.Normalize.{Boxes}
use navar.Pool.Once.{Keeps, insert-Keeps}
use navar.Pool.{
  DashMap, Kinds, connected, shook_hands, Plugins, Pooled, send_through, after_handshake,
  after_connect, on_entry, on_authority, handle, run,
}

module _ {k : Kinds} {N : Type 0} {b : Buf k.Data} {n : Buf N} (boxes : Boxes b n)
    (into : k.BodyError → k.Error) (d : DashMap k.Authority k.Session) (p : Plugins k) where
  after_handshake-Keeps :
      (a : k.Authority) (req : k.Req) (st : Pooled k d) (r : Result k.Error (k.Session × k.Driver))
      → d.entry st.pool a ≡ none
      → Keeps d p st.pool (after_handshake boxes into d p a req st r).1.pool
  unfolding after_handshake
  after_handshake-Keeps a req st (ok (s, x)) vacant = insert-Keeps d p st.pool a s vacant
  after_handshake-Keeps a req st (err e) vacant = λ a' s' h. h

  after_connect-Keeps :
      (a : k.Authority) (req : k.Req) (st : Pooled k d) (r : Result k.Error k.Conn)
      → d.entry st.pool a ≡ none
      → Keeps d p st.pool (after_connect boxes into d p a req st r).1.pool
  unfolding after_connect
  after_connect-Keeps a req st (ok conn) vacant =
      after_handshake-Keeps a req
        (record st { log = shook_hands conn (p.handshake st.log conn) ∷ st.log })
        (p.handshake st.log conn) vacant
  after_connect-Keeps a req st (err e) vacant = λ a' s' h. h

  on_entry-Keeps :
      (a : k.Authority) (req : k.Req) (st : Pooled k d) (o : Option k.Session)
      → d.entry st.pool a ≡ o
      → Keeps d p st.pool (on_entry boxes into d p a req st o).1.pool
  unfolding on_entry
  on_entry-Keeps a req st (some s) held = λ a' s' h. h
  on_entry-Keeps a req st none vacant =
      after_connect-Keeps a req
        (record st { log = connected (p.uri req) (p.connect st.log (p.uri req)) ∷ st.log })
        (p.connect st.log (p.uri req)) vacant

  on_authority-Keeps :
      (req : k.Req) (st : Pooled k d) (o : Option k.Authority)
      → Keeps d p st.pool (on_authority boxes into d p req st o).1.pool
  unfolding on_authority
  on_authority-Keeps req st none = λ a' s' h. h
  on_authority-Keeps req st (some a) = on_entry-Keeps a req st (d.entry st.pool a) refl

  run-Keeps :
      (reqs : List k.Req) (st : Pooled k d) → Keeps d p st.pool (run boxes into d p reqs st).pool
  unfolding run handle
  run-Keeps [] st a s h = h
  run-Keeps (req ∷ reqs) st a s h =
      run-Keeps reqs (handle boxes into d p req st).1 a s
        (on_authority-Keeps req st (p.authority (p.uri req)) a s h)

  -- Once an authority has a session, every later request of it goes through that same session, with no
  -- connection opened: also after a request through it has failed, since nothing takes a session out.
  pub handle-run :
      (reqs : List k.Req) (st : Pooled k d) (a : k.Authority) (s : k.Session) (req : k.Req)
      → d.entry st.pool a ≡ some s
      → p.authority (p.uri req) ≡ some a
      → handle boxes into d p req (run boxes into d p reqs st)
        ≡ send_through boxes into d p s req (run boxes into d p reqs st)
  unfolding handle on_authority on_entry
  handle-run reqs st a s req held h = rw h (rw (run-Keeps reqs st a s held))

  -- Where a request's authority has no session and connecting fails, the error is returned, there is no
  -- handshake, nothing is sent or spawned, and the pool is as it was.
  pub handle_not_connected :
      (st : Pooled k d) (a : k.Authority) (req : k.Req) (e : k.Error)
      → d.entry st.pool a ≡ none
      → p.authority (p.uri req) ≡ some a
      → p.connect st.log (p.uri req) ≡ err e
      → handle boxes into d p req st
        ≡ (err e, record st { log = connected (p.uri req) (err e) ∷ st.log })
  unfolding handle
  handle_not_connected st a req e vacant h f = rw (h, vacant, f)

  -- Where a request's authority has no session, connecting succeeds and the handshake fails, the error
  -- is returned, nothing is sent or spawned, and the pool is as it was.
  pub handle_no_handshake :
      (st : Pooled k d) (a : k.Authority) (req : k.Req) (conn : k.Conn) (e : k.Error)
      → d.entry st.pool a ≡ none
      → p.authority (p.uri req) ≡ some a
      → p.connect st.log (p.uri req) ≡ ok conn
      → p.handshake (connected (p.uri req) (ok conn) ∷ st.log) conn ≡ err e
      → handle boxes into d p req st ≡ (
        err e,
        record st { log = shook_hands conn (err e) ∷ connected (p.uri req) (ok conn) ∷ st.log },
      )
  unfolding handle
  handle_no_handshake st a req conn e vacant h f g = rw (h, vacant, f, g)
