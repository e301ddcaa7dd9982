-- ===== src/Pool/Failures.antt =====
-- What has been done when a request fails.
use navar.Base.{◌≡◌, refl, subst, ◌∷◌, Option, none, some, Result, ok, err}
use navar.Body.{Body}
use navar.Buf.{Buf}
use navar.Normalize.{Boxes}
use navar.Pool.Once.{Keeps, insert-Keeps}
use navar.Pool.{
  DashMap, Kinds, Response, connected, shook_hands, sent, Plugins, Pooled, normalized, send_through,
  after_handshake, after_connect, on_entry, on_authority, handle,
}

-- How a request failed, and the service that it left: with no authority nothing is done; where connecting
-- or the handshake fails the pool stays, and nothing is spawned or sent; where the session fails, it is the
-- one that the pool holds for the request's authority, and stays there.
pub data Failed {k : Kinds} (d : DashMap k.Authority k.Session) (p : Plugins k) (req : k.Req)
    (st : Pooled k d) : k.Error → Pooled k d → Type 0 where
  no_authority : p.authority (p.uri req) ≡ none → Failed d p req st p.missing_authority st
  not_connected :
      (a : k.Authority) (e : k.Error)
      → p.authority (p.uri req) ≡ some a
      → d.entry st.pool a ≡ none
      → p.connect st.log (p.uri req) ≡ err e
      → Failed d p req st e (record st { log = connected (p.uri req) (err e) ∷ st.log })
  no_handshake :
      (a : k.Authority) (conn : k.Conn) (e : k.Error)
      → p.authority (p.uri req) ≡ some a
      → d.entry st.pool a ≡ none
      → p.connect st.log (p.uri req) ≡ ok conn
      → p.handshake (connected (p.uri req) (ok conn) ∷ st.log) conn ≡ err e
      → Failed d p req st e
          (record st { log = shook_hands conn (err e) ∷ connected (p.uri req) (ok conn) ∷ st.log })
  not_answered :
      (a : k.Authority) (s : k.Session) (e : k.Error) (before : Pooled k d)
      → p.authority (p.uri req) ≡ some a
      → d.entry before.pool a ≡ some s
      → Keeps d p st.pool before.pool
      → p.send_request before.log s req ≡ err e
      → Failed d p req st e (record before { log = sent s req (err e) ∷ before.log })

module _ {k : Kinds} {N : Type 0} {b : Buf k.Data} {n : Buf N} (boxes : Boxes b n)
    (into : k.BodyError → k.Error) (d : DashMap k.Authority k.Session) (p : Plugins k) (req : k.Req)
    (st : Pooled k d) where
  Failed-answer :
      (a : k.Authority) (s : k.Session) (before : Pooled k d)
      (r : Result k.Error (Response k.Parts (Body k.Data k.BodyError))) (e : k.Error)
      → p.send_request before.log s req ≡ r
      → p.authority (p.uri req) ≡ some a
      → d.entry before.pool a ≡ some s
      → Keeps d p st.pool before.pool
      → normalized boxes into d p r ≡ err e
      → Failed d p req st e (record before { log = sent s req r ∷ before.log })
  unfolding normalized
  Failed-answer a s before (ok res) e answer h held keeps f = cc
  Failed-answer a s before (err e') e answer h held keeps f =
      let same : e' ≡ e = cc in
      subst (λ x. Failed d p req st x (record before { log = sent s req (err e') ∷ before.log }))
        same (not_answered a s e' before h held keeps answer)

  Failed-after_handshake :
      (a : k.Authority) (conn : k.Conn) (r : Result k.Error (k.Session × k.Driver)) (e : k.Error)
      → p.authority (p.uri req) ≡ some a
      → d.entry st.pool a ≡ none
      → p.connect st.log (p.uri req) ≡ ok conn
      → p.handshake (connected (p.uri req) (ok conn) ∷ st.log) conn ≡ r
      → let before : Pooled k d = record st {
        log = shook_hands conn r ∷ connected (p.uri req) (ok conn) ∷ st.log;
      } in
        (after_handshake boxes into d p a req before r).0 ≡ err e
        → Failed d p req st e (after_handshake boxes into d p a req before r).1
  unfolding after_handshake send_through
  Failed-after_handshake a conn (ok (s, driver)) e h vacant c shook f =
      Failed-answer a s _ _ e refl h (d.entry-insert_self st.pool a s)
        (insert-Keeps d p st.pool a s vacant) f
  Failed-after_handshake a conn (err e') e h vacant c shook f =
      let same : e' ≡ e = cc in
      subst
        (λ x. Failed d p req st x (record st {
          log = shook_hands conn (err e') ∷ connected (p.uri req) (ok conn) ∷ st.log;
        }))
        same (no_handshake a conn e' h vacant c shook)

  Failed-after_connect :
      (a : k.Authority) (r : Result k.Error k.Conn) (e : k.Error)
      → p.connect st.log (p.uri req) ≡ r
      → p.authority (p.uri req) ≡ some a
      → d.entry st.pool a ≡ none
      → let before : Pooled k d = record st { log = connected (p.uri req) r ∷ st.log } in
        (after_connect boxes into d p a req before r).0 ≡ err e
        → Failed d p req st e (after_connect boxes into d p a req before r).1
  unfolding after_connect
  Failed-after_connect a (ok conn) e c h vacant f =
      Failed-after_handshake a conn _ e h vacant c refl f
  Failed-after_connect a (err e') e c h vacant f =
      let same : e' ≡ e = cc in
      subst (λ x. Failed d p req st x (record st { log = connected (p.uri req) (err e') ∷ st.log }))
        same (not_connected a e' h vacant c)

  Failed-on_entry :
      (a : k.Authority) (o : Option k.Session) (e : k.Error)
      → d.entry st.pool a ≡ o
      → p.authority (p.uri req) ≡ some a
      → (on_entry boxes into d p a req st o).0 ≡ err e
      → Failed d p req st e (on_entry boxes into d p a req st o).1
  unfolding on_entry send_through
  Failed-on_entry a (some s) e held h f = Failed-answer a s st _ e refl h held (λ a' s' x. x) f
  Failed-on_entry a none e vacant h f = Failed-after_connect a _ e refl h vacant f

  Failed-on_authority :
      (o : Option k.Authority) (e : k.Error)
      → p.authority (p.uri req) ≡ o
      → (on_authority boxes into d p req st o).0 ≡ err e
      → Failed d p req st e (on_authority boxes into d p req st o).1
  unfolding on_authority
  Failed-on_authority (some a) e h f = Failed-on_entry a _ e refl h f
  Failed-on_authority none e h f =
      let same : p.missing_authority ≡ e = cc in
      subst (λ x. Failed d p req st x st) same (no_authority h)

  -- A request that fails has failed in one of four ways, each with what has been done by then: it has no
  -- authority; connecting to a new authority failed, or the handshake did, and then the pool is as it was,
  -- and nothing is spawned or sent; or a session failed, and then it is the one that the pool holds for the
  -- request's authority, it stays there, and so does all that the pool held.
  pub handle-Failed :
      (e : k.Error)
      → (handle boxes into d p req st).0 ≡ err e
      → Failed d p req st e (handle boxes into d p req st).1
  unfolding handle
  handle-Failed e f = Failed-on_authority (p.authority (p.uri req)) e refl f
