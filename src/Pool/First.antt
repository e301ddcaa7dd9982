-- ===== src/Pool/First.antt =====
-- The request that opens a session.
use navar.Base.{◌≡◌, List, ◌∷◌, none, some, ok}
use navar.Body.{Body}
use navar.Buf.{Buf}
use navar.Normalize.{Boxes, normalize}
use navar.Pool.{
  DashMap, Kinds, Event, Response, connected, shook_hands, spawned, inserted, sent, Plugins, Pooled,
  normalized, send_through, after_handshake, after_connect, on_entry, on_authority, handle,
}

module _ {k : Kinds} (p : Plugins k) where
  -- What has been done before the request is sent, newest first.
  abbrev pub opening :
      k.Req → k.Authority → k.Conn → k.Session → k.Driver → List (Event k) → List (Event k)
  opening req a conn s driver log =
      inserted a s
      ∷ spawned driver
      ∷ shook_hands conn (ok (s, driver))
      ∷ connected (p.uri req) (ok conn)
      ∷ log

module _ {k : Kinds} {N : Type 0} {b : Buf k.Data} {n : Buf N} (boxes : Boxes b n)
    (into : k.BodyError → k.Error) (d : DashMap k.Authority k.Session) (p : Plugins k) where
  -- The first request of an authority, where nothing fails.
  pub handle_first :
      (st : Pooled k d) (a : k.Authority) (req : k.Req) (conn : k.Conn) (s : k.Session)
      (driver : k.Driver) (res : Response k.Parts (Body k.Data k.BodyError))
      → d.entry st.pool a ≡ none
      → p.authority (p.uri req) ≡ some a
      → p.connect st.log (p.uri req) ≡ ok conn
      → p.handshake (connected (p.uri req) (ok conn) ∷ st.log) conn ≡ ok (s, driver)
      → p.send_request (opening p req a conn s driver st.log) s req ≡ ok res
      → handle boxes into d p req st ≡ (
        ok (record { parts = res.parts; body = normalize boxes into res.body }),
        record {
          pool = d.insert st.pool a s;
          log = sent s req (ok res) ∷ opening p req a conn s driver st.log;
        },
      )
  unfolding handle on_authority on_entry after_connect after_handshake send_through normalized
  handle_first st a req conn s driver res vacant auth reached shook answered =
      rw (auth, vacant, reached, shook, answered)

  -- An authority's first request opens a session, whether or not the session then answers.
  pub handle_opens :
      (st : Pooled k d) (a : k.Authority) (req : k.Req) (conn : k.Conn) (s : k.Session)
      (driver : k.Driver)
      → d.entry st.pool a ≡ none
      → p.authority (p.uri req) ≡ some a
      → p.connect st.log (p.uri req) ≡ ok conn
      → p.handshake (connected (p.uri req) (ok conn) ∷ st.log) conn ≡ ok (s, driver)
      → d.entry (handle boxes into d p req st).1.pool a ≡ some s
  unfolding handle on_authority on_entry after_connect after_handshake send_through
  handle_opens st a req conn s driver vacant auth reached shook =
      rw (auth, vacant, reached, shook, d.entry-insert_self st.pool a s)
