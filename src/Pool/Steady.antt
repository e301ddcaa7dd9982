-- ===== src/Pool/Steady.antt =====
-- One call of `handle` over a network that answers the same at all times: its outcome, and the pool that it
-- leaves, by the first thing that fails.
use navar.Base.{◌≡◌, List, [], ◌∷◌, none, some, Result, ok, err}
use navar.Body.{Body}
use navar.Buf.{Buf}
use navar.Normalize.{Boxes}
use navar.Pool.{
  DashMap, Kinds, Event, Response, connected, shook_hands, spawned, inserted, Plugins, Pooled,
  normalized, send_through, after_handshake, after_connect, on_entry, on_authority, handle,
}

-- What the plugins answer does not depend on what has happened before.
pub record Steady {k : Kinds} (p : Plugins k) : Type 0 where
  pub connects : (log : List (Event k)) (uri : k.Uri) → p.connect log uri ≡ p.connect [] uri
  pub shakes : (log : List (Event k)) (conn : k.Conn) → p.handshake log conn ≡ p.handshake [] conn
  pub answers :
      (log : List (Event k)) (s : k.Session) (req : k.Req)
      → p.send_request log s req ≡ p.send_request [] s req

module _ {k : Kinds} {N : Type 0} {b : Buf k.Data} {n : Buf N} (boxes : Boxes b n)
    (into : k.BodyError → k.Error) (d : DashMap k.Authority k.Session) (p : Plugins k) where
  -- What the call comes to.
  pub record Gives (req : k.Req) (st : Pooled k d)
      (o : Result k.Error (Response k.Parts (Body N k.Error))) (pool : d.Carrier) : Type 0 where
    pub outcome : (handle boxes into d p req st).0 ≡ o
    pub pool_left : (handle boxes into d p req st).1.pool ≡ pool

  -- What a session answers.
  unfoldable pub replied : k.Session → k.Req → Result k.Error (Response k.Parts (Body N k.Error))
  replied s req = normalized boxes into d p (p.send_request [] s req)

  pub Gives-no_authority :
      (req : k.Req) (st : Pooled k d)
      → p.authority (p.uri req) ≡ none
      → Gives req st (err p.missing_authority) st.pool
  unfolding handle on_authority
  Gives-no_authority req st h = record { outcome = rw h; pool_left = rw h }

  module _ (steady : Steady p) (req : k.Req) (st : Pooled k d) (a : k.Authority)
      (h : p.authority (p.uri req) ≡ some a) where
    pub Gives-held :
        (s : k.Session) → d.entry st.pool a ≡ some s → Gives req st (replied s req) st.pool
    unfolding handle on_authority on_entry send_through replied
    Gives-held s held = record {
      outcome = rw (h, held, steady.answers st.log s req);
      pool_left = rw (h, held);
    }

    module _ (vacant : d.entry st.pool a ≡ none) where
      pub Gives-no_connection :
          (e : k.Error) → p.connect [] (p.uri req) ≡ err e → Gives req st (err e) st.pool
      unfolding handle on_authority on_entry after_connect
      Gives-no_connection e fails = record {
        outcome = rw (h, vacant, steady.connects st.log (p.uri req), fails);
        pool_left = rw (h, vacant, steady.connects st.log (p.uri req), fails);
      }

      pub Gives-no_handshake :
          (conn : k.Conn) (e : k.Error)
          → p.connect [] (p.uri req) ≡ ok conn
          → p.handshake [] conn ≡ err e
          → Gives req st (err e) st.pool
      unfolding handle on_authority on_entry after_connect after_handshake
      Gives-no_handshake conn e reached fails = record {
        outcome = rw (
          h,
          vacant,
          steady.connects st.log (p.uri req),
          reached,
          steady.shakes (connected (p.uri req) (ok conn) ∷ st.log) conn,
          fails,
        );
        pool_left = rw (
          h,
          vacant,
          steady.connects st.log (p.uri req),
          reached,
          steady.shakes (connected (p.uri req) (ok conn) ∷ st.log) conn,
          fails,
        );
      }

      pub Gives-opened :
          (conn : k.Conn) (s : k.Session) (driver : k.Driver)
          → p.connect [] (p.uri req) ≡ ok conn
          → p.handshake [] conn ≡ ok (s, driver)
          → Gives req st (replied s req) (d.insert st.pool a s)
      unfolding handle on_authority on_entry after_connect after_handshake send_through replied
      Gives-opened conn s driver reached shook =
          let log : List (Event k) =
            inserted a s
            ∷ spawned driver
            ∷ shook_hands conn (ok (s, driver))
            ∷ connected (p.uri req) (ok conn)
            ∷ st.log in
          record {
            outcome = rw (
              h,
              vacant,
              steady.connects st.log (p.uri req),
              reached,
              steady.shakes (connected (p.uri req) (ok conn) ∷ st.log) conn,
              shook,
              steady.answers log s req,
            );
            pool_left = rw (
              h,
              vacant,
              steady.connects st.log (p.uri req),
              reached,
              steady.shakes (connected (p.uri req) (ok conn) ∷ st.log) conn,
              shook,
            );
          }
