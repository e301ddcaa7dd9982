-- ===== src/Pool/Serving.antt =====
-- The session that serves a request, pooled or opened for it, where nothing fails before it is sent.
use navar.Base.{◌≡◌, List, ◌∷◌, none, some, ok}
use navar.Body.{Body}
use navar.Buf.{Buf}
use navar.Normalize.{Boxes, normalize}
use navar.Pool.First.{opening, handle_first}
use navar.Pool.{
  DashMap, Kinds, Event, Response, connected, sent, Plugins, Pooled, normalized, send_through,
  on_entry, on_authority, handle,
}

-- The pool holds `s` for `a`, or it holds none, and a connection and a handshake give `s`. What has been
-- done when the request is sent is the log in the end.
pub data Serving {k : Kinds} (d : DashMap k.Authority k.Session) (p : Plugins k) (st : Pooled k d)
    (req : k.Req) (a : k.Authority) (s : k.Session) : List (Event k) → Type 0 where
  pooled : d.entry st.pool a ≡ some s → Serving d p st req a s st.log
  opened :
      (conn : k.Conn) (driver : k.Driver)
      → d.entry st.pool a ≡ none
      → p.connect st.log (p.uri req) ≡ ok conn
      → p.handshake (connected (p.uri req) (ok conn) ∷ st.log) conn ≡ ok (s, driver)
      → Serving d p st req a s (opening p req a conn s driver st.log)

module _ {k : Kinds} {N : Type 0} {b : Buf k.Data} {n : Buf N} (boxes : Boxes b n)
    (into : k.BodyError → k.Error) (d : DashMap k.Authority k.Session) (p : Plugins k) where
  pub handle-Serving :
      (st : Pooled k d) (req : k.Req) (a : k.Authority) (s : k.Session) {log : List (Event k)}
      (res : Response k.Parts (Body k.Data k.BodyError))
      → p.authority (p.uri req) ≡ some a
      → Serving d p st req a s log
      → p.send_request log s req ≡ ok res
      → (after : Pooled k d) × (handle boxes into d p req st
          ≡ (ok (record { parts = res.parts; body = normalize boxes into res.body }), after))
  unfolding handle on_authority on_entry send_through normalized
  handle-Serving st req a s res h (pooled held) answered =
      (record st { log = sent s req (ok res) ∷ st.log }, rw (h, held, answered))
  handle-Serving st req a s res h (opened conn driver vacant reached shook) answered =
      (_, handle_first boxes into d p st a req conn s driver res vacant h reached shook answered)
