-- ===== src/Pool.antt =====
-- src/base_service.rs: `BaseService`, with its pool of sessions by authority. What runs outside this
-- repository's core (the transport, the application protocol, the runtime) answers by what has happened
-- so far: the world is the list of the effects, newest first. One request is handled at a time here, with
-- no lock; Tasks has requests that run at the same time, and the lock on the pool's entry.
pub mod Once
pub mod Reuse
pub mod First
pub mod Serving
pub mod Steady
pub mod Failures
pub mod Origin
pub mod Tasks
use navar.Base.{ℕ, List, [], ◌∷◌, Option, none, some, Result, ok, err, Bytes, ◌≡◌, ◌≢◌}
use navar.Body.{Body}
use navar.Buf.{Buf}
use navar.Http.{Request}
use navar.Normalize.{Boxes, normalize}

-- The map of the crate `dashmap`: `entry` looks a key up, and `insert` fills a vacant entry.
pub record DashMap (K V : Type 0) : Type 1 where
  pub Carrier : Type 0
  pub empty : Carrier
  pub entry : Carrier → K → Option V
  pub insert : Carrier → K → V → Carrier
  pub same_key : Discrete K
  pub entry-empty : (k : K) → entry empty k ≡ none
  pub entry-insert_self : (m : Carrier) (k : K) (v : V) → entry (insert m k v) k ≡ some v
  pub entry-insert_ne : (m : Carrier) (j k : K) (v : V) → j ≢ k → entry (insert m k v) j ≡ entry m j

pub record Response (P B : Type 0) : Type 0 where
  pub parts : P
  pub body : B

-- The types of a base service: addresses, connections, sessions, drivers, requests, answers.
pub record Kinds : Type 1 where
  pub Uri : Type 0
  pub Authority : Type 0
  pub Conn : Type 0
  pub Session : Type 0
  pub Driver : Type 0
  pub Req : Type 0
  pub Parts : Type 0
  pub Data : Type 0
  pub BodyError : Type 0
  pub Error : Type 0

module _ (k : Kinds) where
  open k use {Uri, Authority, Conn, Session, Driver, Req, Parts, Data, BodyError, Error}

  pub data Event : Type 0 where
    connected : Uri → Result Error Conn → Event
    shook_hands : Conn → Result Error (Session × Driver) → Event
    spawned : Driver → Event
    inserted : Authority → Session → Event
    sent : Session → Req → Result Error (Response Parts (Body Data BodyError)) → Event

  -- The plugins: `transport.connect`, `app.handshake`, `session.send_request`, and the parts of a request
  -- that the service reads.
  pub record Plugins : Type 0 where
    pub uri : Req → Uri
    pub authority : Uri → Option Authority
    pub connect : List Event → Uri → Result Error Conn
    pub handshake : List Event → Conn → Result Error (Session × Driver)
    pub send_request :
        List Event → Session → Req → Result Error (Response Parts (Body Data BodyError))
    pub missing_authority : Error

-- The service's own state, and what it has done.
pub record Pooled (k : Kinds) (d : DashMap k.Authority k.Session) : Type 0 where
  pub pool : d.Carrier
  pub log : List (Event k)

module _ {k : Kinds} {N : Type 0} {b : Buf k.Data} {n : Buf N} (boxes : Boxes b n)
    (into : k.BodyError → k.Error) (d : DashMap k.Authority k.Session) (p : Plugins k) where
  abbrev pub Outcome : Type 0
  Outcome = Result k.Error (Response k.Parts (Body N k.Error)) × Pooled k d

  -- `BaseService::new`
  unfoldable pub new : Pooled k d
  new = record { pool = d.empty; log = [] }

  -- Steps 6 and 7: the request goes through the session, and the response's body is normalised.
  pub normalized :
      Result k.Error (Response k.Parts (Body k.Data k.BodyError))
      → Result k.Error (Response k.Parts (Body N k.Error))
  unfolding normalize
  normalized (ok res) = ok (record { parts = res.parts; body = normalize boxes into res.body })
  normalized (err e) = err e

  pub send_through : k.Session → k.Req → Pooled k d → Outcome
  unfolding normalized
  send_through s req st =
      let r = p.send_request st.log s req in
      (normalized r, record st { log = sent s req r ∷ st.log })

  -- Steps 4 and 5: the driver is spawned, and a clone of the session is put into the vacant entry.
  after_handshake :
      k.Authority → k.Req → Pooled k d → Result k.Error (k.Session × k.Driver) → Outcome
  unfolding send_through
  after_handshake a req st (ok (s, driver)) =
      send_through s req
        (record { pool = d.insert st.pool a s; log = inserted a s ∷ spawned driver ∷ st.log })
  after_handshake a req st (err e) = (err e, st)

  -- Step 3.
  after_connect : k.Authority → k.Req → Pooled k d → Result k.Error k.Conn → Outcome
  unfolding after_handshake
  after_connect a req st (ok conn) =
      let r = p.handshake st.log conn in
      after_handshake a req (record st { log = shook_hands conn r ∷ st.log }) r
  after_connect a req st (err e) = (err e, st)

  -- Steps 1 and 2.
  on_entry : k.Authority → k.Req → Pooled k d → Option k.Session → Outcome
  unfolding after_connect send_through
  on_entry a req st (some s) = send_through s req st
  on_entry a req st none =
      let r = p.connect st.log (p.uri req) in
      after_connect a req (record st { log = connected (p.uri req) r ∷ st.log }) r

  on_authority : k.Req → Pooled k d → Option k.Authority → Outcome
  unfolding on_entry
  on_authority req st none = (err p.missing_authority, st)
  on_authority req st (some a) = on_entry a req st (d.entry st.pool a)

  unfoldable pub handle : k.Req → Pooled k d → Outcome
  unfolding on_authority
  handle req st = on_authority req st (p.authority (p.uri req))

  -- One request after another.
  unfoldable pub run : List k.Req → Pooled k d → Pooled k d
  unfolding handle
  run [] st = st
  run (req ∷ reqs) st = run reqs (handle req st).1
