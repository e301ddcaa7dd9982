-- ===== src/Fetch/Main.antt =====
-- `main` of the command: it chooses a client by the URI's scheme, and runs the request with it. Parsing the
-- arguments and installing the provider of rustls are left to their crates.
pub mod Schemes
use navar.Base.{List, [], ◌∷◌, Option, none, some, Result, ok, err, Poll, ready, pending}
use navar.Body.{Body}
use navar.Buf.{Buf}
use navar.Client.Pooled.{request_kinds, pooled_client}
use navar.Client.{Methods}
use navar.Http.{Head, HeaderMaps, HttpBuilder}
use navar.Normalize.{Boxes}
use navar.Pool.{DashMap, Plugins}
use navar.Pool
use navar.Request.{EmptyBody}
use navar.Fetch.{exec_request, Stack, tokio_hyper, iroh_hyper, iroh_h3, or_http, stack_of, Line}
use navar.H3.Handshake.{H3App, h3_app}
use navar.Hyper.{HyperApp}
use navar.Hyper
use navar.Iroh.{IrohTransport}
use navar.Iroh
use navar.Std.Utf8.{Text}
use navar.Tokio.Config.{Rustls, default_transport}
use navar.Tokio.{TokioTransport}
use navar.Transport.{Awaited}

-- The arguments of the command.
pub record Config (Method Uri : Type 0) : Type 0 where
  pub uri : Uri
  pub method : Method
  pub headers : List Text

-- How the process ends: with `Unsupported scheme: ..` printed and exit code 1, or from `main`, after what it
-- has printed, and with the error that it then returns, if any.
pub data Ended (P E : Type 0) : Type 0 where
  unsupported : Text → Ended P E
  returned : List (Line P) → Option E → Ended P E

-- `exec_request` with a new client over each of the stacks.
pub record Execs (Connector Endpoint Method Uri P E : Type 0) : Type 0 where
  pub over_tokio :
      TokioTransport Connector → HyperApp → Config Method Uri → List (Line P) × Option E
  pub over_iroh : IrohTransport Endpoint → HyperApp → Config Method Uri → List (Line P) × Option E
  pub over_h3 : IrohTransport Endpoint → H3App → Config Method Uri → List (Line P) × Option E

module _ {E Endpoint : Type 0} where
  -- `create_iroh_endpoint`: `bind` is `Endpoint::bind`, and `online` may wait for ever.
  wait_online : Poll (Unit {0}) → Endpoint → Awaited E Endpoint
  wait_online (ready u) endpoint = ready (ok endpoint)
  wait_online pending endpoint = pending

  unfoldable pub create_iroh_endpoint :
      Awaited E Endpoint → (Endpoint → Poll (Unit {0})) → Awaited E Endpoint
  unfolding wait_online
  create_iroh_endpoint (ready (ok endpoint)) online = wait_online (online endpoint) endpoint
  create_iroh_endpoint (ready (err e)) online = ready (err e)
  create_iroh_endpoint pending online = pending

module _ {Connector Endpoint Method Uri P E : Type 0}
    (execs : Execs Connector Endpoint Method Uri P E) where
  abbrev from_exec : List (Line P) × Option E → Poll (Ended P E)
  from_exec r = ready (returned r.0 r.1)

  -- `create_iroh_endpoint().await?`, and what follows it.
  with_endpoint : Awaited E Endpoint → (Endpoint → List (Line P) × Option E) → Poll (Ended P E)
  with_endpoint (ready (ok endpoint)) exec = from_exec (exec endpoint)
  with_endpoint (ready (err e)) exec = ready (returned [] (some e))
  with_endpoint pending exec = pending

  on_stack :
      TokioTransport Connector
      → Awaited E Endpoint
      → Config Method Uri
      → Option Text
      → Option Stack
      → Poll (Ended P E)
  unfolding with_endpoint
  on_stack tokio endpoint args scheme (some tokio_hyper) =
      from_exec (execs.over_tokio tokio Hyper.new args)
  on_stack tokio endpoint args scheme (some (iroh_hyper alpns)) =
      with_endpoint endpoint (λ ep. execs.over_iroh (Iroh.new ep alpns) Hyper.new args)
  on_stack tokio endpoint args scheme (some (iroh_h3 alpns)) =
      with_endpoint endpoint (λ ep. execs.over_h3 (Iroh.new ep alpns) h3_app args)
  on_stack tokio endpoint args scheme none = ready (unsupported (or_http scheme))

  -- `bind` and `online` make an endpoint, and `scheme_str` reads a URI.
  unfoldable pub main :
      {Roots Cfg : Type 0}
      → Rustls Roots Cfg Connector
      → Awaited E Endpoint
      → (Endpoint → Poll (Unit {0}))
      → (Uri → Option Text)
      → Config Method Uri
      → Poll (Ended P E)
  unfolding on_stack create_iroh_endpoint
  main rustls bind online scheme_str args =
      on_stack (default_transport rustls) (create_iroh_endpoint bind online) args
        (scheme_str args.uri) (stack_of (scheme_str args.uri))

module _ {Method Uri Ext F E : Type 0} {m : HeaderMaps} (http : HttpBuilder Method Uri Ext F m)
    (from_http : F → E) (methods : Methods Method) (name_of : Text → Result F m.Name)
    (value_of : Text → Result F m.Value) {D N E₀ : Type 0} {b : Buf D} {n : Buf N}
    (boxes : Boxes b n) (into : E₀ → E) (frames : EmptyBody → Body D E₀)
    {Authority Conn Session Driver P D' E' : Type 0} {b' : Buf D'} (boxes' : Boxes b' n)
    (into' : E' → E) (d : DashMap Authority Session) where
  -- `exec_request(Client::new(..), &args)`, with a new client over a pool that is empty.
  abbrev pub exec_new :
      Plugins (
        request_kinds
          (Head Method Uri m.Headers Ext)
          (Body N E)
          Uri
          Authority
          Conn
          Session
          Driver
          P
          D'
          E'
          E)
      → Config Method Uri
      → List (Line P) × Option E
  exec_new p args =
      (exec_request http from_http methods name_of value_of boxes into frames
        (pooled_client boxes' into' d p) args.method args.uri args.headers
        (Pool.new boxes' into' d p)).0
