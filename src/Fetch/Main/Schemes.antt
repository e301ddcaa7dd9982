-- ===== src/Fetch/Main/Schemes.antt =====
-- What `main` does with each scheme.
use navar.Base.{
  ◌≡◌, refl, sym, List, ap, Bool-cases, inl, inr, [], ◌∷◌, Option, none, some, ok, err, Poll, ready,
  pending,
}
use navar.Fetch.Main.{Config, returned, Execs, create_iroh_endpoint, with_endpoint, on_stack, main}
use navar.Fetch.{
  Line, Stack, tokio_hyper, iroh_hyper, iroh_h3, http_name, https_name, iroh_http_name,
  iroh_h3_name, or_http, stack_of,
}
use navar.H3.Handshake.{H3App, h3_app}
use navar.Hyper.{HyperApp}
use navar.Hyper
use navar.Iroh.{IrohTransport}
use navar.Iroh
use navar.Std.Text.{text_eq}
use navar.Std.Text.Equal.{text_eq-same}
use navar.Std.Utf8.{Text}
use navar.Tokio.Config.{Rustls, default_transport}
use navar.Transport.{Awaited}

module _ {Connector Endpoint Method Uri P E Roots Cfg : Type 0}
    (execs : Execs Connector Endpoint Method Uri P E) (rustls : Rustls Roots Cfg Connector)
    (endpoint : Endpoint) (scheme_str : Uri → Option Text) (args : Config Method Uri) where
  -- HTTP/3 runs over an endpoint that is bound and online.
  pub main-iroh_h3 :
      scheme_str args.uri ≡ some iroh_h3_name
      → main execs rustls (ready (ok endpoint)) (λ ep. ready tt) scheme_str args
        ≡ ready (
            returned
              (execs.over_h3 (Iroh.new endpoint (iroh_h3_name ∷ [])) h3_app args).0
              (execs.over_h3 (Iroh.new endpoint (iroh_h3_name ∷ [])) h3_app args).1)
  unfolding main on_stack create_iroh_endpoint with_endpoint stack_of text_eq
  main-iroh_h3 scheme = rw scheme

-- The protocols that a transport over Iroh is given are the one with the name of the scheme.
abbrev pub NamesScheme : Text → Option Stack → Type 0
NamesScheme scheme none = Unit {0}
NamesScheme scheme (some tokio_hyper) = Unit {0}
NamesScheme scheme (some (iroh_hyper alpns)) = alpns ≡ scheme ∷ []
NamesScheme scheme (some (iroh_h3 alpns)) = alpns ≡ scheme ∷ []

stack_of-NamesScheme : (scheme : Option Text) → NamesScheme (or_http scheme) (stack_of scheme)
unfolding stack_of
stack_of-NamesScheme scheme = elim (Bool-cases (text_eq (or_http scheme) http_name)) [
  | inl e ↦ rw e tt
  | inr e ↦ rw e (elim (Bool-cases (text_eq (or_http scheme) https_name)) [
    | inl e' ↦ rw e' tt
    | inr e' ↦ rw e' (elim (Bool-cases (text_eq (or_http scheme) iroh_http_name)) [
      | inl same ↦
          rw same (ap (λ t. t ∷ []) (sym (text_eq-same (or_http scheme) iroh_http_name same)))
      | inr other ↦ rw other (elim (Bool-cases (text_eq (or_http scheme) iroh_h3_name)) [
        | inl same ↦
            rw same (ap (λ t. t ∷ []) (sym (text_eq-same (or_http scheme) iroh_h3_name same)))
        | inr unknown ↦ rw unknown tt
      ])
    ])
  ])
]

module _ {Connector Endpoint Method Uri P E Roots Cfg : Type 0}
    (execs execs' : Execs Connector Endpoint Method Uri P E) (rustls : Rustls Roots Cfg Connector)
    (bind : Awaited E Endpoint) (online : Endpoint → Poll (Unit {0}))
    (scheme_str : Uri → Option Text) (args : Config Method Uri) where
  abbrev scheme : Option Text
  scheme = scheme_str args.uri

  -- Two clients act alike on transports whose only protocol has the name of the scheme.
  abbrev Alike : Type 0
  Alike =
      ((app : HyperApp)
        → execs.over_tokio (default_transport rustls) app args
          ≡ execs'.over_tokio (default_transport rustls) app args)
      × ((t : IrohTransport Endpoint) (app : HyperApp)
          → t.alpns ≡ or_http scheme ∷ []
          → execs.over_iroh t app args ≡ execs'.over_iroh t app args)
      × ((t : IrohTransport Endpoint) (app : H3App)
          → t.alpns ≡ or_http scheme ∷ []
          → execs.over_h3 t app args ≡ execs'.over_h3 t app args)

  with_endpoint_alike :
      (endpoint : Awaited E Endpoint) (exec exec' : Endpoint → List (Line P) × Option E)
      → ((ep : Endpoint) → exec ep ≡ exec' ep)
      → with_endpoint execs endpoint exec ≡ with_endpoint execs' endpoint exec'
  unfolding with_endpoint
  with_endpoint_alike (ready (ok ep)) exec exec' same = ap (λ r. ready (returned r.0 r.1)) (same ep)
  with_endpoint_alike (ready (err e)) exec exec' same = refl
  with_endpoint_alike pending exec exec' same = refl

  on_stack_alike :
      Alike
      → (endpoint : Awaited E Endpoint) (stack : Option Stack) → NamesScheme (or_http scheme) stack
      → on_stack execs (default_transport rustls) endpoint args scheme stack
        ≡ on_stack execs' (default_transport rustls) endpoint args scheme stack
  unfolding on_stack
  on_stack_alike alike endpoint none names = refl
  on_stack_alike alike endpoint (some tokio_hyper) names =
      ap (λ r. ready (returned r.0 r.1)) (alike.0 Hyper.new)
  on_stack_alike alike endpoint (some (iroh_hyper alpns)) names =
      with_endpoint_alike endpoint _ _ (λ ep. alike.1 (Iroh.new ep alpns) Hyper.new names)
  on_stack_alike alike endpoint (some (iroh_h3 alpns)) names =
      with_endpoint_alike endpoint _ _ (λ ep. alike.2 (Iroh.new ep alpns) h3_app names)

  -- Whatever the scheme, and whether or not an endpoint is bound and comes online: a peer over Iroh is only
  -- ever offered the protocol with the name of the URI's scheme, since two programs whose clients act alike
  -- on the default transport of Tokio, and on transports of Iroh with that one protocol, end alike.
  pub main_alike :
      ((app : HyperApp)
        → execs.over_tokio (default_transport rustls) app args
          ≡ execs'.over_tokio (default_transport rustls) app args)
      → ((t : IrohTransport Endpoint) (app : HyperApp)
          → t.alpns ≡ or_http (scheme_str args.uri) ∷ []
          → execs.over_iroh t app args ≡ execs'.over_iroh t app args)
      → ((t : IrohTransport Endpoint) (app : H3App)
          → t.alpns ≡ or_http (scheme_str args.uri) ∷ []
          → execs.over_h3 t app args ≡ execs'.over_h3 t app args)
      → main execs rustls bind online scheme_str args
        ≡ main execs' rustls bind online scheme_str args
  unfolding main
  main_alike over_tokio over_iroh over_h3 =
      on_stack_alike (over_tokio, over_iroh, over_h3) (create_iroh_endpoint bind online)
        (stack_of scheme) (stack_of-NamesScheme scheme)
