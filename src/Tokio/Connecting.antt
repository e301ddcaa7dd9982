-- ===== src/Tokio/Connecting.antt =====
-- Where a connection goes to, and when its streams are encrypted.
use navar.Base.{
  if◌then◌else◌, List, ◌∷◌, ◌++◌, [], ◌≡◌, refl, sym, ap, ◌∙◌, Bool, true, false, Option, none,
  some, Result, ok, err, and_then, Bool-cases, inl, inr,
}
use navar.Std.Utf8.{Text}
use navar.Tokio.{
  TransportError, get_or, first, port, UriParts, Net, TokioConnection, TokioTransport, TokioIo,
  plain_io, tls_io, is_https, context, lift, tls_config, resolve, connect, over, open_bidirectional,
  tls_not_configured, invalid_dns_name,
}

abbrev pub is_tls : {Tcp TlsIo : Type 0} → TokioIo Tcp TlsIo → Bool
is_tls (plain_io s) = false
is_tls (tls_io s) = true

abbrev pub is_some : {A : Type 0} → Option A → Bool
is_some none = false
is_some (some a) = true

-- A chain that ends well had a first step that did.
and_then_ok :
    {E A B : Type 0} (r : Result E A) (f : A → Result E B) (b : B)
    → and_then r f ≡ ok b
    → (a : A) × (r ≡ ok a) × (f a ≡ ok b)
and_then_ok (ok a) f b h = (a, refl, h)
and_then_ok (err e) f b h = cc

lift_ok : {E A : Type 0} (r : Result E A) (a : A) → lift r ≡ ok a → r ≡ ok a
lift_ok (ok x) a h = let same : x ≡ a = cc in ap ok same
lift_ok (err e) a h = cc

context-some :
    {E A : Type 0} (e : TransportError E) (o : Option A) (a : A) → context e o ≡ ok a → o ≡ some a
context-some e none a h = cc
context-some e (some x) a h = let same : x ≡ a = cc in ap some same

first_of :
    {E E' A : Type 0} {r : Result E (List A)} (e : TransportError E') (xs : List A) (a : A)
    → r ≡ ok xs
    → context e (first xs) ≡ ok a
    → (rest : List A) × (r ≡ ok (a ∷ rest))
first_of e [] a looked h = cc
first_of e (x ∷ xs) a looked h = let same : x ≡ a = cc in (xs, looked ∙ ap (λ y. ok (y ∷ xs)) same)

module _ {Addr Connector Name Tcp TlsIo E : Type 0}
    (net : Net Addr Connector Name Tcp TlsIo E) where
  tls_config-is_https :
      (t : TokioTransport Connector) (uri : UriParts) (host : Text) (c : Option (Connector × Name))
      → tls_config net t uri host ≡ ok c
      → is_some c ≡ is_https uri
  unfolding tls_config
  tls_config-is_https t uri host c h = elim (Bool-cases (is_https uri)) [
    | inl e ↦
        let (tls, found, h₁) = and_then_ok (context tls_not_configured t.tls) _ c (rw e at h) in
        let (name, named, h₂) =
          and_then_ok (context invalid_dns_name (net.server_name host)) _ c h₁ in
        let same : some (tls, name) ≡ c = cc h₂ in ap is_some (sym same) ∙ sym e
    | inr e ↦
        let ended = rw e at h in let same : none ≡ c = cc ended in ap is_some (sym same) ∙ sym e
  ]

  over-is_tls :
      (c : Option (Connector × Name)) (tcp : Tcp) (io : TokioIo Tcp TlsIo)
      → over net c tcp ≡ ok io
      → is_tls io ≡ is_some c
  unfolding over
  over-is_tls (some (connector, name)) tcp io h =
      let (s, made, h₁) = and_then_ok (lift (net.tls_connect connector name tcp)) _ io h in
      let same : tls_io s ≡ io = cc h₁ in ap is_tls (sym same)
  over-is_tls none tcp io h = let same : plain_io tcp ≡ io = cc in ap is_tls (sym same)

  pub connect-is_https :
      (t : TokioTransport Connector) (uri : UriParts) (conn : TokioConnection Addr Connector Name)
      → connect net t uri ≡ ok conn
      → is_some conn.tls_config ≡ is_https uri
  unfolding connect
  connect-is_https t uri conn h =
      let (host, h₀, h₁) = and_then_ok (context _ uri.host) _ conn h in
      let (addr, a₀, h₂) = and_then_ok (resolve net uri host) _ conn h₁ in
      let (tls, t₀, h₃) = and_then_ok (tls_config net t uri host) _ conn h₂ in
      let same : record { addr = addr; tls_config = tls } ≡ conn = cc h₃ in
      ap (λ c. is_some c.tls_config) (sym same) ∙ tls_config-is_https t uri host tls t₀

  pub open_bidirectional-is_some :
      (conn : TokioConnection Addr Connector Name) (io : TokioIo Tcp TlsIo)
      → open_bidirectional net conn ≡ ok io
      → is_tls io ≡ is_some conn.tls_config
  unfolding open_bidirectional
  open_bidirectional-is_some conn io opened =
      let (tcp, o₀, o₁) = and_then_ok (lift (net.tcp_connect conn.addr)) _ io opened in
      over-is_tls conn.tls_config tcp io o₁

  -- A stream that is opened on a connection is encrypted exactly when the URI that was connected to is of
  -- the scheme `https`: there is no plain stream for such a URI.
  pub open_bidirectional-is_tls :
      (t : TokioTransport Connector) (uri : UriParts) (conn : TokioConnection Addr Connector Name)
      (io : TokioIo Tcp TlsIo)
      → connect net t uri ≡ ok conn
      → open_bidirectional net conn ≡ ok io
      → is_tls io ≡ is_https uri
  open_bidirectional-is_tls t uri conn io h opened =
      open_bidirectional-is_some conn io opened ∙ connect-is_https t uri conn h

  resolve-first :
      (uri : UriParts) (host : Text) (addr : Addr)
      → resolve net uri host ≡ ok addr
      → (rest : List Addr) × (net.lookup_host (host ++ (b':' ∷ net.display (port net uri)))
          ≡ ok (addr ∷ rest))
  unfolding resolve
  resolve-first uri host addr h =
      let (addrs, found, h₁) =
        and_then_ok (lift (net.lookup_host (host ++ (b':' ∷ net.display (port net uri))))) _ addr
          h in
      first_of _ addrs addr (lift_ok _ addrs found) h₁

  -- A connection goes to the first address that the look-up of the URI's host and port gives; where the
  -- URI names no port, that is 443 for `https` and 80 for any other scheme.
  pub connect-addr :
      (t : TokioTransport Connector) (uri : UriParts) (conn : TokioConnection Addr Connector Name)
      → connect net t uri ≡ ok conn
      → (host : Text) × (rest : List Addr) × (uri.host ≡ some host)
        × (net.lookup_host (
              host ++ (b':' ∷ net.display (get_or uri.port_u16 (if is_https uri then 443 else 80))))
            ≡ ok (conn.addr ∷ rest))
  unfolding connect
  connect-addr t uri conn h =
      let (host, h₀, h₁) = and_then_ok (context _ uri.host) _ conn h in
      let (addr, a₀, h₂) = and_then_ok (resolve net uri host) _ conn h₁ in
      let (tls, t₀, h₃) = and_then_ok (tls_config net t uri host) _ conn h₂ in
      let same : addr ≡ conn.addr =
        ap (λ c. c.addr) (let s : record { addr = addr; tls_config = tls } ≡ conn = cc h₃ in s) in
      let (rest, found) = resolve-first uri host conn.addr (a₀ ∙ ap ok same) in
      (host, rest, context-some _ uri.host host h₀, found)
