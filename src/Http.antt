-- ===== src/Http.antt =====
-- What the program uses of the crate `http`, which is not part of this repository: the request builder,
-- header maps and URIs. The laws are the crate's documented behaviour. `head` says what a builder has
-- gathered, or the error that it carries; the builder keeps its first error.
use navar.Base.{Option, none, some, Result, ok, err, and_then, ◌≡◌, ◌≢◌}
use navar.Std.Utf8.{Text}

-- The parts of a request but its body.
pub record Head (Method Uri Headers Ext : Type 0) : Type 0 where
  pub method : Method
  pub uri : Uri
  pub headers : Headers
  pub extensions : Ext

pub record Request (H B : Type 0) : Type 0 where
  pub head : H
  pub body : B

pub record HeaderMaps : Type 1 where
  pub Headers : Type 0
  pub Name : Type 0
  pub Value : Type 0
  pub content_type : Name
  pub from_static : Text → Value
  pub get : Headers → Name → Option Value
  pub append : Headers → Name → Value → Headers
  pub get-append_new :
      (h : Headers) (k : Name) (v : Value) → get h k ≡ none → get (append h k v) k ≡ some v
  pub get-append_other :
      (h : Headers) (k j : Name) (v : Value) → j ≢ k → get (append h k v) j ≡ get h j

-- `F` is `http::Error`. A key or value that is given to `header` is the outcome of its conversion.
pub record HttpBuilder (Method Uri Ext F : Type 0) (m : HeaderMaps) : Type 1 where
  pub Builder : Type 0
  pub builder : Method → Result F Uri → Builder
  pub header : Builder → Result F m.Name → Result F m.Value → Builder
  pub extension : Builder → (Ext → Ext) → Builder
  pub headers_ref : Builder → Option m.Headers
  pub body : {B : Type 0} → Builder → B → Result F (Request (Head Method Uri m.Headers Ext) B)
  pub head : Builder → Result F (Head Method Uri m.Headers Ext)
  pub no_headers : m.Headers
  pub no_extensions : Ext
  pub head-builder :
      (method : Method) (uri : Result F Uri)
      → head (builder method uri)
        ≡ and_then uri (λ u.
          ok
            (record { method = method; uri = u; headers = no_headers; extensions = no_extensions }))
  pub headers_ref-ok :
      (b : Builder) (h : Head Method Uri m.Headers Ext)
      → head b ≡ ok h
      → headers_ref b ≡ some h.headers
  pub headers_ref-err : (b : Builder) (e : F) → head b ≡ err e → headers_ref b ≡ none
  pub head-header :
      (b : Builder) (k : m.Name) (v : m.Value)
      → head (header b (ok k) (ok v))
        ≡ and_then (head b) (λ h. ok (record h { headers = m.append h.headers k v }))
  pub body-head :
      {B : Type 0} (b : Builder) (x : B)
      → body b x ≡ and_then (head b) (λ h. ok (record { head = h; body = x }))
