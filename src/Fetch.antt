-- ===== src/Fetch.antt =====
-- examples/navar_fetch.rs: the command that fetches a URI and prints the response. Parsing its arguments
-- and installing the provider of rustls are left to their crates.
pub mod Prints
pub mod Main
pub mod First
pub mod OverH3
use navar.Base.{
  ℕ, Bool, true, false, List, [], ◌∷◌, Option, none, some, Result, ok, err, Bytes, if◌then◌else◌,
}
use navar.Body.{Body}
use navar.Buf.{Buf}
use navar.Client.{Client, Methods, request}
use navar.Client
use navar.Http.{Head, Request, HeaderMaps, HttpBuilder}
use navar.Normalize.{Boxes}
use navar.Pool.{Response}
use navar.Request.{BoundRequestBuilder, EmptyBody, header}
use navar.Request as Building
use navar.Response.{collect}
use navar.Std.Text.{Parts, splitn2, trim_start, trim_end, text_eq}
use navar.Std.Utf8.{Text, from_utf8_lossy}

-- The plugins of a client, with the protocols that an Iroh transport names.
pub data Stack : Type 0 where
  tokio_hyper : Stack
  iroh_hyper : List Text → Stack
  iroh_h3 : List Text → Stack

abbrev pub http_name : Text
http_name = b'h' ∷ b't' ∷ b't' ∷ b'p' ∷ []

abbrev pub https_name : Text
https_name = b'h' ∷ b't' ∷ b't' ∷ b'p' ∷ b's' ∷ []

abbrev pub iroh_http_name : Text
iroh_http_name = b'i' ∷ b'r' ∷ b'o' ∷ b'h' ∷ b'+' ∷ b'h' ∷ b't' ∷ b't' ∷ b'p' ∷ []

abbrev pub iroh_h3_name : Text
iroh_h3_name = b'i' ∷ b'r' ∷ b'o' ∷ b'h' ∷ b'+' ∷ b'h' ∷ b'3' ∷ []

abbrev or_http : Option Text → Text
or_http none = http_name
or_http (some scheme) = scheme

-- `match scheme`; `none` is a scheme that is not supported, which ends the program.
pub stack_of : Option Text → Option Stack
stack_of scheme =
    if text_eq (or_http scheme) http_name
    then some tokio_hyper
    else if text_eq (or_http scheme) https_name
    then some tokio_hyper
    else if text_eq (or_http scheme) iroh_http_name
    then some (iroh_hyper (iroh_http_name ∷ []))
    else if text_eq (or_http scheme) iroh_h3_name
    then some (iroh_h3 (iroh_h3_name ∷ []))
    else none

-- What the command prints, in order.
pub data Line (P : Type 0) : Type 0 where
  parts_line : P → Line P
  body_line : Text → Line P

-- The end of `exec_request`: the parts, and then the body as text unless it fails.
unfoldable pub printed : {P E : Type 0} → P → Result E Bytes → List (Line P) × Option E
printed parts (ok bs) = (parts_line parts ∷ body_line (from_utf8_lossy bs) ∷ [], none)
printed parts (err e) = (parts_line parts ∷ [], some e)

unfoldable pub on_response :
    {P E N W : Type 0} (n : Buf N)
    → Result E (Response P (Body N E)) × W
    → (List (Line P) × Option E) × W
unfolding printed
on_response n (ok res, w) = (printed res.parts (collect n res.body), w)
on_response n (err e, w) = (([], some e), w)

module _ {Method Uri Ext F E : Type 0} {m : HeaderMaps} (http : HttpBuilder Method Uri Ext F m)
    (from_http : F → E) (methods : Methods Method)
    -- The conversions of texts to the names and values of headers.
    (name_of : Text → Result F m.Name) (value_of : Text → Result F m.Value) where
  -- `if let Some((k, v)) = header.split_once(':')`
  unfoldable pub with_header :
      {C : Type 0}
      → BoundRequestBuilder http.Builder C
      → Text
      → Option Text
      → BoundRequestBuilder http.Builder C
  with_header b key none = b
  with_header b key (some value) =
      header http from_http b (name_of (trim_end (trim_start key)))
        (value_of (trim_end (trim_start value)))

  unfoldable pub add_headers :
      {C : Type 0}
      → BoundRequestBuilder http.Builder C
      → List Text
      → BoundRequestBuilder http.Builder C
  unfolding with_header
  add_headers b [] = b
  add_headers b (h ∷ hs) =
      add_headers (with_header b (splitn2 b':' h).first (splitn2 b':' h).second) hs

  module _ {W D N E₀ P : Type 0} {b : Buf D} {n : Buf N} (boxes : Boxes b n) (into : E₀ → E)
      (frames : EmptyBody → Body D E₀) where
    -- `req_builder.send().await`
    unfoldable pub send_built :
        BoundRequestBuilder http.Builder (
          Client W
            (Request (Head Method Uri m.Headers Ext) (Body N E))
            (Result E (Response P (Body N E))))
        → W
        → Result E (Response P (Body N E)) × W
    send_built = Building.send http from_http (λ e w. (err e, w)) (Client.send boxes into frames)

    unfoldable pub exec_request :
        Client W
          (Request (Head Method Uri m.Headers Ext) (Body N E))
          (Result E (Response P (Body N E)))
        → Method
        → Uri
        → List Text
        → W
        → (List (Line P) × Option E) × W
    unfolding on_response send_built add_headers
    exec_request client method uri headers w =
        on_response n (
          send_built (add_headers (request http from_http methods client method (ok uri)) headers)
            w)
