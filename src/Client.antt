-- ===== src/Client.antt =====
-- src/lib.rs: `Client`, a handle on a pipeline. Cloning it shares the pipeline, so a clone is the same
-- value. `H` is the head of a request, and `R` the outcome of one.
use navar.Base.{Result}
pub mod Requests
pub mod Pooled
pub mod Streams
use navar.Body.{Body}
use navar.Buf.{Buf}
use navar.Http.{Head, Request, HeaderMaps, HttpBuilder}
use navar.Normalize.{Boxes, normalize}
use navar.Request.{BoundRequestBuilder, BoundRequest}
use navar.Request as Building
use navar.Service.{Service, IntoService, service, Pipeline}
use navar.Service

pub record Client (W Q R : Type 0) : Type 0 where
  pub pipeline : Pipeline W Q R

-- The constants of `http::Method` that the client names.
pub record Methods (M : Type 0) : Type 0 where
  pub method_head : M
  pub method_get : M
  pub method_post : M
  pub method_put : M
  pub method_patch : M
  pub method_delete : M

module _ {W Q R : Type 0} where
  -- `Client::new`, with the base service that it builds.
  unfoldable pub new : Service W Q R → Client W Q R
  unfolding Service.new
  new base = record { pipeline = Service.new (service base) }

  unfoldable pub with_service : IntoService W Q R → Client W Q R
  unfolding Service.new
  with_service source = record { pipeline = Service.new source }

-- `Client::send`: the body, which `frames` reads as one, is normalised for the pipeline.
unfoldable pub send :
    {W H B D N E E' R : Type 0} {b : Buf D} {n : Buf N}
    → Boxes b n
    → (E → E')
    → (B → Body D E)
    → Client W (Request H (Body N E')) R
    → Request H B
    → W
    → R × W
unfolding normalize Service.handle
send boxes into frames client req =
    Service.handle client.pipeline
      (record { head = req.head; body = normalize boxes into (frames req.body) })

-- `BoundRequest::send`
unfoldable pub send_bound :
    {W H B D N E E' R : Type 0} {b : Buf D} {n : Buf N}
    → Boxes b n
    → (E → E')
    → (B → Body D E)
    → BoundRequest H (Client W (Request H (Body N E')) R) B
    → W
    → R × W
unfolding send
send_bound boxes into frames r = send boxes into frames r.client r.request

module _ {Method Uri Ext F E : Type 0} {m : HeaderMaps} (http : HttpBuilder Method Uri Ext F m)
    (from_http : F → E) (methods : Methods Method) where
  open methods use {method_head, method_get, method_post, method_put, method_patch, method_delete}

  unfoldable pub request :
      {W Q R : Type 0}
      → Client W Q R
      → Method
      → Result F Uri
      → BoundRequestBuilder http.Builder (Client W Q R)
  unfolding Building.new
  request client method uri = Building.new http from_http client method uri

  -- The functions that the macro `http_method` makes.
  unfoldable pub head :
      {W Q R : Type 0}
      → Client W Q R
      → Result F Uri
      → BoundRequestBuilder http.Builder (Client W Q R)
  unfolding request
  head client uri = request client method_head uri

  unfoldable pub get :
      {W Q R : Type 0}
      → Client W Q R
      → Result F Uri
      → BoundRequestBuilder http.Builder (Client W Q R)
  unfolding request
  get client uri = request client method_get uri

  unfoldable pub post :
      {W Q R : Type 0}
      → Client W Q R
      → Result F Uri
      → BoundRequestBuilder http.Builder (Client W Q R)
  unfolding request
  post client uri = request client method_post uri

  unfoldable pub put :
      {W Q R : Type 0}
      → Client W Q R
      → Result F Uri
      → BoundRequestBuilder http.Builder (Client W Q R)
  unfolding request
  put client uri = request client method_put uri

  unfoldable pub patch :
      {W Q R : Type 0}
      → Client W Q R
      → Result F Uri
      → BoundRequestBuilder http.Builder (Client W Q R)
  unfolding request
  patch client uri = request client method_patch uri

  unfoldable pub delete :
      {W Q R : Type 0}
      → Client W Q R
      → Result F Uri
      → BoundRequestBuilder http.Builder (Client W Q R)
  unfolding request
  delete client uri = request client method_delete uri
