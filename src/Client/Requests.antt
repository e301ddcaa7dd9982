-- ===== src/Client/Requests.antt =====
-- What reaches the pipeline when a client's request is built and sent.
use navar.Base.{Result, ok, err, ◌≡◌}
use navar.Body.{Body}
use navar.Buf.{Buf}
use navar.Client.{Client, Methods, send, request, head, get, post, put, patch, delete}
use navar.Http.{Head, Request, HeaderMaps, HttpBuilder}
use navar.Normalize.{Boxes, normalize}
use navar.Request.{BoundRequestBuilder, EmptyBody, empty}
use navar.Request as Building
use navar.Service.{handle}

module _ {Method Uri Ext F E : Type 0} {m : HeaderMaps} (http : HttpBuilder Method Uri Ext F m)
    (from_http : F → E) (methods : Methods Method) where
  module _ {W D N E₀ R : Type 0} {b : Buf D} {n : Buf N} (boxes : Boxes b n) (into : E₀ → E)
      (frames : EmptyBody → Body D E₀)
      (client : Client W (Request (Head Method Uri m.Headers Ext) (Body N E)) (Result E R)) where
    -- The request of `method`, with no header and no extension, goes to the pipeline; a URI that is no
    -- URI is an error, and the pipeline is not run.
    unfoldable pub reached : Method → Result F Uri → W → Result E R × W
    reached method (ok u) w =
        handle client.pipeline
          (record {
            head = record {
              method = method;
              uri = u;
              headers = http.no_headers;
              extensions = http.no_extensions;
            };
            body = normalize boxes into (frames empty);
          })
          w
    reached method (err e) w = (err (from_http e), w)

    -- A request that is built with no further call is sent.
    abbrev pub sending :
        BoundRequestBuilder http.Builder
          (Client W (Request (Head Method Uri m.Headers Ext) (Body N E)) (Result E R))
        → W
        → Result E R × W
    sending = Building.send http from_http (λ e w. (err e, w)) (send boxes into frames)

    sending-request :
        (method : Method) (uri : Result F Uri) (w : W)
        → sending (request http from_http methods client method uri) w ≡ reached method uri w
    unfolding request Building.send send reached
    sending-request method (ok u) w =
        rw (http.body-head (http.builder method (ok u)) empty, http.head-builder method (ok u))
    sending-request method (err e) w =
        rw (http.body-head (http.builder method (err e)) empty, http.head-builder method (err e))

    -- Each function of the client, sent at once, runs the pipeline on a request of its own method and
    -- URI, with no headers and the empty body, or gives the URI's error with the pipeline not run.
    pub methods-reached :
        (uri : Result F Uri) (w : W)
        → (sending (head http from_http methods client uri) w ≡ reached methods.method_head uri w)
          × (sending (get http from_http methods client uri) w ≡ reached methods.method_get uri w)
          × (sending (post http from_http methods client uri) w ≡ reached methods.method_post uri w)
          × (sending (put http from_http methods client uri) w ≡ reached methods.method_put uri w)
          × (sending (patch http from_http methods client uri) w
              ≡ reached methods.method_patch uri w)
          × (sending (delete http from_http methods client uri) w
              ≡ reached methods.method_delete uri w)
    unfolding head get post put patch delete
    methods-reached uri w = (
      sending-request methods.method_head uri w,
      sending-request methods.method_get uri w,
      sending-request methods.method_post uri w,
      sending-request methods.method_put uri w,
      sending-request methods.method_patch uri w,
      sending-request methods.method_delete uri w,
    )
