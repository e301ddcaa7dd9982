-- ===== src/Fetch/Prints.antt =====
-- What the command prints when its request is answered.
use navar.Base.{◌≡◌, ap, ◌∙◌, List, [], ◌∷◌, none, Result, ok}
use navar.Body.{Body}
use navar.Buf.{Buf}
use navar.Client.{Client, Methods, request}
use navar.Fetch.{parts_line, body_line, printed, on_response, add_headers, send_built, exec_request}
use navar.Http.{Head, Request, HeaderMaps, HttpBuilder}
use navar.Normalize.{Boxes}
use navar.Pool.{Response}
use navar.Reader.Pieces.{bytes_of, NeverFails}
use navar.Request.{EmptyBody}
use navar.Response.Reading.{collect-NeverFails}
use navar.Std.Utf8.RoundTrip.{from_utf8_lossy-encode}
use navar.Std.Utf8.{Text, IsText, encode}

module _ {Method Uri Ext F E : Type 0} {m : HeaderMaps} (http : HttpBuilder Method Uri Ext F m)
    (from_http : F → E) (methods : Methods Method) (name_of : Text → Result F m.Name)
    (value_of : Text → Result F m.Value) {W D N E₀ P : Type 0} {b : Buf D} {n : Buf N}
    (boxes : Boxes b n) (into : E₀ → E) (frames : EmptyBody → Body D E₀) where
  -- When the request with its headers is answered with a body that does not fail and whose bytes are the
  -- UTF-8 of a text, the command prints the parts of the answer and then that text, and ends well.
  pub exec_request-prints :
      (client : Client W
        (Request (Head Method Uri m.Headers Ext) (Body N E))
        (Result E (Response P (Body N E))))
      (method : Method) (uri : Uri) (headers : List Text) (w w' : W) (res : Response P (Body N E))
      (t : Text)
      → send_built http from_http methods name_of value_of boxes into frames
          (add_headers http from_http methods name_of value_of
            (request http from_http methods client method (ok uri))
            headers)
          w
        ≡ (ok res, w')
      → NeverFails res.body
      → IsText t
      → bytes_of n res.body ≡ encode t
      → exec_request http from_http methods name_of value_of boxes into frames client method uri
          headers w
        ≡ ((parts_line res.parts ∷ body_line t ∷ [], none), w')
  unfolding exec_request on_response printed
  exec_request-prints client method uri headers w w' res t sent whole chars spelled =
      ap (on_response n) sent
      ∙ ap (λ r. (printed res.parts r, w')) (collect-NeverFails n res.body whole ∙ ap ok spelled)
      ∙ ap (λ x. ((parts_line res.parts ∷ body_line x ∷ [], none), w'))
          (from_utf8_lossy-encode t chars)
