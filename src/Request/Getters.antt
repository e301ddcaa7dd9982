-- ===== src/Request/Getters.antt =====
-- src/bound_request.rs: what a `BoundRequest` tells of its request. The version of HTTP is not modelled.
use navar.Http.{Head}
use navar.Request.{BoundRequest}

module _ {Method Uri Headers Ext C B : Type 0} where
  abbrev pub method : BoundRequest (Head Method Uri Headers Ext) C B → Method
  method r = r.request.head.method

  abbrev pub uri : BoundRequest (Head Method Uri Headers Ext) C B → Uri
  uri r = r.request.head.uri

  abbrev pub body_ref : BoundRequest (Head Method Uri Headers Ext) C B → B
  body_ref r = r.request.body

  abbrev pub into_body : BoundRequest (Head Method Uri Headers Ext) C B → B
  into_body r = r.request.body

  abbrev pub headers : BoundRequest (Head Method Uri Headers Ext) C B → Headers
  headers r = r.request.head.headers

  abbrev pub extensions : BoundRequest (Head Method Uri Headers Ext) C B → Ext
  extensions r = r.request.head.extensions
