-- ===== src/Middleware/Tracing.antt =====
-- client/http/middleware/tracing.go: a span around each HTTP call. The context and the headers that
-- carry the span are not modelled.
use tiki.Base.{Str}
use tiki.Middleware.Defs.{http, nil_http, other_request, Endpoint, start_span, finish_span, emit}

unfoldable pub tracing : Str → Endpoint → Endpoint
tracing uri next (http r) w =
    let (reply, w') = next (http r) (emit (start_span uri r.host r.method) w) in
    (reply, emit (finish_span uri) w')
tracing uri next nil_http w = next nil_http w
tracing uri next other_request w = next other_request w
