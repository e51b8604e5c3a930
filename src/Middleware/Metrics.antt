-- ===== src/Middleware/Metrics.antt =====
-- client/http/middleware/metrics.go: a call counter, an error counter and the latency of each call.
-- The latency's value is not modelled.
use tiki.Base.{Bool, false, List, [], ◌∷◌, ◌++◌, Str, codes, leb, if◌then◌else◌, ℤ, pos, negsuc}
use tiki.Go.Strconv.{format_int}
use tiki.Middleware.Defs.{
  Item, bytes, int, other_item, nil, array, other_value, Reply, returns, panics, World, Endpoint,
  observe_latency, add_call, add_err_code, emit, index_out_of_range,
}

-- The label names, each before its value.
unfoldable pub call_labels : Str → Str → Str → Str → List Str
call_labels src tgt uri method =
    codes "src" ∷ src ∷ codes "tgt" ∷ tgt ∷ codes "uri" ∷ uri ∷ codes "method" ∷ method ∷ []

-- The deferred function.
unfoldable pub observe : List Str → World → World
observe labels w = emit (add_call labels) (emit (observe_latency labels) w)

-- code >= 400
unfoldable pub is_error_code : ℤ → Bool
is_error_code (pos n) = leb 400 n
is_error_code (negsuc n) = false

-- `if code, ok := arr[1].(int); ok && code >= 400`
unfoldable pub count_code : List Str → Item → World → World
unfolding is_error_code
count_code labels (int code) w =
    if is_error_code code
    then emit (add_err_code (labels ++ codes "status" ∷ format_int code ∷ [])) w
    else w
count_code labels (bytes b) w = w
count_code labels other_item w = w

-- What follows the call of the inner endpoint: reading `arr[1]` panics in an array that is too
-- short.
unfoldable pub inspect : List Str → Reply → World → Reply × World
unfolding count_code
inspect labels (returns (array (first ∷ second ∷ rest)) err) w =
    (returns (array (first ∷ second ∷ rest)) err, count_code labels second w)
inspect labels (returns (array (first ∷ [])) err) w = (panics index_out_of_range, w)
inspect labels (returns (array []) err) w = (panics index_out_of_range, w)
inspect labels (returns nil err) w = (returns nil err, w)
inspect labels (returns other_value err) w = (returns other_value err, w)
inspect labels (panics reason) w = (panics reason, w)

unfoldable pub metrics : Str → Str → Str → Str → Endpoint → Endpoint
unfolding inspect observe call_labels
metrics src tgt uri method next request w =
    let labels = call_labels src tgt uri method in
    let (reply, w') = next request w in
    let (reply', w'') = inspect labels reply w' in (reply', observe labels w'')
