-- ===== src/HttpClient/Endpoint/Direct.antt =====
-- client/sd/endpointer/endpointer.go: an endpoint client without service discovery, whose endpointer
-- has one fixed address, and a call through it. That go-kit's endpointer gives every instance to the
-- factory is its documented behaviour.
use tiki.Base.{List, [], ◌∷◌, Str}
use tiki.Go.Maps.{Map}
use tiki.Middleware.Defs.{Endpoint}
use tiki.Middleware.Circuit.{HystrixDo}
use tiki.HttpClient.Endpoint.{HttpDo, Chain, EndpointClient, wrap, factory}

-- fixedEndpointer, by the instances of its sd.FixedInstancer.
pub record FixedEndpointer : Type 0 where
  pub instances : List Str

unfoldable pub new_direct_endpointer : Str → FixedEndpointer
new_direct_endpointer host = record { instances = host ∷ [] }

-- GetTagMap of a fixedEndpointer: a nil map.
unfoldable pub get_tag_map : FixedEndpointer → Map (List Str)
get_tag_map e = []

-- sd.NewEndpointer on the instances.
abbrev pub give_all :
    (Str → EndpointClient → EndpointClient) → List Str → EndpointClient → EndpointClient
give_all f [] c = c
give_all f (i ∷ is) c = give_all f is (f i c)

-- A client without service discovery behind `init`, once the endpointer has handled the one event of
-- its instancer.
unfoldable pub connected : Chain → HystrixDo → Str → HttpDo → EndpointClient → EndpointClient
unfolding new_direct_endpointer
connected chain hystrix_do source http_do client =
    give_all (factory (wrap chain hystrix_do source client) http_do)
      (new_direct_endpointer client.host).instances client
