-- ===== src/HttpClient/Discovered.antt =====
-- client/sd/endpointer/endpointer.go with client/http/endpoint.go: an endpoint client with service
-- discovery. Its endpointer has an instancer, and an endpointer of go-kit on a channel of that
-- instancer, which calls the factory of the client and closes what the factory made. go-kit's endpointer
-- is a parameter.
pub mod Follows
pub mod Calls
pub mod Tests
use tiki.Base.{
  ℕ, ◌≡◌, Bool, true, false, List, [], ◌∷◌, none, some, Option, Str, str_eq, if◌then◌else◌,
}
use tiki.Go.Maps.{Map, get}
use tiki.Go.Members.{mem}
use tiki.Middleware.Defs.{World}
use tiki.Middleware.Circuit.{HystrixDo}
use tiki.Instancer.Cache.{Slice, nil_slice, slice, Error, Event}
use tiki.Instancer.Cache.Locked.Atomic.{sent_on}
use tiki.Instancer.Loop
use tiki.Instancer.Loop.{Poll, Instancer, new_instancer}
use tiki.Instancer.Loop.Channels
use tiki.HttpClient.Endpoint.{HttpDo, Chain, EndpointClient}
use tiki.HttpClient.Endpoint.Call.{Change, add, drop, changes}

-- sd.NewEndpointer of go-kit, by what it does with an event: calls of the factory and of closers, in
-- order. `holds` tells for which instances it has an endpoint.
pub record Kit : Type 1 where
  pub Cached : Type 0
  pub empty : Cached
  pub holds : Cached → Str → Bool
  pub handle : Event → Cached → List Change × Cached

abbrev pub members : Slice → List Str
members nil_slice = []
members (slice l) = l

-- Whether the instance has an endpoint after these calls.
abbrev pub after : List Change → Str → Bool → Bool
after [] a b = b
after (add x ∷ xs) a b = after xs a (if str_eq x a then true else b)
after (drop x ∷ xs) a b = after xs a (if str_eq x a then false else b)

-- What go-kit documents: an endpointer has no endpoint at first; an error leaves all as it is; after a
-- list of instances it has an endpoint for just those; and it has the factory make what it gets and
-- closes what it drops.
pub record IsEndpointer (kit : Kit) : Type 0 where
  pub none_yet : (a : Str) → kit.holds kit.empty a ≡ false
  pub error_kept :
      (e : Event) (x : Error) (s : kit.Cached) → e.error ≡ some x → kit.handle e s ≡ ([], s)
  pub follows :
      (e : Event) (s : kit.Cached) (a : Str)
      → e.error ≡ none
      → kit.holds (kit.handle e s).1 a ≡ mem (members e.instances) a
  pub made :
      (e : Event) (s : kit.Cached) (a : Str)
      → kit.holds (kit.handle e s).1 a ≡ after (kit.handle e s).0 a (kit.holds s a)

-- consulEndpointer, without its consul clients. go-kit's endpointer is told apart by the number of its
-- channel.
pub record ConsulEndpointer : Type 0 where
  pub instancer : Instancer
  pub endpointer : ℕ

-- The end of NewConsulEndpointer, which `init` calls without tags: NewInstancer, with what its first
-- query gives, and sd.NewEndpointer, which registers a channel. The goroutine of the instancer runs
-- already: `early` is what consul answers it before the channel is registered.
unfoldable pub connect : ℕ → Poll → List Poll → ConsulEndpointer
connect ch first early = record {
  instancer = Channels.register ch (Loop.loop early (new_instancer [] false first));
  endpointer = ch;
}

unfoldable pub get_tag_map : ConsulEndpointer → Map (List Str)
get_tag_map r = Channels.get_tag_map r.instancer

-- The goroutine of the instancer, through these answers of consul.
unfoldable pub run_loop : List Poll → ConsulEndpointer → ConsulEndpointer
run_loop ps r = record r { instancer = Loop.loop ps r.instancer }

-- The client with the endpoints that it has.
pub record Discovered (kit : Kit) : Type 0 where
  pub client : EndpointClient
  pub world : World
  pub cached : kit.Cached

module _ (kit : Kit) (chain : Chain) (hystrix_do : HystrixDo) (source : Str)
    (http_do : HttpDo) where
  -- go-kit's endpointer takes an event from its channel.
  unfoldable pub receive : Event → Discovered kit → Discovered kit
  receive e d =
      let (xs, s) = kit.handle e d.cached in
      let (c, w) = changes chain hystrix_do source http_do xs (d.client, d.world) in
      record { client = c; world = w; cached = s }

  unfoldable pub receive_all : List Event → Discovered kit → Discovered kit
  unfolding receive
  receive_all [] d = d
  receive_all (e ∷ es) d = receive_all es (receive e d)

-- The events that the endpointer has in its channel, or has taken from it.
abbrev pub events_of : ConsulEndpointer → List Event
events_of r = sent_on r.endpointer r.instancer.cache.sent

-- The client has an endpoint for the address.
abbrev pub has_endpoint : EndpointClient → Str → Bool
has_endpoint c a = elim (get c.endpoint_map a) [ none ↦ false | some ep ↦ true ]
