-- ===== src/HttpClient/Discovered/Tests.antt =====
-- The theorems on a client with service discovery, at a consul that fails, answers with an entry and
-- fails again.
use tiki.Base.{
  ◌<◌, ◌≡◌, refl, ◌∙◌, Bool, true, false, List, [], ◌∷◌, ◌++◌, none, some, arith, Str, codes,
  str_eq, if◌then◌else◌, pos,
}
use tiki.Go.Maps.{get, put}
use tiki.Go.Members.{mem}
use tiki.Go.Strconv.{format_int, itoa, digits}
use tiki.Lb.Weight.{weight, tags_weight}
use tiki.Middleware.Defs.{init}
use tiki.Middleware.Circuit.{is_circuit_open}
use tiki.Instancer.Cache.{Event, message}
use tiki.Instancer.Entries.{Entry, make_instance, make_instances, make_tag_map, add_tags}
use tiki.Instancer.Loop.{Poll, failed, answered}
use tiki.HttpClient.Endpoint.{no_param, blocked, do_raw, body_of}
use tiki.HttpClient.Endpoint.Call.{Change, add, drop, delivered}
use tiki.HttpClient.Endpoint.Tests.{
  uri, method, chain, hystrix_do, hystrix_do-IsHealthy, http_do, new_client, env, request,
}
use tiki.HttpClient.Discovered.{
  Kit, members, after, IsEndpointer, connect, get_tag_map, run_loop, receive_all, events_of,
  has_endpoint,
}
use tiki.HttpClient.Discovered.Calls.{discovered_call}
use tiki.HttpClient.Discovered.Follows.{discovered_follows}

abbrev drops : List Str → List Change
drops [] = []
drops (x ∷ l) = drop x ∷ drops l

abbrev adds : List Str → List Change
adds [] = []
adds (x ∷ l) = add x ∷ adds l

-- An endpointer that makes all its endpoints anew.
abbrev handled : Event → List Str → List Change × List Str
handled e s = elim e.error [
  | none ↦ (drops s ++ adds (members e.instances), members e.instances)
  | some x ↦ ([], s)
]

abbrev pub kit : Kit
kit = record { Cached = List Str; empty = []; holds = mem; handle = handled }

after-append :
    (xs ys : List Change) (a : Str) (b : Bool) → after (xs ++ ys) a b ≡ after ys a (after xs a b)
after-append [] ys a b = refl
after-append (add x ∷ xs) ys a b = after-append xs ys a _
after-append (drop x ∷ xs) ys a b = after-append xs ys a _

after-drops :
    (l : List Str) (a : Str) (b : Bool) → after (drops l) a b ≡ (if mem l a then false else b)
after-drops [] a b = refl
after-drops (x ∷ l) a b = after-drops l a _ ∙ ground arith

after-adds :
    (l : List Str) (a : Str) (b : Bool) → after (adds l) a b ≡ (if mem l a then true else b)
after-adds [] a b = refl
after-adds (x ∷ l) a b = after-adds l a _ ∙ ground arith

renewed : (s l : List Str) (a : Str) → mem l a ≡ after (drops s ++ adds l) a (mem s a)
renewed s l a = ground (
  arith,
  after-append (drops s) (adds l) a (mem s a),
  after-drops s a (mem s a),
  after-adds l a (after (drops s) a (mem s a)),
)

pub kit-IsEndpointer : IsEndpointer kit
kit-IsEndpointer = record {
  none_yet = λ a. refl;
  error_kept = λ e x s h. ground (arith, h);
  follows = λ e s a h. ground (arith, h);
  made = λ e s a. ground (arith, renewed s (members e.instances) a);
}

abbrev pub down : Poll
down = failed (message (codes "down"))

abbrev entries : List Entry
entries =
    record { node_address = codes "n"; service_address = codes "a"; port = pos 1; tags = [] } ∷ []

abbrev instance : Str
instance = codes "a:1"

discovered_follows_example :
    let r = run_loop ((down ∷ []) ++ answered entries 7 ∷ down ∷ []) (connect 3 down (down ∷ [])) in
    let d =
      receive_all kit chain hystrix_do
        (codes "app")
        http_do
        (events_of r)
        (record { client = new_client; world = init; cached = [] }) in
    ((a : Str) → has_endpoint d.client a ≡ mem (make_instances entries) a)
    × (get_tag_map r ≡ make_tag_map entries)
discovered_follows_example =
    discovered_follows chain hystrix_do (codes "app") http_do kit kit-IsEndpointer 3 down
      (down ∷ []) (down ∷ []) entries 7 (down ∷ []) new_client init (tt, tt) (tt, tt) (tt, tt) refl

is_member : mem (make_instances entries) instance ≡ true
unfolding make_instances make_instance format_int itoa digits str_eq
is_member = refl

is_free : blocked env.get_circuit env.roll init uri method instance ≡ false
unfolding blocked is_circuit_open get
is_free = refl

is_heavy : 0 < weight (make_tag_map entries) instance
unfolding weight tags_weight make_tag_map add_tags make_instance get str_eq put format_int
is_heavy = omega arith

discovered_call_example :
    let r = run_loop ((down ∷ []) ++ answered entries 7 ∷ down ∷ []) (connect 3 down (down ∷ [])) in
    let c =
      (receive_all kit chain hystrix_do
        (codes "app")
        http_do
        (events_of r)
        (record { client = new_client; world = init; cached = [] })).client in
    (addr : Str) × (mem (make_instances entries) addr ≡ true)
    × (blocked env.get_circuit env.roll init uri method addr ≡ false)
    × ((do_raw (record env { tag_map = get_tag_map r }) c uri method no_param init).0
        ≡ delivered (http_do request))
unfolding body_of
discovered_call_example =
    discovered_call chain hystrix_do (codes "app") http_do kit env 3 down (down ∷ []) (down ∷ [])
      entries 7 (down ∷ []) new_client uri method no_param init init [] instance (λ a. request)
      kit-IsEndpointer (λ a b c d next. refl) hystrix_do-IsHealthy (λ n h. h) (tt, tt) (tt, tt)
      (tt, tt) refl (omega arith) refl (λ a. refl) is_member is_free is_heavy
