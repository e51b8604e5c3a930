-- ===== src/App/Reached/Tests.antt =====
-- The theorem on an application that is found, at a consul that knows one service.
use tiki.Base.{
  ◌≡◌, refl, true, false, [], ◌∷◌, inl, none, some, arith, Str, codes, str_eq, str_eq_iff, ok, err,
  pos, negsuc, ◌==◌, ◌&&◌, if◌then◌else◌, ℤ, Result,
}
use tiki.Go.Strconv.{itoa}
use tiki.Instancer.Entries.{Entry}
use tiki.Instancer.Loop.{answered, new_instancer}
use tiki.Instancer.Loop.Follows.{published}
use tiki.Naming.Channel.{Watcher, new_consul_watcher, Reach, here}
use tiki.Naming.Channel.Order.{follow_all}
use tiki.Naming.Channel.Tests.{down, first}
use tiki.Naming.Dial.{resolver_of}
use tiki.Naming.Dialled.{Consul, consul_watcher, resolve}
use tiki.Naming.Follows.{known}
use tiki.Registration.{Env, Payload, colon, default_consul_addr, make_payload, start_registration}
use tiki.Registration.Started.{started_svc}
use tiki.App.{ServiceDiscoveryCfg}
use tiki.App.Reached.{IsCatalog, started_found}

abbrev pub ip : Str
ip = codes "10.0.0.1"

abbrev pub app_name : Str
app_name = codes "a.b"

abbrev with_port : ℤ → Str → Result Str
with_port (pos n) a = if n == 8080 && str_eq a ip then ok (codes "json") else err (codes "other")
with_port (negsuc n) a = err (codes "other")

-- An encoder of the one service.
abbrev encode : Payload → Result Str
encode p = elim p.tags [ none ↦ with_port p.port p.address | some ts ↦ err (codes "other") ]

-- Consul answers the registration with a 500.
abbrev pub env : Env
env = record {
  node_type = none;
  marshal = encode;
  put = λ url body. ok (record { status_code = 500; body = [] });
}

abbrev pub listed : Entry
listed = record { node_address = codes "n"; service_address = ip; port = pos 8080; tags = [] }

pub env-IsCatalog : IsCatalog env (λ json. listed)
env-IsCatalog = record { lists = λ p json h. ground (arith, h, str_eq_iff p.address ip) }

abbrev consul : Consul
consul = record { new_client = λ cfg. none; first = λ name. down }

abbrev by_consul : ServiceDiscoveryCfg
by_consul = record { type = codes "consul"; consul = none }

pub marshalled : encode (make_payload none (started_svc ip app_name 8080)) ≡ ok (codes "json")
unfolding make_payload str_eq
marshalled = refl

resolved : resolve consul (resolver_of app_name by_consul) app_name ≡ ok (consul_watcher first)
unfolding resolve resolver_of new_consul_watcher str_eq
resolved = refl

runs : first.instancer.stopped ≡ false
unfolding new_instancer
runs = refl

listens : first.instancer.listening ≡ true
unfolding new_instancer
listens = refl

started_found_example :
    (start_registration env ip app_name 8080
      ≡ ok (record {
        registeror = some default_consul_addr;
        svc = some (started_svc ip app_name 8080);
        error = none;
      }))
    × (z : Watcher) × Reach first z
    × (z.instancer.cache.state ≡ published [] (answered (listed ∷ []) 1))
    × (z.update_c ≡ [])
    × (known (follow_all z.told []) (colon ip (itoa 8080)) ≡ true)
started_found_example =
    started_found env (λ json. listed) ip app_name (codes "json") 8080
      (record { status_code = 500; body = [] }) consul by_consul first first (listed ∷ []) 1
      (omega arith) (λ e. ground arith) (λ e. ground arith) (omega arith) marshalled refl
      env-IsCatalog (inl refl) refl resolved here runs listens
