-- ===== src/Naming/Dialled.antt =====
-- client/grpc/client.go with consul_naming.go and direct_naming.go: the watcher that the balancer of a
-- connection gets. grpc.Dial and consul.NewClient are parameters.
use tiki.Base.{
  ◌≡◌, ◌≢◌, refl, ap, ◌∙◌, List, [], ◌∷◌, ◌⊎◌, Bool, false, none, some, Option, arith, Str, codes,
  str_eq, str_eq_iff, str_eq_refl, sym, if◌then◌else◌, Result, ok, ◌>>=◌,
}
use tiki.App.{ConsulConfig, ServiceDiscoveryCfg}
use tiki.Instancer.Loop.{Poll}
use tiki.Naming.Channel
use tiki.Naming.Channel.{new_consul_watcher}
use tiki.Naming.Dial.{
  Resolver, consul_resolver, direct_resolver, DialOption, resolver_of, dial_options,
}
use tiki.Naming.Direct
use tiki.Naming.Direct.{Outcome, Run, told, added, Run-told, next-send, next, send}

-- NewClientConn.
unfoldable pub new_client_conn :
    {Conn : Type 0} → (Str → List DialOption → Conn) → Str → ServiceDiscoveryCfg → Conn
unfolding dial_options
new_client_conn dial address cfg = dial address (dial_options address cfg)

-- The naming.Watcher of either resolver.
pub data Watcher : Type 0 where
  consul_watcher : Channel.Watcher → Watcher
  direct_watcher : Direct.Watcher → Watcher

-- What the calls of consul give: the error of NewClient, if any, and the first query for a service.
pub record Consul : Type 0 where
  pub new_client : Option ConsulConfig → Option Str
  pub first : Str → Poll

-- Resolve, of both resolvers.
unfoldable pub resolve : Consul → Resolver → Str → Result Watcher
resolve c (consul_resolver cfg) target =
    new_consul_watcher (c.new_client cfg) (c.first target) >>= λ w. ok (consul_watcher w)
resolve c (direct_resolver addr) target = ok (direct_watcher (Direct.resolve target))

-- With another type of service discovery than consul, the balancer of a connection gets a watcher of
-- the address dialled: it is told to add that address as soon as the goroutine of Resolve has sent, and
-- however the goroutine, Next and Close interleave, it is never told anything else.
pub dial_direct :
    (c : Consul) (address : Str) (cfg : ServiceDiscoveryCfg) (os : List Outcome)
    (u : Bool × Direct.Watcher)
    → cfg.type ≢ codes "consul"
    → Run (false, Direct.resolve address) os u
    → (resolve c (resolver_of address cfg) address ≡ ok (direct_watcher (Direct.resolve address)))
      × ((told os ≡ []) ⊎ (told os ≡ added address ∷ []))
      × (v : Direct.Watcher) × (next (send (Direct.resolve address)).1
          ≡ some (Direct.updates (added address ∷ []), v))
unfolding resolve resolver_of
dial_direct c address cfg os u other r =
    let (v, first, _, _) = next-send address in
    let to_direct = λ (b : Bool).
      resolve c (if b then consul_resolver cfg.consul else direct_resolver address) address in
    (ap to_direct (differs cfg.type other), Run-told address u os r, v, first)
  where
    differs : (type : Str) → type ≢ codes "consul" → str_eq type (codes "consul") ≡ false
    differs type h = ground (arith, str_eq_iff type (codes "consul"), h)

watcher_made : (p : Poll) → (v : Channel.Watcher) × (new_consul_watcher none p ≡ ok v)
unfolding new_consul_watcher
watcher_made p = (_, refl)

-- With consul, and a client of it that is made, the balancer of a connection gets a watcher that
-- newConsulWatcher makes from what the first query for the service gives.
pub dial_consul :
    (c : Consul) (address : Str) (cfg : ServiceDiscoveryCfg)
    → cfg.type ≡ codes "consul"
    → c.new_client cfg.consul ≡ none
    → (v : Channel.Watcher) × (new_consul_watcher none (c.first address) ≡ ok v)
      × (resolve c (resolver_of address cfg) address ≡ ok (consul_watcher v))
unfolding resolve resolver_of
dial_consul c address cfg same connects =
    let (v, made) = watcher_made (c.first address) in
    let to_consul = λ (b : Bool).
      resolve c (if b then consul_resolver cfg.consul else direct_resolver address) address in
    let is_consul = ap (λ s. str_eq s (codes "consul")) same ∙ str_eq_refl (codes "consul") in
    (
      v,
      made,
      ap to_consul is_consul
          ∙ ap (λ e. new_consul_watcher e (c.first address) >>= λ w. ok (consul_watcher w)) connects
          ∙ ap (λ (r : Result Channel.Watcher). r >>= λ w. ok (consul_watcher w)) made,
    )

-- Whatever watcher such a connection gets, it was made so.
pub dialled_made :
    (c : Consul) (address : Str) (cfg : ServiceDiscoveryCfg) (v : Channel.Watcher)
    → cfg.type ≡ codes "consul"
    → resolve c (resolver_of address cfg) address ≡ ok (consul_watcher v)
    → new_consul_watcher none (c.first address) ≡ ok v
unfolding resolve resolver_of new_consul_watcher
dialled_made c address cfg v same resolved =
    let to_consul = λ (b : Bool).
      resolve c (if b then consul_resolver cfg.consul else direct_resolver address) address in
    let is_consul = ap (λ s. str_eq s (codes "consul")) same ∙ str_eq_refl (codes "consul") in
    go (c.new_client cfg.consul) (sym (ap to_consul is_consul) ∙ resolved)
  where
    go :
        (e : Option Str)
        → (new_consul_watcher e (c.first address) >>= λ w. ok (consul_watcher w))
          ≡ ok (consul_watcher v)
        → new_consul_watcher none (c.first address) ≡ ok v
    go (some e) h = cc
    go none h = cc
