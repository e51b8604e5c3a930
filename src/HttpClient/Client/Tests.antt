-- ===== src/HttpClient/Client/Tests.antt =====
-- The theorems on the clients of a host, their settings and their service discovery.
use tiki.Base.{
  ◌≡◌, get_elem?, some, refl, false, [], ◌∷◌, arith, Option, none, Str, codes, str_eq, ok, err,
}
use tiki.Go.Maps.{get}
use tiki.Middleware.Circuit.{dash}
use tiki.HttpClient.Endpoint.{EndpointClient, Env, no_param, do_raw}
use tiki.HttpClient.Client.Calls.{beside, client_do_raw-matches}
use tiki.Middleware.Defs.{init}
use tiki.HttpClient.Client.{
  client_do_raw, Config, Clients, init_endpointer, new_endpoint_client, create_endpoint_client,
  create_by_default_cfg, get_endpoint_client, add_clients, new_client_with_sd,
}
use tiki.HttpClient.Client.Sharing.{run, get_endpoint_client-stable}
use tiki.HttpClient.Client.Invariant.{WellKeyed, new_client-WellKeyed}

abbrev uri : Str
uri = codes "/u"

abbrev method : Str
method = codes "GET"

abbrev connect : Str → Str → Option Str
connect address datacenter = none

abbrev cfg : Config
cfg = record {
  host = codes "svc";
  use_service_discovery = false;
  discovery = record { service_discovery_cfg = none; new_consul_client = connect };
}

abbrev empty : Clients
empty = record { endpoints = []; heap = [] }

abbrev one : Clients
one = (get_endpoint_client cfg uri method empty).1

get_endpoint_client-stable_example :
    (get_endpoint_client cfg uri method (run cfg ((codes "/v", method) ∷ (uri, method) ∷ []) one)
      ≡ (ok 0, run cfg ((codes "/v", method) ∷ (uri, method) ∷ []) one))
    × (create_by_default_cfg cfg
          (dash method uri)
          uri
          method
          (run cfg ((codes "/v", method) ∷ (uri, method) ∷ []) one)
        ≡ (ok 0, run cfg ((codes "/v", method) ∷ (uri, method) ∷ []) one))
unfolding get_endpoint_client create_by_default_cfg create_endpoint_client new_endpoint_client
    init_endpointer get str_eq
get_endpoint_client-stable_example =
    get_endpoint_client-stable cfg uri method empty one 0
      ((codes "/v", method) ∷ (uri, method) ∷ []) refl

abbrev env : Env Str
env = record {
  marshal = λ v. ok v;
  new_request = λ m u b. err (codes "down");
  get_circuit = λ c. none;
  roll = λ a. 0;
  intn = λ n. 0;
  tag_map = [];
}

client_do_raw-matches_example :
    WellKeyed cfg one
    × (get one.endpoints (dash method uri) ≡ some 0)
    × (c : EndpointClient) × (get_elem? one.heap 0 ≡ some c)
    × (c.host ≡ codes "svc")
    × (c.uri ≡ uri)
    × (c.method ≡ method)
    × (client_do_raw cfg env uri method no_param (empty, init)
        ≡ beside one (do_raw env c uri method no_param init))
unfolding get_endpoint_client create_by_default_cfg create_endpoint_client new_endpoint_client
    init_endpointer get str_eq new_client_with_sd add_clients
client_do_raw-matches_example =
    client_do_raw-matches cfg env uri method no_param empty one init 0
      (new_client-WellKeyed cfg [] tt) (omega arith) refl
