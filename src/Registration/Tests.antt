-- ===== src/Registration/Tests.antt =====
-- The theorems on registration, at one application.
use tiki.Base.{◌≡◌, refl, [], ◌∷◌, ◌++◌, none, some, arith, Str, codes, str_eq, ok}
use tiki.Go.Strconv.{itoa}
use tiki.Registration.{get_ip, first_ip, Env, refused, start_registration, colon}
use tiki.Registration.Started.{start_ipv6}

abbrev ip : Str
ip = codes "10.0.0.1"

abbrev app_name : Str
app_name = codes "a.b"

-- Consul refuses with a 500.
abbrev env : Env
env = record {
  node_type = none;
  marshal = λ p. ok (codes "json");
  put = λ url body. ok (record { status_code = 500; body = [] });
}

ip_of_eth :
    get_ip (
      some (
        record { name = codes "lo"; addrs = some (codes "127.0.0.1" ∷ []) }
        ∷ record { name = codes "wl"; addrs = none }
        ∷ record { name = codes "eth"; addrs = some (ip ∷ []) }
        ∷ []))
    ≡ ip
unfolding get_ip first_ip str_eq
ip_of_eth = refl

start_ipv6_example :
    start_registration env (codes "fe80::1") app_name 8080
    ≡ ok (
        refused (
          codes "cannot get port from server->listen_addr: "
          ++ colon (codes "fe80::1") (itoa 8080)))
start_ipv6_example =
    start_ipv6 env (codes "fe80") (codes "1") app_name 8080 (omega arith) (λ e. ground arith)
