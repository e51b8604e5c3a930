-- ===== src/Registration/Started.antt =====
-- sd/init.go, sd/consul.go: the service that an application registers when it starts.
use tiki.Base.{
  non_empty-eq, ℕ, ◌<◌, ◌≡◌, ◌≢◌, refl, ap, ◌∙◌, [], ◌∷◌, ◌++◌, none, some, arith, Str, codes, ok,
  pos, append_assoc, str_eq_refl,
}
use tiki.Go.Strings.{split, replace_all}
use tiki.Go.Strings.Laws.{Lacks, split_at, split_whole}
use tiki.Go.Strconv.{atoi, itoa, digits, format_int, int_bound}
use tiki.Go.Strconv.RoundTrip.{atoi-itoa, itoa-Lacks}
use tiki.Registration.{
  ServiceDiscovery, with_port, SvcDef, Answer, Env, refused, make_payload, make_check, make_svc,
  register, parse_port, check_path, default_consul_addr, colon, debug_port, init_service_discovery,
  start_registration,
}

-- The service of an application.
abbrev pub started_svc : Str → Str → ℕ → SvcDef
started_svc ip app_name port = record {
  name = app_name;
  id = ip ++ b'-' ∷ (itoa port ++ b'-' ∷ replace_all app_name b'.' b'_');
  addr = ip;
  port = pos port;
  tags = [];
  health_check = some (record {
    type = codes "http";
    content = codes "http://" ++ (colon ip (format_int (debug_port port)) ++ codes "/healthcheck");
    interval = pos 0;
    timeout = pos 0;
  });
}

parse_port-colon :
    (ip : Str) (port : ℕ)
    → Lacks b':' ip
    → port < int_bound
    → parse_port (split (colon ip (itoa port)) (codes ":")) ≡ some (pos port)
unfolding parse_port
parse_port-colon ip port plain bound =
    rw
      (
        split_at b':' ip (itoa port) plain,
        split_whole b':' (itoa port) (itoa-Lacks b':' port (omega arith)),
      )
      (atoi-itoa port bound)

abbrev started_sd : Str → Str → ℕ → ServiceDiscovery
started_sd ip app_name port = record {
  type = codes "consul";
  reg_addr = [];
  svc_name = app_name;
  check_endpoint = codes "/healthcheck";
  check_addr = colon ip (format_int (debug_port port));
}

colon_ne : (a b : Str) → colon a b ≢ []
colon_ne [] b e = ground arith
colon_ne (c ∷ a) b e = ground arith

-- With an address and a name, all depends on the port.
start_reaches :
    (env : Env) (ip app_name : Str) (port : ℕ)
    → ip ≢ []
    → app_name ≢ []
    → start_registration env ip app_name port
      ≡ with_port env
          (started_sd ip app_name port)
          default_consul_addr
          ip
          (colon ip (itoa port))
          (parse_port (split (colon ip (itoa port)) (codes ":")))
unfolding start_registration init_service_discovery format_int
start_reaches env ip app_name port some_ip some_name = rw (
  str_eq_refl (codes "consul"),
  non_empty-eq ip some_ip,
  non_empty-eq app_name some_name,
  str_eq_refl [],
)

make_svc-started :
    (ip app_name : Str) (port : ℕ)
    → make_svc (started_sd ip app_name port) ip (pos port) ≡ started_svc ip app_name port
unfolding make_svc check_path format_int
make_svc-started ip app_name port = rw (non_empty-eq _ (colon_ne ip (format_int (debug_port port))))

three_and_one :
    (format_int (pos 3) ++ codes "s" ≡ codes "3s") × (format_int (pos 1) ++ codes "s" ≡ codes "1s")
unfolding format_int itoa digits
three_and_one = (refl, refl)

-- Started on an address without a colon, an application with a name registers itself, whatever
-- status consul answers with: under its name, the address and its port, with an identity made of the
-- three and a check of /healthcheck at the port of the debug server; and the payload asks for a check
-- every three seconds with a timeout of one second. The payload is encoded and the request is
-- answered.
pub start-registers :
    (env : Env) (ip app_name json : Str) (port : ℕ) (answer : Answer)
    → Lacks b':' ip
    → ip ≢ []
    → app_name ≢ []
    → port < int_bound
    → env.marshal (make_payload env.node_type (started_svc ip app_name port)) ≡ ok json
    → env.put (default_consul_addr ++ codes "/v1/agent/service/register") json ≡ ok answer
    → (start_registration env ip app_name port
        ≡ ok (record {
          registeror = some default_consul_addr;
          svc = some (started_svc ip app_name port);
          error = none;
        }))
      × ((make_payload env.node_type (started_svc ip app_name port)).check
          ≡ some (record {
            kind = codes "http";
            content =
                codes "http://"
                ++ (colon ip (format_int (debug_port port)) ++ codes "/healthcheck");
            interval = codes "3s";
            timeout = codes "1s";
          }))
unfolding register make_payload make_check
start-registers env ip app_name json port answer plain some_ip some_name bound marshalled answered =
    (
      start_reaches env ip app_name port some_ip some_name
          ∙ rw (parse_port-colon ip port plain bound, make_svc-started ip app_name port)
              (rw (marshalled) (rw answered)),
      rw (str_eq_refl (codes "http")) (rw three_and_one.0 (rw three_and_one.1)),
    )

parse_port-colons :
    (first rest port : Str)
    → Lacks b':' first
    → parse_port (split (colon (first ++ b':' ∷ b':' ∷ rest) port) (codes ":")) ≡ none
unfolding parse_port atoi
parse_port-colons first rest port plain =
    rw (append_assoc first (b':' ∷ b':' ∷ rest) (b':' ∷ port)) (
      rw (split_at b':' first (b':' ∷ (rest ++ b':' ∷ port)) plain)
        (rw (split_at b':' [] (rest ++ b':' ∷ port) tt)))

-- Started on an address with two colons in a row, such as an IPv6 address that is abbreviated, an
-- application never registers: the port is looked for between the colons. The error is returned
-- before anything is sent.
pub start_ipv6 :
    (env : Env) (first rest app_name : Str) (port : ℕ)
    → Lacks b':' first
    → app_name ≢ []
    → let ip = first ++ b':' ∷ b':' ∷ rest in
      start_registration env ip app_name port
      ≡ ok (refused (codes "cannot get port from server->listen_addr: " ++ colon ip (itoa port)))
start_ipv6 env first rest app_name port plain some_name =
    let ip = first ++ b':' ∷ b':' ∷ rest in
    start_reaches env ip app_name port (colon_ne first (b':' ∷ rest)) some_name
    ∙ ap (with_port env (started_sd ip app_name port) default_consul_addr ip (colon ip (itoa port)))
        (parse_port-colons first rest (itoa port) plain)
