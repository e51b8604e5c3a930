-- ===== src/HttpClient/Names.antt =====
-- client/http/endpoint.go: the names that an endpoint gives to its commands, and how the circuit
-- breaker reads them.
use tiki.Base.{◌≡◌, ap, ◌∙◌, List, [], ◌∷◌, arith, Str, codes}
use tiki.Go.Strings.{replace_all, split}
use tiki.Go.Strings.Laws.{Lacks, split_at, split_whole, replace_all-Lacks}
use tiki.Middleware.Defs.{HttpRequest, http, CommandConfig, World, Endpoint}
use tiki.Middleware.Circuit.{HystrixDo, circuit_breaker, dash, endpoint_key, finish, config_cmd}

-- strings.Replace(str, "-", "_", -1)
unfoldable pub normal : Str → Str
normal str = replace_all str b'-' b'_'

-- `fmt.Sprintf("%s-%s-%s-%s", source, host, uri, client.method)` of the normalised parts.
unfoldable pub command_name : Str → Str → Str → Str → Str
command_name source host uri method =
    dash (normal source) (dash (normal host) (dash (normal uri) method))

pub normal-Lacks : (s : Str) → Lacks b'-' (normal s)
unfolding normal
normal-Lacks s = replace_all-Lacks s b'-' b'_' (omega arith)

pub split-dash : (a b : Str) → Lacks b'-' a → split (dash a b) (codes "-") ≡ a ∷ split b (codes "-")
split-dash a b h = split_at b'-' a b h

-- Split at the dashes, a command name gives back its four parts, the first three normalised, if the
-- method holds no dash.
pub split-command_name :
    (source host uri method : Str)
    → Lacks b'-' method
    → split (command_name source host uri method) (codes "-")
      ≡ normal source ∷ normal host ∷ normal uri ∷ method ∷ []
unfolding command_name
split-command_name source host uri method h =
    split-dash (normal source) _ (normal-Lacks source)
    ∙ ap (λ (t : List Str). normal source ∷ t)
        (split-dash (normal host) _ (normal-Lacks host)
          ∙ ap (λ (t : List Str). normal host ∷ t)
              (split-dash (normal uri) _ (normal-Lacks uri)
                ∙ ap (λ (t : List Str). normal uri ∷ t) (split_whole b'-' method h)))

-- On an HTTP request the breaker of an endpoint whose method holds no dash does not panic: it
-- configures the command <command name>-<host of the request> under the key made of that host, the
-- normalised URI and the method, and passes the call to hystrix under that command.
pub circuit_breaker-command_name :
    (hystrix_do : HystrixDo) (source host uri method : Str) (cfg : CommandConfig) (next : Endpoint)
    (r : HttpRequest) (w : World)
    → Lacks b'-' method
    → let cmd = dash (command_name source host uri method) r.host in
      circuit_breaker hystrix_do (command_name source host uri method) cfg next (http r) w
      ≡ finish (
          hystrix_do cmd
            (next (http r))
            (config_cmd cmd (endpoint_key r.host (normal uri) method) cfg w))
unfolding circuit_breaker
circuit_breaker-command_name hystrix_do source host uri method cfg next r w h =
    rw (split-command_name source host uri method h)
