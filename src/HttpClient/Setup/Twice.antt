-- ===== src/HttpClient/Setup/Twice.antt =====
-- client/http/client.go: a SetupClient after another.
use tiki.Base.{◌≡◌, ap, ℕ, arith, List, Str, Result, ok, err, panic}
use tiki.Middleware.Vectors.{Registerer, IsRegistry, MetricState, init_hystrix_metrics}
use tiki.Middleware.Vectors.Registered.{init_twice}
use tiki.Go.Maps.{Map}
use tiki.HttpClient.Setting.{EndpointSetting}
use tiki.HttpClient.Setup.{Globals, setup_globals, Process, set_up, setup_client}

abbrev metrics_of : (R : Registerer) → MetricState R → Result (Process R) → MetricState R
metrics_of R m (ok q) = q.metrics
metrics_of R m (err e) = m
metrics_of R m panic = m

-- A SetupClient that returned has set up the metrics.
set_up-metrics :
    (R : Registerer) (r : Result (MetricState R)) (rest : MetricState R → Result Globals)
    (q : Process R)
    → set_up R r rest ≡ ok q
    → r ≡ ok q.metrics
set_up-metrics R (ok m) rest q h = go (rest m) h
  where
    go :
        (g : Result Globals)
        → (elim g as (λ x. Result (Process R)) [
          | ok g ↦ ok (record { globals = g; metrics = m })
          | err e ↦ err e
          | panic ↦ panic
        ])
          ≡ ok q
        → ok m ≡ ok q.metrics
    go (ok g) h = ap (λ p. ok (metrics_of R m p)) h
    go (err e) h = ground arith
    go panic h = ground arith
set_up-metrics R (err e) rest q h = ground arith
set_up-metrics R panic rest q h = ground arith

-- In a process in which SetupClient has returned once, a second SetupClient panics, whatever it is
-- called with: the vectors of the metrics are registered already.
pub setup_twice :
    (R : Registerer) (def_buckets : List ℕ) (read_file : Str → Result Str)
    (unmarshal : Str → Result (Map (List EndpointSetting)))
    (source path info source' path' info' : Str) (p q : Process R)
    → IsRegistry R
    → setup_client R def_buckets read_file unmarshal source path info p ≡ ok q
    → setup_client R def_buckets read_file unmarshal source' path' info' q ≡ panic
unfolding setup_client
setup_twice R def_buckets read_file unmarshal source path info source' path' info' p q law first =
    ap (λ r. set_up R r (λ m. setup_globals read_file unmarshal source' path' info' q.globals))
      (init_twice R def_buckets p.metrics q.metrics law
        (set_up-metrics R (init_hystrix_metrics R def_buckets p.metrics) _ q first))
