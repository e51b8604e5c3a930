-- ===== src/Middleware/Collector/Tests.antt =====
-- The theorems on the collector, at one command.
use tiki.Base.{All, ◌≡◌, ◌∷◌, [], codes, str_eq, pos, negsuc}
use tiki.Middleware.Vectors.{Vector, labels, make_vectors}
use tiki.Middleware.Collector.Labelled.{all_vectors, IsLabelled, updates, make_vectors-IsLabelled}
use tiki.Middleware.Collector.{
  init_counters, CmdCollector, MetricResult, inc, timeouts, get_label_values, update,
}
use tiki.Middleware.Collector.Counts.{count, count-update}
use tiki.Middleware.Collector.Labels.{labelled}

abbrev hc : CmdCollector
hc = labelled (codes "app") (codes "svc") (codes "/u") (codes "GET") (codes "10.0.0.1:80")

abbrev result : MetricResult
result = record {
  attempts = pos 3;
  errors = pos 2;
  successes = pos 1;
  failures = pos 0;
  rejects = pos 0;
  short_circuits = pos 0;
  timeouts = pos 2;
  fallback_successes = pos 0;
  fallback_failures = pos 0;
  context_canceled = negsuc 0;
  context_deadline_exceeded = pos 0;
  total_duration = pos 5;
  run_duration = pos 4;
  concurrency_in_use = 0;
}

count-update_example :
    count timeouts (get_label_values (codes "ip") hc) (
      update (λ d. 0) (codes "ip") hc result (inc timeouts (get_label_values (codes "ip") hc) ∷ []))
    ≡ 3
unfolding get_label_values str_eq
count-update_example =
    count-update (λ d. 0) (codes "ip") hc result
      (inc timeouts (get_label_values (codes "ip") hc) ∷ []) timeouts
      (get_label_values (codes "ip") hc)

make_vectors-IsLabelled_example :
    All (λ (v : Vector). v.labels ≡ labels) (all_vectors (make_vectors (1 ∷ [])))
    × All
        (IsLabelled (codes "ip") hc)
        (updates (λ d. 0) (codes "ip") hc (result ∷ []) (init_counters (codes "ip") hc []))
make_vectors-IsLabelled_example =
    make_vectors-IsLabelled (1 ∷ []) (λ d. 0) (codes "ip") hc (result ∷ [])
