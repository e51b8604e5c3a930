-- ===== src/Middleware/Collector.antt =====
-- client/http/middleware/hystrix_metrics.go: the counters that hystrix feeds, by the parts of a
-- command's name. The calls of the prometheus library are logged, latest first. A number that is not
-- an int is its 64-bit pattern, and `seconds` is Duration.Seconds.
pub mod Counts
pub mod Labels
pub mod Labelled
pub mod Tests
use tiki.Base.{
  ℕ, zero, suc, ◌≡◌, Bool, true, false, List, [], ◌∷◌, ◌++◌, Option, Str, codes, Result, ok, panic,
  ℤ, pos, negsuc,
}
use tiki.Go.Strings.{split}
use tiki.Middleware.Circuit.{dash}

-- The counter vectors of PrometheusCollector.
pub data Series : Type 0 where
  attempts : Series
  errors : Series
  successes : Series
  failures : Series
  rejects : Series
  short_circuits : Series
  timeouts : Series
  fallback_successes : Series
  fallback_failures : Series
  context_canceled : Series
  context_deadline_exceeded : Series

-- A call on the vector with these label values.
pub data Sample : Type 0 where
  touch : Series → List Str → Sample
  inc : Series → List Str → Sample
  set_total_duration : List Str → ℕ → Sample
  observe_run_duration : List Str → ℕ → Sample
  observe_concurrency : List Str → ℕ → Sample

pub record CmdCollector : Type 0 where
  pub command_name : Str
  pub src : Str
  pub tgt : Str
  pub uri : Str
  pub addr : Str
  pub method : Str

-- metricCollector.MetricResult. The counts are what `int(n)` makes of its floating-point numbers,
-- and the durations are nanoseconds.
pub record MetricResult : Type 0 where
  pub attempts : ℤ
  pub errors : ℤ
  pub successes : ℤ
  pub failures : ℤ
  pub rejects : ℤ
  pub short_circuits : ℤ
  pub timeouts : ℤ
  pub fallback_successes : ℤ
  pub fallback_failures : ℤ
  pub context_canceled : ℤ
  pub context_deadline_exceeded : ℤ
  pub total_duration : ℤ
  pub run_duration : ℤ
  pub concurrency_in_use : ℕ

-- `ip` is the variable of the package.
unfoldable pub get_label_values : Str → CmdCollector → List Str
get_label_values ip hc = hc.command_name ∷ hc.method ∷ hc.uri ∷ hc.src ∷ hc.tgt ∷ ip ∷ hc.addr ∷ []

-- Neither of the counters for a cancelled context is among them.
unfoldable pub init_counters : Str → CmdCollector → List Sample → List Sample
unfolding get_label_values
init_counters ip hc log =
    let ls = get_label_values ip hc in
    set_total_duration ls 0
    ∷ touch fallback_failures ls
    ∷ touch fallback_successes ls
    ∷ touch timeouts ls
    ∷ touch short_circuits ls
    ∷ touch rejects ls
    ∷ touch failures ls
    ∷ touch successes ls
    ∷ touch errors ls
    ∷ touch attempts ls
    ∷ log

abbrev from_strs : List Str → Result CmdCollector
from_strs (src ∷ host ∷ uri ∷ method ∷ addr ∷ rest) = ok (record {
  command_name = dash method uri;
  src = src;
  tgt = host;
  uri = uri;
  addr = addr;
  method = method;
})
from_strs strs = panic

abbrev with_counters : Str → Result CmdCollector → List Sample → Result CmdCollector × List Sample
with_counters ip (ok hc) log = (ok hc, init_counters ip hc log)
with_counters ip r log = (r, log)

-- Collector: an index that is out of range panics.
unfoldable pub collector : Str → Str → List Sample → Result CmdCollector × List Sample
unfolding init_counters
collector ip name log = with_counters ip (from_strs (split name (codes "-"))) log

-- `for i := 0; i < int(n); i++ { f() }`
abbrev times : ℕ → (List Sample → List Sample) → List Sample → List Sample
times zero f log = log
times (suc n) f log = times n f (f log)

unfoldable pub call_n_times : ℤ → (List Sample → List Sample) → List Sample → List Sample
call_n_times (pos n) f log = times n f log
call_n_times (negsuc n) f log = log

-- IncrementAttempts, IncrementErrors and so on.
unfoldable pub increment : Str → CmdCollector → Series → List Sample → List Sample
increment ip hc s log = inc s (get_label_values ip hc) ∷ log

-- The calls of callNTimes in Update, one after another.
unfoldable pub call_all : Str → CmdCollector → List (ℤ × Series) → List Sample → List Sample
unfolding call_n_times increment
call_all ip hc [] log = log
call_all ip hc ((n, s) ∷ rest) log = call_all ip hc rest (call_n_times n (increment ip hc s) log)

abbrev pub calls : MetricResult → List (ℤ × Series)
calls r =
    (r.attempts, attempts)
    ∷ (r.errors, errors)
    ∷ (r.successes, successes)
    ∷ (r.failures, failures)
    ∷ (r.rejects, rejects)
    ∷ (r.short_circuits, short_circuits)
    ∷ (r.timeouts, timeouts)
    ∷ (r.fallback_successes, fallback_successes)
    ∷ (r.fallback_failures, fallback_failures)
    ∷ (r.context_canceled, context_canceled)
    ∷ (r.context_deadline_exceeded, context_deadline_exceeded)
    ∷ []

unfoldable pub update : (ℤ → ℕ) → Str → CmdCollector → MetricResult → List Sample → List Sample
unfolding call_all
update seconds ip hc r log =
    let ls = get_label_values ip hc in
    observe_concurrency ls r.concurrency_in_use
    ∷ observe_run_duration ls (seconds r.run_duration)
    ∷ set_total_duration ls (seconds r.total_duration)
    ∷ call_all ip hc (calls r) log
