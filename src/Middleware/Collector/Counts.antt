-- ===== src/Middleware/Collector/Counts.antt =====
-- client/http/middleware/hystrix_metrics.go: which counter an update raises, and by how much.
use tiki.Base.{
  ℕ, zero, suc, ◌+◌, ◌≡◌, ap, ◌∙◌, Bool, true, false, ◌&&◌, List, [], ◌∷◌, arith, Str, str_eq, ◌==◌,
  if◌then◌else◌, ℤ, pos, negsuc,
}
use tiki.Middleware.Collector.{
  Series, attempts, errors, successes, failures, rejects, short_circuits, timeouts,
  fallback_successes, fallback_failures, context_canceled, context_deadline_exceeded, Sample, touch,
  inc, set_total_duration, observe_run_duration, observe_concurrency, CmdCollector, MetricResult,
  get_label_values, call_n_times, increment, call_all, calls, update, times,
}

abbrev number : Series → ℕ
number attempts = 0
number errors = 1
number successes = 2
number failures = 3
number rejects = 4
number short_circuits = 5
number timeouts = 6
number fallback_successes = 7
number fallback_failures = 8
number context_canceled = 9
number context_deadline_exceeded = 10

abbrev pub labels_eq : List Str → List Str → Bool
labels_eq [] [] = true
labels_eq [] (b ∷ m) = false
labels_eq (a ∷ l) [] = false
labels_eq (a ∷ l) (b ∷ m) = str_eq a b && labels_eq l m

abbrev pub is_inc : Series → List Str → Sample → Bool
is_inc s ls (inc t ms) = (number t == number s) && labels_eq ms ls
is_inc s ls (touch t ms) = false
is_inc s ls (set_total_duration ms x) = false
is_inc s ls (observe_run_duration ms x) = false
is_inc s ls (observe_concurrency ms x) = false

-- The value of the counter of this vector with these label values.
abbrev pub count : Series → List Str → List Sample → ℕ
count s ls [] = 0
count s ls (x ∷ log) = (if is_inc s ls x then 1 else 0) + count s ls log

-- A negative count raises nothing.
abbrev pub to_nat : ℤ → ℕ
to_nat (pos n) = n
to_nat (negsuc n) = 0

-- The field of the result that belongs to the vector.
abbrev pub amount : MetricResult → Series → ℕ
amount r attempts = to_nat r.attempts
amount r errors = to_nat r.errors
amount r successes = to_nat r.successes
amount r failures = to_nat r.failures
amount r rejects = to_nat r.rejects
amount r short_circuits = to_nat r.short_circuits
amount r timeouts = to_nat r.timeouts
amount r fallback_successes = to_nat r.fallback_successes
amount r fallback_failures = to_nat r.fallback_failures
amount r context_canceled = to_nat r.context_canceled
amount r context_deadline_exceeded = to_nat r.context_deadline_exceeded

module _ (ip : Str) (hc : CmdCollector) (s : Series) (ls : List Str) where
  abbrev raised : ℕ → Series → ℕ
  raised n t =
      if number t == number s then (if labels_eq (get_label_values ip hc) ls then n else 0) else 0

  count-times :
      (n : ℕ) (t : Series) (log : List Sample)
      → count s ls (times n (increment ip hc t) log) ≡ count s ls log + raised n t
  unfolding increment
  count-times zero t log = ground arith
  count-times (suc n) t log = ground (arith, count-times n t (increment ip hc t log))

  count-call :
      (n : ℤ) (t : Series) (log : List Sample)
      → count s ls (call_n_times n (increment ip hc t) log) ≡ count s ls log + raised (to_nat n) t
  unfolding call_n_times
  count-call (pos n) t log = count-times n t log
  count-call (negsuc n) t log = ground arith

  abbrev raised_all : List (ℤ × Series) → ℕ
  raised_all [] = 0
  raised_all ((n, t) ∷ rest) = raised (to_nat n) t + raised_all rest

  count-call_all :
      (calls : List (ℤ × Series)) (log : List Sample)
      → count s ls (call_all ip hc calls log) ≡ count s ls log + raised_all calls
  unfolding call_all
  count-call_all [] log = omega arith
  count-call_all ((n, t) ∷ rest) log =
      omega
        (arith, count-call_all rest (call_n_times n (increment ip hc t) log), count-call n t log)

raised_all-calls :
    (ip : Str) (hc : CmdCollector) (ls : List Str) (r : MetricResult) (s : Series)
    → raised_all ip hc s ls (calls r)
      ≡ (if labels_eq (get_label_values ip hc) ls then amount r s else 0)
raised_all-calls ip hc ls r attempts = ground arith
raised_all-calls ip hc ls r errors = ground arith
raised_all-calls ip hc ls r successes = ground arith
raised_all-calls ip hc ls r failures = ground arith
raised_all-calls ip hc ls r rejects = ground arith
raised_all-calls ip hc ls r short_circuits = ground arith
raised_all-calls ip hc ls r timeouts = ground arith
raised_all-calls ip hc ls r fallback_successes = ground arith
raised_all-calls ip hc ls r fallback_failures = ground arith
raised_all-calls ip hc ls r context_canceled = ground arith
raised_all-calls ip hc ls r context_deadline_exceeded = ground arith

drop_zeros : (n : ℕ) → 0 + (0 + (0 + n)) ≡ n
drop_zeros n = omega arith

-- An update raises the counter of each vector, at the label values of the collector, by its own
-- field of the result, where a negative number counts as 0; and no counter at other label values.
pub count-update :
    (seconds : ℤ → ℕ) (ip : Str) (hc : CmdCollector) (r : MetricResult) (log : List Sample)
    (s : Series) (ls : List Str)
    → count s ls (update seconds ip hc r log)
      ≡ count s ls log + (if labels_eq (get_label_values ip hc) ls then amount r s else 0)
unfolding update
count-update seconds ip hc r log s ls =
    drop_zeros _
    ∙ count-call_all ip hc s ls (calls r) log
    ∙ ap (λ n. count s ls log + n) (raised_all-calls ip hc ls r s)
