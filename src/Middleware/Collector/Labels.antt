-- ===== src/Middleware/Collector/Labels.antt =====
-- client/http/middleware/hystrix_metrics.go: what the collector reads from a command's name.
use tiki.Base.{◌≡◌, ap, ◌∙◌, List, ◌∷◌, Str, codes, ok, append_assoc}
use tiki.Go.Strings.{split}
use tiki.Go.Strings.Laws.{Lacks, split_whole}
use tiki.Middleware.Circuit.{dash}
use tiki.Middleware.Collector.{CmdCollector, Sample, collector}
use tiki.HttpClient.Names.{normal, command_name, normal-Lacks, split-dash}

-- The collector with these parts.
abbrev pub labelled : Str → Str → Str → Str → Str → CmdCollector
labelled src tgt uri method addr = record {
  command_name = dash method uri;
  src = src;
  tgt = tgt;
  uri = uri;
  addr = addr;
  method = method;
}

dash-dash : (a b c : Str) → dash (dash a b) c ≡ dash a (dash b c)
dash-dash a b c = append_assoc a (b'-' ∷ b) (b'-' ∷ c)

-- Split with an address behind, a command name gives its four parts and the parts of the address.
split-command_name_addr :
    (source host uri method addr : Str)
    → Lacks b'-' method
    → split (dash (command_name source host uri method) addr) (codes "-")
      ≡ normal source ∷ normal host ∷ normal uri ∷ method ∷ split addr (codes "-")
unfolding command_name
split-command_name_addr source host uri method addr h =
    ap (λ (t : Str). split t (codes "-"))
      (dash-dash (normal source) _ addr
        ∙ ap (dash (normal source)) (
            dash-dash (normal host) _ addr
            ∙ ap (dash (normal host)) (dash-dash (normal uri) method addr)))
    ∙ split-dash (normal source) _ (normal-Lacks source)
    ∙ ap (λ (t : List Str). normal source ∷ t)
        (split-dash (normal host) _ (normal-Lacks host)
          ∙ ap (λ (t : List Str). normal host ∷ t)
              (split-dash (normal uri) _ (normal-Lacks uri)
                ∙ ap (λ (t : List Str). normal uri ∷ t) (split-dash method addr h)))

-- For the command that the circuit breaker makes for an endpoint and an address, the collector's
-- labels are the normalised source, host and URI, the method, and the address as it is if it holds
-- no dash; of an address with a dash only what stands before the first dash is left. The method
-- holds no dash.
pub collector-command_name :
    (ip source host uri method addr : Str) (log : List Sample)
    → Lacks b'-' method
    → (Lacks b'-' addr
        → (collector ip (dash (command_name source host uri method) addr) log).0
          ≡ ok (labelled (normal source) (normal host) (normal uri) method addr))
      × ((first rest : Str)
          → Lacks b'-' first
          → addr ≡ dash first rest
          → (collector ip (dash (command_name source host uri method) addr) log).0
            ≡ ok (labelled (normal source) (normal host) (normal uri) method first))
unfolding collector
collector-command_name ip source host uri method addr log h = (
  λ whole. rw (split-command_name_addr source host uri method addr h, split_whole b'-' addr whole),
  λ first rest plain e.
      rw (split-command_name_addr source host uri method addr h)
        (rw (e, split-dash first rest plain)),
)
