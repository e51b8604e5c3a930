-- ===== src/HttpClient/Setup/Tests.antt =====
-- The theorems on SetupClient, at a registry that is a list.
use tiki.Base.{◌≡◌, ap, [], ◌∷◌, str_eq, codes, ok, List, Str, Option, none, pos}
use tiki.Go.Maps.{Map}
use tiki.Middleware.Circuit.{default_cb_config}
use tiki.HttpClient.Setting.{EndpointSetting}
use tiki.HttpClient.Setup.{Process, initial, setup_globals, set_up, setup_client}
use tiki.HttpClient.Client.{default_setting}
use tiki.Middleware.Vectors.Registered.{init-registers}
use tiki.Middleware.Vectors.{MetricState, init_hystrix_metrics}
use tiki.Middleware.Vectors.Tests.{listed, listed-IsRegistry, none_taken}

abbrev holder : Map (List EndpointSetting)
holder = (codes "svc", default_setting (codes "/u") (codes "GET") ∷ []) ∷ []

abbrev process : Process listed
process = record { globals = initial; metrics = record { default_registry = []; collectors = [] } }

-- The metrics, set up.
abbrev metered : (m : MetricState listed) × (init_hystrix_metrics listed [] process.metrics ≡ ok m)
metered =
    let (m, done, _, _) = init-registers listed [] process.metrics listed-IsRegistry none_taken in
    (m, done)

-- A process that was set up without a file of settings.
abbrev done : Process listed
done = record { globals = record initial { source = codes "app" }; metrics = metered.0 }

set_up_once :
    setup_client listed [] (λ path. ok []) (λ text. ok holder) (codes "app") [] [] process ≡ ok done
unfolding setup_client setup_globals str_eq
set_up_once =
    ap
      (λ r.
        set_up listed r
          (λ m. setup_globals (λ path. ok []) (λ text. ok holder) (codes "app") [] [] initial))
      metered.1

-- The second setting of the key leaves out the timeout.
abbrev zeroed : EndpointSetting
zeroed = record {
  uri = codes "/u";
  method = codes "GET";
  cb_config = record default_cb_config { timeout = pos 0 };
}

abbrev twice : Map (List EndpointSetting)
twice = (codes "svc", default_setting (codes "/u") (codes "GET") ∷ zeroed ∷ []) ∷ []

abbrev connect : Str → Str → Option Str
connect address datacenter = none
