-- ===== src/HttpClient/Setup/Effective.antt =====
-- client/http/client.go and client/http/setting_provider.go: the settings that the endpoint clients have
-- after SetupClient has read a file.
use tiki.Base.{Bool, Option, Str}
use tiki.HttpClient.SdConfig.{parse_sd_cfg}
use tiki.HttpClient.Client.{Config}

-- What NewClientWithSD is called with after SetupClient was given this service discovery.
abbrev pub config_after : Str → (Str → Str → Option Str) → Str → Bool → Config
config_after info new_consul_client host use_service_discovery = record {
  host = host;
  use_service_discovery = use_service_discovery;
  discovery = record {
    service_discovery_cfg = parse_sd_cfg info;
    new_consul_client = new_consul_client;
  };
}
