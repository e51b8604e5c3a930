-- ===== src/HttpClient/Endpoint/Transport.antt =====
-- client/http/endpoint.go: the settings of an endpoint's HTTP client. A duration is its 64-bit pattern of
-- nanoseconds.
use tiki.Base.{
  ℕ, ◌-◌, ◌*◌, ◌/◌, ◌%◌, ◌^◌, ◌<◌, ◌≡◌, ap, ◌∙◌, Bool, true, arith, ltb, if◌then◌else◌, ℤ, pos,
  negsuc,
}
use tiki.Middleware.Defs.{CommandConfig}

-- http.Client and its Transport and Dialer.
pub record HttpSettings : Type 0 where
  pub dial_timeout : ℕ
  pub keep_alive : ℕ
  pub max_idle_conns_per_host : ℤ
  pub max_idle_conns : ℤ
  pub tls_handshake_timeout : ℕ
  pub insecure_skip_verify : Bool
  pub timeout : ℕ

-- The pattern of an int.
abbrev pub pattern_of : ℤ → ℕ
pattern_of (pos n) = n % 2 ^ 64
pattern_of (negsuc n) = 2 ^ 64 - 1 - n % 2 ^ 64

-- `time.Duration(n) * time.Millisecond`
abbrev pub milliseconds : ℤ → ℕ
milliseconds n = pattern_of n * 1000000 % 2 ^ 64

-- `d / 2`, which drops the fraction towards 0.
abbrev pub half : ℕ → ℕ
half d = if ltb d (2 ^ 63) then d / 2 else (2 ^ 64 - (2 ^ 64 - d) / 2) % 2 ^ 64

unfoldable pub create_http_client : ℕ → ℤ → HttpSettings
create_http_client timeout max_concurrent = record {
  dial_timeout = half timeout;
  keep_alive = 3600 * 1000000000;
  max_idle_conns_per_host = max_concurrent;
  max_idle_conns = max_concurrent;
  tls_handshake_timeout = timeout;
  insecure_skip_verify = true;
  timeout = timeout;
}

-- The HTTP client that `init` makes of the setting.
unfoldable pub http_settings : CommandConfig → HttpSettings
unfolding create_http_client
http_settings cfg = create_http_client (milliseconds cfg.timeout) cfg.max_concurrent_requests

-- With a timeout of so many milliseconds, as long as they fit a duration, a call ends after them, and
-- half of that is left for connecting.
http_settings_lem :
    (cfg : CommandConfig) (n : ℕ)
    → cfg.timeout ≡ pos n
    → n * 1000000 < 2 ^ 63
    → ((http_settings cfg).timeout ≡ n * 1000000)
      × ((http_settings cfg).dial_timeout ≡ n * 500000)
      × ((http_settings cfg).tls_handshake_timeout ≡ n * 1000000)
unfolding http_settings create_http_client
http_settings_lem cfg n same fits =
    let whole : milliseconds cfg.timeout ≡ n * 1000000 =
      ap milliseconds same ∙ omega (arith, fits) in
    (whole, ap half whole ∙ ground (arith, fits), whole)
