-- ===== src/Naming/Dial.antt =====
-- client/grpc/client.go: the options of a connection to a gRPC service.
use tiki.Base.{List, [], ◌∷◌, Option, Str, codes, str_eq, if◌then◌else◌}
use tiki.App.{ConsulConfig, ServiceDiscoveryCfg}

-- naming.Resolver: newConsulResolver of a configuration, or newDirectResolver of an address.
pub data Resolver : Type 0 where
  consul_resolver : Option ConsulConfig → Resolver
  direct_resolver : Str → Resolver

-- The interceptors of the client.
pub data ClientInterceptor : Type 0 where
  opentracing : ClientInterceptor
  prometheus : ClientInterceptor
  logrus : ClientInterceptor

pub data DialOption : Type 0 where
  insecure : DialOption
  round_robin : Resolver → DialOption
  stream_interceptor : List ClientInterceptor → DialOption
  unary_interceptor : List ClientInterceptor → DialOption

unfoldable pub resolver_of : Str → ServiceDiscoveryCfg → Resolver
resolver_of address cfg =
    if str_eq cfg.type (codes "consul") then consul_resolver cfg.consul else direct_resolver address

-- DialOptions.
unfoldable pub dial_options : Str → ServiceDiscoveryCfg → List DialOption
unfolding resolver_of
dial_options address cfg =
    insecure
    ∷ round_robin (resolver_of address cfg)
    ∷ stream_interceptor (opentracing ∷ prometheus ∷ logrus ∷ [])
    ∷ unary_interceptor (opentracing ∷ prometheus ∷ logrus ∷ [])
    ∷ []
