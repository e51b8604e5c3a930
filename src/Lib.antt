-- ===== src/Lib.antt =====
-- This library models tiki, a Go toolkit for services: an HTTP client with circuit breaking,
-- client-side load balancing and metrics; service discovery and naming by consul; the registration
-- of a service; a gRPC server; and the application that sets all of these up.
--
-- The parts, and how they interact. client/http/client.go keeps one DefaultClient per host, with a
-- map from <method>-<uri> to an endpoint client (HttpClient.Client: get_endpoint_client,
-- create_by_default_cfg, create_endpoint_client, new_client_with_sd, client_do_raw). Endpoint
-- clients are shared by pointer: a pointer is a position in a heap that only grows. The sections
-- that hold the mutex are functions, and an interleaving is a list of them. Settings come from
-- client/http/setting_provider.go (HttpClient.Setting). The variables of the package and
-- SetupClient are HttpClient.Setup; HttpClient.Setup.Effective joins the file of settings with the
-- endpoint clients that are made of it (HttpClient.Client.Settings). client/http/endpoint.go is
-- the client of one endpoint (HttpClient.Endpoint: do_raw, do_call, resolve_host, wrap, factory,
-- close), with the settings of its HTTP client in HttpClient.Endpoint.Transport.
-- HttpClient.Endpoint.Direct is its endpointer without service discovery, of
-- client/sd/endpointer/endpointer.go. Its names are in HttpClient.Names. A call marshals its
-- parameter, resolves an instance and sends the request through the middlewares: circuit breaker,
-- metrics, tracing, panic guard, HTTP. An endpoint is a function from a request and the world of
-- the middlewares to a reply and a world (Middleware.Defs); a panic is a reply.
-- client/http/middleware/circuit_break.go is Middleware.Circuit: configed and cmdMap are maps of
-- the world. cleanup.go, metrics.go and tracing.go are Middleware.Cleanup, Middleware.Metrics and
-- Middleware.Tracing, and hystrix_metrics.go is Middleware.Collector (the collector of a command)
-- and Middleware.Vectors (its vectors and their registration). client/http/lb/lb.go is Lb:
-- Lb.Weight has the weights that tags give, Lb.Select the selection with its roulette wheel as the
-- specification, Lb.Share the share of each address among the draws, and Lb.Draws the cases
-- without a draw. client/sd/instancer/cache.go is Instancer.Cache, each call at once, and
-- Instancer.Cache.Locked, the calls under the mutex as a step relation whose sends wait for the
-- channels. consul_instancer.go is Instancer.Entries (filter, addresses, tag map) and
-- Instancer.Loop (the loop over what consul answers). parseSDCfg of client/http/client.go, the
-- consul text of app/app.go and the tests of client/sd/endpointer/endpointer.go are
-- HttpClient.SdConfig. HttpClient.Discovered is a client with service discovery: the end of
-- NewConsulEndpointer, the instancer with the channel of the go-kit endpointer
-- (Instancer.Loop.Channels), and the factory and closers that this calls.
-- client/grpc/consul_naming.go is Naming, whose messages are the updates that the instancer gives
-- its listener, and Naming.Watched joins the two; Naming.Channel is the watcher with the goroutine
-- of the instancer, the channel between them, Next and Close, as a step relation whose steps come
-- in any order; client/grpc/direct_naming.go is Naming.Direct, a step relation too,
-- client/grpc/client.go is Naming.Dial, with Resolve of both resolvers in Naming.Dialled, and
-- App.Reached joins an application that registers with the clients that look for it, by gRPC and
-- (App.Reached.Called) by HTTP. sd/init.go, sd/consul.go, utils/utils.go and the call in
-- app/app.go are Registration. app/app.go with config/config.go and tracing/init.go is App:
-- init_config, new and the setters; App.Start is Start as its events in order, with the deferred
-- calls; App.Health is healthcheck/healthcheck.go. grpc/server.go is GrpcServer, logging/logger.go
-- and logging/hook.go are Logging, and Example has example/services/str/impl/impl.go,
-- example/services/math/svc/math.go and example/svcdef/string.pb.validate.go. Go has what the
-- program uses of the Go library: maps as association lists in the order of iteration, strings,
-- strconv and sort.
--
-- Numbers and bounds. Strings are lists of bytes. An int has 64 bits: Atoi refuses what is out of
-- range. Weights and their sums are natural numbers without a bound. The wait of the instancer is
-- a 64-bit pattern that is doubled modulo 2^64. itoa recurses on fuel, one more than the number,
-- which has fewer digits than that. The loop of Reverse has one more than the length of the text
-- as its fuel, and ends at half of that; without fuel it gives an error. An int32 is its 32-bit
-- pattern. All other loops are structural recursion.
--
-- Parameters. rand.Intn, hystrix.Do and hystrix.GetCircuit, endpoint.Chain of go-kit, the HTTP
-- transport, http.NewRequest, the JSON and yaml codecs, the file system, consul's answers, the
-- network interfaces, Duration.Seconds, viper, jaeger, the listeners, grpc.NewServer, the run
-- group, fmt.Sprintf of a value, path.Base, runtime.Caller and strings.ToUpper are arguments of
-- the definitions that use them. The prometheus registry (Middleware.Vectors.IsRegistry), the mux
-- of net/http (App.Made.IsMux), the gRPC interceptors (GrpcServer.Served.IsDocumented), go-kit's
-- endpointer (HttpClient.Discovered.IsEndpointer) and what consul lists of a registration
-- (App.Reached.IsCatalog) are records whose documented behaviour is named.
--
-- Not modelled. What a logger writes; latencies; contexts of HTTP calls; the transport's settings;
-- errors that the members of the run group return; the programs that only call libraries; and the
-- generated validators without rules. A float64 count of hystrix is the int that the code makes of
-- it. The text of an example message is the list of its runes.
pub mod Base
pub mod Go
pub mod Logging
pub mod Lb
pub mod Middleware
pub mod HttpClient
pub mod Instancer
pub mod Naming
pub mod Registration
pub mod GrpcServer
pub mod App
pub mod Example
