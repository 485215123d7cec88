-- ===== src/Lib.antt =====
-- AppGate: the two gateways that stand between clients and language-model services.
--
-- `gateway/` is the control-plane gateway. Its `main` starts a TLS server that passes every request
-- on to one upstream; beside it stand a policy engine that fetches its policies from the control
-- plane, a token validator, a rate limiter, an SSRF guard, an audit logger and metrics.
-- `rust-gateway/` is the production gateway. Its `main` puts the state of all parts together and
-- waits for a signal; its server routes a request, chooses an upstream by the path and forwards the
-- request; around it stand circuit breakers, a health checker, a response cache, a token validator,
-- a rate limiter, an audit logger, an SSRF guard and the configuration. In both, the parts share no
-- state but what is said below, and the server calls only the router and the proxy.
--
-- Files and the code they are about:
--   Base             lists, text, maps, machine words, results; std's address classes (Net) and JSON
--                    values (Json); third-party crates as interfaces with their documentation as
--                    laws: Url, Http, Reqwest, Hyper, Jwt (jsonwebtoken), Governor, Moka, Tls
--                    (rustls), Prometheus
--   Gateway.Accept   the server's start and accept loop in gateway/src/server.rs
--   Gateway.Audit    gateway/src/audit.rs
--   Gateway.Jwt      gateway/src/jwt.rs
--   Gateway.Metrics  gateway/src/metrics.rs
--   Gateway.Policy   gateway/src/policy.rs
--   Gateway.Proxy    gateway/src/proxy.rs
--   Gateway.RateLimit   gateway/src/rate_limit.rs
--   Gateway.Server   the request handling of gateway/src/server.rs, and gateway/src/router.rs
--   Gateway.Ssrf     gateway/src/ssrf.rs (SSRFDefense is SsrfDefense)
--   Gateway.Startup  gateway/src/main.rs and gateway/src/config.rs
--   Gateway.Telemetry   gateway/src/telemetry.rs
--   Gateway.Tls      gateway/src/tls.rs
--   RustGateway.Accept           the socket, the accept loop and the drain of
--                                rust-gateway/src/server.rs
--   RustGateway.Audit            rust-gateway/src/audit.rs
--   RustGateway.Cache            rust-gateway/src/cache.rs
--   RustGateway.CircuitBreaker   rust-gateway/src/circuit_breaker.rs; its Automaton is the abstract
--                                breaker: three states, each with what it needs to know
--   RustGateway.Config           rust-gateway/src/config.rs
--   RustGateway.Health           rust-gateway/src/health.rs; its Round is one pass over the table
--   RustGateway.Jwt              rust-gateway/src/jwt.rs
--   RustGateway.Lifecycle        main of rust-gateway/src/main.rs and the server that it spawned,
--                                from the signal to the end, under one clock
--   RustGateway.Metrics          rust-gateway/src/metrics.rs; its Registration the statics
--   RustGateway.Policy           rust-gateway/src/policy.rs
--   RustGateway.Proxy            rust-gateway/src/proxy.rs
--   RustGateway.RateLimit        rust-gateway/src/rate_limit.rs: the check against Redis; its
--                                Service chooses between that and a local limiter, and its
--                                Interleaving is several workers, one command at a time
--   RustGateway.Router           rust-gateway/src/router.rs
--   RustGateway.Server           the request handling of rust-gateway/src/server.rs
--   RustGateway.Ssrf             rust-gateway/src/ssrf.rs
--   RustGateway.Startup          rust-gateway/src/main.rs
--   RustGateway.Telemetry        rust-gateway/src/telemetry.rs, and the tracing of main
--   RustGateway.Tls              rust-gateway/src/tls.rs
-- A definition has the name of the function, method or type it models; a helper beside it is a
-- block, a loop or a match of that function. Child modules hold the proofs, and each component's
-- Tests its runs on concrete data.
--
-- State is passed explicitly: a method with a lock is a function from the state before to the state
-- after. Tasks are sequences of steps, and a theorem about interleavings speaks of every such
-- sequence. Time and the outcomes of requests are arguments. Numbers are unbounded, and a counter
-- of 32 bits wraps where the source's does. Loops are structural but for the drain of the server,
-- which runs on fuel: 302 turns of 100 ms are more than the 30 seconds that it waits; and for the
-- digits of a number, where 20 are enough for 64 bits.
--
-- Third-party code is a parameter: the interfaces of Base, with `HttpLaws`, `JsonwebtokenLaws`,
-- `MokaLaws` and `CounterVecLaws` for what their documentation says, Redis with `RedisLaws`, hyper
-- with `HyperLaws`, reqwest with `ReqwestLaws`, OpenTelemetry, `Url::parse`, the file system and
-- the outcome of `envy::from_env`. Each record of laws has a concrete instance beside the tests.
-- `none` stands for a panic where the source has `.unwrap()`.
--
-- Not modelled: logging; the printing of metrics in gateway/ and the two functions there that only
-- log; rust-gateway/src/tracing.rs, which no file declares; the control plane and the services in
-- Go, which are other programs.
pub mod Base
pub mod Gateway
pub mod RustGateway
