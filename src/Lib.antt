-- ===== src/Lib.antt =====
-- FerroTunnel: a reverse tunnel. A client connects to the server, proves itself with a token, and
-- registers a tunnel id; the server then opens streams to the client over that one connection. The
-- connection carries length-delimited frames. This library models the core of the server, of the client
-- and of the wire protocol, and proves how the parts behave and work together.
--
-- The parts, and the files that model them:
--   Frame           ferrotunnel-protocol/src/frame.rs and constants.rs: the frames, one constructor
--                   each, and the drain order of the priorities.
--   Validation      ferrotunnel-protocol/src/validation.rs: the checks of a decoded frame, one
--                   function each, in the order of the source.
--   Codec           ferrotunnel-protocol/src/codec.rs: `encode`, `decode`, the allocation budget of
--                   control frames, `decode_batch` (Codec/Batch), and the zero-copy scan (Codec/Scan).
--                   The buffer is the list of its bytes.
--   BatchedSender   ferrotunnel-core/src/transport/batched_sender.rs: a round of the task that
--                   collects, sorts, encodes and writes the frames of a connection.
--   Session         ferrotunnel-core/src/tunnel/session.rs: `SessionStore`, two maps that describe
--                   the same sessions; Session/Directory states what clients of it may rely on.
--                   Session/Sharded is `ShardedSessionStore`, with its invariant in Sharded/Placed, and
--                   Session/Backend the choice between the two stores.
--   Multiplexer     ferrotunnel-core/src/stream/multiplexer.rs: the streams of a connection, the
--                   cache of the last sender, and the frames that are routed through them.
--   VirtualStream   the same file: a stream as its user sees it, its polls as steps, and the pool that
--                   its read buffer comes from (VirtualStream/Pooled).
--   WireSend        the same file: the bounded send to the wire, `send_prioritized_frame`.
--   Auth            ferrotunnel-core/src/auth.rs: the comparison and the format of tokens.
--   RateLimitedStream  ferrotunnel-core/src/stream/rate_limited.rs: reads that are paid for.
--   Limits          ferrotunnel-core/src/limits.rs, rate_limit.rs: the checked configuration, the
--                   quotas, and the throttle loop.
--   Server          ferrotunnel-core/src/tunnel/server.rs: a TCP connection, from its handshake
--                   (Server/Handshake) through its message loop to its end, over the session store
--                   and the multiplexer; a QUIC connection (Server/Quic); the builder and the accept
--                   loops (Server/Accept), over ResourceLimits and Reconnect.
--   Client          ferrotunnel-core/src/tunnel/client.rs: the tunnel client; Client/Agreement puts its
--                   handshake and the server's together, with the codecs of both between them
--                   (Client/Wire, which also has `read_initial_handshake_frame` of
--                   ferrotunnel-core/src/tunnel/common.rs).
--   Transport       ferrotunnel-core/src/transport/mod.rs, tls.rs and quic.rs: the configurations, when a
--                   peer's certificate is checked (Transport/Policy), and the split of an address.
--   Facade          ferrotunnel/src/config.rs, client.rs and server.rs: the configurations of an embedded
--                   client or server, their checks, and the builders.
--   ResourceLimits  ferrotunnel-core/src/resource_limits.rs: the permits of sessions and streams.
--   Reconnect       ferrotunnel-core/src/reconnect.rs and tunnel/accept_backoff.rs: backoffs, and the
--                   states of a reconnecting client.
--   CircuitBreaker  ferrotunnel-plugin/src/builtin/circuit_breaker.rs: the plugin's state machine.
--   Plugin          ferrotunnel-plugin/src/traits.rs, registry.rs and builtin/auth.rs, rate_limit.rs: the
--                   registry that runs the hooks, and two of its plugins.
--   Ingress         ferrotunnel-http/src/ingress.rs: the hop-by-hop headers (Ingress/Headers), the limits
--                   on bodies (Ingress/Bodies), the name a request is routed by (Ingress/Host), and
--                   the way of a request to the tunnel (Ingress/Request).
--   IngressAccept   ferrotunnel-http/src/tcp_ingress.rs and the accept loop of ingress.rs: permits,
--                   backoff, and the tunnel that a TCP connection is served over.
--   ConnectionPool  ferrotunnel-http/src/pool.rs: the idle and the shared connections to the local service.
--   Pools           ferrotunnel-core/src/stream/pool.rs and bytes_pool.rs: objects and buffers for reuse.
--   Base            what the others share: tests, lists, results, machine words, and the interface
--                   of a concurrent map with an implementation that meets its laws.
-- The Checks module of each part runs it on concrete values and applies its theorems there.
--
-- How the program is modelled. State is passed explicitly: an operation takes the state and returns
-- its result and the state behind it, errors included. Numbers are natural numbers; where the source
-- wraps, saturates or checks, that is written out, and `usize` has 64 bits. What other packages do
-- is an argument: bincode (Codec/External), the maps of dashmap (Base/Maps), tokio's writer
-- (BatchedSender/Sink), its semaphore (ResourceLimits), the buffers of bytes (Pools) and the header
-- maps of http (Ingress), with the laws of their documentation, each met by an instance in a Checks
-- or a Sample module; whether a sender of hyper is closed or ready (ConnectionPool); the hash of a
-- tunnel id, the floats and the random draw of the backoffs, files and certificates, and what
-- plugins' hooks do. The answers of kanal channels, timers, clocks and the governor limiter come
-- with each call and are arbitrary.
--
-- Loops. `decode_batch` and the zero-copy scan take the buffer's length and one as fuel,
-- `write_all_vectored` the number of bytes and one, `send_prioritized_frame` the milliseconds to its
-- deadline and one, `throttle_data` the number of bytes and one. Each is enough, since every round
-- that goes on takes a byte, or moves the clock on by a millisecond. The ladder of the allocation
-- limit doubles 25 times at most, past the largest frame.
--
-- What is not modelled. A call on the session store, on the multiplexer or on the circuit breaker is
-- one step: interleavings within a call are left out, and so are the memory orderings of atomics.
-- The HTTP/3 ingress, the proxy to the local service and what the HTTP ingress exchanges over a
-- tunnel's stream are left out. Sockets, quinn, hyper, the dashboard, metrics, logging and the
-- command line are calls of other packages. Secrecy in time of the token comparison is not a
-- property of values and is not stated.
pub mod Base
pub mod Frame
pub mod Validation
pub mod Codec
pub mod Session
pub mod Multiplexer
pub mod BatchedSender
pub mod VirtualStream
pub mod WireSend
pub mod Auth
pub mod Limits
pub mod RateLimitedStream
pub mod CircuitBreaker
pub mod Server
pub mod Plugin
pub mod ResourceLimits
pub mod Reconnect
pub mod Pools
pub mod Transport
pub mod Client
pub mod Facade
pub mod Ingress
pub mod IngressAccept
pub mod ConnectionPool
