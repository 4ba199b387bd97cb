-- ===== src/Lib.antt =====
-- A verification library for DUH-RPC in Go (module github.com/duh-rpc/duh.go).
--
-- The program is an RPC convention over plain HTTP: a server side that reads requests and writes
-- replies, error replies, raw bodies and structured streams, a client side that sends requests and
-- sorts what comes back, and helpers that retry calls and page through results. The files here
-- model its parts and state what makes each of them correct.
--
-- The parts, and where they are modelled:
--   * stream/stream.go: Frames.antt (`write_frame` is WriteFrame, `read_frame` ReadFrame), laws
--     in Frames/.
--   * streaming.go, server: Service/StreamStart.antt (the header checks of HandleStream),
--     Streaming/Writer.antt (`send`, `close`, `finish`) and Streaming/Server.antt, where
--     HandleStream and its heartbeat goroutine are a step function under any schedule; laws in
--     Streaming/Invariant, Safety, Reach, Order, Liveness, Carried, Emitted, Failing and Panic.
--   * streaming.go, client: Streaming/Reader.antt (`recv` is Recv), laws in Streaming/Receive and
--     Delivery; both sides meet in Streaming/EndToEnd and, for a handler that fails,
--     Streaming/Failure.
--   * errors.go: Errors.antt (the error values and their texts), Errors/Codes.antt (the codes and
--     CodeText) and Errors/Chain.antt (the interface Error and errors.As).
--   * reader.go: Body.antt (`limit_read` is the Read of LimitReader; bodies and io.Copy), laws in
--     Body/; Errors/Size.antt is bytesToSI; ErrDataLimitExceeded is in Errors.antt and
--     Errors/Chain.antt.
--   * service.go: Media.antt (TrimSuffix, normalizeMediaType and the switches on media types),
--     Service.antt (`reply` is Reply, which calls itself through ReplyWithCode; `reply_error`,
--     `write_content`), Service/ByteStream.antt (HandleBytes and its writer), and
--     Service/Requests.antt (ReadRequest, ReadContent); Service/Total has that Reply ends.
--   * client.go: Responses.antt (the errors of responses) and Client.antt
--     (`handle_error_response`, `do_call` is Do, `do_stream`, `do_bytes`, `do_content`), over the
--     answer of the HTTP client; Client/Arrives, Client/Delivers, Client/Agrees and
--     Client/Refused join it with service.go and streaming.go.
--   * retry/retry.go and policies.go: Retry.antt (`on` is On, `should_retry`,
--     `rate_limit_duration`, `back_off_next`), with float64, the context, timers and random
--     numbers as parameters; laws in Retry/, of which Retry/Paced joins it with service.go and
--     client.go and Retry/Streamed with streaming.go.
--   * pagination.go: Pagination.antt (`next` is Next), and Pagination/Drain for a caller's loop
--     and Pagination/Retried for a page under a policy.
--   * wait.go: Wait.antt (`wait_for_connect`), and Wait/Dials.
--   * tls.go: Tls.antt (`setup_tls` is SetupTLS), Tls/Settings.antt (TLSConfig, and what is
--     called), Tls/SelfSigned.antt (selfCA, selfCert) and Tls/Network.antt (discoverNetwork);
--     rules for its steps in Tls/Ensures, and Tls/Fresh and Tls/Auto for AutoTLS where all that
--     is called works.
--   * log.go: Log.antt (`write`, `close`), over the scanner of Lines.antt, and Log/Pieces.
--   * cmd/duh/main.go: Command.antt (`run_main` is main behind its flags, `process`,
--     `send_request`), Command/Start (`run_command` is main from its arguments on),
--     Command/Documents and Command/Cut.
--   * cmd/demo/main.go: Launch.antt (`launch` and `live` are main, its goroutine and the signals
--     as events), and Launch/Graceful.
--   * demo/service.go, demo/handler.go and demo/client.go: Demo/Store.antt, Demo/Router.antt
--     (`serve_http` is ServeHTTP) and Demo/Client.antt, which Demo/Link.antt joins by a
--     connection; Demo/RoundTrip has what becomes of content from one end to the other,
--     Demo/Events of a stream, and Demo/Leak of one whose handler panics.
--
-- Conventions. A Go string is a list of code points and a byte slice a list of numbers. Go's `error`
-- is one data type, `GoError`, with the sentinels that are compared by identity, the errors that
-- `fmt.Errorf` wraps, and the three types that implement the interface `Error`. A method that
-- changes its receiver returns the new record. Functions of Go's standard library that the program
-- calls and that are not written out here are the fields of the record `Go`; protobuf and JSON
-- encodings are parameters. `write_header` is net/http's WriteHeader for codes of 200 to 999; that of
-- an informational code, and the panic at other codes, is left out.
--
-- Loops and fuel. `bytes_to_si` runs its loop with 64 rounds of fuel, more than the seven that an
-- int64 can need; `itoa` has as many as its number; `Recv` has one more than the bytes that are left,
-- each round takes five at least, and `recv_total` shows that this is enough. `Reply` has
-- the three calls that it can make, a copy of a body one round more than the reads that the body can
-- give. The loops of `On` and `WaitForConnect` have no bound of their own: their fuel is an argument,
-- and the number of attempts is enough for `On`, where there is one, or one round more than the
-- attempts that fail, and a round for each dial for `WaitForConnect`.
--
-- Not modelled: what the commands print and log, the settings of the HTTP clients that client.go
-- makes, the service for the tests (internal/test), generated protobuf code, and the transport:
-- connections, HTTP parsing and time are in the environment of the model.
pub mod Prelude
pub mod Errors
pub mod Frames
pub mod Media
pub mod Body
pub mod Service
pub mod Streaming
pub mod Responses
pub mod Client
pub mod Retry
pub mod Pagination
pub mod Wait
pub mod Tls
pub mod Demo
pub mod Lines
pub mod Log
pub mod Command
pub mod Launch
pub mod Samples
mod Runs
