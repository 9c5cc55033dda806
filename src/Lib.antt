-- ===== src/Lib.antt =====
-- The payment service, a Go program: it takes a payment through a fraud check, a hold of the
-- customer's funds, an authorization and a capture by a payment processor, and the booking of the
-- capture in the ledger, and keeps its position in a database so that a crash resumes where it
-- stopped.
--
-- The parts, and where their models are.
--   Payment          the tables payments, instruments and fx_quotes of migrations/, and the aggregate
--                    `Payment` of internal/saga/saga.go; HttpApi has the tables that it adds.
--                    Payment/Table reads and updates rows by primary key; Payment/Keys is about
--                    that key.
--   Fraud            internal/fraudclient/fraudclient.go: `Screen`, with its policy when the fraud
--                    service does not answer.
--   Accounts         internal/accountclient/accountclient.go: `Hold`, `Capture` and `Release`, with
--                    the request ids that make them repeatable.
--   Psp              internal/psp/psp.go: the port `PaymentProcessor`. Psp/Retry is the decorator of
--                    retries and circuit breaker, Psp/Adapters the card and wallet adapters with
--                    `doAuthorize` and `doPost`, Psp/Factory `NewFactory` and `For`.
--   Saga             internal/saga/saga.go: the engine. Saga/World is its state, Saga/Persist its
--                    persistence helpers with `failAndCompensate`, Saga/Steps its five steps,
--                    Saga/Drive `Advance`, `CompleteFromGateway` and `ResumeAfterStepUp`, Saga/Sweep
--                    the sweepers that cmd/server/main.go runs on timers.
--   Idempotency      internal/idempotency/idempotency.go: `Begin`, `Complete` and `Purge`, statement by
--                    statement. Idempotency/Rows finds and updates rows by key, Idempotency/Lease is
--                    about claims that exclude each other, Idempotency/Replay about what `Begin`
--                    answers.
--   Saga/Requested   `WriteRequestedEvent`, for the handler that creates payments.
--   Consumer         internal/consumer/consumer.go: `handle`, `handleWithRetry`, `deadLetter` and
--                    `Run`, in Consumer/Run, which hand the completions of wallet payments to the
--                    engine. Consumer/Settles is about when a record counts as settled,
--                    Consumer/Batch about a batch, Consumer/Trace about what stands behind a mark,
--                    Consumer/Commits, Consumer/Committed and Consumer/Passed about the offsets that
--                    are committed, Consumer/Reports about the engine under it.
--   Bus              internal/pubsub/pubsub.go: `Subscribe` and `Publish`. Bus/Order is about what a
--                    subscriber gets to see. The engine's model keeps a list of what it publishes.
--   Events           internal/events: the envelope with `Frame` and `Unframe` byte by byte,
--                    Events/Registry `SchemaID`, Events/Validator `Validate`, with their caches.
--                    Events/RoundTrip is about the wire format, Events/Verdicts about the validator.
--   Outbox           internal/outbox/outbox.go: the relay, one `drainOnce` after the other; the writer
--                    is in Saga/Persist. Outbox/Sent is about what has been published when a row is
--                    marked, Outbox/Drained about the end of the backlog.
--   HttpApi          internal/httpapi: HttpApi/StepUp is stepup.go; HttpApi/Create `createPayment`
--                    with `executeCreate` in HttpApi/Create/Execute, HttpApi/Resume `resumePayment`,
--                    HttpApi/Quotes `fxQuote`, HttpApi/Reads, HttpApi/Stream and HttpApi/Health the
--                    handlers that read. HttpApi/Created and HttpApi/Gate are about what a creation
--                    does, HttpApi/Once about its repetition, HttpApi/Secured about the second factor.
--   Gateway          internal/gatewayauth/gatewayauth.go: the middleware, and in Gateway/Keys `New`.
--                    Gateway/Identity is about the headers that the middleware passes on, with
--                    Gateway/Header, Gateway/Factor and Gateway/Secured about a creation behind it.
--   Reconcile        internal/saga/reconcile.go: `Run` with `bookedReferences`. Reconcile/Drift,
--                    Reconcile/Ledger and Reconcile/Clean are about its counts, Reconcile/Engine about
--                    the engine under it.
--   Platform         internal/platform/config.go, and of cmd/server/main.go `splitCSV` in
--                    Platform/Lists and `selfProbe` in Platform/Probe.
-- Saga/Spec says what the engine promises, as a step relation on the world for each one on whose
-- account it moves; Saga/Invariant is the
-- invariant that its moves keep; Saga/Refine has each operation as a run of that relation;
-- Saga/Life and Saga/Settled are about any sequence of operations; Saga/Compensate and Saga/Gaps
-- are about what single operations do, also where a comment has it otherwise.
--
-- The engine calls the fraud check, the account service and the processors, and its state is the
-- database, the outbox, the updates published, the clock, and the history of all exchanges with
-- other services. A function of the model has the name of the Go function in snake case, with the
-- world as its last argument; `act_on_x` and `x_loaded` are the parts of a function after a reply
-- or a load. A query or a transaction may fail at any point: that is a function of the history,
-- and so is every answer of a service, so an answer may be a different one each time. A
-- transaction applies all its statements or none. The clock stands still during an operation and
-- may be set to anything between two.
--
-- Not the program's, and so arguments: the gRPC stubs, the HTTP client, the JSON encoder and
-- decoder, the JSON schema library, the token library, the circuit breaker, the context, the
-- broker, the uuid library and the database's failures. What is asked of them stands as a
-- hypothesis where it is used: a context ends with one of its two errors, the account service
-- gives uuids for hold ids, the decoder of a body's amount agrees with that of the whole body, a
-- registry answers what it has published or fails, and the Kafka client goes on behind
-- what it has polled, and commits all that it has polled.
--
-- `Advance` is an endless loop. It is given rounds as fuel, `enough_fuel` being six: a round that
-- goes on has moved the payment one step, there are five steps to move, and the last round finds
-- the payment finished. The wait for the schema registry is given the number of its questions as
-- fuel, more than come before the one that is answered. The consumer's loop has no end but that of
-- the process: what is said of it is said after any number of rounds. A uuid is a number; amounts
-- and scores are integers that the program never adds, and the version of a row is taken as
-- unbounded, since it would take 2 ^ 63 updates to wrap. Times are milliseconds. A text is walked
-- as the list of its code points. The texts of errors are those of the program where it writes
-- them.
--
-- Not modelled: two operations that overlap. Operations follow one another, and what happens when
-- a compensation works on a snapshot that another operation has overtaken is in Saga/Compensate
-- alone; the statements of `Begin` and what other requests do between them are in Idempotency, and
-- the drains of the relay skip the rows that another replica holds. Logging is left out, and so are
-- the routing of requests, and the wiring, timers, migrations and shutdown of cmd/server/main.go:
-- they are input and output.
pub mod Prelude
pub mod Payment
pub mod Fraud
pub mod Accounts
pub mod Psp
pub mod Saga
pub mod Idempotency
pub mod Consumer
pub mod Bus
pub mod Events
pub mod Outbox
pub mod HttpApi
pub mod Gateway
pub mod Reconcile
pub mod Platform
