-- ===== src/Lib.antt =====
-- Verification library of rabbitmq-kit-go: the logic of the client library, without its network.
--
-- The program publishes and consumes events over RabbitMQ. An `EventBus` (eventbus.go, publish.go)
-- owns a client (internal/broker/client.go), a publisher (publisher.go) and consumers (consumer.go).
-- A consumer's workers take deliveries, ask the circuit breaker, call the handler of the message's
-- type (router/), and on an error publish a copy with the next retry count (retry.go) or reject
-- the delivery, which RabbitMQ then routes to a dead letter queue (config/, router/dlqMessage.go).
--
-- Prelude            numbers, texts, Go's int with its wrap-around, Go's maps, `sort.Strings`
-- Amqp               the data of amqp091-go that the source reads or writes
-- CircuitBreaker     internal/circuitbreaker: `new`, `allow_request`, `record_success`,
--                    `record_failure`, `reset`; below it the invariant, the abstract machine,
--                    the trail of notifications and the timing, and the texts (Text)
-- Errors             errors/errors.go: the error values; below it the chain of causes
-- Config             config/: the configuration, its options, `validate`, `with_dlx`
-- Router             router/: handlers by type, message context, DLQ message
-- Broker.Retry       internal/broker/retry.go: `should_retry`, `retry`
-- Broker.Consumer    internal/broker/consumer.go: `handle_delivery` is the body of the worker loop;
--                    in Workers the head of `consume`, and workers whose turns interleave (Interleave,
--                    Runs, Alone), until the channel of deliveries is closed and they leave
--                    (Ending, Budget, Manned, Rounds)
-- Broker.Publisher   internal/broker/publisher.go: `publish` and its steps, `ensure_confirms_setup`,
--                    `confirm`; below it the channels, `publish_batch_pipeline` (Pipeline), what
--                    the interleaved steps keep (Sound, Confirm, Steps), the reset (Setup), and
--                    publishing without confirms (Plain); Tags has the tags next to the broker's
--                    numbers, and Races the orders of steps in which these part; Processor has the goroutine `processConfirmations`: a
--                    stream until its end (Settles, Drain), the setup that replaces the goroutine
--                    (Handover), and its turns among those of the publishers (Turns, Turned,
--                    Order)
-- Broker.Client      internal/broker/client.go: `connect`, `setup_topology`, `close`; below it the
--                    topology as a list of declarations (Plan), where it sends dead letters
--                    (DeadLetters), what stays open (Connect), the reconnect loop as a step relation
--                    (Reconnect, below it the waits that nothing ends, dropped signals, and the loop
--                    after `close`), with the watchers of replaced connections (Watchers) and
--                    against the clock (Delay), and the alarms of the broker (Blocked)
-- EventBus           event.go, publish.go: `create_default_publishing`, `publish_batch`; below it
--                    the accounts of the two modes (Batch, Pipeline), fail-fast (FailFast), and
--                    the modes against each other (Agree)
-- EventBus.Requeue   eventbus.go: `requeue_from_dlq`, `requeue_all_from_dlq`; below it
--                    the headers of a requeued message (Message), what a call takes and settles
--                    (Laws), and the attempts that follow (Attempts)
-- EventBus.Bus       eventbus.go: `new_event_bus`, handlers, `start_consume`, `close`, over the
--                    client, the publisher and the workers; below it making and closing a bus
--                    (Lifecycle), its handlers and consumers (Consuming), and a publish after a
--                    reconnect (Recovery)
-- Direct             direct/: `declare_topology`; below it the same as a list of declarations, next
--                    to the client's own setup (Plan)
-- Logger             internal/logger/default_logger.go: `format_fields`, the text of a log line
--
-- State. A method that changes its receiver returns the new record. What runs under a mutex is one
-- step. Calls of `time.Now`, UUIDs and acknowledgement results are arguments. Code that is not in
-- the repository (amqp091-go, encoding/json, user handlers) is a parameter: a function on an
-- abstract state. What a user's handler tells the broker of its delivery, and what it writes into the
-- header table, are such parameters too. Header tables and argument maps are shared by Go's copies;
-- where a property depends on that, the sharing is in the model (`retry` returns the delivery with its
-- table as it stands afterwards, and argument maps are references into a heap).
--
-- Numbers. Go's int is `ℤ` with the wrap-around of `++` written out; durations are ints of
-- nanoseconds, and `time.Time.Sub` saturates. A float64 is a signed fraction over a power of two,
-- or not finite; its conversion to int is that of amd64 where Go leaves it open.
--
-- Fuel. `attempts` follows one message through its retries: its theorem gives the exact number
-- with any fuel above the retries that are left. `decimal` has fuel one above the number, which
-- has fewer digits than that.
-- `finish` runs one worker alone: six turns bring it from a delivery to the head of its loop.
--
-- Goroutines. A worker of a consumer moves by turns, each up to its next use of what the workers
-- share; a run is a list of turns in the scheduler's order. What the publisher does between two locks
-- is one step; the steps of the others come in between, as a list of steps or as a function. The
-- processor of confirmations moves by turns too, with the choice of its `select` given. That
-- `Publish` takes a tag, by an atomic operation, and puts its message among those that wait, under the
-- lock, is one step too, so that no other goroutine comes between. A step that panics or waits for
-- ever is a value of `Go`. Two AMQP channels are taken to have different addresses.
--
-- Time. The reconnect loop against the clock takes the times of the signals, the times at which the
-- client is closed and the answers of the connects; a connect takes no time of its own.
--
-- Not modelled: log lines, but for those of the alarms and the text of a line; what the package
-- `log` writes around it; the construction and the empty `Close` of the default logger; and the test
-- container, which has no logic of its own. `BindJSON`, `Ack` and `Nack` of the message context, and
-- the bus's `Reconnect`, only pass a call on.
pub mod Amqp
pub mod Broker
pub mod CircuitBreaker
pub mod Config
pub mod Direct
pub mod Errors
pub mod EventBus
pub mod Logger
pub mod Prelude
pub mod Router
