-- ===== src/Lib.antt =====
-- A model of the Go services of this repository: a gateway that authenticates and admits inference
-- requests, a router that picks a model for each, a scheduler that queues and batches them for the
-- model executor, and a control plane with quotas and canary rollouts.
--
-- The parts and their files:
-- - Inference, Execution: the messages of gen/go/inference/v1/inference.go and
--   gen/go/execution/v1/execution.go. Each message has a child module with its `MarshalProto`
--   (`marshal`), the switch of its `UnmarshalProto` (`field`) and `unmarshal`.
-- - Wire: what the encoders and decoders of these files share: appending a field, reading one, the
--   loop over the fields (`decode_loop`), packed doubles (Wire.Packed). The record `Wire` is
--   protowire with its documented laws; Wire.Plain is one that meets them, for the examples.
--   Wire.Fields and Wire.Numbers take one field off an encoded input, Wire.Progress says that every
--   round takes a byte.
-- - Scheduler.Queue, Scheduler.Registry: services/scheduler/internal/queue/queue.go. `enqueue`,
--   `drain`, `depth` and `stats` are the methods of `ModelQueue`; `Queue.Trace` runs any sequence of
--   calls. The mutex makes each method one step.
-- - Scheduler.Histogram, Scheduler.Batcher: services/scheduler/internal/batcher/batcher.go. A
--   `World` is a batcher, its queue, the shared metrics, the log and the replies sent; `round` is one
--   turn of `loop`.
-- - Scheduler.Service: `SchedulerService` of services/scheduler/cmd/main.go; what a waiting caller
--   sees first (a reply, its deadline, its cancellation) is an argument of `schedule`.
-- - Router.Breaker, Router.Policies, Router.Limiter: services/router/internal/policy/policy.go.
-- - Router.Health, Router.Scorer: services/router/internal/scoring/scorer.go.
-- - Router.Candidates: of services/router/cmd/main.go, the weights of `canaryState` and the loop of
--   `Route` that asks the breakers.
-- - Router.Server: `RouterServer`, `Route`, `execPool.client` and a tick of `reloadLoop` of
--   services/router/cmd/main.go. `route` is cut where the source returns early: `limited`,
--   `dispatch`, `execute_on`, `answer`. Router.Store: what services/router/internal/repo/store.go
--   makes of the rows.
-- - Router.Middleware: the interceptors of services/router/internal/middleware/middleware.go; an
--   outcome of a handler is what it returns or a panic.
-- - Gateway.Admission, Gateway.Auth: services/api-gateway/internal/admission/admission.go and
--   services/api-gateway/internal/auth/auth.go.
-- - Gateway.Server: `Gateway`, `handleInference` and `handleSSE` of services/api-gateway/cmd/main.go,
--   cut where the handler returns early: `authenticated_or_not`, `parsed_or_not`, `admitted_or_not`.
-- - ControlPlane.Quota, ControlPlane.Rollout: services/control-plane/internal/quota/quota.go and
--   services/control-plane/internal/rollout/rollout.go.
-- - ControlPlane.Registry: services/control-plane/internal/registry/registry.go. `Statements` is the
--   database, with an operation for each SQL statement; Registry.Laws says what SQL promises of them,
--   Registry.Table is a database that keeps this, for the examples. ControlPlane.Server: the routes
--   for models of services/control-plane/cmd/main.go.
-- - Sort, Ring and Percentile: the insertion sort, the ring of samples and the p99 that the batcher
--   and the scorer both write out by hand.
-- - Common: association lists for Go maps, signed integers with the wrap-around of int64, and
--   `Float64`, the operations of float64 with the order laws of IEEE 754, which is a parameter
--   throughout; `Common.Fixed` is one that meets the laws, on which the examples run.
--
-- The scorer takes the depth of a model's queue and the weights of the rollouts, the batcher drains
-- the queue of its model, and the router's breakers and health tracker see the outcome of each
-- request; the weights that the rollouts make meet the scorer in ControlPlane.Rollout.Weights.
--
-- The gateway hands the router the request that its admission made; `Route` asks the breakers, the
-- limiter, the policies and the scorer in turn, and tells the breaker and the health tracker how the
-- executor did.
--
-- Outside of the model, as parameters: the database's answers, JSON, protowire, the gRPC client and
-- the executor's replies, the clock, random ids, `strings.Fields`, `time.Format` and
-- `time.Duration.Seconds`. The loops are recursion on lists and, in `Drain`, on the number of items
-- asked for. The decoders recur on fuel, the number of bytes of their input, which is enough because
-- every round takes one at least. Counters that the program adds to with `atomic` wrap at 64 bits; the
-- positions in the rings do not wrap.
--
-- Not modelled: the control plane's routes for rollouts and quotas, the endpoints of
-- services/*/cmd/main.go for administration and statistics, the gRPC descriptors, the SQL statements,
-- and the executor in Python.
mod Common
pub mod Sort
pub mod Wire
pub mod Ring
pub mod Percentile
pub mod Inference
pub mod Execution
pub mod Scheduler
pub mod Router
pub mod Gateway
pub mod ControlPlane
