-- ===== src/Scheduler/Service/Accounts.antt =====
-- Every call of `Schedule` is accounted for.
use native.Mathlib.Nat.{zero-add}
use llm_platform.Common.{
  ℕ, ◌+◌, ◌%◌, ◌^◌, ◌≤◌, ◌≡◌, refl, ap, ◌∙◌, String, Bool, true, false, not, Option, none, some,
  List, [], ◌∷◌, arith, inl, inr, Option-cases, if◌then◌else◌, add64, ok, err,
}
use llm_platform.Common.Dict.{get}
use llm_platform.Common.Float.{Float64}
use llm_platform.Inference.{InferenceRequest}
use llm_platform.Scheduler.Queue.{depth}
use llm_platform.Scheduler.Registry.{enqueue_at, queue_depth}
use llm_platform.Scheduler.Service.{
  SchedulerMetrics, SchedulerService, new_scheduler_service, get_batcher, Wakeup, received,
  timed_out, cancelled, wake, schedule, item_of, resource_exhausted, deadline_exceeded, canceled,
  reported, invalid_argument, Answer,
}
use llm_platform.Scheduler.Registry.Isolation.{queue_of, queue-queue_of, enqueue_at-isolated}
use llm_platform.Scheduler.Queue.{Item, ModelQueue, enqueue}
use llm_platform.Scheduler.Queue.Order.{enqueue-lane}
use llm_platform.Scheduler.Batcher.{QueueResult, Failed}

module _ (fl : Float64) (Client Failure : Type 0) where
  -- One call, with what its caller sees.
  pub record Request : Type 0 where
    pub req : InferenceRequest
    pub model_id : String
    pub exec_addr : String
    pub now : ℕ
    pub channel : ℕ
    pub wakeup : Wakeup fl Client Failure

  abbrev pub call :
      SchedulerService fl Client Failure
      → Request
      → SchedulerService fl Client Failure × Answer fl Client Failure
  call s r = schedule fl Client Failure s r.req r.model_id r.exec_addr r.now r.channel r.wakeup

  -- 1 for a call that was cancelled while it waited.
  unfoldable pub was_cancelled : Answer fl Client Failure → ℕ
  was_cancelled (err (canceled id)) = 1
  was_cancelled (err (resource_exhausted id n)) = 0
  was_cancelled (err (deadline_exceeded id)) = 0
  was_cancelled (err (reported e)) = 0
  was_cancelled (err invalid_argument) = 0
  was_cancelled (ok r) = 0

  ended : SchedulerMetrics → ℕ
  ended m = m.dispatched + m.load_shedded + m.errors

  record Counted (m m' : SchedulerMetrics) (answer : Answer fl Client Failure) : Type 0 where
    ended_one : (ended m' + was_cancelled answer) % 2 ^ 64 ≡ (ended m + 1) % 2 ^ 64
    same_enqueued : m'.enqueued ≡ m.enqueued

  received-Counted :
      (s : SchedulerService fl Client Failure) (req : InferenceRequest)
      (r : QueueResult fl Client Failure) (e : Option (Failed fl Client Failure))
      → r.error ≡ e
      → Counted s.s_metrics
          (wake fl Client Failure s req (received r)).0.s_metrics
          (wake fl Client Failure s req (received r)).1
  unfolding wake ended was_cancelled
  received-Counted s req r none e =
      rw (e, wake) (record { ended_one = omega arith; same_enqueued = refl })
  received-Counted s req r (some f) e =
      rw (e, wake) (record { ended_one = omega arith; same_enqueued = refl })

  wake-Counted :
      (s : SchedulerService fl Client Failure) (req : InferenceRequest)
      (w : Wakeup fl Client Failure)
      → Counted s.s_metrics
          (wake fl Client Failure s req w).0.s_metrics
          (wake fl Client Failure s req w).1
  unfolding wake ended was_cancelled
  wake-Counted s req (received r) = received-Counted s req r r.error refl
  wake-Counted s req timed_out = record { ended_one = omega arith; same_enqueued = refl }
  wake-Counted s req cancelled = record { ended_one = omega arith; same_enqueued = refl }

  get_batcher-metrics :
      (s : SchedulerService fl Client Failure) (id addr : String)
      → (get_batcher fl Client Failure s id addr).s_metrics ≡ s.s_metrics
  unfolding get_batcher
  get_batcher-metrics s id addr = elim (Option-cases (get s.batchers id)) [
    | inl e ↦ rw (e, get_batcher) refl
    | inr (b, e) ↦ rw (e, get_batcher) refl
  ]

  shed_or_wake :
      (next : SchedulerService fl Client Failure) (req : InferenceRequest) (id : String) (n : ℕ)
      (w : Wakeup fl Client Failure) (accepted : Bool)
      → let out : SchedulerService fl Client Failure × Answer fl Client Failure =
          if not accepted
          then (
            record next {
              s_metrics = record next.s_metrics {
                load_shedded = add64 next.s_metrics.load_shedded 1;
              };
            },
            err (resource_exhausted id n),
          )
          else wake fl Client Failure next req w in
        Counted next.s_metrics out.0.s_metrics out.1
  unfolding ended was_cancelled
  shed_or_wake next req id n w true = wake-Counted next req w
  shed_or_wake next req id n w false = record { ended_one = omega arith; same_enqueued = refl }

  -- A call counts itself as enqueued, and as exactly one of dispatched, shed and failed, unless it is
  -- cancelled while it waits.
  call-counts :
      (s : SchedulerService fl Client Failure) (r : Request)
      → ((ended (call s r).0.s_metrics + was_cancelled (call s r).1) % 2 ^ 64
          ≡ (ended s.s_metrics + 1) % 2 ^ 64)
        × ((call s r).0.s_metrics.enqueued ≡ add64 s.s_metrics.enqueued 1)
  unfolding schedule ended was_cancelled
  call-counts s r =
      let counted = record s {
        s_metrics = record s.s_metrics { enqueued = add64 s.s_metrics.enqueued 1 };
      } in
      let ready = get_batcher fl Client Failure counted r.model_id r.exec_addr in
      let same = get_batcher-metrics counted r.model_id r.exec_addr in
      let (queues, accepted) =
        enqueue_at ready.queues r.model_id
          (item_of fl Client Failure r.req r.model_id r.now r.channel) in
      let next = record ready { queues = queues } in
      let c =
        shed_or_wake next r.req r.model_id (queue_depth queues r.model_id) r.wakeup accepted in
      (
        c.ended_one ∙ ap (λ m. (ended m + 1) % 2 ^ 64) same,
        c.same_enqueued ∙ ap (λ m. m.enqueued) same,
      )

  -- A sequence of calls, and how many of them were cancelled.
  pub calls : SchedulerService fl Client Failure → List Request → SchedulerService fl Client Failure
  calls s [] = s
  calls s (r ∷ rs) = calls (call s r).0 rs

  pub cancellations : SchedulerService fl Client Failure → List Request → ℕ
  cancellations s [] = 0
  cancellations s (r ∷ rs) = was_cancelled (call s r).1 + cancellations (call s r).0 rs

  IsBalanced : SchedulerMetrics → ℕ → Type 0
  IsBalanced m n = (ended m + n) % 2 ^ 64 ≡ m.enqueued % 2 ^ 64

  calls-IsBalanced :
      (s : SchedulerService fl Client Failure) (rs : List Request) (n : ℕ)
      → IsBalanced s.s_metrics n
      → IsBalanced (calls s rs).s_metrics (n + cancellations s rs)
  unfolding IsBalanced calls cancellations
  calls-IsBalanced s [] n h = let z : n + 0 ≡ n = omega arith in rw z h
  calls-IsBalanced s (r ∷ rs) n h =
      let (one, more) = call-counts s r in
      let e : n + (was_cancelled (call s r).1 + cancellations (call s r).0 rs)
          ≡ n + was_cancelled (call s r).1 + cancellations (call s r).0 rs =
        omega arith in
      rw e (
        calls-IsBalanced (call s r).0 rs (n + was_cancelled (call s r).1)
          (omega (arith, one, more, h)))

  -- After any calls on a new service, the requests that it counts as enqueued are those that it
  -- dispatched, shed or saw fail, and those whose callers went away; the last are in no other count.
  pub calls-accounted :
      (exec_addr : String) (rs : List Request)
      → let s = new_scheduler_service fl Client Failure exec_addr in
        let m = (calls s rs).s_metrics in
        (m.dispatched + m.load_shedded + m.errors + cancellations s rs) % 2 ^ 64
        ≡ m.enqueued % 2 ^ 64
  unfolding new_scheduler_service IsBalanced ended
  calls-accounted exec_addr rs =
      let s = new_scheduler_service fl Client Failure exec_addr in
      rw (zero-add (cancellations s rs)) at (calls-IsBalanced s rs 0 refl)

  get_batcher-queue :
      (s : SchedulerService fl Client Failure) (id addr : String)
      → queue_of (get_batcher fl Client Failure s id addr).queues id ≡ queue_of s.queues id
  unfolding get_batcher
  get_batcher-queue s id addr = elim (Option-cases (get s.batchers id)) [
    | inl e ↦ rw (e, get_batcher) (queue-queue_of s.queues id)
    | inr (b, e) ↦ rw (e, get_batcher) refl
  ]

  full-refuses : (q : ModelQueue) (it : Item) → q.max_depth ≤ depth q → (enqueue q it).1 ≡ false
  full-refuses q it full = elim (enqueue-lane q it) [
    | inl (h, e) ↦ ap (λ o. o.1) e
    | inr rest ↦ absurd (omega (arith, full, rest.0))
  ]

  when_refused :
      (accepted : Bool) (x y : SchedulerService fl Client Failure × Answer fl Client Failure)
      → accepted ≡ false
      → (let out : SchedulerService fl Client Failure × Answer fl Client Failure =
            if not accepted then x else y in
          out)
        ≡ x
  when_refused accepted x y e = rw e refl

  -- A call for a model whose queue is full is refused at once, whatever a waiting caller would see,
  -- and counted as shed.
  pub schedule-full :
      (s : SchedulerService fl Client Failure) (r : Request)
      → (queue_of s.queues r.model_id).max_depth ≤ depth (queue_of s.queues r.model_id)
      → (n : ℕ) × ((call s r).1 ≡ err (resource_exhausted r.model_id n))
        × ((call s r).0.s_metrics.load_shedded ≡ add64 s.s_metrics.load_shedded 1)
  unfolding schedule
  schedule-full s r full =
      let counted = record s {
        s_metrics = record s.s_metrics { enqueued = add64 s.s_metrics.enqueued 1 };
      } in
      let ready = get_batcher fl Client Failure counted r.model_id r.exec_addr in
      let it = item_of fl Client Failure r.req r.model_id r.now r.channel in
      let (queues, accepted) = enqueue_at ready.queues r.model_id it in
      let next = record ready { queues = queues } in
      let refused : accepted ≡ false =
        (enqueue_at-isolated ready.queues r.model_id r.model_id it).0
        ∙ ap (λ q. (enqueue q it).1) (get_batcher-queue counted r.model_id r.exec_addr)
        ∙ full-refuses (queue_of s.queues r.model_id) it full in
      let n = queue_depth queues r.model_id in
      let shed : SchedulerService fl Client Failure = record next {
        s_metrics = record next.s_metrics { load_shedded = add64 next.s_metrics.load_shedded 1 };
      } in
      let out =
        when_refused accepted (shed, err (resource_exhausted r.model_id n))
          (wake fl Client Failure next r.req r.wakeup) refused in
      (
        n,
        ap (λ o. o.1) out,
        ap (λ o. o.0.s_metrics.load_shedded) out
            ∙ ap (λ m. add64 m.load_shedded 1) (get_batcher-metrics counted r.model_id r.exec_addr),
      )
