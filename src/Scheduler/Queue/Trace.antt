-- ===== src/Scheduler/Queue/Trace.antt =====
-- A queue under any sequence of calls, which is what concurrent callers make of it.
use native.Mathlib.Nat.{zero-mul}
use llm_platform.Common.{
  ℕ, zero, suc, ◌+◌, ◌*◌, ◌%◌, ◌^◌, ◌≡◌, ◌∙◌, List, [], ◌∷◌, ◌++◌, arith, drop, drop-drop,
  replicate, if◌then◌else◌,
}
use llm_platform.Common.Int.{ℤ, pos_part}
use llm_platform.Scheduler.Queue.{Item, ModelQueue, new_model_queue, enqueue, drain}
use llm_platform.Scheduler.Queue.Order.{Lane, lane, drain-take, contents}
use llm_platform.Scheduler.Queue.Counts.{IsValid, of_lane}

pub data Call : Type 0 where
  offers : Item → Call
  drains : ℤ → Call

pub record Run : Type 0 where
  pub queue : ModelQueue
  pub accepted : List Item
  pub handed_out : List Item
  pub calls : ℕ

-- One call, and what the callers have seen so far.
unfoldable pub step : Run → Call → Run
step r (offers item) =
    let (q, accepted) = enqueue r.queue item in
    record r {
      queue = q;
      accepted = if accepted then r.accepted ++ item ∷ [] else r.accepted;
      calls = r.calls + 1;
    }
step r (drains n) =
    let (q, items) = drain r.queue n in record r { queue = q; handed_out = r.handed_out ++ items }

unfoldable pub run : Run → List Call → Run
run r [] = r
run r (c ∷ cs) = run (step r c) cs

unfoldable pub start : ℕ → Run
start max_depth = record {
  queue = new_model_queue max_depth;
  accepted = [];
  handed_out = [];
  calls = 0;
}

-- In every lane, what was handed out before what waits is what was accepted; the counters count the
-- calls of `Enqueue`; the limit never changes.
pub record Inv (max_depth : ℕ) (r : Run) : Type 0 where
  pub valid : IsValid r.queue
  pub limit : r.queue.max_depth ≡ max_depth
  pub fifo : (l : Lane) → of_lane l r.handed_out ++ lane r.queue l ≡ of_lane l r.accepted
  pub counted : (r.queue.enqueued + r.queue.dropped) % 2 ^ 64 ≡ r.calls % 2 ^ 64

-- With no new arrivals, k calls of `Drain n` leave what stands behind the first k * n items, so
-- every waiting item is handed out after finitely many calls, if n is positive.
pub drains-contents :
    (k : ℕ) (n : ℤ) (r : Run)
    → contents (run r (replicate k (drains n))).queue ≡ drop (k * pos_part n) (contents r.queue)
unfolding run step
drains-contents zero n r = rw (zero-mul (pos_part n))
drains-contents (suc k) n r =
    let e : suc k * pos_part n ≡ pos_part n + k * pos_part n = omega arith in
    rw e (
      drains-contents k n (step r (drains n))
      ∙ rw ((drain-take r.queue n).1) (drop-drop (k * pos_part n) (pos_part n) (contents r.queue)))
