-- ===== src/Scheduler/Registry/Isolation.antt =====
-- The queues of different models do not touch one another.
use llm_platform.Common.{
  ◌≡◌, refl, sym, ap, subst, ◌∙◌, inl, inr, String, none, some, arith, Bool-cases, Option-cases,
  if◌then◌else◌, ◌==◌,
}
use llm_platform.Common.Int.{ℤ}
use llm_platform.Common.Dict.{get, put, get-put, get-put_self}
use llm_platform.Scheduler.Queue.{Item, ModelQueue, new_model_queue, enqueue, drain}
use llm_platform.Scheduler.Queue.Order.{enqueue-max_depth, drain-take}
use llm_platform.Scheduler.Queue.Counts.{
  IsValid, new_model_queue-IsValid, new_model_queue-max_depth, enqueue-IsValid, drain-IsValid,
}
use llm_platform.Scheduler.Registry.{Registry, queue, enqueue_at, drain_at}

-- The queue that a model has, or the empty one that it gets when it is first named.
unfoldable pub queue_of : Registry → String → ModelQueue
queue_of r id = elim (get r.queues id) [ some q ↦ q | none ↦ new_model_queue r.max_depth ]

-- Naming a model makes no difference to its queue.
pub queue-queue_of : (r : Registry) (id : String) → queue_of (queue r id).0 id ≡ queue_of r id
unfolding queue queue_of
queue-queue_of r id = elim (Option-cases (get r.queues id)) [
  | inl e ↦
      rw (e, queue, queue_of) (rw (get-put_self r.queues id (new_model_queue r.max_depth)) refl)
  | inr (q, e) ↦ rw (e, queue, queue_of) (rw e refl)
]

record Shares (r : Registry) (id : String) : Type 0 where
  same : (queue r id).1 ≡ queue_of r id
  limit : (queue r id).0.max_depth ≡ r.max_depth
  others :
      (v : ModelQueue) (other : String)
      → get (put (queue r id).0.queues id v) other
        ≡ (if id == other then some v else get r.queues other)

queue-Shares : (r : Registry) (id : String) → Shares r id
unfolding queue queue_of
queue-Shares r id = elim (Option-cases (get r.queues id)) [
  | inl e ↦ record {
    same = rw (e, queue, queue_of) refl;
    limit = rw (e, queue) refl;
    others = λ v other. rw (e, queue) (simp get-put (ground arith));
  }
  | inr (q, e) ↦ record {
    same = rw (e, queue, queue_of) refl;
    limit = rw (e, queue) refl;
    others = λ v other. rw (e, queue) (get-put r.queues id other v);
  }
]

-- `Enqueue` on the queue of one model does to that queue what it does to a queue alone, an empty one
-- being made if there was none, and leaves the queue of every other model as it was.
pub enqueue_at-isolated :
    (r : Registry) (id other : String) (item : Item)
    → ((enqueue_at r id item).1 ≡ (enqueue (queue_of r id) item).1)
      × (get (enqueue_at r id item).0.queues other
          ≡ (if id == other then some (enqueue (queue_of r id) item).0 else get r.queues other))
      × ((enqueue_at r id item).0.max_depth ≡ r.max_depth)
unfolding enqueue_at
enqueue_at-isolated r id other item =
    let s = queue-Shares r id in
    (ap (λ q. (enqueue q item).1) s.same, s.others _ other ∙ rw s.same refl, s.limit)

-- The same of `Drain`.
pub drain_at-isolated :
    (r : Registry) (id other : String) (n : ℤ)
    → ((drain_at r id n).1 ≡ (drain (queue_of r id) n).1)
      × (get (drain_at r id n).0.queues other
          ≡ (if id == other then some (drain (queue_of r id) n).0 else get r.queues other))
      × ((drain_at r id n).0.max_depth ≡ r.max_depth)
unfolding drain_at
drain_at-isolated r id other n =
    let s = queue-Shares r id in
    (ap (λ q. (drain q n).1) s.same, s.others _ other ∙ rw s.same refl, s.limit)

-- Every queue of the registry is one that the program has, with the registry's limit.
pub record AllValid (r : Registry) : Type 0 where
  pub at :
      (id : String) (q : ModelQueue)
      → get r.queues id ≡ some q
      → IsValid q × (q.max_depth ≡ r.max_depth)

queue_of-IsValid :
    (r : Registry) (id : String)
    → AllValid r
    → IsValid (queue_of r id) × ((queue_of r id).max_depth ≡ r.max_depth)
unfolding queue_of
queue_of-IsValid r id v = elim (Option-cases (get r.queues id)) [
  | inl e ↦
      rw (e, queue_of) (new_model_queue-IsValid r.max_depth, new_model_queue-max_depth r.max_depth)
  | inr (q, e) ↦ rw (e, queue_of) (v.at id q e)
]

AllValid-put :
    (r r' : Registry) (id : String) (q : ModelQueue)
    → AllValid r
    → IsValid q × (q.max_depth ≡ r.max_depth)
    → ((other : String)
        → get r'.queues other ≡ (if id == other then some q else get r.queues other))
    → r'.max_depth ≡ r.max_depth
    → AllValid r'
AllValid-put r r' id q v w others limit = record {
  at = λ other p e. elim (Bool-cases (id == other)) [
    | inl hit ↦
        let both : some q ≡ some p = sym (rw hit at (others other)) ∙ e in
        let same : q ≡ p = cc both in
        (subst IsValid same w.0, sym (ap (λ t. t.max_depth) same) ∙ w.1 ∙ sym limit)
    | inr miss ↦
        let (valid, l) = v.at other p (sym (rw miss at (others other)) ∙ e) in
        (valid, l ∙ sym limit)
  ];
}

drain-max_depth : (q : ModelQueue) (n : ℤ) → (drain q n).0.max_depth ≡ q.max_depth
drain-max_depth q n = (drain-take q n).5

-- No call on any model's queue makes any of the queues exceed its limit or miscount.
pub calls-AllValid :
    (r : Registry) (id : String) (item : Item) (n : ℤ)
    → AllValid r
    → AllValid (enqueue_at r id item).0 × AllValid (drain_at r id n).0
calls-AllValid r id item n v =
    let (valid, limit) = queue_of-IsValid r id v in
    let q = queue_of r id in
    (
      AllValid-put r _ id (enqueue q item).0 v
          (enqueue-IsValid q item valid, enqueue-max_depth q item ∙ limit)
          (λ other. (enqueue_at-isolated r id other item).1) (enqueue_at-isolated r id id item).2,
      AllValid-put r _ id (drain q n).0 v (drain-IsValid q n valid, drain-max_depth q n ∙ limit)
          (λ other. (drain_at-isolated r id other n).1) (drain_at-isolated r id id n).2,
    )
