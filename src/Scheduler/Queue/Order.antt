-- ===== src/Scheduler/Queue/Order.antt =====
-- The order in which a queue hands its items out: the lanes one after the other, each first in,
-- first out.
use mathlib.Core.List.{append-nil, append_assoc}
use llm_platform.Common.{
  ℕ, zero, suc, ◌+◌, ◌≤◌, ◌≡◌, refl, sym, ◌∙◌, ◌⊎◌, inl, inr, Bool, true, false, ◌||◌, Bool-cases,
  none, some, List, [], ◌∷◌, ◌++◌, arith, length, length-append, take, drop, leb, if◌then◌else◌,
  add64,
}
use llm_platform.Common.Int.{ℤ, eqb_ℤ, pos_part}
use llm_platform.Inference.{Priority, priority_normal, priority_high, priority_critical}
use llm_platform.Scheduler.Queue.{
  Item, ModelQueue, depth, append_lane, enqueue, pop, drain_loop, drain,
}

pub data Lane : Type 0 where
  high_lane normal_lane low_lane : Lane

abbrev pub lane : ModelQueue → Lane → List Item
lane q high_lane = q.high
lane q normal_lane = q.normal
lane q low_lane = q.low

abbrev pub lane_of : Priority → Lane
lane_of p =
    if eqb_ℤ p priority_critical || eqb_ℤ p priority_high
    then high_lane
    else if eqb_ℤ p priority_normal
    then normal_lane
    else low_lane

abbrev pub same_lane : Lane → Lane → Bool
same_lane high_lane high_lane = true
same_lane normal_lane normal_lane = true
same_lane low_lane low_lane = true
same_lane _ _ = false

-- What is waiting, in the order in which it will go out.
abbrev pub contents : ModelQueue → List Item
contents q = q.high ++ (q.normal ++ q.low)

pub length-contents : (q : ModelQueue) → length (contents q) ≡ depth q
unfolding depth
length-contents q =
    omega (arith, length-append q.high (q.normal ++ q.low), length-append q.normal q.low)

-- The fields that the loop of `Drain` leaves alone.
pub record SameCounters (q r : ModelQueue) : Type 0 where
  pub max_depth : r.max_depth ≡ q.max_depth
  pub enqueued : r.enqueued ≡ q.enqueued
  pub dropped : r.dropped ≡ q.dropped
  pub dispatched : r.dispatched ≡ q.dispatched

abbrev pub Pops : ModelQueue → Type 0
Pops q =
    ((pop q ≡ none) × (contents q ≡ []))
    ⊎ ((x : Item) × (r : ModelQueue) × (pop q ≡ some (x, r))
        × (contents q ≡ x ∷ contents r)
        × SameCounters q r)

pub pop-Pops : (q : ModelQueue) → Pops q
unfolding pop
pop-Pops q = go q.high q.normal q.low refl refl refl
  where
    go : (h n l : List Item) → q.high ≡ h → q.normal ≡ n → q.low ≡ l → Pops q
    go (x ∷ h) n l eh en el =
        inr (x, record q { high = h }, ground arith, ground arith, ground arith)
    go [] (x ∷ n) l eh en el =
        inr (x, record q { normal = n }, ground arith, ground arith, ground arith)
    go [] [] (x ∷ l) eh en el =
        inr (x, record q { low = l }, ground arith, ground arith, ground arith)
    go [] [] [] eh en el = inl (ground arith, ground arith)

pub record Drained (k : ℕ) (q : ModelQueue) (out : List Item) (r : ModelQueue × List Item)
    : Type 0 where
  pub items : r.1 ≡ out ++ take k (contents q)
  pub left : contents r.0 ≡ drop k (contents q)
  pub same : SameCounters q r.0

SameCounters-refl : (q : ModelQueue) → SameCounters q q
SameCounters-refl q = ground arith

SameCounters-trans : {q r s : ModelQueue} → SameCounters q r → SameCounters r s → SameCounters q s
SameCounters-trans h k = ground arith

drain_loop-Drained :
    (k : ℕ) (q : ModelQueue) (out : List Item) → Drained k q out (drain_loop k q out)
unfolding drain_loop
drain_loop-Drained zero q out = record {
  items = sym (append-nil out);
  left = refl;
  same = SameCounters-refl q;
}
drain_loop-Drained (suc k) q out = elim (pop-Pops q) [
  | inl (e, c) ↦
      rw (e, drain_loop)
        (record {
          items = rw c (sym (append-nil out));
          left = rw c refl;
          same = SameCounters-refl q;
        })
  | inr (x, r, e, c, s) ↦
      let ih = drain_loop-Drained k r (out ++ x ∷ []) in
      rw (e, drain_loop)
        (record {
          items = rw c (ih.items ∙ append_assoc out (x ∷ []) (take k (contents r)));
          left = rw c ih.left;
          same = SameCounters-trans s ih.same;
        })
]

pub drain-take :
    (q : ModelQueue) (n : ℤ)
    → ((drain q n).1 ≡ take (pos_part n) (contents q))
      × (contents (drain q n).0 ≡ drop (pos_part n) (contents q))
      × ((drain q n).0.dispatched ≡ add64 q.dispatched (length (drain q n).1))
      × ((drain q n).0.enqueued ≡ q.enqueued)
      × ((drain q n).0.dropped ≡ q.dropped)
      × ((drain q n).0.max_depth ≡ q.max_depth)
unfolding drain
drain-take q n =
    let d = drain_loop-Drained (pos_part n) q [] in
    (d.items, d.left, rw d.same.dispatched refl, d.same.enqueued, d.same.dropped, d.same.max_depth)

pub append_lane-lane :
    (q : ModelQueue) (item : Item) (l : Lane)
    → lane (append_lane q item) l
      ≡ (if same_lane l (lane_of item.req.priority) then lane q l ++ item ∷ [] else lane q l)
unfolding append_lane
append_lane-lane q item high_lane = ground arith
append_lane-lane q item normal_lane = ground arith
append_lane-lane q item low_lane = ground arith

pub append_lane-SameCounters : (q : ModelQueue) (item : Item) → SameCounters q (append_lane q item)
unfolding append_lane
append_lane-SameCounters q item = ground arith

pub enqueue-lane :
    (q : ModelQueue) (item : Item)
    → ((q.max_depth ≤ depth q)
        × (enqueue q item ≡ (record q { dropped = add64 q.dropped 1 }, false)))
      ⊎ ((depth q + 1 ≤ q.max_depth)
          × ((enqueue q item).1 ≡ true)
          × ((l : Lane)
              → lane (enqueue q item).0 l ≡ (
                  if same_lane l (lane_of item.req.priority)
                  then lane q l ++ item ∷ []
                  else lane q l))
          × ((enqueue q item).0.enqueued ≡ add64 q.enqueued 1)
          × ((enqueue q item).0.dropped ≡ q.dropped)
          × ((enqueue q item).0.dispatched ≡ q.dispatched)
          × ((enqueue q item).0.max_depth ≡ q.max_depth))
unfolding enqueue
enqueue-lane q item = elim (Bool-cases (leb q.max_depth (depth q))) [
  | inl full ↦ inl (ground arith, rw full refl)
  | inr room ↦
      let same = append_lane-SameCounters q item in
      rw room (
        inr (
          ground arith,
          refl,
          append_lane-lane q item,
          refl,
          same.dropped,
          same.dispatched,
          same.max_depth,
        ))
]

pub enqueue-max_depth : (q : ModelQueue) (item : Item) → (enqueue q item).0.max_depth ≡ q.max_depth
enqueue-max_depth q item = elim (enqueue-lane q item) [
  | inl (_, e) ↦ rw e refl
  | inr (_, _, _, _, _, _, e) ↦ e
]
