-- ===== src/Scheduler/Queue/Counts.antt =====
-- What every queue of the program satisfies: each lane holds items of its own priority, the depth
-- stays within the limit, and the counters add up.
use mathlib.Core.List.{append_assoc}
use llm_platform.Common.{
  ℕ, zero, suc, ◌+◌, ◌-◌, ◌%◌, ◌^◌, ◌≤◌, ◌≡◌, refl, ap, inl, inr, if◌then◌else◌, ◌∙◌, true, some,
  Bool-cases, List, [], ◌∷◌, ◌++◌, arith, length, length-append, length-take, length-drop, leb, All,
  min,
}
use llm_platform.Common.Int.{ℤ, pos_part}
use llm_platform.Scheduler.Queue.{
  Item, ModelQueue, depth, new_model_queue, append_lane, enqueue, drain, drain_loop, pop,
}
use llm_platform.Scheduler.Queue.Order.{
  Lane, same_lane, append_lane-lane, append_lane-SameCounters, pop-Pops, high_lane, normal_lane,
  low_lane, lane_of, lane, contents, length-contents, drain-take,
}

abbrev pub InLane : Lane → List Item → Type 0
InLane l = All (λ x. lane_of x.req.priority ≡ l)

abbrev pub AreLanes : ModelQueue → Type 0
AreLanes q = InLane high_lane q.high × InLane normal_lane q.normal × InLane low_lane q.low

lane-InLane : (q : ModelQueue) → AreLanes q → (l : Lane) → InLane l (lane q l)
lane-InLane q h high_lane = h.0
lane-InLane q h normal_lane = h.1
lane-InLane q h low_lane = h.2

InLane-snoc :
    (l : Lane) (xs : List Item) (x : Item)
    → InLane l xs
    → lane_of x.req.priority ≡ l
    → InLane l (xs ++ x ∷ [])
InLane-snoc l [] x h p = (p, tt)
InLane-snoc l (y ∷ xs) x h p = (h.0, InLane-snoc l xs x h.1 p)

same_lane-eq : (l m : Lane) → same_lane l m ≡ true → m ≡ l
same_lane-eq high_lane m h = ground arith
same_lane-eq normal_lane m h = ground arith
same_lane-eq low_lane m h = ground arith

append_lane-InLane :
    (q : ModelQueue) (item : Item)
    → AreLanes q
    → (l : Lane) → InLane l (lane (append_lane q item) l)
append_lane-InLane q item h l =
    let was = lane-InLane q h l in
    rw (append_lane-lane q item l) (elim (Bool-cases (same_lane l (lane_of item.req.priority))) [
      | inl e ↦ rw e (InLane-snoc l (lane q l) item was (same_lane-eq l _ e))
      | inr e ↦ rw e was
    ])

append_lane-AreLanes : (q : ModelQueue) (item : Item) → AreLanes q → AreLanes (append_lane q item)
append_lane-AreLanes q item h =
    let at = append_lane-InLane q item h in (at high_lane, at normal_lane, at low_lane)

pop-AreLanes : (q r : ModelQueue) (x : Item) → pop q ≡ some (x, r) → AreLanes q → AreLanes r
unfolding pop
pop-AreLanes q r x e h = (ground arith, ground arith, ground arith)

-- The items of one lane, in order.
unfoldable pub of_lane : Lane → List Item → List Item
of_lane l [] = []
of_lane l (x ∷ xs) =
    let rest = of_lane l xs in if same_lane l (lane_of x.req.priority) then x ∷ rest else rest

pub of_lane-append :
    (l : Lane) (xs ys : List Item) → of_lane l (xs ++ ys) ≡ of_lane l xs ++ of_lane l ys
unfolding of_lane
of_lane-append l [] ys = refl
of_lane-append l (x ∷ xs) ys = ground (arith, of_lane-append l xs ys)

-- What `pop` takes is the head of its lane, and the other lanes stay.
pop-lane :
    (q r : ModelQueue) (x : Item)
    → pop q ≡ some (x, r)
    → AreLanes q
    → (l : Lane) → of_lane l (x ∷ []) ++ lane r l ≡ lane q l
unfolding pop of_lane
pop-lane q r x e h high_lane = ground arith
pop-lane q r x e h normal_lane = ground arith
pop-lane q r x e h low_lane = ground arith

drain_loop-lane :
    (k : ℕ) (q : ModelQueue) (out : List Item)
    → AreLanes q
    → AreLanes (drain_loop k q out).0
      × ((l : Lane)
          → of_lane l (drain_loop k q out).1 ++ lane (drain_loop k q out).0 l
            ≡ of_lane l out ++ lane q l)
unfolding drain_loop
drain_loop-lane zero q out h = (h, λ l. refl)
drain_loop-lane (suc k) q out h = elim (pop-Pops q) [
  | inl (e, c) ↦ rw (e, drain_loop) (h, λ l. refl)
  | inr (x, r, e, c, s) ↦
      let ih = drain_loop-lane k r (out ++ x ∷ []) (pop-AreLanes q r x e h) in
      rw (e, drain_loop)
        (
          ih.0,
          λ l.
              ih.1 l
              ∙ rw (of_lane-append l out (x ∷ []), append_assoc)
                  (ap (λ t. of_lane l out ++ t) (pop-lane q r x e h l)),
        )
]

-- A queue that the program has: every item waits in the lane of its priority, no more than
-- `max_depth` wait, and what was enqueued is what was dispatched or still waits.
pub record IsValid (q : ModelQueue) : Type 0 where
  pub lanes : AreLanes q
  pub within : depth q ≤ q.max_depth
  pub conserved : (q.dispatched + depth q) % 2 ^ 64 ≡ q.enqueued

pub new_model_queue-IsValid : (n : ℕ) → IsValid (new_model_queue n)
unfolding new_model_queue depth
new_model_queue-IsValid n = record { lanes = (tt, tt, tt); within = omega arith; conserved = refl }

pub new_model_queue-max_depth : (n : ℕ) → (new_model_queue n).max_depth ≡ n
unfolding new_model_queue
new_model_queue-max_depth n = refl

append_lane-depth : (q : ModelQueue) (item : Item) → depth (append_lane q item) ≡ depth q + 1
unfolding append_lane depth
append_lane-depth q item = ground (
  arith,
  length-append q.high (item ∷ []),
  length-append q.normal (item ∷ []),
  length-append q.low (item ∷ []),
)

length_contents-drain : (q : ModelQueue) (n : ℤ) → depth (drain q n).0 ≡ depth q - pos_part n
length_contents-drain q n = omega (
  arith,
  length-contents q,
  length-contents (drain q n).0,
  ap length (drain-take q n).1,
  length-drop (pos_part n) (contents q),
)

length-drain : (q : ModelQueue) (n : ℤ) → length (drain q n).1 ≡ min (pos_part n) (depth q)
length-drain q n =
    omega (
      arith,
      length-contents q,
      ap length (drain-take q n).0,
      length-take (pos_part n) (contents q),
    )

pub enqueue-IsValid : (q : ModelQueue) (item : Item) → IsValid q → IsValid (enqueue q item).0
unfolding enqueue
enqueue-IsValid q item v = elim (Bool-cases (leb q.max_depth (depth q))) [
  | inl full ↦ rw full (record { lanes = v.lanes; within = v.within; conserved = v.conserved })
  | inr room ↦
      let same = append_lane-SameCounters q item in
      let grows = append_lane-depth q item in
      rw room (record {
        lanes = append_lane-AreLanes q item v.lanes;
        within = ground arith;
        conserved = ground arith;
      })
]

drain-AreLanes : (q : ModelQueue) (n : ℤ) → AreLanes q → AreLanes (drain q n).0
unfolding drain
drain-AreLanes q n h = (drain_loop-lane (pos_part n) q [] h).0

-- In lane l what `Drain` hands out, before what it leaves, is what the lane held.
pub drain-lane :
    (q : ModelQueue) (n : ℤ)
    → AreLanes q
    → (l : Lane) → of_lane l (drain q n).1 ++ lane (drain q n).0 l ≡ lane q l
unfolding drain of_lane
drain-lane q n h high_lane = (drain_loop-lane (pos_part n) q [] h).1 high_lane
drain-lane q n h normal_lane = (drain_loop-lane (pos_part n) q [] h).1 normal_lane
drain-lane q n h low_lane = (drain_loop-lane (pos_part n) q [] h).1 low_lane

pub drain-IsValid : (q : ModelQueue) (n : ℤ) → IsValid q → IsValid (drain q n).0
drain-IsValid q n v =
    let t = drain-take q n in
    let left = length_contents-drain q n in
    let out = length-drain q n in
    record {
      lanes = drain-AreLanes q n v.lanes;
      within = rw t.5 (omega arith);
      conserved = rw (t.2, t.3) (omega arith);
    }
