-- ===== src/Scheduler/Batcher/Replies.antt =====
-- Every item of a batch is answered once, and what a failed dial does.
use mathlib.Core.List.{append-nil}
use llm_platform.Common.{
  ℕ, ◌-◌, ◌/◌, ◌≡◌, ◌≢◌, ◌⊎◌, refl, sym, ap, subst, ◌∙◌, inl, inr, true, false, Bool-cases, Option,
  none, some, List, [], ◌∷◌, ◌++◌, arith, length, eqb, take, drop, Result, ok, err,
}
use llm_platform.Common.Int.{pos}
use llm_platform.Common.Float.{Float64}
use llm_platform.Execution.{ExecuteRequest, ExecuteResponse}
use llm_platform.Scheduler.Queue.{Item, drain}
use llm_platform.Scheduler.Queue.Order.{contents, drain-take}
use llm_platform.Scheduler.Histogram.{record_latency}
use llm_platform.Scheduler.Batcher.{
  Batcher, World, Outside, QueueResult, execute_request, run_item, default_dispatch,
  exec_client_lazy, after_dispatch, dispatch, logged, round,
}
use llm_platform.Scheduler.Batcher.Window.{RanksFit, Sampled, Sampled-record, adaptive_wait-Sampled}

module _ (fl : Float64) (Client Failure : Type 0) where
  open fl use {Num, of_nat, of_nat_number}

  -- The once-only dial has not run yet, or it has succeeded.
  abbrev pub Connected : Batcher fl Client Failure → Type 0
  Connected b = (b.dialled ≡ false) ⊎ ((c : Client) × (b.dialled ≡ true) × (b.exec_client ≡ some c))

  pub record Healthy (w : World fl Client Failure) : Type 0 where
    pub sampled : Sampled fl w.batcher.latency
    pub connected : Connected w.batcher

  -- After a dial that succeeds there is a client, for good.
  exec_client_lazy-Connected :
      (b : Batcher fl Client Failure) (dial : Result Failure Client) (c : Client)
      → dial ≡ ok c
      → Connected b
      → (d : Client) × ((exec_client_lazy fl Client Failure b dial).1 ≡ ok (some d))
        × Connected (exec_client_lazy fl Client Failure b dial).0
        × ((exec_client_lazy fl Client Failure b dial).0.latency ≡ b.latency)
  unfolding exec_client_lazy
  exec_client_lazy-Connected b (err e) c h k = cc h
  exec_client_lazy-Connected b (ok a) c h (inl fresh) =
      (a, rw fresh refl, rw fresh (inr (a, refl, refl)), rw fresh refl)
  exec_client_lazy-Connected b (ok a) c h (inr (d, old, e)) =
      (d, rw old (ap ok e), rw old (inr (d, refl, e)), rw old refl)

  -- A reply carries a response or an error, and not both.
  abbrev pub Answers : QueueResult fl Client Failure → Type 0
  Answers r = ((r.error ≡ none) × (r.resp ≢ none)) ⊎ ((r.error ≢ none) × (r.resp ≡ none))

  -- One reply for each item, on its channel.
  abbrev pub AllAnswered : List Item → List (ℕ × QueueResult fl Client Failure) → Type 0
  AllAnswered [] [] = Unit
  AllAnswered [] (s ∷ sent) = ⊥
  AllAnswered (it ∷ items) [] = ⊥
  AllAnswered (it ∷ items) ((channel, r) ∷ sent) =
      (channel ≡ it.result_ch) × Answers r × AllAnswered items sent

  AllAnswered-empty : (items : List Item) → eqb (length items) 0 ≡ true → AllAnswered items []
  AllAnswered-empty [] h = tt
  AllAnswered-empty (it ∷ items) h = ground arith

  run_item-Answers :
      (execute : ExecuteRequest → Result Failure (ExecuteResponse Num)) (now : ℕ) (it : Item)
      → Answers (run_item fl Client Failure execute now it)
  unfolding run_item
  run_item-Answers execute now it = go (execute (execute_request fl Client Failure it)) refl
    where
      go :
          (r : Result Failure (ExecuteResponse Num))
          → execute (execute_request fl Client Failure it) ≡ r
          → Answers (run_item fl Client Failure execute now it)
      go (ok r) e = rw (e, run_item) (inl (refl, λ h. cc h))
      go (err f) e = rw (e, run_item) (inr (λ h. cc h, refl))

  default_dispatch-AllAnswered :
      (execute : ExecuteRequest → Result Failure (ExecuteResponse Num)) (now : ℕ)
      (items : List Item)
      → AllAnswered items (default_dispatch fl Client Failure execute now items)
  unfolding default_dispatch
  default_dispatch-AllAnswered execute now [] = tt
  default_dispatch-AllAnswered execute now (it ∷ items) =
      (refl, run_item-Answers execute now it, default_dispatch-AllAnswered execute now items)

  record Served (w : World fl Client Failure) (items : List Item)
      (r : Option (World fl Client Failure)) : Type 0 where
    world : World fl Client Failure
    replies : List (ℕ × QueueResult fl Client Failure)
    returns : r ≡ some world
    healthy : Healthy world
    sent : world.sent ≡ w.sent ++ replies
    answered : AllAnswered items replies
    queue : world.queue ≡ w.queue

  module _ (fits : RanksFit fl) where
    after_dispatch-some :
        (w : World fl Client Failure) (size ns : ℕ)
        → Healthy w
        → (w' : World fl Client Failure) × (after_dispatch fl Client Failure w size ns ≡ some w')
          × Healthy w'
          × (w'.sent ≡ w.sent)
          × (w'.queue ≡ w.queue)
    unfolding after_dispatch
    after_dispatch-some w size ns h =
        let ms = of_nat (ns / 1_000_000) in
        let b = record w.batcher { latency = record_latency fl w.batcher.latency ms } in
        let s = Sampled-record fl w.batcher.latency ms h.sampled (of_nat_number (ns / 1_000_000)) in
        let (wait, e) = adaptive_wait-Sampled fl fits b w.queue s in
        (
          logged fl Client Failure w b size wait ms,
          rw (e, after_dispatch) refl,
          record { sampled = s; connected = h.connected },
          refl,
          refl,
        )

    dispatch-Served :
        (w : World fl Client Failure) (o : Outside fl Client Failure) (items : List Item)
        (c : Client)
        → Healthy w
        → o.dial ≡ ok c
        → Served w items (dispatch fl Client Failure w o items)
    unfolding dispatch
    dispatch-Served w o items c h dialled =
        let (d, client, connected, latency) =
          exec_client_lazy-Connected w.batcher o.dial c dialled h.connected in
        let b = (exec_client_lazy fl Client Failure w.batcher o.dial).0 in
        let replies = default_dispatch fl Client Failure (o.execute d) o.started items in
        let next = record w { batcher = b; sent = w.sent ++ replies } in
        let healthy : Healthy next = record {
          sampled = subst (Sampled fl) (sym latency) h.sampled;
          connected = connected;
        } in
        let (w', e, h', s, q) =
          after_dispatch-some next (length items) (o.finished - o.started) healthy in
        record {
          world = w';
          replies = replies;
          returns = rw (client, dispatch) e;
          healthy = h';
          sent = s;
          answered = default_dispatch-AllAnswered (o.execute d) o.started items;
          queue = q;
        }

    -- A round of the loop of a batcher whose dial has not failed takes the first `MaxBatchSize` items
    -- of the queue's order, leaves the others, and sends exactly one reply, a response or an error, on
    -- the channel of each item taken, in order; it does not panic, and the batcher stays so.
    pub round-Served :
        (w : World fl Client Failure) (o : Outside fl Client Failure) (c : Client)
        → Healthy w
        → o.dial ≡ ok c
        → (w' : World fl Client Failure) × (replies : List (ℕ × QueueResult fl Client Failure))
          × (round fl Client Failure w o ≡ some w')
          × Healthy w'
          × (w'.sent ≡ w.sent ++ replies)
          × AllAnswered (take w.batcher.cfg.max_batch_size (contents w.queue)) replies
          × (contents w'.queue ≡ drop w.batcher.cfg.max_batch_size (contents w.queue))
    unfolding round
    round-Served w o c h dialled =
        let n = w.batcher.cfg.max_batch_size in
        let (wait, e) = adaptive_wait-Sampled fl fits w.batcher w.queue h.sampled in
        let t = drain-take w.queue (pos n) in
        let (q, items) = drain w.queue (pos n) in
        let next = record w { queue = q } in
        let s =
          dispatch-Served next o items c (record { sampled = h.sampled; connected = h.connected })
            dialled in
        elim (Bool-cases (eqb (length items) 0)) [
          | inl none_waits ↦ (
            next,
            [],
            rw (e, none_waits, round) refl,
            record { sampled = h.sampled; connected = h.connected },
            sym (append-nil w.sent),
            subst (λ l. AllAnswered l []) t.0 (AllAnswered-empty items none_waits),
            t.1,
          )
          | inr some_wait ↦ (
            s.world,
            s.replies,
            rw (e, some_wait, round) s.returns,
            s.healthy,
            s.sent,
            subst (λ l. AllAnswered l s.replies) t.0 s.answered,
            ap contents s.queue ∙ t.1,
          )
        ]
