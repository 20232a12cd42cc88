-- ===== src/Router/Server/Ends.antt =====
-- Calls of `Route` of services/router/cmd/main.go one after the other: none panics, and each is
-- counted.
use llm_platform.Common.{
  ℕ, suc, ◌+◌, ◌%◌, ◌^◌, ◌≡◌, refl, ap, sym, ◌∙◌, subst, String, Bool, true, false, Option, none,
  some, List, [], ◌∷◌, Result, ok, err, arith, length, length-set, ◌==◌, Bool-cases, inl, inr,
}
use llm_platform.Common.Dict.{Dict, put, get-put}
use llm_platform.Common.Float.{Float64}
use llm_platform.Inference.{InferenceRequest, InferenceResponse}
use llm_platform.Execution.{ExecuteResponse}
use llm_platform.Router.Health.{
  HealthTracker, ModelHealth, health_of, health_success, health_failure, new_model_health,
  note_failure,
}
use llm_platform.Router.Health.Rate.{RanksFit, tell, tell-Told, Outcome, answered}
use llm_platform.Router.Policies.{TenantPolicy}
use llm_platform.Router.Scorer.{CandidateScore}
use llm_platform.Router.Server.{
  RouterMetrics, RouterServer, World, Routed, RouteError, tenant_of, tenant_policy, count_error,
  executor_failed, executor_answered, latency_of, answer, dispatch, ask_breakers, route, LogEntry,
  reply_with, execute_on, limited, cached_or_loaded,
}
use llm_platform.Router.Server.Accounts

module _ (fl : Float64) where
  -- The latencies that the tracker keeps of a model are 100, also of one that it has not seen.
  abbrev pub IsSized : HealthTracker fl → Type 0
  IsSized h = (id : String) (now : ℕ) → length (health_of fl h id now).latencies ≡ 100

  put-IsSized :
      (h : HealthTracker fl) (id : String) (r : ModelHealth fl)
      → IsSized h
      → length r.latencies ≡ 100
      → IsSized (put h id r)
  unfolding health_of
  put-IsSized h id r sized n other now =
      let known : Option (ModelHealth fl) → ModelHealth fl =
        λ u. elim u [ none ↦ new_model_health fl now | some r' ↦ r' ] in
      ap (λ u. length (known u).latencies) (get-put h id other r)
      ∙ elim (Bool-cases (id == other)) [ inl e ↦ rw e n | inr e ↦ rw e (sized other now) ]

  tell-IsSized :
      (h : HealthTracker fl) (id : String) (o : Outcome fl) (now : ℕ)
      → RanksFit fl
      → IsSized h
      → (h' : HealthTracker fl) × (tell fl h id o now ≡ some h') × IsSized h'
  tell-IsSized h id o now fits sized =
      let (r, told, t) = tell-Told fl h id o now fits (sized id now) in
      (put h id r, told, put-IsSized h id r sized t.latencies)

  failure-IsSized :
      (h : HealthTracker fl) (id : String) (now : ℕ)
      → IsSized h
      → IsSized (health_failure fl h id now)
  unfolding health_failure note_failure
  failure-IsSized h id now sized =
      put-IsSized h id (note_failure fl (health_of fl h id now) now) sized
        (length-set (health_of fl h id now).latencies _ _ ∙ sized id now)

module _ (fl : Float64) (seconds : ℕ → fl.Num) (Conn Failure : Type 0) where
  -- No panic, and the tracker is left as it should be.
  abbrev pub IsFine : Option (Routed fl seconds Conn Failure) → Type 0
  IsFine none = ⊥
  IsFine (some r) = IsSized fl r.server.health

  module _ (w : World fl seconds Conn Failure) (req : InferenceRequest) (p : TenantPolicy)
      (fits : RanksFit fl) where
    failed-IsSized :
        (s : RouterServer fl seconds Conn Failure) (id : String)
        → IsSized fl s.health
        → IsSized fl (executor_failed w s id).health
    unfolding executor_failed count_error
    failed-IsSized s id sized = failure-IsSized fl s.health id w.recorded_at sized

    reply_with-IsFine :
        (s : RouterServer fl seconds Conn Failure) (id : String) (is_canary : Bool)
        (resp : InferenceResponse fl.Num) (entry : LogEntry fl seconds Conn Failure)
        → IsSized fl s.health
        → IsFine (
            reply_with resp entry (
              executor_answered s id is_canary
                (health_success fl s.health id (latency_of w) w.recorded_at)))
    unfolding tell reply_with executor_answered
    reply_with-IsFine s id is_canary resp entry sized =
        let (h, told, fine) =
          tell-IsSized fl s.health id (answered (latency_of w)) w.recorded_at fits sized in
        subst (λ o. IsFine (reply_with resp entry (executor_answered s id is_canary o))) (sym told)
          fine

    answer-IsFine :
        (weight : Option fl.Num) (s : RouterServer fl seconds Conn Failure)
        (primary : CandidateScore fl) (r : Result Failure (ExecuteResponse fl.Num))
        → IsSized fl s.health
        → IsFine (answer w req p weight s primary r)
    unfolding answer
    answer-IsFine weight s primary (err e) sized = failed-IsSized s primary.model_id sized
    answer-IsFine weight s primary (ok r) sized = reply_with-IsFine s primary.model_id _ _ _ sized

    execute_on-IsFine :
        (weight : Option fl.Num) (s : RouterServer fl seconds Conn Failure)
        (primary : CandidateScore fl) (c : Result Failure Conn)
        → IsSized fl s.health
        → IsFine (execute_on w req p weight s primary c)
    unfolding execute_on
    execute_on-IsFine weight s primary (err e) sized = failed-IsSized s primary.model_id sized
    execute_on-IsFine weight s primary (ok c) sized = answer-IsFine weight s primary _ sized

    dispatch-IsFine :
        (weights : Dict fl.Num) (s : RouterServer fl seconds Conn Failure)
        (ranked : List (CandidateScore fl))
        → IsSized fl s.health
        → IsFine (dispatch w req p weights s ranked)
    unfolding dispatch count_error
    dispatch-IsFine weights s [] sized = sized
    dispatch-IsFine weights s (primary ∷ ranked) sized = execute_on-IsFine _ _ primary _ sized

    limited-IsFine :
        (s : RouterServer fl seconds Conn Failure) (allowed : Bool)
        → IsSized fl s.health
        → IsFine (limited w s req p allowed)
    unfolding limited ask_breakers
    limited-IsFine s false sized = sized
    limited-IsFine s true sized = dispatch-IsFine _ (ask_breakers w s) _ sized

  cached_or_loaded-health :
      (w : World fl seconds Conn Failure) (s : RouterServer fl seconds Conn Failure) (t : String)
      (o : Option TenantPolicy)
      → (cached_or_loaded w s t o).0.health ≡ s.health
  unfolding cached_or_loaded
  cached_or_loaded-health w s t none = refl
  cached_or_loaded-health w s t (some p) = refl

  route-IsFine :
      (w : World fl seconds Conn Failure) (s : RouterServer fl seconds Conn Failure)
      (req : InferenceRequest)
      → RanksFit fl
      → IsSized fl s.health
      → IsFine (route w s req)
  unfolding route tenant_policy
  route-IsFine w s req fits sized =
      limited-IsFine w req _ fits _ _
        (subst (IsSized fl) (sym (cached_or_loaded-health w s (tenant_of req) _)) sized)

  abbrev pub Replies : Type 0
  Replies = List (Result (RouteError Failure) (InferenceResponse fl.Num))

  abbrev pub prepend :
      Result (RouteError Failure) (InferenceResponse fl.Num)
      → Option (RouterServer fl seconds Conn Failure × Replies)
      → Option (RouterServer fl seconds Conn Failure × Replies)
  prepend reply none = none
  prepend reply (some (s, rs)) = some (s, reply ∷ rs)

  abbrev pub after :
      Option (Routed fl seconds Conn Failure)
      → (RouterServer fl seconds Conn Failure
          → Option (RouterServer fl seconds Conn Failure × Replies))
      → Option (RouterServer fl seconds Conn Failure × Replies)
  after none k = none
  after (some r) k = prepend r.reply (k r.server)

  -- Calls one after the other; `none` is a panic.
  unfoldable pub route_all :
      RouterServer fl seconds Conn Failure
      → List (World fl seconds Conn Failure × InferenceRequest)
      → Option (RouterServer fl seconds Conn Failure × Replies)
  route_all s [] = some (s, [])
  route_all s ((w, req) ∷ calls) = after (route w s req) (λ s'. route_all s' calls)

  -- How many replies a test counts.
  abbrev pub total : (Result (RouteError Failure) (InferenceResponse fl.Num) → ℕ) → Replies → ℕ
  total count [] = 0
  total count (r ∷ rs) = count r + total count rs

  -- What the counters say after calls with these replies.
  pub record IsAccount (m m' : RouterMetrics) (n : ℕ) (rs : Replies) : Type 0 where
    pub replies : length rs ≡ n
    pub routed :
        m'.routed % 2 ^ 64
        ≡ (m.routed + total (Accounts.answered fl seconds Conn Failure) rs) % 2 ^ 64
    pub errors :
        m'.errors % 2 ^ 64
        ≡ (m.errors + total (Accounts.errors fl seconds Conn Failure) rs) % 2 ^ 64
    pub fallbacks : m'.fallbacks ≡ m.fallbacks

  abbrev Accounted :
      RouterMetrics → Option (RouterServer fl seconds Conn Failure × Replies) → ℕ → Type 0
  Accounted m o n =
      (s' : RouterServer fl seconds Conn Failure) × (rs : Replies) × (o ≡ some (s', rs))
      × IsAccount m s'.metrics n rs

  after-Accounted :
      (m : RouterMetrics) (o : Option (Routed fl seconds Conn Failure)) (n : ℕ)
      (k : RouterServer fl seconds Conn Failure
        → Option (RouterServer fl seconds Conn Failure × Replies))
      → IsFine o
      → Accounts.IsCounted fl seconds Conn Failure m o
      → ((s : RouterServer fl seconds Conn Failure)
          → IsSized fl s.health
          → Accounted s.metrics (k s) n)
      → Accounted m (after o k) (suc n)
  after-Accounted m none n k fine counted rest = elim fine [ ]
  after-Accounted m (some r) n k fine (routed, errors, fallbacks) rest =
      let (s', rs, e, a) = rest r.server fine in
      (
        s',
        r.reply ∷ rs,
        ap (prepend r.reply) e,
        record {
          replies = ap suc a.replies;
          routed = omega (arith, routed, a.routed);
          errors = omega (arith, errors, a.errors);
          fallbacks = a.fallbacks ∙ fallbacks;
        },
      )

  -- If the rank of the p99 is in range up to 100 samples, then on a server whose latency rings have their
  -- 100 places any calls of `Route` one after the other all return, none panics; `Routed` goes up by the replies, `Errors` by the
  -- refusals but those for the rate, modulo 2^64, and `Fallbacks` stays.
  pub route_all-accounted :
      (s : RouterServer fl seconds Conn Failure)
      (calls : List (World fl seconds Conn Failure × InferenceRequest))
      → RanksFit fl
      → IsSized fl s.health
      → (s' : RouterServer fl seconds Conn Failure) × (rs : Replies) × (route_all s calls
          ≡ some (s', rs))
        × IsAccount s.metrics s'.metrics (length calls) rs
  unfolding route_all
  route_all-accounted s [] fits sized = (
    s,
    [],
    refl,
    record { replies = refl; routed = omega arith; errors = omega arith; fallbacks = refl },
  )
  route_all-accounted s ((w, req) ∷ calls) fits sized =
      after-Accounted s.metrics (route w s req) (length calls) (λ s'. route_all s' calls)
        (route-IsFine w s req fits sized) (Accounts.route-IsCounted fl seconds Conn Failure w s req)
        (λ s' sized'. route_all-accounted s' calls fits sized')
