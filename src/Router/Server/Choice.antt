-- ===== src/Router/Server/Choice.antt =====
-- Which model `Route` of services/router/cmd/main.go gives a request to.
use mathlib.Core.List.{Mem, mem-cons_self, mem-cons_of_mem}
use llm_platform.Common.{
  ℕ, ◌≡◌, refl, subst, String, Bool, true, false, Option, none, some, List, [], ◌∷◌, Result, ok,
  err, All, Bool-cases, inl, inr,
}
use llm_platform.Common.Int.{ℤ}
use llm_platform.Common.Dict.{Dict}
use llm_platform.Common.Float.{Float64}
use llm_platform.Sort.{insertion_sort-All}
use llm_platform.Inference.{InferenceRequest, InferenceResponse}
use llm_platform.Execution.{ExecuteResponse}
use llm_platform.Router.Breaker.{Registry, allow_at}
use llm_platform.Router.Breaker.Recovery.{breaker_of}
use llm_platform.Router.Health.{HealthTracker}
use llm_platform.Router.Limiter.{allow}
use llm_platform.Router.Policies.{TenantPolicy}
use llm_platform.Router.Scorer.{
  ModelRecord, ScoringRequest, CandidateScore, eligible, score_one, score_all, score, better,
  noop_depth,
}
use llm_platform.Router.Candidates.{ask_all}
use llm_platform.Router.Candidates.Breakers.{is_open, ask_all-closed}
use llm_platform.Router.Server.{
  RouterServer, World, Routed, RouteError, tenant_of, tenant_policy, scoring_request, answer,
  dispatch, ranking, route, LogEntry, reply_with, execute_on, limited, executor_request, response,
}

All-map2 :
    {A : Type 0} (P Q R : A → Type 0)
    → ((x : A) → P x → Q x → R x)
    → (xs : List A) → All P xs
    → All Q xs
    → All R xs
All-map2 P Q R f [] h k = tt
All-map2 P Q R f (x ∷ xs) h k = (f x h.0 k.0, All-map2 P Q R f xs h.1 k.1)

All-imp :
    {A : Type 0} (P Q : A → Type 0) → ((x : A) → P x → Q x) → (xs : List A) → All P xs → All Q xs
All-imp P Q f [] h = tt
All-imp P Q f (x ∷ xs) h = (f x h.0, All-imp P Q f xs h.1)

module _ (fl : Float64) where
  All-Mem : {A : Type 0} (xs : List A) → All (λ x. Mem x xs) xs
  All-Mem xs = below xs (λ x h. h)
    where
      below : (ys : List _) → ((x : _) → Mem x ys → Mem x xs) → All (λ x. Mem x xs) ys
      below [] f = tt
      below (y ∷ ys) f = (f y mem-cons_self, below ys (λ x h. f x (mem-cons_of_mem y h)))

  -- What holds of every model holds of the candidates.
  ask_all-All :
      (P : ModelRecord fl → Type 0) (r : Registry) (ms : List (ModelRecord fl)) (now : ℕ)
      → All P ms
      → All P (ask_all fl r ms now).candidates
  unfolding ask_all
  ask_all-All P r [] now h = tt
  ask_all-All P r (m ∷ ms) now h =
      let rest = ask_all-All P (allow_at r m.model_id now).0 ms now h.1 in
      elim (Bool-cases (allow_at r m.model_id now).1) [
        | inl e ↦ rw e (h.0, rest)
        | inr e ↦ rw e rest
      ]

  -- A score is of a candidate that passes the hard filters.
  abbrev IsScored :
      (ModelRecord fl → Type 0)
      → HealthTracker fl
      → (String → ℤ)
      → ScoringRequest fl
      → CandidateScore fl
      → Type 0
  IsScored P h depth req c =
      (m : ModelRecord fl) × P m × (eligible fl req m ≡ true) × (c ≡ score_one fl h depth req m)

  score_all-All :
      (P : ModelRecord fl → Type 0) (h : HealthTracker fl) (depth : String → ℤ)
      (req : ScoringRequest fl) (ms : List (ModelRecord fl))
      → All P ms
      → All (IsScored P h depth req) (score_all fl h depth req ms)
  unfolding score_all
  score_all-All P h depth req [] all = tt
  score_all-All P h depth req (m ∷ ms) all =
      let rest = score_all-All P h depth req ms all.1 in
      elim (Bool-cases (eligible fl req m)) [
        | inl e ↦ rw e ((m, all.0, e, refl), rest)
        | inr e ↦ rw e rest
      ]

  score-All :
      (P : ModelRecord fl → Type 0) (h : HealthTracker fl) (depth : String → ℤ)
      (req : ScoringRequest fl) (ms : List (ModelRecord fl))
      → All P ms
      → All (IsScored P h depth req) (score fl h depth req ms)
  unfolding score
  score-All P h depth req ms all =
      insertion_sort-All (better fl) (IsScored P h depth req) _ (score_all-All P h depth req ms all)

ok_inj : {E A : Type 0} (x y : A) → ◌≡◌ {A = Result E A} (ok x) (ok y) → x ≡ y
ok_inj x y e = cc

module _ {fl : Float64} {seconds : ℕ → fl.Num} {Conn Failure : Type 0} where
  -- What is so of a candidate of `Route`: the model is one of the server's, passes the hard filters,
  -- and its breaker, after all were asked, is not open.
  pub record IsChoice (w : World fl seconds Conn Failure) (s : RouterServer fl seconds Conn Failure)
      (req : InferenceRequest) (p : TenantPolicy) (c : CandidateScore fl) : Type 0 where
    pub model : ModelRecord fl
    pub listed : Mem model s.models
    pub filtered : eligible fl (scoring_request s req p) model ≡ true
    pub ready :
        is_open
          (breaker_of (ask_all fl s.breakers s.models w.asked_at).breakers model.model_id).state
        ≡ false
    pub scored : c ≡ score_one fl s.health noop_depth (scoring_request s req p) model

  ranking-IsChoice :
      (w : World fl seconds Conn Failure) (s : RouterServer fl seconds Conn Failure)
      (req : InferenceRequest) (p : TenantPolicy)
      → All (IsChoice w s req p) (ranking w s req p)
  unfolding ranking
  ranking-IsChoice w s req p =
      let asked = ask_all fl s.breakers s.models w.asked_at in
      let open_at = λ (m : ModelRecord fl). is_open (breaker_of asked.breakers m.model_id).state in
      let known =
        All-map2 (λ m. Mem m s.models) (λ m. open_at m ≡ false)
          (λ m. Mem m s.models × (open_at m ≡ false)) (λ m h k. (h, k)) asked.candidates
          (ask_all-All fl (λ m. Mem m s.models) s.breakers s.models w.asked_at
            (All-Mem fl s.models))
          (ask_all-closed fl s.breakers s.models w.asked_at).1 in
      All-imp _ (IsChoice w s req p)
        (λ c (m, (listed, ready), filtered, scored). record {
          model = m;
          listed = listed;
          filtered = filtered;
          ready = ready;
          scored = scored;
        })
        _
        (score-All fl (λ m. Mem m s.models × (open_at m ≡ false)) s.health noop_depth
          (scoring_request s req p) asked.candidates known)

  -- A reply comes from an executor: the one of `c`, asked by its model's id and version.
  abbrev pub IsFrom :
      World fl seconds Conn Failure
      → InferenceRequest
      → InferenceResponse fl.Num
      → CandidateScore fl
      → Type 0
  IsFrom w req resp c =
      (conn : Conn) × (r : ExecuteResponse fl.Num) × (w.execute conn
          (executor_request req c.model_id c.version)
        ≡ ok r)
      × (resp.content ≡ r.content)
      × (resp.executor_id ≡ c.executor_addr)

  -- Where a reply is given, it comes from the executor of a score with `P`.
  abbrev IsServed :
      (CandidateScore fl → Type 0)
      → World fl seconds Conn Failure
      → InferenceRequest
      → Option (Routed fl seconds Conn Failure)
      → Type 0
  IsServed P w req none = Unit
  IsServed P w req (some r) =
      (resp : InferenceResponse fl.Num)
      → r.reply ≡ ok resp
      → (c : CandidateScore fl) × P c × IsFrom w req resp c

  module _ (P : CandidateScore fl → Type 0) (w : World fl seconds Conn Failure)
      (req : InferenceRequest) (p : TenantPolicy) where
    reply_with-IsServed :
        (c : CandidateScore fl) (resp : InferenceResponse fl.Num)
        (entry : LogEntry fl seconds Conn Failure)
        (o : Option (RouterServer fl seconds Conn Failure))
        → P c
        → IsFrom w req resp c
        → IsServed P w req (reply_with resp entry o)
    unfolding reply_with
    reply_with-IsServed c resp entry none h f = tt
    reply_with-IsServed c resp entry (some s) h f = λ resp' e.
        (c, h, subst (λ t. IsFrom w req t c) (ok_inj {E = RouteError Failure} resp resp' e) f)

    answer-IsServed :
        (weight : Option fl.Num) (s : RouterServer fl seconds Conn Failure) (c : CandidateScore fl)
        (conn : Conn) (r : Result Failure (ExecuteResponse fl.Num))
        → P c
        → w.execute conn (executor_request req c.model_id c.version) ≡ r
        → IsServed P w req (answer w req p weight s c r)
    unfolding answer response
    answer-IsServed weight s c conn (err f) h e = λ resp e'. cc
    answer-IsServed weight s c conn (ok r) h e =
        reply_with-IsServed c _ _ _ h (conn, r, e, refl, refl)

    execute_on-IsServed :
        (weight : Option fl.Num) (s : RouterServer fl seconds Conn Failure) (c : CandidateScore fl)
        (dialled : Result Failure Conn)
        → P c
        → IsServed P w req (execute_on w req p weight s c dialled)
    unfolding execute_on
    execute_on-IsServed weight s c (err f) h = λ resp e. cc
    execute_on-IsServed weight s c (ok conn) h = answer-IsServed weight s c conn _ h refl

    dispatch-IsServed :
        (weights : Dict fl.Num) (s : RouterServer fl seconds Conn Failure)
        (ranked : List (CandidateScore fl))
        → All P ranked
        → IsServed P w req (dispatch w req p weights s ranked)
    unfolding dispatch
    dispatch-IsServed weights s [] h = λ resp e. cc
    dispatch-IsServed weights s (c ∷ ranked) h = execute_on-IsServed _ _ c _ h.0

  limited-IsServed :
      (w : World fl seconds Conn Failure) (s : RouterServer fl seconds Conn Failure)
      (req : InferenceRequest) (p : TenantPolicy) (allowed : Bool)
      → IsServed (IsChoice w s req p) w req (limited w s req p allowed)
  unfolding limited
  limited-IsServed w s req p false = λ resp e. cc
  limited-IsServed w s req p true =
      dispatch-IsServed (IsChoice w s req p) w req p _ _ _ (ranking-IsChoice w s req p)

  -- If `Route` gives a reply, its content is the answer of an executor that was asked with the id and
  -- the version of a model of the server; the model passes the hard filters under the tenant's policy,
  -- and its breaker, after all were asked, is not open; the reply names that model's executor.
  pub route_chosen :
      (w : World fl seconds Conn Failure) (s : RouterServer fl seconds Conn Failure)
      (req : InferenceRequest) (r : Routed fl seconds Conn Failure)
      (resp : InferenceResponse fl.Num)
      → route w s req ≡ some r
      → r.reply ≡ ok resp
      → (c : CandidateScore fl) × IsChoice w
          (tenant_policy w s (tenant_of req)).0
          req
          (tenant_policy w s (tenant_of req)).1
          c
        × IsFrom w req resp c
  unfolding route ranking scoring_request
  route_chosen w s req r resp e =
      let (s1, p) = tenant_policy w s (tenant_of req) in
      let (limiter, allowed) =
        allow fl seconds s1.limiter (tenant_of req) p.rate_limit p.burst_limit w.bucket_at
          w.limiter_at in
      let s2 = record s1 { limiter = limiter } in
      let served =
        subst (IsServed (IsChoice w s2 req p) w req) e (limited-IsServed w s2 req p allowed) in
      λ reply.
        let (c, k, from) = served resp reply in
        (
          c,
          record {
            model = k.model;
            listed = k.listed;
            filtered = k.filtered;
            ready = k.ready;
            scored = k.scored;
          },
          from,
        )
