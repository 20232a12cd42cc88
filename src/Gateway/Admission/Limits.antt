-- ===== src/Gateway/Admission/Limits.antt =====
-- What an admitted request is like, and which requests are admitted.
use llm_platform.Common.{
  ℕ, ◌+◌, ◌*◌, ◌≤◌, ◌≡◌, refl, String, false, Option, none, some, length, arith, ok,
}
use llm_platform.Common.Int.{ℤ, pos, pos_part, eqb_ℤ, ◌≤ℤ◌}
use llm_platform.Common.Dict.{Dict}
use llm_platform.Inference.{InferenceRequest}
use llm_platform.Gateway.Admission.{
  Config, validate_task, validate_size, validate_tokens, validate_documents, body_bytes, normalise,
  default_tokens, cap_deadline, made, admit,
}

-- What the limits ask of a request, as it comes.
pub record WithinLimits (cfg : Config) (req : InferenceRequest) : Type 0 where
  pub size : pos (body_bytes req) ≤ℤ cfg.max_prompt_bytes
  pub tokens : (pos 0 ≤ℤ req.max_tokens) × (req.max_tokens ≤ℤ cfg.max_tokens)
  pub documents : pos (length req.documents) ≤ℤ cfg.max_documents

within-size :
    (cfg : Config) (req : InferenceRequest)
    → pos (body_bytes req) ≤ℤ cfg.max_prompt_bytes
    → validate_size cfg req ≡ ok tt
unfolding validate_size
within-size cfg req h = ground arith

within-tokens :
    (cfg : Config) (req : InferenceRequest)
    → (pos 0 ≤ℤ req.max_tokens) × (req.max_tokens ≤ℤ cfg.max_tokens)
    → validate_tokens cfg req ≡ ok tt
unfolding validate_tokens
within-tokens cfg req (lo, hi) = ground (arith, lo, hi)

within-documents :
    (cfg : Config) (req : InferenceRequest)
    → pos (length req.documents) ≤ℤ cfg.max_documents
    → validate_documents cfg req ≡ ok tt
unfolding validate_documents
within-documents cfg req h = ground arith

-- A request that is complete for its task and within the limits is admitted, normalised.
pub admit_complete :
    (cfg : Config) (req : InferenceRequest) (now : ℕ)
    → validate_task req ≡ ok tt
    → WithinLimits cfg req
    → admit cfg req now ≡ ok (normalise cfg req now)
unfolding admit
admit_complete cfg req now task w =
    rw
      (
        task,
        within-size cfg req w.size,
        within-tokens cfg req w.tokens,
        within-documents cfg req w.documents,
      )
      refl

tokens-bound :
    (n limit : ℤ)
    → (pos 0 ≤ℤ n) × (n ≤ℤ limit)
    → pos 1024 ≤ℤ limit
    → (pos 1 ≤ℤ default_tokens n) × (default_tokens n ≤ℤ limit)
unfolding default_tokens
tokens-bound n limit (lo, hi) k = ground (arith, lo, hi, k)

deadline-bound :
    (cfg : Config) (d : ℤ) (now : ℕ)
    → cfg.deadline_default ≤ cfg.deadline_max
    → 1_000_000 ≤ now
    → (eqb_ℤ (cap_deadline cfg d now) (pos 0) ≡ false)
      × (pos_part (cap_deadline cfg d now) * 1_000_000 ≤ now + cfg.deadline_max)
unfolding cap_deadline
deadline-bound cfg d now h lo = ground (arith, h, lo)

default_tokens-twice : (n : ℤ) → default_tokens (default_tokens n) ≡ default_tokens n
unfolding default_tokens
default_tokens-twice n = ground arith

deadline-fixed :
    (cfg : Config) (d : ℤ) (now : ℕ)
    → eqb_ℤ d (pos 0) ≡ false
    → pos_part d * 1_000_000 ≤ now + cfg.deadline_max
    → cap_deadline cfg d now ≡ d
unfolding cap_deadline
deadline-fixed cfg d now set early = ground (arith, set, early)

made-twice : (m : Option (Dict String)) → made (made m) ≡ made m
unfolding made
made-twice none = refl
made-twice (some m) = refl

-- What normalising gives: between 1 token and the limit, if 1024 is within it; a deadline that is
-- set and no later than the longest that is allowed, if the clock has passed its first millisecond
-- and the default is no longer than the longest.
pub normalise-bounds :
    (cfg : Config) (req : InferenceRequest) (now : ℕ)
    → WithinLimits cfg req
    → pos 1024 ≤ℤ cfg.max_tokens
    → cfg.deadline_default ≤ cfg.deadline_max
    → 1_000_000 ≤ now
    → (pos 1 ≤ℤ (normalise cfg req now).max_tokens)
      × ((normalise cfg req now).max_tokens ≤ℤ cfg.max_tokens)
      × (eqb_ℤ (normalise cfg req now).deadline_unix_ms (pos 0) ≡ false)
      × (pos_part (normalise cfg req now).deadline_unix_ms * 1_000_000 ≤ now + cfg.deadline_max)
unfolding normalise
normalise-bounds cfg req now w k d lo =
    let (few, many) = tokens-bound req.max_tokens cfg.max_tokens w.tokens k in
    let (set, early) = deadline-bound cfg req.deadline_unix_ms now d lo in (few, many, set, early)

-- Normalising again at the same time changes nothing.
pub normalise-twice :
    (cfg : Config) (req : InferenceRequest) (now : ℕ)
    → cfg.deadline_default ≤ cfg.deadline_max
    → 1_000_000 ≤ now
    → normalise cfg (normalise cfg req now) now ≡ normalise cfg req now
unfolding normalise
normalise-twice cfg req now d lo =
    let (set, early) = deadline-bound cfg req.deadline_unix_ms now d lo in
    let tokens = default_tokens-twice req.max_tokens in
    let deadline = deadline-fixed cfg (cap_deadline cfg req.deadline_unix_ms now) now set early in
    let metadata = made-twice req.metadata in
    λ i. record req { max_tokens = tokens i; deadline_unix_ms = deadline i; metadata = metadata i }
