-- ===== src/Gateway/Admission.antt =====
-- services/api-gateway/internal/admission/admission.go. The errors are their kinds, without the text.
-- `now` is `time.Now` in nanoseconds since 1970, a duration is in nanoseconds; the program's
-- durations are not negative.
pub mod Limits
mod Examples
use Prim.Native.String.{len}
use llm_platform.Common.{
  ℕ, ◌+◌, ◌*◌, ◌/◌, String, Bool, true, false, ◌&&◌, ◌||◌, Option, none, some, List, [], ◌∷◌, eqb,
  ltb, length, if◌then◌else◌, Result, ok, err, ◌>>◌, ◌==◌,
}
use llm_platform.Common.Int.{ℤ, pos, pos_part, ltb_ℤ, eqb_ℤ, ◌-ℤ◌}
use llm_platform.Common.Dict.{Dict}
use llm_platform.Inference.{
  TaskType, task_unspecified, task_chat, task_summarize, task_embed, task_rerank, task_classify,
  task_moderate, ChatMessage, InferenceRequest,
}

pub record Config : Type 0 where
  pub max_prompt_bytes : ℤ
  pub max_tokens : ℤ
  pub max_documents : ℤ
  pub deadline_default : ℕ
  pub deadline_max : ℕ

unfoldable pub default_config : Config
default_config = record {
  max_prompt_bytes = pos (128 * 1024);
  max_tokens = pos 8192;
  max_documents = pos 50;
  deadline_default = 30 * 1_000_000_000;
  deadline_max = 120 * 1_000_000_000;
}

pub data AdmissionError : Type 0 where
  prompt_or_messages_required : TaskType → AdmissionError
  prompt_or_query_required : AdmissionError
  query_required : AdmissionError
  documents_required : AdmissionError
  prompt_required : TaskType → AdmissionError
  task_required : AdmissionError
  body_too_large : ℤ → ℕ → AdmissionError
  negative_tokens : AdmissionError
  tokens_over_limit : ℤ → ℤ → AdmissionError
  too_many_documents : ℕ → ℤ → AdmissionError

abbrev pub Checked : Type 0
Checked = Result AdmissionError (Unit {0})

abbrev is_empty {ℓ} : {A : Type ℓ} → List A → Bool
is_empty xs = eqb (length xs) 0

unfoldable pub validate_task : InferenceRequest → Checked
validate_task req =
    let t = req.task_type in
    if eqb_ℤ t task_chat || eqb_ℤ t task_summarize
    then (if is_empty req.messages && (req.prompt == "")
        then err (prompt_or_messages_required t)
        else ok tt)
    else if eqb_ℤ t task_embed
    then (if (req.prompt == "") && (req.query == "") then err prompt_or_query_required else ok tt)
    else if eqb_ℤ t task_rerank
    then (if req.query == ""
        then err query_required
        else if is_empty req.documents
        then err documents_required
        else ok tt)
    else if eqb_ℤ t task_classify || eqb_ℤ t task_moderate
    then (if req.prompt == "" then err (prompt_required t) else ok tt)
    else if eqb_ℤ t task_unspecified
    then err task_required
    else ok tt

unfoldable pub content_bytes : List ChatMessage → ℕ
content_bytes [] = 0
content_bytes (m ∷ ms) = len m.content + content_bytes ms

unfoldable pub document_bytes : List String → ℕ
document_bytes [] = 0
document_bytes (d ∷ ds) = len d + document_bytes ds

unfoldable pub body_bytes : InferenceRequest → ℕ
body_bytes req =
    len req.prompt + len req.query + content_bytes req.messages + document_bytes req.documents

unfoldable pub validate_size : Config → InferenceRequest → Checked
validate_size cfg req =
    let total = body_bytes req in
    if ltb_ℤ cfg.max_prompt_bytes (pos total)
    then err (body_too_large cfg.max_prompt_bytes total)
    else ok tt

unfoldable pub validate_tokens : Config → InferenceRequest → Checked
validate_tokens cfg req =
    if ltb_ℤ req.max_tokens (pos 0)
    then err negative_tokens
    else if ltb_ℤ cfg.max_tokens req.max_tokens
    then err (tokens_over_limit req.max_tokens cfg.max_tokens)
    else ok tt

unfoldable pub validate_documents : Config → InferenceRequest → Checked
validate_documents cfg req =
    let n = length req.documents in
    if ltb_ℤ cfg.max_documents (pos n) then err (too_many_documents n cfg.max_documents) else ok tt

-- `t.UnixMilli()`
abbrev pub unix_milli : ℕ → ℕ
unix_milli t = t / 1_000_000

unfoldable pub default_tokens : ℤ → ℤ
default_tokens n = if eqb_ℤ n (pos 0) then pos 1024 else n

unfoldable pub cap_deadline : Config → ℤ → ℕ → ℤ
cap_deadline cfg d now =
    if eqb_ℤ d (pos 0)
    then pos (unix_milli (now + cfg.deadline_default))
    else if ltb (now + cfg.deadline_max) (pos_part d * 1_000_000)
    then pos (unix_milli (now + cfg.deadline_max))
    else d

unfoldable pub made : Option (Dict String) → Option (Dict String)
made none = some []
made (some m) = some m

unfoldable pub normalise : Config → InferenceRequest → ℕ → InferenceRequest
normalise cfg req now = record req {
  max_tokens = default_tokens req.max_tokens;
  deadline_unix_ms = cap_deadline cfg req.deadline_unix_ms now;
  metadata = made req.metadata;
}

unfoldable pub admit : Config → InferenceRequest → ℕ → Result AdmissionError InferenceRequest
admit cfg req now =
    validate_task req
    >> validate_size cfg req
    >> validate_tokens cfg req
    >> validate_documents cfg req
    >> ok (normalise cfg req now)

-- `DeadlineRemaining`, with `now` read by `time.Until`.
unfoldable pub deadline_remaining : InferenceRequest → ℕ → ℤ
deadline_remaining req now =
    if eqb_ℤ req.deadline_unix_ms (pos 0)
    then pos (30 * 1_000_000_000)
    else milliseconds req.deadline_unix_ms -ℤ pos now
  where
    milliseconds : ℤ → ℤ
    milliseconds (pos n) = pos (n * 1_000_000)
    milliseconds (ℤ.negsuc n) = pos 0 -ℤ pos ((n + 1) * 1_000_000)
