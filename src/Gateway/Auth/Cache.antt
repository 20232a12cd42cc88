-- ===== src/Gateway/Auth/Cache.antt =====
-- How long an answer of the database is used.
use llm_platform.Common.{
  ℕ, ◌+◌, ◌≡◌, refl, sym, ap, ◌∙◌, String, Bool-cases, inl, inr, Option, none, some, ltb,
  if◌then◌else◌, ◌==◌, eq_refl, Result, ok, err,
}
use llm_platform.Common.Dict.{get, put, get-put_self, delete, get-delete}
use llm_platform.Gateway.Auth.{
  Principal, CacheEntry, Store, cache_ttl, Row, found, no_rows, failed, AuthError, unauthorized,
  store_failure, cached, validate, invalidate,
}

-- What the database says, as an answer to the caller.
pub answer : Row → Result AuthError Principal
answer (found p) = ok p
answer no_rows = err unauthorized
answer failed = err store_failure

validate-miss :
    (s : Store) (key : String) (now later : ℕ) (row : Row)
    → cached s key now ≡ none
    → (validate s key now later row).1 ≡ answer row
unfolding validate answer
validate-miss s key now later (found p) e = rw (e, validate) refl
validate-miss s key now later no_rows e = rw (e, validate) refl
validate-miss s key now later failed e = rw (e, validate) refl

validate-hit :
    (s : Store) (key : String) (now later : ℕ) (row : Row) (p : Principal)
    → cached s key now ≡ some p
    → (validate s key now later row).1 ≡ ok p
unfolding validate
validate-hit s key now later row p e = rw (e, validate) refl

validate-stores :
    (s : Store) (key : String) (now later : ℕ) (p : Principal)
    → cached s key now ≡ none
    → (validate s key now later (found p)).0
      ≡ put s key (record { principal = p; expires_at = later + cache_ttl })
unfolding validate
validate-stores s key now later p e = rw (e, validate) refl

usable : Option CacheEntry → ℕ → Option Principal
usable none now = none
usable (some entry) now = if ltb now entry.expires_at then some entry.principal else none

cached-get : (s : Store) (key : String) (now : ℕ) → cached s key now ≡ usable (get s key) now
unfolding cached usable
cached-get s key now = go (get s key)
  where
    go :
        (o : Option CacheEntry)
        → Path
            (Option Principal)
            (elim o [
              | none ↦ none
              | some entry ↦ if ltb now entry.expires_at then some entry.principal else none
            ])
            (usable o now)
    go none = refl
    go (some e) = refl

-- A key that was looked up is answered from the cache, whatever the database would say by then,
-- until 60 s later; from then on the database is asked again.
pub validate-cached :
    (s : Store) (key : String) (now later at : ℕ) (p : Principal) (row : Row)
    → cached s key now ≡ none
    → (validate (validate s key now later (found p)).0 key at at row).1
      ≡ (if ltb at (later + cache_ttl) then ok p else answer row)
unfolding usable
validate-cached s key now later at p row miss =
    let entry : CacheEntry = record { principal = p; expires_at = later + cache_ttl } in
    let stored = validate-stores s key now later p miss in
    let s' = (validate s key now later (found p)).0 in
    let e : cached s' key at ≡ (if ltb at (later + cache_ttl) then some p else none) =
      cached-get s' key at
      ∙ ap (λ t. usable (get t key) at) stored
      ∙ ap (λ o. usable o at) (get-put_self s key entry) in
    elim (Bool-cases (ltb at (later + cache_ttl))) [
      | inl early ↦ rw early (validate-hit s' key at at row p (rw early at e))
      | inr late ↦ rw late (validate-miss s' key at at row (rw late at e))
    ]

-- After `Invalidate` the database is asked, and its answer is what the caller gets; other keys are
-- cached as before.
pub validate-invalidate :
    (s : Store) (key other : String) (now later : ℕ) (row : Row)
    → ((validate (invalidate s key) key now later row).1 ≡ answer row)
      × (cached (invalidate s key) other now ≡ (if key == other then none else cached s other now))
unfolding invalidate usable
validate-invalidate s key other now later row =
    let gone : get (delete s key) key ≡ none = get-delete s key key ∙ rw (eq_refl key) refl in
    (
      validate-miss (delete s key) key now later row
          (cached-get (delete s key) key now ∙ ap (λ o. usable o now) gone),
      cached-get (delete s key) other now
          ∙ ap (λ o. usable o now) (get-delete s key other)
          ∙ elim (Bool-cases (key == other)) [
            | inl e ↦ rw e refl
            | inr e ↦ rw e (sym (cached-get s other now))
          ],
    )
