-- ===== src/ControlPlane/Server/Refusals.antt =====
-- A request that services/control-plane/cmd/main.go refuses changes no model.
use llm_platform.Common.{
  ◌≡◌, ◌≢◌, refl, ap, ◌∙◌, String, Bool, true, false, ◌||◌, Option, none, some, if◌then◌else◌, ◌==◌,
  Result, ok, err, eq_iff, subst,
}
use llm_platform.Common.Int.{ℤ, pos, eqb_ℤ}
use llm_platform.Common.Dict.{Dict}
use llm_platform.ControlPlane.Registry.{
  Model, Row, Statements, b2i, row_of, register, registered, get_model, set_enabled, updated_or_not,
  not_found, fields_required,
}
use llm_platform.ControlPlane.Registry.Laws.{Works, updated, IsAffected}
use llm_platform.ControlPlane.Registry.Alike.{get_model-alike}
use llm_platform.Router.Store.{Scanned, no_rows, failed, row}
use llm_platform.ControlPlane.Server.{
  Reply, status, models_endpoint, model_endpoint, post_model, patch_model, registration, switching,
  Request, to_models, to_model, serve_models,
}

module _ {Num : Type 0} {Db : Type 0} (st : Statements Num Db) (marshal : Dict String → String)
    (unmarshal : String → Dict String) where
  -- Every model is found as before, unless the answer is a success.
  abbrev IsKept : {A : Type 0} → Db → Db × Reply A → Type 0
  IsKept d (d', a) =
      status a ≢ 200
      → (id : String) → get_model st marshal unmarshal d' id ≡ get_model st marshal unmarshal d id

  if_IsKept :
      {A : Type 0} (d : Db) (b : Bool) (x y : Db × Reply A)
      → IsKept d x
      → IsKept d y
      → IsKept d (if b then x else y)
  if_IsKept d true x y p q = p
  if_IsKept d false x y p q = q

  registered-IsKept :
      (d : Db) (m : Model Num) (a : Result String (Db × ℤ))
      → let r = registered st marshal unmarshal d m a in
        IsKept d (r.0, registration st marshal unmarshal m.model_id r.1)
  unfolding registered status
  registered-IsKept d m (err e) = λ k id. refl
  registered-IsKept d m (ok (d', n)) = λ k id. absurd (k refl)

  post-IsKept :
      (d : Db) (body : Result String (Model Num))
      → IsKept d (post_model st marshal unmarshal d body)
  unfolding register status
  post-IsKept d (err e) = λ k id. refl
  post-IsKept d (ok m) =
      elim (m.model_id == "" || m.name == "" || m.tier == "")
        as (λ b.
          let r =
            if b
            then (d, err fields_required)
            else registered st marshal unmarshal d m
                (st.upsert d (row_of st marshal unmarshal m)) in
          IsKept d (r.0, registration st marshal unmarshal m.model_id r.1)) [
            | true ↦ λ k id. refl
            | false ↦ registered-IsKept d m (st.upsert d (row_of st marshal unmarshal m))
          ]

  -- A POST or a GET of `/v1/models` that is not answered with 200 leaves every model as it was found.
  models_endpoint-IsKept :
      (d : Db) (verb : String) (body : Result String (Model Num))
      → IsKept d (models_endpoint st marshal unmarshal d verb body)
  unfolding models_endpoint
  models_endpoint-IsKept d verb body =
      if_IsKept d (verb == "GET") _ _ (λ k id. refl)
        (if_IsKept d (verb == "POST") _ _ (post-IsKept d body) (λ k id. refl))

  not_updated :
      (n e : ℤ) (s : Scanned (Row Num)) → IsAffected n s → eqb_ℤ n (pos 0) ≡ true → updated e s ≡ s
  not_updated n e no_rows k z = refl
  not_updated n e (failed m) k z = refl
  not_updated n e (row r) k z =
      let one : eqb_ℤ n (pos 0) ≡ false = ap (λ (x : ℤ). eqb_ℤ x (pos 0)) k in absurd (cc)

  module _ (w : Works st) where
    -- A PATCH that changes no row leaves every model as it was.
    unchanged :
        (d d' : Db) (id : String) (b : Bool) (n : ℤ)
        → st.update d (b2i b) id ≡ ok (d', n)
        → eqb_ℤ n (pos 0) ≡ true
        → (j : String) → get_model st marshal unmarshal d' j ≡ get_model st marshal unmarshal d j
    unchanged d d' id b n u z j =
        get_model-alike st marshal unmarshal w d d' j
          (w.row-update d _ id d' n u j ∙ same (id == j) refl) (w.caps-update d _ id d' n u j)
      where
        same :
            (c : Bool)
            → (id == j) ≡ c
            → (if c then updated (b2i b) (st.query_row d j) else st.query_row d j)
              ≡ st.query_row d j
        same false h = refl
        same true h =
            let i = (eq_iff id j).0 h in
            not_updated n (b2i b) (st.query_row d j)
              (subst (λ (t : String). IsAffected n (st.query_row d t)) i
                (w.affected-update d _ id d' n u))
              z

    switched-IsKept :
        (d : Db) (id : String) (b : Bool) (a : Result String (Db × ℤ))
        → st.update d (b2i b) id ≡ a
        → let r = updated_or_not st marshal unmarshal d id a in
          IsKept d (r.0, switching st marshal unmarshal r.1)
    unfolding status
    switched-IsKept d id b (err e) u = λ k j. refl
    switched-IsKept d id b (ok (d', n)) u = by_rows (eqb_ℤ n (pos 0)) refl
      where
        by_rows :
            (z : Bool)
            → eqb_ℤ n (pos 0) ≡ z
            → IsKept d
                (d', switching st marshal unmarshal (if z then err (not_found id) else ok tt))
        by_rows true h = λ k. unchanged d d' id b n u h
        by_rows false h = λ k. absurd (k refl)

    patch-IsKept :
        (d : Db) (id : String) (body : Result String (Option Bool))
        → IsKept d (patch_model st marshal unmarshal d id body)
    unfolding set_enabled
    patch-IsKept d id (err e) = λ k j. refl
    patch-IsKept d id (ok none) = λ k j. refl
    patch-IsKept d id (ok (some b)) = switched-IsKept d id b (st.update d (b2i b) id) refl

    -- A request for models that is not answered with 200, whatever its route, its method and its body,
    -- leaves every model as `Get` found it. `w` says that the statements do what SQL promises.
    pub refused-unchanged :
        (d : Db) (q : Request Num)
        → (serve_models st marshal unmarshal d q).1 ≢ 200
        → (id : String)
        → get_model st marshal unmarshal (serve_models st marshal unmarshal d q).0 id
          ≡ get_model st marshal unmarshal d id
    unfolding serve_models model_endpoint
    refused-unchanged d (to_models verb body) = models_endpoint-IsKept d verb body
    refused-unchanged d (to_model verb model_id body) =
        if_IsKept d (verb == "GET") _ _ (λ k j. refl)
          (if_IsKept d (verb == "PATCH") _ _ (patch-IsKept d model_id body) (λ k j. refl))
