-- ===== src/ControlPlane/Server.antt =====
-- The endpoints of services/control-plane/cmd/main.go for models, each a function of
-- the request's method and of its body as JSON decodes it, an error being `err`.
pub mod Refusals
mod Examples
use llm_platform.Common.{
  ℕ, String, Bool, true, false, Option, none, some, List, [], ◌∷◌, if◌then◌else◌, ◌==◌, Result, ok,
  err,
}
use llm_platform.Common.Dict.{Dict}
use llm_platform.ControlPlane.Registry.{
  Model, Statements, RegistryError, register, list_models, get_model, set_enabled,
}

-- What the text of a failure is made of.
pub data Failure : Type 0 where
  text : String → Failure
  of_registry : RegistryError → Failure

-- An answer: what `ok` encodes, or a status with its text.
pub data Reply (A : Type 0) : Type 0 where
  encoded : A → Reply A
  failed : ℕ → Failure → Reply A

unfoldable pub status : {A : Type 0} → Reply A → ℕ
status (encoded a) = 200
status (failed code f) = code

abbrev pub method_not_allowed : {A : Type 0} → Reply A
method_not_allowed = failed 405 (text "method not allowed")

pub data ModelsBody (Num : Type 0) : Type 0 where
  models : List (Model Num) → ModelsBody Num
  created : String → Bool → ModelsBody Num

pub data ModelBody (Num : Type 0) : Type 0 where
  model : Model Num → ModelBody Num
  done : ModelBody Num

-- A request to `/v1/models`, or to `/v1/models/` with the rest of its path; the verb comes first.
pub data Request (Num : Type 0) : Type 0 where
  to_models : String → Result String (Model Num) → Request Num
  to_model : String → String → Result String (Option Bool) → Request Num

module _ {Num : Type 0} {Db : Type 0} (st : Statements Num Db) (marshal : Dict String → String)
    (unmarshal : String → Dict String) where
  abbrev pub registration : String → Result RegistryError Bool → Reply (ModelsBody Num)
  registration id (err e) = failed 400 (of_registry e)
  registration id (ok b) = encoded (created id b)

  abbrev pub post_model : Db → Result String (Model Num) → Db × Reply (ModelsBody Num)
  post_model d (err e) = (d, failed 400 (text e))
  post_model d (ok m) =
      let r = register st marshal unmarshal d m in (r.0, registration m.model_id r.1)

  abbrev pub listing : Result String (List (Model Num)) → Reply (ModelsBody Num)
  listing (err e) = failed 500 (text e)
  listing (ok ms) = encoded (models ms)

  -- `/v1/models`
  unfoldable pub models_endpoint :
      Db → String → Result String (Model Num) → Db × Reply (ModelsBody Num)
  models_endpoint d verb body =
      if verb == "GET"
      then (d, listing (list_models st marshal unmarshal d false))
      else if verb == "POST"
      then post_model d body
      else (d, method_not_allowed)

  abbrev pub found : Result String (Option (Model Num)) → Reply (ModelBody Num)
  found (err e) = failed 500 (text e)
  found (ok none) = failed 404 (text "model not found")
  found (ok (some m)) = encoded (model m)

  abbrev pub switching : Result RegistryError (Unit {0}) → Reply (ModelBody Num)
  switching (err e) = failed 400 (of_registry e)
  switching (ok u) = encoded done

  -- The body of a PATCH is its field `enabled`, `none` if there is none.
  abbrev pub patch_model : Db → String → Result String (Option Bool) → Db × Reply (ModelBody Num)
  patch_model d id (err e) = (d, failed 400 (text e))
  patch_model d id (ok none) = (d, failed 400 (text "enabled field required"))
  patch_model d id (ok (some b)) =
      let r = set_enabled st marshal unmarshal d id b in (r.0, switching r.1)

  -- `/v1/models/` with what follows it in the path
  unfoldable pub model_endpoint :
      Db → String → String → Result String (Option Bool) → Db × Reply (ModelBody Num)
  model_endpoint d verb id body =
      if verb == "GET"
      then (d, found (get_model st marshal unmarshal d id))
      else if verb == "PATCH"
      then patch_model d id body
      else (d, method_not_allowed)

  -- What the two routes leave in the database, and the status that they answer.
  unfoldable pub serve_models : Db → Request Num → Db × ℕ
  serve_models d (to_models verb body) = let r = models_endpoint d verb body in (r.0, status r.1)
  serve_models d (to_model verb id body) =
      let r = model_endpoint d verb id body in (r.0, status r.1)
