-- ===== src/ControlPlane/Registry.antt =====
-- services/control-plane/internal/registry/registry.go: `Registry`. The record `Statements` has one
-- operation for each SQL statement of the file, on a database that is a parameter: what a statement
-- leaves there, with the error or the rows that it answers. A time is a number, 0 being the zero time.
pub mod Laws
pub mod Alike
pub mod Stored
pub mod Switched
pub mod Table
mod Examples
use llm_platform.Common.{
  ℕ, String, Bool, true, false, ◌||◌, Option, none, some, List, [], ◌∷◌, if◌then◌else◌, ◌==◌,
  Result, ok, err, ◌>>=◌,
}
use llm_platform.Common.Int.{ℤ, pos, eqb_ℤ, ltb_ℤ}
use llm_platform.Common.Dict.{Dict}
use llm_platform.Router.Store.{Scanned, no_rows, failed, row}

module _ (Num : Type 0) where
  pub record Model : Type 0 where
    pub model_id : String
    pub version : String
    pub name : String
    pub tier : String
    pub capabilities : List String
    pub cost_per_1k : Num
    pub avg_latency_ms : ℤ
    pub max_tokens : ℤ
    pub executor_addr : String
    pub enabled : Bool
    pub labels : Dict String
    pub created_at : ℕ
    pub updated_at : ℕ

  -- The columns that the statements name.
  pub record Row : Type 0 where
    pub model_id : String
    pub version : String
    pub name : String
    pub tier : String
    pub cost_per_1k : Num
    pub avg_latency_ms : ℤ
    pub max_tokens : ℤ
    pub executor_addr : String
    pub enabled : ℤ
    pub labels : String

  -- `upsert` and `update` answer `RowsAffected`. The source ignores the errors of the statements on
  -- `model_capabilities`. `query_models` answers the rows, one of which may not scan, and `rows.Err()`.
  pub record Statements (Db : Type 0) : Type 0 where
    pub upsert : Db → Row → Result String (Db × ℤ)
    pub delete_caps : Db → String → Db
    pub insert_cap : Db → String → String → Db
    pub query_models :
        Db → Bool → Result String (List (Result String Row) × Result String (Unit {0}))
    pub query_row : Db → String → Scanned Row
    pub update : Db → ℤ → String → Result String (Db × ℤ)
    pub query_caps : Db → String → List String

pub data RegistryError : Type 0 where
  fields_required : RegistryError
  not_found : String → RegistryError
  database : String → RegistryError

unfoldable pub b2i : Bool → ℤ
b2i true = pos 1
b2i false = pos 0

-- `marshal` and `unmarshal` are those of JSON at a map of texts.
module _ {Num : Type 0} {Db : Type 0} (st : Statements Num Db) (marshal : Dict String → String)
    (unmarshal : String → Dict String) where
  -- `if m.Version == "" { m.Version = "v1" }`
  unfoldable pub version_of : String → String
  version_of v = if v == "" then "v1" else v

  unfoldable pub row_of : Model Num → Row Num
  row_of m = record {
    model_id = m.model_id;
    version = version_of m.version;
    name = m.name;
    tier = m.tier;
    cost_per_1k = m.cost_per_1k;
    avg_latency_ms = m.avg_latency_ms;
    max_tokens = m.max_tokens;
    executor_addr = m.executor_addr;
    enabled = b2i m.enabled;
    labels = marshal m.labels;
  }

  -- The loop over `m.Capabilities`.
  unfoldable pub insert_caps : Db → String → List String → Db
  insert_caps d model_id [] = d
  insert_caps d model_id (cap ∷ caps) = insert_caps (st.insert_cap d model_id cap) model_id caps

  -- What `Register` does with the answer of the first statement.
  unfoldable pub registered :
      Db → Model Num → Result String (Db × ℤ) → Db × Result RegistryError Bool
  registered d m (err e) = (d, err (database e))
  registered d m (ok (d', rows)) = (
    insert_caps (st.delete_caps d' m.model_id) m.model_id m.capabilities,
    ok (ltb_ℤ (pos 0) rows),
  )

  unfoldable pub register : Db → Model Num → Db × Result RegistryError Bool
  register d m =
      if m.model_id == "" || m.name == "" || m.tier == ""
      then (d, err fields_required)
      else registered d m (st.upsert d (row_of m))

  -- What `List` and `Get` make of a row that they scanned.
  unfoldable pub model_of : Db → Row Num → Model Num
  model_of d r = record {
    model_id = r.model_id;
    version = r.version;
    name = r.name;
    tier = r.tier;
    capabilities = st.query_caps d r.model_id;
    cost_per_1k = r.cost_per_1k;
    avg_latency_ms = r.avg_latency_ms;
    max_tokens = r.max_tokens;
    executor_addr = r.executor_addr;
    enabled = eqb_ℤ r.enabled (pos 1);
    labels = unmarshal r.labels;
    created_at = 0;
    updated_at = 0;
  }

  -- The loop of `List`; the rows that come after a failed scan are not read.
  unfoldable pub scan_models :
      Db
      → List (Result String (Row Num))
      → Result String (Unit {0})
      → Result String (List (Model Num))
  scan_models d [] rows_err = rows_err >>= λ _. ok []
  scan_models d (err e ∷ rows) rows_err = err e
  scan_models d (ok r ∷ rows) rows_err =
      scan_models d rows rows_err >>= λ out. ok (model_of d r ∷ out)

  unfoldable pub list_models : Db → Bool → Result String (List (Model Num))
  list_models d enabled_only = elim (st.query_models d enabled_only) [
    | err e ↦ err e
    | ok (rows, rows_err) ↦ scan_models d rows rows_err
  ]

  abbrev pub scanned_model : Db → Scanned (Row Num) → Result String (Option (Model Num))
  scanned_model d no_rows = ok none
  scanned_model d (failed e) = err e
  scanned_model d (row r) = ok (some (model_of d r))

  -- `Get`, a nil model being `none`.
  unfoldable pub get_model : Db → String → Result String (Option (Model Num))
  get_model d model_id = scanned_model d (st.query_row d model_id)

  abbrev pub updated_or_not :
      Db → String → Result String (Db × ℤ) → Db × Result RegistryError (Unit {0})
  updated_or_not d model_id (err e) = (d, err (database e))
  updated_or_not d model_id (ok (d', n)) =
      (d', if eqb_ℤ n (pos 0) then err (not_found model_id) else ok tt)

  unfoldable pub set_enabled : Db → String → Bool → Db × Result RegistryError (Unit {0})
  set_enabled d model_id enabled = updated_or_not d model_id (st.update d (b2i enabled) model_id)
