-- ===== src/ControlPlane/Registry/Examples.antt =====
-- A model that is registered and switched off, on the tables of ControlPlane.Registry.Table.
use llm_platform.Common.{
  ℕ, ◌≡◌, refl, String, true, false, some, List, [], ◌∷◌, ◌==◌, ok, if◌then◌else◌,
}
use llm_platform.Common.Int.{pos}
use llm_platform.Common.Dict.{Dict, delete}
use llm_platform.ControlPlane.Registry.{
  Model, Row, b2i, version_of, row_of, insert_caps, registered, register, model_of, get_model,
  set_enabled,
}
use llm_platform.ControlPlane.Registry.Laws.{among}
use llm_platform.ControlPlane.Registry.Switched.{IsSwitched, set_enabled-IsSwitched}
use llm_platform.ControlPlane.Registry.Table.{
  caps_of, insert_pair, find_row, put_row, enable_row, table, table-Works,
}

abbrev Tables : Type 0
Tables = List (Row ℕ) × Dict String

-- JSON at a map with no entries.
abbrev labels_json : Dict String → String
labels_json l = "{}"

abbrev labels_of : String → Dict String
labels_of s = []

abbrev small : Model ℕ
small = record {
  model_id = "gpt-small";
  version = "";
  name = "GPT Small";
  tier = "small";
  capabilities = "summarize" ∷ "chat" ∷ "chat" ∷ [];
  cost_per_1k = 2;
  avg_latency_ms = pos 200;
  max_tokens = pos 4096;
  executor_addr = "exec:50051";
  enabled = true;
  labels = [];
  created_at = 7;
  updated_at = 7;
}

abbrev after : Tables
after = (register table labels_json labels_of ([], []) small).0

capabilities_listed :
    (get_model table labels_json labels_of after "gpt-small")
    ≡ ok (
        some (record small {
          version = "v1";
          capabilities = "chat" ∷ "summarize" ∷ [];
          created_at = 0;
          updated_at = 0;
        }))
unfolding get_model model_of register registered insert_caps row_of version_of table find_row
    put_row caps_of insert_pair among b2i delete
capabilities_listed = refl

abbrev rows_now : List (Row ℕ) × Dict String
rows_now = (row_of table labels_json labels_of small ∷ [], [])

set_enabled-IsSwitched_example :
    IsSwitched table labels_json labels_of table-Works rows_now "gpt-small" false
      (get_model table labels_json labels_of rows_now "gpt-small")
      (set_enabled table labels_json labels_of rows_now "gpt-small" false)
    × ((j : String)
        → get_model table labels_json labels_of
            (set_enabled table labels_json labels_of rows_now "gpt-small" false).0
            j
          ≡ (if "gpt-small" == j
              then get_model table labels_json labels_of
                  (set_enabled table labels_json labels_of rows_now "gpt-small" false).0
                  "gpt-small"
              else get_model table labels_json labels_of rows_now j))
unfolding table find_row row_of
set_enabled-IsSwitched_example =
    set_enabled-IsSwitched table labels_json labels_of table-Works rows_now "gpt-small" false
      (enable_row rows_now.0 (b2i false) "gpt-small", []) (pos 1) refl
