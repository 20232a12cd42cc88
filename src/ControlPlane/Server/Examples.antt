-- ===== src/ControlPlane/Server/Examples.antt =====
-- A model that is switched off although it was never registered.
use llm_platform.Common.{ℕ, ◌≡◌, refl, String, false, some, List, [], ◌∷◌, ok, arith}
use llm_platform.Common.Dict.{Dict}
use llm_platform.Common.Int.{pos}
use llm_platform.ControlPlane.Registry.{Row, get_model, set_enabled}
use llm_platform.ControlPlane.Registry.Table.{table, table-Works, find_row}
use llm_platform.ControlPlane.Server.{Request, to_model, serve_models, model_endpoint, status}
use llm_platform.ControlPlane.Server.Refusals.{refused-unchanged}

abbrev labels_json : Dict String → String
labels_json l = "{}"

abbrev labels_of : String → Dict String
labels_of s = []

abbrev rows : List (Row ℕ) × Dict String
rows = (
  record {
    model_id = "gpt-small";
    version = "v1";
    name = "GPT Small";
    tier = "small";
    cost_per_1k = 2;
    avg_latency_ms = pos 200;
    max_tokens = pos 4096;
    executor_addr = "exec:50051";
    enabled = pos 1;
    labels = "{}";
  }
      ∷ [],
  [],
)

abbrev switch_off : Request ℕ
switch_off = to_model "PATCH" "gpt-tiny" (ok (some false))

answered_400 : (serve_models table labels_json labels_of rows switch_off).1 ≡ 400
unfolding serve_models model_endpoint status set_enabled table find_row
answered_400 = refl

refused-unchanged_example :
    get_model table labels_json labels_of
      (serve_models table labels_json labels_of rows switch_off).0
      "gpt-small"
    ≡ get_model table labels_json labels_of rows "gpt-small"
refused-unchanged_example =
    refused-unchanged table labels_json labels_of table-Works rows switch_off
      (omega (arith, answered_400)) "gpt-small"
