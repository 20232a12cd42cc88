-- ===== src/ControlPlane/Registry/Stored.antt =====
-- What services/control-plane/internal/registry/registry.go stores is what it reads back.
use llm_platform.Common.{◌≡◌, String, some, List, if◌then◌else◌, ◌==◌, ok}
use llm_platform.Common.Int.{ℤ}
use llm_platform.Common.Dict.{Dict}
use llm_platform.ControlPlane.Registry.{
  Model, Statements, version_of, row_of, insert_caps, get_model,
}
use llm_platform.ControlPlane.Registry.Laws.{among, Works}

module _ {Num : Type 0} {Db : Type 0} (st : Statements Num Db) (marshal : Dict String → String)
    (unmarshal : String → Dict String) (w : Works st) where
  -- The model as `Get` gives it: the version filled in, the capabilities as they are listed, no times.
  abbrev pub read_back : Model Num → List String → Model Num
  read_back m caps = record m {
    version = version_of st marshal unmarshal m.version;
    capabilities = caps;
    created_at = 0;
    updated_at = 0;
  }

  abbrev pub IsReadBack : Db → Db → Model Num → Type 0
  IsReadBack d d' m =
      ((caps : List String) × (get_model st marshal unmarshal d' m.model_id
          ≡ ok (some (read_back m caps)))
        × ((t : String) → among t caps ≡ among t m.capabilities))
      × ((id : String)
          → get_model st marshal unmarshal d' id ≡ (
              if m.model_id == id
              then get_model st marshal unmarshal d' m.model_id
              else get_model st marshal unmarshal d id))

  module _ (d d₁ : Db) (m : Model Num) (n : ℤ)
      (u : st.upsert d (row_of st marshal unmarshal m) ≡ ok (d₁, n)) where
    abbrev with_caps : Db
    with_caps =
        insert_caps st marshal unmarshal (st.delete_caps d₁ m.model_id) m.model_id m.capabilities
