-- ===== src/ControlPlane/Registry/Alike.antt =====
-- When services/control-plane/internal/registry/registry.go gives a model back as before.
use llm_platform.Common.{
  ◌≡◌, refl, ap, sym, ◌∙◌, String, Bool, true, false, some, List, if◌then◌else◌, ◌==◌, ok, eq_iff,
}
use llm_platform.Common.Int.{pos, eqb_ℤ}
use llm_platform.Common.Dict.{Dict}
use llm_platform.Router.Store.{Scanned, no_rows, failed, row}
use llm_platform.ControlPlane.Registry.{Row, Statements, b2i, model_of, get_model, scanned_model}
use llm_platform.ControlPlane.Registry.Laws.{Works}

pub enabled_bit : (b : Bool) → eqb_ℤ (b2i b) (pos 1) ≡ b
unfolding b2i
enabled_bit true = refl
enabled_bit false = refl

-- What holds of every key but one holds of all, with that one apart.
pub apart :
    {A : Type 0} (f g : String → A) (k j : String)
    → ((k == j) ≡ false → f j ≡ g j)
    → f j ≡ (if k == j then f k else g j)
apart f g k j h = by_test (k == j) refl
  where
    by_test : (b : Bool) → (k == j) ≡ b → f j ≡ (if b then f k else g j)
    by_test true e = ap f (sym ((eq_iff k j).0 e))
    by_test false e = h e

module _ {Num : Type 0} {Db : Type 0} (st : Statements Num Db) (marshal : Dict String → String)
    (unmarshal : String → Dict String) (w : Works st) where
  -- A database that answers alike for a model gives it back alike.
  pub get_model-alike :
      (d d' : Db) (id : String)
      → st.query_row d' id ≡ st.query_row d id
      → st.query_caps d' id ≡ st.query_caps d id
      → get_model st marshal unmarshal d' id ≡ get_model st marshal unmarshal d id
  unfolding get_model model_of
  get_model-alike d d' id p q =
      ap (scanned_model st marshal unmarshal d') p ∙ alike (st.query_row d id) (w.row-keyed d id)
    where
      alike :
          (s : Scanned (Row Num))
          → ((r : Row Num) → s ≡ row r → r.model_id ≡ id)
          → scanned_model st marshal unmarshal d' s ≡ scanned_model st marshal unmarshal d s
      alike no_rows h = refl
      alike (failed e) h = refl
      alike (row r) h =
          ap
            (λ (caps : List String).
              ok (some (record (model_of st marshal unmarshal d r) { capabilities = caps })))
            (ap (st.query_caps d') (h r refl) ∙ (q ∙ sym (ap (st.query_caps d) (h r refl))))
