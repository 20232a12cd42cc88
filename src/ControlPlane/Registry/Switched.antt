-- ===== src/ControlPlane/Registry/Switched.antt =====
-- What switching a model does in services/control-plane/internal/registry/registry.go.
use llm_platform.Common.{
  ◌≡◌, refl, ap, sym, ◌∙◌, String, Bool, true, false, Option, none, some, if◌then◌else◌, ◌==◌,
  Result, ok, err, eq_refl,
}
use llm_platform.Common.Int.{ℤ, pos, eqb_ℤ}
use llm_platform.Common.Dict.{Dict}
use llm_platform.Router.Store.{Scanned, no_rows, failed, row}
use llm_platform.ControlPlane.Registry.{
  Model, Row, Statements, RegistryError, not_found, b2i, model_of, get_model, set_enabled,
  scanned_model,
}
use llm_platform.ControlPlane.Registry.Laws.{updated, IsAffected, Works}
use llm_platform.ControlPlane.Registry.Alike.{enabled_bit, apart, get_model-alike}

module _ {Num : Type 0} {Db : Type 0} (st : Statements Num Db) (marshal : Dict String → String)
    (unmarshal : String → Dict String) (w : Works st) where
  -- What switching a model on or off comes to, by what `Get` found before.
  abbrev pub IsSwitched :
      Db
      → String
      → Bool
      → Result String (Option (Model Num))
      → Db × Result RegistryError (Unit {0})
      → Type 0
  IsSwitched d id b (ok none) (d', a) =
      (a ≡ err (not_found id)) × (get_model st marshal unmarshal d' id ≡ ok none)
  IsSwitched d id b (ok (some m)) (d', a) =
      (a ≡ ok tt) × (get_model st marshal unmarshal d' id ≡ ok (some (record m { enabled = b })))
  IsSwitched d id b (err e) (d', a) = Unit

  switched :
      (d d' : Db) (id : String) (b : Bool) (n : ℤ) (s : Scanned (Row Num))
      → ((r : Row Num) → s ≡ row r → r.model_id ≡ id)
      → st.query_row d' id ≡ updated (b2i b) s
      → st.query_caps d' id ≡ st.query_caps d id
      → IsAffected n s
      → IsSwitched d id b
          (scanned_model st marshal unmarshal d s)
          (d', if eqb_ℤ n (pos 0) then err (not_found id) else ok tt)
  unfolding get_model model_of
  switched d d' id b n no_rows key r c k =
      let z : eqb_ℤ n (pos 0) ≡ true = ap (λ (x : ℤ). eqb_ℤ x (pos 0)) k in
      (
        ap (λ (t : Bool). if t then err (not_found id) else ok tt) z,
        ap (scanned_model st marshal unmarshal d') r,
      )
  switched d d' id b n (failed e) key r c k = tt
  switched d d' id b n (row o) key r c k =
      let z : eqb_ℤ n (pos 0) ≡ false = ap (λ (x : ℤ). eqb_ℤ x (pos 0)) k in
      let i = key o refl in
      let caps : st.query_caps d' o.model_id ≡ st.query_caps d o.model_id =
        ap (st.query_caps d') i ∙ (c ∙ sym (ap (st.query_caps d) i)) in
      (
        ap (λ (t : Bool). if t then err (not_found id) else ok tt) z,
        ap (scanned_model st marshal unmarshal d') r ∙ (rw (enabled_bit b, caps) refl),
      )

  -- If the update's statement has no error, switching a model that `Get` finds succeeds, and `Get` then
  -- finds it with the new `enabled` and otherwise as it was; switching a model that is not there is
  -- refused as not found, and it is still not there; where `Get` failed, nothing is said of the model. Every
  -- other model is found as before.
  pub set_enabled-IsSwitched :
      (d : Db) (id : String) (b : Bool) (d' : Db) (n : ℤ)
      → st.update d (b2i b) id ≡ ok (d', n)
      → IsSwitched d id b
          (get_model st marshal unmarshal d id)
          (set_enabled st marshal unmarshal d id b)
        × ((j : String)
            → get_model st marshal unmarshal (set_enabled st marshal unmarshal d id b).0 j ≡ (
                if id == j
                then get_model st marshal unmarshal (set_enabled st marshal unmarshal d id b).0 id
                else get_model st marshal unmarshal d j))
  unfolding set_enabled get_model
  set_enabled-IsSwitched d id b d' n u =
      let self =
        w.row-update d _ id d' n u id
        ∙ ap (λ (t : Bool). if t then updated (b2i b) (st.query_row d id) else st.query_row d id)
            (eq_refl id) in
      rw u (
        (
          switched d d' id b n (st.query_row d id) (w.row-keyed d id) self
              (w.caps-update d _ id d' n u id) (w.affected-update d _ id d' n u),
          λ j.
              apart (get_model st marshal unmarshal d') (get_model st marshal unmarshal d) id j
                (λ h.
                  get_model-alike st marshal unmarshal w d d' j
                    (w.row-update d _ id d' n u j
                      ∙ ap
                          (λ (t : Bool).
                            if t then updated (b2i b) (st.query_row d j) else st.query_row d j)
                          h)
                    (w.caps-update d _ id d' n u j)),
        ))
