-- ===== src/ControlPlane/Registry/Laws.antt =====
-- What SQL promises of the statements of services/control-plane/internal/registry/registry.go.
use llm_platform.Common.{◌≡◌, String, Bool, false, ◌||◌, List, [], ◌∷◌, if◌then◌else◌, ◌==◌, ok}
use llm_platform.Common.Int.{ℤ, pos}
use llm_platform.Router.Store.{Scanned, no_rows, failed, row}
use llm_platform.ControlPlane.Registry.{Row, Statements}

-- Whether a text is among those given.
unfoldable pub among : String → List String → Bool
among t [] = false
among t (c ∷ cs) = (c == t) || among t cs

module _ {Num : Type 0} where
  -- The row of a model whose `enabled` an update sets.
  abbrev pub updated : ℤ → Scanned (Row Num) → Scanned (Row Num)
  updated e no_rows = no_rows
  updated e (failed m) = failed m
  updated e (row r) = row (record r { enabled = e })

  abbrev pub IsAffected : ℤ → Scanned (Row Num) → Type 0
  IsAffected n no_rows = n ≡ pos 0
  IsAffected n (failed m) = Unit
  IsAffected n (row r) = n ≡ pos 1

  -- What SQL promises of the statements: of the two that may fail, if they do not; of those on the table of
  -- capabilities, whose errors the source does not look at, that they do not fail.
  pub record Works {Db : Type 0} (st : Statements Num Db) : Type 0 where
    pub row-keyed :
        (d : Db) (id : String) (r : Row Num) → st.query_row d id ≡ row r → r.model_id ≡ id
    pub row-upsert :
        (d : Db) (r : Row Num) (d' : Db) (n : ℤ)
        → st.upsert d r ≡ ok (d', n)
        → (id : String)
        → st.query_row d' id ≡ (if r.model_id == id then row r else st.query_row d id)
    pub caps-upsert :
        (d : Db) (r : Row Num) (d' : Db) (n : ℤ)
        → st.upsert d r ≡ ok (d', n)
        → (id : String) → st.query_caps d' id ≡ st.query_caps d id
    pub affected-upsert :
        (d : Db) (r : Row Num) (d' : Db) (n : ℤ) → st.upsert d r ≡ ok (d', n) → n ≡ pos 1
    pub row-delete :
        (d : Db) (m id : String) → st.query_row (st.delete_caps d m) id ≡ st.query_row d id
    pub caps-delete :
        (d : Db) (m id : String)
        → st.query_caps (st.delete_caps d m) id ≡ (if m == id then [] else st.query_caps d id)
    pub row-insert :
        (d : Db) (m c id : String) → st.query_row (st.insert_cap d m c) id ≡ st.query_row d id
    pub caps-insert_other :
        (d : Db) (m c id : String)
        → (m == id) ≡ false
        → st.query_caps (st.insert_cap d m c) id ≡ st.query_caps d id
    pub among-insert :
        (d : Db) (m c t : String)
        → among t (st.query_caps (st.insert_cap d m c) m)
          ≡ ((c == t) || among t (st.query_caps d m))
    pub row-update :
        (d : Db) (e : ℤ) (id : String) (d' : Db) (n : ℤ)
        → st.update d e id ≡ ok (d', n)
        → (j : String)
        → st.query_row d' j ≡ (if id == j then updated e (st.query_row d j) else st.query_row d j)
    pub caps-update :
        (d : Db) (e : ℤ) (id : String) (d' : Db) (n : ℤ)
        → st.update d e id ≡ ok (d', n)
        → (j : String) → st.query_caps d' j ≡ st.query_caps d j
    pub affected-update :
        (d : Db) (e : ℤ) (id : String) (d' : Db) (n : ℤ)
        → st.update d e id ≡ ok (d', n)
        → IsAffected n (st.query_row d id)
