-- ===== src/ControlPlane/Registry/Table.antt =====
-- A database for services/control-plane/internal/registry/registry.go that does what SQL promises: the
-- rows of `models`, and the pairs of `model_capabilities`, which are listed in no order.
use llm_platform.Common.{
  ◌≡◌, refl, ap, sym, ◌∙◌, subst, String, Bool, true, false, ◌||◌, List, [], ◌∷◌, if◌then◌else◌,
  ◌==◌, Result, ok, err, arith, eq_refl, eq_iff,
}
use llm_platform.Common.Int.{ℤ, pos, eqb_ℤ}
use llm_platform.Common.Dict.{Dict, delete}
use llm_platform.Router.Store.{Scanned, no_rows, failed, row}
use llm_platform.ControlPlane.Registry.{Row, Statements}
use llm_platform.ControlPlane.Registry.Laws.{Works, among, updated, IsAffected}

unfoldable pub caps_of : Dict String → String → List String
caps_of [] id = []
caps_of ((m, c) ∷ cs) id = let rest = caps_of cs id in if m == id then c ∷ rest else rest

-- `INSERT OR IGNORE`, the pair being the key.
unfoldable pub insert_pair : Dict String → String → String → Dict String
insert_pair cs m c = if among c (caps_of cs m) then cs else (m, c) ∷ cs

caps_of-delete :
    (cs : Dict String) (m id : String)
    → caps_of (delete cs m) id ≡ (if m == id then [] else caps_of cs id)
unfolding caps_of delete
caps_of-delete [] m id = ground arith
caps_of-delete ((j, c) ∷ cs) m id =
    ground (arith, eq_iff j m, eq_iff j id, eq_iff m id, caps_of-delete cs m id)

caps_of-insert_other :
    (cs : Dict String) (m c id : String)
    → (m == id) ≡ false
    → caps_of (insert_pair cs m c) id ≡ caps_of cs id
unfolding caps_of insert_pair
caps_of-insert_other cs m c id h = ground arith

among-same :
    (c t : String) (l : List String) → among c l ≡ true → (c == t) ≡ true → among t l ≡ true
among-same c t l p q = ground (arith, eq_iff c t)

among-insert_pair :
    (cs : Dict String) (m c t : String)
    → among t (caps_of (insert_pair cs m c) m) ≡ ((c == t) || among t (caps_of cs m))
unfolding caps_of insert_pair among
among-insert_pair cs m c t = ground (arith, eq_refl m, among-same c t (caps_of cs m))

-- What a statement that has no error answered.
abbrev answer_or : {A : Type 0} → A → Result String A → A
answer_or a (ok b) = b
answer_or a (err e) = a

answered : {A : Type 0} (a b : A) → ◌≡◌ {A = Result String A} (ok a) (ok b) → b ≡ a
answered a b h = sym (ap (answer_or a) h)

module _ {Num : Type 0} where
  unfoldable pub find_row : List (Row Num) → String → Scanned (Row Num)
  find_row [] id = no_rows
  find_row (r ∷ rs) id = if r.model_id == id then row r else find_row rs id

  unfoldable pub put_row : List (Row Num) → Row Num → List (Row Num)
  put_row [] r = r ∷ []
  put_row (q ∷ qs) r = if q.model_id == r.model_id then r ∷ qs else q ∷ put_row qs r

  unfoldable pub enable_row : List (Row Num) → ℤ → String → List (Row Num)
  enable_row [] e id = []
  enable_row (r ∷ rs) e id =
      (if r.model_id == id then record r { enabled = e } else r) ∷ enable_row rs e id

  unfoldable pub rows_of : List (Row Num) → Bool → List (Result String (Row Num))
  rows_of [] b = []
  rows_of (r ∷ rs) b =
      let rest = rows_of rs b in
      if b then (if eqb_ℤ r.enabled (pos 1) then ok r ∷ rest else rest) else ok r ∷ rest

  abbrev pub changed : Scanned (Row Num) → ℤ
  changed no_rows = pos 0
  changed (failed e) = pos 0
  changed (row r) = pos 1

  find_row-put_row :
      (rs : List (Row Num)) (r : Row Num) (id : String)
      → find_row (put_row rs r) id ≡ (if r.model_id == id then row r else find_row rs id)
  unfolding find_row put_row
  find_row-put_row [] r id = refl
  find_row-put_row (q ∷ qs) r id = ground (
    arith,
    eq_iff q.model_id id,
    eq_iff q.model_id r.model_id,
    eq_iff r.model_id id,
    find_row-put_row qs r id,
  )

  find_row-keyed :
      (rs : List (Row Num)) (id : String) (r : Row Num) → find_row rs id ≡ row r → r.model_id ≡ id
  unfolding find_row
  find_row-keyed [] id r h = absurd (cc)
  find_row-keyed (q ∷ qs) id r h = ground (arith, eq_iff q.model_id id, find_row-keyed qs id r)

  find_row-enable_row :
      (rs : List (Row Num)) (e : ℤ) (id j : String)
      → find_row (enable_row rs e id) j
        ≡ (if id == j then updated e (find_row rs j) else find_row rs j)
  unfolding find_row enable_row
  find_row-enable_row [] e id j = ground arith
  find_row-enable_row (q ∷ qs) e id j =
      ground (
        arith,
        eq_iff q.model_id id,
        eq_iff q.model_id j,
        eq_iff id j,
        find_row-enable_row qs e id j,
      )

  unfoldable pub table : Statements Num (List (Row Num) × Dict String)
  table = record {
    upsert = λ d r. ok ((put_row d.0 r, d.1), pos 1);
    delete_caps = λ d id. (d.0, delete d.1 id);
    insert_cap = λ d id c. (d.0, insert_pair d.1 id c);
    query_models = λ d b. ok (rows_of d.0 b, ok tt);
    query_row = λ d id. find_row d.0 id;
    update = λ d e id. ok ((enable_row d.0 e id, d.1), changed (find_row d.0 id));
    query_caps = λ d id. caps_of d.1 id;
  }

  changed-IsAffected : (s : Scanned (Row Num)) → IsAffected (changed s) s
  changed-IsAffected no_rows = refl
  changed-IsAffected (failed e) = tt
  changed-IsAffected (row r) = refl

  pub table-Works : Works table
  unfolding table
  table-Works = record {
    row-keyed = λ d id r h. find_row-keyed d.0 id r h;
    row-upsert = λ d r d' n h id.
        ap (λ (x : (List (Row Num) × Dict String) × ℤ). find_row x.0.0 id) (answered _ (d', n) h)
        ∙ find_row-put_row d.0 r id;
    caps-upsert = λ d r d' n h id.
        ap (λ (x : (List (Row Num) × Dict String) × ℤ). caps_of x.0.1 id) (answered _ (d', n) h);
    affected-upsert =
        λ d r d' n h. ap (λ (x : (List (Row Num) × Dict String) × ℤ). x.1) (answered _ (d', n) h);
    row-delete = λ d m id. refl;
    caps-delete = λ d m id. caps_of-delete d.1 m id;
    row-insert = λ d m c id. refl;
    caps-insert_other = λ d m c id h. caps_of-insert_other d.1 m c id h;
    among-insert = λ d m c t. among-insert_pair d.1 m c t;
    row-update = λ d e id d' n h j.
        ap (λ (x : (List (Row Num) × Dict String) × ℤ). find_row x.0.0 j) (answered _ (d', n) h)
        ∙ find_row-enable_row d.0 e id j;
    caps-update = λ d e id d' n h j.
        ap (λ (x : (List (Row Num) × Dict String) × ℤ). caps_of x.0.1 j) (answered _ (d', n) h);
    affected-update = λ d e id d' n h.
        subst (λ (k : ℤ). IsAffected k (find_row d.0 id))
          (sym (ap (λ (x : (List (Row Num) × Dict String) × ℤ). x.1) (answered _ (d', n) h)))
          (changed-IsAffected (find_row d.0 id));
  }
