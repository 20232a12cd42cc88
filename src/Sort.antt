-- ===== src/Sort.antt =====
-- The insertion sort that the program writes out by hand three times:
--   for i := 1; i < n; i++ { for j := i; j > 0 && before(v[j], v[j-1]); j-- { swap } }
-- The part of the slice left of the moving element is a list read from its right end.
use mathlib.Core.List.{Perm, reverse_perm, reverse-cons, perm_middle, append-nil, append_assoc}
use mathlib.Core.List.Perm
use llm_platform.Common.{
  ◌≡◌, refl, sym, ◌∙◌, inl, inr, Bool, true, false, Bool-cases, List, [], ◌∷◌, ◌++◌, reverse, arith,
  All, length, length-reverse, ◌+◌, if◌then◌else◌,
}

module _ {ℓ} {A : Type ℓ} where
  -- `for j := i; j > 0 && before(v[j], v[j-1]); j--`
  unfoldable pub sink : (A → A → Bool) → A → List A → List A
  sink before x [] = x ∷ []
  sink before x (y ∷ ys) =
      let rest = sink before x ys in if before x y then y ∷ rest else x ∷ y ∷ ys

  -- `for i := 1; i < n; i++`
  unfoldable pub sort_loop : (A → A → Bool) → List A → List A → List A
  unfolding sink
  sort_loop before left [] = reverse left
  sort_loop before left (x ∷ rest) = sort_loop before (sink before x left) rest

  unfoldable pub insertion_sort : (A → A → Bool) → List A → List A
  unfolding sort_loop
  insertion_sort before xs = sort_loop before [] xs

  -- The elements that pass a test.
  unfoldable pub select : (A → Bool) → List A → List A
  select test [] = []
  select test (x ∷ xs) = let rest = select test xs in if test x then x ∷ rest else rest

  -- No element goes before one that stands left of it.
  abbrev pub IsRanked : (A → A → Bool) → List A → Type ℓ
  IsRanked before [] = Unit
  IsRanked before (x ∷ xs) = All (λ y. before y x ≡ false) xs × IsRanked before xs

module _ {ℓ} {A : Type ℓ} where
  All-append {μ} : (P : A → Type μ) (xs ys : List A) → All P xs → All P ys → All P (xs ++ ys)
  All-append P [] ys h k = k
  All-append P (x ∷ xs) ys h k = (h.0, All-append P xs ys h.1 k)

  All-reverse {μ} : (P : A → Type μ) (xs : List A) → All P xs → All P (reverse xs)
  All-reverse P [] h = tt
  All-reverse P (x ∷ xs) h =
      rw (reverse-cons x xs) (All-append P (reverse xs) (x ∷ []) (All-reverse P xs h.1) (h.0, tt))

module _ {ℓ} {A : Type ℓ} (before : A → A → Bool) where
  sink-All {μ} : (P : A → Type μ) (x : A) (ys : List A) → P x → All P ys → All P (sink before x ys)
  unfolding sink
  sink-All P x [] p h = (p, tt)
  sink-All P x (y ∷ ys) p h = elim (Bool-cases (before x y)) [
    | inl e ↦ rw e (h.0, sink-All P x ys p h.1)
    | inr e ↦ rw e (p, h)
  ]

  sort_loop-All {μ} :
      (P : A → Type μ) (left rest : List A)
      → All P left
      → All P rest
      → All P (sort_loop before left rest)
  unfolding sort_loop
  sort_loop-All P left [] h k = All-reverse P left h
  sort_loop-All P left (x ∷ rest) h k =
      sort_loop-All P (sink before x left) rest (sink-All P x left k.0 h) k.1

  -- What holds of every element holds of every element of the sorted list.
  pub insertion_sort-All {μ} :
      (P : A → Type μ) (xs : List A) → All P xs → All P (insertion_sort before xs)
  unfolding insertion_sort
  insertion_sort-All P xs h = sort_loop-All P [] xs tt h

  sink-perm : (x : A) (ys : List A) → Perm (sink before x ys) (x ∷ ys)
  unfolding sink
  sink-perm x [] = Perm.refl _
  sink-perm x (y ∷ ys) = elim (Bool-cases (before x y)) [
    | inl e ↦ rw e (Perm.trans (Perm.cons y (sink-perm x ys)) (Perm.swap x y ys))
    | inr e ↦ rw e (Perm.refl _)
  ]

  sort_loop-perm : (left rest : List A) → Perm (sort_loop before left rest) (left ++ rest)
  unfolding sort_loop
  sort_loop-perm left [] = rw append-nil (reverse_perm left)
  sort_loop-perm left (x ∷ rest) =
      Perm.trans (sort_loop-perm (sink before x left) rest)
        (Perm.trans (Perm.append_right rest (sink-perm x left)) (Perm.symm (perm_middle left rest)))

  pub insertion_sort-perm : (xs : List A) → Perm (insertion_sort before xs) xs
  unfolding insertion_sort
  insertion_sort-perm xs = sort_loop-perm [] xs

  length-sink : (x : A) (ys : List A) → length (sink before x ys) ≡ length ys + 1
  unfolding sink
  length-sink x [] = refl
  length-sink x (y ∷ ys) = ground (arith, length-sink x ys)

  length-sort_loop :
      (left rest : List A) → length (sort_loop before left rest) ≡ length left + length rest
  unfolding sort_loop
  length-sort_loop left [] = omega (arith, length-reverse left)
  length-sort_loop left (x ∷ rest) =
      omega (arith, length-sort_loop (sink before x left) rest, length-sink x left)

  pub length-insertion_sort : (xs : List A) → length (insertion_sort before xs) ≡ length xs
  unfolding insertion_sort
  length-insertion_sort xs = omega (arith, length-sort_loop [] xs)

  -- Elements that the test never lets pass one another keep their order.
  module _ (test : A → Bool)
      (level : (x y : A) → test x ≡ true → test y ≡ true → before x y ≡ false) where
    sink-select : (x : A) (ys : List A) → select test (sink before x ys) ≡ select test (x ∷ ys)
    unfolding sink select
    sink-select x [] = refl
    sink-select x (y ∷ ys) = ground (arith, sink-select x ys, level x y)

    select-append : (xs ys : List A) → select test (xs ++ ys) ≡ select test xs ++ select test ys
    unfolding select
    select-append [] ys = refl
    select-append (x ∷ xs) ys = ground (arith, select-append xs ys)

    select-reverse : (xs : List A) → select test (reverse xs) ≡ reverse (select test xs)
    unfolding select
    select-reverse [] = refl
    select-reverse (x ∷ xs) =
        rw (reverse-cons x xs, select-append (reverse xs) (x ∷ []), select-reverse xs)
          (elim (Bool-cases (test x)) [
            | inl e ↦ rw e (sym (reverse-cons x (select test xs)))
            | inr e ↦ rw e (append-nil (reverse (select test xs)))
          ])

    sort_loop-select :
        (left rest : List A)
        → select test (sort_loop before left rest) ≡ reverse (select test left) ++ select test rest
    unfolding sort_loop select
    sort_loop-select left [] = select-reverse left ∙ sym (append-nil (reverse (select test left)))
    sort_loop-select left (x ∷ rest) =
        sort_loop-select (sink before x left) rest
        ∙ rw (sink-select x left) (elim (Bool-cases (test x)) [
          | inl e ↦
              rw (e, reverse-cons x (select test left))
                (append_assoc (reverse (select test left)) (x ∷ []) (select test rest))
          | inr e ↦ rw e refl
        ])

    pub insertion_sort-select :
        (xs : List A) → select test (insertion_sort before xs) ≡ select test xs
    unfolding insertion_sort select
    insertion_sort-select xs = sort_loop-select [] xs

-- On elements among which `before` is a strict weak order the result is ranked.
module _ {ℓ κ} {A : Type ℓ} (before : A → A → Bool) (Fine : A → Type κ)
    (asym : (x y : A) → Fine x → Fine y → before x y ≡ true → before y x ≡ false)
    (trans : (x y z : A)
      → Fine y
      → before x y ≡ false
      → before y z ≡ false
      → before x z ≡ false) where
  -- A list read from its right end.
  abbrev IsDescending : List A → Type ℓ
  IsDescending [] = Unit
  IsDescending (x ∷ xs) = All (λ y. before x y ≡ false) xs × IsDescending xs

  All-trans :
      (x y : A) (ys : List A)
      → Fine y
      → before x y ≡ false
      → All (λ z. before y z ≡ false) ys
      → All (λ z. before x z ≡ false) ys
  All-trans x y [] f e h = tt
  All-trans x y (z ∷ ys) f e h = (trans x y z f e h.0, All-trans x y ys f e h.1)

  sink-IsDescending :
      (x : A) (ys : List A)
      → Fine x
      → All Fine ys
      → IsDescending ys
      → IsDescending (sink before x ys)
  unfolding sink
  sink-IsDescending x [] fx f h = (tt, tt)
  sink-IsDescending x (y ∷ ys) fx f h = elim (Bool-cases (before x y)) [
    | inl e ↦ rw e (
      sink-All before (λ z. before y z ≡ false) x ys (asym x y fx f.0 e) h.0,
      sink-IsDescending x ys fx f.1 h.1,
    )
    | inr e ↦ rw e ((e, All-trans x y ys f.0 e h.0), h)
  ]

  IsRanked-snoc :
      (xs : List A) (x : A)
      → All (λ y. before x y ≡ false) xs
      → IsRanked before xs
      → IsRanked before (xs ++ x ∷ [])
  IsRanked-snoc [] x h k = (tt, tt)
  IsRanked-snoc (y ∷ xs) x h k =
      (All-append (λ z. before z y ≡ false) xs (x ∷ []) k.0 (h.0, tt), IsRanked-snoc xs x h.1 k.1)

  reverse-IsRanked : (xs : List A) → IsDescending xs → IsRanked before (reverse xs)
  reverse-IsRanked [] h = tt
  reverse-IsRanked (x ∷ xs) h = rw (reverse-cons x xs) (
      IsRanked-snoc (reverse xs) x (All-reverse (λ y. before x y ≡ false) xs h.0)
        (reverse-IsRanked xs h.1))

  sort_loop-IsRanked :
      (left rest : List A)
      → All Fine left
      → All Fine rest
      → IsDescending left
      → IsRanked before (sort_loop before left rest)
  unfolding sort_loop
  sort_loop-IsRanked left [] fl fr h = reverse-IsRanked left h
  sort_loop-IsRanked left (x ∷ rest) fl fr h =
      sort_loop-IsRanked (sink before x left) rest (sink-All before Fine x left fr.0 fl) fr.1
        (sink-IsDescending x left fr.0 fl h)

  pub insertion_sort-IsRanked :
      (xs : List A) → All Fine xs → IsRanked before (insertion_sort before xs)
  unfolding insertion_sort
  insertion_sort-IsRanked xs f = sort_loop-IsRanked [] xs tt f tt
