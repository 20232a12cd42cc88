-- ===== src/Ring.antt =====
-- A slice of fixed length written round and round at `head % cap`, as the latency histogram of the
-- batcher and the health tracker of the router keep their samples: a sliding window.
use mathlib.Core.List.{Perm, perm_append_comm, append_assoc, append-nil}
use mathlib.Core.List.Perm
use native.Mathlib.Nat.{mod-lt, mod-eq_of_lt, mod-add-mod, mod_self, sub-zero, zero-add, add-zero}
use llm_platform.Common.{
  ℕ, zero, suc, ◌+◌, ◌-◌, ◌%◌, ◌≤◌, ◌<◌, min, ◌≡◌, refl, sym, ap, subst, ◌∙◌, ◌⊎◌, inl, inr,
  Bool-cases, List, [], All, ◌∷◌, ◌++◌, arith, length, length-append, length-set, set, take, drop,
  replicate, take-append-drop, length-drop, ltb,
}

module _ {ℓ} {A : Type ℓ} where
  -- Oldest first, `i` being the place of the next write.
  abbrev pub chronological : List A → ℕ → List A
  chronological s i = drop i s ++ take i s

  drop-set : (s : List A) (i : ℕ) (x : A) → drop (suc i) (set s i x) ≡ drop (suc i) s
  drop-set [] i x = refl
  drop-set (y ∷ s) zero x = refl
  drop-set (y ∷ s) (suc i) x = drop-set s i x

  take-set :
      (s : List A) (i : ℕ) (x : A) → i < length s → take (suc i) (set s i x) ≡ take i s ++ x ∷ []
  take-set [] i x h = elim h [ ]
  take-set (y ∷ s) zero x h = refl
  take-set (y ∷ s) (suc i) x h = ap (λ t. y ∷ t) (take-set s i x (omega arith))

  drop_one : (s t : List A) (i : ℕ) → i < length s → drop 1 (drop i s ++ t) ≡ drop (suc i) s ++ t
  drop_one [] t i h = elim h [ ]
  drop_one (y ∷ s) t zero h = refl
  drop_one (y ∷ s) t (suc i) h = drop_one s t i (omega arith)

  drop_all : (s : List A) (i : ℕ) → length s ≤ i → drop i s ≡ []
  drop_all [] zero h = refl
  drop_all [] (suc i) h = refl
  drop_all (y ∷ s) zero h = absurd (omega arith)
  drop_all (y ∷ s) (suc i) h = drop_all s i (omega arith)

  take_all : (s : List A) (i : ℕ) → length s ≤ i → take i s ≡ s
  take_all [] zero h = refl
  take_all [] (suc i) h = refl
  take_all (y ∷ s) zero h = absurd (omega arith)
  take_all (y ∷ s) (suc i) h = ap (λ t. y ∷ t) (take_all s i (omega arith))

  -- The window slides by one: the oldest entry goes, the new one comes last.
  chronological-set :
      (s : List A) (i : ℕ) (x : A)
      → i < length s
      → chronological (set s i x) (suc i) ≡ drop 1 (chronological s i) ++ x ∷ []
  chronological-set s i x h =
      rw (drop-set s i x, take-set s i x h, drop_one s (take i s) i h)
        (sym (append_assoc (drop (suc i) s) (take i s) (x ∷ [])))

  -- At the end of the slice the next place is 0 again.
  chronological-wrap :
      (s : List A) (i : ℕ) → length s ≡ suc i → chronological s (suc i) ≡ chronological s 0
  chronological-wrap s i h =
      rw (drop_all s (suc i) (omega arith), take_all s (suc i) (omega arith)) (sym (append-nil s))

  drop-append_le : (i : ℕ) (s t : List A) → i ≤ length s → drop i (s ++ t) ≡ drop i s ++ t
  drop-append_le zero s t h = refl
  drop-append_le (suc i) [] t h = elim h [ ]
  drop-append_le (suc i) (y ∷ s) t h = drop-append_le i s t (omega arith)

  drop-append_ge : (i : ℕ) (s t : List A) → length s ≤ i → drop i (s ++ t) ≡ drop (i - length s) t
  drop-append_ge i [] t h = rw (sub-zero i)
  drop-append_ge zero (y ∷ s) t h = elim h [ ]
  drop-append_ge (suc i) (y ∷ s) t h =
      let e : suc i - suc (length s) ≡ i - length s = omega arith in
      rw e (drop-append_ge i s t (omega arith))

  length-chronological : (s : List A) (i : ℕ) → length (chronological s i) ≡ length s
  length-chronological s i = omega (
    arith,
    length-append (drop i s) (take i s),
    length-append (take i s) (drop i s),
    ap length (take-append-drop i s),
  )

  slide_on :
      (c : List A) (x : A) (xs : List A)
      → 1 ≤ length c
      → drop (length xs) ((drop 1 c ++ x ∷ []) ++ xs) ≡ drop (suc (length xs)) (c ++ x ∷ xs)
  slide_on [] x xs h = elim h [ ]
  slide_on (y ∷ c) x xs h = rw (append_assoc c (x ∷ []) xs) refl

  All-set {κ} : (P : A → Type κ) (s : List A) (i : ℕ) (x : A) → All P s → P x → All P (set s i x)
  All-set P [] i x h p = tt
  All-set P (y ∷ s) zero x h p = (p, h.1)
  All-set P (y ∷ s) (suc i) x h p = (h.0, All-set P s i x h.1 p)

  pub All-take {κ} : (P : A → Type κ) (i : ℕ) (s : List A) → All P s → All P (take i s)
  All-take P zero s h = tt
  All-take P (suc i) [] h = tt
  All-take P (suc i) (y ∷ s) h = (h.0, All-take P i s h.1)

  pub All-replicate {κ} : (P : A → Type κ) (n : ℕ) (x : A) → P x → All P (replicate n x)
  All-replicate P zero x p = tt
  All-replicate P (suc n) x p = (p, All-replicate P n x p)

next_place :
    (head size : ℕ)
    → 0 < size
    → ((suc (head % size) < size) × ((head + 1) % size ≡ suc (head % size)))
      ⊎ ((suc (head % size) ≡ size) × ((head + 1) % size ≡ 0))
next_place head size h =
    let small : head % size < size = mod-lt head h in
    let e : (head % size + 1) % size ≡ (head + 1) % size = mod-add-mod head size 1 in
    elim (Bool-cases (ltb (suc (head % size)) size)) [
      | inl lt ↦
          let fits : head % size + 1 < size = ground arith in
          inl (ground arith, sym e ∙ mod-eq_of_lt fits ∙ omega arith)
      | inr ge ↦
          let full : head % size + 1 ≡ size = ground arith in
          inr (ground arith, sym e ∙ rw full (mod_self size))
    ]

module _ {ℓ} {A : Type ℓ} (size : ℕ) where
  -- `s[head%size] = x; head++`, for one element after the other.
  unfoldable pub writes : List A → ℕ → List A → List A
  writes s head [] = s
  writes s head (x ∷ xs) = writes (set s (head % size) x) (head + 1) xs

  pub length-writes : (s : List A) (head : ℕ) (xs : List A) → length (writes s head xs) ≡ length s
  unfolding writes
  length-writes s head [] = refl
  length-writes s head (x ∷ xs) =
      length-writes (set s (head % size) x) (head + 1) xs ∙ length-set s (head % size) x

  one_write :
      (s : List A) (head : ℕ) (x : A)
      → 0 < size
      → length s ≡ size
      → chronological (set s (head % size) x) ((head + 1) % size)
        ≡ drop 1 (chronological s (head % size)) ++ x ∷ []
  one_write s head x h e =
      let small : head % size < length s = omega (arith, mod-lt head h) in
      let slide = chronological-set s (head % size) x small in
      elim (next_place head size h) [
        | inl (_, n) ↦ rw n slide
        | inr (full, n) ↦ rw n (
            sym (
              chronological-wrap (set s (head % size) x) (head % size)
                (length-set s (head % size) x ∙ e ∙ sym full))
            ∙ slide)
      ]

  writes-chronological :
      (s : List A) (head : ℕ) (xs : List A)
      → 0 < size
      → length s ≡ size
      → chronological (writes s head xs) ((head + length xs) % size)
        ≡ drop (length xs) (chronological s (head % size) ++ xs)
  unfolding writes
  writes-chronological s head [] h e = rw (add-zero head, append-nil) refl
  writes-chronological s head (x ∷ xs) h e =
      let s' = set s (head % size) x in
      let n : head + suc (length xs) ≡ head + 1 + length xs = omega arith in
      rw n (
        writes-chronological s' (head + 1) xs h (length-set s (head % size) x ∙ e)
        ∙ rw (one_write s head x h e) (
            slide_on (chronological s (head % size)) x xs
              (omega (arith, h, e, length-chronological s (head % size)))))

  drop-length : (a b : List A) → drop (length a) (a ++ b) ≡ b
  drop-length [] b = refl
  drop-length (x ∷ a) b = drop-length a b

  -- Before the first turn is over the first places hold all that was written.
  window_filling :
      (w s xs : List A)
      → length w ≡ size
      → length s ≡ size
      → length xs < size
      → chronological w (length xs) ≡ drop (length xs) (s ++ xs)
      → take (length xs) w ≡ xs
  window_filling w s xs lw ls lt c =
      let m = length xs in
      let c' : drop m w ++ take m w ≡ drop m s ++ xs =
        c ∙ drop-append_le m s xs (omega (arith, ls, lt)) in
      let same : length (drop m w) ≡ length (drop m s) =
        omega (arith, length-drop m w, length-drop m s, lw, ls) in
      sym (drop-length (drop m w) (take m w)) ∙ rw (same, c') (drop-length (drop m s) xs)

  window_full :
      (w s xs : List A)
      → length w ≡ size
      → length s ≡ size
      → size ≤ length xs
      → (i : ℕ) → chronological w i ≡ drop (length xs) (s ++ xs)
      → Perm w (drop (length xs - size) xs)
  window_full w s xs lw ls ge i c =
      subst (λ t. Perm w t)
        (c ∙ drop-append_ge (length xs) s xs (omega (arith, ls, ge)) ∙ rw ls refl)
        (subst (λ t. Perm t (chronological w i)) (take-append-drop i w)
          (perm_append_comm (take i w) (drop i w)))

  -- The last `size` of what was written, or all of it if that is less, whatever the slice held at
  -- first: what the first `min head size` places hold.
  pub window-perm :
      (s xs : List A)
      → 0 < size
      → length s ≡ size
      → Perm (take (min (length xs) size) (writes s 0 xs)) (drop (length xs - size) xs)
  window-perm s xs h e =
      let m = length xs in
      let w = writes s 0 xs in
      let lw : length w ≡ size = length-writes s 0 xs ∙ e in
      let z : 0 % size ≡ 0 = mod-eq_of_lt h in
      let c : chronological w (m % size) ≡ drop m (s ++ xs) =
        let t = writes-chronological s 0 xs h e in rw (zero-add m, z, append-nil) at t in
      elim (Bool-cases (ltb m size)) [
        | inl lt ↦
            let few : m < size = ground arith in
            let all : min m size ≡ m = omega (arith, few) in
            let rest : m - size ≡ 0 = omega (arith, few) in
            rw (all, rest, window_filling w s xs lw e few (rw (mod-eq_of_lt few) at c))
              (Perm.refl xs)
        | inr ge ↦
            let many : size ≤ m = ground arith in
            let all : min m size ≡ size = omega (arith, many) in
            rw (all, take_all w size (omega (arith, lw)))
              (window_full w s xs lw e many (m % size) c)
      ]

  pub writes-All {κ} :
      (P : A → Type κ) (s : List A) (head : ℕ) (xs : List A)
      → All P s
      → All P xs
      → All P (writes s head xs)
  unfolding writes
  writes-All P s head [] h k = h
  writes-All P s head (x ∷ xs) h k =
      writes-All P (set s (head % size) x) (head + 1) xs (All-set P s (head % size) x h k.0) k.1
