-- ===== src/Wire/Plain.antt =====
-- A concrete `Wire`: a byte is a whole tag, number or text, and the parts of a fixed64 after the first
-- are padding. It meets the laws, so the theorems over a `Wire` are not empty; the examples run on it.
use llm_platform.Common.{
  ℕ, suc, ◌+◌, ◌≤◌, String, true, List, [], ◌∷◌, ◌++◌, ◌≡◌, refl, length, take, leb, eqb, ok, err,
  Result, Bool-cases, inl, inr, arith, if◌then◌else◌, length-append, take-length-append,
}
use llm_platform.Common.Fixed.{fixed}
use llm_platform.Wire.{Wire, IsWithin, IsWithinPositive, varint_type, fixed64_type}

pub data Cell : Type 0 where
  tag : ℕ → ℕ → Cell
  number : ℕ → Cell
  text : String → Cell
  size : ℕ → Cell
  pad : Cell

abbrev pub Read : Type 0 → Type 0
Read A = Result ℕ (A × ℕ)

abbrev pub append_fixed64 : ℕ → List Cell
append_fixed64 v = number v ∷ pad ∷ pad ∷ pad ∷ pad ∷ pad ∷ pad ∷ pad ∷ []

abbrev pub consume_tag : List Cell → Read (ℕ × ℕ)
consume_tag (tag num typ ∷ rest) = ok ((num, typ), 1)
consume_tag _ = err 1

abbrev pub consume_number : List Cell → Read ℕ
consume_number (number v ∷ rest) = ok (v, 1)
consume_number _ = err 1

abbrev pub consume_fixed64 : List Cell → Read ℕ
consume_fixed64 (number v ∷ rest) = if leb 7 (length rest) then ok (v, 8) else err 1
consume_fixed64 _ = err 1

abbrev pub consume_text : List Cell → Read String
consume_text (text s ∷ rest) = ok (s, 1)
consume_text _ = err 1

abbrev pub consume_sized : List Cell → Read (List Cell)
consume_sized (size n ∷ rest) = if leb n (length rest) then ok (take n rest, suc n) else err 1
consume_sized _ = err 1

abbrev pub counted : {A : Type 0} → Read A → Read (Unit {0})
counted (ok (v, n)) = ok (tt, n)
counted (err e) = err e

-- A text or sized bytes.
abbrev pub consume_length_delimited : List Cell → Read (Unit {0})
consume_length_delimited (text s ∷ rest) = ok (tt, 1)
consume_length_delimited b = counted (consume_sized b)

abbrev pub consume_field_value : ℕ → ℕ → List Cell → Read (Unit {0})
consume_field_value num typ b =
    if eqb typ varint_type
    then counted (consume_number b)
    else if eqb typ fixed64_type
    then counted (consume_fixed64 b)
    else consume_length_delimited b

pub tag-IsWithin : (b : List Cell) → IsWithinPositive b (consume_tag b)
tag-IsWithin [] = tt
tag-IsWithin (tag num typ ∷ rest) = omega arith
tag-IsWithin (number v ∷ rest) = tt
tag-IsWithin (text s ∷ rest) = tt
tag-IsWithin (size n ∷ rest) = tt
tag-IsWithin (pad ∷ rest) = tt

pub number-IsWithin : (b : List Cell) → IsWithin b (consume_number b)
number-IsWithin [] = tt
number-IsWithin (tag num typ ∷ rest) = tt
number-IsWithin (number v ∷ rest) = omega arith
number-IsWithin (text s ∷ rest) = tt
number-IsWithin (size n ∷ rest) = tt
number-IsWithin (pad ∷ rest) = tt

pub text-IsWithin : (b : List Cell) → IsWithin b (consume_text b)
text-IsWithin [] = tt
text-IsWithin (tag num typ ∷ rest) = tt
text-IsWithin (number v ∷ rest) = tt
text-IsWithin (text s ∷ rest) = omega arith
text-IsWithin (size n ∷ rest) = tt
text-IsWithin (pad ∷ rest) = tt

if-IsWithin :
    {A B : Type 0} (b : List B) (n k : ℕ) (v : A)
    → (n ≤ k → n + 1 ≤ length b)
    → IsWithin b (if leb n k then ok (v, suc n) else err 1)
if-IsWithin b n k v h = elim (Bool-cases (leb n k)) [
  | inl e ↦ rw e (let l = h (ground (arith, e)) in omega arith)
  | inr e ↦ rw e tt
]

pub fixed64-IsWithin : (b : List Cell) → IsWithin b (consume_fixed64 b)
fixed64-IsWithin [] = tt
fixed64-IsWithin (tag num typ ∷ rest) = tt
fixed64-IsWithin (number v ∷ rest) =
    if-IsWithin (number v ∷ rest) 7 (length rest) v (λ h. omega arith)
fixed64-IsWithin (text s ∷ rest) = tt
fixed64-IsWithin (size n ∷ rest) = tt
fixed64-IsWithin (pad ∷ rest) = tt

pub sized-IsWithin : (b : List Cell) → IsWithin b (consume_sized b)
sized-IsWithin [] = tt
sized-IsWithin (tag num typ ∷ rest) = tt
sized-IsWithin (number v ∷ rest) = tt
sized-IsWithin (text s ∷ rest) = tt
sized-IsWithin (size n ∷ rest) =
    if-IsWithin (size n ∷ rest) n (length rest) (take n rest) (λ h. omega arith)
sized-IsWithin (pad ∷ rest) = tt

counted-IsWithin : {A : Type 0} (b : List Cell) (r : Read A) → IsWithin b r → IsWithin b (counted r)
counted-IsWithin b (ok (v, n)) h = h
counted-IsWithin b (err e) h = tt

length_delimited-IsWithin : (b : List Cell) → IsWithin b (consume_length_delimited b)
length_delimited-IsWithin [] = tt
length_delimited-IsWithin (tag num typ ∷ rest) = tt
length_delimited-IsWithin (number v ∷ rest) = tt
length_delimited-IsWithin (text s ∷ rest) = omega arith
length_delimited-IsWithin (size n ∷ rest) =
    counted-IsWithin (size n ∷ rest) (consume_sized (size n ∷ rest))
      (sized-IsWithin (size n ∷ rest))
length_delimited-IsWithin (pad ∷ rest) = tt

pub field_value-IsWithin :
    (num typ : ℕ) (b : List Cell) → IsWithin b (consume_field_value num typ b)
field_value-IsWithin num typ b = elim (Bool-cases (eqb typ varint_type)) [
  | inl e ↦ rw e (counted-IsWithin b (consume_number b) (number-IsWithin b))
  | inr e ↦ elim (Bool-cases (eqb typ fixed64_type)) [
    | inl f ↦ rw (e, f) (counted-IsWithin b (consume_fixed64 b) (fixed64-IsWithin b))
    | inr f ↦ rw (e, f) (length_delimited-IsWithin b)
  ]
]

pub sized_lem :
    (s rest : List Cell) → consume_sized (size (length s) ∷ (s ++ rest)) ≡ ok (s, suc (length s))
sized_lem s rest =
    let e : leb (length s) (length (s ++ rest)) ≡ true = ground (arith, length-append s rest) in
    rw e (rw (take-length-append s rest) refl)

pub fixed64_lem :
    (v : ℕ) (rest : List Cell) → consume_fixed64 (append_fixed64 v ++ rest) ≡ ok (v, 8)
fixed64_lem v rest = ground arith

abbrev pub plain : Wire fixed
plain = record {
  Byte = Cell;
  append_tag = λ num typ. tag num typ ∷ [];
  append_varint = λ v. number v ∷ [];
  append_fixed64 = append_fixed64;
  append_string = λ s. text s ∷ [];
  append_bytes = λ b. size (length b) ∷ b;
  consume_tag = consume_tag;
  consume_varint = consume_number;
  consume_fixed64 = consume_fixed64;
  consume_string = consume_text;
  consume_bytes = consume_sized;
  consume_field_value = consume_field_value;
  float_bits = λ x. x;
  float_from_bits = λ v. v;
  tag_lem = λ num typ rest _ _ _. refl;
  varint_lem = λ v rest _. refl;
  fixed64_lem = fixed64_lem;
  length-fixed64 = λ v. refl;
  string_lem = λ s rest. refl;
  bytes_lem = sized_lem;
  tag_within = tag-IsWithin;
  varint_within = number-IsWithin;
  fixed64_within = fixed64-IsWithin;
  string_within = text-IsWithin;
  bytes_within = sized-IsWithin;
  field_value_within = field_value-IsWithin;
  float_from_bits-float_bits = λ x. refl;
}
