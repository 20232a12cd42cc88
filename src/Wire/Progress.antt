-- ===== src/Wire/Progress.antt =====
-- The loops of the decoders end: each round takes a byte at least, so that the fuel of the model
-- never runs out, whatever the bytes are.
use llm_platform.Common.{
  ℕ, zero, suc, ◌≤◌, Bool, true, false, List, [], ◌∷◌, ◌≡◌, ◌≢◌, refl, length, drop, ok, err,
  Result, Result-cases, if◌then◌else◌, ◌>>=◌, arith, length-drop, inl, inr, String, subst,
}
use llm_platform.Common.Float.{Float64}
use llm_platform.Wire.{
  Wire, DecodeError, parse_error, out_of_fuel, decode_loop, read, read_string, read_bytes,
  read_float, read_message, skip, IsWithin, IsWithinPositive,
}

-- What is left of the input `b` is no longer than it, and no fuel ran out.
abbrev pub IsProgress : {M B : Type 0} → List B → Result DecodeError (M × List B) → Type 0
IsProgress b (ok (m, rest)) = length rest ≤ length b
IsProgress b (err (parse_error e)) = Unit
IsProgress b (err out_of_fuel) = ⊥

module _ {M B : Type 0} where
  pub if-IsProgress :
      (t : Bool) (b : List B) (x y : Result DecodeError (M × List B))
      → IsProgress b x
      → IsProgress b y
      → IsProgress b (if t then x else y)
  if-IsProgress true b x y h k = h
  if-IsProgress false b x y h k = k

module _ {fl : Float64} (w : Wire fl) {M : Type 0} where
  pub read-IsProgress :
      {A : Type 0} (put : A → M) (b : List w.Byte) (c : Result ℕ (A × ℕ))
      → IsWithin b c
      → IsProgress b (read w put b c)
  read-IsProgress put b (ok (v, n)) h = omega (arith, length-drop n b)
  read-IsProgress put b (err e) h = tt

  message_put-IsProgress :
      {A : Type 0} (put : A → M) (b rest : List w.Byte) (r : Result DecodeError A)
      → r ≢ err out_of_fuel
      → length rest ≤ length b
      → IsProgress b (r >>= λ msg. ok (put msg, rest))
  message_put-IsProgress put b rest (ok msg) h l = l
  message_put-IsProgress put b rest (err (parse_error e)) h l = tt
  message_put-IsProgress put b rest (err out_of_fuel) h l = h refl

  raw-IsProgress :
      {A : Type 0} (unmarshal : List w.Byte → Result DecodeError A) (put : A → M) (b : List w.Byte)
      (c : Result ℕ (List w.Byte × ℕ))
      → ((raw : List w.Byte) → unmarshal raw ≢ err out_of_fuel)
      → IsWithin b c
      → IsProgress b
          (read w (λ raw. raw) b c >>= λ (raw, rest). unmarshal raw >>= λ msg. ok (put msg, rest))
  raw-IsProgress unmarshal put b (ok (raw, n)) u h =
      message_put-IsProgress put b (drop n b) (unmarshal raw) (u raw)
        (omega (arith, length-drop n b))
  raw-IsProgress unmarshal put b (err e) u h = tt

  -- A message that is a field ends if its own decoder does.
  pub message-IsProgress :
      {A : Type 0} (unmarshal : List w.Byte → Result DecodeError A) (put : A → M) (b : List w.Byte)
      → ((raw : List w.Byte) → unmarshal raw ≢ err out_of_fuel)
      → IsProgress b (read_message w unmarshal put b)
  message-IsProgress unmarshal put b u =
      raw-IsProgress unmarshal put b (w.consume_bytes b) u (w.bytes_within b)

  pub string-IsProgress : (put : String → M) (b : List w.Byte) → IsProgress b (read_string w put b)
  string-IsProgress put b = read-IsProgress put b (w.consume_string b) (w.string_within b)

  pub bytes-IsProgress :
      (put : List w.Byte → M) (b : List w.Byte) → IsProgress b (read_bytes w put b)
  bytes-IsProgress put b = read-IsProgress put b (w.consume_bytes b) (w.bytes_within b)

  pub varint-IsProgress :
      (put : ℕ → M) (b : List w.Byte) → IsProgress b (read w put b (w.consume_varint b))
  varint-IsProgress put b = read-IsProgress put b (w.consume_varint b) (w.varint_within b)

  pub float-IsProgress : (put : fl.Num → M) (b : List w.Byte) → IsProgress b (read_float w put b)
  float-IsProgress put b =
      read-IsProgress (λ v. put (w.float_from_bits v)) b (w.consume_fixed64 b) (w.fixed64_within b)

  pub skip-IsProgress : (num typ : ℕ) (m : M) (b : List w.Byte) → IsProgress b (skip w num typ m b)
  skip-IsProgress num typ m b =
      read-IsProgress (λ _. m) b (w.consume_field_value num typ b) (w.field_value_within num typ b)

  module _ (field : M → ℕ → ℕ → List w.Byte → Result DecodeError (M × List w.Byte))
      (progress : (m : M) (num typ : ℕ) (b : List w.Byte) → IsProgress b (field m num typ b)) where
    field_rest :
        (m m' : M) (num typ : ℕ) (b rest : List w.Byte)
        → field m num typ b ≡ ok (m', rest)
        → length rest ≤ length b
    field_rest m m' num typ b rest e = subst (IsProgress b) e (progress m num typ b)

    field-ne-out_of_fuel :
        (m : M) (num typ : ℕ) (b : List w.Byte) → field m num typ b ≢ err out_of_fuel
    field-ne-out_of_fuel m num typ b e = subst (IsProgress b) e (progress m num typ b)

    -- A loop whose switch makes progress does not run out of fuel.
    pub decode_loop-ends :
        (fuel : ℕ) (m : M) (b : List w.Byte)
        → length b ≤ fuel
        → decode_loop w field fuel m b ≢ err out_of_fuel
    unfolding decode_loop
    decode_loop-ends fuel m [] h e = cc
    decode_loop-ends zero m (x ∷ b) h e = absurd (omega arith)
    decode_loop-ends (suc fuel) m (x ∷ b) h e = elim (Result-cases (w.consume_tag (x ∷ b))) [
      | inl (((num, typ), n), t) ↦
          let at_tag = subst (IsWithinPositive (x ∷ b)) t (w.tag_within (x ∷ b)) in
          let b' = drop n (x ∷ b) in
          elim (Result-cases (field m num typ b')) [
            | inl ((m', rest), f) ↦
                decode_loop-ends fuel m' rest
                  (omega (arith, length-drop {0} n (x ∷ b), field_rest m m' num typ b' rest f))
                  (rw f at (rw t at e))
            | inr (r, f) ↦ let e' = rw f at (rw t at e) in field-ne-out_of_fuel m num typ b' (cc)
          ]
      | inr (r, t) ↦ let e' = rw t at e in cc
    ]

pub ruleset progress_rules = (
  if-IsProgress, string-IsProgress, bytes-IsProgress, varint-IsProgress, float-IsProgress,
  skip-IsProgress, message-IsProgress,
)
