-- ===== src/Wire/Numbers.antt =====
-- Decoding the integers, Booleans and doubles that the encoders append.
use llm_platform.Common.{
  ℕ, ◌^◌, ◌≤◌, ◌<◌, Bool, true, false, List, ◌++◌, ◌≡◌, ap, sym, ◌∙◌, ok, Result, arith, Bool-cases,
  inl, inr, not, eqb, subst,
}
use llm_platform.Common.Int.{ℤ, pos, negsuc, IsInt64, eqb_ℤ, to_bits, pos_part, neg_part}
use llm_platform.Common.Float.{Float64}
use llm_platform.Wire.{
  Wire, DecodeError, read, read_int32, read_int64, read_bool, read_float, put_int, put_bool,
  put_float, varint_type, fixed64_type, int32_of_uint64, int64_of_uint64,
}
use llm_platform.Wire.Fields.{IsFieldNumber, Decodes, read_piece}

-- The range of int32.
abbrev pub IsInt32 : ℤ → Type 0
IsInt32 z = (pos_part z < 2 ^ 31) × (neg_part z ≤ 2 ^ 31)

-- A double that equals 0 is 0: it is not -0, which the encoders leave out too.
abbrev pub IsZeroExact : (fl : Float64) → fl.Num → Type 0
IsZeroExact fl x = fl.eq x (fl.of_nat 0) ≡ true → x ≡ fl.of_nat 0

eqb_ℤ-zero : (z : ℤ) → eqb_ℤ z (pos 0) ≡ true → z ≡ pos 0
eqb_ℤ-zero (pos n) e = ap pos (ground (arith, e))
eqb_ℤ-zero (negsuc n) e = ground (arith, e)

to_bits_bound : (z : ℤ) → to_bits z < 2 ^ 64
to_bits_bound (pos n) = omega arith
to_bits_bound (negsuc n) = omega arith

int32-to_bits : (z : ℤ) → IsInt32 z → int32_of_uint64 (to_bits z) ≡ z
int32-to_bits z h = ground arith

int64-to_bits : (z : ℤ) → IsInt64 z → int64_of_uint64 (to_bits z) ≡ z
int64-to_bits z h = ground arith

module _ {fl : Float64} (w : Wire fl) {M : Type 0}
    (field : M → ℕ → ℕ → List w.Byte → Result DecodeError (M × List w.Byte)) (num : ℕ)
    (k : IsFieldNumber num) where
  varint_piece :
      {A : Type 0} {r m : M} {rest : List w.Byte} (v : ℕ) (get : ℕ → A) (put : A → M)
      → v < 2 ^ 64
      → ((b : List w.Byte)
          → field m num varint_type b ≡ read w (λ n. put (get n)) b (w.consume_varint b))
      → Decodes w field (put (get v)) rest r
      → Decodes w field m ((w.append_tag num varint_type ++ w.append_varint v) ++ rest) r
  varint_piece {A} {r} {m} {rest} v get put h f d =
      read_piece w field num k varint_type (w.append_varint v) v (λ n. put (get n)) w.consume_varint
        (omega arith) (f (w.append_varint v ++ rest)) (w.varint_lem v rest h) d

  int_piece :
      {r : M} {rest : List w.Byte} (get : ℕ → ℤ) (put : ℤ → M) (z : ℤ)
      → get (to_bits z) ≡ z
      → ((b : List w.Byte)
          → field (put (pos 0)) num varint_type b
            ≡ read w (λ n. put (get n)) b (w.consume_varint b))
      → Decodes w field (put z) rest r
      → Decodes w field (put (pos 0)) (put_int w num z ++ rest) r
  unfolding put_int
  int_piece {r} {rest} get put z g f d = elim (Bool-cases (eqb_ℤ z (pos 0))) [
    | inl e ↦ rw e (subst (λ t. Decodes w field (put t) rest r) (eqb_ℤ-zero z e) d)
    | inr e ↦ rw e (
        varint_piece (to_bits z) get put (to_bits_bound z) f
          (subst (λ t. Decodes w field (put t) rest r) (sym g) d))
  ]

  pub int32_piece :
      {r : M} {rest : List w.Byte} (put : ℤ → M) (z : ℤ)
      → IsInt32 z
      → ((b : List w.Byte) → field (put (pos 0)) num varint_type b ≡ read_int32 w put b)
      → Decodes w field (put z) rest r
      → Decodes w field (put (pos 0)) (put_int w num z ++ rest) r
  int32_piece put z h f d = int_piece int32_of_uint64 put z (int32-to_bits z h) f d

  pub int64_piece :
      {r : M} {rest : List w.Byte} (put : ℤ → M) (z : ℤ)
      → IsInt64 z
      → ((b : List w.Byte) → field (put (pos 0)) num varint_type b ≡ read_int64 w put b)
      → Decodes w field (put z) rest r
      → Decodes w field (put (pos 0)) (put_int w num z ++ rest) r
  int64_piece put z h f d = int_piece int64_of_uint64 put z (int64-to_bits z h) f d

  pub bool_piece :
      {r : M} {rest : List w.Byte} (put : Bool → M) (x : Bool)
      → ((b : List w.Byte) → field (put false) num varint_type b ≡ read_bool w put b)
      → Decodes w field (put x) rest r
      → Decodes w field (put false) (put_bool w num x ++ rest) r
  unfolding put_bool
  bool_piece put true f d = varint_piece 1 (λ v. not (eqb v 0)) put (omega arith) f d
  bool_piece put false f d = d

  pub float_piece :
      {r : M} {rest : List w.Byte} (put : fl.Num → M) (x : fl.Num)
      → IsZeroExact fl x
      → ((b : List w.Byte) → field (put (fl.of_nat 0)) num fixed64_type b ≡ read_float w put b)
      → Decodes w field (put x) rest r
      → Decodes w field (put (fl.of_nat 0)) (put_float w num x ++ rest) r
  unfolding put_float
  float_piece {r} {rest} put x h f d = elim (Bool-cases (fl.eq x (fl.of_nat 0))) [
    | inl e ↦ rw e (subst (λ t. Decodes w field (put t) rest r) (h e) d)
    | inr e ↦
        let v = w.float_bits x in
        let p = w.append_fixed64 v in
        rw e (
          read_piece w field num k fixed64_type p v (λ n. put (w.float_from_bits n))
            w.consume_fixed64 (omega arith) (f (p ++ rest))
            (w.fixed64_lem x rest ∙ ap (λ n. ok (v, n)) (sym (w.length-fixed64 v)))
            (subst (λ t. Decodes w field (put t) rest r) (sym (w.float_from_bits-float_bits x)) d))
  ]
