-- ===== src/Wire/Packed.antt =====
-- The packed repeated doubles: `appendPackedFixed64` and `unpackFixed64` of
-- gen/go/inference/v1/inference.go. The copies of gen/go/execution/v1/execution.go are the same code.
use llm_platform.Common.{
  ℕ, zero, suc, ◌/◌, ◌≤◌, List, [], ◌∷◌, ◌++◌, ◌≡◌, ap, refl, length, drop, leb, ok, err, Result,
  if◌then◌else◌, arith, length-append, drop-length-append, true, length-drop, subst,
}
use llm_platform.Common.Float.{Float64}
use llm_platform.Wire.{Wire, bytes_type}

-- the value of a consume function whose count is ignored, 0 on an error
abbrev pub value_or_zero : {B : Type 0} → Result ℕ (ℕ × B) → ℕ
value_or_zero (ok (v, n)) = v
value_or_zero (err e) = 0

module _ {fl : Float64} (w : Wire fl) where
  open w use {
    Byte, append_tag, append_fixed64, append_bytes, consume_fixed64, float_bits, float_from_bits,
    fixed64_lem, length-fixed64, float_from_bits-float_bits,
  }

  -- `for _, v := range vals { packed = AppendFixed64(packed, math.Float64bits(v)) }`
  unfoldable pub pack_fixed64 : List fl.Num → List Byte
  pack_fixed64 [] = []
  pack_fixed64 (v ∷ vals) = append_fixed64 (float_bits v) ++ pack_fixed64 vals

  -- `appendPackedFixed64`, the bytes that it appends
  unfoldable pub append_packed_fixed64 : ℕ → List fl.Num → List Byte
  append_packed_fixed64 num vals = append_tag num bytes_type ++ append_bytes (pack_fixed64 vals)

  -- `if len(vals) > 0 { b = appendPackedFixed64(b, num, vals) }`
  unfoldable pub put_packed : ℕ → List fl.Num → List Byte
  put_packed num [] = []
  put_packed num (v ∷ vals) = append_packed_fixed64 num (v ∷ vals)

  unfoldable pub unpack_loop : ℕ → List Byte → List fl.Num
  unpack_loop zero b = []
  unpack_loop (suc fuel) b =
      let rest = unpack_loop fuel (drop 8 b) in
      if leb 8 (length b) then float_from_bits (value_or_zero (consume_fixed64 b)) ∷ rest else []

  -- `unpackFixed64`: a round takes eight bytes.
  abbrev pub unpack_fixed64 : List Byte → List fl.Num
  unpack_fixed64 b = unpack_loop (length b) b

  -- Every whole group of eight bytes is read, and only those, whatever the bytes are.
  length-unpack_loop :
      (fuel : ℕ) (b : List Byte) → length b ≤ fuel → length (unpack_loop fuel b) ≡ length b / 8
  unfolding unpack_loop
  length-unpack_loop zero b h = omega arith
  length-unpack_loop (suc fuel) b h =
      grind (arith, length-unpack_loop fuel (drop 8 b), length-drop {0} 8 b)

  unpack_loop-pack :
      (fuel : ℕ) (vals : List fl.Num)
      → length (pack_fixed64 vals) ≤ fuel
      → unpack_loop fuel (pack_fixed64 vals) ≡ vals
  unfolding unpack_loop pack_fixed64
  unpack_loop-pack zero [] h = refl
  unpack_loop-pack (suc fuel) [] h = refl
  unpack_loop-pack zero (v ∷ vals) h = absurd (
      omega (
        arith,
        length-fixed64 (float_bits v),
        length-append {0} (append_fixed64 (float_bits v)) (pack_fixed64 vals),
      ))
  unpack_loop-pack (suc fuel) (v ∷ vals) h =
      let p = append_fixed64 (float_bits v) in
      let ps = pack_fixed64 vals in
      let e : drop 8 (p ++ ps) ≡ ps =
        subst (λ n. drop n (p ++ ps) ≡ ps) (length-fixed64 (float_bits v))
          (drop-length-append p ps) in
      let l : leb 8 (length (p ++ ps)) ≡ true =
        ground (arith, length-fixed64 (float_bits v), length-append p ps) in
      rw l (
        rw e (
          rw (fixed64_lem v ps) (
            rw (float_from_bits-float_bits v) (
              ap (λ t. v ∷ t)
                (unpack_loop-pack fuel vals
                  (omega (arith, length-fixed64 (float_bits v), length-append {0} p ps)))))))

  -- What was packed is unpacked again.
  pub unpack-pack_fixed64 : (vals : List fl.Num) → unpack_fixed64 (pack_fixed64 vals) ≡ vals
  unpack-pack_fixed64 vals = unpack_loop-pack (length (pack_fixed64 vals)) vals (omega arith)
