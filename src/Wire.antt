-- ===== src/Wire.antt =====
-- The wire format under the messages of gen/go/inference/v1 and gen/go/execution/v1. The record
-- `Wire` stands for google.golang.org/protobuf/encoding/protowire, with what its documentation says of
-- a value that is appended and then consumed. A consume function gives the value and the number of
-- bytes it takes, `n`, or the negated error code. What the messages share is here: appending the
-- fields that are not empty, reading one field, and the loop `for len(b) > 0` of the decoders.
pub mod Progress
pub mod Fields
pub mod Numbers
pub mod Packed
pub mod Plain
use llm_platform.Common.{
  ℕ, suc, zero, ◌+◌, ◌-◌, ◌%◌, ◌^◌, ◌≤◌, ◌<◌, String, Bool, List, [], ◌∷◌, ◌++◌, ◌≡◌, length, drop,
  Result, ok, err, if◌then◌else◌, ◌==◌, ◌&&◌, not, eqb, ltb, ◌>>=◌,
}
use llm_platform.Common.Int.{ℤ, pos, negsuc, eqb_ℤ, to_bits, of_bits}
use llm_platform.Common.Float.{Float64}

-- `protowire.Type`
abbrev pub varint_type : ℕ
varint_type = 0

abbrev pub fixed64_type : ℕ
fixed64_type = 1

abbrev pub bytes_type : ℕ
bytes_type = 2

-- `n ≤ len(b)` of a consume function that returns `n`.
abbrev pub IsWithin : {A B : Type 0} → List B → Result ℕ (A × ℕ) → Type 0
IsWithin b (ok (a, n)) = n ≤ length b
IsWithin b (err e) = Unit

-- Besides, a tag has at least a byte.
abbrev pub IsWithinPositive : {A B : Type 0} → List B → Result ℕ (A × ℕ) → Type 0
IsWithinPositive b (ok (a, n)) = (0 < n) × (n ≤ length b)
IsWithinPositive b (err e) = Unit

pub record Wire (fl : Float64) : Type 1 where
  pub Byte : Type 0
  pub append_tag : ℕ → ℕ → List Byte
  pub append_varint : ℕ → List Byte
  pub append_fixed64 : ℕ → List Byte
  pub append_string : String → List Byte
  pub append_bytes : List Byte → List Byte
  pub consume_tag : List Byte → Result ℕ ((ℕ × ℕ) × ℕ)
  pub consume_varint : List Byte → Result ℕ (ℕ × ℕ)
  pub consume_fixed64 : List Byte → Result ℕ (ℕ × ℕ)
  pub consume_string : List Byte → Result ℕ (String × ℕ)
  pub consume_bytes : List Byte → Result ℕ (List Byte × ℕ)
  -- only the number of bytes is of interest
  pub consume_field_value : ℕ → ℕ → List Byte → Result ℕ (Unit {0} × ℕ)
  -- `math.Float64bits` and `math.Float64frombits`
  pub float_bits : fl.Num → ℕ
  pub float_from_bits : ℕ → fl.Num
  pub tag_lem :
      (num typ : ℕ) (rest : List Byte)
      → 0 < num
      → num < 2 ^ 29
      → typ ≤ 5
      → consume_tag (append_tag num typ ++ rest) ≡ ok ((num, typ), length (append_tag num typ))
  pub varint_lem :
      (v : ℕ) (rest : List Byte)
      → v < 2 ^ 64
      → consume_varint (append_varint v ++ rest) ≡ ok (v, length (append_varint v))
  -- `math.Float64bits` gives a uint64, which is what a fixed64 holds
  pub fixed64_lem :
      (x : fl.Num) (rest : List Byte)
      → consume_fixed64 (append_fixed64 (float_bits x) ++ rest) ≡ ok (float_bits x, 8)
  pub length-fixed64 : (v : ℕ) → length (append_fixed64 v) ≡ 8
  pub string_lem :
      (s : String) (rest : List Byte)
      → consume_string (append_string s ++ rest) ≡ ok (s, length (append_string s))
  pub bytes_lem :
      (s rest : List Byte)
      → consume_bytes (append_bytes s ++ rest) ≡ ok (s, length (append_bytes s))
  pub tag_within : (b : List Byte) → IsWithinPositive b (consume_tag b)
  pub varint_within : (b : List Byte) → IsWithin b (consume_varint b)
  pub fixed64_within : (b : List Byte) → IsWithin b (consume_fixed64 b)
  pub string_within : (b : List Byte) → IsWithin b (consume_string b)
  pub bytes_within : (b : List Byte) → IsWithin b (consume_bytes b)
  pub field_value_within :
      (num typ : ℕ) (b : List Byte) → IsWithin b (consume_field_value num typ b)
  pub float_from_bits-float_bits : (x : fl.Num) → float_from_bits (float_bits x) ≡ x

-- `protowire.ParseError(n)` with the code -n; a loop of the model that has no fuel left.
pub data DecodeError : Type 0 where
  parse_error : ℕ → DecodeError
  out_of_fuel : DecodeError

-- The conversions `int32(v)` and `int64(v)` of a uint64.
abbrev pub int32_of_uint64 : ℕ → ℤ
int32_of_uint64 v = let b = v % 2 ^ 32 in if ltb b (2 ^ 31) then pos b else negsuc (2 ^ 32 - 1 - b)

abbrev pub int64_of_uint64 : ℕ → ℤ
int64_of_uint64 v = of_bits v

-- `num == k && typ == t`, a case of a decoder's switch
abbrev pub is_field : ℕ → ℕ → ℕ → ℕ → Bool
is_field k t num typ = eqb num k && eqb typ t

module _ {fl : Float64} (w : Wire fl) where
  open w use {
    Byte, append_tag, append_varint, append_fixed64, append_string, append_bytes, consume_tag,
    consume_varint, consume_fixed64, consume_string, consume_bytes, consume_field_value, float_bits,
    float_from_bits,
  }

  -- The pieces that the statements of an encoder append, in their order.
  unfoldable pub concat : List (List Byte) → List Byte
  concat [] = []
  concat (p ∷ ps) = p ++ concat ps

  -- `if s != "" { b = AppendTag(b, num, BytesType); b = AppendString(b, s) }`
  unfoldable pub put_string : ℕ → String → List Byte
  put_string num s = if s == "" then [] else append_tag num bytes_type ++ append_string s

  -- `if z != 0 { b = AppendTag(b, num, VarintType); b = AppendVarint(b, uint64(z)) }`
  unfoldable pub put_int : ℕ → ℤ → List Byte
  put_int num z =
      if eqb_ℤ z (pos 0) then [] else append_tag num varint_type ++ append_varint (to_bits z)

  -- `if x { b = AppendTag(b, num, VarintType); b = AppendVarint(b, 1) }`
  unfoldable pub put_bool : ℕ → Bool → List Byte
  put_bool num x = if x then append_tag num varint_type ++ append_varint 1 else []

  -- `if x != 0 { b = AppendTag(b, num, Fixed64Type); b = AppendFixed64(b, math.Float64bits(x)) }`
  unfoldable pub put_float : ℕ → fl.Num → List Byte
  put_float num x =
      if fl.eq x (fl.of_nat 0)
      then []
      else append_tag num fixed64_type ++ append_fixed64 (float_bits x)

  -- `for _, s := range ss { b = AppendTag(b, num, BytesType); b = AppendString(b, s) }`
  unfoldable pub put_strings : ℕ → List String → List Byte
  put_strings num [] = []
  put_strings num (s ∷ ss) = (append_tag num bytes_type ++ append_string s) ++ put_strings num ss

  -- `for _, m := range ms { mb, _ := m.MarshalProto(); b = AppendTag(…); b = AppendBytes(b, mb) }`
  unfoldable pub put_messages : {M : Type 0} → ℕ → (M → List Byte) → List M → List Byte
  put_messages num marshal [] = []
  put_messages num marshal (m ∷ ms) =
      (append_tag num bytes_type ++ append_bytes (marshal m)) ++ put_messages num marshal ms

  -- `v, n := Consume…(b); if n < 0 { return ParseError(n) }; m.F = v; b = b[n:]`
  abbrev pub read :
      {A M : Type 0} → (A → M) → List Byte → Result ℕ (A × ℕ) → Result DecodeError (M × List Byte)
  read put b (ok (v, n)) = ok (put v, drop n b)
  read put b (err e) = err (parse_error e)

  module _ {M : Type 0} where
    abbrev pub read_string : (String → M) → List Byte → Result DecodeError (M × List Byte)
    read_string put b = read put b (consume_string b)

    abbrev pub read_bytes : (List Byte → M) → List Byte → Result DecodeError (M × List Byte)
    read_bytes put b = read put b (consume_bytes b)

    -- `m.F = int32(v)`, `m.F = int64(v)`, `m.F = v != 0`
    abbrev pub read_int32 : (ℤ → M) → List Byte → Result DecodeError (M × List Byte)
    read_int32 put b = read (λ v. put (int32_of_uint64 v)) b (consume_varint b)

    abbrev pub read_int64 : (ℤ → M) → List Byte → Result DecodeError (M × List Byte)
    read_int64 put b = read (λ v. put (int64_of_uint64 v)) b (consume_varint b)

    abbrev pub read_bool : (Bool → M) → List Byte → Result DecodeError (M × List Byte)
    read_bool put b = read (λ v. put (not (eqb v 0))) b (consume_varint b)

    abbrev pub read_float : (fl.Num → M) → List Byte → Result DecodeError (M × List Byte)
    read_float put b = read (λ v. put (float_from_bits v)) b (consume_fixed64 b)

    -- the `default` case
    abbrev pub skip : ℕ → ℕ → M → List Byte → Result DecodeError (M × List Byte)
    skip num typ m b = read (λ _. m) b (consume_field_value num typ b)

    -- `raw, n := ConsumeBytes(b); …; if err := msg.UnmarshalProto(raw); err != nil { return err }`
    abbrev pub read_message :
        {A : Type 0}
        → (List Byte → Result DecodeError A)
        → (A → M)
        → List Byte
        → Result DecodeError (M × List Byte)
    read_message unmarshal put b = read (λ raw. raw) b (consume_bytes b) >>= λ (raw, rest).
        unmarshal raw >>= λ msg. ok (put msg, rest)

    -- `for len(b) > 0 { num, typ, n := ConsumeTag(b); …; b = b[n:]; switch … }`, `field` the switch
    unfoldable pub decode_loop :
        (M → ℕ → ℕ → List Byte → Result DecodeError (M × List Byte))
        → ℕ
        → M
        → List Byte
        → Result DecodeError M
    decode_loop field fuel m [] = ok m
    decode_loop field zero m (x ∷ b) = err out_of_fuel
    decode_loop field (suc fuel) m (x ∷ b) =
        read (λ tag. tag) (x ∷ b) (consume_tag (x ∷ b)) >>= λ ((num, typ), b').
        field m num typ b' >>= λ (m', rest). decode_loop field fuel m' rest

    -- Every round takes a byte at least, so the length of the input is fuel enough.
    abbrev pub decode :
        (M → ℕ → ℕ → List Byte → Result DecodeError (M × List Byte))
        → M
        → List Byte
        → Result DecodeError M
    decode field m b = decode_loop field (length b) m b
