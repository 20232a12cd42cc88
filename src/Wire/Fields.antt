-- ===== src/Wire/Fields.antt =====
-- Decoding what the encoders append, field by field: each lemma takes one piece off the front of
-- the input, the piece of a field that is left out included.
use llm_platform.Common.{
  ℕ, zero, suc, ◌^◌, ◌≤◌, ◌<◌, String, true, List, [], ◌∷◌, ◌++◌, ◌≡◌, refl, ap, sym, ◌∙◌, length,
  drop, ltb, ok, Result, ◌&&◌, arith, length-append, drop-length-append, Bool-cases, inl, inr,
  eq_iff, ◌==◌, subst,
}
use llm_platform.Common.Float.{Float64}
use llm_platform.Wire.{
  Wire, DecodeError, decode_loop, read, read_string, read_bytes, read_message, put_string,
  put_strings, put_messages, bytes_type, IsWithinPositive,
}
use llm_platform.Wire.Packed.{
  put_packed, append_packed_fixed64, pack_fixed64, unpack_fixed64, unpack-pack_fixed64,
}
use mathlib.Core.List.{append_assoc, append-nil}

-- A field number that fits a tag.
abbrev pub IsFieldNumber : ℕ → Type 0
IsFieldNumber num = (ltb 0 num && ltb num (2 ^ 29)) ≡ true

IsFieldNumber-bounds : (num : ℕ) → IsFieldNumber num → (0 < num) × (num < 2 ^ 29)
IsFieldNumber-bounds num h = ground arith

module _ {fl : Float64} (w : Wire fl) {M : Type 0}
    (field : M → ℕ → ℕ → List w.Byte → Result DecodeError (M × List w.Byte)) where
  -- The loop takes the message from `m` to `r` on the input `b`, with any fuel that is enough.
  pub record Decodes (m : M) (b : List w.Byte) (r : M) : Type 0 where
    pub run : (fuel : ℕ) → length b ≤ fuel → decode_loop w field fuel m b ≡ ok r

  decode_step :
      (num typ n : ℕ) (m m' r : M) (b rest : List w.Byte)
      → w.consume_tag b ≡ ok ((num, typ), n)
      → field m num typ (drop n b) ≡ ok (m', rest)
      → length rest < length b
      → Decodes m' rest r
      → (fuel : ℕ) → length b ≤ fuel
      → decode_loop w field fuel m b ≡ ok r
  unfolding decode_loop
  decode_step num typ n m m' r [] rest e f l d fuel h = absurd (omega arith)
  decode_step num typ n m m' r (x ∷ b) rest e f l d zero h = absurd (omega arith)
  decode_step num typ n m m' r (x ∷ b) rest e f l d (suc fuel) h =
      rw e (rw f (d.run fuel (omega arith)))

  tag_positive : (num typ : ℕ) → IsFieldNumber num → typ ≤ 5 → 0 < length (w.append_tag num typ)
  tag_positive num typ k t =
      let i = IsFieldNumber-bounds num k in
      (subst (IsWithinPositive (w.append_tag num typ ++ [])) (w.tag_lem num typ [] i.0 i.1 t)
        (w.tag_within (w.append_tag num typ ++ []))).0

  -- One field: the tag is read, then the case of the switch reads the payload.
  pub piece :
      (num typ : ℕ) (payload rest : List w.Byte) (m m' r : M)
      → IsFieldNumber num
      → typ ≤ 5
      → field m num typ (payload ++ rest) ≡ ok (m', rest)
      → Decodes m' rest r
      → Decodes m ((w.append_tag num typ ++ payload) ++ rest) r
  piece num typ payload rest m m' r k t f d =
      let i = IsFieldNumber-bounds num k in
      let tag = w.append_tag num typ in
      rw (append_assoc tag payload rest) (record {
        run =
            decode_step num typ (length tag) m m' r (tag ++ (payload ++ rest)) rest
              (w.tag_lem num typ (payload ++ rest) i.0 i.1 t)
              (ap (field m num typ) (drop-length-append tag (payload ++ rest)) ∙ f)
              (omega (
                arith,
                length-append tag (payload ++ rest),
                length-append payload rest,
                tag_positive num typ k t,
              ))
              d;
      })

  -- The end of the input.
  pub finished : (r : M) → Decodes r [] r
  unfolding decode_loop
  finished r = record { run = λ fuel h. refl }

  module _ (num : ℕ) (k : IsFieldNumber num) where
    pub read_piece :
        {A : Type 0} {r m : M} {rest : List w.Byte} (typ : ℕ) (p : List w.Byte) (v : A)
        (put : A → M) (consume : List w.Byte → Result ℕ (A × ℕ))
        → typ ≤ 5
        → field m num typ (p ++ rest) ≡ read w put (p ++ rest) (consume (p ++ rest))
        → consume (p ++ rest) ≡ ok (v, length p)
        → Decodes (put v) rest r
        → Decodes m ((w.append_tag num typ ++ p) ++ rest) r
    read_piece {A} {r} {m} {rest} typ p v put consume t f c d =
        piece num typ p rest m (put v) r k t
          (f ∙ ap (read w put (p ++ rest)) c ∙ ap (λ b. ok (put v, b)) (drop-length-append p rest))
          d

    pub string_piece :
        {r : M} {rest : List w.Byte} (put : String → M) (s : String)
        → ((b : List w.Byte) → field (put "") num bytes_type b ≡ read_string w put b)
        → Decodes (put s) rest r
        → Decodes (put "") (put_string w num s ++ rest) r
    unfolding put_string
    string_piece {r} {rest} put s f d = elim (Bool-cases (s == "")) [
      | inl e ↦ let i : s ≡ "" = (eq_iff s "").0 e in rw e (subst (λ t. Decodes (put t) rest r) i d)
      | inr e ↦
          let p = w.append_string s in
          rw e (
            read_piece bytes_type p s put w.consume_string (omega arith) (f (p ++ rest))
              (w.string_lem s rest) d)
    ]

    pub strings_piece :
        {r : M} {rest : List w.Byte} (put : List String → M) (acc ss : List String)
        → ((l : List String) (b : List w.Byte)
            → field (put l) num bytes_type b ≡ read_string w (λ v. put (l ++ (v ∷ []))) b)
        → Decodes (put (acc ++ ss)) rest r
        → Decodes (put acc) (put_strings w num ss ++ rest) r
    unfolding put_strings
    strings_piece {r} {rest} put acc [] f d = subst (λ l. Decodes (put l) rest r) (append-nil acc) d
    strings_piece {r} {rest} put acc (s ∷ ss) f d =
        let p = w.append_string s in
        rw (append_assoc (w.append_tag num bytes_type ++ p) (put_strings w num ss) rest) (
          read_piece bytes_type p s (λ v. put (acc ++ (v ∷ []))) w.consume_string (omega arith)
            (f acc (p ++ (put_strings w num ss ++ rest)))
            (w.string_lem s (put_strings w num ss ++ rest))
            (strings_piece put (acc ++ (s ∷ [])) ss f
              (subst (λ l. Decodes (put l) rest r) (sym (append_assoc acc (s ∷ []) ss)) d)))

    pub messages_piece :
        {A : Type 0} {r : M} {rest : List w.Byte} (marshal : A → List w.Byte)
        (unmarshal : List w.Byte → Result DecodeError A) (put : List A → M) (acc ms : List A)
        → ((x : A) → unmarshal (marshal x) ≡ ok x)
        → ((l : List A) (b : List w.Byte)
            → field (put l) num bytes_type b
              ≡ read_message w unmarshal (λ v. put (l ++ (v ∷ []))) b)
        → Decodes (put (acc ++ ms)) rest r
        → Decodes (put acc) (put_messages w num marshal ms ++ rest) r
    unfolding put_messages
    messages_piece {A} {r} {rest} marshal unmarshal put acc [] u f d =
        subst (λ l. Decodes (put l) rest r) (append-nil acc) d
    messages_piece {A} {r} {rest} marshal unmarshal put acc (x ∷ ms) u f d =
        let p = w.append_bytes (marshal x) in
        let more = put_messages w num marshal ms ++ rest in
        let c : field (put acc) num bytes_type (p ++ more) ≡ ok (put (acc ++ (x ∷ [])), more) =
          f acc (p ++ more)
          ∙ rw (w.bytes_lem (marshal x) more) (rw (drop-length-append p more) (rw (u x) refl)) in
        rw (append_assoc (w.append_tag num bytes_type ++ p) (put_messages w num marshal ms) rest) (
          piece num bytes_type p more (put acc) (put (acc ++ (x ∷ []))) r k (omega arith) c (
            messages_piece marshal unmarshal put (acc ++ (x ∷ [])) ms u f
              (subst (λ l. Decodes (put l) rest r) (sym (append_assoc acc (x ∷ []) ms)) d)))

    pub packed_piece :
        {r : M} {rest : List w.Byte} (put : List fl.Num → M) (vals : List fl.Num)
        → ((b : List w.Byte)
            → field (put []) num bytes_type b ≡ read_bytes w (λ v. put (unpack_fixed64 w v)) b)
        → Decodes (put vals) rest r
        → Decodes (put []) (put_packed w num vals ++ rest) r
    unfolding put_packed append_packed_fixed64
    packed_piece put [] f d = d
    packed_piece {r} {rest} put (x ∷ vals) f d =
        let v = pack_fixed64 w (x ∷ vals) in
        let p = w.append_bytes v in
        read_piece bytes_type p v (λ v. put (unpack_fixed64 w v)) w.consume_bytes (omega arith)
          (f (p ++ rest)) (w.bytes_lem v rest)
          (subst (λ t. Decodes (put t) rest r) (sym (unpack-pack_fixed64 w (x ∷ vals))) d)
