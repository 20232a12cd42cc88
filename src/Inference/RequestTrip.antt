-- ===== src/Inference/RequestTrip.antt =====
-- The round trip of `InferenceRequest` of gen/go/inference/v1/inference.go: what `MarshalProto`
-- writes, `UnmarshalProto` reads into the same request, the entries of the map included.
use llm_platform.Common.{
  ℕ, zero, suc, String, Bool, Option, some, none, List, [], ◌∷◌, ◌++◌, ◌≡◌, refl, sym, subst,
  length, ok, Result-cases, inl, inr, arith,
}
use llm_platform.Common.Int.{ℤ, IsInt64}
use llm_platform.Common.Dict.{Dict, KeysDistinct, put-append}
use llm_platform.Common.Float.{Float64}
use llm_platform.Wire.{Wire, concat, decode_loop, read, bytes_type, put_messages}
use llm_platform.Wire.Fields.{
  Decodes, read_piece, finished, string_piece, strings_piece, messages_piece,
}
use llm_platform.Wire.Numbers.{int32_piece, int64_piece, bool_piece, IsInt32}
use llm_platform.Inference.{InferenceRequest, ChatMessage}
use llm_platform.Inference.Chat
use llm_platform.Inference.Request
use llm_platform.Inference.Request.{made, set_metadata}
use llm_platform.Inference.RoundTrip.{chat_round_trip}
use mathlib.Core.List.{append_assoc, append-nil}

-- The integers fit their Go types, and no key of the map has two entries.
pub record IsWireRequest (m : InferenceRequest) : Type 0 where
  pub task_type : IsInt32 m.task_type
  pub max_tokens : IsInt32 m.max_tokens
  pub priority : IsInt32 m.priority
  pub latency_target_ms : IsInt32 m.latency_target_ms
  pub deadline_unix_ms : IsInt64 m.deadline_unix_ms
  pub received_at_ms : IsInt64 m.received_at_ms
  pub metadata : KeysDistinct (made m.metadata)

module _ {fl : Float64} (w : Wire fl) where
  -- Where the loop over the fields has no error, `unmarshalStringPair` has its result.
  pair_loop-decode_loop :
      (fuel : ℕ) (kv : String × String) (b : List w.Byte) (r : String × String)
      → decode_loop w (Request.pair_field w) fuel kv b ≡ ok r
      → Request.pair_loop w fuel kv b ≡ r
  unfolding Request.pair_loop decode_loop
  pair_loop-decode_loop fuel kv [] r h = cc
  pair_loop-decode_loop zero kv (x ∷ b) r h = cc
  pair_loop-decode_loop (suc fuel) kv (x ∷ b) r h =
      elim (Result-cases (read w (λ tag. tag) (x ∷ b) (w.consume_tag (x ∷ b)))) [
        | inl (((num, typ), b'), e) ↦ elim (Result-cases (Request.pair_field w kv num typ b')) [
          | inl ((kv', rest), f) ↦
              let h' : decode_loop w (Request.pair_field w) fuel kv' rest ≡ ok r =
                rw f at (rw e at h) in
              rw e (rw f (pair_loop-decode_loop fuel kv' rest r h'))
          | inr (x', f) ↦ let h' = rw f at (rw e at h) in cc
        ]
        | inr (x', e) ↦ let h' = rw e at h in cc
      ]

  -- An entry of the map is read back as its key and value.
  unmarshal-pair_entry :
      (k v : String) → Request.unmarshal_string_pair w (Request.pair_entry w k v) ≡ (k, v)
  unfolding Request.unmarshal_string_pair Request.pair_entry Request.pair_field
  unmarshal-pair_entry k v =
      let more = (w.append_tag 2 bytes_type ++ w.append_string v) ++ [] in
      let d =
        read_piece w (Request.pair_field w) 1 refl bytes_type (w.append_string k) k (λ s. (s, ""))
          w.consume_string (omega arith) refl (w.string_lem k more)
          (read_piece w (Request.pair_field w) 2 refl bytes_type (w.append_string v) v (λ s. (k, s))
            w.consume_string (omega arith) refl (w.string_lem v [])
            (finished w (Request.pair_field w) (k, v))) in
      pair_loop-decode_loop (length (Request.pair_entry w k v)) ("", "") (Request.pair_entry w k v)
        (k, v) (d.run (length (Request.pair_entry w k v)) (omega arith))

  -- The metadata entries of the input are put into the map one after the other.
  pairs_piece :
      (r : InferenceRequest) (rest : List w.Byte) (set : Option (Dict String) → InferenceRequest)
      (acc d : Dict String)
      → KeysDistinct (acc ++ d)
      → ((o : Option (Dict String)) (b : List w.Byte)
          → Request.field w (set o) 15 bytes_type b
            ≡ read w
                (λ raw. set (set_metadata o (Request.unmarshal_string_pair w raw)))
                b
                (w.consume_bytes b))
      → Decodes w (Request.field w) (set (some (acc ++ d))) rest r
      → Decodes w (Request.field w) (set (some acc)) (Request.put_pairs w 15 (some d) ++ rest) r
  unfolding Request.put_pairs put_messages
  pairs_piece r rest set acc [] h f t =
      subst (λ m. Decodes w (Request.field w) (set (some m)) rest r) (append-nil acc) t
  pairs_piece r rest set acc ((k, v) ∷ d) h f t =
      let entry = Request.pair_entry w k v in
      let more = Request.put_pairs w 15 (some d) ++ rest in
      let assoc : (acc ++ ((k, v) ∷ [])) ++ d ≡ acc ++ ((k, v) ∷ d) =
        append_assoc acc ((k, v) ∷ []) d in
      let entry_put : set (set_metadata (some acc) (Request.unmarshal_string_pair w entry))
          ≡ set (some (acc ++ ((k, v) ∷ []))) =
        rw (unmarshal-pair_entry k v) (rw (put-append acc k v d h) refl) in
      let c = f (some acc) (w.append_bytes entry ++ more) in
      rw
        (append_assoc (w.append_tag 15 bytes_type ++ w.append_bytes entry)
          (Request.put_pairs w 15 (some d)) rest)
        (read_piece w (Request.field w) 15 refl bytes_type (w.append_bytes entry) entry
          (λ raw. set (set_metadata (some acc) (Request.unmarshal_string_pair w raw)))
          w.consume_bytes (omega arith) c (w.bytes_lem entry more)
          (subst (λ m. Decodes w (Request.field w) m more r) (sym entry_put)
            (pairs_piece r rest set (acc ++ ((k, v) ∷ [])) d (subst KeysDistinct (sym assoc) h) f
              (subst (λ m. Decodes w (Request.field w) (set (some m)) rest r) (sym assoc) t))))

  metadata_piece :
      (r : InferenceRequest) (rest : List w.Byte) (set : Option (Dict String) → InferenceRequest)
      (o : Option (Dict String))
      → KeysDistinct (made o)
      → ((o : Option (Dict String)) (b : List w.Byte)
          → Request.field w (set o) 15 bytes_type b
            ≡ read w
                (λ raw. set (set_metadata o (Request.unmarshal_string_pair w raw)))
                b
                (w.consume_bytes b))
      → Decodes w (Request.field w) (set (some (made o))) rest r
      → Decodes w (Request.field w) (set (some [])) (Request.put_pairs w 15 o ++ rest) r
  unfolding Request.put_pairs
  metadata_piece r rest set none h f t = t
  metadata_piece r rest set (some d) h f t = pairs_piece r rest set [] d h f t

  -- A request whose integers fit their Go types is read back as it was, except that the map is never
  -- nil: where it was, the reader has an empty one.
  pub request_round_trip :
      (m : InferenceRequest)
      → IsWireRequest m
      → Request.unmarshal w Request.empty (Request.marshal w m)
        ≡ ok (record m { metadata = some (made m.metadata) })
  unfolding Request.marshal Request.field Request.unmarshal concat
  request_round_trip m h =
      let e0 = record Request.empty { metadata = some [] } in
      let r = record m { metadata = some (made m.metadata) } in
      let s1 = record e0 { request_id = m.request_id } in
      let s2 = record s1 { idempotency_key = m.idempotency_key } in
      let s3 = record s2 { task_type = m.task_type } in
      let s4 = record s3 { prompt = m.prompt } in
      let s5 = record s4 { messages = m.messages } in
      let s6 = record s5 { documents = m.documents } in
      let s7 = record s6 { query = m.query } in
      let s8 = record s7 { max_tokens = m.max_tokens } in
      let s9 = record s8 { stream = m.stream } in
      let s10 = record s9 { priority = m.priority } in
      let s11 = record s10 { cost_budget = m.cost_budget } in
      let s12 = record s11 { latency_target_ms = m.latency_target_ms } in
      let s13 = record s12 { tenant_id = m.tenant_id } in
      let s14 = record s13 { api_key_id = m.api_key_id } in
      let s15 = record s14 { metadata = some (made m.metadata) } in
      let s16 = record s15 { deadline_unix_ms = m.deadline_unix_ms } in
      let decodes =
        string_piece w (Request.field w) 1 refl (λ (v : String). record e0 { request_id = v })
          m.request_id (λ _. refl)
          (string_piece w (Request.field w) 2 refl
            (λ (v : String). record s1 { idempotency_key = v }) m.idempotency_key (λ _. refl)
            (int32_piece w (Request.field w) 3 refl (λ (v : ℤ). record s2 { task_type = v })
              m.task_type h.task_type (λ _. refl)
              (string_piece w (Request.field w) 4 refl (λ (v : String). record s3 { prompt = v })
                m.prompt (λ _. refl)
                (messages_piece w (Request.field w) 5 refl (Chat.marshal w)
                  (Chat.unmarshal w Chat.empty)
                  (λ (v : List ChatMessage). record s4 { messages = v }) [] m.messages
                  (chat_round_trip w) (λ _ _. refl)
                  (strings_piece w (Request.field w) 6 refl
                    (λ (v : List String). record s5 { documents = v }) [] m.documents (λ _ _. refl)
                    (string_piece w (Request.field w) 7 refl
                      (λ (v : String). record s6 { query = v }) m.query (λ _. refl)
                      (int32_piece w (Request.field w) 8 refl
                        (λ (v : ℤ). record s7 { max_tokens = v }) m.max_tokens h.max_tokens
                        (λ _. refl)
                        (bool_piece w (Request.field w) 9 refl
                          (λ (v : Bool). record s8 { stream = v }) m.stream (λ _. refl)
                          (int32_piece w (Request.field w) 10 refl
                            (λ (v : ℤ). record s9 { priority = v }) m.priority h.priority
                            (λ _. refl)
                            (string_piece w (Request.field w) 11 refl
                              (λ (v : String). record s10 { cost_budget = v }) m.cost_budget
                              (λ _. refl)
                              (int32_piece w (Request.field w) 12 refl
                                (λ (v : ℤ). record s11 { latency_target_ms = v })
                                m.latency_target_ms h.latency_target_ms (λ _. refl)
                                (string_piece w (Request.field w) 13 refl
                                  (λ (v : String). record s12 { tenant_id = v }) m.tenant_id
                                  (λ _. refl)
                                  (string_piece w (Request.field w) 14 refl
                                    (λ (v : String). record s13 { api_key_id = v }) m.api_key_id
                                    (λ _. refl)
                                    (metadata_piece r _
                                      (λ (v : Option (Dict String)). record s14 { metadata = v })
                                      m.metadata h.metadata (λ _ _. refl)
                                      (int64_piece w (Request.field w) 16 refl
                                        (λ (v : ℤ). record s15 { deadline_unix_ms = v })
                                        m.deadline_unix_ms h.deadline_unix_ms (λ _. refl)
                                        (int64_piece w (Request.field w) 17 refl
                                          (λ (v : ℤ). record s16 { received_at_ms = v })
                                          m.received_at_ms h.received_at_ms (λ _. refl)
                                          (finished w (Request.field w) r))))))))))))))))) in
      decodes.run (length (Request.marshal w m)) (omega arith)
