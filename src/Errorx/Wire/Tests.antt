-- ===== src/Errorx/Wire/Tests.antt =====
-- Errors whose values are texts, under a codec whose bytes are the messages themselves.
use emberengine.Prelude.{◌≡◌, refl, ℕ, zero, suc, [], ◌∷◌, Bool, true, false, some, arith}
use emberengine.Prelude.Int.{pos}
use emberengine.Errorx.{Text, Fmt, Err, no_error, layer, foreign, error_text, code_from}
use emberengine.Errorx.Wire.{
  Detail, no_detail, detail, Codec, only_msg, int32, error_to_proto, proto_to_error,
  marshal_to_bytes, unmarshal_from_bytes,
}
use emberengine.Errorx.Wire.RoundTrip.{chain_len, IsSendable, Arrives, marshal_to_bytes-Arrives}
use emberengine.Errorx.Wire.Depth.{panics, foreign_at, error_text-sent}

abbrev plain_fmt : Fmt Text
plain_fmt = record { sprint = λ t. t; of_string = λ t. t; decimal = λ c. 35 ∷ [] }

abbrev is_no_detail : Detail → Bool
is_no_detail no_detail = true
is_no_detail (detail l cause) = false

abbrev plain_codec : Codec Detail
plain_codec = record {
  marshal = λ d. (d, true);
  unmarshal = λ d. some d;
  nil_slice = no_detail;
  is_empty = is_no_detail;
  unreadable = λ d. [];
}

-- [1001] t {k=v} (b/c.go:#), caused by an error of another type
abbrev timeout : Err Text
timeout =
    layer
      (record {
        code = pos 1001;
        msg = 116 ∷ [];
        file = 97 ∷ 47 ∷ 98 ∷ 47 ∷ 99 ∷ [];
        line = pos 12;
        fields = record { key = 107 ∷ []; val = 118 ∷ [] } ∷ [];
      })
      (foreign (100 ∷ []) no_error)

abbrev wrapped : ℕ → Err Text
wrapped zero = foreign (100 ∷ []) no_error
wrapped (suc n) = layer (only_msg (119 ∷ [])) (wrapped n)

abbrev messages : ℕ → Detail
messages zero = no_detail
messages (suc n) = detail (only_msg (119 ∷ [])) (messages n)

timeout_code : code_from timeout ≡ some (pos 1001)
unfolding code_from
timeout_code = refl

timeout-IsSendable : IsSendable timeout
unfolding IsSendable int32
timeout-IsSendable = (refl, refl, refl)

timeout_len : chain_len timeout ≡ 2
unfolding chain_len
timeout_len = refl

timeout_encoded : is_no_detail (error_to_proto plain_fmt timeout 0) ≡ false
unfolding error_to_proto
timeout_encoded = refl

marshal_to_bytes-Arrives_example :
    (bytes : Detail) × (marshal_to_bytes plain_fmt plain_codec timeout ≡ some bytes)
    × Arrives plain_fmt timeout (unmarshal_from_bytes plain_fmt plain_codec bytes)
marshal_to_bytes-Arrives_example =
    marshal_to_bytes-Arrives plain_fmt plain_codec timeout (λ t. refl) (omega (arith, timeout_len))
      timeout-IsSendable (refl, refl, timeout_encoded, refl)

error_text-sent_example :
    panics
      (error_text plain_fmt (proto_to_error plain_fmt (error_to_proto plain_fmt (wrapped 33) 0) 0))
    ≡ foreign_at 33 (wrapped 33)
error_text-sent_example = error_text-sent plain_fmt (only_msg (119 ∷ [])) (wrapped 32)
