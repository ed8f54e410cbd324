-- ===== src/Errorx/Wire/Depth.antt =====
-- How deep a message may be.
use emberengine.Prelude.{
  ◌≡◌, refl, ap, ◌∙◌, ℕ, suc, ◌+◌, ◌≤◌, ◌++◌, zero, ◌==◌, Bool-cases, inl, inr, Option, Bool, some,
  none, true, false, ltb, arith,
}
use emberengine.Errorx.{
  Text, Fmt, Layer, Err, nil_ptr, layer, behind, caused_by, no_error, foreign, write_self,
  causes_text, error_text,
}
use emberengine.Errorx.Wire.{
  error_to_proto, Detail, no_detail, detail, of_layer, to_layer, cause_or_nil, proto_to_error,
}

-- The messages of a chain.
unfoldable pub detail_len : Detail → ℕ
detail_len no_detail = 0
detail_len (detail l cause) = suc (detail_len cause)

abbrev pub panics : {A : Type 0} → Option A → Bool
panics none = true
panics (some a) = false

above : (depth : ℕ) → 33 ≤ depth → ltb 32 depth ≡ true
above depth h = ground arith

below : (depth : ℕ) → depth ≤ 32 → ltb 32 depth ≡ false
below depth h = ground arith

behind-panics : (t : Text) (o : Option Text) → panics (behind t o) ≡ panics o
behind-panics t none = refl
behind-panics t (some r) = refl

causes_text-panics :
    {V : Type 0} (fmt : Fmt V) (d : Detail) (depth : ℕ)
    → depth ≤ 33
    → panics (causes_text fmt (cause_or_nil d (proto_to_error fmt d depth)))
      ≡ ltb 33 (depth + detail_len d)
unfolding proto_to_error causes_text detail_len
causes_text-panics fmt no_detail depth h = ground arith
causes_text-panics fmt (detail l cause) depth h = elim (Bool-cases (ltb 32 depth)) [
  | inl z ↦ rw (z) (ground arith)
  | inr z ↦ rw (z) (
      behind-panics (caused_by ++ write_self fmt (of_layer fmt l))
        (causes_text fmt (cause_or_nil cause (proto_to_error fmt cause (suc depth))))
      ∙ causes_text-panics fmt cause (suc depth) (ground arith)
      ∙ ground arith)
]

-- The error that is read from a message panics when it prints if and only if the chain of the
-- message has more than 33 errors, whatever they hold.
pub error_text-proto_to_error :
    {V : Type 0} (fmt : Fmt V) (l : Layer Text) (cause : Detail)
    → panics (error_text fmt (proto_to_error fmt (detail l cause) 0))
      ≡ ltb 33 (detail_len (detail l cause))
unfolding proto_to_error error_text detail_len
error_text-proto_to_error fmt l cause =
    behind-panics (write_self fmt (of_layer fmt l))
      (causes_text fmt (cause_or_nil cause (proto_to_error fmt cause 1)))
    ∙ causes_text-panics fmt cause 1 (omega arith)
    ∙ ground arith

-- The chain goes on for so many `*Error`s, and then comes an error of another type.
unfoldable pub foreign_at : {V : Type 0} → ℕ → Err V → Bool
foreign_at n no_error = false
foreign_at n nil_ptr = false
foreign_at n (foreign t inner) = n == 0
foreign_at zero (layer l cause) = false
foreign_at (suc n) (layer l cause) = foreign_at n cause

detail_len-error_to_proto :
    {V : Type 0} (fmt : Fmt V) (e : Err V) (n depth : ℕ)
    → depth + n ≡ 33
    → ltb 33 (depth + detail_len (error_to_proto fmt e depth)) ≡ foreign_at n e
unfolding error_to_proto foreign_at detail_len
detail_len-error_to_proto fmt no_error n depth h = ground arith
detail_len-error_to_proto fmt nil_ptr n depth h = ground arith
detail_len-error_to_proto fmt (foreign t inner) n depth h = ground arith
detail_len-error_to_proto fmt (layer l cause) zero depth h =
    rw (above depth (omega arith)) (ground arith)
detail_len-error_to_proto fmt (layer l cause) (suc n) depth h =
    rw (below depth (omega arith))
      (ap (ltb 33) (omega arith) ∙ detail_len-error_to_proto fmt cause n (suc depth) (omega arith))

-- An `*Error` that is sent with errorToProto and read with protoToError panics when it prints if
-- and only if its chain is 33 of them and then an error of another type.
pub error_text-sent :
    {V : Type 0} (fmt : Fmt V) (l : Layer V) (cause : Err V)
    → panics (error_text fmt (proto_to_error fmt (error_to_proto fmt (layer l cause) 0) 0))
      ≡ foreign_at 33 (layer l cause)
unfolding error_to_proto
error_text-sent fmt l cause =
    error_text-proto_to_error fmt (to_layer fmt l) (error_to_proto fmt cause 1)
    ∙ ap (ltb 33) (omega arith)
    ∙ detail_len-error_to_proto fmt (layer l cause) 33 0 refl
