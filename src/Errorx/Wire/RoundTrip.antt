-- ===== src/Errorx/Wire/RoundTrip.antt =====
-- What a peer reads of an error.
use emberengine.Prelude.{
  ◌≡◌, refl, ap, ◌∙◌, ℕ, suc, ◌+◌, ◌≤◌, List, [], ◌∷◌, ◌++◌, map, append-nil, true, false,
  Bool-cases, inl, inr, Option, some, ltb, if◌then◌else◌, arith,
}
use emberengine.Prelude.Int.{ℤ, pos, eqb_ℤ}
use emberengine.Errorx.{
  Text, Fmt, IsPlain, Field, Layer, Err, no_error, nil_ptr, layer, foreign, caused_by, write_fields,
  in_braces, write_self, causes_text, error_text, has_code_loop, has_code, code_from,
}
use emberengine.Errorx.Wire.{
  Detail, no_detail, detail, int32, to_error_field, of_error_field, to_layer, of_layer, only_msg,
  error_to_proto, cause_or_nil, proto_to_error, Codec, or_fallback, marshal_to_bytes,
  unmarshal_from_bytes,
}

-- The errors of a chain down to the first of another type.
unfoldable pub chain_len : {V : Type 0} → Err V → ℕ
chain_len no_error = 0
chain_len nil_ptr = 0
chain_len (foreign t inner) = 1
chain_len (layer l cause) = suc (chain_len cause)

-- No nil `*Error` in the chain, codes and lines that are an int32, and nothing inside an error of
-- another type.
unfoldable pub IsSendable : {V : Type 0} → Err V → Type 0
IsSendable no_error = true ≡ true
IsSendable nil_ptr = ⊥
IsSendable (foreign t inner) = inner ≡ no_error
IsSendable (layer l cause) = (int32 l.code ≡ l.code) × (int32 l.line ≡ l.line) × IsSendable cause

module _ {V : Type 0} (fmt : Fmt V) (plain : IsPlain fmt) where
  write_fields-wire :
      (fs : List (Field V))
      → write_fields fmt (map (of_error_field fmt) (map (to_error_field fmt) fs))
        ≡ write_fields fmt fs
  unfolding write_fields
  write_fields-wire [] = refl
  write_fields-wire (f ∷ fs) = rw (plain (fmt.sprint f.val), write_fields-wire fs) refl

  in_braces-wire :
      (fs : List (Field V))
      → in_braces fmt (map (of_error_field fmt) (map (to_error_field fmt) fs)) ≡ in_braces fmt fs
  in_braces-wire [] = refl
  in_braces-wire (f ∷ fs) = rw (plain (fmt.sprint f.val), write_fields-wire fs) refl

  write_self-wire :
      (l : Layer V)
      → int32 l.code ≡ l.code
      → int32 l.line ≡ l.line
      → write_self fmt (of_layer fmt (to_layer fmt l)) ≡ write_self fmt l
  unfolding write_self of_layer to_layer
  write_self-wire l hc hl = rw (hc, hl, in_braces-wire l.fields) refl

  write_self-only_msg : (t : Text) → write_self fmt (of_layer fmt (only_msg t)) ≡ t
  unfolding write_self of_layer
  write_self-only_msg t = append-nil (t ++ []) ∙ append-nil t

-- What a peer makes of the cause of an error at a depth.
abbrev read_back : {V : Type 0} → Fmt V → Err V → ℕ → Err V
read_back fmt e depth =
    cause_or_nil (error_to_proto fmt e depth)
      (proto_to_error fmt (error_to_proto fmt e depth) depth)

within : (depth : ℕ) → depth + 1 ≤ 33 → ltb 32 depth ≡ false
within depth h = ground arith

module _ {V : Type 0} (fmt : Fmt V) where
  read_back-layer :
      (l : Layer V) (cause : Err V) (depth : ℕ)
      → ltb 32 depth ≡ false
      → read_back fmt (layer l cause) depth
        ≡ layer (of_layer fmt (to_layer fmt l)) (read_back fmt cause (suc depth))
  unfolding error_to_proto proto_to_error
  read_back-layer l cause depth h = rw (h) (rw (h) refl)

  read_back-foreign :
      (t : Text) (inner : Err V) (depth : ℕ)
      → ltb 32 depth ≡ false
      → read_back fmt (foreign t inner) depth ≡ layer (of_layer fmt (only_msg t)) no_error
  unfolding error_to_proto proto_to_error
  read_back-foreign t inner depth h = rw (h) refl

  has_code_loop-read_back :
      (c : ℤ)
      → eqb_ℤ (pos 0) c ≡ false
      → (e : Err V) (depth : ℕ) → depth + chain_len e ≤ 33
      → IsSendable e
      → has_code_loop c (read_back fmt e depth) ≡ has_code_loop c e
  unfolding has_code_loop chain_len IsSendable error_to_proto of_layer to_layer
  has_code_loop-read_back c hc no_error depth hd hs = refl
  has_code_loop-read_back c hc nil_ptr depth hd hs = absurd hs
  has_code_loop-read_back c hc (foreign t inner) depth hd hs =
      rw (read_back-foreign t inner depth (within depth hd), hs) (rw (hc) refl)
  has_code_loop-read_back c hc (layer l cause) depth hd (kc, kl, hs) =
      rw
        (
          read_back-layer l cause depth (within depth (omega arith)),
          has_code_loop-read_back c hc cause (suc depth) (omega arith) hs,
          kc,
        )
        refl

  code_from-read_back :
      (e : Err V) (depth : ℕ)
      → depth + chain_len e ≤ 33
      → IsSendable e
      → code_from (read_back fmt e depth) ≡ code_from e
  unfolding code_from chain_len IsSendable error_to_proto of_layer to_layer
  code_from-read_back no_error depth hd hs = refl
  code_from-read_back nil_ptr depth hd hs = absurd hs
  code_from-read_back (foreign t inner) depth hd hs =
      rw (read_back-foreign t inner depth (within depth hd), hs) refl
  code_from-read_back (layer l cause) depth hd (kc, kl, hs) =
      rw
        (
          read_back-layer l cause depth (within depth (omega arith)),
          code_from-read_back cause (suc depth) (omega arith) hs,
          kc,
        )
        refl

module _ {V : Type 0} (fmt : Fmt V) (plain : IsPlain fmt) where
  causes_text-read_back :
      (e : Err V) (depth : ℕ)
      → depth + chain_len e ≤ 33
      → IsSendable e
      → causes_text fmt (read_back fmt e depth) ≡ causes_text fmt e
  unfolding causes_text chain_len IsSendable error_to_proto
  causes_text-read_back no_error depth hd hs = refl
  causes_text-read_back nil_ptr depth hd hs = absurd hs
  causes_text-read_back (foreign t inner) depth hd hs =
      rw (read_back-foreign fmt t inner depth (within depth hd), write_self-only_msg fmt plain t)
        (ap some (append-nil (caused_by ++ t)))
  causes_text-read_back (layer l cause) depth hd (kc, kl, hs) =
      rw
        (
          read_back-layer fmt l cause depth (within depth (omega arith)),
          causes_text-read_back cause (suc depth) (omega arith) hs,
          write_self-wire fmt plain l kc kl,
        )
        refl

-- An error prints as another, and has the codes of it.
abbrev pub Arrives : {V : Type 0} → Fmt V → Err V → Err V → Type 0
Arrives fmt e back =
    (error_text fmt back ≡ error_text fmt e)
    × (code_from back ≡ code_from e)
    × ((c : ℤ) → has_code back c ≡ has_code e c)

-- The codec encodes a message to bytes that are not empty, and decodes these again.
abbrev pub IsFaithful : {B : Type 0} → Codec B → Detail → Type 0
IsFaithful codec d =
    (codec.is_empty codec.nil_slice ≡ true)
    × ((codec.marshal d).1 ≡ true)
    × (codec.is_empty (codec.marshal d).0 ≡ false)
    × (codec.unmarshal (codec.marshal d).0 ≡ some d)

has_code-read_back :
    {V : Type 0} (fmt : Fmt V) (e : Err V)
    → chain_len e ≤ 33
    → IsSendable e
    → (c : ℤ) → has_code (read_back fmt e 0) c ≡ has_code e c
unfolding has_code
has_code-read_back fmt e hd hs c = elim (Bool-cases (eqb_ℤ c (pos 0))) [
  | inl z ↦ rw (z) refl
  | inr z ↦
      ap (λ r. if eqb_ℤ c (pos 0) then some false else r)
        (has_code_loop-read_back fmt c (ground arith) e 0 (omega arith) hs)
]

error_text-read_back :
    {V : Type 0} (fmt : Fmt V) (plain : IsPlain fmt) (e : Err V)
    → chain_len e ≤ 33
    → IsSendable e
    → error_text fmt (read_back fmt e 0) ≡ error_text fmt e
unfolding error_text chain_len IsSendable error_to_proto causes_text
error_text-read_back fmt plain no_error hd hs = refl
error_text-read_back fmt plain nil_ptr hd hs = absurd hs
error_text-read_back fmt plain (foreign t inner) hd hs =
    rw (read_back-foreign fmt t inner 0 refl, write_self-only_msg fmt plain t)
      (ap some (append-nil t))
error_text-read_back fmt plain (layer l cause) hd (kc, kl, hs) =
    rw
      (
        read_back-layer fmt l cause 0 refl,
        causes_text-read_back fmt plain cause 1 (omega arith) hs,
        write_self-wire fmt plain l kc kl,
      )
      refl

sent_nil :
    {V B : Type 0} (fmt : Fmt V) (codec : Codec B)
    → codec.is_empty codec.nil_slice ≡ true
    → unmarshal_from_bytes fmt codec codec.nil_slice ≡ read_back fmt no_error 0
unfolding unmarshal_from_bytes error_to_proto
sent_nil fmt codec h = rw (h) refl

received :
    {V B : Type 0} (fmt : Fmt V) (codec : Codec B) (d : Detail)
    → IsFaithful codec d
    → unmarshal_from_bytes fmt codec (codec.marshal d).0 ≡ proto_to_error fmt d 0
unfolding unmarshal_from_bytes
received fmt codec d (_, _, full, decoded) = rw (full, decoded) refl

or_fallback_ok :
    {B : Type 0} (codec : Codec B) (t : Option Text) (d : Detail)
    → (codec.marshal d).1 ≡ true
    → or_fallback codec t (codec.marshal d) ≡ some (codec.marshal d).0
or_fallback_ok codec t d h = rw (h) refl

-- What the peer reads, under the codec.
sent :
    {V B : Type 0} (fmt : Fmt V) (codec : Codec B) (e : Err V)
    → IsSendable e
    → IsFaithful codec (error_to_proto fmt e 0)
    → (bytes : B) × (marshal_to_bytes fmt codec e ≡ some bytes)
      × (unmarshal_from_bytes fmt codec bytes ≡ read_back fmt e 0)
unfolding marshal_to_bytes IsSendable error_to_proto error_text
sent fmt codec no_error hs f = (codec.nil_slice, refl, sent_nil fmt codec f.0)
sent fmt codec nil_ptr hs f = absurd hs
sent fmt codec (foreign t inner) hs f =
    let d = detail (only_msg t) no_detail in
    ((codec.marshal d).0, or_fallback_ok codec (some t) d f.1, received fmt codec d f)
sent fmt codec (layer l cause) hs f =
    let d = detail (to_layer fmt l) (error_to_proto fmt cause 1) in
    (
      (codec.marshal d).0,
      or_fallback_ok codec (error_text fmt (layer l cause)) d f.1,
      received fmt codec d f,
    )

-- An error whose chain has no nil `*Error` and at most 33 errors down to the first of another type,
-- which wraps none, and whose codes and lines are an int32, arrives at a peer, under a fmt that
-- renders a string as itself and a codec that encodes its message to bytes and decodes these again:
-- MarshalToBytes gives bytes, and what UnmarshalFromBytes makes of them prints the same, has the
-- same first code and has just the codes that the error has.
pub marshal_to_bytes-Arrives :
    {V B : Type 0} (fmt : Fmt V) (codec : Codec B) (e : Err V)
    → IsPlain fmt
    → chain_len e ≤ 33
    → IsSendable e
    → IsFaithful codec (error_to_proto fmt e 0)
    → (bytes : B) × (marshal_to_bytes fmt codec e ≡ some bytes)
      × Arrives fmt e (unmarshal_from_bytes fmt codec bytes)
marshal_to_bytes-Arrives fmt codec e plain hd hs f =
    let (bytes, written, read) = sent fmt codec e hs f in
    (
      bytes,
      written,
      (
        ap (error_text fmt) read ∙ error_text-read_back fmt plain e hd hs,
        ap code_from read ∙ code_from-read_back fmt e 0 (omega arith) hs,
        λ c. ap (λ back. has_code back c) read ∙ has_code-read_back fmt e hd hs c,
      ),
    )
