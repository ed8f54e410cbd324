-- ===== src/Errorx/Wire.antt =====
-- Errors as protobuf messages: engine/pkg/utils/errorx/wire.go. Protobuf's encoding is a parameter.
pub mod RoundTrip
pub mod Depth
mod Tests
use emberengine.Prelude.{
  ℕ, suc, ◌-◌, ◌%◌, ◌^◌, [], map, Bool, Option, none, some, ltb, if◌then◌else◌,
}
use emberengine.Prelude.Int.{ℤ, pos, negsuc}
use emberengine.Errorx.{Text, Fmt, Field, Layer, Err, no_error, nil_ptr, layer, foreign, error_text}

-- An `actor.ErrorDetail`, or nil; `code` and `line` are an int32.
pub data Detail : Type 0 where
  no_detail : Detail
  detail : Layer Text → Detail → Detail

abbrev pub max_chain_depth : ℕ
max_chain_depth = 32

abbrev pub signed32 : ℕ → ℤ
signed32 w = if ltb w (2 ^ 31) then pos w else negsuc (2 ^ 32 - 1 - w)

pub int32 : ℤ → ℤ
int32 (pos n) = signed32 (n % 2 ^ 32)
int32 (negsuc n) = signed32 (2 ^ 32 - 1 - n % 2 ^ 32)

abbrev pub to_error_field : {V : Type 0} → Fmt V → Field V → Field Text
to_error_field fmt f = record { key = f.key; val = fmt.sprint f.val }

abbrev pub of_error_field : {V : Type 0} → Fmt V → Field Text → Field V
of_error_field fmt f = record { key = f.key; val = fmt.of_string f.val }

pub to_layer : {V : Type 0} → Fmt V → Layer V → Layer Text
to_layer fmt l = record {
  code = int32 l.code;
  msg = l.msg;
  file = l.file;
  line = int32 l.line;
  fields = map (to_error_field fmt) l.fields;
}

pub of_layer : {V : Type 0} → Fmt V → Layer Text → Layer V
of_layer fmt l = record {
  code = l.code;
  msg = l.msg;
  file = l.file;
  line = l.line;
  fields = map (of_error_field fmt) l.fields;
}

-- `&actor.ErrorDetail{Msg: t}`
abbrev pub only_msg : {V : Type 0} → Text → Layer V
only_msg t = record { code = pos 0; msg = t; file = []; line = pos 0; fields = [] }

-- `errorToProto`, and for an error of another type what its callers make of it.
pub error_to_proto : {V : Type 0} → Fmt V → Err V → ℕ → Detail
error_to_proto fmt no_error depth = no_detail
error_to_proto fmt nil_ptr depth = no_detail
error_to_proto fmt (foreign t inner) depth = detail (only_msg t) no_detail
error_to_proto fmt (layer l cause) depth =
    let d = detail (to_layer fmt l) (error_to_proto fmt cause (suc depth)) in
    if ltb max_chain_depth depth then no_detail else d

-- `if d.Cause != nil`
abbrev pub cause_or_nil : {V : Type 0} → Detail → Err V → Err V
cause_or_nil no_detail e = no_error
cause_or_nil (detail l cause) e = e

-- `protoToError`
pub proto_to_error : {V : Type 0} → Fmt V → Detail → ℕ → Err V
proto_to_error fmt no_detail depth = nil_ptr
proto_to_error fmt (detail l cause) depth =
    let e = layer (of_layer fmt l) (cause_or_nil cause (proto_to_error fmt cause (suc depth))) in
    if ltb max_chain_depth depth then nil_ptr else e

-- `proto.Marshal`, with whether it succeeded, `proto.Unmarshal`, the nil slice, `len(data) == 0` and
-- the text for bytes that are no message.
pub record Codec (B : Type 0) : Type 0 where
  pub marshal : Detail → B × Bool
  pub unmarshal : B → Option Detail
  pub nil_slice : B
  pub is_empty : B → Bool
  pub unreadable : B → Text

abbrev pub msg_or_panic : {B : Type 0} → Codec B → Option Text → Option B
msg_or_panic codec none = none
msg_or_panic codec (some t) = some (codec.marshal (detail (only_msg t) no_detail)).0

abbrev pub or_fallback : {B : Type 0} → Codec B → Option Text → B × Bool → Option B
or_fallback codec t (b, ok) = if ok then some b else msg_or_panic codec t

pub marshal_to_bytes : {V B : Type 0} → Fmt V → Codec B → Err V → Option B
marshal_to_bytes fmt codec no_error = some codec.nil_slice
marshal_to_bytes fmt codec nil_ptr =
    or_fallback codec (error_text fmt nil_ptr) (codec.marshal (error_to_proto fmt nil_ptr 0))
marshal_to_bytes fmt codec (layer l cause) =
    or_fallback codec (error_text fmt (layer l cause))
      (codec.marshal (error_to_proto fmt (layer l cause) 0))
marshal_to_bytes fmt codec (foreign t inner) =
    or_fallback codec (error_text fmt (foreign t inner))
      (codec.marshal (error_to_proto fmt (foreign t inner) 0))

abbrev pub read_or_unreadable : {V B : Type 0} → Fmt V → Codec B → B → Option Detail → Err V
read_or_unreadable fmt codec bytes none = layer (only_msg (codec.unreadable bytes)) no_error
read_or_unreadable fmt codec bytes (some d) = proto_to_error fmt d 0

pub unmarshal_from_bytes : {V B : Type 0} → Fmt V → Codec B → B → Err V
unmarshal_from_bytes fmt codec bytes =
    if codec.is_empty bytes
    then no_error
    else read_or_unreadable fmt codec bytes (codec.unmarshal bytes)
