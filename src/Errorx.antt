-- ===== src/Errorx.antt =====
-- Errors with a code, a place and fields, and the queries over their chains:
-- engine/pkg/utils/errorx/errorx.go. A text is the list of its bytes; the type of a field's value and
-- fmt's rendering of a value and of an integer are arguments. `none` is a panic.
pub mod Wire
use emberengine.Prelude.{
  ◌≡◌, ℕ, List, [], ◌∷◌, ◌++◌, Bool, true, false, ◌||◌, Option, none, some, ◌==◌, if◌then◌else◌,
}
use emberengine.Prelude.Int.{ℤ, pos, eqb_ℤ}

abbrev pub Text : Type 0
Text = List ℕ

-- `fmt.Sprint` and `%v` of a value, a string as a value, and `%d`.
pub record Fmt (V : Type 0) : Type 0 where
  pub sprint : V → Text
  pub of_string : Text → V
  pub decimal : ℤ → Text

-- fmt renders a string as itself.
abbrev pub IsPlain : {V : Type 0} → Fmt V → Type 0
IsPlain fmt = (t : Text) → fmt.sprint (fmt.of_string t) ≡ t

pub record Field (V : Type 0) : Type 0 where
  pub key : Text
  pub val : V

-- An `Error` without its cause.
pub record Layer (V : Type 0) : Type 0 where
  pub code : ℤ
  pub msg : Text
  pub file : Text
  pub line : ℤ
  pub fields : List (Field V)

-- A value of the interface `error`: nil; a nil `*Error`, which is not nil as an `error`; an `*Error`
-- and its cause; an error of another type, with the text that its `Error` answers and what its
-- `Unwrap` does.
pub data Err (V : Type 0) : Type 0 where
  no_error : Err V
  nil_ptr : Err V
  layer : Layer V → Err V → Err V
  foreign : Text → Err V → Err V

-- `path[i] == '/' || path[i] == '\\'`
abbrev pub is_separator : ℕ → Bool
is_separator b = b == 47 || b == 92

abbrev pub short_step : ℕ → ℕ × Text → ℕ × Text
short_step b (n, t) =
    if n == 2
    then (2, t)
    else if is_separator b
    then (if n == 1 then (2, t) else (1, b ∷ t))
    else (n, b ∷ t)

-- The loop of `shortFile`, from the last byte on: the separators that it has met, and the text
-- behind the second of them.
pub short_loop : Text → ℕ × Text
short_loop [] = (0, [])
short_loop (b ∷ bs) = short_step b (short_loop bs)

abbrev pub short_file : Text → Text
short_file path = (short_loop path).1

-- `key=val`, with ", " before all but the first.
pub write_fields : {V : Type 0} → Fmt V → List (Field V) → Text
write_fields fmt [] = []
write_fields fmt (f ∷ fs) = 44 ∷ 32 ∷ f.key ++ 61 ∷ fmt.sprint f.val ++ write_fields fmt fs

abbrev pub in_braces : {V : Type 0} → Fmt V → List (Field V) → Text
in_braces fmt [] = []
in_braces fmt (f ∷ fs) =
    32 ∷ 123 ∷ f.key ++ 61 ∷ fmt.sprint f.val ++ write_fields fmt fs ++ 125 ∷ []

abbrev pub write_code : {V : Type 0} → Fmt V → ℤ → Text
write_code fmt c = if eqb_ℤ c (pos 0) then [] else 91 ∷ fmt.decimal c ++ 93 ∷ 32 ∷ []

abbrev pub write_place : {V : Type 0} → Fmt V → Text → ℤ → Text
write_place fmt [] line = []
write_place fmt (b ∷ bs) line = 32 ∷ 40 ∷ short_file (b ∷ bs) ++ 58 ∷ fmt.decimal line ++ 41 ∷ []

-- `writeSelf`
pub write_self : {V : Type 0} → Fmt V → Layer V → Text
write_self fmt l =
    write_code fmt l.code ++ l.msg ++ in_braces fmt l.fields ++ write_place fmt l.file l.line

-- " | caused by: "
abbrev pub caused_by : Text
caused_by = 32 ∷ 124 ∷ 32 ∷ 99 ∷ 97 ∷ 117 ∷ 115 ∷ 101 ∷ 100 ∷ 32 ∷ 98 ∷ 121 ∷ 58 ∷ 32 ∷ []

abbrev pub behind : Text → Option Text → Option Text
behind t none = none
behind t (some rest) = some (t ++ rest)

-- The loop of `Error` over the causes.
pub causes_text : {V : Type 0} → Fmt V → Err V → Option Text
causes_text fmt no_error = some []
causes_text fmt nil_ptr = none
causes_text fmt (layer l cause) = behind (caused_by ++ write_self fmt l) (causes_text fmt cause)
causes_text fmt (foreign t inner) = some (caused_by ++ t)

-- A call of `Error`.
pub error_text : {V : Type 0} → Fmt V → Err V → Option Text
error_text fmt no_error = none
error_text fmt nil_ptr = none
error_text fmt (layer l cause) = behind (write_self fmt l) (causes_text fmt cause)
error_text fmt (foreign t inner) = some t

-- The loops of `HasCode` and `CodeFrom`; `errors.Unwrap` answers the cause.
pub has_code_loop : {V : Type 0} → ℤ → Err V → Option Bool
has_code_loop c no_error = some false
has_code_loop c nil_ptr = none
has_code_loop c (layer l cause) =
    let rest = has_code_loop c cause in if eqb_ℤ l.code c then some true else rest
has_code_loop c (foreign t inner) = has_code_loop c inner

pub has_code : {V : Type 0} → Err V → ℤ → Option Bool
has_code e c = if eqb_ℤ c (pos 0) then some false else has_code_loop c e

pub code_from : {V : Type 0} → Err V → Option ℤ
code_from no_error = some (pos 0)
code_from nil_ptr = none
code_from (layer l cause) =
    let rest = code_from cause in if eqb_ℤ l.code (pos 0) then rest else some l.code
code_from (foreign t inner) = code_from inner
