-- ===== src/Frame/Total.antt =====
-- What `Read` does on every input.
use native.Mathlib.Decide.{dec_lt}
use emberengine.Prelude.{
  ℕ, zero, suc, ◌≤◌, ◌<◌, ◌≡◌, refl, sym, ap, ◌∙◌, List, [], ◌∷◌, ◌++◌, Option, none, some, length,
  arith, take, drop, subst, ltb, ◌⊎◌, inl, inr, Bool-cases, length-take, take-drop,
}
use emberengine.Bytespool.{Slice, MemAreaPool, make_bytes}
use emberengine.Bytespool.Reuse.{
  Shape, Sized, IsValid, shapes, MadeOk, make_bytes-MadeOk, release_bytes-KeptOk,
}
use emberengine.Frame.{
  MsgParser, eof, unexpected_eof, message_too_long, message_too_short, done, failed, panicked,
  read_full, parse_len, check_len, read_data, read_checked, len_read, read, data_read, ReadResult,
}
use emberengine.Frame.Copy.{read_full_enough}
use emberengine.Frame.RoundTrip.{Passes}

-- A message within the limits and what is left are what followed the length; a length out of the
-- limits leaves what followed it; a reader that ends early is left empty.
abbrev pub ReadOk : MsgParser → List ℕ → ReadResult → Type 0
ReadOk p stream (done bytes, left, areas) =
    (take p.len_msg_len stream ++ (bytes ++ left) ≡ stream)
    × Passes p (length bytes)
    × IsValid areas
ReadOk p stream (failed message_too_long, left, areas) =
    (take p.len_msg_len stream ++ left ≡ stream) × IsValid areas
ReadOk p stream (failed message_too_short, left, areas) =
    (take p.len_msg_len stream ++ left ≡ stream) × IsValid areas
ReadOk p stream (failed eof, left, areas) = (left ≡ []) × IsValid areas
ReadOk p stream (failed unexpected_eof, left, areas) = (left ≡ []) × IsValid areas
ReadOk p stream (panicked, left, areas) = ⊥

read_full_short :
    (n : ℕ) (s : List ℕ)
    → length s < n
    → (read_full n s ≡ (failed eof, [])) ⊎ (read_full n s ≡ (failed unexpected_eof, []))
unfolding read_full
read_full_short zero s l = absurd (omega arith)
read_full_short (suc n) [] l = inl refl
read_full_short (suc n) (b ∷ bs) l = inr (ground arith)

data_read_lem :
    (p : MsgParser) (stream tail : List ℕ) (n : ℕ) (sh : List Shape) (old : List MemAreaPool)
    (r : Option (Slice × List MemAreaPool))
    → take p.len_msg_len stream ++ tail ≡ stream
    → Passes p n
    → MadeOk sh n r
    → ReadOk p stream (read_data n tail old r)
unfolding read_data
data_read_lem p stream tail n sh old none e passes m = absurd m
data_read_lem p stream tail n sh old (some (s, areas)) e passes (len, fits, sized, same, ok) =
    let step : read_data n tail old (some (s, areas)) ≡ data_read areas s (read_full n tail) =
      ground (arith, fits) in
    subst (ReadOk p stream) (sym step) (elim (dec_lt (length tail) n) [
      | yes l ↦
          let kept =
            (release_bytes-KeptOk areas s ok
              (subst (λ h. Sized h (length s.array)) (sym same) sized)).1 in
          elim (read_full_short n tail l) [
            | inl x ↦ subst (λ r. ReadOk p stream (data_read areas s r)) (sym x) (refl, kept)
            | inr x ↦ subst (λ r. ReadOk p stream (data_read areas s r)) (sym x) (refl, kept)
          ]
      | no l ↦
          subst (λ r. ReadOk p stream (data_read areas s r))
            (sym (read_full_enough n tail (omega arith)))
            (
              ap (λ t. take p.len_msg_len stream ++ t) (take-drop n tail) ∙ e,
              subst (Passes p) (sym (length-take n tail (omega arith))) passes,
              ok,
            )
    ])

checked_lem :
    (p : MsgParser) (choice n : ℕ) (stream tail : List ℕ) (areas : List MemAreaPool)
    → take p.len_msg_len stream ++ tail ≡ stream
    → IsValid areas
    → ReadOk p stream (read_checked (check_len p n) choice n tail areas)
unfolding check_len read_checked
checked_lem p choice n stream tail areas e ok = elim (Bool-cases (ltb p.max_msg_len n)) [
  | inl long ↦
      let step : check_len p n ≡ some message_too_long = rw long refl in
      subst (λ c. ReadOk p stream (read_checked c choice n tail areas)) (sym step) (e, ok)
  | inr fits ↦ elim (Bool-cases (ltb n p.min_msg_len)) [
    | inl short ↦
        let step : check_len p n ≡ some message_too_short = rw (fits, short) refl in
        subst (λ c. ReadOk p stream (read_checked c choice n tail areas)) (sym step) (e, ok)
    | inr enough ↦
        let step : check_len p n ≡ none = rw (fits, enough) refl in
        subst (λ c. ReadOk p stream (read_checked c choice n tail areas)) (sym step)
          (data_read_lem p stream tail n (shapes areas) areas (make_bytes areas choice n) e
            (ground arith, ground arith) (make_bytes-MadeOk areas choice n ok))
  ]
]

-- On every input `Read` returns without a panic, for a length field of at most four bytes and a pool
-- in order, and leaves the pool in order. A message that it gives has a length within the limits,
-- and together with what it leaves is what followed the length field. Where it refuses the length it
-- leaves just what followed the field, and where the input ends early it leaves nothing.
pub read-ReadOk :
    (p : MsgParser) (choice : ℕ) (areas : List MemAreaPool) (stream : List ℕ)
    → p.len_msg_len ≤ 4
    → IsValid areas
    → ReadOk p stream (read p choice areas stream)
unfolding read len_read
read-ReadOk p choice areas stream small ok =
    let l = p.len_msg_len in
    let step : read p choice areas stream ≡ len_read p choice areas (read_full l stream) =
      ground arith in
    subst (ReadOk p stream) (sym step) (elim (dec_lt (length stream) l) [
      | yes short ↦ elim (read_full_short l stream short) [
        | inl x ↦ subst (λ r. ReadOk p stream (len_read p choice areas r)) (sym x) (refl, ok)
        | inr x ↦ subst (λ r. ReadOk p stream (len_read p choice areas r)) (sym x) (refl, ok)
      ]
      | no enough ↦
          subst (λ r. ReadOk p stream (len_read p choice areas r))
            (sym (read_full_enough l stream (omega arith)))
            (checked_lem p choice (parse_len l p.little_endian (take l stream)) stream
              (drop l stream) areas (take-drop l stream) ok)
    ])
