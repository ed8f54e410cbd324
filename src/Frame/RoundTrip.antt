-- ===== src/Frame/RoundTrip.antt =====
-- What is written is read back, with whatever follows it left in the reader.
use native.Mathlib.Nat.{mod-eq_of_lt, mod-lt}
use emberengine.Prelude.{
  ℕ, ◌+◌, ◌%◌, ◌≤◌, ◌<◌, ◌≡◌, refl, sym, ap, ap₂, ◌∙◌, List, ◌++◌, false, Option, none, some,
  length, arith, length-append, take, drop, append_assoc, subst, ltb, take-append, drop-append,
  take-append_front, drop-append_front, length-take, length-drop,
}
use emberengine.Bytespool.{Slice, view, MemAreaPool, make_bytes}
use emberengine.Bytespool.Reuse.{Shape, IsValid, shapes, MadeOk, make_bytes-MadeOk}
use emberengine.Frame.{
  MsgParser, Outcome, done, read_full, parse_len, write_len, msg_len_from, copy_args,
  get_max_msg_len, check_len, read_data, read_checked, len_read, read, fill, write_checked, write,
  sent,
}
use emberengine.Frame.Copy.{
  concat, read_full_enough, msg_len_from_lem, copy_args_lem, IsLen, write_len_lem,
}

-- The length passes the test of `Read` and `Write`.
abbrev pub Passes : MsgParser → ℕ → Type 0
Passes p n = (p.min_msg_len ≤ n) × (n ≤ p.max_msg_len)

check_len-Passes : (p : MsgParser) (n : ℕ) → Passes p n → check_len p n ≡ none
unfolding check_len
check_len-Passes p n (a, b) = ground arith

-- `Write` makes a frame: bytes that read as the length modulo its width, then the data.
abbrev FrameOk : MsgParser → ℕ → List ℕ → Outcome (List ℕ) → Type 0
FrameOk p n bytes out =
    (h : List ℕ) × (out ≡ done (h ++ bytes))
    × (length h ≡ p.len_msg_len)
    × (parse_len p.len_msg_len p.little_endian h ≡ n % (get_max_msg_len p.len_msg_len + 1))

fill_lem :
    (p : MsgParser) (args : List (List ℕ)) (sh : List Shape) (old : List MemAreaPool)
    (r : Option (Slice × List MemAreaPool))
    → IsLen p.len_msg_len
    → MadeOk sh (p.len_msg_len + length (concat args)) r
    → FrameOk p (length (concat args)) (concat args) (fill p (length (concat args)) args old r).0
unfolding fill
fill_lem p args sh old none isl m = absurd m
fill_lem p args sh old (some (s, areas)) isl (e, fits, sized, same, ok) =
    let n = length (concat args) in
    let long : length (view s) ≡ p.len_msg_len + n =
      length-take s.len s.array (omega (arith, e, fits)) ∙ e in
    let (h, (written, len, parsed)) =
      write_len_lem p.len_msg_len p.little_endian (view s) n isl (omega (arith, long)) in
    let junk = drop p.len_msg_len (view s) in
    let room : length junk ≡ n = length-drop p.len_msg_len (view s) ∙ omega (arith, long) in
    let copied : copy_args (write_len p.len_msg_len p.little_endian (view s) n) p.len_msg_len args
        ≡ some (h ++ concat args) =
      ap₂ (λ m l. copy_args m l args) written (sym len) ∙ copy_args_lem h junk args room in
    let step : fill p n args old (some (s, areas)) ≡ sent areas (some (h ++ concat args)) =
      ground (arith, long, copied) in
    (h, ap (λ t. t.0) step, len, parsed)

write-FrameOk :
    (p : MsgParser) (choice : ℕ) (areas : List MemAreaPool) (args : List (List ℕ))
    → IsLen p.len_msg_len
    → IsValid areas
    → Passes p (length (concat args))
    → length (concat args) < 4294967296
    → FrameOk p (length (concat args)) (concat args) (write p choice areas args).0
unfolding write write_checked
write-FrameOk p choice areas args isl ok passes fits =
    let n = length (concat args) in
    let same : msg_len_from 0 args ≡ n =
      msg_len_from_lem 0 args (omega (arith, fits)) ∙ omega arith in
    let step : write p choice areas args
        ≡ fill p n args areas (make_bytes areas choice (p.len_msg_len + n)) =
      rw (same, check_len-Passes p n passes) refl in
    subst (λ r. FrameOk p n (concat args) r.0) (sym step)
      (fill_lem p args (shapes areas) areas (make_bytes areas choice (p.len_msg_len + n)) isl
        (make_bytes-MadeOk areas choice (p.len_msg_len + n) ok))

read_data_lem :
    (n : ℕ) (sh : List Shape) (tail : List ℕ) (old : List MemAreaPool)
    (r : Option (Slice × List MemAreaPool))
    → n ≤ length tail
    → MadeOk sh n r
    → ((read_data n tail old r).0 ≡ done (take n tail)) × ((read_data n tail old r).1 ≡ drop n tail)
unfolding read_data
read_data_lem n sh tail old none l m = absurd m
read_data_lem n sh tail old (some (s, areas)) l (e, fits, sized, same, ok) =
    let step : read_data n tail old (some (s, areas)) ≡ (done (take n tail), drop n tail, areas) =
      ground (arith, fits, read_full_enough n tail l) in
    (ap (λ t. t.0) step, ap (λ t. t.1) step)

-- `Read` behind a length takes that many bytes.
read_frame :
    (p : MsgParser) (choice : ℕ) (areas : List MemAreaPool) (h tail : List ℕ) (n : ℕ)
    → p.len_msg_len ≤ 4
    → IsValid areas
    → length h ≡ p.len_msg_len
    → parse_len p.len_msg_len p.little_endian h ≡ n
    → Passes p n
    → n ≤ length tail
    → ((read p choice areas (h ++ tail)).0 ≡ done (take n tail))
      × ((read p choice areas (h ++ tail)).1 ≡ drop n tail)
unfolding read len_read read_checked
read_frame p choice areas h tail n small ok len parsed passes enough =
    let got : read_full p.len_msg_len (h ++ tail) ≡ (done h, tail) =
      read_full_enough p.len_msg_len (h ++ tail) (omega (arith, len, length-append h tail))
      ∙ ap₂ (λ x y. (done x, y)) (ap (λ l. take l (h ++ tail)) (sym len) ∙ take-append h tail)
          (ap (λ l. drop l (h ++ tail)) (sym len) ∙ drop-append h tail) in
    let fine : ltb 4 p.len_msg_len ≡ false = ground arith in
    let step : read p choice areas (h ++ tail)
        ≡ read_data n tail areas (make_bytes areas choice n) =
      rw (fine, got, parsed, check_len-Passes p n passes) refl in
    subst (λ r. (r.0 ≡ done (take n tail)) × (r.1 ≡ drop n tail)) (sym step)
      (read_data_lem n (shapes areas) tail areas (make_bytes areas choice n) enough
        (make_bytes-MadeOk areas choice n ok))

-- What a reader of a frame gets: as many bytes as the length says, modulo its width.
read-write_modulo :
    (p : MsgParser) (c d n k : ℕ) (areas areas' : List MemAreaPool) (args : List (List ℕ))
    (rest : List ℕ)
    → n ≡ length (concat args)
    → k ≡ n % (get_max_msg_len p.len_msg_len + 1)
    → IsLen p.len_msg_len
    → IsValid areas
    → IsValid areas'
    → Passes p n
    → Passes p k
    → n < 4294967296
    → k ≤ n
    → (msg : List ℕ) × ((write p c areas args).0 ≡ done msg)
      × ((read p d areas' (msg ++ rest)).0 ≡ done (take k (concat args ++ rest)))
      × ((read p d areas' (msg ++ rest)).1 ≡ drop k (concat args ++ rest))
read-write_modulo p c d n k areas areas' args rest en ek isl ok ok' passes passes' fits less =
    let (h, sent, len, parsed) =
      write-FrameOk p c areas args isl ok (subst (Passes p) en passes) (omega (arith, en, fits)) in
    let got =
      read_frame p d areas' h (concat args ++ rest) k (ground arith) ok' len
        (parsed ∙ ap (λ t. t % (get_max_msg_len p.len_msg_len + 1)) (sym en) ∙ sym ek) passes'
        (omega (arith, length-append (concat args) rest, en)) in
    let got' =
      subst
        (λ s.
          ((read p d areas' s).0 ≡ done (take k (concat args ++ rest)))
          × ((read p d areas' s).1 ≡ drop k (concat args ++ rest)))
        (sym (append_assoc h (concat args) rest)) got in
    (h ++ concat args, sent, got'.0, got'.1)

max_below : (l : ℕ) → get_max_msg_len l < 4294967296
unfolding get_max_msg_len
max_below l = ground arith

-- A message whose length is between the parser's limits is written, and `Read` on what is written
-- gives the message back, the arguments one behind the other, and leaves in the reader just what
-- follows it, whichever buffers come back from the pools. The conditions: the length field has 1, 2
-- or 4 bytes, the largest length is one that the field can hold, and the pools are in order.
pub read-write :
    (p : MsgParser) (c d : ℕ) (areas areas' : List MemAreaPool) (args : List (List ℕ))
    (rest : List ℕ)
    → IsLen p.len_msg_len
    → p.max_msg_len ≤ get_max_msg_len p.len_msg_len
    → IsValid areas
    → IsValid areas'
    → Passes p (length (concat args))
    → (msg : List ℕ) × ((write p c areas args).0 ≡ done msg)
      × ((read p d areas' (msg ++ rest)).0 ≡ done (concat args))
      × ((read p d areas' (msg ++ rest)).1 ≡ rest)
read-write p c d areas areas' args rest isl held ok ok' passes =
    let n = length (concat args) in
    let (msg, sent, got, left) =
      read-write_modulo p c d n n areas areas' args rest refl
        (sym (mod-eq_of_lt (omega (arith, held, passes.1)))) isl ok ok' passes passes
        (omega (arith, held, passes.1, max_below p.len_msg_len)) (omega arith) in
    (
      msg,
      sent,
      got ∙ ap done (take-append (concat args) rest),
      left ∙ drop-append (concat args) rest,
    )

-- Where the largest length is not one that the field can hold, as `KCPServer.Init` allows: a longer
-- message is written without an error, and the reader gets only its first bytes, as many as the
-- length is modulo 256 or 65536, and finds the rest of the message where the next frame should be.
-- The conditions: the field has 1 or 2 bytes, that remainder is not below the least length, and
-- the message is within the limits and below 2^32.
pub read-write_truncated :
    (p : MsgParser) (c d k : ℕ) (areas areas' : List MemAreaPool) (args : List (List ℕ))
    (rest : List ℕ)
    → IsLen p.len_msg_len
    → k ≡ length (concat args) % (get_max_msg_len p.len_msg_len + 1)
    → get_max_msg_len p.len_msg_len < length (concat args)
    → IsValid areas
    → IsValid areas'
    → Passes p (length (concat args))
    → length (concat args) < 4294967296
    → p.min_msg_len ≤ k
    → (msg : List ℕ) × ((write p c areas args).0 ≡ done msg)
      × ((read p d areas' (msg ++ rest)).0 ≡ done (take k (concat args)))
      × ((read p d areas' (msg ++ rest)).1 ≡ drop k (concat args) ++ rest)
read-write_truncated p c d k areas areas' args rest isl ek long ok ok' passes fits least =
    let n = length (concat args) in
    let less : k < n =
      omega (arith, ek, long, mod-lt n {m = get_max_msg_len p.len_msg_len + 1} (omega arith)) in
    let (msg, sent, got, left) =
      read-write_modulo p c d n k areas areas' args rest refl ek isl ok ok' passes
        (least, omega (arith, less, passes.1)) fits (omega (arith, less)) in
    (
      msg,
      sent,
      got ∙ ap done (take-append_front k (concat args) rest (omega (arith, less))),
      left ∙ drop-append_front k (concat args) rest (omega (arith, less)),
    )
