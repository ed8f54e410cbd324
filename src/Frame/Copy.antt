-- ===== src/Frame/Copy.antt =====
-- The parts of a frame: the loop that writes the data, and the bytes of the length.
use emberengine.Prelude.{
  ℕ, zero, suc, ◌+◌, ◌/◌, ◌%◌, ◌≤◌, ◌<◌, ◌≡◌, refl, sym, ap, ◌∙◌, List, [], ◌∷◌, ◌++◌, Bool, true,
  false, some, length, arith, length-append, take, drop, append_assoc, subst, ◌⊎◌, inl, inr, copy,
  take-append, drop-append, length-drop, copy_all,
}
use emberengine.Frame.{
  done, read_full, parse_len, write_len, uint16_of, uint32_of, put_uint16, put_uint32, msg_len_from,
  copy_args, get_max_msg_len,
}

abbrev pub concat : List (List ℕ) → List ℕ
concat [] = []
concat (x ∷ xs) = x ++ concat xs

pub read_full_enough :
    (n : ℕ) (s : List ℕ) → n ≤ length s → read_full n s ≡ (done (take n s), drop n s)
unfolding read_full
read_full_enough zero s l = refl
read_full_enough (suc n) [] l = absurd (omega arith)
read_full_enough (suc n) (b ∷ bs) l = ground arith

-- The uint32 sum is the length of the message when that is below 2^32.
pub msg_len_from_lem :
    (n : ℕ) (args : List (List ℕ))
    → n + length (concat args) < 4294967296
    → msg_len_from n args ≡ n + length (concat args)
unfolding msg_len_from
msg_len_from_lem n [] l = omega arith
msg_len_from_lem n (arg ∷ args) l =
    let e = length-append arg (concat args) in
    let small : (n + length arg % 4294967296) % 4294967296 ≡ n + length arg = omega (arith, e) in
    ap (λ t. msg_len_from t args) small
    ∙ msg_len_from_lem (n + length arg) args (omega (arith, e))
    ∙ omega (arith, e)

-- The loop replaces what follows the length by the arguments, when there is room for just them.
pub copy_args_lem :
    (h junk : List ℕ) (args : List (List ℕ))
    → length junk ≡ length (concat args)
    → copy_args (h ++ junk) (length h) args ≡ some (h ++ concat args)
unfolding copy_args
copy_args_lem h [] [] e = refl
copy_args_lem h (x ∷ junk) [] e = absurd (omega arith)
copy_args_lem h junk (arg ∷ args) e =
    let n = length-append arg (concat args) in
    let rest = drop (length arg) junk in
    let copied : copy junk arg ≡ arg ++ rest = copy_all junk arg (omega (arith, e, n)) in
    let msg : take (length h) (h ++ junk) ++ copy (drop (length h) (h ++ junk)) arg
        ≡ (h ++ arg) ++ rest =
      rw (take-append h junk, drop-append h junk, copied, append_assoc) refl in
    let go : copy_args ((h ++ arg) ++ rest) (length h + length arg) args
        ≡ some (h ++ (arg ++ concat args)) =
      ap (λ l. copy_args ((h ++ arg) ++ rest) l args) (sym (length-append h arg))
      ∙ copy_args_lem (h ++ arg) rest args (omega (arith, length-drop (length arg) junk, e, n))
      ∙ ap some (append_assoc h arg (concat args)) in
    ground (arith, length-append h junk, msg, go)

-- The lengths of a length that `Init` admits.
abbrev pub IsLen : ℕ → Type 0
IsLen l = (l ≡ 1) ⊎ ((l ≡ 2) ⊎ (l ≡ 4))

-- The bytes of the length stand first, and read back as the length modulo their width.
abbrev pub HeaderOk : ℕ → Bool → List ℕ → ℕ → List ℕ → Type 0
HeaderOk l little msg n h =
    (write_len l little msg n ≡ h ++ drop l msg)
    × (length h ≡ l)
    × (parse_len l little h ≡ n % (get_max_msg_len l + 1))

header_one :
    (little : Bool) (msg : List ℕ) (n : ℕ)
    → 1 ≤ length msg
    → (h : List ℕ) × HeaderOk 1 little msg n h
unfolding write_len parse_len get_max_msg_len
header_one little [] n l = absurd (omega arith)
header_one little (x ∷ msg) n l = (n % 256 ∷ [], (refl, refl, refl))

header_two :
    (little : Bool) (msg : List ℕ) (n : ℕ)
    → 2 ≤ length msg
    → (h : List ℕ) × HeaderOk 2 little msg n h
unfolding write_len parse_len get_max_msg_len put_uint16 uint16_of
header_two little [] n l = absurd (omega arith)
header_two little (x ∷ []) n l = absurd (omega arith)
header_two true (x ∷ y ∷ msg) n l =
    (n % 65536 % 256 ∷ n % 65536 / 256 % 256 ∷ [], (refl, refl, omega arith))
header_two false (x ∷ y ∷ msg) n l =
    (n % 65536 / 256 % 256 ∷ n % 65536 % 256 ∷ [], (refl, refl, omega arith))

header_four :
    (little : Bool) (msg : List ℕ) (n : ℕ)
    → 4 ≤ length msg
    → (h : List ℕ) × HeaderOk 4 little msg n h
unfolding write_len parse_len get_max_msg_len put_uint32 uint32_of
header_four little [] n l = absurd (omega arith)
header_four little (x ∷ []) n l = absurd (omega arith)
header_four little (x ∷ y ∷ []) n l = absurd (omega arith)
header_four little (x ∷ y ∷ z ∷ []) n l = absurd (omega arith)
header_four true (x ∷ y ∷ z ∷ w ∷ msg) n l =
    (n % 256 ∷ n / 256 % 256 ∷ n / 65536 % 256 ∷ n / 16777216 % 256 ∷ [], (refl, refl, omega arith))
header_four false (x ∷ y ∷ z ∷ w ∷ msg) n l =
    (n / 16777216 % 256 ∷ n / 65536 % 256 ∷ n / 256 % 256 ∷ n % 256 ∷ [], (refl, refl, omega arith))

pub write_len_lem :
    (l : ℕ) (little : Bool) (msg : List ℕ) (n : ℕ)
    → IsLen l
    → l ≤ length msg
    → (h : List ℕ) × HeaderOk l little msg n h
write_len_lem l little msg n (inl e) p =
    subst (λ k. (h : List ℕ) × HeaderOk k little msg n h) (sym e)
      (header_one little msg n (omega arith))
write_len_lem l little msg n (inr (inl e)) p =
    subst (λ k. (h : List ℕ) × HeaderOk k little msg n h) (sym e)
      (header_two little msg n (omega arith))
write_len_lem l little msg n (inr (inr e)) p =
    subst (λ k. (h : List ℕ) × HeaderOk k little msg n h) (sym e)
      (header_four little msg n (omega arith))
