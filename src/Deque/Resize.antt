-- ===== src/Deque/Resize.antt =====
-- Resizing keeps the list: the buffer is unrolled to the front of the new one.
use native.Mathlib.Nat.{mod-eq_of_lt, mod-eq-sub-mod, mod_self}
use native.Mathlib.Decide.{dec_lt}
use emberengine.Prelude.{
  ℕ, zero, suc, ◌+◌, ◌-◌, ◌*◌, ◌%◌, ◌^◌, ◌≤◌, ◌<◌, ◌≡◌, refl, sym, ap, ap₂, ◌∙◌, List, [], ◌∷◌,
  ◌++◌, arith, length, get_or, replicate, take, drop, copy, length-replicate, length-take,
  length-drop, length-append, copy_all, take-append, drop-append, append_assoc,
}
use emberengine.Circular.{window, window_congr, length-window}
use emberengine.Deque.{Deque, unrolled, resize}
use emberengine.Deque.View.{view, Ring, view_lem, pow_pos}

module _ {A : Type 0} (blank : A) where
  take-drop_step :
      (b : List A) (h n : ℕ)
      → h < length b
      → take (suc n) (drop h b) ≡ get_or b h blank ∷ take n (drop (h + 1) b)
  take-drop_step [] h n l = absurd (omega arith)
  take-drop_step (x ∷ b) zero n l =
      ap (λ i. x ∷ take n (drop i (x ∷ b))) {x = 1} {y = 0 + 1} (omega arith)
  take-drop_step (x ∷ b) (suc h) n l =
      take-drop_step b h n (omega arith)
      ∙ ap (λ i. get_or b h blank ∷ take n (drop i (x ∷ b))) {x = suc (h + 1)} {y = suc h + 1}
          (omega arith)

  -- A window that does not go round.
  window-take :
      (b : List A) (c h n : ℕ) → length b ≡ c → h + n ≤ c → window blank b c h n ≡ take n (drop h b)
  window-take b c h zero e l = refl
  window-take b c h (suc n) e l =
      ap₂ (λ i w. get_or b i blank ∷ w) (mod-eq_of_lt (omega arith))
        (window-take b c (h + 1) n e (omega arith))
      ∙ sym (take-drop_step b h n (omega (arith, e)))

  pub window-append :
      (b : List A) (c h m n : ℕ)
      → window blank b c h (m + n) ≡ window blank b c h m ++ window blank b c (h + m) n
  window-append b c h zero n = ap₂ (window blank b c) (omega arith) (omega arith)
  window-append b c h (suc m) n =
      ap (window blank b c h) {x = suc m + n} {y = suc (m + n)} (omega arith)
      ∙ ap (λ w. get_or b (h % c) blank ∷ w)
          (window-append b c (h + 1) m n
            ∙ ap (λ i. window blank b c (h + 1) m ++ window blank b c i n) (omega arith))

  take_all : (xs : List A) (n : ℕ) → length xs ≤ n → take n xs ≡ xs
  take_all [] zero l = refl
  take_all [] (suc n) l = refl
  take_all (x ∷ xs) zero l = absurd (omega arith)
  take_all (x ∷ xs) (suc n) l = ap (λ t. x ∷ t) (take_all xs n (omega arith))

  length-copy : (dst src : List A) → length (copy dst src) ≡ length dst
  length-copy [] src = refl
  length-copy (d ∷ dst) [] = refl
  length-copy (d ∷ dst) (s ∷ src) = ap suc (length-copy dst src)

  -- The new buffer starts with the list.
  abbrev Unrolled : Deque A → List A → Type 0
  Unrolled q new_buf =
      (rest : List A) × (unrolled blank q new_buf ≡ view blank q ++ rest)
      × (length (view blank q ++ rest) ≡ length new_buf)

  tail_straight :
      (k : ℕ) (q : Deque A) → Ring blank k q → q.head + q.count < 2 ^ k → q.tail ≡ q.head + q.count
  tail_straight k q r small = r.tail_at ∙ mod-eq_of_lt small

  tail_wrapped :
      (k : ℕ) (q : Deque A)
      → Ring blank k q
      → 2 ^ k ≤ q.head + q.count
      → q.tail ≡ q.head + q.count - 2 ^ k
  tail_wrapped k q r big =
      r.tail_at ∙ mod-eq-sub-mod big ∙ mod-eq_of_lt (omega (arith, r.fits, r.head_in, pow_pos k))

  length-view : (q : Deque A) → length (view blank q) ≡ q.count
  length-view q = length-window blank q.buf (length q.buf) q.head q.count

  Unrolled-straight :
      (k : ℕ) (q : Deque A) (new_buf : List A)
      → Ring blank k q
      → q.count ≤ length new_buf
      → q.head + q.count < 2 ^ k
      → 0 < q.count
      → Unrolled q new_buf
  unfolding unrolled
  Unrolled-straight k q new_buf r fits small some =
      let c = 2 ^ k in
      let no_wrap = tail_straight k q r small in
      let src = take (q.tail - q.head) (drop q.head q.buf) in
      let same : src ≡ view blank q =
        ap (λ m. take m (drop q.head q.buf)) (omega (arith, no_wrap))
        ∙ sym (window-take q.buf c q.head q.count r.sized (omega (arith, small)))
        ∙ sym (view_lem blank k q r.sized) in
      let len : length src ≡ q.count = ap (λ (l : List A). length l) same ∙ length-view q in
      let step : unrolled blank q new_buf ≡ copy new_buf src = ground (arith, no_wrap, some) in
      (
        drop (length src) new_buf,
        step
            ∙ copy_all new_buf src (omega (arith, len, fits))
            ∙ ap (λ t. t ++ drop (length src) new_buf) same,
        omega (
          arith,
          len,
          fits,
          length-view q,
          length-append (view blank q) (drop (length src) new_buf),
          length-drop (length src) new_buf,
        ),
      )

  Unrolled-wrapped :
      (k : ℕ) (q : Deque A) (new_buf : List A)
      → Ring blank k q
      → q.count ≤ length new_buf
      → 2 ^ k ≤ q.head + q.count
      → Unrolled q new_buf
  unfolding unrolled
  Unrolled-wrapped k q new_buf r fits big =
      let c = 2 ^ k in
      let wrap = tail_wrapped k q r big in
      let front = drop q.head q.buf in
      let back = take q.tail q.buf in
      let front_len : length front ≡ c - q.head =
        length-drop q.head q.buf ∙ ap (λ m. m - q.head) r.sized in
      let back_len : length back ≡ q.tail =
        length-take q.tail q.buf (omega (arith, wrap, r.sized, r.fits, r.head_in)) in
      let room = drop (length front) new_buf in
      let room_len = length-drop (length front) new_buf in
      let copied : copy new_buf front ≡ front ++ room =
        copy_all new_buf front (omega (arith, front_len, fits, big)) in
      let rest = drop (length back) room in
      let copied' : copy room back ≡ back ++ rest =
        copy_all room back
          (omega (arith, room_len, back_len, front_len, fits, wrap, big, r.head_in)) in
      let step : unrolled blank q new_buf
          ≡ take (length front) (copy new_buf front)
            ++ copy (drop (length front) (copy new_buf front)) back =
        ground (arith, wrap, r.fits, r.head_in) in
      let built : unrolled blank q new_buf ≡ front ++ (back ++ rest) =
        step
        ∙ ap (λ b. take (length front) b ++ copy (drop (length front) b) back) copied
        ∙ ap₂ (λ a b. a ++ copy b back) (take-append front room) (drop-append front room)
        ∙ ap (λ b. front ++ b) copied' in
      let first : window blank q.buf c q.head (c - q.head) ≡ front =
        window-take q.buf c q.head (c - q.head) r.sized (omega (arith, r.head_in))
        ∙ take_all front (c - q.head) (omega (arith, front_len)) in
      let second : window blank q.buf c (q.head + (c - q.head)) q.tail ≡ back =
        window_congr blank q.buf c (q.head + (c - q.head)) 0 q.tail
          (ap (λ m. m % c) (omega (arith, r.head_in)) ∙ mod_self c ∙ sym (mod-eq_of_lt (pow_pos k)))
        ∙ window-take q.buf c 0 q.tail r.sized (omega (arith, wrap, r.fits, r.head_in)) in
      let same : view blank q ≡ front ++ back =
        view_lem blank k q r.sized
        ∙ ap (λ m. window blank q.buf c q.head m) (omega (arith, wrap, big, r.head_in))
        ∙ window-append q.buf c q.head (c - q.head) q.tail
        ∙ ap₂ ◌++◌ first second in
      (
        rest,
        built ∙ sym (append_assoc front back rest) ∙ ap (λ t. t ++ rest) (sym same),
        omega (
          arith,
          length-view q,
          length-append (view blank q) rest,
          length-drop (length back) room,
          room_len,
          front_len,
          back_len,
          fits,
          wrap,
          big,
          r.head_in,
        ),
      )

  unrolled_lem :
      (k : ℕ) (q : Deque A) (new_buf : List A)
      → Ring blank k q
      → q.count ≤ length new_buf
      → 0 < q.count
      → Unrolled q new_buf
  unrolled_lem k q new_buf r fits some = elim (dec_lt (q.head + q.count) (2 ^ k)) [
    | yes small ↦ Unrolled-straight k q new_buf r fits small some
    | no big ↦ Unrolled-wrapped k q new_buf r fits (omega arith)
  ]

  pub resize_lem :
      (k j : ℕ) (q : Deque A)
      → Ring blank k q
      → 0 < q.count
      → q.count * 2 ≡ 2 ^ j
      → Ring blank j (resize blank q) × (view blank (resize blank q) ≡ view blank q)
  unfolding resize
  resize_lem k j q r some e =
      let zeros = replicate (q.count * 2) blank in
      let zeros_len : length zeros ≡ q.count * 2 = length-replicate (q.count * 2) blank in
      let (rest, built, len) = unrolled_lem k q zeros r (omega (arith, zeros_len)) some in
      let sized : length (unrolled blank q zeros) ≡ 2 ^ j =
        ap (λ (l : List A). length l) built ∙ len ∙ zeros_len ∙ e in
      (
        record {
          sized = sized;
          head_in = pow_pos j;
          fits = omega (arith, e);
          tail_at = sym (mod-eq_of_lt (omega (arith, e, some))) ∙ ap (λ m. m % 2 ^ j) (omega arith);
          least = r.least;
        },
        ap (λ c. window blank (unrolled blank q zeros) c 0 q.count) sized
            ∙ window-take (unrolled blank q zeros) (2 ^ j) 0 q.count sized (omega (arith, e))
            ∙ ap (take q.count) built
            ∙ ap (λ m. take m (view blank q ++ rest)) (sym (length-view q))
            ∙ take-append (view blank q) rest,
      )
