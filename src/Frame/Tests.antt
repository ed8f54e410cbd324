-- ===== src/Frame/Tests.antt =====
-- Frames at concrete inputs.
use emberengine.Prelude.{
  ℕ, ◌≡◌, refl, replicate, List, [], ◌∷◌, ◌++◌, true, false, inl, arith, drop,
}
use emberengine.Prelude.Int.{pos}
use emberengine.Bytespool.{mem_area_pool_list}
use emberengine.Bytespool.Reuse.{mem_area_pool_list-IsValid}
use emberengine.Frame.{MsgParser, done, read, write, get_max_msg_len}
use emberengine.Frame.Copy.{concat}
use emberengine.Frame.RoundTrip.{read-write_truncated}
use emberengine.Frame.Init.{init_limits, allowed_len, non_zero, read-write_init, kcp_server_init}
use emberengine.Frame.Total.{ReadOk, read-ReadOk}

abbrev words : List (List ℕ)
words = (1 ∷ 2 ∷ []) ∷ [] ∷ (3 ∷ []) ∷ []

read-write_init_example :
    (msg : List ℕ) × ((write (init_limits (pos 2) 0 0 false) 0 mem_area_pool_list words).0
      ≡ done msg)
    × ((read (init_limits (pos 2) 0 0 false) 7 mem_area_pool_list (msg ++ (9 ∷ []))).0
        ≡ done (1 ∷ 2 ∷ 3 ∷ []))
    × ((read (init_limits (pos 2) 0 0 false) 7 mem_area_pool_list (msg ++ (9 ∷ []))).1 ≡ 9 ∷ [])
unfolding init_limits allowed_len non_zero get_max_msg_len
read-write_init_example =
    read-write_init (pos 2) 0 0 false 0 7 mem_area_pool_list mem_area_pool_list words (9 ∷ [])
      mem_area_pool_list-IsValid mem_area_pool_list-IsValid (omega arith, omega arith)

abbrev one_byte : MsgParser
one_byte = record { len_msg_len = 1; min_msg_len = 1; max_msg_len = 1000; little_endian = false }

abbrev long : List (List ℕ)
long = replicate 258 5 ∷ []

read-write_truncated_example :
    (msg : List ℕ) × ((write (kcp_server_init (pos 1) 1 1000 true) 0 mem_area_pool_list long).0
      ≡ done msg)
    × ((read (kcp_server_init (pos 1) 1 1000 true) 0 mem_area_pool_list (msg ++ (9 ∷ []))).0
        ≡ done (5 ∷ 5 ∷ []))
    × ((read (kcp_server_init (pos 1) 1 1000 true) 0 mem_area_pool_list (msg ++ (9 ∷ []))).1
        ≡ drop 2 (concat long) ++ (9 ∷ []))
unfolding kcp_server_init allowed_len get_max_msg_len
read-write_truncated_example =
    read-write_truncated (kcp_server_init (pos 1) 1 1000 true) 0 0 2 mem_area_pool_list
      mem_area_pool_list long (9 ∷ []) (inl refl) refl (omega arith) mem_area_pool_list-IsValid
      mem_area_pool_list-IsValid (omega arith, omega arith) (omega arith) (omega arith)

read-ReadOk_example :
    ReadOk one_byte (2 ∷ 5 ∷ 6 ∷ 7 ∷ []) (read one_byte 0 mem_area_pool_list (2 ∷ 5 ∷ 6 ∷ 7 ∷ []))
read-ReadOk_example =
    read-ReadOk one_byte 0 mem_area_pool_list (2 ∷ 5 ∷ 6 ∷ 7 ∷ []) (omega arith)
      mem_area_pool_list-IsValid
