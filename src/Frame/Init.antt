-- ===== src/Frame/Init.antt =====
-- The lengths that the initialisers of the connections leave: tcp_client.go, kcp_client.go,
-- tcp_server.go and kcp_server.go of engine/pkg/utils/network.
use emberengine.Prelude.{
  ℕ, ◌≤◌, ◌≡◌, refl, inl, inr, Bool, ◌||◌, ltb, ◌==◌, if◌then◌else◌, arith, List, ◌++◌, length,
}
use emberengine.Prelude.Int.{ℤ, pos, negsuc}
use emberengine.Frame.{MsgParser, get_max_msg_len, done, write, read}
use emberengine.Frame.Copy.{IsLen, concat}
use emberengine.Frame.RoundTrip.{Passes, read-write}
use emberengine.Bytespool.{MemAreaPool}
use emberengine.Bytespool.Reuse.{IsValid}

-- Default_LenMsgLen, Default_MinMsgLen and Default_MaxMsgLen
abbrev pub default_len_msg_len : ℕ
default_len_msg_len = 2

abbrev pub default_min_msg_len : ℕ
default_min_msg_len = 2

abbrev pub default_max_msg_len : ℕ
default_max_msg_len = 65535

-- The tests on LenMsgLen, an int, leave the default for all but 1, 2 and 4.
unfoldable pub allowed_len : ℤ → ℕ
allowed_len (negsuc n) = default_len_msg_len
allowed_len (pos n) =
    if n == 0
    then default_len_msg_len
    else if (n == 1) || (n == 2) || (n == 4)
    then n
    else default_len_msg_len

unfoldable pub non_zero : ℕ → ℕ → ℕ
non_zero n default = if n == 0 then default else n

-- `init` of the TCP client, of the KCP client and of the TCP server, on the four fields of the parser.
unfoldable pub init_limits : ℤ → ℕ → ℕ → Bool → MsgParser
init_limits len least most little =
    let l = allowed_len len in
    let given = non_zero most default_max_msg_len in
    record {
      len_msg_len = l;
      min_msg_len = non_zero least default_min_msg_len;
      max_msg_len = if ltb (get_max_msg_len l) given then get_max_msg_len l else given;
      little_endian = little;
    }

-- `KCPServer.Init` takes the limits as they are configured.
unfoldable pub kcp_server_init : ℤ → ℕ → ℕ → Bool → MsgParser
kcp_server_init len least most little = record {
  len_msg_len = allowed_len len;
  min_msg_len = least;
  max_msg_len = most;
  little_endian = little;
}

allowed_len-IsLen : (len : ℤ) → IsLen (allowed_len len)
unfolding allowed_len
allowed_len-IsLen (negsuc n) = inr (inl refl)
allowed_len-IsLen (pos n) = ground arith

init_limits_lem :
    (len : ℤ) (least most : ℕ) (little : Bool)
    → IsLen (init_limits len least most little).len_msg_len
      × ((init_limits len least most little).max_msg_len
          ≤ get_max_msg_len (init_limits len least most little).len_msg_len)
unfolding init_limits
init_limits_lem len least most little = (allowed_len-IsLen len, ground arith)

-- Whatever lengths a TCP connection or a KCP client is configured with, the parser that its
-- initialiser leaves writes every message whose length is within its limits, and `Read` on what is
-- written gives the message back, the arguments one behind the other, and leaves in the reader just
-- what follows it. The buffers come from any pools that are in order.
pub read-write_init :
    (len : ℤ) (least most : ℕ) (little : Bool) (c d : ℕ) (areas areas' : List MemAreaPool)
    (args : List (List ℕ)) (rest : List ℕ)
    → IsValid areas
    → IsValid areas'
    → Passes (init_limits len least most little) (length (concat args))
    → (msg : List ℕ) × ((write (init_limits len least most little) c areas args).0 ≡ done msg)
      × ((read (init_limits len least most little) d areas' (msg ++ rest)).0 ≡ done (concat args))
      × ((read (init_limits len least most little) d areas' (msg ++ rest)).1 ≡ rest)
read-write_init len least most little c d areas areas' args rest ok ok' passes =
    let (isl, held) = init_limits_lem len least most little in
    read-write (init_limits len least most little) c d areas areas' args rest isl held ok ok' passes
