-- ===== src/Frame.antt =====
-- The length-prefixed frames of engine/pkg/utils/network/tcp_msg.go. A reader is the bytes that it
-- has yet to give before its end; what `Write` hands to the connection is a list of bytes. Every
-- buffer comes from the pool of Bytespool, and `choice` says which one comes back.
mod Copy
pub mod RoundTrip
pub mod Init
pub mod Total
mod Tests
use emberengine.Prelude.{
  ℕ, zero, suc, ◌+◌, ◌*◌, ◌/◌, ◌%◌, List, [], ◌∷◌, ◌++◌, Bool, true, false, Option, none, some,
  length, ltb, ◌==◌, if◌then◌else◌, take, drop, set, get_or, copy,
}
use emberengine.Bytespool.{Slice, view, MemAreaPool, make_bytes, release_bytes}

pub record MsgParser : Type 0 where
  pub len_msg_len : ℕ
  pub min_msg_len : ℕ
  pub max_msg_len : ℕ
  pub little_endian : Bool

pub data Error : Type 0 where
  eof unexpected_eof message_too_long message_too_short : Error

pub data Outcome (A : Type 0) : Type 0 where
  done : A → Outcome A
  failed : Error → Outcome A
  panicked : Outcome A

pub get_max_msg_len : ℕ → ℕ
get_max_msg_len l =
    if l == 1 then 255 else if l == 2 then 65535 else if l == 4 then 4294967295 else 65535

-- `io.ReadFull` of `n` bytes: what it gives and what is left.
pub read_full : ℕ → List ℕ → Outcome (List ℕ) × List ℕ
read_full zero stream = (done [], stream)
read_full (suc n) [] = (failed eof, [])
read_full (suc n) (b ∷ bs) =
    if ltb (length bs) n then (failed unexpected_eof, []) else (done (b ∷ take n bs), drop n bs)

abbrev byte_at : List ℕ → ℕ → ℕ
byte_at b i = get_or b i 0

-- The functions of encoding/binary on the first bytes of a slice. `b[0] | b[1]<<8` on bytes is a sum.
pub uint16_of : Bool → List ℕ → ℕ
uint16_of true b = byte_at b 0 + byte_at b 1 * 256
uint16_of false b = byte_at b 1 + byte_at b 0 * 256

pub uint32_of : Bool → List ℕ → ℕ
uint32_of true b = byte_at b 0 + byte_at b 1 * 256 + byte_at b 2 * 65536 + byte_at b 3 * 16777216
uint32_of false b = byte_at b 3 + byte_at b 2 * 256 + byte_at b 1 * 65536 + byte_at b 0 * 16777216

pub put_uint16 : Bool → List ℕ → ℕ → List ℕ
put_uint16 true b v = set (set b 0 (v % 256)) 1 (v / 256 % 256)
put_uint16 false b v = set (set b 0 (v / 256 % 256)) 1 (v % 256)

pub put_uint32 : Bool → List ℕ → ℕ → List ℕ
put_uint32 true b v =
    set (set (set (set b 0 (v % 256)) 1 (v / 256 % 256)) 2 (v / 65536 % 256)) 3 (v / 16777216 % 256)
put_uint32 false b v =
    set (set (set (set b 0 (v / 16777216 % 256)) 1 (v / 65536 % 256)) 2 (v / 256 % 256)) 3 (v % 256)

-- The switch of `Read`; other lengths leave `msgLen` zero.
pub parse_len : ℕ → Bool → List ℕ → ℕ
parse_len l little b =
    if l == 1
    then byte_at b 0
    else if l == 2
    then uint16_of little b
    else if l == 4
    then uint32_of little b
    else 0

-- The switch of `Write`, on a slice that is long enough; other lengths write nothing.
pub write_len : ℕ → Bool → List ℕ → ℕ → List ℕ
write_len l little msg n =
    if l == 1
    then set msg 0 (n % 256)
    else if l == 2
    then put_uint16 little msg (n % 65536)
    else if l == 4
    then put_uint32 little msg n
    else msg

pub check_len : MsgParser → ℕ → Option Error
check_len p n =
    if ltb p.max_msg_len n
    then some message_too_long
    else if ltb n p.min_msg_len
    then some message_too_short
    else none

-- What `Read` returns, the bytes left in the reader and the pool.
abbrev pub ReadResult : Type 0
ReadResult = Outcome (List ℕ) × List ℕ × List MemAreaPool

-- The data is read over the slice; when that fails, the slice goes back to the pool.
abbrev pub data_read : List MemAreaPool → Slice → Outcome (List ℕ) × List ℕ → ReadResult
data_read areas s (done bytes, rest) = (done bytes, rest, areas)
data_read areas s (failed e, rest) = (failed e, rest, (release_bytes areas s).1)
data_read areas s (panicked, rest) = (panicked, rest, areas)

-- `none` is a panic in `MakeBytes`.
pub read_data : ℕ → List ℕ → List MemAreaPool → Option (Slice × List MemAreaPool) → ReadResult
read_data n stream old none = (panicked, stream, old)
read_data n stream old (some (s, areas)) =
    if ltb (length s.array) n
    then (panicked, stream, areas)
    else data_read areas s (read_full n stream)

pub read_checked : Option Error → ℕ → ℕ → List ℕ → List MemAreaPool → ReadResult
read_checked (some e) choice n stream areas = (failed e, stream, areas)
read_checked none choice n stream areas = read_data n stream areas (make_bytes areas choice n)

pub len_read : MsgParser → ℕ → List MemAreaPool → Outcome (List ℕ) × List ℕ → ReadResult
len_read p choice areas (done header, rest) =
    let n = parse_len p.len_msg_len p.little_endian header in
    read_checked (check_len p n) choice n rest areas
len_read p choice areas (failed e, rest) = (failed e, rest, areas)
len_read p choice areas (panicked, rest) = (panicked, rest, areas)

-- `b[:p.LenMsgLen]` panics beyond the four bytes of `b`.
pub read : MsgParser → ℕ → List MemAreaPool → List ℕ → ReadResult
read p choice areas stream =
    if ltb 4 p.len_msg_len
    then (panicked, stream, areas)
    else len_read p choice areas (read_full p.len_msg_len stream)

-- The sum of the lengths, a uint32.
pub msg_len_from : ℕ → List (List ℕ) → ℕ
msg_len_from n [] = n
msg_len_from n (arg ∷ args) = msg_len_from ((n + length arg % 4294967296) % 4294967296) args

-- The loop that writes the data; `none` is the panic of `msg[l:]` out of range.
pub copy_args : List ℕ → ℕ → List (List ℕ) → Option (List ℕ)
copy_args msg l [] = some msg
copy_args msg l (arg ∷ args) =
    let rest = copy_args (take l msg ++ copy (drop l msg) arg) (l + length arg) args in
    if ltb (length msg) l then none else rest

abbrev pub sent : List MemAreaPool → Option (List ℕ) → Outcome (List ℕ) × List MemAreaPool
sent areas none = (panicked, areas)
sent areas (some msg) = (done msg, areas)

-- From the slice on: the length, then the data.
pub fill :
    MsgParser
    → ℕ
    → List (List ℕ)
    → List MemAreaPool
    → Option (Slice × List MemAreaPool)
    → Outcome (List ℕ) × List MemAreaPool
fill p n args old none = (panicked, old)
fill p n args old (some (s, areas)) =
    if ltb (length (view s)) p.len_msg_len
    then (panicked, areas)
    else sent areas
        (copy_args (write_len p.len_msg_len p.little_endian (view s) n) p.len_msg_len args)

pub write_checked :
    MsgParser
    → Option Error
    → ℕ
    → ℕ
    → List MemAreaPool
    → List (List ℕ)
    → Outcome (List ℕ) × List MemAreaPool
write_checked p (some e) choice n areas args = (failed e, areas)
write_checked p none choice n areas args =
    fill p n args areas (make_bytes areas choice (p.len_msg_len + n))

-- The bytes that `Write` hands to the connection, or its error, and the pool.
pub write : MsgParser → ℕ → List MemAreaPool → List (List ℕ) → Outcome (List ℕ) × List MemAreaPool
write p choice areas args =
    let n = msg_len_from 0 args in write_checked p (check_len p n) choice n areas args
