-- ===== src/LineBuffer.antt =====
-- The line buffer of src/utility.c, which splits what a socket delivers into lines. The content is
-- the `buf_used` bytes in use; a NUL stands behind them. Memory is always given.
pub mod Line
pub mod Taken
pub mod Conserved
use info_logger.Base.{
  ℕ, suc, ◌+◌, ◌-◌, Bool, true, false, List, [], ◌∷◌, ◌++◌, Option, none, some, ◌==◌, ltb,
  if◌then◌else◌, ℤ, pos, minus_one, length, take, drop, min,
}
use info_logger.CText.{Bytes, c_str, strchr}

-- `struct lineBuffer`
pub record LineBuffer : Type 0 where
  pub content : Bytes
  pub buf_size : ℕ

abbrev pub buffer_max_size : ℕ
buffer_max_size = 200000

abbrev pub buffer_chunk_size : ℕ
buffer_chunk_size = 100

-- `lineBuffer_new`
abbrev pub new : LineBuffer
new = record { content = []; buf_size = 0 }

-- `lineBuffer_allocate`
unfoldable pub allocate : LineBuffer → ℕ → ℤ × LineBuffer
allocate b size =
    if ltb buffer_max_size (size + b.buf_size)
    then (minus_one, b)
    else (pos 0, record b { buf_size = b.buf_size + size })

-- One turn of the loop of `lineBuffer_add`: what `select` and `read` answer. The socket has `n + 1`
-- bytes or more at hand, if as many will come.
pub data Poll : Type 0 where
  select_error not_ready read_end read_error : Poll
  readable : ℕ → Poll

-- The memory for the next `read`, if it can be had.
unfoldable pub make_room : LineBuffer → Option LineBuffer
make_room b =
    if ltb (b.buf_size - length b.content) buffer_chunk_size
    then (if ltb buffer_max_size (buffer_chunk_size + b.buf_size)
        then none
        else some (record b { buf_size = b.buf_size + buffer_chunk_size }))
    else some b

-- `read` of at most `size` bytes: what it delivers, and what is still in the socket.
abbrev pub read : ℕ → ℕ → Bytes → Bytes × Bytes
read size n socket = let k = min size (n + 1) in (take k socket, drop k socket)

-- How many bytes `read` is asked for.
abbrev pub asked : LineBuffer → ℕ
asked b = b.buf_size - length b.content - 1

-- What `read` delivers stands behind the content.
unfoldable pub take_in : LineBuffer → Bytes → LineBuffer
take_in b data' = record b { content = b.content ++ data' }

-- `lineBuffer_add`, until the answers end: the code, what is still in the socket, the buffer. An empty
-- socket is not ready.
unfoldable pub add : List Poll → Bytes → LineBuffer → ℤ × Bytes × LineBuffer
add [] socket b = (pos 0, socket, b)
add (select_error ∷ ps) socket b = (pos 0, socket, b)
add (not_ready ∷ ps) socket b = (pos 0, socket, b)
add (read_end ∷ ps) socket b = elim (make_room b) [
  | none ↦ (pos 0, socket, b)
  | some b' ↦ (minus_one, socket, b')
]
add (read_error ∷ ps) socket b = elim (make_room b) [
  | none ↦ (pos 0, socket, b)
  | some b' ↦ (pos 0, socket, b')
]
add (readable n ∷ ps) [] b = (pos 0, [], b)
add (readable n ∷ ps) (c ∷ cs) b = elim (make_room b) [
  | none ↦ (pos 0, c ∷ cs, b)
  | some b' ↦ (let r = read (asked b') n (c ∷ cs) in add ps r.1 (take_in b' r.0))
]

-- The buffer behind a line of `k` bytes and its line feed.
unfoldable pub cut : ℕ → LineBuffer → LineBuffer
cut k b =
    if k + 1 == length b.content
    then new
    else record { content = drop (k + 1) b.content; buf_size = b.buf_size - (k + 1) }

-- `lineBuffer_getLine`
unfoldable pub get_line : LineBuffer → Option Bytes × LineBuffer
get_line b = elim (strchr b'\n' (c_str b.content)) [
  | none ↦ (none, b)
  | some k ↦ (some (take k b.content), cut k b)
]

abbrev pub is_failure : ℤ → Bool
is_failure (pos n) = false
is_failure _ = true

-- The text goes behind the content, unless the allocation failed.
unfoldable pub place : Bytes → ℤ × LineBuffer → ℤ × LineBuffer
place text (code, b) =
    if is_failure code then (minus_one, b) else (pos 0, record b { content = b.content ++ text })

-- `lineBuffer_addstring`
unfoldable pub addstring : LineBuffer → Bytes → ℤ × LineBuffer
addstring b s =
    let s_size = length (c_str s) + 1 in
    let s_avail = b.buf_size - length b.content in
    place (c_str s) (if ltb s_avail s_size then allocate b (s_size - s_avail) else (pos 0, b))
