-- ===== src/Buffer.antt =====
-- utils/Buffer.h, `BasicBuffer` and `BinaryBuffer`: a growing block of bytes with a read cursor.
-- A buffer owns its block here, so the block is a field; `none` is the null pointer. The pointers
-- `_cursor` and `_end` are offsets from `_buffer`. Bytes that `new char[n]` leaves unset read as 0 here; nothing proved of the
-- contents depends on them.
pub mod Contents
pub mod Words
pub mod Overrun
pub mod Codec
pub mod Replace
pub mod Ownership
pub mod Text
mod Tests
use swift_snails.Base.{
  ℕ, ◌+◌, ◌*◌, ◌-◌, ◌≡◌, ◌≤◌, Bool, List, [], ◌++◌, Option, none, some, Result, ok, abort, check,
  guard, or_abort, check_failed, out_of_bounds, ◌>>=◌, ◌>>◌, ltb, leb, ◌==◌, if◌then◌else◌, length,
  take, drop, replicate, not,
}

pub record Buffer : Type 0 where
  pub block : Option (List ℕ)
  pub cursor : ℕ
  pub end : ℕ
  pub capacity : ℕ

abbrev pub default_capacity : ℕ
default_capacity = 1024

-- BasicBuffer()
unfoldable pub new : Buffer
new = record {
  block = some (replicate default_capacity 0);
  cursor = 0;
  end = 0;
  capacity = default_capacity;
}

-- memcpy(dst + at, bytes, length bytes), inside the block `dst`
unfoldable pub copy_in : List ℕ → ℕ → List ℕ → Result (List ℕ)
copy_in dst at bytes =
    if leb (at + length bytes) (length dst)
    then ok (take at dst ++ (bytes ++ drop (at + length bytes) dst))
    else abort out_of_bounds

-- memcpy(x, src + at, n)
unfoldable pub copy_out : List ℕ → ℕ → ℕ → Result (List ℕ)
copy_out src at n =
    if leb (at + n) (length src) then ok (take n (drop at src)) else abort out_of_bounds

-- size()
unfoldable pub size : Buffer → ℕ
size b = b.end

-- read_size()
unfoldable pub read_size : Buffer → ℕ
read_size b = b.cursor

-- read_finished()
unfoldable pub read_finished : Buffer → Result Bool
read_finished b = do check (leb b.cursor b.end); ok (b.cursor == b.end)

-- the body of the `if` in reserve(): a larger block, with the data copied
pub regrow : ℕ → Buffer → Result Buffer
regrow newcap b = do
  old ← or_abort b.block out_of_bounds
  kept ← copy_out old 0 b.end
  fresh ← copy_in (replicate newcap 0) 0 kept
  ok (record b { block = some fresh; capacity = newcap })

-- reserve(newcap)
unfoldable pub reserve : ℕ → Buffer → Result Buffer
unfolding regrow copy_out copy_in
reserve newcap b = do check (ltb 0 newcap); if ltb b.capacity newcap then regrow newcap b else ok b

-- the memcpy of put_raw() and end_preceed()
unfoldable pub append : List ℕ → Buffer → Result Buffer
append bytes b = do
  dst ← or_abort b.block out_of_bounds
  written ← copy_in dst b.end bytes
  ok (record b { block = some written; end = b.end + length bytes })

-- put_raw(x), with `bytes` the memory of x
unfoldable pub put_raw : List ℕ → Buffer → Result Buffer
unfolding reserve append copy_in
put_raw bytes b = do
  b' ← if ltb b.capacity (b.end + length bytes) then reserve (2 * b.capacity) b else ok b
  append bytes b'

-- get_raw(x), with n = sizeof(x)
unfoldable pub get_raw : ℕ → Buffer → Result (List ℕ × Buffer)
unfolding read_finished copy_out
get_raw n b = do
  finished ← read_finished b
  check (not finished)
  src ← or_abort b.block out_of_bounds
  bytes ← copy_out src b.cursor n
  ok (bytes, record b { cursor = b.cursor + n })

-- set(buffer, size)
unfoldable pub set : List ℕ → Buffer → Result Buffer
unfolding reserve copy_in
set bytes b = do
  check (ltb 0 (length bytes))
  b ← reserve (length bytes) b
  dst ← or_abort b.block out_of_bounds
  written ← copy_in dst 0 bytes
  ok (record b { block = some written; cursor = 0; end = length bytes })

-- set_cursor(x): the test is on the old cursor
unfoldable pub set_cursor : ℕ → Buffer → Result Buffer
set_cursor x b = do check (ltb b.cursor b.end); ok (record b { cursor = x })

unfoldable pub reset_cursor : Buffer → Buffer
reset_cursor b = record b { cursor = 0 }

-- clear()
unfoldable pub clear : Buffer → Buffer
clear b = record b { cursor = 0; end = 0 }

-- free(): the block is gone and the capacity is 0
unfoldable pub free : Buffer → Buffer
free b = elim b.block [ none ↦ b | some _ ↦ record b { block = none; capacity = 0 } ]

-- BasicBuffer(BasicBuffer &&other): the new buffer, and what is left of `other`
unfoldable pub move : Buffer → Buffer × Buffer
unfolding clear
move other = (other, clear (record other { block = none }))
