-- ===== src/Buffer.antt =====
-- src/common/buffer.{h,cpp}: the byte buffer of every connection. `storage` is the vector `buf_`,
-- whose size is its length; a pointer into it is the list of the bytes from there to its end.
pub mod Space
pub mod View
pub mod Queue
use chat_room.Common.{
  ℕ, zero, suc, ◌+◌, ◌-◌, ◌*◌, ◌≤◌, ◌^◌, List, [], ◌++◌, length, take, drop, replicate, write_at,
  add64, sub64, mul64, ltb, leb, ◌==◌, if◌then◌else◌,
}
use chat_room.Common.Text.{Bytes}

pub record Buffer : Type 0 where
  pub storage : Bytes
  pub read_pos : ℕ
  pub write_pos : ℕ

abbrev pub initial_size : ℕ
initial_size = 1024

-- Buffer::Buffer
unfoldable pub init : Buffer
init = record { storage = replicate initial_size 0; read_pos = 0; write_pos = 0 }

-- Buffer::peek
unfoldable pub peek : Buffer → Bytes
peek b = drop b.read_pos b.storage

-- Buffer::readableBytes
unfoldable pub readable_bytes : Buffer → ℕ
readable_bytes b = sub64 b.write_pos b.read_pos

-- Buffer::writableBytes
unfoldable pub writable_bytes : Buffer → ℕ
writable_bytes b = sub64 (length b.storage) b.write_pos

-- The bytes that have been written and not consumed.
unfoldable pub view : Buffer → Bytes
unfolding peek readable_bytes
view b = take (readable_bytes b) (peek b)

-- Buffer::consume
unfoldable pub consume : ℕ → Buffer → Buffer
unfolding readable_bytes
consume len b =
    let n = if ltb (readable_bytes b) len then readable_bytes b else len in
    record b { read_pos = add64 b.read_pos n }

-- Buffer::hasWritten
unfoldable pub has_written : ℕ → Buffer → Buffer
has_written len b = record b { write_pos = add64 b.write_pos len }

-- Buffer::clear
unfoldable pub clear : Buffer → Buffer
clear b = record b { read_pos = 0; write_pos = 0 }

-- Buffer::retrieveAllAsString
unfoldable pub retrieve_all : Buffer → Bytes × Buffer
unfolding view clear
retrieve_all b = (take (readable_bytes b) (peek b), clear b)

-- The loop of makeSpace that doubles the capacity. Each round shifts a 64-bit number by one, so
-- that 64 rounds reach every capacity; `grow_capacity-Fits` shows that the loop ends by its test.
pub grow_capacity : ℕ → ℕ → ℕ → ℕ → ℕ
grow_capacity zero write_pos len cap = cap
grow_capacity (suc fuel) write_pos len cap =
    let rest = grow_capacity fuel write_pos len (mul64 cap 2) in
    if ltb (sub64 cap write_pos) len then rest else cap

-- std::vector::resize to a larger size: zeros are added.
pub resize : ℕ → Bytes → Bytes
resize n bytes = bytes ++ replicate (n - length bytes) 0

-- The second branch of makeSpace: memmove to the front.
pub compact : Buffer → Buffer
unfolding readable_bytes peek
compact b = record {
  storage = write_at b.storage 0 (take (readable_bytes b) (peek b));
  read_pos = 0;
  write_pos = readable_bytes b;
}

-- Buffer::makeSpace
pub make_space : ℕ → Buffer → Buffer
unfolding writable_bytes compact grow_capacity resize
make_space len b =
    if leb len (writable_bytes b)
    then b
    else if leb len (add64 b.read_pos (writable_bytes b))
    then compact b
    else record b {
      storage = resize (grow_capacity 64 b.write_pos len (mul64 (length b.storage) 2)) b.storage;
    }

-- memcpy to writeBegin() and the step of writePos_, as append and a recv into the buffer do.
unfoldable pub write_bytes : Bytes → Buffer → Buffer
unfolding has_written
write_bytes bytes b =
    has_written (length bytes) (record b { storage = write_at b.storage b.write_pos bytes })

-- Buffer::append
unfoldable pub append : Bytes → Buffer → Buffer
unfolding make_space write_bytes
append bytes b = if length bytes == 0 then b else write_bytes bytes (make_space (length bytes) b)

-- The positions are in order and inside of the storage, and the storage is far from 2^64 bytes.
pub record IsValid (b : Buffer) : Type 0 where
  pub ordered : b.read_pos ≤ b.write_pos
  pub inside : b.write_pos ≤ length b.storage
  pub nonempty : 1 ≤ length b.storage
  pub bounded : length b.storage ≤ 2 ^ 60
