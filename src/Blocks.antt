-- ===== src/Blocks.antt =====
-- What a volume and its trees use of their container: `APFSContainer::getBlockSize` and
-- `APFSContainer::readBlock`. `Container` fills this interface from the disk.
use wamount.Base.{ℕ, ◌^◌, ◌<◌, Bool, true, ◌≡◌}
use wamount.Bytes.{Bytes}

-- The answer to a read: whether it is reported as a success, and the bytes that were written to the
-- caller's buffer, which a read that fails half-way has begun to fill.
pub record Reply : Type 0 where
  pub succeeded : Bool
  pub delivered : Bytes

pub record Blocks : Type 0 where
  pub block_size : ℕ
  pub read_block : ℕ → ℕ → Reply

-- A read that succeeds has delivered as many bytes as were asked for; a size is a `size_t`.
pub record IsWhole (blocks : Blocks) : Type 0 where
  pub delivers :
      (block size : ℕ)
      → size < 2 ^ 64
      → (blocks.read_block block size).succeeded ≡ true
      → (blocks.read_block block size).delivered.size ≡ size
