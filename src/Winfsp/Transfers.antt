-- ===== src/Winfsp/Transfers.antt =====
-- The callbacks `Open` and `Read`: what the driver is told, and how much of its buffer is written.
use wamount.Base.{
  ℕ, ◌%◌, ◌^◌, ◌≤◌, ◌<◌, ◌≡◌, arith, true, false, Option, some, done, Bool-cases, Result-cases, inl,
  inr,
}
use wamount.Bytes.{Bytes}
use wamount.Blocks.{Blocks}
use wamount.Volume.{Volume}
use wamount.Volume.Read.{read_file}
use wamount.Volume.Read.Size.{read_file-IsAtMost}
use wamount.Winfsp.{FileContext}
use wamount.Winfsp.Callbacks.{Status, read}

module _ (volume : Volume) (container : Option Blocks) where
  read-success :
      (context : FileContext) (offset length count : ℕ) (bytes : Bytes)
      → read volume container context offset length ≡ done (Status.success, some (count, bytes))
      → (context.is_directory ≡ false)
        × (read_file volume container context.inode offset length ≡ done (true, bytes))
        × (count ≡ bytes.size % 2 ^ 32)
  unfolding read
  read-success context offset length count bytes e = elim (Bool-cases context.is_directory) [
    | inl p ↦ absurd (ground (arith, p, e))
    | inr p ↦ elim (Result-cases (read_file volume container context.inode offset length)) [
      | inl q ↦ absurd (ground (arith, p, q, e))
      | inr ((false, out), q) ↦ absurd (ground (arith, p, q, e))
      | inr ((true, out), q) ↦ (p, ground (arith, p, q, e), ground (arith, p, q, e))
    ]
  ]

  -- A read of less than 2^32 bytes that the callback reports as a success is one of a context that
  -- is no directory; the number of bytes reported is the number delivered, and it is never more
  -- than was asked for, whatever the disk holds.
  pub read-bounds :
      (context : FileContext) (offset length count : ℕ) (bytes : Bytes)
      → length < 2 ^ 32
      → read volume container context offset length ≡ done (Status.success, some (count, bytes))
      → (context.is_directory ≡ false) × (count ≡ bytes.size) × (count ≤ length)
  read-bounds context offset length count bytes short e =
      let (file, run, counted) = read-success context offset length count bytes e in
      let most =
        read_file-IsAtMost volume container context.inode offset length (true, bytes) run in
      (file, omega (arith, counted, most), omega (arith, counted, most))
