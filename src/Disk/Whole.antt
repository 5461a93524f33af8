-- ===== src/Disk/Whole.antt =====
-- A read that is reported as a success is whole, whatever the functions of Windows do.
use wamount.Base.{
  ℕ, ◌+◌, ◌*◌, ◌%◌, ◌^◌, ◌<◌, ◌≡◌, arith, true, Bool-cases, Option-cases, inl, inr, ltb,
}
use wamount.Disk.{Os, DiskReader, read_block, read_blocks, read_bytes, read_from}

module _ (os : Os) where
  read_from-size :
      (h offset size : ℕ) (s : os.State)
      → (read_from os h offset size s).0.succeeded ≡ true
      → (read_from os h offset size s).0.delivered.size ≡ size
  unfolding read_from
  read_from-size h offset size s ok = elim (Bool-cases (os.set_file_pointer h offset s).0) [
    | inr p ↦ absurd (ground (arith, p, ok))
    | inl p ↦
        elim (Option-cases (os.read_file h (size % 2 ^ 32) (os.set_file_pointer h offset s).1).0) [
          | inl q ↦ absurd (ground (arith, p, q, ok))
          | inr (bytes, q) ↦ ground (arith, p, q, ok)
        ]
  ]

  read_bytes-size :
      (d : DiskReader) (offset size : ℕ) (s : os.State)
      → (read_bytes os d offset size s).0.succeeded ≡ true
      → (read_bytes os d offset size s).0.delivered.size ≡ size
  unfolding read_bytes
  read_bytes-size d offset size s ok = elim (Option-cases d.handle) [
    | inl p ↦ absurd (ground (arith, p, ok))
    | inr (h, p) ↦ elim (Bool-cases (ltb d.disk_size ((offset + size) % 2 ^ 64))) [
      | inl q ↦ absurd (ground (arith, p, q, ok))
      | inr q ↦ ground (arith, p, q, ok, read_from-size h offset size s)
    ]
  ]

  pub read_block-size :
      (d : DiskReader) (block size : ℕ) (s : os.State)
      → size < 2 ^ 64
      → (read_block os d block size s).0.succeeded ≡ true
      → (read_block os d block size s).0.delivered.size ≡ size
  unfolding read_block read_blocks
  read_block-size d block size s short ok =
      omega (arith, read_bytes-size d (block * size % 2 ^ 64) (1 * size % 2 ^ 64) s ok, short)
