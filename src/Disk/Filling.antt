-- ===== src/Disk/Filling.antt =====
-- The reader fills the interface that the container reads blocks by, and what a file's bytes are then:
-- bytes of the disk.
use native.Mathlib.Nat.{mod-lt, mod-eq_of_lt}
use wamount.Base.{zero, suc, ℕ, ◌+◌, ◌*◌, ◌%◌, ◌^◌, ◌≤◌, ◌<◌, ◌≡◌, ap, ◌∙◌, arith, true, some, done}
use wamount.Bytes.{Bytes}
use wamount.Blocks.{Blocks, IsWhole}
use wamount.Volume.Read.{read_extent, temp_size}
use wamount.Volume.Read.Extent.{
  read_extent-bytes, temp_size_bounds, temp_size-one_block, temp_size-many_blocks,
}
use wamount.Disk.{Os, DiskReader, read_block}
use wamount.Disk.Contents.{Device, read_block-content}

-- What the reader answers while the device is in one state.
unfoldable pub blocks_of : (os : Os) → DiskReader → os.State → ℕ → Blocks
blocks_of os d s block_size = record {
  block_size = block_size;
  read_block = λ block size. (read_block os d block size s).0;
}

-- How many bytes `readFile` asks for in one go.
abbrev pub request : ℕ → ℕ → ℕ → ℕ
request n offset block_size = temp_size n (offset % block_size) block_size

further : (p r b : ℕ) → 0 < p → 2 * b ≤ r → p * b + b ≤ p * r
further zero r b pos h = absurd (omega arith)
further (suc zero) r b pos h = omega arith
further (suc (suc p)) r b pos h = omega (arith, further (suc p) r b (omega arith) h)

module _ (os : Os) (h : ℕ) (content : ℕ → ℕ) (device : Device os h content) (d : DiskReader)
    (s : os.State) (block_size : ℕ) (open_on : d.handle ≡ some h) where
  -- A reader that is open on a device answers every read of blocks that it reports as a success
  -- with as many bytes as were asked for, which is what a volume relies on.
  blocks_of-IsWhole : IsWhole (blocks_of os d s block_size)
  unfolding blocks_of
  blocks_of-IsWhole = record {
    delivers = λ block size short ok.
        (read_block-content os h content device d block size s open_on short ok).0;
  }

  module _ (phys offset n : ℕ) (pos : 0 < block_size) (bb : block_size < 2 ^ 32)
      (nb : n < 2 ^ 32) where
    -- The bytes of the disk that a range of an extent is read from.
    pub read_extent-content :
        ((blocks_of os d s block_size).read_block phys (request n offset block_size)).succeeded
          ≡ true
        → (out : Bytes) × (read_extent (some (blocks_of os d s block_size)) phys offset n
            ≡ done (true, out))
          × (out.size ≡ n)
          × ((i : ℕ)
              → i < n
              → out.byte i
                ≡ content (phys * request n offset block_size % 2 ^ 64 + (offset % block_size + i)))
    unfolding blocks_of
    read_extent-content ok =
        let size : ℕ = request n offset block_size in
        let bounds = temp_size_bounds n offset block_size nb bb pos in
        let short : size < 2 ^ 64 = omega (arith, bounds, mod-lt offset pos) in
        let (out, run, sized, same) =
          read_extent-bytes (blocks_of os d s block_size) phys offset n blocks_of-IsWhole pos bb nb
            ok in
        let disk = (read_block-content os h content device d phys size s open_on short ok).3 in
        (
          out,
          run,
          sized,
          λ i lt. same i lt ∙ disk (offset % block_size + i) (omega (arith, bounds)),
        )

    -- Over a reader that is open on a device, with a block size and a length below 2^32 and neither
    -- 0, a range of an extent that lies in one block, where that block's place on the disk is below
    -- 2^64 and the read succeeds, is returned whole, and byte i is the byte of the disk at phys *
    -- block_size + offset % block_size + i.
    pub read_extent_one_block :
        0 < n
        → n + offset % block_size ≤ block_size
        → phys * block_size < 2 ^ 64
        → ((blocks_of os d s block_size).read_block phys block_size).succeeded ≡ true
        → (out : Bytes) × (read_extent (some (blocks_of os d s block_size)) phys offset n
            ≡ done (true, out))
          × (out.size ≡ n)
          × ((i : ℕ) → i < n → out.byte i ≡ content (phys * block_size + (offset % block_size + i)))
    read_extent_one_block some_byte inside fits ok =
        let one : request n offset block_size ≡ block_size =
          temp_size-one_block n offset block_size nb bb pos some_byte inside in
        let (out, run, sized, same) =
          read_extent-content (
            ap (λ (k : ℕ). ((blocks_of os d s block_size).read_block phys k).succeeded) one ∙ ok) in
        (
          out,
          run,
          sized,
          λ i lt.
              same i lt
              ∙ ap (λ (k : ℕ). content (phys * k % 2 ^ 64 + (offset % block_size + i))) one
              ∙ ap (λ (k : ℕ). content (k + (offset % block_size + i))) (mod-eq_of_lt fits),
        )

    -- Over a reader that is open on a device, with a block size between 1 and 2^32 - 1 and a length
    -- below 2^32, a range that goes past the end of a block is read from another place than the
    -- extent's, if its block is not 0, the place is below 2^64 and the read succeeds: the bytes
    -- returned are those at phys times the whole request, which is at least one block behind phys *
    -- block_size.
    pub read_extent_many_blocks :
        0 < phys
        → block_size < n + offset % block_size
        → phys * request n offset block_size < 2 ^ 64
        → ((blocks_of os d s block_size).read_block phys (request n offset block_size)).succeeded
          ≡ true
        → (phys * block_size + block_size ≤ phys * request n offset block_size)
          × ((out : Bytes) × (read_extent (some (blocks_of os d s block_size)) phys offset n
                ≡ done (true, out))
              × ((i : ℕ)
                  → i < n
                  → out.byte i
                    ≡ content (phys * request n offset block_size + (offset % block_size + i))))
    read_extent_many_blocks some_block past fits ok =
        let twice = temp_size-many_blocks n offset block_size nb bb pos past in
        let (out, run, sized, same) = read_extent-content ok in
        let exact : (i : ℕ)
            → i < n
            → out.byte i
              ≡ content (phys * request n offset block_size + (offset % block_size + i)) =
          λ i lt.
            same i lt
            ∙ ap (λ (k : ℕ). content (k + (offset % block_size + i))) (mod-eq_of_lt fits) in
        (further phys (request n offset block_size) block_size some_block twice, (out, run, exact))
