-- ===== src/Disk/Contents.antt =====
-- Reads through the reader: what they deliver, and which they refuse.
use wamount.Base.{
  ℕ, ◌+◌, ◌*◌, ◌%◌, ◌^◌, ◌≤◌, ◌<◌, ◌≡◌, sym, ap, subst, ◌∙◌, arith, true, false, none, some, ltb,
  Option-cases, Bool-cases, inl, inr,
}
use wamount.Bytes.{Bytes}
use wamount.Blocks.{Reply}
use wamount.Disk.{Os, DiskReader, read_from, read_bytes, read_block}

-- The documented behaviour of SetFilePointerEx and ReadFile on an open device: a successful move sets
-- the position, and a read delivers bytes from the position on, at most as many as were asked for.
pub record Device (os : Os) (h : ℕ) (content : ℕ → ℕ) : Type 0 where
  pub position : os.State → ℕ
  pub seeks :
      (offset : ℕ) (s : os.State)
      → (os.set_file_pointer h offset s).0 ≡ true
      → position (os.set_file_pointer h offset s).1 ≡ offset
  pub reads_count :
      (count : ℕ) (s : os.State) (bytes : Bytes)
      → (os.read_file h count s).0 ≡ some bytes
      → bytes.size ≤ count
  pub reads :
      (count : ℕ) (s : os.State) (bytes : Bytes) (i : ℕ)
      → (os.read_file h count s).0 ≡ some bytes
      → i < bytes.size
      → bytes.byte i ≡ content (position s + i)

one_block : (size : ℕ) → size < 2 ^ 64 → 1 * size % 2 ^ 64 ≡ size
one_block size h = omega arith

-- A read that is reported as a success has moved, and has got as many bytes as were asked for.
read_from-success :
    (os : Os) (h offset size : ℕ) (s : os.State)
    → (read_from os h offset size s).0.succeeded ≡ true
    → ((os.set_file_pointer h offset s).0 ≡ true)
      × ((bytes : Bytes) × ((os.read_file h (size % 2 ^ 32) (os.set_file_pointer h offset s).1).0
            ≡ some bytes)
          × ((read_from os h offset size s).0.delivered ≡ bytes)
          × (bytes.size ≡ size))
unfolding read_from
read_from-success os h offset size s ok = elim (Bool-cases (os.set_file_pointer h offset s).0) [
  | inr e ↦ absurd (ground (arith, e, ok))
  | inl e ↦
      elim (Option-cases (os.read_file h (size % 2 ^ 32) (os.set_file_pointer h offset s).1).0) [
        | inl f ↦ absurd (ground (arith, e, f, ok))
        | inr (bytes, f) ↦ (e, (bytes, f, ground (arith, e, f), ground (arith, e, f, ok)))
      ]
]

module _ (os : Os) (h : ℕ) (content : ℕ → ℕ) (device : Device os h content) where
  -- Nothing but the whole range is a success.
  read_from-content :
      (offset size : ℕ) (s : os.State)
      → let reply = (read_from os h offset size s).0 in
        reply.succeeded ≡ true
        → (reply.delivered.size ≡ size)
          × (size < 2 ^ 32)
          × ((i : ℕ) → i < size → reply.delivered.byte i ≡ content (offset + i))
  read_from-content offset size s ok =
      let (moved, (bytes, got, same, sized)) = read_from-success os h offset size s ok in
      let s1 = (os.set_file_pointer h offset s).1 in
      (
        ap (λ (b : Bytes). b.size) same ∙ sized,
        omega (arith, device.reads_count (size % 2 ^ 32) s1 bytes got, sized),
        λ i below.
            ap (λ (b : Bytes). b.byte i) same
            ∙ device.reads (size % 2 ^ 32) s1 bytes i got (omega arith)
            ∙ ap (λ (p : ℕ). content (p + i)) (device.seeks offset s moved),
      )

  -- A read of bytes that is reported as a success, through a reader that is open on a device, has
  -- delivered exactly the size that was asked for, which is below 2^32, and the bytes of the disk
  -- from the offset on; the end of the range, taken modulo 2^64, is not past the end of the disk.
  read_bytes-content :
      (d : DiskReader) (offset size : ℕ) (s : os.State)
      → d.handle ≡ some h
      → let reply = (read_bytes os d offset size s).0 in
        reply.succeeded ≡ true
        → (reply.delivered.size ≡ size)
          × (size < 2 ^ 32)
          × ((offset + size) % 2 ^ 64 ≤ d.disk_size)
          × ((i : ℕ) → i < size → reply.delivered.byte i ≡ content (offset + i))
  unfolding read_bytes
  read_bytes-content d offset size s open_on ok =
      elim (Bool-cases (ltb d.disk_size ((offset + size) % 2 ^ 64))) [
        | inl past ↦ absurd (ground (arith, open_on, past, ok))
        | inr inside ↦
            let reply : (read_bytes os d offset size s) ≡ read_from os h offset size s =
              ground (arith, open_on, inside) in
            let (sized, below, same) =
              read_from-content offset size s
                (ap (λ (r : Reply × os.State). r.0.succeeded) (sym reply) ∙ ok) in
            (
              ap (λ (r : Reply × os.State). r.0.delivered.size) reply ∙ sized,
              below,
              ground (arith, inside),
              λ i lt. ap (λ (r : Reply × os.State). r.0.delivered.byte i) reply ∙ same i lt,
            )
      ]

  -- A read of a block that is reported as a success, through a reader that is open on a device and
  -- with a size below 2^64, has delivered exactly that size, which is below 2^32, and the bytes of
  -- the disk from block * size, taken modulo 2^64, on; the end of the range, taken modulo 2^64, is
  -- not past the end of the disk.
  pub read_block-content :
      (d : DiskReader) (block size : ℕ) (s : os.State)
      → d.handle ≡ some h
      → size < 2 ^ 64
      → let reply = (read_block os d block size s).0 in
        let offset = block * size % 2 ^ 64 in
        reply.succeeded ≡ true
        → (reply.delivered.size ≡ size)
          × (size < 2 ^ 32)
          × ((offset + size) % 2 ^ 64 ≤ d.disk_size)
          × ((i : ℕ) → i < size → reply.delivered.byte i ≡ content (offset + i))
  unfolding read_block
  read_block-content d block size s open_on fits =
      let offset : ℕ = block * size % 2 ^ 64 in
      subst
        (λ (r : Reply × os.State).
          r.0.succeeded ≡ true
          → (r.0.delivered.size ≡ size)
            × (size < 2 ^ 32)
            × ((offset + size) % 2 ^ 64 ≤ d.disk_size)
            × ((i : ℕ) → i < size → r.0.delivered.byte i ≡ content (offset + i)))
        (ap (λ (n : ℕ). read_bytes os d offset n s) (sym (one_block size fits)))
        (read_bytes-content d offset size s open_on)

-- A block number that is larger by one whose product with the size is a multiple of 2^64 gives the
-- same read.
read_block_alias :
    (os : Os) (d : DiskReader) (block far size : ℕ) (s : os.State)
    → far * size % 2 ^ 64 ≡ 0
    → read_block os d (block + far) size s ≡ read_block os d block size s
unfolding read_block
read_block_alias os d block far size s whole =
    ap (λ (o : ℕ). read_bytes os d o (1 * size % 2 ^ 64) s) (omega (arith, whole))

-- A reader that is closed refuses every read, and leaves the device alone.
pub read_bytes_closed :
    (os : Os) (d : DiskReader) (offset size : ℕ) (s : os.State)
    → d.handle ≡ none
    → ((read_bytes os d offset size s).0.succeeded ≡ false)
      × ((read_bytes os d offset size s).1 ≡ s)
unfolding read_bytes
read_bytes_closed os d offset size s e = (ground (arith, e), ground (arith, e))
