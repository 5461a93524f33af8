-- ===== src/Volume/Read/Size.antt =====
-- `readFile` never gives more bytes than were asked for, whatever the disk holds.
use wamount.Base.{
  ℕ, ◌-◌, ◌%◌, ◌≤◌, ◌≡◌, ap, arith, min, true, Option, some, none, Result, done, fault, Bool-cases,
  Option-cases, Result-cases, inl, inr, leb, ltb, ◌==◌, done-injective,
}
use wamount.Bytes.{Bytes, zeros, fill, window}
use wamount.Blocks.{Blocks}
use wamount.Btree.{Btree, lookup}
use wamount.Apfs.Types.{apfs_type_file_extent}
use wamount.Apfs.Layout.{view}
use wamount.Apfs.Records.{j_file_extent_val}
use wamount.Apfs.Keys.{make_key, extent_key_bytes}
use wamount.Apfs.Sizes.{sizeof_j_file_extent_val}
use wamount.Volume.{Volume}
use wamount.Volume.Inode.{get_file_info}
use wamount.Volume.Directory.{fresh_info}
use wamount.Volume.Read.{Outcome, refused, temp_size, read_extent, read_at, read_file}

window-size : (b : Bytes) (o n : ℕ) (out : Bytes) → window b o n ≡ done out → out.size ≡ n
unfolding window
window-size b o n out e = ground (arith, e)

-- No result has more than `n` bytes.
abbrev pub IsAtMost : ℕ → Result Outcome → Type 0
IsAtMost n r = (o : Outcome) → r ≡ done o → o.1.size ≤ n

done-IsAtMost : (n : ℕ) (o : Outcome) → o.1.size ≤ n → IsAtMost n (done o)
done-IsAtMost n o h o' e = omega (arith, h, ap (λ (x : Outcome). x.1.size) (done-injective e))

fault-IsAtMost : (n : ℕ) → IsAtMost n fault
fault-IsAtMost n o e = absurd (ground (arith, e))

read_extent-IsAtMost :
    (container : Option Blocks) (phys offset n : ℕ)
    → IsAtMost n (read_extent container phys offset n)
unfolding read_extent
read_extent-IsAtMost none phys offset n = done-IsAtMost n refused (omega arith)
read_extent-IsAtMost (some c) phys offset n =
    let block_offset = offset % c.block_size in
    let size = temp_size n block_offset c.block_size in
    let buffer = fill (zeros size) (c.read_block phys size).delivered in
    elim (Bool-cases (c.block_size == 0)) [
      | inl p ↦ rw p (fault-IsAtMost n)
      | inr p ↦ elim (Bool-cases (c.read_block phys size).succeeded) [
        | inr q ↦ rw (p, q) (done-IsAtMost n refused (omega arith))
        | inl q ↦ elim (Result-cases (window buffer block_offset n)) [
          | inl f ↦ rw (p, q, f) (fault-IsAtMost n)
          | inr (out, f) ↦
              rw (p, q, f)
                (done-IsAtMost n (true, out)
                  (omega (arith, window-size buffer block_offset n out f)))
        ]
      ]
    ]

read_at-IsAtMost :
    (t : Btree) (container : Option Blocks) (inode offset n : ℕ)
    → IsAtMost n (read_at t container inode offset n)
unfolding read_at
read_at-IsAtMost t container inode offset n =
    let key = extent_key_bytes (make_key inode apfs_type_file_extent) offset in
    elim (Result-cases (lookup t (some container) key)) [
      | inl p ↦ rw p (fault-IsAtMost n)
      | inr (none, p) ↦ rw p (done-IsAtMost n refused (omega arith))
      | inr (some value, p) ↦ elim (Bool-cases (ltb value.size sizeof_j_file_extent_val)) [
        | inl q ↦ rw (p, q) (done-IsAtMost n refused (omega arith))
        | inr q ↦ elim (Result-cases (view j_file_extent_val value 0)) [
          | inl f ↦ rw (p, q, f) (fault-IsAtMost n)
          | inr (ext_val, f) ↦
              rw (p, q, f) (read_extent-IsAtMost container ext_val.phys_block_num offset n)
        ]
      ]
    ]

pub read_file-IsAtMost :
    (v : Volume) (container : Option Blocks) (inode offset size : ℕ)
    → IsAtMost size (read_file v container inode offset size)
unfolding read_file
read_file-IsAtMost v container inode offset size =
    elim (Result-cases (get_file_info v container inode fresh_info)) [
      | inl p ↦ rw p (fault-IsAtMost size)
      | inr (none, p) ↦ rw p (done-IsAtMost size refused (omega arith))
      | inr (some info, p) ↦ elim (Bool-cases info.is_directory) [
        | inl q ↦ rw (p, q) (done-IsAtMost size refused (omega arith))
        | inr q ↦ elim (Bool-cases (leb info.size offset)) [
          | inl f ↦ rw (p, q, f) (done-IsAtMost size (true, zeros 0) (omega arith))
          | inr f ↦ elim (Option-cases v.root_tree) [
            | inl g ↦ rw (p, q, f, g) (fault-IsAtMost size)
            | inr (t, g) ↦
                rw (p, q, f, g)
                  (λ o e. omega (
                    arith,
                    read_at-IsAtMost t container inode offset (min size (info.size - offset)) o e,
                  ))
          ]
        ]
      ]
    ]
