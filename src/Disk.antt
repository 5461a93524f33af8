-- ===== src/Disk.antt =====
-- src/utils/disk_reader.h and disk_reader.cpp. The operating system is a parameter: the functions of
-- Windows that the reader calls, over a state that they change.
pub mod Handles
pub mod Contents
pub mod Filling
pub mod Files
pub mod Whole
use wamount.Base.{
  ℕ, ◌+◌, ◌*◌, ◌%◌, ◌^◌, Bool, true, false, not, Option, none, some, List, ltb, ◌==◌, if◌then◌else◌,
}
use wamount.Bytes.{Bytes, zeros}
use wamount.Blocks.{Reply}

-- `none` is the answer that stands for a failure: INVALID_HANDLE_VALUE, or a zero. The path is the list
-- of its bytes. `read_file` gives the bytes that were delivered.
pub record Os : Type 1 where
  pub State : Type 0
  pub create_file : List ℕ → State → Option ℕ × State
  pub drive_geometry : ℕ → State → Option ℕ × State
  pub get_file_size : ℕ → State → Option ℕ × State
  pub set_file_pointer : ℕ → ℕ → State → Bool × State
  pub read_file : ℕ → ℕ → State → Option Bytes × State
  pub close_handle : ℕ → State → State

pub record DiskReader : Type 0 where
  pub handle : Option ℕ
  pub disk_size : ℕ
  pub device_path : List ℕ

abbrev pub nothing : Bytes
nothing = zeros 0

module _ (os : Os) where
  open os use {
    State, create_file, drive_geometry, get_file_size, set_file_pointer, read_file, close_handle,
  }

  unfoldable pub close : DiskReader → State → DiskReader × State
  close d s = elim d.handle [
    | none ↦ (d, s)
    | some h ↦ (record d { handle = none; disk_size = 0 }, close_handle h s)
  ]

  -- The size from the drive, or that of a file where the drive tells none.
  unfoldable pub find_size : ℕ → State → Option ℕ × State
  find_size h s =
      let (geometry, s1) = drive_geometry h s in
      elim geometry [ some size ↦ (some size, s1) | none ↦ get_file_size h s1 ]

  -- `open` once CreateFileA has given a handle.
  unfoldable pub open_handle : DiskReader → ℕ → State → Bool × DiskReader × State
  unfolding close find_size
  open_handle d h s =
      let (found, s1) = find_size h s in
      elim found [
        | some size ↦ (true, record d { handle = some h; disk_size = size }, s1)
        | none ↦ let (d1, s2) = close (record d { handle = some h }) s1 in (false, d1, s2)
      ]

  -- `open` from the call of CreateFileA on.
  unfoldable pub open_device : DiskReader → State → Bool × DiskReader × State
  unfolding open_handle
  open_device d s =
      let (created, s1) = create_file d.device_path s in
      elim created [ none ↦ (false, record d { handle = none }, s1) | some h ↦ open_handle d h s1 ]

  unfoldable pub open_disk : DiskReader → List ℕ → State → Bool × DiskReader × State
  unfolding open_device close
  open_disk d device_path s =
      let (d1, s1) = close d s in open_device (record d1 { device_path = device_path }) s1

  -- The end of the range is a `uint64_t`, and the count that is asked for is a `DWORD`.
  unfoldable pub read_from : ℕ → ℕ → ℕ → State → Reply × State
  read_from h offset size s =
      let (moved, s1) = set_file_pointer h offset s in
      if not moved
      then (record { succeeded = false; delivered = nothing }, s1)
      else let (got, s2) = read_file h (size % 2 ^ 32) s1 in
        elim got [
          | none ↦ (record { succeeded = false; delivered = nothing }, s2)
          | some bytes ↦ (record { succeeded = bytes.size == size; delivered = bytes }, s2)
        ]

  unfoldable pub read_bytes : DiskReader → ℕ → ℕ → State → Reply × State
  unfolding read_from
  read_bytes d offset size s = elim d.handle [
    | none ↦ (record { succeeded = false; delivered = nothing }, s)
    | some h ↦
        if ltb d.disk_size ((offset + size) % 2 ^ 64)
        then (record { succeeded = false; delivered = nothing }, s)
        else read_from h offset size s
  ]

  unfoldable pub read_blocks : DiskReader → ℕ → ℕ → ℕ → State → Reply × State
  unfolding read_bytes
  read_blocks d start_block count block_size s =
      read_bytes d (start_block * block_size % 2 ^ 64) (count * block_size % 2 ^ 64) s

  unfoldable pub read_block : DiskReader → ℕ → ℕ → State → Reply × State
  unfolding read_blocks
  read_block d block_num block_size s = read_blocks d block_num 1 block_size s

abbrev pub closed : DiskReader
closed = record { handle = none; disk_size = 0; device_path = List.[] }

unfoldable pub is_open : DiskReader → Bool
is_open d = elim d.handle [ none ↦ false | some h ↦ true ]
