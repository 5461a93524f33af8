-- ===== src/Winfsp/Info.antt =====
-- `fillFileInfo`: the rounding of the size, and the times.
use wamount.Base.{ℕ, ◌+◌, ◌-◌, ◌*◌, ◌/◌, ◌%◌, ◌^◌, ◌≤◌, ◌<◌, ◌≡◌, arith, bit_and}
use wamount.Base.Bits.{bit_and_high, bit_and_mask}
use wamount.Volume.{FileInfo}
use wamount.Winfsp.{file_time, fill_file_info, not_4095}

rounded : (n : ℕ) → n < 2 ^ 64 → bit_and n not_4095 ≡ n / 4096 * 4096
rounded n h = ground (arith, bit_and_high 12 n (2 ^ 52 - 1), bit_and_mask 52 (n / 4096))

-- For a size of at most 2^64 - 4096 and times below 2^64, the allocation size is the least multiple
-- of 4096 that is not below the size, and the times of creation and of the last write are, with
-- nothing lost to wrap-around, the whole seconds since 1601 in units of 100 nanoseconds.
pub fill_file_info_bounds :
    (info : FileInfo)
    → info.size ≤ 2 ^ 64 - 4096
    → info.create_time < 2 ^ 64
    → info.mod_time < 2 ^ 64
    → let new = fill_file_info info in
      (info.size ≤ new.allocation_size)
      × (new.allocation_size < info.size + 4096)
      × (new.allocation_size % 4096 ≡ 0)
      × (new.creation_time ≡ (info.create_time / 1000000000 + 11644473600) * 10000000)
      × (new.last_write_time ≡ (info.mod_time / 1000000000 + 11644473600) * 10000000)
unfolding fill_file_info file_time
fill_file_info_bounds info sized created changed =
    let whole = rounded (info.size + 4095) (omega arith) in
    (ground (arith, whole), ground (arith, whole), ground (arith, whole), omega arith, omega arith)
