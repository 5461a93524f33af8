-- ===== src/Tests/Files.antt =====
-- Records of inodes, and directories.
use wamount.Base.{ℕ, ◌≡◌, arith, some, done}
use wamount.Volume.{FileInfo}
use wamount.Volume.Inode.{inode_info, dstream_size}
use wamount.Volume.Inode.Xfields.{Size, dstream_size-Size}
use wamount.Volume.Inode.Laws.{Describes, inode_info-Describes}
use wamount.Volume.Directory.{fresh_info}
use wamount.Tests.Data.{inode_record}

inode_info-Describes_example :
    (new : FileInfo) × (inode_info 2 inode_record fresh_info ≡ done (some new))
    × Describes 2 inode_record fresh_info new
inode_info-Describes_example = inode_info-Describes 2 inode_record fresh_info (omega arith)

dstream_size-Size_example :
    (size : ℕ) × (dstream_size 137 inode_record 92 ≡ done size) × Size inode_record 92 size
dstream_size-Size_example = dstream_size-Size 137 inode_record 92 (omega arith) (omega arith)
