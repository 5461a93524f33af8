-- ===== src/Lib.antt =====
-- wamount reads an APFS container from a disk or an image and offers a volume of it, read-only, as
-- a Windows file system. This library models the structs on the disk, the B-trees, the volumes, the
-- container, the reader of the disk, the callbacks of the file system, and the command line.
--
-- The parts, from the bottom up. A reader (src/utils/disk_reader) holds a handle to the device. The
-- container (src/apfs/container) reads its superblock through it, and the object map; it makes the
-- volumes on demand and keeps them. A volume (src/apfs/volume) reads its own superblock and object
-- map through the container and sets up a tree of records. It answers for files by looking keys up
-- in that tree (src/apfs/btree), which reads its root through the volume's container. The file
-- system (src/winfsp) mounts one volume and turns the callbacks of the driver WinFsp into calls of
-- it. The program (src/main.cpp) reads its arguments and goes through these parts in this order.
--
-- The modules:
--   Base        names of the libraries, Boolean tests, results, lists, and bits of words
--   Bytes       memory as regions of bytes; a read outside of a region is the result `fault`
--   Apfs        include/apfs_types.h and include/apfs_structures.h: Types has the constants; Objects,
--               Nodes, Superblocks and Records have the packed structs, each with the layout that reads
--               it out of memory; Sizes has their sizes; Keys has the keys of records, and
--               KeyBytes those keys as bytes
--   Blocks      what a volume uses of its container: the block size, and reads of blocks
--   Btree       src/apfs/btree.h and btree.cpp, with Order on compareKeys, Entries, Search and Soundness
--               on searchNode, Lookup on lookup, and Records on lookup by a key that is built
--   Volume      src/apfs/volume.h and volume.cpp: the state and `init`, with Ready and Starting on
--               it; Inode is getFileInfo, Directory readDirectory, Path lookupPath, and Read readFile;
--               Records tells getFileInfo and readFile by the records in the tree
--   Container   src/apfs/container.h and container.cpp, with Superblock, Started, Fresh and Starting on
--               `init`, and Volumes on getVolume
--   Disk        src/utils/disk_reader.h and disk_reader.cpp, with Handles on open and close, Whole on
--               the size of a read, Contents on what reads deliver, Filling on the interface that the
--               volumes read through, and Files on readFile from the records down to the bytes of the
--               device
--   Winfsp      src/winfsp/winfsp_ops.h and winfsp_ops.cpp: mount, unmount and fillFileInfo, with
--               Mounting, Points and Info on them; Callbacks, with Transfers and Reading on Read, Told
--               on GetFileInfo, Names on the names that come in and Ending on all of them; Contexts has
--               the heap and Close, with Lifetime and Handles on it
--   Command     src/main.cpp: the arguments, and the way to the mounted volume, with Parsing, Flow,
--               Overrun, Reaching, Names and Contents on them; Signals is the handler of signals, and
--               Points is on what it finds while the volume is mounted
--   Logging     src/utils/logging.h and logging.cpp, and the level that src/main.cpp sets, with Output
--   Tests       concrete nodes, records, devices and containers, and the theorems applied to them
--
-- Names follow the source in snake case: APFSVolume::readFile is Volume.Read.read_file. A handler
-- that the source writes in one piece is often cut in two or three definitions, which its caller
-- composes in the source's order.
--
-- State is passed explicitly. A function that can read outside of a buffer, or through a null
-- pointer, or divide by zero, returns a Result: `done` with its value, or `fault`, which says that
-- the program has no meaning from there on. A result that the source returns as false is a value.
-- Numbers are naturals; where the source computes in 32 or 64 bits the remainder is written out.
-- Memory is little-endian. A shared pointer that may be null is an Option, and so is what `lock()`
-- gives of a weak one. An overrun in a write, which the program goes on after, is counted, and the
-- count is carried to the end of the run beside what the run comes to. What the bytes overwrite is not
-- modelled: what is told of a run after an overrun is what the code does as long as nothing that it
-- uses stood there.
--
-- What is outside is a parameter. The functions of Windows are the record Disk.Os; Handles and
-- Device state what is documented of them and used: which handles a process holds after a call,
-- that a successful seek sets the position, and that a read delivers bytes from the position on.
-- The functions of WinFsp are Winfsp.Driver in the same way, and Mounting.Systems says which file
-- systems exist and run after a call; the conversion of names between narrow and wide strings is a
-- function that may fail. For the container the disk is a function from a block and a size to a
-- reply. For trees and volumes it is the record Blocks. A reply is a function of the block and the
-- size, so the device is taken not to change while it is read; over a sequence of calls of getVolume
-- each call has a disk of its own. A volume is not changed once it is kept, so that a value stands for
-- what the container's shared pointer points to.
--
-- One loop has fuel, the walk over the extended fields of an inode (Volume.Inode.dstream_size).
-- Every round goes on by four bytes at least, so one round more than the value has bytes is enough,
-- and the end of the fuel is never met. Every other loop is by recursion on a list or on a count.
--
-- The heap of the contexts is the list of what new has made and delete has not freed. Where a new
-- context is put is a parameter, and what is asked of it is that the address is not null and not in
-- use. A handler of signals may come in between any two calls of the driver: Winfsp.Points lists
-- the states of mount that it then finds, and Command.Points those from g_mounted_fs on.
--
-- Not modelled: the constant parameters of the mounted volume, which reach only the driver, the build
-- files, and the texts that are printed. The calls of the logger are left out of the parts that make
-- them, since they change no state that those read, except that the volume's name is read for one,
-- with no bound on its length.
pub mod Base
pub mod Bytes
pub mod Apfs
pub mod Blocks
pub mod Btree
pub mod Volume
pub mod Disk
pub mod Logging
pub mod Container
pub mod Winfsp
pub mod Command
pub mod Tests
