-- ===== src/Apfs/Superblocks.antt =====
-- include/apfs_structures.h: the superblocks of the container and of a volume.
mod Nx
mod Fs
unfoldable pub use Nx.*
unfoldable pub use Fs.*
