-- ===== src/Btree/Lookup.antt =====
-- `lookup`: the root is read and searched, and that is all.
use wamount.Base.{ℕ, ◌≡◌, ◌≢◌, ◌∙◌, ◌⊎◌, arith, true, false, Option, some, none, done, ==_ne}
use wamount.Bytes.{Bytes, zeros, fill}
use wamount.Blocks.{Blocks}
use wamount.Btree.{Btree, Lock, read_node, search_node, lookup, resize}
use wamount.Btree.Entries.{IsTreeNode, IsWellFormed}
use wamount.Btree.Search.{FirstMatch, search_node-FirstMatch}

-- The block in memory after it was read.
unfoldable pub loaded : Blocks → ℕ → Bytes
loaded blocks oid =
    fill (resize (zeros 0) blocks.block_size) (blocks.read_block oid blocks.block_size).delivered

pub lookup-loaded :
    (t : Btree) (blocks : Blocks) (key : Bytes)
    → t.root_oid ≢ 0
    → (blocks.read_block t.root_oid blocks.block_size).succeeded ≡ true
    → lookup t (some (some blocks)) key ≡ search_node (loaded blocks t.root_oid) key
unfolding lookup read_node loaded
lookup-loaded t blocks key root read = rw (==_ne _ _ root, read)

-- Where the root has an address other than 0 and is read, and is a well-formed node of a tree, the
-- lookup ends with the value of the root's first entry that has the key, or reports that there is
-- none.
pub lookup-FirstMatch :
    (t : Btree) (blocks : Blocks) (key : Bytes)
    → t.root_oid ≢ 0
    → (blocks.read_block t.root_oid blocks.block_size).succeeded ≡ true
    → IsWellFormed (loaded blocks t.root_oid)
    → IsTreeNode (loaded blocks t.root_oid)
    → (r : Option Bytes) × (lookup t (some (some blocks)) key ≡ done r)
      × FirstMatch (loaded blocks t.root_oid) key r
lookup-FirstMatch t blocks key root read w n =
    let (r, run, first) = search_node-FirstMatch (loaded blocks t.root_oid) key w n in
    (r, lookup-loaded t blocks key root read ∙ run, first)

-- What keeps the root from being read: it has no address, the volume or the container is gone, or the
-- read fails.
abbrev pub IsUnreadable : Btree → Lock → Type 0
IsUnreadable t none = Unit {0}
IsUnreadable t (some none) = Unit {0}
IsUnreadable t (some (some blocks)) =
    (t.root_oid ≡ 0) ⊎ ((blocks.read_block t.root_oid blocks.block_size).succeeded ≡ false)

-- Where the volume or its container is gone, the root has the address 0, or the read of the root
-- fails, the lookup reports that nothing is found, for every key.
lookup-IsUnreadable :
    (t : Btree) (lock : Lock) (key : Bytes) → IsUnreadable t lock → lookup t lock key ≡ done none
unfolding lookup read_node
lookup-IsUnreadable t none key h = ground arith
lookup-IsUnreadable t (some none) key h = ground arith
lookup-IsUnreadable t (some (some blocks)) key h = ground arith

-- Two containers with one block size that answer alike at the root's address give every lookup the
-- same result, whatever else they hold: no child of the root is ever read.
pub lookup-root_only :
    (t : Btree) (a b : Blocks) (key : Bytes)
    → a.block_size ≡ b.block_size
    → a.read_block t.root_oid a.block_size ≡ b.read_block t.root_oid b.block_size
    → lookup t (some (some a)) key ≡ lookup t (some (some b)) key
unfolding lookup read_node
lookup-root_only t a b key size same = rw (same, size)
