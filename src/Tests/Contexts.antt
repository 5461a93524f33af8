-- ===== src/Tests/Contexts.antt =====
-- Requests of a driver: the root is opened, read and closed.
use wamount.Base.{
  ℕ, suc, ◌+◌, ◌%◌, ◌<◌, ◌≤◌, ◌≡◌, refl, ap, arith, Bool, true, false, Option, some, none, done,
  fault, List, [], ◌∷◌, ◌==◌, if◌then◌else◌, length, ==_ne, Result, ◌>>=◌,
}
use wamount.Bytes.{fill, word, window, memcmp, memcmp_from, join}
use wamount.Blocks.{Blocks}
use wamount.Apfs.Layout.{view}
use wamount.Apfs.Keys.{make_key, key_bytes, extent_key_bytes}
use wamount.Apfs.Objects.{obj_phys}
use wamount.Apfs.Nodes.{btree_node_phys, nloc}
use wamount.Apfs.Records.{j_file_extent_val, j_inode_val, x_field, j_dstream}
use wamount.Btree.{
  lookup, search_node, search_from, match_place, compare_keys, get_key_value, read_node,
}
use wamount.Btree
use wamount.Volume.{FileInfo, create, get_root_inode}
use wamount.Volume.Inode.{inode_info, dstream_size, get_file_info}
use wamount.Volume.Directory.{fresh_info}
use wamount.Volume.Path.{lookup_path}
use wamount.Volume.Read.{read_file, read_at, temp_size, read_extent, blocks_to_read}
use wamount.Winfsp.{FileContext, FspFileInfo}
use wamount.Winfsp.Callbacks.{Status, open_file, read, file_info}
use wamount.Winfsp.Contexts
use wamount.Winfsp.Contexts.{
  Heap, context_at, without, close_file, with_context, Request, open_at, info_at, perform,
}
use wamount.Winfsp.Contexts.Lifetime.{IsAllocator, Served, nothing, silent, giving, closes}
use wamount.Winfsp.Contexts.Handles.{opened-read, Served-balance, close-gone}
use wamount.Tests.Data.{file_node, volume}

-- A container with the node of a file in block 7; its other blocks count up.
abbrev blocks : Blocks
blocks = record {
  block_size = 256;
  read_block = λ block size. record {
    succeeded = true;
    delivered = record {
      size = size;
      byte = λ i. if block == 7 then file_node.byte i else i % 256;
    };
  };
}

-- An address above all that are in use.
abbrev allocate : Heap → ℕ
allocate [] = 1
allocate ((p, context) ∷ heap) = p + allocate heap

allocate_pos : (heap : Heap) → 0 < allocate heap
allocate_pos [] = omega arith
allocate_pos ((p, context) ∷ heap) = omega (arith, allocate_pos heap)

above-none : (heap : Heap) (p : ℕ) → allocate heap ≤ p → context_at heap p ≡ none
above-none [] p h = refl
above-none ((q, context) ∷ heap) p h =
    rw (==_ne q p (λ e. absurd (omega (arith, e, h, allocate_pos heap))))
      (above-none heap p (omega arith))

allocate-IsAllocator : IsAllocator allocate
allocate-IsAllocator heap = (
  (λ e. absurd (omega (arith, e, allocate_pos heap))),
  above-none heap (allocate heap) (omega arith),
)

-- "/"
abbrev path : List ℕ
path = 47 ∷ []

abbrev context : FileContext
context = record { inode = 2; is_directory = false; size = 100 }

abbrev add : FspFileInfo → ℕ → Bool × ℕ
add told listing = (true, suc listing)

abbrev converts : List ℕ → Bool
converts name = true

abbrev heap : Heap
heap = (1, context) ∷ []

opened :
    open_at allocate volume (some blocks) [] fresh_info path ≡ done (heap, Status.success, some 1)
unfolding open_at open_file lookup_path get_root_inode get_file_info inode_info dstream_size lookup
    read_node search_node search_from match_place compare_keys get_key_value view fill word window
    memcmp memcmp_from key_bytes make_key obj_phys btree_node_phys nloc j_inode_val x_field
    j_dstream Btree.create create
opened = refl

-- A read of the context that was opened, and the heap stays.
ten_read :
    perform allocate volume (some blocks) ℕ add converts 0 heap (Request.read_request 1 0 10)
    ≡ done (heap, none)
unfolding perform Contexts.read_at with_context read read_file read_at read_extent temp_size
    blocks_to_read extent_key_bytes j_file_extent_val join get_file_info inode_info dstream_size
    lookup read_node search_node search_from match_place compare_keys get_key_value view fill word
    window memcmp memcmp_from key_bytes make_key obj_phys btree_node_phys nloc j_inode_val x_field
    j_dstream Btree.create create
ten_read = refl

abbrev ServedFrom : Heap → List Request → List ℕ → Heap → Type 0
ServedFrom = Served allocate volume (some blocks) ℕ add converts 0

read_only : ServedFrom heap (Request.read_request 1 0 10 ∷ []) [] heap
read_only = silent (Request.read_request 1 0 10) nothing ten_read

opened-read_example :
    (made : FileContext) × (told : FspFileInfo) × (open_file volume (some blocks) fresh_info path
      ≡ done (Status.success, some (made, told)))
    × ((offset n : ℕ)
        → Contexts.read_at allocate volume (some blocks) heap 1 offset n
          ≡ read volume (some blocks) made offset n)
    × ((info : FileInfo)
        → info_at allocate volume (some blocks) heap info 1
          ≡ file_info volume (some blocks) info made)
opened-read_example =
    opened-read allocate volume (some blocks) ℕ add converts 0 [] heap heap fresh_info path
      Status.success 1 (Request.read_request 1 0 10 ∷ []) [] allocate-IsAllocator opened read_only
      ((λ e. cc), tt)

first_open :
    perform allocate volume (some blocks) ℕ add converts 0 [] (Request.open_request fresh_info path)
    ≡ done (heap, some 1)
unfolding perform
first_open = ap (λ (r : Result (Heap × Status × Option ℕ)). r >>= λ x. done (x.0, x.2)) opened

last_close :
    perform allocate volume (some blocks) ℕ add converts 0 heap (Request.close_request 1)
    ≡ done ([], none)
unfolding perform close_file
last_close = refl

abbrev requests : List Request
requests =
    Request.close_request 1
    ∷ Request.read_request 1 0 10
    ∷ Request.open_request fresh_info path
    ∷ []

Served-balance_example :
    length {A = ℕ × FileContext} [] + closes requests
    ≡ length {A = ℕ × FileContext} [] + length {A = ℕ} (1 ∷ [])
Served-balance_example =
    Served-balance allocate volume (some blocks) ℕ add converts 0 [] [] requests (1 ∷ []) (
      silent (Request.close_request 1)
        (silent (Request.read_request 1 0 10)
          (giving (Request.open_request fresh_info path) 1 nothing first_open) ten_read)
        last_close)

closing : close_file heap 1 ≡ done []
unfolding close_file
closing = refl

close-gone_example :
    ((offset n : ℕ) → Contexts.read_at allocate volume (some blocks) [] 1 offset n ≡ fault)
    × ((info : FileInfo) → info_at allocate volume (some blocks) [] info 1 ≡ fault)
    × (close_file [] 1 ≡ fault)
close-gone_example =
    close-gone allocate volume (some blocks) ℕ add converts 0 heap []
      (Request.open_request fresh_info path ∷ []) (1 ∷ []) 1 allocate-IsAllocator
      (giving (Request.open_request fresh_info path) 1 nothing first_open)
      (λ e. absurd (omega (arith, e))) closing
