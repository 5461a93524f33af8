-- ===== src/Winfsp/Ending.antt =====
-- No callback reads outside of memory, or through a null pointer, on a volume whose root is well-formed.
use native.Mathlib.Decide.{dec_lt}
use wamount.Base.{
  ℕ, ◌+◌, ◌-◌, ◌%◌, ◌^◌, ◌<◌, ◌≡◌, refl, ◌∙◌, arith, min, Bool, true, false, not, Option, none,
  some, List, [], ◌∷◌, Result, done, ◌>>=◌, Bool-cases, Option-cases, inl, inr, le→leb,
  if◌then◌else◌, lt→ltb, le→ltb, lt→leb,
}
use wamount.Bytes.{Bytes, fill, zeros, window, region}
use wamount.Blocks.{Blocks}
use wamount.Btree.{Btree}
use wamount.Btree.Records.{IsRoot}
use wamount.Apfs.Sizes.{sizeof_j_inode_val, sizeof_j_file_extent_val}
use wamount.Volume.{Volume, FileInfo, get_root_inode, get_volume_size}
use wamount.Volume.Inode.{inode_info, get_file_info}
use wamount.Volume.Inode.Laws.{inode_info-Describes, inode_info-short}
use wamount.Volume.Directory.{fresh_info, read_directory}
use wamount.Volume.Directory.Listing.{read_directory-nil}
use wamount.Volume.Path.{lookup_path, walk, find_name, components, is_root}
use wamount.Volume.Read.{refused, read_file, read_extent, temp_size}
use wamount.Volume.Read.Extent.{temp_size_bounds, phys_block}
use wamount.Volume.Records.{get_file_info-FirstOf, read_file-FirstOf, info_of, read_of, content_of}
use wamount.Winfsp.{FileContext, FspFileInfo}
use wamount.Winfsp.Callbacks.{
  Status, volume_info, security_by_name, open_file, read, file_info, list_directory, add_entries,
}

-- The result is a value.
abbrev pub Ends {ℓ} : {A : Type ℓ} → Result A → Type ℓ
Ends {A = A} x = (r : A) × (x ≡ done r)

>>=-Ends :
    {A B : Type 0} (m : Result A) (f : A → Result B)
    → Ends m
    → ((a : A) → Ends (f a))
    → Ends (m >>= f)
>>=-Ends m f (a, e) ends = let (b, e') = ends a in (b, rw e e')

if-Ends : {A : Type 0} (b : Bool) (x y : Result A) → Ends x → Ends y → Ends (if b then x else y)
if-Ends true x y p q = p
if-Ends false x y p q = q

Option-Ends :
    {A B : Type 0} (o : Option A) (x : Result B) (f : A → Result B)
    → Ends x
    → ((a : A) → Ends (f a))
    → Ends (elim o [ none ↦ x | some a ↦ f a ])
Option-Ends none x f p q = p
Option-Ends (some a) x f p q = q a

inode_info-Ends : (inode : ℕ) (value : Bytes) (info : FileInfo) → Ends (inode_info inode value info)
inode_info-Ends inode value info = elim (dec_lt value.size sizeof_j_inode_val) [
  | yes cut ↦ (none, inode_info-short inode value info cut)
  | no whole ↦
      let (new, run, told) = inode_info-Describes inode value info (omega arith) in (some new, run)
]

info_of-Ends : (inode : ℕ) (info : FileInfo) (r : Option Bytes) → Ends (info_of inode info r)
info_of-Ends inode info none = (none, refl)
info_of-Ends inode info (some value) = inode_info-Ends inode value info

module _ (blocks : Blocks) (pos : 0 < blocks.block_size)
    (bounded : blocks.block_size < 2 ^ 32) where
  read_extent-Ends :
      (phys offset n : ℕ) → n < 2 ^ 32 → Ends (read_extent (some blocks) phys offset n)
  unfolding read_extent window fill
  read_extent-Ends phys offset n short =
      let size : ℕ = temp_size n (offset % blocks.block_size) blocks.block_size in
      let (fits, slack) = temp_size_bounds n offset blocks.block_size short bounded pos in
      elim (Bool-cases (blocks.read_block phys size).succeeded) [
        | inr e ↦ (refused, ground (arith, pos, e))
        | inl e ↦ (
          (
            true,
            region (fill (zeros size) (blocks.read_block phys size).delivered)
                (offset % blocks.block_size) n,
          ),
          ground
              (arith, pos, e, le→leb (offset % blocks.block_size + n) size (omega (arith, fits))),
        )
      ]

  content_of-Ends :
      (offset n : ℕ) (extent : Option Bytes) → n < 2 ^ 32 → Ends (content_of blocks offset n extent)
  content_of-Ends offset n none short = (refused, refl)
  content_of-Ends offset n (some value) short = elim (dec_lt value.size sizeof_j_file_extent_val) [
    | yes cut ↦ (refused, rw (lt→ltb value.size sizeof_j_file_extent_val cut) refl)
    | no whole ↦
        let (r, e) = read_extent-Ends (phys_block value) offset n short in
        (r, rw (le→ltb value.size sizeof_j_file_extent_val (omega arith)) e)
  ]

  read_of-Ends :
      (offset size : ℕ) (extent : Option Bytes) (info : Option FileInfo)
      → size < 2 ^ 32
      → Ends (read_of blocks offset size extent info)
  read_of-Ends offset size extent none short = (refused, refl)
  read_of-Ends offset size extent (some info) short =
      let (r, e) = content_of-Ends offset (min size (info.size - offset)) extent (omega arith) in
      elim (Bool-cases info.is_directory) [
        | inl kind ↦ (refused, rw kind refl)
        | inr kind ↦ elim (dec_lt offset info.size) [
          | yes inside ↦ (r, rw kind (rw (lt→leb info.size offset inside) e))
          | no past ↦ ((true, zeros 0), rw kind (rw (le→leb info.size offset (omega arith)) refl))
        ]
      ]

  module _ (v : Volume) (t : Btree) (tree : v.root_tree ≡ some t) (root : IsRoot t blocks) where
    get_file_info-Ends :
        (inode : ℕ) (info : FileInfo) → Ends (get_file_info v (some blocks) inode info)
    get_file_info-Ends inode info =
        let (r, first, run) = get_file_info-FirstOf v t blocks inode info tree root in
        let (found, e) = info_of-Ends inode info r in (found, run ∙ e)

    read_file-Ends :
        (inode offset size : ℕ)
        → offset < 2 ^ 64
        → size < 2 ^ 32
        → Ends (read_file v (some blocks) inode offset size)
    read_file-Ends inode offset size below short =
        let (found, extent, found_first, extent_first, run) =
          read_file-FirstOf v t blocks inode offset size tree root below in
        let (r, e) =
          >>=-Ends (info_of inode fresh_info found) (read_of blocks offset size extent)
            (info_of-Ends inode fresh_info found)
            (λ info. read_of-Ends offset size extent info short) in
        (r, run ∙ e)

    walk-Ends :
        (inode : ℕ) (info : FileInfo) (comps : List (List ℕ))
        → Ends (walk (read_directory v (some blocks)) inode info comps)
    unfolding walk find_name
    walk-Ends inode info [] = ((true, info), refl)
    walk-Ends inode info (comp ∷ comps) =
        ((false, info), rw (read_directory-nil v t (some blocks) inode tree) refl)

    lookup_path-Ends :
        (path : List ℕ) (info : FileInfo) → Ends (lookup_path v (some blocks) path info)
    unfolding lookup_path
    lookup_path-Ends path info = elim (Bool-cases (is_root path)) [
      | inr e ↦ let (r, run) = walk-Ends get_root_inode info (components path) in (r, rw e run)
      | inl e ↦
          let (found, run) = get_file_info-Ends get_root_inode info in
          elim (Option-cases found) [
            | inl p ↦ ((false, info), rw e (rw run (rw p refl)))
            | inr (root_info, p) ↦ ((true, root_info), rw e (rw run (rw p refl)))
          ]
    ]

    -- On a volume whose tree has a well-formed root, over a container that is there and whose
    -- blocks have a size between 1 and 2^32 - 1, no callback reads outside of memory, divides by
    -- zero or goes through a null pointer: Read of less than 2^32 bytes at an offset below 2^64,
    -- GetFileInfo, Open, GetSecurityByName and GetVolumeInfo give a result, for every context and
    -- name, and so does ReadDirectory. What else the disk holds is free, the extended fields of an
    -- inode and its extents included.
    pub callbacks-Ends :
        (context : FileContext) (info : FileInfo) (path : List ℕ) (offset length : ℕ)
        (Listing : Type 0) (add : FspFileInfo → Listing → Bool × Listing) (converts : List ℕ → Bool)
        (listing : Listing)
        → offset < 2 ^ 64
        → length < 2 ^ 32
        → Ends (read v (some blocks) context offset length)
          × Ends (file_info v (some blocks) info context)
          × Ends (open_file v (some blocks) info path)
          × Ends (security_by_name v (some blocks) info path)
          × Ends (list_directory v (some blocks) Listing add converts context listing)
          × Ends (volume_info v (some blocks))
    unfolding read file_info open_file security_by_name list_directory add_entries volume_info
        get_volume_size
    callbacks-Ends context info path offset length Listing add converts listing below short =
        let (data_read, read_run) = read_file-Ends context.inode offset length below short in
        let (told, told_run) = get_file_info-Ends context.inode info in
        let (found, found_run) = lookup_path-Ends path info in
        let empty = read_directory-nil v t (some blocks) context.inode tree in
        (
          if-Ends context.is_directory _ _ (_, refl)
              (>>=-Ends _ _ (data_read, read_run) (λ r. if-Ends (not r.0) _ _ (_, refl) (_, refl))),
          >>=-Ends _ _ (told, told_run) (λ o. Option-Ends o _ _ (_, refl) (λ info'. (_, refl))),
          >>=-Ends _ _ (found, found_run) (λ r. if-Ends (not r.0) _ _ (_, refl) (_, refl)),
          >>=-Ends _ _ (found, found_run) (λ r. if-Ends (not r.0) _ _ (_, refl) (_, refl)),
          if-Ends (not context.is_directory) _ _ (_, refl)
              (some (Status.success, listing), rw empty refl),
          (_, refl),
        )
