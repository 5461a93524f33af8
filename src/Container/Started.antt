-- ===== src/Container/Started.antt =====
-- `APFSContainer::init`: what holds of a container that it has brought up.
use mathlib.Core.Bool.{false≢true}
use wamount.Base.{
  ◌≤◌, ◌<◌, ◌≡◌, ◌≢◌, ap, sym, ◌∙◌, arith, Bool, true, false, Result, done, fault, le→leb, lt→leb,
  Result-cases, Bool-cases, inl, inr, ==_iff, ==_ne, ◌==◌, done-ne-fault, done-injective,
}
use native.Mathlib.Decide.{dec_lt}
use wamount.Bytes.{Bytes, zeros, fill}
use wamount.Apfs.Types.{nx_magic}
use wamount.Apfs.Layout.{view}
use wamount.Apfs.Objects.{obj_phys, omap_phys}
use wamount.Apfs.Sizes.{sizeof_omap_phys}
use wamount.Container.{Container, Disk, Report, read_block, read_superblock, read_object_map, init}
use wamount.Container.Superblock.{IsWholeDisk, on_disk, read_superblock-true}

-- The container has the superblock of the disk, its block size is the one stated there and has room for
-- an object map, and the object map has an address.
pub record IsStarted (disk : Disk) (c : Container) : Type 0 where
  pub superblock : c.superblock ≡ on_disk disk
  pub magic : (on_disk disk).nx_magic ≡ nx_magic
  pub block_size : c.block_size ≡ (on_disk disk).nx_block_size
  pub block_count : c.block_count ≡ (on_disk disk).nx_block_count
  pub omap : c.superblock.nx_omap_oid ≢ 0
  pub room : sizeof_omap_phys ≤ c.block_size

view_omap_past : (b : Bytes) → b.size < sizeof_omap_phys → view omap_phys b 0 ≡ fault
unfolding view omap_phys obj_phys
view_omap_past b h = rw (lt→leb sizeof_omap_phys b.size h)

-- Where a container's object map has an address other than 0 and is read, and a block is shorter
-- than the map, the map is copied out from beyond the end of the buffer.
read_object_map-fault :
    (disk : Disk) (c : Container)
    → c.superblock.nx_omap_oid ≢ 0
    → (disk c.superblock.nx_omap_oid c.block_size).succeeded ≡ true
    → c.block_size < sizeof_omap_phys
    → read_object_map disk c ≡ fault
unfolding read_object_map read_block fill
read_object_map-fault disk c oid read small =
    rw (==_ne c.superblock.nx_omap_oid 0 oid, read)
      (rw (
        view_omap_past
          (fill (zeros c.block_size) (disk c.superblock.nx_omap_oid c.block_size).delivered) small))

view_omap_inside :
    (b : Bytes) → sizeof_omap_phys ≤ b.size → view omap_phys b 0 ≡ done (omap_phys b 0).0
unfolding view omap_phys obj_phys
view_omap_inside b h = rw (le→leb sizeof_omap_phys b.size h)

pub read_object_map-read :
    (disk : Disk) (c : Container)
    → (c.superblock.nx_omap_oid == 0) ≡ false
    → (disk c.superblock.nx_omap_oid c.block_size).succeeded ≡ true
    → sizeof_omap_phys ≤ c.block_size
    → read_object_map disk c
      ≡ done (
        record c {
          container_omap =
              (omap_phys
                (fill (zeros c.block_size) (disk c.superblock.nx_omap_oid c.block_size).delivered)
                0).0;
        },
        true,
      )
unfolding read_object_map read_block fill
read_object_map-read disk c other read room =
    rw (other, read)
      (rw (
        view_omap_inside
          (fill (zeros c.block_size) (disk c.superblock.nx_omap_oid c.block_size).delivered) room))

read_object_map-true :
    (disk : Disk) (c c' : Container)
    → read_object_map disk c ≡ done (c', true)
    → (c'.superblock ≡ c.superblock)
      × (c'.block_size ≡ c.block_size)
      × (c'.block_count ≡ c.block_count)
      × (c.superblock.nx_omap_oid ≢ 0)
      × (sizeof_omap_phys ≤ c.block_size)
read_object_map-true disk c c' e = elim (Bool-cases (c.superblock.nx_omap_oid == 0)) [
  | inl zero_oid ↦ absurd (unfold read_object_map in ground (arith, zero_oid, e))
  | inr other ↦ elim (Bool-cases (disk c.superblock.nx_omap_oid c.block_size).succeeded) [
    | inr failed ↦ absurd (unfold read_object_map read_block in ground (arith, other, failed, e))
    | inl read ↦ elim (dec_lt c.block_size sizeof_omap_phys) [
      | yes small ↦ absurd (
          done-ne-fault e (
            read_object_map-fault disk c (λ z. false≢true (sym other ∙ (==_iff _ _).1 z)) read
              small))
      | no room ↦
          let map =
            (omap_phys
              (fill (zeros c.block_size) (disk c.superblock.nx_omap_oid c.block_size).delivered)
              0).0 in
          let same : ◌≡◌ {A = Container × Bool} (record c { container_omap = map }, true)
              (c', true) =
            done-injective (sym (read_object_map-read disk c other read (omega arith)) ∙ e) in
          (
            ap (λ (r : Container × Bool). r.0.superblock) (sym same),
            ap (λ (r : Container × Bool). r.0.block_size) (sym same),
            ap (λ (r : Container × Bool). r.0.block_count) (sym same),
            (λ z. false≢true (sym other ∙ (==_iff _ _).1 z)),
            omega arith,
          )
    ]
  ]
]

init-read :
    (disk : Disk) (c : Container) (first : Report) (report : Report)
    → read_superblock disk c ≡ done first
    → init disk c ≡ done report
    → report.returned ≡ true
    → (first.returned ≡ true)
      × (c2 : Container) × (read_object_map disk first.state ≡ done (c2, true))
      × (report.state ≡ c2)
      × (report.overrun ≡ first.overrun)
unfolding init
init-read disk c first report p e ok = elim (Bool-cases first.returned) [
  | inr q ↦
      let same : ◌≡◌ {A = Result Report} (done first) (done report) = ground (arith, p, q, e) in
      absurd (false≢true (sym q ∙ ap (λ (r : Report). r.returned) (done-injective same) ∙ ok))
  | inl q ↦ elim (Result-cases (read_object_map disk first.state)) [
    | inl f ↦ absurd (ground (arith, p, q, f, e))
    | inr ((c2, mapped), f) ↦
        let same : ◌≡◌ {A = Result Report}
            (done (record { state = c2; returned = mapped; overrun = first.overrun }))
            (done report) =
          ground (arith, p, q, f, e) in
        let same' = done-injective same in
        let yes_mapped : mapped ≡ true = ap (λ (r : Report). r.returned) same' ∙ ok in
        (
          q,
          c2,
          f ∙ ap (λ (b : Bool). done (c2, b)) yes_mapped,
          ap (λ (r : Report). r.state) (sym same'),
          ap (λ (r : Report). r.overrun) (sym same'),
        )
  ]
]

-- On a disk whose successful reads are whole, a container that is reported as brought up has the
-- superblock of block 0 with the right magic number, its block size and its number of blocks from
-- there, an object map with an address and blocks with room for it; and bringing it up wrote 2688
-- bytes past the end of the superblock's buffer.
pub init-IsStarted :
    (disk : Disk) (c : Container) (report : Report)
    → IsWholeDisk disk
    → init disk c ≡ done report
    → report.returned ≡ true
    → IsStarted disk report.state × (report.overrun ≡ 2688)
unfolding init
init-IsStarted disk c report whole e ok = elim (Result-cases (read_superblock disk c)) [
  | inl p ↦ absurd (ground (arith, p, e))
  | inr (first, p) ↦
      let (q, c2, f, state, lost) = init-read disk c first report p e ok in
      let (magic, all) = read_superblock-true disk c first whole p q in
      let (super, size, count, omap, room) = read_object_map-true disk first.state c2 f in
      (
        record {
          superblock =
              ap (λ (x : Container). x.superblock) state
              ∙ super
              ∙ ap (λ (r : Report). r.state.superblock) all;
          magic = magic;
          block_size =
              ap (λ (x : Container). x.block_size) state
              ∙ size
              ∙ ap (λ (r : Report). r.state.block_size) all;
          block_count =
              ap (λ (x : Container). x.block_count) state
              ∙ count
              ∙ ap (λ (r : Report). r.state.block_count) all;
          omap = rw (state, super) omap;
          room = rw (state, size) room;
        },
        lost ∙ ap (λ (r : Report). r.overrun) all,
      )
]
