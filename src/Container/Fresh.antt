-- ===== src/Container/Fresh.antt =====
-- What `APFSContainer::init` leaves of the volumes: it keeps those that there were.
use wamount.Base.{
  ℕ, ◌≡◌, refl, ap, sym, ◌∙◌, arith, Bool, false, Result, done, Result-cases, Bool-cases, inl, inr,
  ◌==◌, done-injective,
}
use wamount.Bytes.{zeros, fill, overrun}
use wamount.Apfs.Layout.{view}
use wamount.Apfs.Sizes.{sizeof_nx_superblock}
use wamount.Apfs.Superblocks.{NxSuperblock, nx_superblock}
use wamount.Apfs.Types.{nx_magic, apfs_block_size}
use wamount.Container.{
  Report, accept, read_block, read_superblock, read_object_map, init, Container, create, Disk,
}
use wamount.Container.Volumes.{IsLoaded}

accept-volumes :
    (c : Container) (superblock : NxSuperblock) (lost : ℕ)
    → (accept c superblock lost).state.volumes ≡ c.volumes
unfolding accept
accept-volumes c superblock lost = elim (Bool-cases (superblock.nx_magic == nx_magic)) [
  | inl e ↦ rw e refl
  | inr e ↦ rw e refl
]

read_superblock-volumes :
    (disk : Disk) (c : Container) (report : Report)
    → read_superblock disk c ≡ done report
    → report.state.volumes ≡ c.volumes
unfolding read_superblock read_block
read_superblock-volumes disk c report e =
    let reply = disk 0 apfs_block_size in
    let lost = overrun (zeros sizeof_nx_superblock) reply.delivered in
    let buffer = fill (zeros sizeof_nx_superblock) reply.delivered in
    elim (Bool-cases reply.succeeded) [
      | inr p ↦
          let same : ◌≡◌ {A = Result Report}
              (done (record { state = c; returned = false; overrun = lost })) (done report) =
            ground (arith, p, e) in
          ap (λ (r : Report). r.state.volumes) (sym (done-injective same))
      | inl p ↦ elim (Result-cases (view nx_superblock buffer 0)) [
        | inl q ↦ absurd (ground (arith, p, q, e))
        | inr (superblock, q) ↦
            let same : ◌≡◌ {A = Result Report} (done (accept c superblock lost)) (done report) =
              ground (arith, p, q, e) in
            ap (λ (r : Report). r.state.volumes) (sym (done-injective same))
            ∙ accept-volumes c superblock lost
      ]
    ]

read_object_map-volumes :
    (disk : Disk) (c : Container) (result : Container × Bool)
    → read_object_map disk c ≡ done result
    → result.0.volumes ≡ c.volumes
unfolding read_object_map read_block
read_object_map-volumes disk c result e = ground (arith, e)

init-volumes :
    (disk : Disk) (c : Container) (report : Report)
    → init disk c ≡ done report
    → report.state.volumes ≡ c.volumes
unfolding init
init-volumes disk c report e = elim (Result-cases (read_superblock disk c)) [
  | inl p ↦ absurd (ground (arith, p, e))
  | inr (first, p) ↦ elim (Bool-cases first.returned) [
    | inr q ↦
        let same : ◌≡◌ {A = Result Report} (done first) (done report) = ground (arith, p, q, e) in
        ap (λ (r : Report). r.state.volumes) (sym (done-injective same))
        ∙ read_superblock-volumes disk c first p
    | inl q ↦ elim (Result-cases (read_object_map disk first.state)) [
      | inl f ↦ absurd (ground (arith, p, q, f, e))
      | inr (result, f) ↦
          let same : ◌≡◌ {A = Result Report}
              (done (record { state = result.0; returned = result.1; overrun = first.overrun }))
              (done report) =
            ground (arith, p, q, f, e) in
          ap (λ (r : Report). r.state.volumes) (sym (done-injective same))
          ∙ read_object_map-volumes disk first.state result f
          ∙ read_superblock-volumes disk c first p
    ]
  ]
]

-- A container that has been brought up from a new one is loaded: it has no volume yet.
pub init-IsLoaded :
    (disk : Disk) (report : Report) → init disk create ≡ done report → IsLoaded report.state
unfolding create
init-IsLoaded disk report e =
    let empty = init-volumes disk create report e in
    record { loaded = λ index v full. absurd (ground (arith, empty, full)) }
