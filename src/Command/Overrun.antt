-- ===== src/Command/Overrun.antt =====
-- What a run has written past the end of a buffer, by the size that the reader gives a read of a block.
use wamount.Base.{
  ℕ, ◌≡◌, sym, ap, ◌∙◌, arith, Option, none, some, List, Bool-cases, Result-cases, Result, done,
  inl, inr, done-injective,
}
use wamount.Volume.{Volume}
use wamount.Disk.{Os, DiskReader, open_disk, closed}
use wamount.Disk.Whole.{read_block-size}
use wamount.Container.{Container, Report, get_volume}
use wamount.Container
use wamount.Container.Superblock.{IsWholeDisk}
use wamount.Container.Started.{init-IsStarted}
use wamount.Winfsp.{Driver, WinFspApfs}
use wamount.Command.{Options, Ending, Run, mount_volume, start_container, start, disk_of}

module _ (os : Os) (driver : Driver) (widen prefix_of : List ℕ → Option (List ℕ)) where
  pub disk_of-IsWholeDisk :
      (d : DiskReader) (s : os.State) → IsWholeDisk (disk_of os driver widen prefix_of d s)
  unfolding disk_of
  disk_of-IsWholeDisk d s block size short ok = read_block-size os d block size s short ok

  start_container-overrun :
      (o : Options) (d d' : DiskReader) (s : os.State) (t t' : driver.State) (c : Container)
      (volume : Volume) (w : WinFspApfs) (lost : ℕ)
      → start_container os driver widen prefix_of o d s t
        ≡ done (record { ending = Ending.waits d' c volume w t'; overrun = lost })
      → lost ≡ 2688
  unfolding start_container
  start_container-overrun o d d' s t t' c volume w lost e =
      let disk = disk_of os driver widen prefix_of d s in
      elim (Result-cases (Container.init disk Container.create)) [
        | inl p ↦ absurd (ground (arith, p, e))
        | inr (report, p) ↦ elim (Bool-cases report.returned) [
          | inr q ↦ absurd (ground (arith, p, q, e))
          | inl q ↦
              let (started, counted) =
                init-IsStarted disk Container.create report (disk_of-IsWholeDisk d s) p q in
              elim (Result-cases (get_volume disk report.state o.volume_index)) [
                | inl f ↦ absurd (ground (arith, p, q, f, e))
                | inr ((c1, none), f) ↦ absurd (ground (arith, p, q, f, e))
                | inr ((c1, some volume1), f) ↦
                    elim (Result-cases (mount_volume os driver widen prefix_of o d c1 volume1 t)) [
                      | inl g ↦ absurd (ground (arith, p, q, f, g, e))
                      | inr (ending, g) ↦
                          let same : ◌≡◌ {A = Result (Run driver.State)}
                              (done (record { ending = ending; overrun = report.overrun }))
                              (done (record {
                                ending = Ending.waits d' c volume w t';
                                overrun = lost;
                              })) =
                            ground (arith, p, q, f, g, e) in
                          ap (λ (r : Run driver.State). r.overrun) (sym (done-injective same))
                          ∙ counted
                    ]
              ]
        ]
      ]

  -- A run that comes to the endless loop at the end of the program has written exactly 2688 bytes
  -- past the end of a buffer on the way, whatever the functions of Windows, the driver and the
  -- conversions do.
  pub start-overrun :
      (o : Options) (s : os.State) (t t' : driver.State) (d : DiskReader) (c : Container)
      (volume : Volume) (w : WinFspApfs) (lost : ℕ)
      → start os driver widen prefix_of o s t
        ≡ done (record { ending = Ending.waits d c volume w t'; overrun = lost })
      → lost ≡ 2688
  unfolding start
  start-overrun o s t t' d c volume w lost e =
      elim (Bool-cases (open_disk os closed o.device_path s).0) [
        | inr p ↦ absurd (ground (arith, p, e))
        | inl p ↦
            let r = open_disk os closed o.device_path s in
            start_container-overrun o r.1 d r.2 t t' c volume w lost (ground (arith, p, e))
      ]
