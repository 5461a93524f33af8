-- ===== src/Command/Flow.antt =====
-- What the program has in hand when it waits at its end.
use wamount.Base.{
  ℕ, ◌≡◌, sym, ◌∙◌, ap, arith, true, false, Option, some, none, List, done, done-injective, subst,
  Bool-cases, Option-cases, Result-cases, inl, inr,
}
use wamount.Volume.{Volume, get_volume_name}
use wamount.Volume.Ready.{IsReady}
use wamount.Disk.{Os, DiskReader, open_disk, closed}
use wamount.Container.{Container, Disk, Report, get_volume}
use wamount.Container
use wamount.Container.Volumes.{IsNamed, slot, get_volume-IsLoaded}
use wamount.Container.Fresh.{init-IsLoaded}
use wamount.Winfsp.{Driver, WinFspApfs, mount}
use wamount.Winfsp
use wamount.Command.{Options, Ending, mount_volume, start_container, start, disk_of}

-- The container and the volume of a program that waits.
held :
    {State : Type 0}
    → Container × Volume × WinFspApfs × State
    → Ending State
    → Container × Volume × WinFspApfs × State
held x (Ending.exits code) = x
held x Ending.failed = x
held x (Ending.waits d c volume w t) = (c, volume, w, t)

waits-injective :
    {State : Type 0} (d d' : DiskReader) (c c' : Container) (volume volume' : Volume)
    (w w' : WinFspApfs) (t t' : State)
    → done (Ending.waits d c volume w t) ≡ done (Ending.waits d' c' volume' w' t')
    → ◌≡◌ {A = Container × Volume × WinFspApfs × State} (c, volume, w, t) (c', volume', w', t')
unfolding held
waits-injective d d' c c' volume volume' w w' t t' e =
    ap (held (c, volume, w, t)) (done-injective e)

module _ (os : Os) (driver : Driver) (widen prefix_of : List ℕ → Option (List ℕ)) where
  -- The program waits on the file system that `mount` has mounted.
  mount_volume-mounts :
      (o : Options) (d d' : DiskReader) (c c' : Container) (volume volume' : Volume)
      (t t' : driver.State) (w : WinFspApfs)
      → mount_volume os driver widen prefix_of o d c volume t
        ≡ done (Ending.waits d' c' volume' w t')
      → (c ≡ c')
        × (volume ≡ volume')
        × ((mount_point : List ℕ) × (mount driver prefix_of volume Winfsp.create mount_point t
              ≡ done (some (true, w, t'))))
  unfolding mount_volume
  mount_volume-mounts o d d' c c' volume volume' t t' w e =
      elim (Result-cases (get_volume_name volume)) [
        | inl p ↦ absurd (ground (arith, p, e))
        | inr (name, p) ↦ elim (Option-cases (widen o.mount_point)) [
          | inl q ↦ absurd (ground (arith, p, q, e))
          | inr (mount_point, q) ↦
              elim (Result-cases (mount driver prefix_of volume Winfsp.create mount_point t)) [
                | inl f ↦ absurd (ground (arith, p, q, f, e))
                | inr (none, f) ↦ absurd (ground (arith, p, q, f, e))
                | inr (some (false, w0, t0), f) ↦ absurd (ground (arith, p, q, f, e))
                | inr (some (true, w0, t0), f) ↦
                    let same =
                      waits-injective d d' c c' volume volume' w0 w t0 t'
                        (ground (arith, p, q, f, e)) in
                    (
                      ap (λ (x : Container × Volume × WinFspApfs × driver.State). x.0) same,
                      ap (λ (x : Container × Volume × WinFspApfs × driver.State). x.1) same,
                      (
                        mount_point,
                        f
                            ∙ ap
                                (λ (x : Container × Volume × WinFspApfs × driver.State).
                                  done (some (true, x.2, x.3)))
                                same,
                      ),
                    )
              ]
        ]
      ]

  -- What the theorem below says of the container and the volume that are held.
  abbrev pub Holds : ℕ → Container × Volume → Type 0
  Holds index (c, volume) = IsNamed c index × IsReady volume × (slot c index ≡ some volume)

  got_volume :
      (disk : Disk) (report : Report) (index : ℕ) (c : Container) (volume : Volume)
      → Container.init disk Container.create ≡ done report
      → get_volume disk report.state index ≡ done (c, some volume)
      → Holds index (c, volume)
  got_volume disk report index c volume brought_up got =
      let (settled, loaded) =
        get_volume-IsLoaded disk report.state index (c, some volume)
          (init-IsLoaded disk report brought_up) got in
      let (named, ready) = loaded.loaded index volume settled.here in (named, ready, settled.here)

  -- What a run that waits has done on the way: it has got the volume that was asked for, and mounted it.
  abbrev pub HasStarted :
      Options → Container → Volume → WinFspApfs → driver.State → driver.State → Type 0
  HasStarted o c volume w t t' =
      Holds o.volume_index (c, volume)
      × ((mount_point : List ℕ) × (mount driver prefix_of volume Winfsp.create mount_point t
            ≡ done (some (true, w, t'))))

  start_container-waits :
      (o : Options) (d d' : DiskReader) (s : os.State) (t t' : driver.State) (c : Container)
      (volume : Volume) (w : WinFspApfs) (lost : ℕ)
      → start_container os driver widen prefix_of o d s t
        ≡ done (record { ending = Ending.waits d' c volume w t'; overrun = lost })
      → HasStarted o c volume w t t'
  unfolding start_container
  start_container-waits o d d' s t t' c volume w lost e =
      let disk = disk_of os driver widen prefix_of d s in
      elim (Result-cases (Container.init disk Container.create)) [
        | inl p ↦ absurd (ground (arith, p, e))
        | inr (report, p) ↦ elim (Bool-cases report.returned) [
          | inr q ↦ absurd (ground (arith, p, q, e))
          | inl q ↦ elim (Result-cases (get_volume disk report.state o.volume_index)) [
            | inl f ↦ absurd (ground (arith, p, q, f, e))
            | inr ((c1, none), f) ↦ absurd (ground (arith, p, q, f, e))
            | inr ((c1, some volume1), f) ↦
                let (same_c, same_v, (mount_point, mounted)) =
                  mount_volume-mounts o d d' c1 c volume1 volume t t' w
                    (ground (arith, p, q, f, e)) in
                (
                  subst (λ (x : Container). Holds o.volume_index (x, volume)) same_c
                      (subst (λ (x : Volume). Holds o.volume_index (c1, x)) same_v
                        (got_volume disk report o.volume_index c1 volume1 p f)),
                  (
                    mount_point,
                    ap (λ (x : Volume). mount driver prefix_of x Winfsp.create mount_point t)
                          (sym same_v)
                        ∙ mounted,
                  ),
                )
          ]
        ]
      ]

  pub start-HasStarted :
      (o : Options) (s : os.State) (t t' : driver.State) (d : DiskReader) (c : Container)
      (volume : Volume) (w : WinFspApfs) (lost : ℕ)
      → start os driver widen prefix_of o s t
        ≡ done (record { ending = Ending.waits d c volume w t'; overrun = lost })
      → HasStarted o c volume w t t'
  unfolding start
  start-HasStarted o s t t' d c volume w lost e =
      elim (Bool-cases (open_disk os closed o.device_path s).0) [
        | inr p ↦ absurd (ground (arith, p, e))
        | inl p ↦
            let r = open_disk os closed o.device_path s in
            start_container-waits o r.1 d r.2 t t' c volume w lost (ground (arith, p, e))
      ]

  -- A run that reaches the endless loop at the end of the program holds a container and a volume
  -- such that the superblock names a volume at the index that was asked for, the volume is ready,
  -- and it is the one in the container's slot at that index.
  pub start-waits :
      (o : Options) (s : os.State) (t t' : driver.State) (d : DiskReader) (c : Container)
      (volume : Volume) (w : WinFspApfs) (lost : ℕ)
      → start os driver widen prefix_of o s t
        ≡ done (record { ending = Ending.waits d c volume w t'; overrun = lost })
      → IsNamed c o.volume_index × IsReady volume × (slot c o.volume_index ≡ some volume)
  start-waits o s t t' d c volume w lost e = (start-HasStarted o s t t' d c volume w lost e).0
