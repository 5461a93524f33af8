-- ===== src/Container/Volumes.antt =====
-- `APFSContainer::getVolume`: the slots of the vector over a sequence of calls.
use mathlib.Core.Bool.{false≢true}
use native.Mathlib.Decide.{dec_lt, ℕ_discrete}
use wamount.Base.{
  subst, ℕ, suc, ◌<◌, ◌≡◌, ◌≢◌, refl, ap, sym, ◌∙◌, arith, Bool, true, false, Option, none, some,
  Result, done, fault, le→leb, lt→leb, Result-cases, Bool-cases, Option-cases, inl, inr, List, [],
  ◌∷◌, ==_iff, ==_ne, ◌==◌, done-ne-fault, done-injective, get_or, set, pad, get_or-pad, get_or-set,
  get_or-set_ne, length-pad,
}
use wamount.Apfs.Types.{nx_max_file_systems}
use wamount.Volume.{Volume}
use wamount.Volume
use wamount.Volume.Ready.{IsReady, init-IsReady}
use wamount.Container.{Container, create, Disk, blocks_of, load_volume, get_volume}

-- The slot at an index: `none` is a null pointer, or an index past the vector's end.
abbrev pub slot : Container → ℕ → Option Volume
slot c index = get_or c.volumes index none

-- The superblock has a volume at the index.
abbrev pub IsNamed : Container → ℕ → Type 0
IsNamed c index = (index < nx_max_file_systems) × (get_or c.superblock.nx_fs_oid index 0 ≢ 0)

-- Every volume in the vector is ready, and is one that the superblock names.
pub record IsLoaded (c : Container) : Type 0 where
  pub loaded : (index : ℕ) (v : Volume) → slot c index ≡ some v → IsNamed c index × IsReady v

-- What `getVolume` does at an index with a volume that is not loaded: it loads it.
pub get_volume-loads :
    (disk : Disk) (c : Container) (index : ℕ)
    → IsNamed c index
    → slot c index ≡ none
    → get_volume disk c index ≡ load_volume disk c index
unfolding get_volume
get_volume-loads disk c index (h, oid) e =
    rw (lt→leb nx_max_file_systems index h, ==_ne (get_or c.superblock.nx_fs_oid index 0) 0 oid, e)

get_volume-loaded :
    (disk : Disk) (c : Container) (index : ℕ) (v : Volume)
    → IsNamed c index
    → slot c index ≡ some v
    → get_volume disk c index ≡ done (c, some v)
unfolding get_volume
get_volume-loaded disk c index v (h, oid) e =
    rw (lt→leb nx_max_file_systems index h, ==_ne (get_or c.superblock.nx_fs_oid index 0) 0 oid, e)

get_volume-not_named :
    (disk : Disk) (c : Container) (index : ℕ)
    → ¬ IsNamed c index
    → get_volume disk c index ≡ done (c, none)
unfolding get_volume
get_volume-not_named disk c index other = elim (dec_lt index nx_max_file_systems) [
  | no past ↦ rw (le→leb nx_max_file_systems index (omega arith))
  | yes h ↦ elim (Bool-cases (get_or c.superblock.nx_fs_oid index 0 == 0)) [
    | inl p ↦ rw (lt→leb nx_max_file_systems index h, p)
    | inr p ↦ absurd (other (h, λ z. false≢true (sym p ∙ (==_iff _ _).1 z)))
  ]
]

abbrev pub padded : Container → ℕ → Container
padded c index = record c { volumes = pad c.volumes (suc index) none }

abbrev pub stored : Container → ℕ → Volume → Container
stored c index v = record c { volumes = set (pad c.volumes (suc index) none) index (some v) }

-- The answer of a load, once the volume's `init` has given its own.
abbrev pub answer : Container → ℕ → Volume × Bool → Container × Option Volume
answer c index (v, false) = (padded c index, none)
answer c index (v, true) = (stored c index v, some v)

abbrev pub started : Disk → Container → ℕ → Result (Volume × Bool)
started disk c index =
    Volume.init (Volume.create (get_or c.superblock.nx_fs_oid index 0))
      (some (blocks_of disk (padded c index)))

pub load_volume-answer :
    (disk : Disk) (c : Container) (index : ℕ) (r : Volume × Bool)
    → started disk c index ≡ done r
    → load_volume disk c index ≡ done (answer c index r)
unfolding load_volume
load_volume-answer disk c index (v, false) e = rw e
load_volume-answer disk c index (v, true) e = rw e

load_volume-fault :
    (disk : Disk) (c : Container) (index : ℕ)
    → started disk c index ≡ fault
    → load_volume disk c index ≡ fault
unfolding load_volume
load_volume-fault disk c index e = rw e

-- What a call makes of the container: the slot at the index is what it returns, the others stay, and
-- so does the superblock.
pub record Settled (c c' : Container) (index : ℕ) (returned : Option Volume) : Type 0 where
  pub superblock : c'.superblock ≡ c.superblock
  pub here : slot c' index ≡ returned
  pub elsewhere : (j : ℕ) → index ≢ j → slot c' j ≡ slot c j

answer-Settled :
    (c : Container) (index : ℕ) (r : Volume × Bool)
    → slot c index ≡ none
    → Settled c (answer c index r).0 index (answer c index r).1
answer-Settled c index (v, false) e = record {
  superblock = refl;
  here = get_or-pad c.volumes (suc index) index none ∙ e;
  elsewhere = λ j other. get_or-pad c.volumes (suc index) j none;
}
answer-Settled c index (v, true) e = record {
  superblock = refl;
  here =
      get_or-set (pad c.volumes (suc index) none) index (some v) none
        (length-pad c.volumes (suc index) none);
  elsewhere = λ j other.
      get_or-set_ne (pad c.volumes (suc index) none) index j (some v) none other
      ∙ get_or-pad c.volumes (suc index) j none;
}

answer-started :
    (disk : Disk) (c : Container) (index : ℕ) (r : Volume × Bool) (v : Volume)
    → started disk c index ≡ done r
    → (answer c index r).1 ≡ some v
    → IsReady v
answer-started disk c index (w, false) v e same = absurd (ground (arith, same))
answer-started disk c index (w, true) v e same =
    subst IsReady (ap (λ o. elim o [ none ↦ w | some x ↦ x ]) same) (init-IsReady _ w _ e)

IsNamed-same :
    (c c' : Container)
    → c'.superblock ≡ c.superblock
    → (index : ℕ) → IsNamed c index
    → IsNamed c' index
IsNamed-same c c' e index (h, oid) = (h, rw e oid)

-- The container after a sequence of calls of `getVolume` that return, at the indexes of a list. Each
-- call reads a disk of its own, so that a volume that is loaded anew can be told from the one that was
-- kept.
pub data Visited (c : Container) : List ℕ → Container → Type 0 where
  start : Visited c [] c
  visit :
      (disk : Disk) (indexes : List ℕ) (c1 : Container) (index : ℕ) (c2 : Container)
      (returned : Option Volume)
      → Visited c indexes c1
      → get_volume disk c1 index ≡ done (c2, returned)
      → Visited c (index ∷ indexes) c2

-- A container whose slots are the same but for one is loaded, where that one is.
Settled-IsLoaded :
    (c c' : Container) (index : ℕ) (returned : Option Volume)
    → Settled c c' index returned
    → IsLoaded c
    → ((v : Volume) → returned ≡ some v → IsNamed c index × IsReady v)
    → IsLoaded c'
Settled-IsLoaded c c' index returned settled loaded new = record {
  loaded = λ j v e. elim (ℕ_discrete index j) [
    | yes same ↦
        let (named, ready) = new v (sym settled.here ∙ ap (slot c') same ∙ e) in
        (subst (IsNamed c') same (IsNamed-same c c' settled.superblock index named), ready)
    | no other ↦
        let (named, ready) = loaded.loaded j v (sym (settled.elsewhere j other) ∙ e) in
        (IsNamed-same c c' settled.superblock j named, ready)
  ];
}

-- The same container, where what is returned is what stood in the slot.
unchanged-Settled :
    (c : Container) (index : ℕ) (returned : Option Volume)
    → slot c index ≡ returned
    → Settled c c index returned
unchanged-Settled c index returned e = record {
  superblock = refl;
  here = e;
  elsewhere = λ j other. refl;
}

-- A slot of a volume that is not named is empty.
not_named-empty : (c : Container) (index : ℕ) → IsLoaded c → ¬ IsNamed c index → slot c index ≡ none
not_named-empty c index loaded other = elim (Option-cases (slot c index)) [
  | inl e ↦ e
  | inr (v, e) ↦ absurd (other (loaded.loaded index v e).0)
]

IsNamed-dec : (c : Container) (index : ℕ) → Dec (IsNamed c index)
IsNamed-dec c index = elim (dec_lt index nx_max_file_systems) [
  | no past ↦ no λ named. past named.0
  | yes h ↦ elim (ℕ_discrete (get_or c.superblock.nx_fs_oid index 0) 0) [
    | yes z ↦ no λ named. named.1 z
    | no oid ↦ yes (h, oid)
  ]
]

load_volume-settles :
    (disk : Disk) (c : Container) (index : ℕ) (result : Container × Option Volume)
    → IsLoaded c
    → IsNamed c index
    → slot c index ≡ none
    → load_volume disk c index ≡ done result
    → Settled c result.0 index result.1 × IsLoaded result.0
load_volume-settles disk c index result loaded named empty e =
    elim (Result-cases (started disk c index)) [
      | inl p ↦ absurd (done-ne-fault e (load_volume-fault disk c index p))
      | inr (r, p) ↦
          let settled = answer-Settled c index r empty in
          subst (λ (x : Container × Option Volume). Settled c x.0 index x.1 × IsLoaded x.0)
            (done-injective (sym (load_volume-answer disk c index r p) ∙ e))
            (
              settled,
              Settled-IsLoaded c _ index _ settled loaded
                  λ v same. (named, answer-started disk c index r v p same),
            )
    ]

-- A call that returns, on a container whose slots hold only volumes that are named and ready, keeps
-- it one: afterwards the slot at the index holds what was returned, and every other slot and the
-- superblock are as before.
pub get_volume-IsLoaded :
    (disk : Disk) (c : Container) (index : ℕ) (result : Container × Option Volume)
    → IsLoaded c
    → get_volume disk c index ≡ done result
    → Settled c result.0 index result.1 × IsLoaded result.0
get_volume-IsLoaded disk c index result loaded e = elim (IsNamed-dec c index) [
  | no other ↦
      subst (λ (x : Container × Option Volume). Settled c x.0 index x.1 × IsLoaded x.0)
        (done-injective (sym (get_volume-not_named disk c index other) ∙ e))
        (unchanged-Settled c index none (not_named-empty c index loaded other), loaded)
  | yes named ↦ elim (Option-cases (slot c index)) [
    | inl empty ↦
        load_volume-settles disk c index result loaded named empty
          (sym (get_volume-loads disk c index named empty) ∙ e)
    | inr (v, full) ↦
        subst (λ (x : Container × Option Volume). Settled c x.0 index x.1 × IsLoaded x.0)
          (done-injective (sym (get_volume-loaded disk c index v named full) ∙ e))
          (unchanged-Settled c index (some v) full, loaded)
  ]
]

-- A slot that is full stays as it is through any calls.
visited-full :
    (c : Container) (indexes : List ℕ) (c' : Container)
    → Visited c indexes c'
    → (index : ℕ) (v : Volume) → IsLoaded c
    → slot c index ≡ some v
    → IsLoaded c' × (slot c' index ≡ some v)
visited-full c [] _ start index v loaded full = (loaded, full)
visited-full c (_ ∷ _) c' (visit disk indexes c1 j c2 returned before e) index v loaded full =
    let (loaded1, full1) = visited-full c indexes c1 before index v loaded full in
    let (settled, loaded2) = get_volume-IsLoaded disk c1 j (c2, returned) loaded1 e in
    (
      loaded2,
      elim (ℕ_discrete j index) [
        | no other ↦ settled.elsewhere index other ∙ full1
        | yes same ↦
            let full_j : slot c1 j ≡ some v = ap (slot c1) same ∙ full1 in
            let again =
              done-injective
                (sym e ∙ get_volume-loaded disk c1 j v (loaded1.loaded j v full_j).0 full_j) in
            ap (λ (x : Container × Option Volume). slot x.0 index) again ∙ full1
      ],
    )

-- In a container whose slots hold only volumes that are named and ready, a volume that a call has
-- returned is returned by every later call at its index, whatever calls that return stand between
-- the two, and the later call leaves the container as it is. Each of the calls has a disk of its
-- own, so that the volume is the one that was kept, whatever a read would give by then.
pub get_volume-again :
    (disk later : Disk) (c c1 c2 : Container) (index : ℕ) (v : Volume) (indexes : List ℕ)
    → IsLoaded c
    → get_volume disk c index ≡ done (c1, some v)
    → Visited c1 indexes c2
    → get_volume later c2 index ≡ done (c2, some v)
get_volume-again disk later c c1 c2 index v indexes loaded e visited =
    let (settled, loaded1) = get_volume-IsLoaded disk c index (c1, some v) loaded e in
    let (loaded2, full) = visited-full c1 indexes c2 visited index v loaded1 settled.here in
    get_volume-loaded later c2 index v (loaded2.loaded index v full).0 full

-- A container that has just been created is loaded.
pub create-IsLoaded : IsLoaded create
unfolding create
create-IsLoaded = record { loaded = λ index v e. absurd (ground (arith, e)) }
