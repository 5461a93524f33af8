-- ===== src/Winfsp/Contexts/Handles.antt =====
-- What the lifetime of contexts means for the driver: a pointer serves from its `Open` to its `Close`,
-- and the heap is empty again when as many contexts are closed as were opened.
use native.Mathlib.Decide.{ℕ_discrete}
use wamount.Base.{
  ℕ, ◌+◌, ◌≡◌, ◌≢◌, refl, sym, ap, ◌∙◌, arith, Bool, Option, none, some, List, [], ◌∷◌, All, Result,
  done, fault, Result-cases, Option-cases, inl, inr, ==_refl, length, done-injective,
}
use wamount.Blocks.{Blocks}
use wamount.Volume.{Volume, FileInfo}
use wamount.Winfsp.{FileContext, FspFileInfo}
use wamount.Winfsp.Callbacks.{Status, open_file, read, file_info}
use wamount.Winfsp.Contexts.{
  Heap, context_at, without, close_file, with_context, Request, open_at, read_at, info_at,
}
use wamount.Winfsp.Contexts.Lifetime.{
  IsAllocator, IsDistinct, Change, same, opened, closed, Served, nothing, silent, giving,
  Served-kept, Served-IsDistinct, serve-Change, closes, length-without, without-gone,
}

abbrev count : Option ℕ → ℕ
count none = 0
count (some p) = 1

newest :
    (p : ℕ) (heap : Heap) (context : FileContext)
    → context_at ((p, context) ∷ heap) p ≡ some context
newest p heap context = rw (==_refl p) refl

with_context-at :
    {A : Type 0} (heap : Heap) (p : ℕ) (context : FileContext) (callback : FileContext → Result A)
    → context_at heap p ≡ some context
    → with_context heap p callback ≡ callback context
unfolding with_context
with_context-at heap p context callback e = rw (e, with_context) refl

with_context-gone :
    {A : Type 0} (heap : Heap) (p : ℕ) (callback : FileContext → Result A)
    → context_at heap p ≡ none
    → with_context heap p callback ≡ fault
unfolding with_context
with_context-gone heap p callback e = rw (e, with_context) refl

closes-cons : (r : Request) (rs : List Request) → closes (r ∷ rs) ≡ closes (r ∷ []) + closes rs
closes-cons (Request.open_request info path) rs = omega arith
closes-cons (Request.close_request p) rs = ground arith
closes-cons (Request.read_request p offset n) rs = omega arith
closes-cons (Request.info_request info p) rs = omega arith
closes-cons (Request.list_request p) rs = omega arith

closes-none : (r : Request) → ((p : ℕ) → p ≢ 0 → r ≢ Request.close_request p) → closes (r ∷ []) ≡ 0
closes-none (Request.open_request info path) other = refl
closes-none (Request.close_request p) other = elim (ℕ_discrete p 0) [
  | yes null ↦ ground (arith, null)
  | no pointer ↦ absurd (other p pointer refl)
]
closes-none (Request.read_request p offset n) other = refl
closes-none (Request.info_request info p) other = refl
closes-none (Request.list_request p) other = refl

closes-one : (r : Request) (p : ℕ) → r ≡ Request.close_request p → p ≢ 0 → closes (r ∷ []) ≡ 1
closes-one r p e pointer = ap (λ (x : Request). closes (x ∷ [])) e ∙ ground (arith, pointer)

module _ (allocate : Heap → ℕ) (volume : Volume) (container : Option Blocks) (Listing : Type 0)
    (add : FspFileInfo → Listing → Bool × Listing) (converts : List ℕ → Bool)
    (listing : Listing) where
  open_at-some :
      (heap heap' : Heap) (info : FileInfo) (path : List ℕ) (status : Status) (p : ℕ)
      → open_at allocate volume container heap info path ≡ done (heap', status, some p)
      → (context : FileContext) × (told : FspFileInfo) × (open_file volume container info path
          ≡ done (status, some (context, told)))
        × (context_at heap' p ≡ some context)
  unfolding open_at
  open_at-some heap heap' info path status p e =
      elim (Result-cases (open_file volume container info path)) [
        | inl f ↦ absurd (ground (arith, f, e))
        | inr ((other, none), f) ↦ absurd (ground (arith, f, e))
        | inr ((other, some (context, told)), f) ↦
            let shape : ◌≡◌ {A = Result (Heap × Status × Option ℕ)}
                (done ((allocate heap, context) ∷ heap, other, some (allocate heap)))
                (done (heap', status, some p)) =
              ground (arith, f, e) in
            let same_parts = done-injective shape in
            (
              context,
              told,
              f
                  ∙ ap (λ (x : Heap × Status × Option ℕ). done (x.1, some (context, told)))
                      same_parts,
              ap
                    (λ (x : Heap × Status × Option ℕ). elim x.2 [
                      | none ↦ none
                      | some q ↦ context_at x.0 q
                    ])
                    (sym same_parts)
                  ∙ newest (allocate heap) heap context,
            )
      ]

  -- Where new gives addresses that are not null and not in use, the pointer that an Open gave
  -- serves, through any requests that are served after it without a Close of the pointer: Read and
  -- GetFileInfo on it do what they do on the context that the lookup of the name made.
  pub opened-read :
      (start heap' heap : Heap) (info : FileInfo) (path : List ℕ) (status : Status) (p : ℕ)
      (rs : List Request) (ps : List ℕ)
      → IsAllocator allocate
      → open_at allocate volume container start info path ≡ done (heap', status, some p)
      → Served allocate volume container Listing add converts listing heap' rs ps heap
      → All (λ r. r ≢ Request.close_request p) rs
      → (context : FileContext) × (told : FspFileInfo) × (open_file volume container info path
          ≡ done (status, some (context, told)))
        × ((offset n : ℕ)
            → read_at allocate volume container heap p offset n
              ≡ read volume container context offset n)
        × ((info' : FileInfo)
            → info_at allocate volume container heap info' p
              ≡ file_info volume container info' context)
  unfolding read_at info_at
  opened-read start heap' heap info path status p rs ps new e served open_still =
      let (context, told, run, at) = open_at-some start heap' info path status p e in
      let still =
        Served-kept allocate volume container Listing add converts listing heap' heap rs ps p
          context new served open_still at in
      (
        context,
        told,
        run,
        (λ offset n. with_context-at heap p context _ still),
        λ info'. with_context-at heap p context _ still,
      )

  Change-balance :
      (heap heap' : Heap) (r : Request) (given : Option ℕ)
      → Change allocate volume container Listing add converts listing heap r (heap', given)
      → length heap' + closes (r ∷ []) ≡ length heap + count given
  Change-balance heap heap' r given (same other e) = omega (
    arith,
    ap (λ (x : Heap × Option ℕ). length x.0) e,
    ap (λ (x : Heap × Option ℕ). count x.1) e,
    closes-none r other,
  )
  Change-balance heap heap' r given (opened info path context is_open e) = omega (
    arith,
    ap (λ (x : Heap × Option ℕ). length x.0) e,
    ap (λ (x : Heap × Option ℕ). count x.1) e,
    ap (λ (x : Request). closes (x ∷ [])) is_open,
  )
  Change-balance heap heap' r given (closed p context is_close pointer at e) = omega (
    arith,
    ap (λ (x : Heap × Option ℕ). length x.0) e,
    ap (λ (x : Heap × Option ℕ). count x.1) e,
    closes-one r p is_close pointer,
    length-without heap p context at,
  )

  -- After any requests that are served, the contexts that are allocated and the pointers other than
  -- null that were closed are together as many as those that were allocated at the start and the
  -- pointers that were given to the driver.
  pub Served-balance :
      (start heap : Heap) (rs : List Request) (ps : List ℕ)
      → Served allocate volume container Listing add converts listing start rs ps heap
      → length heap + closes rs ≡ length start + length ps
  Served-balance start heap rs ps nothing = refl
  Served-balance start heap rs ps (silent {rs = rs'} {h = h} r served e) = omega (
    arith,
    Served-balance start h rs' ps served,
    closes-cons r rs',
    Change-balance h heap r none
        (serve-Change allocate volume container Listing add converts listing h r (heap, none) e),
  )
  Served-balance start heap rs ps (giving {rs = rs'} {ps = ps'} {h = h} r p served e) = omega (
    arith,
    Served-balance start h rs' ps' served,
    closes-cons r rs',
    Change-balance h heap r (some p)
        (serve-Change allocate volume container Listing add converts listing h r (heap, some p) e),
  )

  -- What is freed is gone from a heap where every address is in use once.
  freed-gone :
      (heap heap' : Heap) (p : ℕ)
      → IsDistinct heap
      → p ≢ 0
      → close_file heap p ≡ done heap'
      → ((offset n : ℕ) → read_at allocate volume container heap' p offset n ≡ fault)
        × ((info : FileInfo) → info_at allocate volume container heap' info p ≡ fault)
        × (close_file heap' p ≡ fault)
  unfolding read_at info_at close_file
  freed-gone heap heap' p distinct pointer e = elim (Option-cases (context_at heap p)) [
    | inl f ↦ absurd (ground (arith, pointer, f, e))
    | inr (context, f) ↦
        let freed : without heap p ≡ heap' = ground (arith, pointer, f, e) in
        let gone : context_at heap' p ≡ none =
          ap (λ h. context_at h p) (sym freed) ∙ without-gone heap p distinct in
        (
          (λ offset n. with_context-gone heap' p _ gone),
          (λ info. with_context-gone heap' p _ gone),
          ground (arith, pointer, gone),
        )
  ]

  -- Where new gives addresses that are not null and not in use, after any requests that are served
  -- from an empty heap on, a Close of a pointer other than null that is served leaves nothing
  -- behind it: a Read, a GetFileInfo or another Close on that pointer right after it has no
  -- meaning.
  pub close-gone :
      (heap heap' : Heap) (rs : List Request) (ps : List ℕ) (p : ℕ)
      → IsAllocator allocate
      → Served allocate volume container Listing add converts listing [] rs ps heap
      → p ≢ 0
      → close_file heap p ≡ done heap'
      → ((offset n : ℕ) → read_at allocate volume container heap' p offset n ≡ fault)
        × ((info : FileInfo) → info_at allocate volume container heap' info p ≡ fault)
        × (close_file heap' p ≡ fault)
  close-gone heap heap' rs ps p new served pointer e =
      freed-gone heap heap' p
        (Served-IsDistinct allocate volume container Listing add converts listing [] heap rs ps new
          served tt)
        pointer e
