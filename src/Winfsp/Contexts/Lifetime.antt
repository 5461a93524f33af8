-- ===== src/Winfsp/Contexts/Lifetime.antt =====
-- A context lives from the `Open` that made it to the `Close` of its pointer, through any requests that
-- come between.
use native.Mathlib.Decide.{ℕ_discrete}
use wamount.Base.{
  ℕ, suc, ◌≡◌, ◌≢◌, refl, sym, ap, ◌∙◌, arith, Bool, Option, none, some, List, [], ◌∷◌, Result,
  done, Result-cases, Option-cases, Bool-cases, inl, inr, ==_ne, ◌==◌, length, if◌then◌else◌,
  done-injective, >>=-eq-done, All, subst,
}
use wamount.Blocks.{Blocks}
use wamount.Volume.{Volume, FileInfo}
use wamount.Winfsp.{FileContext, FspFileInfo}
use wamount.Winfsp.Callbacks.{open_file}
use wamount.Winfsp.Contexts.{
  Heap, context_at, without, close_file, Request, open_at, read_at, info_at, list_at, perform,
}

context_at-without_ne :
    (heap : Heap) (p q : ℕ) → p ≢ q → context_at (without heap p) q ≡ context_at heap q
context_at-without_ne [] p q other = refl
context_at-without_ne ((r, context) ∷ heap) p q other = elim (ℕ_discrete r p) [
  | yes e ↦ ground (arith, e, other)
  | no e ↦ ground (arith, e, context_at-without_ne heap p q other)
]

pub length-without :
    (heap : Heap) (p : ℕ) (context : FileContext)
    → context_at heap p ≡ some context
    → length heap ≡ suc (length (without heap p))
length-without [] p context e = absurd (ground (arith, e))
length-without ((r, other) ∷ heap) p context e = elim (ℕ_discrete r p) [
  | yes same ↦ ground (arith, same)
  | no differ ↦ ground (arith, differ, length-without heap p context (ground (arith, differ, e)))
]

-- What is documented of `new`: an address that is not null and not in use.
abbrev pub IsAllocator : (Heap → ℕ) → Type 0
IsAllocator allocate =
    (heap : Heap) → (allocate heap ≢ 0) × (context_at heap (allocate heap) ≡ none)

-- Every address is in use once.
abbrev pub IsDistinct : Heap → Type 0
IsDistinct [] = Unit {0}
IsDistinct ((p, context) ∷ heap) = (context_at heap p ≡ none) × IsDistinct heap

pub without-gone : (heap : Heap) (p : ℕ) → IsDistinct heap → context_at (without heap p) p ≡ none
without-gone [] p h = refl
without-gone ((q, context) ∷ heap) p h = elim (ℕ_discrete q p) [
  | yes e ↦ ground (arith, e, h.0)
  | no e ↦ ground (arith, e, without-gone heap p h.1)
]

without-none :
    (heap : Heap) (p q : ℕ) → context_at heap q ≡ none → context_at (without heap p) q ≡ none
without-none [] p q e = refl
without-none ((r, context) ∷ heap) p q e = elim (ℕ_discrete r p) [
  | yes same ↦ ground (arith, same, e)
  | no differ ↦ ground (arith, differ, e, without-none heap p q)
]

without-IsDistinct : (heap : Heap) (p : ℕ) → IsDistinct heap → IsDistinct (without heap p)
without-IsDistinct [] p h = tt
without-IsDistinct ((q, context) ∷ heap) p h = elim (Bool-cases (q == p)) [
  | inl e ↦ rw (e, without) h.1
  | inr e ↦ rw (e, without) (without-none heap p q h.0, without-IsDistinct heap p h.1)
]

-- How many contexts a list of requests frees.
abbrev pub closes : List Request → ℕ
closes [] = 0
closes (Request.close_request p ∷ rs) = if p == 0 then closes rs else suc (closes rs)
closes (_ ∷ rs) = closes rs

-- The contexts that a request makes or frees.
module _ (allocate : Heap → ℕ) (volume : Volume) (container : Option Blocks) (Listing : Type 0)
    (add : FspFileInfo → Listing → Bool × Listing) (converts : List ℕ → Bool)
    (listing : Listing) where
  abbrev pub serve : Heap → Request → Result (Heap × Option ℕ)
  serve = perform allocate volume container Listing add converts listing

  -- What a request does to the heap: nothing, one more context, or one less.
  pub data Change (heap : Heap) (r : Request) (result : Heap × Option ℕ) : Type 0 where
    same :
        ((p : ℕ) → p ≢ 0 → r ≢ Request.close_request p)
        → result ≡ (heap, none)
        → Change heap r result
    opened :
        (info : FileInfo) (path : List ℕ) (context : FileContext)
        → r ≡ Request.open_request info path
        → result ≡ ((allocate heap, context) ∷ heap, some (allocate heap))
        → Change heap r result
    closed :
        (p : ℕ) (context : FileContext)
        → r ≡ Request.close_request p
        → p ≢ 0
        → context_at heap p ≡ some context
        → result ≡ (without heap p, none)
        → Change heap r result

  open-Change :
      (heap : Heap) (info : FileInfo) (path : List ℕ) (result : Heap × Option ℕ)
      → serve heap (Request.open_request info path) ≡ done result
      → Change heap (Request.open_request info path) result
  unfolding perform open_at
  open-Change heap info path result e = elim (Result-cases (open_file volume container info path)) [
    | inl p ↦ absurd (ground (arith, p, e))
    | inr ((status, none), p) ↦ same (λ q other f. cc) (sym (ground (arith, p, e)))
    | inr ((status, some (context, told)), p) ↦
        opened info path context refl (sym (ground (arith, p, e)))
  ]

  close-Change :
      (heap : Heap) (p : ℕ) (result : Heap × Option ℕ)
      → serve heap (Request.close_request p) ≡ done result
      → Change heap (Request.close_request p) result
  unfolding perform close_file
  close-Change heap p result e = elim (ℕ_discrete p 0) [
    | yes null ↦
        same (λ q other f. other (sym (close-injective f) ∙ null)) (ground (arith, null, e))
    | no pointer ↦ elim (Option-cases (context_at heap p)) [
      | inl f ↦ absurd (ground (arith, pointer, f, e))
      | inr (context, f) ↦ closed p context refl pointer f (ground (arith, pointer, f, e))
    ]
  ]
    where
      close-injective : {a b : ℕ} → Request.close_request a ≡ Request.close_request b → a ≡ b
      close-injective f = cc

  pub serve-Change :
      (heap : Heap) (r : Request) (result : Heap × Option ℕ)
      → serve heap r ≡ done result
      → Change heap r result
  unfolding perform
  serve-Change heap (Request.open_request info path) result e = open-Change heap info path result e
  serve-Change heap (Request.close_request p) result e = close-Change heap p result e
  serve-Change heap (Request.read_request p offset length) result e =
      let (a, run, last) =
        >>=-eq-done (read_at allocate volume container heap p offset length) _ e in
      same (λ q other f. cc) (sym (done-injective last))
  serve-Change heap (Request.info_request info p) result e =
      let (a, run, last) = >>=-eq-done (info_at allocate volume container heap info p) _ e in
      same (λ q other f. cc) (sym (done-injective last))
  serve-Change heap (Request.list_request p) result e =
      let (a, run, last) =
        >>=-eq-done (list_at allocate volume container Listing add converts listing heap p) _ e in
      same (λ q other f. cc) (sym (done-injective last))

  -- The requests of a list, the last one first, have been served, and the driver was given the pointers
  -- of the second list.
  pub data Served (start : Heap) : List Request → List ℕ → Heap → Type 0 where
    nothing : Served start [] [] start
    silent :
        {rs : List Request} {ps : List ℕ} {h h' : Heap} (r : Request)
        → Served start rs ps h
        → serve h r ≡ done (h', none)
        → Served start (r ∷ rs) ps h'
    giving :
        {rs : List Request} {ps : List ℕ} {h h' : Heap} (r : Request) (p : ℕ)
        → Served start rs ps h
        → serve h r ≡ done (h', some p)
        → Served start (r ∷ rs) (p ∷ ps) h'

  Change-kept :
      (heap heap' : Heap) (r : Request) (given : Option ℕ) (p : ℕ) (context : FileContext)
      → IsAllocator allocate
      → Change heap r (heap', given)
      → context_at heap p ≡ some context
      → r ≢ Request.close_request p
      → context_at heap' p ≡ some context
  Change-kept heap heap' r given p context new (same other e) at open_still =
      ap (λ (x : Heap × Option ℕ). context_at x.0 p) e ∙ at
  Change-kept heap heap' r given p context new (opened info path made is_open e) at open_still =
      ap (λ (x : Heap × Option ℕ). context_at x.0 p) e
      ∙ fresh (λ a. ground (arith, (new heap).1, ap (context_at heap) a, at))
    where
      fresh : allocate heap ≢ p → context_at ((allocate heap, made) ∷ heap) p ≡ some context
      fresh other = rw (==_ne (allocate heap) p other) at
  Change-kept heap heap' r given p context new (closed q old is_close pointer at_q e) at
        open_still =
      ap (λ (x : Heap × Option ℕ). context_at x.0 p) e
      ∙ context_at-without_ne heap q p (λ a. open_still (is_close ∙ ap Request.close_request a))
      ∙ at

  Change-IsDistinct :
      (heap heap' : Heap) (r : Request) (given : Option ℕ)
      → IsAllocator allocate
      → Change heap r (heap', given)
      → IsDistinct heap
      → IsDistinct heap'
  Change-IsDistinct heap heap' r given new (same other e) h =
      subst (λ (x : Heap × Option ℕ). IsDistinct x.0) (sym e) h
  Change-IsDistinct heap heap' r given new (opened info path made is_open e) h =
      subst (λ (x : Heap × Option ℕ). IsDistinct x.0) (sym e) ((new heap).1, h)
  Change-IsDistinct heap heap' r given new (closed q old is_close pointer at_q e) h =
      subst (λ (x : Heap × Option ℕ). IsDistinct x.0) (sym e) (without-IsDistinct heap q h)

  pub Served-kept :
      (start heap : Heap) (rs : List Request) (ps : List ℕ) (p : ℕ) (context : FileContext)
      → IsAllocator allocate
      → Served start rs ps heap
      → All (λ r. r ≢ Request.close_request p) rs
      → context_at start p ≡ some context
      → context_at heap p ≡ some context
  Served-kept start heap rs ps p context new nothing open_still at = at
  Served-kept start heap rs ps p context new (silent {h = h} r served e) open_still at =
      Change-kept h heap r none p context new (serve-Change h r (heap, none) e)
        (Served-kept start h _ ps p context new served open_still.1 at) open_still.0
  Served-kept start heap rs ps p context new (giving {h = h} r q served e) open_still at =
      Change-kept h heap r (some q) p context new (serve-Change h r (heap, some q) e)
        (Served-kept start h _ _ p context new served open_still.1 at) open_still.0

  pub Served-IsDistinct :
      (start heap : Heap) (rs : List Request) (ps : List ℕ)
      → IsAllocator allocate
      → Served start rs ps heap
      → IsDistinct start
      → IsDistinct heap
  Served-IsDistinct start heap rs ps new nothing h = h
  Served-IsDistinct start heap rs ps new (silent {h = h'} r served e) h =
      Change-IsDistinct h' heap r none new (serve-Change h' r (heap, none) e)
        (Served-IsDistinct start h' _ ps new served h)
  Served-IsDistinct start heap rs ps new (giving {h = h'} r q served e) h =
      Change-IsDistinct h' heap r (some q) new (serve-Change h' r (heap, some q) e)
        (Served-IsDistinct start h' _ _ new served h)
