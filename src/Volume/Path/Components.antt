-- ===== src/Volume/Path/Components.antt =====
-- The components of a path: cutting at a slash is all that matters, so empty parts disappear.
use mathlib.Core.List.{append-nil, append_assoc}
use wamount.Base.{
  All, All-append, ℕ, ◌≡◌, ◌≢◌, refl, sym, ap, ◌∙◌, arith, false, List, [], ◌∷◌, ◌++◌, ◌==◌, ==_ne,
  Bool-cases, inl, inr,
}
use wamount.Volume.Path.{slash, keep, components_from, components}

-- A part of a path between slashes.
abbrev pub IsPart : List ℕ → Type 0
IsPart = All (λ c. c ≢ slash)

-- A part that is a component: not empty.
abbrev pub IsComponent : List ℕ → Type 0
IsComponent part = (part ≢ []) × IsPart part

keep-append : (part : List ℕ) (xs ys : List (List ℕ)) → keep part (xs ++ ys) ≡ keep part xs ++ ys
unfolding keep
keep-append [] xs ys = refl
keep-append (c ∷ cs) xs ys = refl

components_from-append :
    (part a b : List ℕ)
    → components_from part (a ++ slash ∷ b) ≡ components_from part a ++ components b
unfolding components_from components
components_from-append part [] b = keep-append part [] (components_from [] b)
components_from-append part (c ∷ a) b = elim (Bool-cases (c == slash)) [
  | inl is_slash ↦
      rw (is_slash, components_from)
        (ap (keep part) (components_from-append [] a b)
          ∙ keep-append part (components_from [] a) (components b))
  | inr other ↦ rw (other, components_from) (components_from-append (part ++ c ∷ []) a b)
]

-- The components of two paths with a slash between them are those of the first followed by those of
-- the second.
components-append : (a b : List ℕ) → components (a ++ slash ∷ b) ≡ components a ++ components b
unfolding components
components-append a b = components_from-append [] a b

keep-All :
    (part : List ℕ) (rest : List (List ℕ))
    → IsPart part
    → All IsComponent rest
    → All IsComponent (keep part rest)
unfolding keep
keep-All [] rest p h = h
keep-All (c ∷ cs) rest p h = (((λ e. cc), p), h)

components_from-All :
    (part path : List ℕ) → IsPart part → All IsComponent (components_from part path)
unfolding components_from
components_from-All part [] p = keep-All part [] p tt
components_from-All part (c ∷ path) p = elim (Bool-cases (c == slash)) [
  | inl is_slash ↦
      rw (is_slash, components_from) (keep-All part _ p (components_from-All [] path tt))
  | inr other ↦
      rw (other, components_from)
        (components_from-All (part ++ c ∷ []) path
          (All-append _ part (c ∷ []) p (not_slash other, tt)))
]
  where
    not_slash : {d : ℕ} → (d == slash) ≡ false → d ≢ slash
    not_slash e h = ground arith

-- Every component of a path is not empty and has no slash in it.
components-All : (path : List ℕ) → All IsComponent (components path)
unfolding components
components-All path = components_from-All [] path tt

components_from-IsPart :
    (part rest : List ℕ) → IsPart rest → components_from part rest ≡ keep (part ++ rest) []
unfolding components_from
components_from-IsPart part [] h = ap (λ (p : List ℕ). keep p []) (sym (append-nil part))
components_from-IsPart part (c ∷ rest) h =
    rw (==_ne c slash h.0, components_from)
      (components_from-IsPart (part ++ c ∷ []) rest h.1
        ∙ ap (λ (p : List ℕ). keep p []) (append_assoc part (c ∷ []) rest))

components-IsComponent : (part : List ℕ) → IsComponent part → components part ≡ part ∷ []
components-IsComponent [] h = absurd (h.0 refl)
components-IsComponent (c ∷ cs) h = unfold components keep in components_from-IsPart [] (c ∷ cs) h.1

-- The path that names the components one below the other.
abbrev pub join : List (List ℕ) → List ℕ
join [] = []
join (part ∷ parts) = slash ∷ (part ++ join parts)

pub slash_first : (path : List ℕ) → components (slash ∷ path) ≡ components path
unfolding components components_from keep
slash_first path = refl

components-IsComponent_append :
    (part : List ℕ) (parts : List (List ℕ))
    → IsComponent part
    → components (join parts) ≡ parts
    → components (part ++ join parts) ≡ part ∷ parts
components-IsComponent_append part [] h e = rw append-nil (components-IsComponent part h)
components-IsComponent_append part (next ∷ parts) h e =
    components-append part (next ++ join parts)
    ∙ ap (λ (front : List (List ℕ)). front ++ components (next ++ join parts))
        (components-IsComponent part h)
    ∙ ap (λ (back : List (List ℕ)). part ∷ back) (sym (slash_first (next ++ join parts)) ∙ e)

-- Splitting the path that was joined from components, none empty and none with a slash in it, gives
-- the components back.
pub components-join :
    (parts : List (List ℕ)) → All IsComponent parts → components (join parts) ≡ parts
components-join [] h = unfold components components_from keep in refl
components-join (part ∷ parts) h =
    slash_first (part ++ join parts)
    ∙ components-IsComponent_append part parts h.0 (components-join parts h.1)

longer-cons :
    (c : ℕ) (part path : List ℕ)
    → (comp : List ℕ) × (comps : List (List ℕ)) × (components_from (c ∷ part) path ≡ comp ∷ comps)
unfolding components_from keep
longer-cons c part [] = (c ∷ part, [], refl)
longer-cons c part (x ∷ path) = elim (Bool-cases (x == slash)) [
  | inl e ↦ (c ∷ part, components_from [] path, rw (components_from, e) refl)
  | inr e ↦
      let (comp, comps, same) = longer-cons c (part ++ x ∷ []) path in
      (comp, comps, rw (components_from, e) same)
]

-- A path that begins with anything but a slash has a component.
pub components-cons :
    (c : ℕ) (path : List ℕ)
    → c ≢ slash
    → (comp : List ℕ) × (comps : List (List ℕ)) × (components (c ∷ path) ≡ comp ∷ comps)
unfolding components components_from
components-cons c path other =
    let (comp, comps, same) = longer-cons c [] path in
    (comp, comps, rw (components_from, ==_ne c slash other) same)
