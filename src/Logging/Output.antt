-- ===== src/Logging/Output.antt =====
-- What a run leaves in the output: the lines that reach the level, and no more, from which the level and
-- the text of each can be told again.
use mathlib.Core.List.{append_assoc, append-nil}
use wamount.Base.{
  ℕ, ◌≡◌, ◌≢◌, refl, ap, sym, ◌∙◌, arith, Bool, true, false, Option, none, some, List, [], ◌∷◌,
  ◌++◌, All, All-append, not, ◌&&◌, Bool-cases, ltb, leb, inl, inr, if◌then◌else◌, ==_ne, ◌==◌,
}
use wamount.Command.{Options}
use wamount.Logging.{
  LogLevel, Logger, level_value, prefix, end_of_line, log, say, set_level, configure, create,
}

-- A call of the logger: a level and a text.
abbrev pub Call : Type 0
Call = LogLevel × List ℕ

-- The calls, one after the other.
abbrev pub log_all : List Call → Logger → Logger
log_all [] logger = logger
log_all ((level, msg) ∷ calls) logger = log_all calls (say level msg logger)

-- The calls whose level reaches the least one.
abbrev pub reaching : ℕ → List Call → List Call
reaching least [] = []
reaching least ((level, msg) ∷ calls) =
    let rest = reaching least calls in
    if leb least (level_value level) then (level, msg) ∷ rest else rest

abbrev pub line : Call → List ℕ
line (level, msg) = prefix level ++ (msg ++ (end_of_line ∷ []))

abbrev pub lines : List Call → List ℕ
lines [] = []
lines (call ∷ calls) = line call ++ lines calls

-- `-d` or not.
abbrev pub least_level : Bool → ℕ
least_level true = 0
least_level false = 1

-- A line without its end gives back the level, by its second character, and the text.
abbrev level_of : ℕ → LogLevel
level_of c =
    if c == b'D'
    then LogLevel.debug
    else if c == b'I'
    then LogLevel.info
    else if c == b'W'
    then LogLevel.warning
    else LogLevel.error

abbrev call_of : List ℕ → Option Call
call_of (a ∷ b ∷ c ∷ d ∷ e ∷ f ∷ g ∷ h ∷ msg) = some (level_of b, msg)
call_of _ = none

call_of-prefix :
    (level : LogLevel) (msg : List ℕ) → call_of (prefix level ++ msg) ≡ some (level, msg)
unfolding prefix
call_of-prefix LogLevel.debug msg = refl
call_of-prefix LogLevel.info msg = refl
call_of-prefix LogLevel.warning msg = refl
call_of-prefix LogLevel.error msg = refl

-- The lines of an output.
abbrev with_first : ℕ → List (List ℕ) → List (List ℕ)
with_first c [] = (c ∷ []) ∷ []
with_first c (x ∷ xs) = (c ∷ x) ∷ xs

abbrev split : List ℕ → List (List ℕ)
split [] = []
split (c ∷ cs) = let rest = split cs in if c == end_of_line then [] ∷ rest else with_first c rest

abbrev pub HasNoEnd : List ℕ → Type 0
HasNoEnd = All (λ c. c ≢ end_of_line)

split-line :
    (text rest : List ℕ) → HasNoEnd text → split (text ++ (end_of_line ∷ rest)) ≡ text ∷ split rest
split-line [] rest h = refl
split-line (c ∷ cs) rest h = rw (==_ne c end_of_line h.0, split-line cs rest h.1) refl

-- The calls that an output shows.
abbrev calls_of : List (List ℕ) → Option (List Call)
calls_of [] = some []
calls_of (x ∷ xs) = elim (call_of x) [
  | none ↦ none
  | some call ↦ elim (calls_of xs) [ none ↦ none | some calls ↦ some (call ∷ calls) ]
]

abbrev pub read_back : List ℕ → Option (List Call)
read_back output = calls_of (split output)

-- The text of a call stays on one line.
abbrev pub IsOneLine : Call → Type 0
IsOneLine (level, msg) = HasNoEnd msg

has_no_end : List ℕ → Bool
has_no_end [] = true
has_no_end (c ∷ cs) = not (c == end_of_line) && has_no_end cs

has_no_end-HasNoEnd : (text : List ℕ) → has_no_end text ≡ true → HasNoEnd text
unfolding has_no_end
has_no_end-HasNoEnd [] e = tt
has_no_end-HasNoEnd (c ∷ cs) e =
    ((λ same. ground (arith, same, e)), has_no_end-HasNoEnd cs (ground (arith, e)))

prefix-HasNoEnd : (level : LogLevel) → HasNoEnd (prefix level)
unfolding prefix has_no_end
prefix-HasNoEnd LogLevel.debug = has_no_end-HasNoEnd (prefix LogLevel.debug) refl
prefix-HasNoEnd LogLevel.info = has_no_end-HasNoEnd (prefix LogLevel.info) refl
prefix-HasNoEnd LogLevel.warning = has_no_end-HasNoEnd (prefix LogLevel.warning) refl
prefix-HasNoEnd LogLevel.error = has_no_end-HasNoEnd (prefix LogLevel.error) refl

split-lines : (calls : List Call) → All IsOneLine calls → read_back (lines calls) ≡ some calls
split-lines [] h = refl
split-lines ((level, msg) ∷ calls) (h, hs) =
    let text : List ℕ = prefix level ++ msg in
    let cut : split (lines ((level, msg) ∷ calls)) ≡ text ∷ split (lines calls) =
      ap split (
        ap (λ (l : List ℕ). l ++ lines calls)
          (sym (append_assoc (prefix level) msg (end_of_line ∷ [])))
        ∙ append_assoc text (end_of_line ∷ []) (lines calls))
      ∙ split-line text (lines calls) (All-append _ (prefix level) msg (prefix-HasNoEnd level) h) in
    ap calls_of cut ∙ rw (calls_of, call_of-prefix level msg) (rw (split-lines calls hs) refl)

reaching-IsOneLine :
    (least : ℕ) (calls : List Call) → All IsOneLine calls → All IsOneLine (reaching least calls)
reaching-IsOneLine least [] h = h
reaching-IsOneLine least ((level, msg) ∷ calls) (h, hs) =
    elim (Bool-cases (leb least (level_value level))) [
      | inl e ↦ rw e (h, reaching-IsOneLine least calls hs)
      | inr e ↦ rw e (reaching-IsOneLine least calls hs)
    ]

say-log :
    (level : LogLevel) (msg : List ℕ) (logger : Logger)
    → say level msg logger ≡ log level msg logger
unfolding say
say-log LogLevel.debug msg logger = refl
say-log LogLevel.info msg logger = refl
say-log LogLevel.warning msg logger = refl
say-log LogLevel.error msg logger = refl

ltb→leb_not : (a b : ℕ) → ltb a b ≡ true → leb b a ≡ false
ltb→leb_not a b e = ground (arith, e)

not_ltb→leb : (a b : ℕ) → ltb a b ≡ false → leb b a ≡ true
not_ltb→leb a b e = ground (arith, e)

log_all-lines :
    (calls : List Call) (logger : Logger)
    → (log_all calls logger).written
      ≡ logger.written ++ lines (reaching (level_value logger.min_level) calls)
unfolding log
log_all-lines [] logger = sym (append-nil logger.written)
log_all-lines ((level, msg) ∷ calls) logger =
    let min : ℕ = level_value logger.min_level in
    elim (Bool-cases (ltb (level_value level) min)) [
      | inl e ↦
          rw (log_all, say-log level msg logger, e)
            (rw (reaching, ltb→leb_not (level_value level) min e) (log_all-lines calls logger))
      | inr e ↦
          rw (log_all, say-log level msg logger, e)
            (rw (reaching, not_ltb→leb (level_value level) min e)
              (log_all-lines calls (record logger { written = logger.written ++ line (level, msg) })
                ∙ append_assoc logger.written (line (level, msg)) (lines (reaching min calls))))
    ]

configure-written : (o : Options) → (configure o create).written ≡ []
unfolding configure set_level
configure-written o = elim (Bool-cases o.debug) [ inl e ↦ rw e refl | inr e ↦ rw e refl ]

configure-level : (o : Options) → level_value (configure o create).min_level ≡ least_level o.debug
unfolding configure set_level
configure-level o = elim (Bool-cases o.debug) [ inl e ↦ rw e refl | inr e ↦ rw e refl ]

-- The output of a run of calls of the logger, each with a text on one line, can be read back: it
-- gives the level and the text of the calls, in their order, whose level is DEBUG or above if the
-- program was started with -d, and INFO or above if not, in every kind of build.
pub log-roundtrip :
    (o : Options) (calls : List Call)
    → All IsOneLine calls
    → read_back (log_all calls (configure o create)).written
      ≡ some (reaching (least_level o.debug) calls)
log-roundtrip o calls h =
    let logger = configure o create in
    let output : (log_all calls logger).written ≡ lines (reaching (least_level o.debug) calls) =
      log_all-lines calls logger
      ∙ ap (λ (l : List ℕ). l ++ lines (reaching (level_value logger.min_level) calls))
          (configure-written o)
      ∙ ap (λ (n : ℕ). lines (reaching n calls)) (configure-level o) in
    ap read_back output
    ∙ split-lines (reaching (least_level o.debug) calls)
        (reaching-IsOneLine (least_level o.debug) calls h)
