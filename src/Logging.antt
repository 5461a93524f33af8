-- ===== src/Logging.antt =====
-- src/utils/logging.h and logging.cpp, and the level that src/main.cpp sets. The output is the list of the
-- bytes that have been written to it.
pub mod Output
use wamount.Base.{ℕ, Bool, true, false, List, [], ◌∷◌, ◌++◌, ltb, if◌then◌else◌}
use wamount.Command.{Options}

pub data LogLevel : Type 0 where
  debug : LogLevel
  info : LogLevel
  warning : LogLevel
  error : LogLevel

-- The static member and `std::cerr`.
pub record Logger : Type 0 where
  pub min_level : LogLevel
  pub written : List ℕ

abbrev pub create : Logger
create = record { min_level = LogLevel.info; written = [] }

-- The order of the levels is that of their values.
abbrev pub level_value : LogLevel → ℕ
level_value LogLevel.debug = 0
level_value LogLevel.info = 1
level_value LogLevel.warning = 2
level_value LogLevel.error = 3

-- "[DEBUG] ", "[INFO]  ", "[WARN]  ", "[ERROR] "
unfoldable pub prefix : LogLevel → List ℕ
prefix LogLevel.debug = b'[' ∷ b'D' ∷ b'E' ∷ b'B' ∷ b'U' ∷ b'G' ∷ b']' ∷ b' ' ∷ []
prefix LogLevel.info = b'[' ∷ b'I' ∷ b'N' ∷ b'F' ∷ b'O' ∷ b']' ∷ b' ' ∷ b' ' ∷ []
prefix LogLevel.warning = b'[' ∷ b'W' ∷ b'A' ∷ b'R' ∷ b'N' ∷ b']' ∷ b' ' ∷ b' ' ∷ []
prefix LogLevel.error = b'[' ∷ b'E' ∷ b'R' ∷ b'R' ∷ b'O' ∷ b'R' ∷ b']' ∷ b' ' ∷ []

-- `std::endl`
abbrev pub end_of_line : ℕ
end_of_line = 10

unfoldable pub set_level : LogLevel → Logger → Logger
set_level level logger = record logger { min_level = level }

unfoldable pub log : LogLevel → List ℕ → Logger → Logger
log level msg logger =
    if ltb (level_value level) (level_value logger.min_level)
    then logger
    else record logger { written = logger.written ++ (prefix level ++ (msg ++ (end_of_line ∷ []))) }

-- `debug`, `info`, `warning` and `error`.
unfoldable pub say : LogLevel → List ℕ → Logger → Logger
unfolding log
say LogLevel.debug msg logger = log LogLevel.debug msg logger
say LogLevel.info msg logger = log LogLevel.info msg logger
say LogLevel.warning msg logger = log LogLevel.warning msg logger
say LogLevel.error msg logger = log LogLevel.error msg logger

-- `main` once the arguments are validated.
unfoldable pub configure : Options → Logger → Logger
unfolding set_level
configure o logger = if o.debug then set_level LogLevel.debug logger else logger
