-- ===== src/Tests/Logs.antt =====
-- Three lines that are logged without `-d`.
use wamount.Base.{ℕ, ◌≤◌, ◌≡◌, ◌≢◌, arith, some, List, [], ◌∷◌, All}
use wamount.Command.{default_options}
use wamount.Logging.{LogLevel, create, configure}
use wamount.Logging.Output.{Call, IsOneLine, log_all, read_back, log-roundtrip}

-- "ok", "why", "no"
abbrev calls : List Call
calls =
    (LogLevel.info, b'o' ∷ b'k' ∷ [])
    ∷ (LogLevel.debug, b'w' ∷ b'h' ∷ b'y' ∷ [])
    ∷ (LogLevel.error, b'n' ∷ b'o' ∷ [])
    ∷ []

not_end : (c : ℕ) → 32 ≤ c → c ≢ 10
not_end c h e = absurd (omega arith)

calls-IsOneLine : All IsOneLine calls
calls-IsOneLine = (
  (not_end b'o' (omega arith), (not_end b'k' (omega arith), tt)),
  (
    (not_end b'w' (omega arith), (not_end b'h' (omega arith), (not_end b'y' (omega arith), tt))),
    ((not_end b'n' (omega arith), (not_end b'o' (omega arith), tt)), tt),
  ),
)

log-roundtrip_example :
    read_back (log_all calls (configure default_options create)).written
    ≡ some ((LogLevel.info, b'o' ∷ b'k' ∷ []) ∷ (LogLevel.error, b'n' ∷ b'o' ∷ []) ∷ [])
log-roundtrip_example = log-roundtrip default_options calls calls-IsOneLine
