-- ===== src/Litelog/Laws.antt =====
-- What the log client sends, and what its time limits and names are.
use pre.Litelog.{recv_limit}
use pre.Litelog.Client.{
  bracketed, program_name_of, Level, fatal, error, warning, notice, info, debug, trace, code,
  rejected, log, log_at,
}
use pre.Prelude.{
  ◌==◌, if◌then◌else◌, all_below, all_below_sound, length, length-append, take, length-take,
  take_le, ℕ, ◌+◌, ◌*◌, ◌/◌, ◌%◌, ◌≤◌, ◌<◌, ◌≡◌, refl, ◌⊎◌, Bool, true, false, not, ◌||◌, none,
  some, List, [], ◌∷◌, ◌++◌, arith,
}
use pre.Prelude.Int.{ℤ, pos, negsuc}

-- A level is accepted when it is 0 or one of the seven levels.
abbrev pub is_level : ℕ → Bool
is_level n = n == 0 || n == 1 || n == 2 || n == 4 || n == 8 || n == 16 || n == 32 || n == 64

accepts_table : all_below 256 (λ l. if rejected l then not (is_level l) else is_level l) ≡ true
unfolding rejected
accepts_table = refl

rejected_lem : (level : ℕ) → level < 256 → rejected level ≡ not (is_level level)
rejected_lem level h = ground (
  arith,
  all_below_sound 256 (λ l. if rejected l then not (is_level l) else is_level l) level accepts_table
      h,
)

-- `Litelog_Log` of a byte that is no level, or without memory, returns an error and sends nothing. Of a
-- level, 0 included, it returns what `sendto` does for a packet that starts with the level, then has
-- the program's name, then the text.
pub log_lem :
    (malloc_ok : Bool) (sent : ℤ) (program_name : List ℕ) (level : ℕ) (str : List ℕ)
    → level < 256
    → ((is_level level ≡ false) × (log malloc_ok sent program_name level str ≡ (negsuc 0, none)))
      ⊎ ((is_level level ≡ true)
          × (malloc_ok ≡ false)
          × (log malloc_ok sent program_name level str ≡ (negsuc 1, none)))
      ⊎ ((is_level level ≡ true)
          × (malloc_ok ≡ true)
          × (log malloc_ok sent program_name level str
              ≡ (sent, some (level ∷ program_name ++ str))))
unfolding log
log_lem malloc_ok sent program_name level str h = ground (arith, rejected_lem level h)

-- Each of the seven functions of the client passes the check of its level: with memory it sends the
-- packet, its text cut to 255 bytes.
pub log_at_sends :
    (l : Level) (sent : ℤ) (program_name formatted : List ℕ)
    → log_at l true sent program_name formatted
      ≡ (sent, some (code l ∷ program_name ++ take 255 formatted))
unfolding log_at log rejected
log_at_sends fatal sent program_name formatted = refl
log_at_sends error sent program_name formatted = refl
log_at_sends warning sent program_name formatted = refl
log_at_sends notice sent program_name formatted = refl
log_at_sends info sent program_name formatted = refl
log_at_sends debug sent program_name formatted = refl
log_at_sends trace sent program_name formatted = refl

-- The stored name fits its buffer with the NUL, its text is never cut inside the brackets: it is the
-- whole name where that has at most 15 bytes, else its first 12 and three dots.
pub program_name_of_lem :
    (name : List ℕ)
    → (length (program_name_of name) < 20)
      × (length name ≤ 15 → program_name_of name ≡ bracketed name)
      × (15 < length name
          → program_name_of name ≡ bracketed (take 12 name ++ 0x2e ∷ 0x2e ∷ 0x2e ∷ []))
unfolding program_name_of
program_name_of_lem name = (
  ground (
    arith,
    length-take 19 (bracketed name),
    length-take 19 (bracketed (take 12 name ++ 0x2e ∷ 0x2e ∷ 0x2e ∷ [])),
  ),
  λ h. ground (arith, take_le 19 (bracketed name), length-append name (0x5d ∷ [])),
  λ h. ground (
    arith,
    take_le 19 (bracketed (take 12 name ++ 0x2e ∷ 0x2e ∷ 0x2e ∷ [])),
    length-append (take 12 name ++ 0x2e ∷ 0x2e ∷ 0x2e ∷ []) (0x5d ∷ []),
    length-append (take 12 name) (0x2e ∷ 0x2e ∷ 0x2e ∷ []),
    length-take 12 name,
  ),
)

-- The time limit of a positive number of milliseconds is that time, with less than a second in
-- microseconds; any other waits for ever.
pub recv_limit_lem :
    (ms : ℕ)
    → 0 < ms
    → (recv_limit (pos ms) ≡ some (ms / 1000, ms % 1000 * 1000))
      × (ms / 1000 * 1000000 + ms % 1000 * 1000 ≡ ms * 1000)
      × (ms % 1000 * 1000 < 1000000)
unfolding recv_limit
recv_limit_lem ms h = (ground arith, omega arith, omega arith)
