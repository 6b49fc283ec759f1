-- ===== src/Litelog/Client.antt =====
-- src/utils/log/litelog.c from `Litelog_Init` on: the program's name, and the packets.
use pre.Prelude.{
  leb, ◌==◌, if◌then◌else◌, length, take, ℕ, ◌+◌, ◌-◌, bit_and, Bool, false, not, ◌||◌, Option,
  none, some, List, [], ◌∷◌, ◌++◌,
}
use pre.Prelude.Int.{ℤ, negsuc}

-- PROGRAM_NAME_DISPLAY_WIDTH and PROGRAM_NAME_BUFFER_SIZE
abbrev pub display_width : ℕ
display_width = 15

abbrev pub buffer_size : ℕ
buffer_size = display_width + 5

-- `snprintf` into `size` bytes keeps one for the NUL.
abbrev pub snprintf : ℕ → List ℕ → List ℕ
snprintf size text = take (size - 1) text

-- "[%s]"
abbrev pub bracketed : List ℕ → List ℕ
bracketed name = 0x5b ∷ name ++ 0x5d ∷ []

-- The name that `Litelog_Init` stores.
unfoldable pub program_name_of : List ℕ → List ℕ
program_name_of name =
    if leb (length name) display_width
    then snprintf buffer_size (bracketed name)
    else snprintf buffer_size (bracketed (take (display_width - 3) name ++ 0x2e ∷ 0x2e ∷ 0x2e ∷ []))

-- The levels.
pub data Level : Type 0 where
  fatal error warning notice info debug trace : Level

abbrev pub code : Level → ℕ
code fatal = 1
code error = 2
code warning = 4
code notice = 8
code info = 16
code debug = 32
code trace = 64

-- The check of a level, a byte: `valid_levels` is 0x7F, so its complement leaves the top bit. At 0
-- `level - 1` is -1 in C, and the conjunction is 0 there as here.
unfoldable pub rejected : ℕ → Bool
rejected level = not (bit_and level 0x80 == 0) || not (bit_and level (level - 1) == 0)

-- `Litelog_Log`: what it returns and the packet that it hands to `sendto`, which returns `sent`.
unfoldable pub log : Bool → ℤ → List ℕ → ℕ → List ℕ → ℤ × Option (List ℕ)
unfolding rejected
log malloc_ok sent program_name level str =
    if rejected level
    then (negsuc 0, none)
    else if not malloc_ok
    then (negsuc 1, none)
    else (sent, some (level ∷ program_name ++ str))

-- `Litelog_Log_Fatal` and its six fellows; `formatted` is the text that `format` gives.
unfoldable pub log_at : Level → Bool → ℤ → List ℕ → List ℕ → ℤ × Option (List ℕ)
unfolding log
log_at l malloc_ok sent program_name formatted =
    log malloc_ok sent program_name (code l) (snprintf 256 formatted)

-- What follows the last '/' of a path, the whole of it where there is none.
unfoldable pub file_name_of : List ℕ → List ℕ
file_name_of [] = []
file_name_of (c ∷ rest) = if has_slash (c ∷ rest) then file_name_of rest else c ∷ rest
  where
    has_slash : List ℕ → Bool
    has_slash [] = false
    has_slash (d ∷ ds) = d == 0x2f || has_slash ds

-- `Litelog_Log_Manual`; `decimal` prints the line's number, as "%d" does.
unfoldable pub log_manual :
    (ℤ → List ℕ) → Bool → ℤ → List ℕ → ℕ → List ℕ → ℤ → List ℕ → List ℕ → ℤ × Option (List ℕ)
unfolding rejected file_name_of
log_manual decimal malloc_ok sent program_name level file line func formatted =
    let log_buffer = snprintf 256 formatted in
    let formatted_log =
      snprintf 512
        (file_name_of file ++ 0x3a ∷ decimal line ++ 0x20 ∷ func ++ 0x3a ∷ 0x20 ∷ log_buffer) in
    if rejected level
    then (negsuc 0, none)
    else if not malloc_ok
    then (negsuc 1, none)
    else (sent, some (level ∷ program_name ++ formatted_log))

-- The commands of `Litelog_Shutdown`, `Litelog_Change_Level` and `Litelog_Switch_Page`.
unfoldable pub shutdown : List ℕ
shutdown = 0 ∷ []

unfoldable pub change_level : ℕ → List ℕ
change_level level = 1 ∷ level ∷ []

unfoldable pub switch_page : List ℕ
switch_page = 2 ∷ []
