-- ===== src/Log.antt =====
-- OS/Log.h and OS/Log.cpp: the list of the commands that were carried out, and its file. Every
-- change writes the whole file; the functions here give the new list, and `write_to_file` the file.
pub mod Store
use student_management_syste.Prelude.{
  ℕ, Bool, true, false, List, [], ◌∷◌, ◌++◌, Bytes, codes, ◌==◌, if◌then◌else◌,
}

-- `commandStack`, oldest first.
abbrev pub Log : Type 0
Log = List Bytes

abbrev pub newline : ℕ
newline = 10

unfoldable pub init : Log
init = []

unfoldable pub push : Log → Bytes → Log
push log command = log ++ command ∷ []

-- `pop_back`
unfoldable pub pop_back : Log → Log
pop_back [] = []
pop_back (c ∷ []) = []
pop_back (c ∷ d ∷ cs) = c ∷ pop_back (d ∷ cs)

unfoldable pub pop : Log → Bool × Log
unfolding pop_back
pop [] = (false, [])
pop (c ∷ cs) = (true, pop_back (c ∷ cs))

-- The bytes that `writeToFile` writes.
unfoldable pub write_to_file : Log → Bytes
write_to_file [] = []
write_to_file (c ∷ cs) = c ++ (newline ∷ write_to_file cs)

-- `getline` until the end of the file: `line` puts the bytes of the line so far in front.
unfoldable pub read_lines : (Bytes → Bytes) → Bool → Bytes → Log
read_lines line started [] = if started then line [] ∷ [] else []
read_lines line started (b ∷ bs) =
    let ended = line [] ∷ read_lines (λ r. r) false bs in
    let longer = read_lines (λ r. line (b ∷ r)) true bs in if b == newline then ended else longer

unfoldable pub read_from_file : Bytes → Log
unfolding read_lines
read_from_file file = read_lines (λ r. r) false file

unfoldable pub check_log : Log → Bytes
unfolding write_to_file
check_log log = codes "Log: \n" ++ write_to_file log
