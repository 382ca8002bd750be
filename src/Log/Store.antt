-- ===== src/Log/Store.antt =====
-- The file of OS/Log.cpp: the commands that were written are read back.
use student_management_syste.Prelude.{
  ◌≡◌, ◌∙◌, refl, ap, Bool, true, false, [], ◌∷◌, ◌++◌, arith, Bytes, ◌==◌, ◌&&◌, not,
}
use student_management_syste.Log.{
  Log, newline, push, pop, pop_back, write_to_file, read_lines, read_from_file,
}

-- No byte of the text is a line feed.
abbrev one_line : Bytes → Bool
one_line [] = true
one_line (b ∷ bs) = not (b == newline) && one_line bs

abbrev pub AllOneLine : Log → Type 0
AllOneLine [] = Unit {0}
AllOneLine (c ∷ cs) = (one_line c ≡ true) × AllOneLine cs

read_lines-line :
    (line : Bytes → Bytes) (started : Bool) (c rest : Bytes)
    → one_line c ≡ true
    → read_lines line started (c ++ (newline ∷ rest)) ≡ line c ∷ read_lines (λ r. r) false rest
unfolding read_lines
read_lines-line line started [] rest h = refl
read_lines-line line started (b ∷ bs) rest h =
    ground (arith, read_lines-line (λ r. line (b ∷ r)) true bs rest)

-- A log whose commands hold no line feed is read back whole and in order from the file that it
-- was written to.
pub read_from_file-write_to_file_lines :
    (log : Log) → AllOneLine log → read_from_file (write_to_file log) ≡ log
unfolding read_from_file write_to_file
read_from_file-write_to_file_lines [] h = refl
read_from_file-write_to_file_lines (c ∷ cs) h =
    read_lines-line (λ r. r) false c (write_to_file cs) h.0
    ∙ ap (◌∷◌ c) (read_from_file-write_to_file_lines cs h.1)

pub pop_back-push : (log : Log) (c : Bytes) → pop_back (push log c) ≡ log
unfolding pop_back push
pop_back-push [] c = refl
pop_back-push (d ∷ []) c = refl
pop_back-push (d ∷ e ∷ ds) c = ap (◌∷◌ d) (pop_back-push (e ∷ ds) c)

-- Popping takes off the command that was pushed last.
pub pop-push : (log : Log) (c : Bytes) → pop (push log c) ≡ (true, log)
unfolding pop push
pop-push [] c = refl
pop-push (d ∷ ds) c = ap (λ l. (true, l)) (pop_back-push (d ∷ ds) c)
