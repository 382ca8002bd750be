-- ===== src/Server/Grading/Marked.antt =====
-- Server/server.cpp: what `mark` and `writeComment` write, and `checkScoreAndComment` reads.
use student_management_syste.Prelude.{
  ℕ, subst, Option-cases, inl, inr, ◌-◌, ◌<◌, ◌≤◌, ◌≡◌, ◌≢◌, ◌∙◌, refl, arith, true, some, [], ◌∷◌,
  ◌++◌, List, Bytes, ne→==, le→ltb, length, length-drop, take, drop, codes,
}
use student_management_syste.Snapshot.{minus_one}
use student_management_syste.System.{Os}
use student_management_syste.Memory.{c_string}
use student_management_syste.Memory.Laws.{no_nul}
use student_management_syste.Memory.{is_format}
use student_management_syste.Memory.Clean.{
  no_nul-append, no_nul-drop, no_nul-take, c_string-no_nul, is_format-append, is_format-blanks,
}
use student_management_syste.Path.Walked.{path_of}
use student_management_syste.File.Content.{Block, block_at}
use student_management_syste.File.Content.Kept.{IsPlainFile, CanRead, CanWrite}
use student_management_syste.Server.Score.{is_score_valid}
use student_management_syste.Server.Session.{
  outside, as_writer, as_reader, done, ◌>>=◌, after, lift, recv_msg, receive_from, texts, read_text,
}
use student_management_syste.Server.Homework.{score_file}
use student_management_syste.Server.Homework.Stored.{
  holding, Sees, IsLock, writer, for_submission-found, read_text-done, put_text-done, reply-done,
  writing-done, reading-done, written, Sees-written, read_text-written,
}
use student_management_syste.Server.Homework.Stored
use student_management_syste.Server.Grading.{spaces_for, put_mark, mark, check_score_and_comment}

-- The file of a student's score, which holds the text `old`, one that can be printed as a format.
pub record HasScore (course name student old : Bytes) (q : ℕ) (os : Os) : Type 0 where
  pub plain : IsPlainFile q os
  pub can_read : CanRead 0 (path_of (score_file course name student)) q os
  pub can_write : CanWrite 0 (path_of (score_file course name student)) q os
  pub holds : texts (block_at os.image.block_mem (os.image.inode_mem q).block_id ∷ []) ≡ some old
  pub prints : is_format old ≡ true

-- The file after a mark: the first ten characters are the mark.
abbrev pub marked : Bytes → Bytes → Bytes
marked score old =
    codes "Score: " ++ (take (3 - length score) (codes "   ") ++ (score ++ drop 10 old))

abbrev pub mark_command : Bytes → Bytes → Bytes → Bytes
mark_command course name student =
    codes "Mark "
    ++ (student
        ++ (codes "'s homework " ++ (name ++ (codes " in course " ++ (course ++ codes ".")))))

spaces_for-short :
    (score : Bytes)
    → length score ≤ 3
    → spaces_for score ≡ some (take (3 - length score) (codes "   "))
unfolding spaces_for
spaces_for-short score l = rw (le→ltb 3 (length score) l) refl

module _ (course name student old : Bytes) (q : ℕ) (os : Os)
    (f : HasScore course name student old q os) where
  abbrev pub after_mark : Bytes → Os
  after_mark score = written q (marked score old) (mark_command course name student) os

  put_mark-done :
      (score : Bytes) (inbox outbox : List Bytes)
      → length score ≤ 3
      → put_mark course name student score (holding as_writer os inbox outbox)
        ≡ done (codes "Successfully marking!") (holding as_writer (after_mark score) inbox outbox)
  unfolding put_mark ◌>>=◌ after lift
  put_mark-done score inbox outbox l =
      rw
        (
          read_text-done (score_file course name student) q os inbox outbox f.plain old writer
              f.can_read f.holds f.prints,
          spaces_for-short score l,
          put_text-done (score_file course name student) q os inbox outbox f.plain
              (marked score old) f.can_write,
        )
        (reply-done _ _ _ inbox outbox)

  pub mark-done :
      (user number : ℕ) (score : Bytes) (rest outbox : List Bytes)
      → Sees user course name student os
      → is_score_valid score ≡ some number
      → number ≢ minus_one
      → length score ≤ 3
      → mark user (holding outside os (course ∷ name ∷ student ∷ score ∷ rest) outbox)
        ≡ done (codes "Successfully marking!") (holding outside (after_mark score) rest outbox)
  unfolding mark ◌>>=◌ after lift recv_msg receive_from
  mark-done user number score rest outbox v e h l =
      rw (e, ne→== number minus_one h)
        (writing-done _ _ os (after_mark score) rest outbox (
          for_submission-found user course name student _ os rest outbox v writer
          ∙ put_mark-done score rest outbox l))

pub check_score_and_comment-done :
    (user : ℕ) (course name student text : Bytes) (os : Os) (rest outbox : List Bytes)
    → Sees user course name student os
    → read_text (score_file course name student) (holding as_reader os rest outbox)
      ≡ done text (holding as_reader os rest outbox)
    → check_score_and_comment user (holding outside os (course ∷ name ∷ student ∷ rest) outbox)
      ≡ done text (holding outside os rest outbox)
unfolding check_score_and_comment ◌>>=◌ after recv_msg receive_from
check_score_and_comment-done user course name student text os rest outbox v e =
    reading-done _ _ os os rest outbox
      (for_submission-found user course name student _ os rest outbox v Stored.reader ∙ e)

-- The text of a block has no NUL, and a mark adds none; nor does it make a longer text longer.
pub texts-no_nul : (b : Block) (t : Bytes) → texts (b ∷ []) ≡ some t → no_nul t ≡ true
unfolding texts
texts-no_nul b t e = elim (Option-cases (c_string 2048 b 0)) [
  | inl n ↦ absurd (ground (arith, e, n))
  | inr (r, p) ↦
      let k : r ++ [] ≡ t = ground (arith, e, p) in
      subst (λ u. no_nul u ≡ true) k (no_nul-append r [] (c_string-no_nul 2048 b 0 r p) refl)
]

pub marked-no_nul :
    (score old : Bytes)
    → length score ≤ 3
    → no_nul score ≡ true
    → no_nul old ≡ true
    → no_nul (marked score old) ≡ true
marked-no_nul score old l s o =
    let blanks = take (3 - length score) (codes "   ") in
    no_nul-append (codes "Score: ") (blanks ++ (score ++ drop 10 old)) refl (
      no_nul-append blanks (score ++ drop 10 old)
        (no_nul-take (3 - length score) (codes "   ") refl)
        (no_nul-append score (drop 10 old) s (no_nul-drop 10 old o)))

pub length-marked :
    (score old : Bytes) → length score ≤ 3 → length old < 2047 → length (marked score old) < 2047
length-marked [] old l h = omega (arith, length-drop 10 old, h)
length-marked (a ∷ []) old l h = omega (arith, length-drop 10 old, h)
length-marked (a ∷ b ∷ []) old l h = omega (arith, length-drop 10 old, h)
length-marked (a ∷ b ∷ c ∷ []) old l h = omega (arith, length-drop 10 old, h)
length-marked (a ∷ b ∷ c ∷ d ∷ s) old l h = absurd (omega (arith, l))

-- A mark that can be printed keeps the text such.
pub marked-prints :
    (score old : Bytes)
    → is_format score ≡ true
    → is_format (drop 10 old) ≡ true
    → is_format (marked score old) ≡ true
marked-prints score old s o =
    let blanks = take (3 - length score) (codes "   ") in
    is_format-append (codes "Score: ") (blanks ++ (score ++ drop 10 old)) refl (
      is_format-append blanks (score ++ drop 10 old) (is_format-blanks (3 - length score))
        (is_format-append score (drop 10 old) s o))

-- If a user who sees a student's submission marks it with a valid score of at most three characters,
-- none of them a NUL, and the score's file is plain, has its own block, holds fewer than 2047 bytes,
-- and may be read and written by user 0, and if what was in the file, what is in it behind the first
-- ten characters, and the score can be printed as formats, then `mark` succeeds, and
-- `checkScoreAndComment` then shows to any user who saw the submission before the text of old with
-- the mark in place of its first ten characters. Both receive their arguments, leave what is behind
-- them, and hold no lock in the end.
pub check_score_and_comment-mark :
    (course name student old : Bytes) (q : ℕ) (os : Os)
    → HasScore course name student old q os
    → length old < 2047
    → (user number : ℕ) (score : Bytes) → Sees user course name student os
    → is_score_valid score ≡ some number
    → number ≢ minus_one
    → length score ≤ 3
    → no_nul score ≡ true
    → is_format score ≡ true
    → is_format (drop 10 old) ≡ true
    → (reader : ℕ) → Sees reader course name student os
    → (rest rest' outbox : List Bytes)
    → (os' : Os) × (mark user (holding outside os (course ∷ name ∷ student ∷ score ∷ rest) outbox)
        ≡ done (codes "Successfully marking!") (holding outside os' rest outbox))
      × (check_score_and_comment reader
            (holding outside os' (course ∷ name ∷ student ∷ rest') outbox)
          ≡ done (marked score old) (holding outside os' rest' outbox))
check_score_and_comment-mark course name student old q os f l user number score v e h k s a b reader
      u rest rest' outbox =
    let text = marked score old in
    let short = length-marked score old k l in
    let clean = marked-no_nul score old k s (texts-no_nul _ old f.holds) in
    let command = mark_command course name student in
    (
      written q text command os,
      mark-done course name student old q os f user number score rest outbox v e h k,
      check_score_and_comment-done reader course name student text (written q text command os) rest'
          outbox (Sees-written q text command os f.plain short reader course name student u)
          (read_text-written q text command os f.plain short (score_file course name student) rest'
            outbox Stored.reader f.can_read clean (marked-prints score old a b)),
    )
