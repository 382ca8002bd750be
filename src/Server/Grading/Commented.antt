-- ===== src/Server/Grading/Commented.antt =====
-- Server/server.cpp: a mark and then a comment, by `mark` and `writeComment`, as
-- `checkScoreAndComment` shows them.
use student_management_syste.Prelude.{
  ℕ, ◌-◌, ◌<◌, ◌≤◌, ◌≡◌, ◌≢◌, ◌∙◌, refl, ap, arith, true, false, some, List, [], ◌∷◌, ◌++◌, Bytes,
  bytes_eq, length, take, drop, codes, length-append,
}
use student_management_syste.Snapshot.{minus_one}
use student_management_syste.System.{Os}
use student_management_syste.Memory.Laws.{no_nul}
use student_management_syste.Memory.{is_format}
use student_management_syste.Memory.Clean.{
  is_format-append, is_format-blanks, no_nul-append, no_nul-take,
}
use student_management_syste.File.Content.Kept.{
  IsPlainFile-rewritten, CanRead-rewritten, CanWrite-rewritten,
}
use student_management_syste.Server.Score.{is_score_valid}
use student_management_syste.Server.Session.{
  outside, as_writer, done, ◌>>=◌, after, recv_msg, receive_from,
}
use student_management_syste.Server.Session.Reread.{block_rewritten}
use student_management_syste.Server.Homework.{score_file}
use student_management_syste.Server.Homework.Stored.{
  holding, Sees, writer, for_submission-found, read_text-done, put_text-done, reply-done,
  writing-done, written, written-image, Sees-written,
}
use student_management_syste.Server.Homework.Stored
use student_management_syste.Server.Grading.{
  put_comment, write_comment, mark, check_score_and_comment,
}
use student_management_syste.Server.Grading.Marked.{
  HasScore, marked, mark_command, mark-done, check_score_and_comment-done, marked-no_nul,
  marked-prints, length-marked, texts-no_nul,
}

-- The file after a comment: behind its first ten characters.
abbrev pub commented : Bytes → Bytes → Bytes
commented content old = take 10 old ++ (codes "\n" ++ (codes "Comment:\n" ++ content))

-- A mark of at most three characters, as the first ten of the file.
abbrev pub score_line : Bytes → Bytes
score_line score = codes "Score: " ++ (take (3 - length score) (codes "   ") ++ score)

abbrev comment_command : Bytes → Bytes → Bytes → Bytes
comment_command course name student =
    codes "Write command to "
    ++ (student
        ++ (codes "'s homework " ++ (name ++ (codes " in course " ++ (course ++ codes ".")))))

-- The file of a score is such after a text was written to it.
HasScore-written :
    (course name student old content command : Bytes) (q : ℕ) (os : Os)
    → HasScore course name student old q os
    → length content < 2047
    → no_nul content ≡ true
    → is_format content ≡ true
    → HasScore course name student content q (written q content command os)
HasScore-written course name student old content command q os f l n p =
    let os' = written q content command os in
    let e = written-image q content command os f.plain l in
    record {
      plain = IsPlainFile-rewritten q content os os' f.plain l e;
      can_read = CanRead-rewritten q content os os' f.plain l e 0 q _ f.can_read;
      can_write = CanWrite-rewritten q content os os' f.plain l e 0 q _ f.can_write;
      holds = block_rewritten q content os os' f.plain l n e;
      prints = p;
    }

module _ (course name student old : Bytes) (q : ℕ) (os : Os)
    (f : HasScore course name student old q os) where
  abbrev after_comment : Bytes → Os
  after_comment content = written q (commented content old) (comment_command course name student) os

  put_comment-done :
      (content : Bytes) (inbox outbox : List Bytes)
      → put_comment course name student content (holding as_writer os inbox outbox)
        ≡ done
            (codes "Successfully writing comment!")
            (holding as_writer (after_comment content) inbox outbox)
  unfolding put_comment ◌>>=◌ after
  put_comment-done content inbox outbox =
      rw
        (
          read_text-done (score_file course name student) q os inbox outbox f.plain old writer
              f.can_read f.holds f.prints,
          put_text-done (score_file course name student) q os inbox outbox f.plain
              (commented content old) f.can_write,
        )
        (reply-done _ _ _ inbox outbox)

  write_comment-done :
      (user : ℕ) (option content : Bytes) (rest outbox : List Bytes)
      → Sees user course name student os
      → bytes_eq option (codes "1") ≡ false
      → write_comment user
          (holding outside os (course ∷ name ∷ student ∷ option ∷ content ∷ rest) outbox)
        ≡ done
            (codes "Successfully writing comment!")
            (holding outside (after_comment content) rest outbox)
  unfolding write_comment ◌>>=◌ after recv_msg receive_from
  write_comment-done user option content rest outbox v e = rw e (
      writing-done _ _ os (after_comment content) rest outbox (
        for_submission-found user course name student _ os rest outbox v writer
        ∙ put_comment-done content rest outbox))

  check_score_and_comment-shows :
      (user : ℕ) (rest outbox : List Bytes)
      → Sees user course name student os
      → check_score_and_comment user (holding outside os (course ∷ name ∷ student ∷ rest) outbox)
        ≡ done old (holding outside os rest outbox)
  check_score_and_comment-shows user rest outbox v =
      check_score_and_comment-done user course name student old os rest outbox v (
        read_text-done (score_file course name student) q os rest outbox f.plain old Stored.reader
          f.can_read f.holds f.prints)

-- A comment keeps the mark.
take-marked : (score old : Bytes) → length score ≤ 3 → take 10 (marked score old) ≡ score_line score
take-marked [] old l = refl
take-marked (a ∷ []) old l = refl
take-marked (a ∷ b ∷ []) old l = refl
take-marked (a ∷ b ∷ c ∷ []) old l = refl
take-marked (a ∷ b ∷ c ∷ d ∷ s) old l = absurd (omega (arith, l))

length-score_line : (score : Bytes) → length score ≤ 3 → length (score_line score) ≡ 10
length-score_line [] l = refl
length-score_line (a ∷ []) l = refl
length-score_line (a ∷ b ∷ []) l = refl
length-score_line (a ∷ b ∷ c ∷ []) l = refl
length-score_line (a ∷ b ∷ c ∷ d ∷ s) l = absurd (omega (arith, l))

length-commented :
    (score content old : Bytes)
    → length score ≤ 3
    → length content < 2027
    → length (commented content (marked score old)) < 2047
length-commented score content old l h =
    let e =
      ap (λ (line : Bytes). length (line ++ (codes "\nComment:\n" ++ content)))
        (take-marked score old l) in
    omega (
      arith,
      e,
      length-append (score_line score) (codes "\nComment:\n" ++ content),
      length-score_line score l,
      length-append (codes "\nComment:\n") content,
      h,
    )

commented-no_nul :
    (content old : Bytes)
    → no_nul content ≡ true
    → no_nul old ≡ true
    → no_nul (commented content old) ≡ true
commented-no_nul content old c o =
    no_nul-append (take 10 old) (codes "\n" ++ (codes "Comment:\n" ++ content))
      (no_nul-take 10 old o)
      (no_nul-append (codes "\n") (codes "Comment:\n" ++ content) refl
        (no_nul-append (codes "Comment:\n") content refl c))

line-prints :
    (score content : Bytes)
    → is_format score ≡ true
    → is_format content ≡ true
    → is_format (score_line score ++ (codes "\nComment:\n" ++ content)) ≡ true
line-prints score content p q =
    let blanks = take (3 - length score) (codes "   ") in
    is_format-append (score_line score) (codes "\nComment:\n" ++ content)
      (is_format-append (codes "Score: ") (blanks ++ score) refl
        (is_format-append blanks score (is_format-blanks (3 - length score)) p))
      (is_format-append (codes "\nComment:\n") content refl q)

-- If a user who sees a student's submission marks it with a valid score of at most three characters,
-- and another who sees it then comments it with a message of fewer than 2027 bytes, neither of them
-- with a NUL, and the score's file is plain, has its own block, holds fewer than 2047 bytes, and may
-- be read and written by user 0, and if what was in the file, what is in it behind the first ten
-- characters, the score and the message can be printed as formats, then both succeed, and
-- `checkScoreAndComment` shows to any user who saw the submission before the mark, padded to three
-- characters, and the comment, and nothing of what the file held before. All receive their arguments,
-- leave what is behind them, and hold no lock in the end.
pub check_score_and_comment-write_comment :
    (course name student old : Bytes) (q : ℕ) (os : Os)
    → HasScore course name student old q os
    → length old < 2047
    → (user number : ℕ) (score : Bytes) → Sees user course name student os
    → is_score_valid score ≡ some number
    → number ≢ minus_one
    → length score ≤ 3
    → no_nul score ≡ true
    → is_format score ≡ true
    → is_format (drop 10 old) ≡ true
    → (author : ℕ) (option content : Bytes) → Sees author course name student os
    → bytes_eq option (codes "1") ≡ false
    → length content < 2027
    → no_nul content ≡ true
    → is_format content ≡ true
    → (reader : ℕ) → Sees reader course name student os
    → (rest rest' rest'' outbox : List Bytes)
    → (os' os'' : Os) × (mark user
          (holding outside os (course ∷ name ∷ student ∷ score ∷ rest) outbox)
        ≡ done (codes "Successfully marking!") (holding outside os' rest outbox))
      × (write_comment author
            (holding outside os' (course ∷ name ∷ student ∷ option ∷ content ∷ rest') outbox)
          ≡ done (codes "Successfully writing comment!") (holding outside os'' rest' outbox))
      × (check_score_and_comment reader
            (holding outside os'' (course ∷ name ∷ student ∷ rest'') outbox)
          ≡ done
              (score_line score ++ (codes "\nComment:\n" ++ content))
              (holding outside os'' rest'' outbox))
check_score_and_comment-write_comment course name student old q os f l user number score v e h k s p
      p' author option content a o m n p'' reader u rest rest' rest'' outbox =
    let old_clean = texts-no_nul _ old f.holds in
    let text = marked score old in
    let command = mark_command course name student in
    let text_l = length-marked score old k l in
    let text_n = marked-no_nul score old k s old_clean in
    let os' = written q text command os in
    let f' =
      HasScore-written course name student old text command q os f text_l text_n
        (marked-prints score old p p') in
    let see = Sees-written q text command os f.plain text_l in
    let text' = commented content text in
    let command' = comment_command course name student in
    let l' = length-commented score content old k m in
    let os'' = written q text' command' os' in
    let shown : text' ≡ score_line score ++ (codes "\nComment:\n" ++ content) =
      ap (λ (line : Bytes). line ++ (codes "\nComment:\n" ++ content)) (take-marked score old k) in
    let f'' =
      HasScore-written course name student text text' command' q os' f' l'
        (commented-no_nul content text n text_n)
        (ap is_format shown ∙ line-prints score content p p'') in
    let u'' =
      Sees-written q text' command' os' f'.plain l' reader course name student
        (see reader course name student u) in
    (
      os',
      os'',
      mark-done course name student old q os f user number score rest outbox v e h k,
      write_comment-done course name student text q os' f' author option content rest' outbox
          (see author course name student a) o,
      check_score_and_comment-shows course name student text' q os'' f'' reader rest'' outbox u''
          ∙ ap (λ (t : Bytes). done t (holding outside os'' rest'' outbox)) shown,
    )
