-- ===== src/Server/Homework/Submitted.antt =====
-- Server/server.cpp: what `submitHomework` writes where there is a submission, and `checkHomework`
-- reads.
use student_management_syste.Prelude.{
  ℕ, ◌<◌, ◌≡◌, ◌≢◌, ◌∙◌, refl, true, false, some, List, [], ◌∷◌, ◌++◌, Bytes, bytes_eq, ne→==,
  length, codes,
}
use student_management_syste.Snapshot.{minus_one}
use student_management_syste.System.{Os}
use student_management_syste.User.{get_user_id}
use student_management_syste.Memory.{is_format}
use student_management_syste.Memory.Laws.{no_nul}
use student_management_syste.Path.{check_path, get_owner, get_group}
use student_management_syste.Path.Walked.{path_of}
use student_management_syste.File.Content.Kept.{IsPlainFile, CanRead, CanWrite}
use student_management_syste.Server.Session.{
  Env, outside, as_writer, as_reader, done, breaks, ◌>>=◌, after, asks, recv_msg, receive_from,
  read_text,
}
use student_management_syste.Server.Homework.{
  submit_for, submit, submit_homework, no_course, no_homework,
}
use student_management_syste.Server.Homework.Stored.{
  holding, Sees, IsLock, writer, look-done, if_directory-found, for_submission-found, put_text-done,
  reply-done, writing-done, reading-done, reading-breaks, read_text-written_percent, written,
  Sees-written, read_text-written,
}
use student_management_syste.Server.Homework.Stored
use student_management_syste.Server.Grading.{check_homework}

abbrev pub homework_file : Bytes → Bytes → Bytes → List Bytes
homework_file course name student = course ∷ name ∷ student ∷ codes "_homework" ∷ []

abbrev submit_command : Bytes → Bytes → Bytes → Bytes
submit_command course name student =
    codes "Submit "
    ++ (student
        ++ (codes "'s homework to homework "
            ++ (name ++ (codes " in course " ++ (course ++ codes ".")))))

-- A student who is known, sees the submission, and whose file q holds the homework. The owner and
-- the group of the course are asked for, but not used where there is a submission.
pub record HasHomework (course name student : Bytes) (q : ℕ) (os : Os) : Type 0 where
  pub known : get_user_id 0 student os ≢ minus_one
  pub sees : Sees (get_user_id 0 student os) course name student os
  pub owner : ℕ
  pub group : ℕ
  pub owned : get_owner 0 (path_of (course ∷ [])) os ≡ some owner
  pub grouped : get_group 0 (path_of (course ∷ [])) os ≡ some group
  pub plain : IsPlainFile q os
  pub can_read : CanRead 0 (path_of (homework_file course name student)) q os
  pub can_write : CanWrite 0 (path_of (homework_file course name student)) q os

module _ (course name student : Bytes) (q : ℕ) (os : Os) (f : HasHomework course name student q os)
    (content : Bytes) (inbox outbox : List Bytes) where
  abbrev after_submit : Os
  after_submit = written q content (submit_command course name student) os

  submit_for-done :
      (e : Env)
      → submit_for e course name student content
          (get_user_id 0 student os)
          (holding as_writer os inbox outbox)
        ≡ done
            (codes "Successfully update homework content!")
            (holding as_writer after_submit inbox outbox)
  unfolding submit_for ◌>>=◌ after
  submit_for-done e =
      if_directory-found (get_user_id 0 student os) (course ∷ []) no_course _ os inbox outbox writer
        f.sees.course_found
      ∙ rw
          (
            look-done (get_owner 0 (path_of (course ∷ []))) f.owner os inbox outbox writer f.owned,
            look-done (get_group 0 (path_of (course ∷ []))) f.group os inbox outbox writer
                f.grouped,
          )
          (if_directory-found (get_user_id 0 student os) (course ∷ name ∷ []) no_homework _ os inbox
              outbox writer f.sees.homework_found
            ∙ rw
                (
                  look-done
                      (check_path (get_user_id 0 student os)
                        (path_of (course ∷ name ∷ student ∷ [])))
                      0 os inbox outbox writer f.sees.submission_found,
                  put_text-done (homework_file course name student) q os inbox outbox f.plain
                      content f.can_write,
                )
                (reply-done _ _ _ inbox outbox))

  submit-done :
      (e : Env)
      → submit e course name student content (holding as_writer os inbox outbox)
        ≡ done
            (codes "Successfully update homework content!")
            (holding as_writer after_submit inbox outbox)
  unfolding submit ◌>>=◌ after
  submit-done e =
      rw
        (
          look-done (asks (get_user_id 0 student)) (get_user_id 0 student os) os inbox outbox writer
              refl,
          ne→== (get_user_id 0 student os) minus_one f.known,
        )
        (submit_for-done e)

  submit_homework-done :
      (e : Env) (user : ℕ) (option : Bytes)
      → bytes_eq option (codes "1") ≡ false
      → submit_homework e user
          (holding outside os (course ∷ name ∷ student ∷ option ∷ content ∷ inbox) outbox)
        ≡ done
            (codes "Successfully update homework content!")
            (holding outside after_submit inbox outbox)
  unfolding submit_homework ◌>>=◌ after recv_msg receive_from
  submit_homework-done e user option o =
      rw o (writing-done _ _ os after_submit inbox outbox (submit-done e))

check_homework-done :
    (user : ℕ) (course name student text : Bytes) (os : Os) (rest outbox : List Bytes)
    → Sees user course name student os
    → read_text (homework_file course name student) (holding as_reader os rest outbox)
      ≡ done text (holding as_reader os rest outbox)
    → check_homework user (holding outside os (course ∷ name ∷ student ∷ rest) outbox)
      ≡ done text (holding outside os rest outbox)
unfolding check_homework ◌>>=◌ after recv_msg receive_from
check_homework-done user course name student text os rest outbox v e =
    reading-done _ _ os os rest outbox
      (for_submission-found user course name student _ os rest outbox v Stored.reader ∙ e)

-- If a student is known, has a submission and sees it, and the file of the homework is plain, with a
-- block of its own, and user 0 may read and write it, then whoever submits in the name of the student
-- a message of fewer than 2047 bytes without a NUL, in which each '%' is followed by another, updates
-- the homework, and `checkHomework` shows this text to any user who saw the submission before. Both
-- receive their arguments, leave what is behind them, and hold no lock in the end.
pub check_homework-submit_homework :
    (course name student : Bytes) (q : ℕ) (os : Os)
    → HasHomework course name student q os
    → (e : Env) (user : ℕ) (option content : Bytes) → bytes_eq option (codes "1") ≡ false
    → length content < 2047
    → no_nul content ≡ true
    → is_format content ≡ true
    → (reader : ℕ) → Sees reader course name student os
    → (rest rest' outbox : List Bytes)
    → (os' : Os) × (submit_homework e user
          (holding outside os (course ∷ name ∷ student ∷ option ∷ content ∷ rest) outbox)
        ≡ done (codes "Successfully update homework content!") (holding outside os' rest outbox))
      × (check_homework reader (holding outside os' (course ∷ name ∷ student ∷ rest') outbox)
          ≡ done content (holding outside os' rest' outbox))
check_homework-submit_homework course name student q os f e user option content o l n p reader u
      rest rest' outbox =
    let command = submit_command course name student in
    (
      written q content command os,
      submit_homework-done course name student q os f content rest outbox e user option o,
      check_homework-done reader course name student content (written q content command os) rest'
          outbox (Sees-written q content command os f.plain l reader course name student u)
          (read_text-written q content command os f.plain l (homework_file course name student)
            rest' outbox Stored.reader f.can_read n p),
    )

check_homework-breaks :
    (user : ℕ) (course name student : Bytes) (os : Os) (rest outbox : List Bytes)
    → Sees user course name student os
    → read_text (homework_file course name student) (holding as_reader os rest outbox) ≡ breaks
    → check_homework user (holding outside os (course ∷ name ∷ student ∷ rest) outbox) ≡ breaks
unfolding check_homework ◌>>=◌ after recv_msg receive_from
check_homework-breaks user course name student os rest outbox v e =
    reading-breaks _ os rest outbox
      (for_submission-found user course name student _ os rest outbox v Stored.reader ∙ e)

-- Under the conditions of `check_homework-submit_homework`, but with a '%' that is not followed by
-- another, the text is stored as well, with the message that the homework is updated; but then
-- `checkHomework`, which prints the text as a format, is undefined for every user who saw the
-- submission before.
pub check_homework-submit_homework_percent :
    (course name student : Bytes) (q : ℕ) (os : Os)
    → HasHomework course name student q os
    → (e : Env) (user : ℕ) (option content : Bytes) → bytes_eq option (codes "1") ≡ false
    → length content < 2047
    → no_nul content ≡ true
    → is_format content ≡ false
    → (reader : ℕ) → Sees reader course name student os
    → (rest rest' outbox : List Bytes)
    → (os' : Os) × (submit_homework e user
          (holding outside os (course ∷ name ∷ student ∷ option ∷ content ∷ rest) outbox)
        ≡ done (codes "Successfully update homework content!") (holding outside os' rest outbox))
      × (check_homework reader (holding outside os' (course ∷ name ∷ student ∷ rest') outbox)
          ≡ breaks)
check_homework-submit_homework_percent course name student q os f e user option content o l n p
      reader u rest rest' outbox =
    let command = submit_command course name student in
    (
      written q content command os,
      submit_homework-done course name student q os f content rest outbox e user option o,
      check_homework-breaks reader course name student (written q content command os) rest' outbox
          (Sees-written q content command os f.plain l reader course name student u)
          (read_text-written_percent q content command os f.plain l
            (homework_file course name student) rest' outbox Stored.reader f.can_read n p),
    )
