-- ===== src/Server/Homework/Stored.antt =====
-- Server/server.cpp: under a lock, what a handler writes to a file and what a handler reads from it.
use student_management_syste.Prelude.{
  ℕ, ◌<◌, ◌≡◌, ◌∙◌, refl, arith, true, false, Option, none, some, List, [], ◌∷◌, Bytes, length,
}
use student_management_syste.System.{Os, write_system, write_snapshot, write_log}
use student_management_syste.Journal.{push_tag}
use student_management_syste.Memory.{is_format}
use student_management_syste.Memory.Laws.{no_nul}
use student_management_syste.Path.{check_path}
use student_management_syste.Path.Walked.{path_of}
use student_management_syste.Path.Frame.{check_path-frame}
use student_management_syste.File.Content.{block_at, read_file, write_content}
use student_management_syste.File.Content.Kept.{
  IsPlainFile, CanRead, CanWrite, rewritten, spared, write_content-plain, IsPlainFile-rewritten,
  CanRead-rewritten, read_file-plain, read_file-plain_percent, write_file-plain,
}
use student_management_syste.Server.Session.{
  Held, outside, as_reader, as_writer, Session, done, breaks, Act, pure, lift, look, look_if,
  change, change_if, changed, ◌>>=◌, after, print_log, if_directory, read_text, texts, reading,
  writing, down_reader, down_writer, up_reader, up_reader_if, up_writer, up_writer_if, move,
}
use student_management_syste.Server.Session.Reread.{block_rewritten, printed-texts}
use student_management_syste.Server.Homework.{
  put_text, reply, for_submission, no_course, no_homework,
}

-- A thread that holds a lock.
abbrev pub holding : Held → Os → List Bytes → List Bytes → Session
holding h os inbox outbox = record { os = os; held = h; inbox = inbox; outbox = outbox }

-- The directories of a course, of homework in it, and of a student's submission are such for the user.
pub record Sees (user : ℕ) (course name student : Bytes) (os : Os) : Type 0 where
  pub low : user < 64
  pub course_found : check_path user (path_of (course ∷ [])) os ≡ some 0
  pub homework_found : check_path user (path_of (course ∷ name ∷ [])) os ≡ some 0
  pub submission_found : check_path user (path_of (course ∷ name ∷ student ∷ [])) os ≡ some 0

-- The system after a command is logged.
abbrev pub logged : Bytes → Os → Os
logged command os = (write_system (push_tag command os)).1

pub logged-image : (command : Bytes) (os : Os) → (logged command os).image ≡ os.image
unfolding write_system push_tag write_snapshot write_log
logged-image command os = ground arith

pub data IsLock : Held → Type 0 where
  reader : IsLock as_reader
  writer : IsLock as_writer

-- A call that only reads, under either lock.
pub look-done :
    {A : Type 0} (f : Os → Option A) (a : A) {h : Held} (os : Os) (inbox outbox : List Bytes)
    → IsLock h
    → f os ≡ some a
    → look f (holding h os inbox outbox) ≡ done a (holding h os inbox outbox)
unfolding look look_if lift
look-done f a os inbox outbox reader e = rw e refl
look-done f a os inbox outbox writer e = rw e refl

look-breaks :
    {A : Type 0} (f : Os → Option A) {h : Held} (os : Os) (inbox outbox : List Bytes)
    → IsLock h
    → f os ≡ none
    → look f (holding h os inbox outbox) ≡ breaks
unfolding look look_if lift
look-breaks f os inbox outbox reader e = rw e refl
look-breaks f os inbox outbox writer e = rw e refl

pub if_directory-found :
    (user : ℕ) (path : List Bytes) (missing : Bytes) (found : Act Bytes) {h : Held} (os : Os)
    (inbox outbox : List Bytes)
    → IsLock h
    → check_path user (path_of path) os ≡ some 0
    → if_directory user path missing found (holding h os inbox outbox)
      ≡ found (holding h os inbox outbox)
unfolding if_directory ◌>>=◌ after
if_directory-found user path missing found os inbox outbox k e =
    rw (look-done (check_path user (path_of path)) 0 os inbox outbox k e) refl

module _ (user : ℕ) (course name student : Bytes) (found : Act Bytes) (os : Os)
    (inbox outbox : List Bytes) (v : Sees user course name student os) where
  pub for_submission-found :
      {h : Held}
      → IsLock h
      → for_submission user course name student found (holding h os inbox outbox)
        ≡ found (holding h os inbox outbox)
  unfolding for_submission
  for_submission-found k =
      if_directory-found user (course ∷ []) no_course _ os inbox outbox k v.course_found
      ∙ if_directory-found user (course ∷ name ∷ []) no_homework _ os inbox outbox k
          v.homework_found
      ∙ if_directory-found user (course ∷ name ∷ student ∷ []) _ found os inbox outbox k
          v.submission_found

module _ (path : List Bytes) (q : ℕ) (os : Os) (inbox outbox : List Bytes)
    (v : IsPlainFile q os) where
  -- The text of a plain file.
  pub read_text-done :
      (text : Bytes) {h : Held}
      → IsLock h
      → CanRead 0 (path_of path) q os
      → texts (block_at os.image.block_mem (os.image.inode_mem q).block_id ∷ []) ≡ some text
      → is_format text ≡ true
      → read_text path (holding h os inbox outbox) ≡ done text (holding h os inbox outbox)
  unfolding read_text ◌>>=◌ after lift
  read_text-done text k r e f =
      rw
        (
          look-done (read_file 0 (path_of path)) _ os inbox outbox k
              (read_file-plain 0 (path_of path) q os v r (printed-texts _ text e ∙ f)),
          e,
        )
        refl

  -- A text with a '%' that is not followed by another: the output of `readFile` is undefined.
  pub read_text-breaks :
      (text : Bytes) {h : Held}
      → IsLock h
      → CanRead 0 (path_of path) q os
      → texts (block_at os.image.block_mem (os.image.inode_mem q).block_id ∷ []) ≡ some text
      → is_format text ≡ false
      → read_text path (holding h os inbox outbox) ≡ breaks
  unfolding read_text ◌>>=◌ after lift
  read_text-breaks text k r e f =
      rw
        (look-breaks (read_file 0 (path_of path)) os inbox outbox k
          (read_file-plain_percent 0 (path_of path) q os v r (printed-texts _ text e ∙ f)))
        refl

  pub put_text-done :
      (content : Bytes)
      → CanWrite 0 (path_of path) q os
      → put_text path content (holding as_writer os inbox outbox)
        ≡ done tt (holding as_writer (write_content q content os).1 inbox outbox)
  unfolding put_text ◌>>=◌ after change change_if changed pure
  put_text-done content w = rw (write_file-plain 0 (path_of path) q os v content w) refl

pub reply-done :
    (command message : Bytes) (os : Os) (inbox outbox : List Bytes)
    → reply command message (holding as_writer os inbox outbox)
      ≡ done message (holding as_writer (logged command os) inbox outbox)
unfolding reply print_log ◌>>=◌ after change change_if changed pure
reply-done command message os inbox outbox = refl

-- The frames of the handlers.
module _ {A : Type 0} (work : Act A) (a : A) (os os' : Os) (inbox outbox : List Bytes) where
  pub writing-done :
      work (holding as_writer os inbox outbox) ≡ done a (holding as_writer os' inbox outbox)
      → writing work (holding outside os inbox outbox) ≡ done a (holding outside os' inbox outbox)
  unfolding writing ◌>>=◌ after down_writer up_writer up_writer_if move pure
  writing-done e = rw e refl

  pub reading-done :
      work (holding as_reader os inbox outbox) ≡ done a (holding as_reader os' inbox outbox)
      → reading work (holding outside os inbox outbox) ≡ done a (holding outside os' inbox outbox)
  unfolding reading ◌>>=◌ after down_reader up_reader up_reader_if move pure
  reading-done e = rw e refl

pub reading-breaks :
    {A : Type 0} (work : Act A) (os : Os) (inbox outbox : List Bytes)
    → work (holding as_reader os inbox outbox) ≡ breaks
    → reading work (holding outside os inbox outbox) ≡ breaks
unfolding reading ◌>>=◌ after down_reader move
reading-breaks work os inbox outbox e = rw e refl

abbrev pub written : ℕ → Bytes → Bytes → Os → Os
written q content command os = logged command (write_content q content os).1

-- What was seen before a file was written, and the command logged, is seen after.
module _ (q : ℕ) (content command : Bytes) (os : Os) (v : IsPlainFile q os)
    (l : length content < 2047) where
  pub written-image : (written q content command os).image ≡ rewritten q content os v.plain l
  written-image =
      logged-image command (write_content q content os).1
      ∙ (write_content-plain q content os v.plain l).1

  pub Sees-written :
      (user : ℕ) (course name student : Bytes)
      → Sees user course name student os
      → Sees user course name student (written q content command os)
  Sees-written user course name student c =
      let same =
        check_path-frame (os.image.inode_mem q).block_id os (written q content command os)
          (spared q content os (written q content command os) v l written-image) v.block user
          c.low in
      record {
        low = c.low;
        course_found = same (path_of (course ∷ [])) ∙ c.course_found;
        homework_found = same (path_of (course ∷ name ∷ [])) ∙ c.homework_found;
        submission_found = same (path_of (course ∷ name ∷ student ∷ [])) ∙ c.submission_found;
      }

  -- The text that was written is read back.
  pub read_text-written :
      (path : List Bytes) (inbox outbox : List Bytes) {h : Held}
      → IsLock h
      → CanRead 0 (path_of path) q os
      → no_nul content ≡ true
      → is_format content ≡ true
      → read_text path (holding h (written q content command os) inbox outbox)
        ≡ done content (holding h (written q content command os) inbox outbox)
  read_text-written path inbox outbox k r n f =
      read_text-done path q (written q content command os) inbox outbox
        (IsPlainFile-rewritten q content os (written q content command os) v l written-image)
        content k
        (CanRead-rewritten q content os (written q content command os) v l written-image 0 q
          (path_of path) r)
        (block_rewritten q content os (written q content command os) v l n written-image) f

  pub read_text-written_percent :
      (path : List Bytes) (inbox outbox : List Bytes) {h : Held}
      → IsLock h
      → CanRead 0 (path_of path) q os
      → no_nul content ≡ true
      → is_format content ≡ false
      → read_text path (holding h (written q content command os) inbox outbox) ≡ breaks
  read_text-written_percent path inbox outbox k r n =
      let os' = written q content command os in
      read_text-breaks path q os' inbox outbox
        (IsPlainFile-rewritten q content os os' v l written-image) content k
        (CanRead-rewritten q content os os' v l written-image 0 q (path_of path) r)
        (block_rewritten q content os os' v l n written-image)
