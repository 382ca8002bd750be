-- ===== src/Tests/Submission.antt =====
-- A course "c" with homework "h", a submission of "s", and its score: i-nodes 1 to 4 in blocks 5 to 8
-- behind the root in block 4. User 0 is an administrator.
use student_management_syste.Prelude.{
  ℕ, ◌≡◌, ◌*◌, ◌+◌, refl, true, false, some, [], ◌∷◌, Bytes, ◌==◌, List, if◌then◌else◌, update,
  codes, arith,
}
use student_management_syste.Snapshot.{entry_at, Inode, zero_inode}
use student_management_syste.System.{Os}
use student_management_syste.Memory.{Memory, strcpy, c_str, name_eq, int_at, short_at, c_string}
use student_management_syste.Layout.{is_admin}
use student_management_syste.Loop.{first}
use student_management_syste.Permission.{check_read_permission, check_write_permission}
use student_management_syste.Path.{
  strtok, tokens, walk, find_entry, inode_id_at, get_inode_id, get_read_inode_id,
  get_write_inode_id, check_path,
}
use student_management_syste.Path.Walked.{path_of}
use student_management_syste.File.Content.{Block, block_at, read_file, write_file}
use student_management_syste.File.Content.Kept.{IsPlainFile, CanRead, CanWrite}
use student_management_syste.Server.Homework.{score_file}
use student_management_syste.Server.Homework.Stored.{holding, Sees}
use student_management_syste.Server.Session.{texts, outside, done}
use student_management_syste.Server.Session.Revoked.{revoke-write_file}
use student_management_syste.Snapshot.Shape.{init-IsShaped}
use student_management_syste.Journal.{push_tag, is_saved, revoke}
use student_management_syste.Server.Session.Reread.{read_file-write_file}
use student_management_syste.Server.Score.{is_score_valid}
use student_management_syste.Server.Grading.{mark, write_comment, check_score_and_comment}
use student_management_syste.Server.Grading.Commented.{check_score_and_comment-write_comment}
use student_management_syste.Server.Grading.Marked.{HasScore}
use student_management_syste.Tests.Path.{tree}

abbrev number_at : Memory → ℕ → ℕ → Memory
number_at m b i = update m (2048 * b + 1792) i

abbrev disk : Memory
disk =
    number_at
      (number_at
        (number_at
          (number_at
            (strcpy
              (strcpy
                (strcpy (strcpy (strcpy (λ a. 0) 8192 (codes "c")) 10240 (codes "h")) 12288
                  (codes "s"))
                14336 (codes "_score"))
              16384 (codes "Score:    \nComment:\n"))
            4 1)
          5 2)
        6 3)
      7 4

abbrev nodes : ℕ → Inode
nodes i =
    if i == 4
    then record zero_inode { block_id = 8; file_type = 1; inode_number = 4 }
    else record zero_inode {
      block_id =
          if i == 0 then 4 else if i == 1 then 5 else if i == 2 then 6 else if i == 3 then 7 else 0;
    }

abbrev pub school : Os
school = record tree {
  image = record { inode_mem = nodes; block_mem = disk; block_bitmap = λ b. true };
}

score_plain : IsPlainFile 4 school
score_plain = record {
  known = λ p. absurd (omega (arith, p));
  plain = refl;
  block = record {
    behind = omega arith;
    root = λ p. absurd (omega (arith, p));
    others = λ r k z. ground (arith, k, z);
  };
}

abbrev score_path : Bytes
score_path = path_of (score_file (codes "c") (codes "h") (codes "s"))

score_read : CanRead 0 score_path 4 school
unfolding get_read_inode_id get_inode_id check_read_permission tokens c_str strtok walk find_entry
    first name_eq strcpy is_admin short_at inode_id_at int_at
score_read = record { low = omega arith; leads = refl; allowed = refl }

score_write : CanWrite 0 score_path 4 school
unfolding get_write_inode_id get_inode_id check_write_permission tokens c_str strtok walk find_entry
    first name_eq strcpy is_admin short_at inode_id_at int_at
score_write = record { low = omega arith; leads = refl; allowed = refl }

all_seen : Sees 0 (codes "c") (codes "h") (codes "s") school
unfolding check_path get_read_inode_id get_inode_id check_read_permission tokens c_str strtok walk
    find_entry first name_eq strcpy is_admin short_at inode_id_at int_at
all_seen = record {
  low = omega arith;
  course_found = refl;
  homework_found = refl;
  submission_found = refl;
}

score_text :
    texts (block_at school.image.block_mem (school.image.inode_mem 4).block_id ∷ [])
    ≡ some (codes "Score:    \nComment:\n")
unfolding texts block_at c_string strcpy c_str
score_text = refl

has_score : HasScore (codes "c") (codes "h") (codes "s") (codes "Score:    \nComment:\n") 4 school
has_score = record {
  plain = score_plain;
  can_read = score_read;
  can_write = score_write;
  holds = score_text;
  prints = refl;
}

read_file-write_file_example :
    (t : Os) × (write_file 0 score_path (codes "Well done") school ≡ some (true, t))
    × (blocks : List Block) × (read_file 0 score_path t ≡ some blocks)
    × (texts blocks ≡ some (codes "Well done"))
read_file-write_file_example =
    read_file-write_file 0 0 4 score_path (codes "Well done") school score_plain score_write
      score_read refl refl (omega arith)

valid_score : is_score_valid (codes "95") ≡ some 95
unfolding is_score_valid
valid_score = refl

check_score_and_comment-write_comment_example :
    (os' os'' : Os) × (mark 0
        (holding outside school (codes "c" ∷ codes "h" ∷ codes "s" ∷ codes "95" ∷ []) [])
      ≡ done (codes "Successfully marking!") (holding outside os' [] []))
    × (write_comment 0 (
          holding outside os'
            (codes "c" ∷ codes "h" ∷ codes "s" ∷ codes "0" ∷ codes "Fine" ∷ [])
            [])
        ≡ done (codes "Successfully writing comment!") (holding outside os'' [] []))
    × (check_score_and_comment 0 (holding outside os'' (codes "c" ∷ codes "h" ∷ codes "s" ∷ []) [])
        ≡ done (codes "Score:  95\nComment:\nFine") (holding outside os'' [] []))
check_score_and_comment-write_comment_example =
    check_score_and_comment-write_comment (codes "c") (codes "h") (codes "s")
      (codes "Score:    \nComment:\n") 4 school has_score (omega arith) 0 95 (codes "95") all_seen
      valid_score (λ p. absurd (omega (arith, p))) (omega arith) refl refl refl 0 (codes "0")
      (codes "Fine") all_seen refl (omega arith) refl refl 0 all_seen [] [] [] []

last_ended : is_saved (entry_at school.snapshot school.snapshot.now_pointer) ≡ false
unfolding student_management_syste.Journal.is_saved student_management_syste.Snapshot.init
last_ended = refl

revoke-write_file_example :
    (t u : Os) × (write_file 0 score_path (codes "Well done") school ≡ some (true, t))
    × (revoke (push_tag (codes "Mark.") t) ≡ some (true, u))
    × (blocks : List Block) × (read_file 0 score_path u ≡ some blocks)
    × (texts blocks ≡ some (codes "Well done"))
revoke-write_file_example =
    revoke-write_file 0 0 4 score_path (codes "Well done") (codes "Mark.") school score_plain
      score_write score_read refl refl (omega arith) (λ p. absurd (omega (arith, p))) (omega arith)
      (omega arith) init-IsShaped last_ended
