-- ===== src/Journal/Keeps.antt =====
-- Saving a block changes the snapshot only.
use student_management_syste.Prelude.{ℕ, ◌≡◌, arith}
use student_management_syste.System.{Os}
use student_management_syste.Journal.{push_block_and_inode}

pub push_image : (b i : ℕ) (s : Os) → (push_block_and_inode b i s).image ≡ s.image
unfolding push_block_and_inode
push_image b i s = ground arith

pub push_log : (b i : ℕ) (s : Os) → (push_block_and_inode b i s).system_log ≡ s.system_log
unfolding push_block_and_inode
push_log b i s = ground arith

pub push_disk : (b i : ℕ) (s : Os) → (push_block_and_inode b i s).disk ≡ s.disk
unfolding push_block_and_inode
push_disk b i s = ground arith
