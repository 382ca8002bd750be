-- ===== src/Journal/Replay.antt =====
-- Copying saved entries back: what a stack of entries makes of an image, and what it covers.
use student_management_syste.Prelude.{
  ℕ, ◌+◌, ◌*◌, ◌<◌, ◌%◌, ◌/◌, ◌≡◌, ◌∙◌, refl, sym, ap, Bool, false, ◌||◌, List, [], ◌∷◌, arith,
  ◌==◌, inl, inr, Bool-cases, ==_iff,
}
use student_management_syste.Snapshot.{BlockAndInode}
use student_management_syste.System.{Image, block_size}
use student_management_syste.Journal.{capture, restore}

-- The entries, newest first, are copied back one by one.
abbrev pub replay : List BlockAndInode → Image → Image
replay [] m = m
replay (e ∷ es) m = replay es (restore e m)

abbrev pub covers_block : List BlockAndInode → ℕ → Bool
covers_block [] b = false
covers_block (e ∷ es) b = b == e.block_id || covers_block es b

abbrev pub covers_inode : List BlockAndInode → ℕ → Bool
covers_inode [] i = false
covers_inode (e ∷ es) i = i == e.inode_id || covers_inode es i

-- The two images differ at most in the blocks, bits and i-nodes that the entries saved.
pub record SameOff (es : List BlockAndInode) (m n : Image) : Type 0 where
  pub inodes : (i : ℕ) → covers_inode es i ≡ false → n.inode_mem i ≡ m.inode_mem i
  pub blocks : (a : ℕ) → covers_block es (a / block_size) ≡ false → n.block_mem a ≡ m.block_mem a
  pub bits : (b : ℕ) → covers_block es b ≡ false → n.block_bitmap b ≡ m.block_bitmap b

pub Image-eq :
    (m n : Image)
    → ((i : ℕ) → n.inode_mem i ≡ m.inode_mem i)
    → ((a : ℕ) → n.block_mem a ≡ m.block_mem a)
    → ((b : ℕ) → n.block_bitmap b ≡ m.block_bitmap b)
    → n ≡ m
Image-eq m n p q r =
    λ k. record { inode_mem = λ i. p i k; block_mem = λ a. q a k; block_bitmap = λ b. r b k }

restore-SameOff :
    (e : BlockAndInode) (es : List BlockAndInode) (m n : Image)
    → SameOff (e ∷ es) m n
    → SameOff es (restore e m) (restore e n)
unfolding restore
restore-SameOff e es m n v = record {
  inodes = λ i h. ground (arith, v.inodes i);
  blocks = λ a h. ground (arith, v.blocks a);
  bits = λ b h. ground (arith, v.bits b);
}

-- What the entries give back does not depend on what the image holds where they saved it.
pub replay-SameOff :
    (es : List BlockAndInode) (m n : Image) → SameOff es m n → replay es n ≡ replay es m
replay-SameOff [] m n v =
    Image-eq m n (λ i. v.inodes i refl) (λ a. v.blocks a refl) (λ b. v.bits b refl)
replay-SameOff (e ∷ es) m n v =
    replay-SameOff es (restore e m) (restore e n) (restore-SameOff e es m n v)

-- Copying a block and an i-node back into an image that has them as they were changes nothing.
pub restore-same :
    (m n : Image) (b i : ℕ)
    → n.inode_mem i ≡ m.inode_mem i
    → ((o : ℕ)
        → o < block_size
        → n.block_mem (b * block_size + o) ≡ m.block_mem (b * block_size + o))
    → n.block_bitmap b ≡ m.block_bitmap b
    → restore (capture m b i) n ≡ n
unfolding restore capture
restore-same m n b i p q r =
    Image-eq n (restore (capture m b i) n) (λ j. ground (arith, p)) blocks (λ c. ground (arith, r))
  where
    blocks : (a : ℕ) → (restore (capture m b i) n).block_mem a ≡ n.block_mem a
    blocks a = elim (Bool-cases (a / block_size == b)) [
      | inl e ↦
          let k : b * block_size + a % block_size ≡ a =
            omega (arith, (==_iff (a / block_size) b).0 e) in
          rw e (sym (q (a % block_size) (omega arith)) ∙ ap n.block_mem k)
      | inr e ↦ rw e refl
    ]

-- Copying back what was just saved changes nothing.
pub restore-capture : (m : Image) (b i : ℕ) → restore (capture m b i) m ≡ m
restore-capture m b i = restore-same m m b i refl (λ o h. refl) refl
