-- ===== src/Journal/Pending.antt =====
-- A command of OS/OperatingSystem.cpp that has not written its tag yet: what it has saved, what it has
-- changed, and what `revoke` will find.
use student_management_syste.Prelude.{
  ℕ, ◌+◌, ◌-◌, ◌≤◌, ◌<◌, ◌≡◌, refl, ap, ◌∙◌, true, List, [], ◌∷◌, arith, length,
}
use student_management_syste.Snapshot.{BlockAndInode, FileSnapshot, entry_at, pushcc, pop}
use student_management_syste.Snapshot.Shape.{
  IsShaped, pushcc-IsShaped, pushcc_now, pushcc_top, pushcc_below,
}
use student_management_syste.System.{Image, Os, block_number, inode_number}
use student_management_syste.Journal.{capture, push_block_and_inode, is_saved}
use student_management_syste.Journal.Replay.{replay, SameOff, replay-SameOff, restore-capture}

-- The states of one command that starts at `s`, with the entries it has saved, newest first: it
-- saves a block with an i-node, or changes the image where it has saved it.
pub data Edits (s : Os) : List BlockAndInode → Os → Type 0 where
  begin : Edits s [] s
  save :
      {es : List BlockAndInode} {t : Os} (b i : ℕ)
      → b < block_number
      → i < inode_number
      → Edits s es t
      → Edits s (capture t.image b i ∷ es) (push_block_and_inode b i t)
  edit :
      {es : List BlockAndInode} {t : Os} (m : Image)
      → SameOff es t.image m
      → Edits s es t
      → Edits s es (record t { image = m })

-- On top of the entry at `base` lie exactly the entries `es`, and all of them are saved blocks.
abbrev pub Stacked : FileSnapshot → ℕ → List BlockAndInode → ℕ → Type 0
Stacked sn base [] n = n ≡ base
Stacked sn base (e ∷ es) n =
    (entry_at sn n ≡ e) × (is_saved e ≡ true) × (base < n) × Stacked sn base es (n - 1)

pub Stacked-below :
    (sn tn : FileSnapshot) (base : ℕ) (es : List BlockAndInode) (n : ℕ)
    → ((i : ℕ) → i ≤ n → entry_at tn i ≡ entry_at sn i)
    → Stacked sn base es n
    → Stacked tn base es n
Stacked-below sn tn base [] n h st = st
Stacked-below sn tn base (e ∷ es) n h st = (
  h n (omega arith) ∙ st.0,
  st.1,
  st.2,
  Stacked-below sn tn base es (n - 1) (λ i le. h i (omega arith)) st.3,
)

-- What holds after each step of the command.
pub record Pending (s : Os) (es : List BlockAndInode) (t : Os) : Type 0 where
  pub shape : IsShaped t.snapshot
  pub stacked : Stacked t.snapshot s.snapshot.now_pointer es t.snapshot.now_pointer
  pub below : (i : ℕ) → i ≤ s.snapshot.now_pointer → entry_at t.snapshot i ≡ entry_at s.snapshot i
  pub now_le : s.snapshot.now_pointer ≤ t.snapshot.now_pointer
  pub undone : replay es t.image ≡ s.image
  pub log : t.system_log ≡ s.system_log

is_saved-capture :
    (m : Image) (b i : ℕ) → b < block_number → i < inode_number → is_saved (capture m b i) ≡ true
unfolding is_saved capture
is_saved-capture m b i hb hi = ground arith

push_block_and_inode_lem :
    (b i : ℕ) (t : Os)
    → b < block_number
    → i < inode_number
    → push_block_and_inode b i t ≡ record t { snapshot = pushcc t.snapshot (capture t.image b i) }
unfolding push_block_and_inode
push_block_and_inode_lem b i t hb hi = ground arith

Pending-save :
    (s t : Os) (es : List BlockAndInode) (b i : ℕ)
    → b < block_number
    → i < inode_number
    → Pending s es t
    → Pending s
        (capture t.image b i ∷ es)
        (record t { snapshot = pushcc t.snapshot (capture t.image b i) })
Pending-save s t es b i hb hi p = record {
  shape = pushcc-IsShaped sn e p.shape;
  stacked = rw (pushcc_now sn e) (
    pushcc_top sn e p.shape,
    is_saved-capture t.image b i hb hi,
    omega (arith, p.now_le),
    rw back (
        Stacked-below sn (pushcc sn e) s.snapshot.now_pointer es sn.now_pointer
          (λ j. pushcc_below sn e j p.shape) p.stacked),
  );
  below = λ j h. pushcc_below sn e j p.shape (omega (arith, p.now_le)) ∙ p.below j h;
  now_le = omega (arith, pushcc_now sn e, p.now_le);
  undone = ap (replay es) (restore-capture t.image b i) ∙ p.undone;
  log = p.log;
}
  where
    sn : FileSnapshot
    sn = t.snapshot

    e : BlockAndInode
    e = capture t.image b i

    back : sn.now_pointer + 1 - 1 ≡ sn.now_pointer
    back = omega arith

pub Edits-Pending :
    {s t : Os} {es : List BlockAndInode} → IsShaped s.snapshot → Edits s es t → Pending s es t
Edits-Pending v begin = record {
  shape = v;
  stacked = refl;
  below = λ i h. refl;
  now_le = omega arith;
  undone = refl;
  log = refl;
}
Edits-Pending {s} v (save {es} {t} b i hb hi ed) =
    rw (push_block_and_inode_lem b i t hb hi) (Pending-save s t es b i hb hi (Edits-Pending v ed))
Edits-Pending v (edit {es} {t} m off ed) =
    let p = Edits-Pending v ed in
    record {
      shape = p.shape;
      stacked = p.stacked;
      below = p.below;
      now_le = p.now_le;
      undone = replay-SameOff es t.image m off ∙ p.undone;
      log = p.log;
    }

pub Stacked-length :
    (sn : FileSnapshot) (base : ℕ) (es : List BlockAndInode) (n : ℕ)
    → Stacked sn base es n
    → n ≡ base + length es
Stacked-length sn base [] n st = omega arith
Stacked-length sn base (e ∷ es) n st = omega (arith, st.2, Stacked-length sn base es (n - 1) st.3)

pub pop_lem :
    (sn : FileSnapshot)
    → 0 < sn.now_pointer
    → (pop sn).1 ≡ record sn { now_pointer = sn.now_pointer - 1 }
unfolding pop
pop_lem sn h = ground arith
