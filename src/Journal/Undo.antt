-- ===== src/Journal/Undo.antt =====
-- `revoke` of OS/OperatingSystem.cpp undoes the last command: everything that the command changed
-- between two tags, in blocks and i-nodes that it had saved before.
use student_management_syste.Prelude.{
  ℕ, zero, suc, ◌+◌, ◌-◌, ◌≤◌, ◌<◌, ◌≡◌, sym, ap, subst, ◌∙◌, Bool, true, false, some, List, [],
  ◌∷◌, arith, Bytes, length,
}
use student_management_syste.Snapshot.{
  BlockAndInode, tag_entry, FileSnapshot, entry_at, pushcc, pop,
}
use student_management_syste.Snapshot.Shape.{IsShaped, pushcc_now, pushcc_below}
use student_management_syste.Log
use student_management_syste.Log.Store.{pop-push}
use student_management_syste.System.{Image, Os, write_snapshot, write_log}
use student_management_syste.Journal.{restore, push_tag, is_saved, revoke_loop, revoke, pop_log}
use student_management_syste.Journal.Pending.{
  Edits, Stacked, Stacked-below, Pending, Edits-Pending, Stacked-length, pop_lem,
}
use student_management_syste.Journal.Replay.{replay}

-- The loop copies back all entries above `base`, and stops there.
revoke_loop-Stacked :
    (es : List BlockAndInode) (f base : ℕ) (m : Image) (sn : FileSnapshot)
    → length es < f
    → is_saved (entry_at sn base) ≡ false
    → Stacked sn base es sn.now_pointer
    → revoke_loop f m sn ≡ some (replay es m, record sn { now_pointer = base })
unfolding revoke_loop
revoke_loop-Stacked es zero base m sn lt tag st = absurd (omega arith)
revoke_loop-Stacked [] (suc f) base m sn lt tag st =
    let stop = subst (λ k. is_saved (entry_at sn k) ≡ false) (sym st) tag in
    rw (stop, revoke_loop) (ap (λ k. some (m, record sn { now_pointer = k })) st)
revoke_loop-Stacked (e ∷ es) (suc f) base m sn lt tag st =
    rw (ap is_saved st.0 ∙ st.1, revoke_loop, st.0, pop_lem sn (omega (arith, st.2)))
      (revoke_loop-Stacked es f base (restore e m) (record sn { now_pointer = sn.now_pointer - 1 })
        (omega arith) tag st.3)

write_snapshot_keeps :
    (r : Os)
    → ((write_snapshot r).image ≡ r.image)
      × ((write_snapshot r).snapshot ≡ r.snapshot)
      × ((write_snapshot r).system_log ≡ r.system_log)
unfolding write_snapshot
write_snapshot_keeps r = ground arith

write_log_keeps :
    (r : Os)
    → ((write_log r).image ≡ r.image)
      × ((write_log r).snapshot ≡ r.snapshot)
      × ((write_log r).system_log ≡ r.system_log)
unfolding write_log
write_log_keeps r = ground arith

pop_log_keeps :
    (r : Os)
    → ((pop_log r).image ≡ r.image)
      × ((pop_log r).snapshot ≡ r.snapshot)
      × ((pop_log r).system_log ≡ (Log.pop r.system_log).1)
unfolding pop_log Log.pop write_log
pop_log_keeps r = ground arith

push_tag_keeps :
    (c : Bytes) (r : Os)
    → ((push_tag c r).image ≡ r.image)
      × ((push_tag c r).snapshot ≡ pushcc r.snapshot tag_entry)
      × ((push_tag c r).system_log ≡ Log.push r.system_log c)
unfolding push_tag write_snapshot write_log
push_tag_keeps c r = ground arith

revoke_lem :
    (r : Os) (m : Image) (sn : FileSnapshot)
    → 0 < r.snapshot.now_pointer
    → revoke_loop r.snapshot.now_pointer r.image (pop r.snapshot).1 ≡ some (m, sn)
    → (u : Os) × (revoke r ≡ some (true, u))
      × (u.image ≡ m)
      × (u.snapshot ≡ sn)
      × (u.system_log ≡ (Log.pop r.system_log).1)
unfolding revoke
revoke_lem r m sn h e = (
  pop_log (write_snapshot (record r { image = m; snapshot = sn })),
  rw e (ground arith),
  (pop_log_keeps t).0 ∙ (write_snapshot_keeps q).0,
  (pop_log_keeps t).1 ∙ (write_snapshot_keeps q).1,
  (pop_log_keeps t).2 ∙ ap (λ l. (Log.pop l).1) (write_snapshot_keeps q).2,
)
  where
    q : Os
    q = record r { image = m; snapshot = sn }

    t : Os
    t = write_snapshot q

-- What `revoke` finds after a command: the entries of the command, with the tag popped off.
module _ (s t : Os) (es : List BlockAndInode) (command : Bytes) (p : Pending s es t) where
  tagged : FileSnapshot
  tagged = pushcc t.snapshot tag_entry

  popped : FileSnapshot
  unfolding tagged
  popped = record tagged { now_pointer = t.snapshot.now_pointer }

  popped-eq : (pop (push_tag command t).snapshot).1 ≡ popped
  unfolding popped
  popped-eq =
      let back : t.snapshot.now_pointer + 1 - 1 ≡ t.snapshot.now_pointer = omega arith in
      rw (
        (push_tag_keeps command t).1,
        pop_lem (pushcc t.snapshot tag_entry) (omega (arith, pushcc_now t.snapshot tag_entry)),
        pushcc_now t.snapshot tag_entry,
        back,
      )

  popped_below : (i : ℕ) → i ≤ t.snapshot.now_pointer → entry_at popped i ≡ entry_at t.snapshot i
  unfolding popped
  popped_below i h = pushcc_below t.snapshot tag_entry i p.shape h

  revoke_loop-popped :
      is_saved (entry_at s.snapshot s.snapshot.now_pointer) ≡ false
      → revoke_loop
          (push_tag command t).snapshot.now_pointer
          (push_tag command t).image
          (pop (push_tag command t).snapshot).1
        ≡ some (s.image, record popped { now_pointer = s.snapshot.now_pointer })
  unfolding popped
  revoke_loop-popped tag =
      rw (popped-eq, (push_tag_keeps command t).0)
        (revoke_loop-Stacked es (push_tag command t).snapshot.now_pointer s.snapshot.now_pointer
            t.image popped
            (omega (
              arith,
              ap (λ (sn : FileSnapshot). sn.now_pointer) (push_tag_keeps command t).1,
              pushcc_now t.snapshot tag_entry,
              Stacked-length t.snapshot s.snapshot.now_pointer es t.snapshot.now_pointer p.stacked,
            ))
            (ap is_saved (
                popped_below s.snapshot.now_pointer p.now_le
                ∙ p.below s.snapshot.now_pointer (omega arith))
              ∙ tag)
            (Stacked-below t.snapshot popped s.snapshot.now_pointer es t.snapshot.now_pointer
              popped_below p.stacked)
          ∙ ap (λ im. some (im, record popped { now_pointer = s.snapshot.now_pointer })) p.undone)

pub revoke-Pending :
    (s t : Os) (es : List BlockAndInode) (command : Bytes)
    → Pending s es t
    → is_saved (entry_at s.snapshot s.snapshot.now_pointer) ≡ false
    → (u : Os) × (revoke (push_tag command t) ≡ some (true, u))
      × (u.image ≡ s.image)
      × (u.system_log ≡ s.system_log)
      × (u.snapshot.now_pointer ≡ s.snapshot.now_pointer)
      × ((i : ℕ) → i ≤ s.snapshot.now_pointer → entry_at u.snapshot i ≡ entry_at s.snapshot i)
revoke-Pending s t es command p tag =
    let (u, done, im, sn, log) =
      revoke_lem (push_tag command t) s.image
        (record (popped s t es command p) { now_pointer = s.snapshot.now_pointer })
        (omega (
          arith,
          ap (λ (sn : FileSnapshot). sn.now_pointer) (push_tag_keeps command t).1,
          pushcc_now t.snapshot tag_entry,
        ))
        (revoke_loop-popped s t es command p tag) in
    (
      u,
      done,
      im,
      log
          ∙ ap (λ l. (Log.pop l).1) ((push_tag_keeps command t).2)
          ∙ ap (λ (r : Bool × Log.Log). r.1) (pop-push t.system_log command)
          ∙ p.log,
      ap (λ (r : FileSnapshot). r.now_pointer) sn,
      λ i h.
          ap (λ (r : FileSnapshot). entry_at r i) sn
          ∙ popped_below s t es command p i (omega (arith, p.now_le))
          ∙ p.below i h,
    )

-- A command that starts where the last entry is a tag, saves before it changes, and ends with its
-- tag is undone by `revoke`: that returns true, every i-node, byte and bit of the three arrays has
-- the value from before the command, the log lost its last line, and the stack up to the pointer
-- is what it was, so that the command before can be undone next.
pub revoke-push_tag :
    (s t : Os) (es : List BlockAndInode) (command : Bytes)
    → IsShaped s.snapshot
    → is_saved (entry_at s.snapshot s.snapshot.now_pointer) ≡ false
    → Edits s es t
    → (u : Os) × (revoke (push_tag command t) ≡ some (true, u))
      × (u.image ≡ s.image)
      × (u.system_log ≡ s.system_log)
      × (u.snapshot.now_pointer ≡ s.snapshot.now_pointer)
      × ((i : ℕ) → i ≤ s.snapshot.now_pointer → entry_at u.snapshot i ≡ entry_at s.snapshot i)
revoke-push_tag s t es command v tag ed = revoke-Pending s t es command (Edits-Pending v ed) tag
