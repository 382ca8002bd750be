-- ===== src/Snapshot/Store.antt =====
-- The file `blockstack` of OS/FileSnapshot.cpp: what is written is read back.
use student_management_syste.Prelude.{
  ℕ, zero, suc, ◌≤◌, ◌≡◌, refl, ap, true, List, [], ◌∷◌, some, arith, length, take,
}
use student_management_syste.Snapshot.{FileSnapshot, write_to_file, read_from_file}
use student_management_syste.Snapshot.Shape.{IsShaped}

take-length {ℓ} : {A : Type ℓ} (n : ℕ) (xs : List A) → length xs ≤ n → take n xs ≡ xs
take-length zero [] h = refl
take-length zero (x ∷ xs) h = absurd (omega arith)
take-length (suc n) [] h = refl
take-length (suc n) (x ∷ xs) h = ap (◌∷◌ x) (take-length n xs (omega arith))

-- Reading the file that `writeToFile` wrote gives back the stack and all three pointers, whatever
-- the snapshot `old` was before, for a snapshot that is in shape.
pub read_from_file-write_to_file :
    (old s : FileSnapshot) → IsShaped s → read_from_file old (some (write_to_file s)) ≡ (true, s)
unfolding read_from_file write_to_file
read_from_file-write_to_file old s v =
    let whole = take-length (suc s.top_pointer) s.snapshot_stack (omega (arith, v.size)) in
    rw (whole, whole)
