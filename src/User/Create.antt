-- ===== src/User/Create.antt =====
-- `createUser` of OS/OperatingSystem.cpp: what the new user can do, and who is untouched.
use student_management_syste.Prelude.{
  ℕ, ◌+◌, ◌≤◌, ◌<◌, ◌≡◌, refl, sym, ap, subst, ◌∙◌, true, false, ◌⊎◌, inl, inr, none, some, Bytes,
  arith, ◌==◌, le→ltb, length, get_or, Bool,
}
use student_management_syste.Snapshot.{minus_one}
use student_management_syste.System.{Image, Os, is_negative}
use student_management_syste.Journal.{push_block_and_inode}
use student_management_syste.Journal.Keeps.{push_image}
use student_management_syste.Loop.{
  first-eq-none, first-cases, first, first-none, first-IsFirst, IsFirst,
}
use student_management_syste.Memory.{Memory, c_str, put_short, name_eq}
use student_management_syste.Memory.Laws.{
  no_nul, length-c_str, strcpy_at, name_eq-holds, short_at-frame,
}
use student_management_syste.Layout.{
  user_addr, password_addr, user_id, user_group, group_id, is_named, is_admin, with_memory,
}
use student_management_syste.User.{
  local_user, local_password, store_user, create_user, login_systems,
}
use student_management_syste.User.Stored.{
  local_user-id, local_user-group, local_password-id, stored, stored_user, stored_password,
  stored_off, stored-is_named_ne,
}

-- What a memory says of a user: the slot holds the number, the group, the name and the password.
pub record HasUser (m : Memory) (i group : ℕ) (name password : Bytes) : Type 0 where
  pub id : user_id m i ≡ i
  pub in_group : user_group m i ≡ group
  pub named : is_named m name i ≡ true
  pub password_set : name_eq m (password_addr i + 2) password ≡ true

module _ (junk junk' m : Memory) (i group : ℕ) (name password : Bytes) (small : i < 64)
    (group_small : group < 0x8000) (fits : length name < 28) (plain : no_nul name ≡ true)
    (fits' : length password < 30) (plain' : no_nul password ≡ true) where
  created : Memory
  created = stored m (local_user junk i group name) (local_password junk' i password) i small

  created-HasUser : HasUser created i group name password
  unfolding created user_id user_group is_named local_user local_password
  created-HasUser = record {
    id =
        short_at-frame u created 28 (user_addr i + 28)
          (stored_user m u p i small (user_addr i + 28) 28 (omega arith) refl)
          (stored_user m u p i small (user_addr i + 28 + 1) 29 (omega arith) (omega arith))
        ∙ local_user-id junk i group name fits small;
    in_group =
        short_at-frame u created 30 (user_addr i + 30)
          (stored_user m u p i small (user_addr i + 30) 30 (omega arith) refl)
          (stored_user m u p i small (user_addr i + 30 + 1) 31 (omega arith) (omega arith))
        ∙ local_user-group junk i group name fits group_small;
    named =
        name_eq-holds created (user_addr i) name plain
          λ k le. stored_user m u p i small (user_addr i + k) k (omega arith) refl ∙ name_byte k le;
    password_set = name_eq-holds created (password_addr i + 2) password plain' λ k le.
        stored_password m u p i small (password_addr i + 2 + k) (2 + k) (omega arith) (omega arith)
        ∙ password_byte k le;
  }
    where
      u : Memory
      u = local_user junk i group name

      p : Memory
      p = local_password junk' i password

      name_byte : (k : ℕ) → k ≤ length name → u k ≡ get_or name k 0
      name_byte k le =
          let z : 0 + k ≡ k = omega arith in
          rw z at (strcpy_at (put_short (put_short junk 28 i) 30 group) 0 k name plain le)

      password_byte : (k : ℕ) → k ≤ length password → p (2 + k) ≡ get_or password k 0
      password_byte k le = strcpy_at _ 2 k password plain' le

  store_user-created :
      (s : Os)
      → s.image.block_mem ≡ m
      → store_user junk junk' i name password group s ≡ some (i, with_memory s created)
  unfolding store_user created stored
  store_user-created s e =
      rw
        (
          le→ltb 31 (length (c_str name)) (omega (arith, length-c_str name)),
          local_user-id junk i group name fits small,
          le→ltb 29 (length (c_str password)) (omega (arith, length-c_str password)),
          not_negative,
          local_password-id junk' i password small,
          e,
        )
        refl
    where
      not_negative : is_negative i ≡ false
      not_negative = ground arith

-- The state in which `createUser` decides: only the snapshot differs from the one before.
abbrev saved : Os → Os
saved s = push_block_and_inode 3 3 (push_block_and_inode 1 1 s)

saved_image : (s : Os) → (saved s).image ≡ s.image
saved_image s = push_image 3 3 (push_block_and_inode 1 1 s) ∙ push_image 1 1 s

abbrev pub is_free : Memory → ℕ → Bool
is_free m i = user_id m i == minus_one

pub login_systems-IsFirst :
    (s : Os) (i : ℕ) (name password : Bytes)
    → IsFirst 64 0 i (is_named s.image.block_mem name)
    → name_eq s.image.block_mem (password_addr i + 2) password ≡ true
    → login_systems name password s ≡ true
unfolding login_systems
login_systems-IsFirst s i name password v h = rw (first-IsFirst 64 0 i _ v, login_systems) h

create_user_branch :
    (junk junk' : Memory) (exec : ℕ) (name password : Bytes) (group i : ℕ) (s : Os)
    → is_admin (saved s).image.block_mem exec ≡ true
    → (group_id (saved s).image.block_mem group == minus_one) ≡ false
    → first 64 0 (is_named (saved s).image.block_mem name) ≡ none
    → first 64 0 (is_free (saved s).image.block_mem) ≡ some i
    → create_user junk junk' exec name password group s
      ≡ store_user junk junk' i name password group (saved s)
unfolding create_user
create_user_branch junk junk' exec name password group i s admin known fresh free =
    rw (admin, known, fresh, free) refl

first-exists :
    (n k : ℕ) (test : ℕ → Bool)
    → k < n
    → test k ≡ true
    → (i : ℕ) × (first n 0 test ≡ some i) × IsFirst n 0 i test
first-exists n k test lt h = elim (first-cases n 0 test) [
  | inl e ↦ absurd (true_ne_false (sym h ∙ first-none n 0 k test e (omega arith) (omega arith)))
  | inr r ↦ r
]
  where
    true_ne_false : true ≡ false → ⊥
    true_ne_false e = cc

-- An administrator who creates a user with a fresh name, short enough name and password, and a
-- group that exists, while a slot is free, gets the number of the first free slot. Afterwards the
-- slot holds the number, the group, the name and the password, the new user can log in with them,
-- and no byte outside the two records of that slot has changed.
pub create_user-HasUser :
    (junk junk' : Memory) (exec : ℕ) (name password : Bytes) (group k : ℕ) (s : Os)
    → is_admin s.image.block_mem exec ≡ true
    → (group_id s.image.block_mem group == minus_one) ≡ false
    → ((j : ℕ) → j < 64 → is_named s.image.block_mem name j ≡ false)
    → k < 64
    → is_free s.image.block_mem k ≡ true
    → group < 0x8000
    → length name < 28
    → no_nul name ≡ true
    → length password < 30
    → no_nul password ≡ true
    → (i : ℕ) × (t : Os) × (create_user junk junk' exec name password group s ≡ some (i, t))
      × IsFirst 64 0 i (is_free s.image.block_mem)
      × HasUser t.image.block_mem i group name password
      × (login_systems name password t ≡ true)
      × ((x : ℕ)
          → (x < user_addr i) ⊎ (user_addr i + 32 ≤ x)
          → (x < password_addr i) ⊎ (password_addr i + 32 ≤ x)
          → t.image.block_mem x ≡ s.image.block_mem x)
unfolding created
create_user-HasUser junk junk' exec name password group k s admin known fresh lt free gs fits plain
      fits' plain' =
    let (i, found, v) = first-exists 64 k (is_free m) lt free in
    let small : i < 64 = v.lt in
    let final : Memory =
      stored m (local_user junk i group name) (local_password junk' i password) i small in
    let has = created-HasUser junk junk' m i group name password small gs fits plain fits' plain' in
    (
      i,
      with_memory (saved s) final,
      create_user_branch junk junk' exec name password group i s
            (up (λ m. is_admin m exec ≡ true) admin)
            (up (λ m. (group_id m group == minus_one) ≡ false) known)
            (up (λ m. first 64 0 (is_named m name) ≡ none)
              (first-eq-none 64 0 (is_named m name) (λ j p q. fresh j (omega arith))))
            (up (λ m. first 64 0 (is_free m) ≡ some i) found)
          ∙ store_user-created junk junk' m i group name password small gs fits plain fits' plain'
              (saved s) e,
      v,
      has,
      login_systems-IsFirst (with_memory (saved s) final) i name password
          (record {
            passes = has.named;
            ge = omega arith;
            lt = v.lt;
            before = λ j p q.
                stored-is_named_ne m (local_user junk i group name)
                  (local_password junk' i password) i small name j q fits
                ∙ fresh j (omega arith);
          })
          has.password_set,
      λ x p q.
          stored_off m (local_user junk i group name) (local_password junk' i password) i small x p
            q,
    )
  where
    m : Memory
    m = s.image.block_mem

    e : (saved s).image.block_mem ≡ m
    e = ap (λ (im : Image). im.block_mem) (saved_image s)

    up : (P : Memory → Type 0) → P m → P (saved s).image.block_mem
    up P h = subst P (sym e) h
