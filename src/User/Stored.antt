-- ===== src/User/Stored.antt =====
-- `createUser` of OS/OperatingSystem.cpp: the bytes of the two records that it copies into a slot.
use student_management_syste.Prelude.{
  ℕ, ◌+◌, ◌≤◌, ◌<◌, ◌≡◌, ap, ◌∙◌, ◌⊎◌, inl, inr, Bytes, arith, length,
}
use student_management_syste.Memory.{Memory, short_at, put_short, memcpy}
use student_management_syste.Memory.Laws.{
  strcpy_off, memcpy_off, memcpy_at, name_eq-frame, short_at-put_short, short_at-frame,
  put_short_off,
}
use student_management_syste.Layout.{user_addr, password_addr, is_named}
use student_management_syste.User.{local_user, local_password}

-- The local structures, for texts that fit.
module _ (junk : Memory) (i group : ℕ) (name : Bytes) (fits : length name < 28) where
  pub local_user-id : i < 64 → short_at (local_user junk i group name) 28 ≡ i
  unfolding local_user
  local_user-id h =
      short_at-frame (put_short junk 28 i) (local_user junk i group name) 28 28
        (strcpy_off _ 0 name 28 (inr (omega arith))
          ∙ put_short_off _ 30 group 28 (omega arith) (omega arith))
        (strcpy_off _ 0 name 29 (inr (omega arith))
          ∙ put_short_off _ 30 group 29 (omega arith) (omega arith))
      ∙ short_at-put_short junk 28 i
      ∙ ground arith

  pub local_user-group : group < 0x8000 → short_at (local_user junk i group name) 30 ≡ group
  unfolding local_user
  local_user-group h =
      short_at-frame (put_short (put_short junk 28 i) 30 group) (local_user junk i group name) 30 30
        (strcpy_off _ 0 name 30 (inr (omega arith))) (strcpy_off _ 0 name 31 (inr (omega arith)))
      ∙ short_at-put_short (put_short junk 28 i) 30 group
      ∙ ground arith

pub local_password-id :
    (junk : Memory) (i : ℕ) (password : Bytes)
    → i < 64
    → short_at (local_password junk i password) 0 ≡ i
unfolding local_password
local_password-id junk i password h =
    short_at-frame (put_short junk 0 i) (local_password junk i password) 0 0
      (strcpy_off _ 2 password 0 (inl (omega arith)))
      (strcpy_off _ 2 password 1 (inl (omega arith)))
    ∙ short_at-put_short junk 0 i
    ∙ ground arith

-- The memory after the two records of 32 bytes are copied into slot `i`.
module _ (m u p : Memory) (i : ℕ) (small : i < 64) where
  unfoldable pub stored : Memory
  stored = memcpy (memcpy m (user_addr i) u 0 32) (password_addr i) p 0 32

  pub stored_user : (x k : ℕ) → k < 32 → x ≡ user_addr i + k → stored x ≡ u k
  unfolding stored
  stored_user x k h e =
      memcpy_off _ (password_addr i) p 0 32 x (inl (omega arith))
      ∙ ap (memcpy m (user_addr i) u 0 32) e
      ∙ memcpy_at m (user_addr i) u 0 32 k h
      ∙ ap u (omega arith)

  pub stored_password : (x k : ℕ) → k < 32 → x ≡ password_addr i + k → stored x ≡ p k
  unfolding stored
  stored_password x k h e =
      ap stored e ∙ memcpy_at _ (password_addr i) p 0 32 k h ∙ ap p (omega arith)

  pub stored_off :
      (x : ℕ)
      → (x < user_addr i) ⊎ (user_addr i + 32 ≤ x)
      → (x < password_addr i) ⊎ (password_addr i + 32 ≤ x)
      → stored x ≡ m x
  unfolding stored
  stored_off x h k =
      memcpy_off _ (password_addr i) p 0 32 x k ∙ memcpy_off m (user_addr i) u 0 32 x h

  pub stored-is_named_ne :
      (name : Bytes) (j : ℕ) → j < i → length name < 28 → is_named stored name j ≡ is_named m name j
  unfolding is_named
  stored-is_named_ne name j h fits =
      name_eq-frame m stored (user_addr j) (user_addr j) name
        λ k le. stored_off (user_addr j + k) (inl (omega arith)) (inl (omega arith))
