-- ===== src/Listing.antt =====
-- OS/OperatingSystem.cpp: the calls that only print, listuser, listgroup, listBlock and printSnapshot,
-- as the values that they print, without the layout of the lines, and the copies getinode, getblock and
-- blockbit.
use student_management_syste.Prelude.{
  ℕ, zero, suc, ◌+◌, ◌*◌, Bool, not, Option, none, some, List, [], ◌∷◌, Bytes, ◌==◌, if◌then◌else◌,
}
use student_management_syste.Snapshot.{Inode, FileSnapshot, entry_at, minus_one}
use student_management_syste.System.{Os, block_number}
use student_management_syste.Memory.{Memory, c_string}
use student_management_syste.Layout.{
  max_user_number, max_group_number, max_user_number_in_group, user_addr, group_addr, user_id,
  user_group, group_id, member, is_admin, group_block_id,
}

pub record UserRow : Type 0 where
  pub name : Bytes
  pub id : ℕ
  pub group : ℕ

pub record GroupRow : Type 0 where
  pub name : Bytes
  pub id : ℕ
  pub members : List ℕ

-- `denied` is the result -1. The calls have no return behind the lines that they print.
pub data Listed (Row : Type 0) : Type 0 where
  denied : Listed Row
  listed : List Row → Listed Row

-- The rows of the slots from i on; `none` if one of them has no value.
unfoldable pub rows : {Row : Type 0} → (ℕ → Option Row) → ℕ → ℕ → Option (List Row)
rows row i zero = some []
rows row i (suc n) = elim (row i) [
  | none ↦ none
  | some r ↦ elim (rows row (i + 1) n) [ none ↦ none | some rs ↦ some (r ∷ rs) ]
]

unfoldable pub list_as :
    {Row : Type 0} → (Memory → ℕ → Option Row) → ℕ → ℕ → Os → Option (Listed Row)
list_as row slots exec s =
    let m = s.image.block_mem in
    if not (is_admin m exec)
    then some denied
    else elim (rows (row m) 0 slots) [ none ↦ none | some rs ↦ some (listed rs) ]

-- `<< userName` prints up to a NUL, which may be behind the field.
unfoldable pub user_row : Memory → ℕ → Option UserRow
user_row m i = elim (c_string 0x20_0000 m (user_addr i)) [
  | none ↦ none
  | some name ↦ some (record { name = name; id = user_id m i; group = user_group m i })
]

unfoldable pub list_user : ℕ → Os → Option (Listed UserRow)
list_user = list_as user_row max_user_number

unfoldable pub members_from : Memory → ℕ → ℕ → ℕ → List ℕ
members_from m g j zero = []
members_from m g j (suc n) =
    let rest = members_from m g (j + 1) n in
    if member m g j == minus_one then rest else member m g j ∷ rest

unfoldable pub group_row : Memory → ℕ → Option GroupRow
group_row m g = elim (c_string 0x20_0000 m (group_addr g)) [
  | none ↦ none
  | some name ↦ some (record {
    name = name;
    id = group_id m g;
    members = members_from m g 0 max_user_number_in_group;
  })
]

unfoldable pub list_group : ℕ → Os → Option (Listed GroupRow)
list_group = list_as group_row max_group_number

-- The blocks from b on that are in use.
unfoldable pub used_from : (ℕ → Bool) → ℕ → ℕ → List ℕ
used_from bitmap b zero = []
used_from bitmap b (suc n) =
    let rest = used_from bitmap (b + 1) n in if bitmap b then b ∷ rest else rest

unfoldable pub used_blocks : Os → List ℕ
used_blocks s = used_from s.image.block_bitmap 0 block_number

unfoldable pub get_inode : Os → Inode
get_inode s = s.image.inode_mem 2

-- The copy of a GroupBlock, which is larger than the block that it starts in.
unfoldable pub get_block : Os → Memory
get_block s = λ o. s.image.block_mem (2048 * group_block_id + o)

-- The byte of the first eight bits.
unfoldable pub block_bit : Os → ℕ
block_bit s = byte 0 8 1
  where
    byte : ℕ → ℕ → ℕ → ℕ
    byte b zero weight = 0
    byte b (suc n) weight =
        (if s.image.block_bitmap b then weight else 0) + byte (b + 1) n (2 * weight)

-- The block numbers of the entries up to topPointer, and the two other pointers.
unfoldable pub print_snapshot : FileSnapshot → List ℕ × ℕ × ℕ
print_snapshot sn = (blocks_from 0 (sn.top_pointer + 1), sn.now_pointer, sn.max_pointer)
  where
    blocks_from : ℕ → ℕ → List ℕ
    blocks_from i zero = []
    blocks_from i (suc n) = (entry_at sn i).block_id ∷ blocks_from (i + 1) n
