-- ===== src/Path/Walked.antt =====
-- What the walk along a path finds, described without the loops of OS/OperatingSystem.cpp.
use student_management_syste.Prelude.{
  ℕ, ◌≡◌, ◌≢◌, ◌↔◌, inl, inr, refl, sym, ◌∙◌, subst, Bool, true, not, ◌||◌, none, some, List, [],
  ◌∷◌, ◌++◌, Bytes, ◌==◌, if◌then◌else◌, arith, ne→==, Option-cases,
}
use student_management_syste.Snapshot.{minus_one}
use student_management_syste.System.{Os}
use student_management_syste.Loop.{IsFirst, first-some, first-IsFirst}
use student_management_syste.Memory.{Memory, name_eq}
use student_management_syste.Permission.{check_read_permission, check_write_permission}
use student_management_syste.Path.{
  entry_number, file_name_addr, inode_id_at, find_entry, slash, tokens, walk, all_but_last, last,
  get_inode_id, get_read_inode_id, get_write_inode_id,
}

-- Each name behind a slash.
abbrev pub path_of : List Bytes → Bytes
path_of [] = []
path_of (n ∷ ns) = slash ∷ (n ++ path_of ns)

-- The i-th entry of block b is the first with the name.
abbrev pub IsEntry : Memory → ℕ → Bytes → ℕ → Type 0
IsEntry m b name i = IsFirst entry_number 0 i (λ j. name_eq m (file_name_addr b j) name)

-- A chain of directories from i-node p to i-node r: each name is an entry of the block before it,
-- whose i-node is allowed and is no plain file.
pub data Leads (allowed : ℕ → Bool) (s : Os) : ℕ → List Bytes → ℕ → Type 0 where
  arrived : {p : ℕ} → Leads allowed s p [] p
  enters :
      {p i r : ℕ} {name : Bytes} {names : List Bytes}
      → IsEntry s.image.block_mem (s.image.inode_mem p).block_id name i
      → allowed (inode_id_at s.image.block_mem (s.image.inode_mem p).block_id i) ≡ true
      → (s.image.inode_mem
          (inode_id_at s.image.block_mem (s.image.inode_mem p).block_id i)).file_type
        ≢ 1
      → Leads allowed s (inode_id_at s.image.block_mem (s.image.inode_mem p).block_id i) names r
      → Leads allowed s p (name ∷ names) r

find_entry-IsEntry :
    (m : Memory) (b i : ℕ) (name : Bytes) → IsEntry m b name i → find_entry m b name ≡ some i
unfolding find_entry
find_entry-IsEntry m b i name v = first-IsFirst entry_number 0 i _ v

pub IsEntry-find_entry :
    (m : Memory) (b i : ℕ) (name : Bytes) → find_entry m b name ≡ some i → IsEntry m b name i
unfolding find_entry
IsEntry-find_entry m b i name e = first-some entry_number 0 i _ e

module _ (allowed : ℕ → Bool) (s : Os) where
  module _ (p i : ℕ) (name : Bytes) (names : List Bytes) where
    unfoldable pub next_inode : ℕ
    next_inode = inode_id_at s.image.block_mem (s.image.inode_mem p).block_id i

    -- One turn of the loop, once the entry is found.
    pub walk_turn :
        find_entry s.image.block_mem (s.image.inode_mem p).block_id name ≡ some i
        → walk allowed s p (name ∷ names) ≡ (
            if not (allowed next_inode) || (s.image.inode_mem next_inode).file_type == 1
            then none
            else walk allowed s next_inode names)
    unfolding walk next_inode
    walk_turn f = rw (f, walk) refl

    pub walk_enters :
        (r : ℕ)
        → find_entry s.image.block_mem (s.image.inode_mem p).block_id name ≡ some i
        → walk allowed s p (name ∷ names) ≡ some r
        → (allowed next_inode ≡ true)
          × ((s.image.inode_mem next_inode).file_type ≢ 1)
          × (walk allowed s next_inode names ≡ some r)
    walk_enters r f e =
        let e' = sym (walk_turn f) ∙ e in (ground arith, λ k. ground arith, ground arith)

    pub walk_no_entry :
        find_entry s.image.block_mem (s.image.inode_mem p).block_id name ≡ none
        → walk allowed s p (name ∷ names) ≡ none
    unfolding walk
    walk_no_entry f = rw (f, walk) refl

  pub walk_arrived : (p : ℕ) → walk allowed s p [] ≡ some p
  unfolding walk
  walk_arrived p = refl

  Leads-walk :
      {p r : ℕ} {names : List Bytes} → Leads allowed s p names r → walk allowed s p names ≡ some r
  unfolding next_inode
  Leads-walk {p} arrived = walk_arrived p
  Leads-walk {p} (enters {i = i} {name = name} {names = names} v a n l) =
      walk_turn p i name names (find_entry-IsEntry _ (s.image.inode_mem p).block_id i name v)
      ∙ rw (a, ne→== _ 1 n) (Leads-walk l)

  walk-Leads :
      (p r : ℕ) (names : List Bytes) → walk allowed s p names ≡ some r → Leads allowed s p names r
  unfolding next_inode
  walk-Leads p r [] e =
      let q : some p ≡ some r = sym (walk_arrived p) ∙ e in
      subst (λ z. Leads allowed s p [] z) (cc) arrived
  walk-Leads p r (name ∷ names) e =
      elim (Option-cases (find_entry s.image.block_mem (s.image.inode_mem p).block_id name)) [
        | inl n ↦ let k : none ≡ some r = sym (walk_no_entry p 0 name names n) ∙ e in absurd (cc)
        | inr (i, f) ↦
            let (a, n, w) = walk_enters p i name names r f e in
            enters (IsEntry-find_entry _ (s.image.inode_mem p).block_id i name f) a n
              (walk-Leads (next_inode p i name names) r names w)
      ]

-- The i-node q that the names t, ts stand for: its entry is in the directory that all names but the
-- last lead to.
pub record Resolves (allowed : ℕ → Bool) (s : Os) (t : Bytes) (ts : List Bytes) (q : ℕ)
    : Type 0 where
  pub directory : ℕ
  pub entry : ℕ
  pub leads : Leads allowed s 0 (all_but_last (t ∷ ts)) directory
  pub is_entry : IsEntry s.image.block_mem (s.image.inode_mem directory).block_id (last t ts) entry
  pub is_target : inode_id_at s.image.block_mem (s.image.inode_mem directory).block_id entry ≡ q

module _ (allowed : ℕ → Bool) (path : Bytes) (s : Os) (t : Bytes) (ts : List Bytes) where
  module _ (e : tokens path ≡ some (t ∷ ts)) where
    pub by_walk : get_inode_id allowed path s ≡ elim (walk allowed s 0 (all_but_last (t ∷ ts))) [
      | none ↦ some minus_one
      | some p ↦ elim (find_entry s.image.block_mem (s.image.inode_mem p).block_id (last t ts)) [
        | none ↦ some minus_one
        | some i ↦ some (inode_id_at s.image.block_mem (s.image.inode_mem p).block_id i)
      ]
    ]
    unfolding get_inode_id
    by_walk = rw (e, get_inode_id) refl

    get_inode_id_total : (q : ℕ) × (get_inode_id allowed path s ≡ some q)
    get_inode_id_total = elim (Option-cases (walk allowed s 0 (all_but_last (t ∷ ts)))) [
      | inl n ↦ (minus_one, by_walk ∙ rw n refl)
      | inr (p, w) ↦
          elim (Option-cases
            (find_entry s.image.block_mem (s.image.inode_mem p).block_id (last t ts))) [
              | inl n ↦ (minus_one, by_walk ∙ rw (w, n) refl)
              | inr (i, f) ↦ (
                inode_id_at s.image.block_mem (s.image.inode_mem p).block_id i,
                by_walk ∙ rw (w, f) refl,
              )
            ]
    ]

    Resolves-get_inode_id :
        (q : ℕ) → Resolves allowed s t ts q → get_inode_id allowed path s ≡ some q
    Resolves-get_inode_id q r =
        by_walk
        ∙ rw
            (
              Leads-walk allowed s r.leads,
              find_entry-IsEntry s.image.block_mem (s.image.inode_mem r.directory).block_id r.entry
                  (last t ts) r.is_entry,
              r.is_target,
            )
            refl

    get_inode_id-Resolves :
        (q : ℕ) → q ≢ minus_one → get_inode_id allowed path s ≡ some q → Resolves allowed s t ts q
    get_inode_id-Resolves q ne g = elim (Option-cases (walk allowed s 0 (all_but_last (t ∷ ts)))) [
      | inl n ↦ let k : some minus_one ≡ some q = rw n at (sym by_walk ∙ g) in absurd (ground arith)
      | inr (p, w) ↦
          elim (Option-cases
            (find_entry s.image.block_mem (s.image.inode_mem p).block_id (last t ts))) [
              | inl n ↦
                  let k : some minus_one ≡ some q = rw (w, n) at (sym by_walk ∙ g) in
                  absurd (ground arith)
              | inr (i, f) ↦
                  let k : some (inode_id_at s.image.block_mem (s.image.inode_mem p).block_id i)
                      ≡ some q =
                    rw (w, f) at (sym by_walk ∙ g) in
                  record {
                    directory = p;
                    entry = i;
                    leads = walk-Leads allowed s 0 p (all_but_last (t ∷ ts)) w;
                    is_entry =
                        IsEntry-find_entry s.image.block_mem (s.image.inode_mem p).block_id i
                          (last t ts) f;
                    is_target = cc;
                  }
            ]
    ]

-- For a path of fewer than 100 bytes with the tokens t, ts: the searches for reading and writing
-- return a number, and it is a q other than -1 exactly if the names lead to q through directories
-- that the caller may read, or write, and that are no plain files.
pub get_inode_id_iff :
    (exec : ℕ) (path : Bytes) (s : Os) (t : Bytes) (ts : List Bytes)
    → tokens path ≡ some (t ∷ ts)
    → ((q : ℕ) × (get_read_inode_id exec path s ≡ some q))
      × ((q : ℕ) × (get_write_inode_id exec path s ≡ some q))
      × ((q : ℕ)
          → q ≢ minus_one
          → ((get_read_inode_id exec path s ≡ some q)
              ↔ Resolves (λ z. check_read_permission exec z s) s t ts q)
            × ((get_write_inode_id exec path s ≡ some q)
                ↔ Resolves (λ z. check_write_permission exec z s) s t ts q))
unfolding get_read_inode_id get_write_inode_id
get_inode_id_iff exec path s t ts e =
    let r : ℕ → Bool = λ z. check_read_permission exec z s in
    let w : ℕ → Bool = λ z. check_write_permission exec z s in
    (
      get_inode_id_total r path s t ts e,
      get_inode_id_total w path s t ts e,
      λ q ne. (
        (get_inode_id-Resolves r path s t ts e q ne, Resolves-get_inode_id r path s t ts e q),
        (get_inode_id-Resolves w path s t ts e q ne, Resolves-get_inode_id w path s t ts e q),
      ),
    )
