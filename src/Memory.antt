-- ===== src/Memory.antt =====
-- Bytes in memory: the fields of the packed structures of OS/OperatingSystem.h, the calls of
-- <string.h> on them, and the formats of printf. A memory is the function from a byte's address to
-- its value. A `short` or an `int` that is read is given as the 32-bit pattern of its value, so that
-- -1 is 0xffffffff.
pub mod Clean
pub mod Laws
use student_management_syste.Prelude.{
  ℕ, zero, suc, ◌+◌, ◌-◌, ◌*◌, ◌/◌, ◌%◌, Bool, true, false, not, ◌&&◌, Option, none, some, List, [],
  ◌∷◌, Bytes, ◌==◌, ltb, leb, if◌then◌else◌, update, length, get_or,
}

abbrev pub Memory : Type 0
Memory = ℕ → ℕ

-- The bytes of a `std::string` up to its first NUL, which is what `c_str()` hands to `strcpy`.
unfoldable pub c_str : Bytes → Bytes
c_str [] = []
c_str (b ∷ bs) = let rest = c_str bs in if b == 0 then [] else b ∷ rest

unfoldable pub short_at : Memory → ℕ → ℕ
short_at m a = let v = m a + 256 * m (a + 1) in if ltb v 0x8000 then v else v + 0xffff_0000

unfoldable pub put_short : Memory → ℕ → ℕ → Memory
put_short m a v = update (update m a (v % 256)) (a + 1) (v / 256 % 256)

unfoldable pub int_at : Memory → ℕ → ℕ
int_at m a = m a + 0x100 * m (a + 1) + 0x1_0000 * m (a + 2) + 0x100_0000 * m (a + 3)

unfoldable pub put_int : Memory → ℕ → ℕ → Memory
put_int m a v =
    update
      (update (update (update m a (v % 256)) (a + 1) (v / 0x100 % 256)) (a + 2)
        (v / 0x1_0000 % 256))
      (a + 3) (v / 0x100_0000 % 256)

-- `memset`, `memcpy` into `m` from another memory, and `strcpy`.
unfoldable pub memset : Memory → ℕ → ℕ → ℕ → Memory
memset m a v n = λ x. if leb a x && ltb x (a + n) then v else m x

unfoldable pub memcpy : Memory → ℕ → Memory → ℕ → ℕ → Memory
memcpy m a src b n = λ x. if leb a x && ltb x (a + n) then src (b + (x - a)) else m x

unfoldable pub strcpy : Memory → ℕ → Bytes → Memory
strcpy m a s =
    let t = c_str s in λ x. if leb a x && leb x (a + length t) then get_or t (x - a) 0 else m x

-- Whether the C string at the address is the given text: `strcmp(p, t) == 0`, `string(p) == s`.
unfoldable pub name_eq : Memory → ℕ → Bytes → Bool
name_eq m a [] = m a == 0
name_eq m a (c ∷ cs) = not (c == 0) && m a == c && name_eq m (a + 1) cs

-- `string(p)`: the bytes up to the next NUL; `none` if there is none in `fuel` bytes.
unfoldable pub c_string : ℕ → Memory → ℕ → Option Bytes
c_string zero m a = none
c_string (suc fuel) m a = elim (m a == 0) [
  | true ↦ some []
  | false ↦ elim (c_string fuel m (a + 1)) [ none ↦ none | some bs ↦ some (m a ∷ bs) ]
]

-- `printf(format)` with nothing behind the format is defined where each '%' is followed by another:
-- any other conversion asks for an argument that is not there. The truth value says that the last
-- byte was a '%' that still has no partner.
abbrev pub format_from : Bool → Bytes → Bool
format_from open_percent [] = not open_percent
format_from false (c ∷ cs) = format_from (c == 37) cs
format_from true (c ∷ cs) = c == 37 && format_from false cs

abbrev pub is_format : Bytes → Bool
is_format text = format_from false text
