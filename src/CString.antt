-- ===== src/CString.antt =====
-- kernel/src/string.c: the C string routines, on a memory that is a total map from addresses to bytes.
-- A loop that looks for a terminating NUL has fuel, and is `none` when the fuel is used up. `strdup`
-- is the heap's allocation and a copy.
pub mod Length
pub mod Order
pub mod Copying
pub mod Number
use choco_os.Base.{
  ℕ, zero, suc, ◌+◌, ◌-◌, ◌*◌, ◌%◌, ◌^◌, ◌≡◌, ◌≢◌, Bool, true, false, not, ◌&&◌, ◌||◌, ltb, leb,
  ◌==◌, if◌then◌else◌, Option, none, some, List, [], ◌∷◌, ℤ, pos, diff, sub_word,
}
use choco_os.Memory.{Bytes, write, memcpy}

-- A NUL-terminated string stands at an address.
abbrev pub Holds : Bytes → ℕ → List ℕ → Type 0
Holds m a [] = m a ≡ 0
Holds m a (c ∷ cs) = (m a ≡ c) × (c ≢ 0) × Holds m (a + 1) cs

pub strlen_loop : (fuel : ℕ) → Bytes → (s n : ℕ) → Option ℕ
strlen_loop zero m s n = none
strlen_loop (suc fuel) m s n =
    let rest = strlen_loop fuel m s (n + 1) in if m (s + n) == 0 then some n else rest

pub strlen : (fuel : ℕ) → Bytes → ℕ → Option ℕ
strlen fuel m s = strlen_loop fuel m s 0

pub strcmp : (fuel : ℕ) → Bytes → (a b : ℕ) → Option ℤ
strcmp zero m a b = none
strcmp (suc fuel) m a b =
    let rest = strcmp fuel m (a + 1) (b + 1) in
    if not (m a == 0) && (m a == m b) then rest else some (diff (m a) (m b))

pub strncmp : Bytes → (a b n : ℕ) → ℤ
strncmp m a b zero = pos 0
strncmp m a b (suc n) =
    let rest = strncmp m (a + 1) (b + 1) n in
    if not (m a == 0) && (m a == m b) then rest else diff (m a) (m b)

-- `while ((*d++ = *src++));`
pub copy_string : (fuel : ℕ) → (d src : ℕ) → Bytes → Option Bytes
unfolding write
copy_string zero d src m = none
copy_string (suc fuel) d src m =
    let rest = copy_string fuel (d + 1) (src + 1) (write m d (m src)) in
    if m src == 0 then some (write m d (m src)) else rest

pub strcpy : (fuel : ℕ) → (dst src : ℕ) → Bytes → Option Bytes
strcpy fuel dst src m = copy_string fuel dst src m

pub pad_nul : (n dst i : ℕ) → Bytes → Bytes
unfolding write
pad_nul zero dst i m = m
pad_nul (suc n) dst i m = pad_nul n dst (i + 1) (write m (dst + i) 0)

pub strncpy_loop : (n : ℕ) → (dst src i : ℕ) → Bytes → Bytes
unfolding write
strncpy_loop zero dst src i m = m
strncpy_loop (suc n) dst src i m =
    let rest = strncpy_loop n dst src (i + 1) (write m (dst + i) (m (src + i))) in
    if m (src + i) == 0 then pad_nul (suc n) dst i m else rest

pub strncpy : (dst src n : ℕ) → Bytes → Bytes
strncpy dst src n m = strncpy_loop n dst src 0 m

-- The copy of `strlcpy`, when the length of the source is known.
pub bounded_copy : (dst src size len : ℕ) → Bytes → Bytes
unfolding write memcpy
bounded_copy dst src size len m =
    let n = if ltb len (size - 1) then len else size - 1 in
    if size == 0 then m else write (memcpy dst src n m) (dst + n) 0

pub strlcpy : (fuel : ℕ) → (dst src size : ℕ) → Bytes → Option (ℕ × Bytes)
strlcpy fuel dst src size m = elim (strlen fuel m src) [
  | none ↦ none
  | some len ↦ some (len, bounded_copy dst src size len m)
]

pub strcat : (fuel : ℕ) → (dst src : ℕ) → Bytes → Option Bytes
strcat fuel dst src m = elim (strlen fuel m dst) [
  | none ↦ none
  | some len ↦ copy_string fuel (dst + len) src m
]

-- The searches return an address, 0 for NULL.
pub strchr : (fuel : ℕ) → Bytes → (s c : ℕ) → Option ℕ
strchr zero m s c = none
strchr (suc fuel) m s c =
    let rest = strchr fuel m (s + 1) c in
    if m s == c % 256 then some s else if m s == 0 then some 0 else rest

pub strrchr_loop : (fuel : ℕ) → Bytes → (s c last : ℕ) → Option ℕ
strrchr_loop zero m s c last = none
strrchr_loop (suc fuel) m s c last =
    let here = if m s == c % 256 then s else last in
    let rest = strrchr_loop fuel m (s + 1) c here in if m s == 0 then some here else rest

pub strrchr : (fuel : ℕ) → Bytes → (s c : ℕ) → Option ℕ
strrchr fuel m s c = strrchr_loop fuel m s c 0

abbrev pub is_zero : ℤ → Bool
is_zero x = elim x [ pos zero ↦ true | _ ↦ false ]

pub strstr_loop : (fuel : ℕ) → Bytes → (haystack needle nlen : ℕ) → Option ℕ
strstr_loop zero m haystack needle nlen = none
strstr_loop (suc fuel) m haystack needle nlen =
    let rest = strstr_loop fuel m (haystack + 1) needle nlen in
    if m haystack == 0
    then some 0
    else if is_zero (strncmp m haystack needle nlen)
    then some haystack
    else rest

pub strstr : (fuel : ℕ) → Bytes → (haystack needle : ℕ) → Option ℕ
strstr fuel m haystack needle = elim (strlen fuel m needle) [
  | none ↦ none
  | some nlen ↦
      let found = strstr_loop fuel m haystack needle nlen in
      if nlen == 0 then some haystack else found
]

-- The value of a digit character, 255 for what is no digit.
abbrev pub digit_of : ℕ → ℕ
digit_of c =
    if leb 48 c && leb c 57
    then c - 48
    else if leb 97 c && leb c 122
    then c - 97 + 10
    else if leb 65 c && leb c 90
    then c - 65 + 10
    else 255

-- The value, a 64-bit word, and the address where the digits end.
pub digits_loop : (fuel : ℕ) → Bytes → (s base val : ℕ) → Option (ℕ × ℕ)
digits_loop zero m s base val = none
digits_loop (suc fuel) m s base val =
    let rest = digits_loop fuel m (s + 1) base ((val * base + digit_of (m s)) % 2 ^ 64) in
    if digit_of (m s) == 255 || leb base (digit_of (m s)) then some (val, s) else rest

pub skip_blanks : (fuel : ℕ) → Bytes → ℕ → Option ℕ
skip_blanks zero m s = none
skip_blanks (suc fuel) m s =
    let rest = skip_blanks fuel m (s + 1) in if m s == 32 || m s == 9 then rest else some s

abbrev pub is_hex_prefix : Bytes → ℕ → Bool
is_hex_prefix m s = (m s == 48) && ((m (s + 1) == 120) || (m (s + 1) == 88))

-- The base and the address after the prefix.
abbrev pub prefix_of : Bytes → (s base : ℕ) → ℕ × ℕ
prefix_of m s base =
    if ((base == 0) || (base == 16)) && is_hex_prefix m s
    then (16, s + 2)
    else if base == 0
    then ((if m s == 48 then 8 else 10), s)
    else (base, s)

abbrev pub signed : Bool → Option (ℕ × ℕ) → Option (ℕ × ℕ)
signed neg none = none
signed neg (some (val, end)) = some ((if neg then sub_word 64 0 val else val), end)

abbrev pub after_blanks : (fuel : ℕ) → Bytes → (base : ℕ) → Option ℕ → Option (ℕ × ℕ)
after_blanks fuel m base none = none
after_blanks fuel m base (some s) =
    let s' = if (m s == 45) || (m s == 43) then s + 1 else s in
    let p = prefix_of m s' base in signed (m s == 45) (digits_loop fuel m p.1 p.0 0)

pub strtol : (fuel : ℕ) → Bytes → (s base : ℕ) → Option (ℕ × ℕ)
strtol fuel m s base = after_blanks fuel m base (skip_blanks fuel m s)

-- The low 32 bits of the value.
pub atoi : (fuel : ℕ) → Bytes → ℕ → Option ℕ
atoi fuel m s = elim (strtol fuel m s 10) [ none ↦ none | some r ↦ some (r.0 % 2 ^ 32) ]
