-- ===== src/Memory.antt =====
-- kernel/src/gcc_utils.c: the four routines on bytes that the compiler may call. Memory is a total map
-- from addresses to bytes.
pub mod Copy
pub mod Compare
use choco_os.Base.{
  ℕ, zero, suc, ◌+◌, ◌%◌, Bool, true, false, ltb, ◌==◌, if◌then◌else◌, ℤ, pos, negsuc,
}

abbrev pub Bytes : Type 0
Bytes = ℕ → ℕ

unfoldable pub write : Bytes → ℕ → ℕ → ℕ → ℕ
write m a v j = if j == a then v else m j

-- The loops that count up from `i`, with `n` rounds left.
unfoldable pub copy_up : (n i : ℕ) → (dest src : ℕ) → Bytes → Bytes
unfolding write
copy_up zero i dest src m = m
copy_up (suc n) i dest src m = copy_up n (i + 1) dest src (write m (dest + i) (m (src + i)))

-- The loop that counts down from `n`.
unfoldable pub copy_down : (n : ℕ) → (dest src : ℕ) → Bytes → Bytes
unfolding write
copy_down zero dest src m = m
copy_down (suc n) dest src m = copy_down n dest src (write m (dest + n) (m (src + n)))

unfoldable pub memcpy : (dest src n : ℕ) → Bytes → Bytes
memcpy dest src n m = copy_up n 0 dest src m

pub memmove : (dest src n : ℕ) → Bytes → Bytes
memmove dest src n m =
    if ltb dest src
    then copy_up n 0 dest src m
    else if ltb src dest
    then copy_down n dest src m
    else m

pub fill_up : (n i : ℕ) → (s c : ℕ) → Bytes → Bytes
unfolding write
fill_up zero i s c m = m
fill_up (suc n) i s c m = fill_up n (i + 1) s c (write m (s + i) (c % 256))

pub memset : (s c n : ℕ) → Bytes → Bytes
memset s c n m = fill_up n 0 s c m

pub compare_up : (n i : ℕ) → (s1 s2 : ℕ) → Bytes → ℤ
compare_up zero i s1 s2 m = pos 0
compare_up (suc n) i s1 s2 m =
    let rest = compare_up n (i + 1) s1 s2 m in
    if m (s1 + i) == m (s2 + i)
    then rest
    else if ltb (m (s1 + i)) (m (s2 + i))
    then negsuc 0
    else pos 1

pub memcmp : (s1 s2 n : ℕ) → Bytes → ℤ
memcmp s1 s2 n m = compare_up n 0 s1 s2 m
