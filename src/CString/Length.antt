-- ===== src/CString/Length.antt =====
-- kernel/src/string.c: what stands where a string is held, and its length.
use choco_os.Base.{
  ℕ, zero, suc, ◌+◌, ◌<◌, ◌≡◌, ◌≢◌, refl, some, List, [], ◌∷◌, length, arith, ◌==◌, false,
}
use choco_os.Memory.{Bytes}
use choco_os.CString.{Holds, strlen, strlen_loop}

pub Holds-at : (cs : List ℕ) (m : Bytes) (a i : ℕ) → Holds m a cs → i < length cs → m (a + i) ≢ 0
Holds-at [] m a i h lt = absurd (omega arith)
Holds-at (c ∷ cs) m a zero h lt = let z : a + 0 ≡ a = omega arith in rw (z, h.0) h.1
Holds-at (c ∷ cs) m a (suc i) h lt =
    let z : a + suc i ≡ a + 1 + i = omega arith in rw z (Holds-at cs m (a + 1) i h.2 (omega arith))

pub Holds-end : (cs : List ℕ) (m : Bytes) (a : ℕ) → Holds m a cs → m (a + length cs) ≡ 0
Holds-end [] m a h = let z : a + 0 ≡ a = omega arith in rw z h
Holds-end (c ∷ cs) m a h =
    let z : a + suc (length cs) ≡ a + 1 + length cs = omega arith in
    rw z (Holds-end cs m (a + 1) h.2)

strlen_loop-Holds :
    (n fuel : ℕ) (cs : List ℕ) (m : Bytes) (s i : ℕ)
    → Holds m s cs
    → i + n ≡ length cs
    → n < fuel
    → strlen_loop fuel m s i ≡ some (length cs)
unfolding strlen_loop
strlen_loop-Holds n zero cs m s i h e lt = absurd (omega arith)
strlen_loop-Holds zero (suc fuel) cs m s i h e lt =
    let at_end : i ≡ length cs = omega arith in rw (at_end, Holds-end cs m s h) refl
strlen_loop-Holds (suc n) (suc fuel) cs m s i h e lt =
    let ne = Holds-at cs m s i h (omega arith) in
    let f : (m (s + i) == 0) ≡ false = ground arith in
    rw f (strlen_loop-Holds n fuel cs m s (i + 1) h (omega arith) (omega arith))

-- `strlen` of a string, with fuel for its bytes and its NUL, is the string's length.
pub strlen-Holds :
    (fuel : ℕ) (cs : List ℕ) (m : Bytes) (s : ℕ)
    → Holds m s cs
    → length cs < fuel
    → strlen fuel m s ≡ some (length cs)
unfolding strlen
strlen-Holds fuel cs m s h lt = strlen_loop-Holds (length cs) fuel cs m s 0 h (omega arith) lt
