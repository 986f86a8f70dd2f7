-- ===== src/Mem/Copy.antt =====
-- What `memset` and `memcpy` of kernel/memory/mem.c leave in memory.
use sesh_os.Base.{
  ℕ, zero, suc, ◌+◌, ◌-◌, ◌≤◌, ◌<◌, ◌≡◌, refl, ap, ◌⊎◌, ◌&&◌, arith, leb, ltb, if◌then◌else◌,
}
use sesh_os.Base.Int.{ℤ, pos_part, u8_of}
use sesh_os.Base.Memory.{Memory, poke}
use sesh_os.Mem.{memset_loop, memset, memcpy_loop, memcpy}

memset_loop_lem :
    (len : ℕ) (m : Memory) (p v a : ℕ)
    → memset_loop len m p v a ≡ (if leb p a && ltb a (p + len) then v else m a)
unfolding memset_loop
memset_loop_lem zero m p v a = ground arith
memset_loop_lem (suc len) m p v a = ground (arith, memset_loop_lem len (poke m p v) (p + 1) v a)

-- `memset` returns its first argument, fills the `len` bytes from there with the low byte of `c`,
-- none if `len` is negative, and changes no other byte.
pub memset_lem :
    (m : Memory) (b : ℕ) (c len : ℤ) (a : ℕ)
    → ((memset m b c len).1 ≡ b)
      × ((memset m b c len).0 a ≡ (if leb b a && ltb a (b + pos_part len) then u8_of c else m a))
unfolding memset
memset_lem m b c len a = (refl, memset_loop_lem (pos_part len) m b (u8_of c) a)

-- What a byte of memory is after `num` bytes were copied from `src` to `dest`.
abbrev pub copied : Memory → ℕ → ℕ → ℕ → Memory
copied m dest src num a = if leb dest a && ltb a (dest + num) then m (src + (a - dest)) else m a

-- The rounds before `i` have been made: `m` is the memory at the start, `g` now.
memcpy_loop_lem :
    (left i num : ℕ) (m g : Memory) (dest src : ℕ)
    → i + left ≡ num
    → (dest ≤ src) ⊎ (src + num ≤ dest)
    → ((a : ℕ) → g a ≡ copied m dest src i a)
    → (a : ℕ) → memcpy_loop left i g dest src a ≡ copied m dest src num a
unfolding memcpy_loop
memcpy_loop_lem zero i num m g dest src e apart h = λ a. ground (arith, h a)
memcpy_loop_lem (suc left) i num m g dest src e apart h =
    memcpy_loop_lem left (i + 1) num m (poke g (dest + i) (g (src + i))) dest src (omega arith)
      apart (λ a. ground (arith, h a, h (src + i)))

-- `memcpy` returns its first argument, and where the regions are disjoint or the destination does
-- not stand above the source, the destination receives the old bytes of the source and no other
-- byte changes.
pub memcpy_lem :
    (m : Memory) (dest src num : ℕ)
    → (dest ≤ src) ⊎ (src + num ≤ dest)
    → ((memcpy m dest src num).1 ≡ dest)
      × ((a : ℕ) → (memcpy m dest src num).0 a ≡ copied m dest src num a)
unfolding memcpy
memcpy_lem m dest src num apart =
    (refl, memcpy_loop_lem num 0 num m m dest src (omega arith) apart (λ a. ground arith))

pub copied-inside :
    (m : Memory) (dest src n j : ℕ) → j < n → copied m dest src n (dest + j) ≡ m (src + j)
copied-inside m dest src n j l = ground (arith, ap m back)
  where
    back : src + (dest + j - dest) ≡ src + j
    back = omega arith
