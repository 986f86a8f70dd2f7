-- ===== src/Sata/Setup/Tables.antt =====
-- The loop over the command headers of a port's set-up.
use sesh_os.Base.{
  ℕ, zero, suc, ◌+◌, ◌*◌, ◌/◌, ◌^◌, ◌<◌, ◌≤◌, ◌≡◌, refl, ◌∙◌, false, ◌⊎◌, inl, arith, u32, u64,
}
use mathlib.Core.Path.{subst}
use sesh_os.Base.Int.{pos}
use sesh_os.Base.Memory.{Memory, poke, SameOff}
use sesh_os.Base.Words.{load64, load64-eq, store32, store32-SameOff, load64-store32}
use sesh_os.Base.Run.{done, bind-done}
use sesh_os.Mem.{memset}
use sesh_os.Mem.Copy.{memset_lem}
use sesh_os.Heap.{Heap}
use sesh_os.Heap.Blocks.{top}
use sesh_os.Heap.Taken.{Taken, malloc-Taken}
use sesh_os.Sata.Setup.{header_at, header_loop}

abbrev pub zeroed : Memory → (p n : ℕ) → Memory
zeroed m p n = (memset m p (pos 0) (pos n)).0

zeroed-SameOff : (m : Memory) (p n : ℕ) → SameOff p (p + n) m (zeroed m p n)
zeroed-SameOff m p n a out = (memset_lem m p (pos 0) (pos n) a).1 ∙ ground arith

-- A header at `at`: eight regions, and a table at `address`.
abbrev pub IsHeader : Memory → (at address : ℕ) → Type 0
IsHeader m at address = (m (at + 2) ≡ 8) × (m (at + 3) ≡ 0) × (load64 m (at + 8) ≡ address)

-- The 32 bytes of a header are the same.
IsHeader-eq :
    (m g : Memory) (at address : ℕ)
    → ((a : ℕ) → at ≤ a → a < at + 32 → g a ≡ m a)
    → IsHeader m at address
    → IsHeader g at address
IsHeader-eq m g at address same (low, high, word) = (
  same (at + 2) (omega arith) (omega arith) ∙ low,
  same (at + 3) (omega arith) (omega arith) ∙ high,
  load64-eq m g (at + 8) (λ k h. same (at + 8 + k) (omega arith) (omega arith)) ∙ word,
)

pub IsHeader-at : (m : Memory) {p q a b : ℕ} → p ≡ q → a ≡ b → IsHeader m p a → IsHeader m q b
IsHeader-at m {p} {q} {a} {b} e f h =
    subst (λ (k : ℕ). IsHeader m k b) e (subst (λ (k : ℕ). IsHeader m p k) f h)

-- One round of the loop over a memory `m`: `g` is the memory after the allocation at `end`.
module _ (m g : Memory) (at end table address : ℕ) (behind : table ≡ end + 16)
    (below : at + 32 ≤ end)
    (same : SameOff end (end + 16) (poke (poke m (at + 2) 8) (at + 3) 0) g) where
  stored : Memory
  stored = store32 (store32 g (at + 8) (u32 address)) (at + 8 + 4) (address / 2 ^ 32)

  stored-same : (a : ℕ) → (a < at + 8) ⊎ (at + 16 ≤ a) → stored a ≡ g a
  unfolding stored
  stored-same a out =
      store32-SameOff (store32 g (at + 8) (u32 address)) (at + 8 + 4) (address / 2 ^ 32) a
        (omega arith)
      ∙ store32-SameOff g (at + 8) (u32 address) a (omega arith)

  round : Memory
  round = zeroed stored table 256

  round-stored : (a : ℕ) → a < end → round a ≡ stored a
  unfolding round
  round-stored a h = zeroed-SameOff stored table 256 a (inl (omega arith))

  round-same : (a : ℕ) → a < end → (a < at) ⊎ (at + 32 ≤ a) → round a ≡ m a
  round-same a h out =
      round-stored a h ∙ stored-same a (omega arith) ∙ same a (inl h) ∙ ground arith

  round-IsHeader : address < 2 ^ 64 → IsHeader round at address
  unfolding stored
  round-IsHeader small = (
    round-stored (at + 2) (omega arith)
        ∙ stored-same (at + 2) (omega arith)
        ∙ same (at + 2) (inl (omega arith))
        ∙ ground arith,
    round-stored (at + 3) (omega arith)
        ∙ stored-same (at + 3) (omega arith)
        ∙ same (at + 3) (inl (omega arith))
        ∙ ground arith,
    load64-eq stored round (at + 8) (λ k h. round-stored (at + 8 + k) (omega arith))
        ∙ load64-store32 g (at + 8) address
        ∙ omega arith,
  )

-- The tables' blocks follow each other from `end` on, and each table's address is moved by 256 bytes
-- for every header before it.
abbrev pub table_address : (end i j : ℕ) → ℕ
table_address end i j = end + 4112 * j + 16 + 256 * (i + j)

-- What `left` rounds from header `i` on leave.
pub record Filled (h : Heap) (base i left : ℕ) (h' : Heap) : Type 0 where
  pub never_set : h'.have_allocated ≡ false
  pub end : top h' ≡ top h + 4112 * left
  pub headers :
      (j : ℕ) → j < left → IsHeader h'.mem (header_at base (i + j)) (table_address (top h) i j)
  pub untouched :
      (a : ℕ)
      → a < top h
      → (a < header_at base i) ⊎ (header_at base (i + left) ≤ a)
      → h'.mem a ≡ h.mem a

-- What the first round leaves.
record Rounded (h : Heap) (base i : ℕ) (h1 : Heap) : Type 0 where
  pub never_set : h1.have_allocated ≡ false
  pub end : top h1 ≡ top h + 4112
  pub header : IsHeader h1.mem (header_at base i) (top h + 16 + 256 * i)
  pub untouched :
      (a : ℕ)
      → a < top h
      → (a < header_at base i) ⊎ (header_at base i + 32 ≤ a)
      → h1.mem a ≡ h.mem a

-- The heap after the round, when the allocation has given `g` and `table`.
next_heap : (g : Heap) (at i table : ℕ) → Heap
next_heap g at i table =
    let address = u64 (table + i * 2 ^ 8) in
    let m2 = store32 (store32 g.mem (at + 8) (u32 address)) (at + 8 + 4) (address / 2 ^ 32) in
    record g { mem = (memset m2 table (pos 0) (pos 256)).0 }

next_heap-Rounded :
    (h g : Heap) (base i table : ℕ)
    → header_at base i + 32 ≤ top h
    → top h + 4112 + 256 * i < 2 ^ 64
    → Taken
        (record h { mem = poke (poke h.mem (header_at base i + 2) 8) (header_at base i + 3) 0 })
        4112
        g
        table
    → Rounded h base i (next_heap g (header_at base i) i table)
unfolding next_heap round stored
next_heap-Rounded h g base i table below room taken = record {
  never_set = taken.never_set;
  end = taken.end;
  header = (made.0, made.1, made.2 ∙ omega (arith, taken.location));
  untouched = round-same h.mem g.mem at (top h) table address taken.location below taken.untouched;
}
  where
    at : ℕ
    at = header_at base i

    address : ℕ
    address = u64 (table + i * 2 ^ 8)

    made : IsHeader (next_heap g at i table).mem at address
    made =
        round-IsHeader h.mem g.mem at (top h) table address taken.location below taken.untouched
          (omega arith)

header_loop-Rounded :
    (fuel left i : ℕ) (h : Heap) (base : ℕ)
    → h.have_allocated ≡ false
    → header_at base i + 32 ≤ top h
    → top h + 4112 + 256 * i < 2 ^ 64
    → (h1 : Heap) × (header_loop fuel (suc left) i h base ≡ header_loop fuel left (i + 1) h1 base)
      × Rounded h base i h1
unfolding header_loop next_heap
header_loop-Rounded fuel left i h base never below room =
    let m1 = poke (poke h.mem (header_at base i + 2) 8) (header_at base i + 3) 0 in
    let (g, table, allocates, taken) =
      malloc-Taken fuel (record h { mem = m1 }) 4096 never (omega arith) (omega arith) in
    (
      next_heap g (header_at base i) i table,
      bind-done _ allocates refl,
      next_heap-Rounded h g base i table below room taken,
    )

Filled-Rounded :
    {h h1 h' : Heap} {base i left : ℕ}
    → header_at base i + 32 ≤ top h
    → Rounded h base i h1
    → Filled h1 base (i + 1) left h'
    → Filled h base i (suc left) h'
Filled-Rounded {h} {h1} {h'} {base} {i} {left} below r f = record {
  never_set = f.never_set;
  end = f.end ∙ omega (arith, r.end);
  headers = go;
  untouched = λ a l out.
      f.untouched a (omega (arith, r.end)) (omega (arith, out))
      ∙ r.untouched a l (omega (arith, out));
}
  where
    go :
        (j : ℕ)
        → j < suc left
        → IsHeader h'.mem (header_at base (i + j)) (table_address (top h) i j)
    go zero l = IsHeader-at h'.mem (omega arith) (omega arith) (
        IsHeader-eq h1.mem h'.mem (header_at base i) _
          (λ a lo hi. f.untouched a (omega (arith, r.end)) (inl (omega arith))) r.header)
    go (suc j) l =
        IsHeader-at h'.mem (omega arith) (omega (arith, r.end)) (f.headers j (omega arith))

pub header_loop-Filled :
    (fuel left i : ℕ) (h : Heap) (base : ℕ)
    → h.have_allocated ≡ false
    → header_at base (i + left) ≤ top h
    → top h + 4112 * left + 256 * (i + left) < 2 ^ 64
    → (h' : Heap) × (header_loop fuel left i h base ≡ done h') × Filled h base i left h'
unfolding header_loop
header_loop-Filled fuel zero i h base never below room = (
  h,
  refl,
  record {
    never_set = never;
    end = omega arith;
    headers = λ j l. absurd (omega arith);
    untouched = λ a l out. refl;
  },
)
header_loop-Filled fuel (suc left) i h base never below room =
    let (h1, first, rounded) =
      header_loop-Rounded fuel left i h base never (omega arith) (omega arith) in
    let (h', runs, filled) =
      header_loop-Filled fuel left (i + 1) h1 base rounded.never_set (omega (arith, rounded.end))
        (omega (arith, rounded.end)) in
    (h', first ∙ runs, Filled-Rounded (omega arith) rounded filled)
