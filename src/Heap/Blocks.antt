-- ===== src/Heap/Blocks.antt =====
-- The heap of kernel/memory/malloc.c as a sequence of blocks, each header behind the block before.
use sesh_os.Base.{
  ℕ, ◌+◌, ◌^◌, ◌≤◌, ◌<◌, ◌≡◌, ◌∙◌, sym, Bool, false, List, [], ◌∷◌, ◌++◌, arith, if◌then◌else◌,
}
use mathlib.Core.Path.{subst}
use sesh_os.Base.Memory.{Memory, SameOn, SameOff}
use sesh_os.Base.Words.{load64-store64, store64-SameOff, load64-eq}
use sesh_os.Heap.{Heap, mcb_free, mcb_size, set_free, set_size}

-- A block: is it free, and how many bytes does it take, header included?
pub record Block : Type 0 where
  pub is_free : Bool
  pub size : ℕ

abbrev pub block : Bool → ℕ → Block
block f n = record { is_free = f; size = n }

-- The headers of `bs` stand one behind the other from `p` to `q`.
abbrev pub Chain : Memory → ℕ → ℕ → List Block → Type 0
Chain m p q [] = p ≡ q
Chain m p q (b ∷ bs) =
    (mcb_free m p ≡ b.is_free) × (mcb_size m p ≡ b.size) × (16 ≤ b.size) × Chain m (p + b.size) q bs

-- Where the next block is put: at the end of the heap, or at its start before the first call.
abbrev pub top : Heap → ℕ
top h = if h.is_set_up then h.last_valid_address else h.space

-- The heap is made of the blocks `bs`, and is not at address 0.
pub record IsHeap (h : Heap) (bs : List Block) : Type 0 where
  pub never_set : h.have_allocated ≡ false
  pub positive : 0 < h.space
  pub chain : Chain h.mem h.space (top h) bs

pub Chain-le : (m : Memory) (p q : ℕ) (bs : List Block) → Chain m p q bs → p ≤ q
Chain-le m p q [] c = omega arith
Chain-le m p q (b ∷ bs) c = omega (arith, Chain-le m (p + b.size) q bs c.3)

pub mcb_free-eq : (m g : Memory) (p : ℕ) → g p ≡ m p → mcb_free g p ≡ mcb_free m p
unfolding mcb_free
mcb_free-eq m g p e = rw e

pub mcb_size-eq :
    (m g : Memory) (p : ℕ)
    → ((a : ℕ) → p + 8 ≤ a → a < p + 16 → g a ≡ m a)
    → mcb_size g p ≡ mcb_size m p
unfolding mcb_size
mcb_size-eq m g p same = load64-eq m g (p + 8) (λ k h. same (p + 8 + k) (omega arith) (omega arith))

pub mcb_free-set : (m : Memory) (p : ℕ) (b : Bool) → mcb_free (set_free m p b) p ≡ b
unfolding mcb_free set_free
mcb_free-set m p b = ground arith

pub mcb_size-set : (m : Memory) (p v : ℕ) → v < 2 ^ 64 → mcb_size (set_size m p v) p ≡ v
unfolding mcb_size set_size
mcb_size-set m p v h = load64-store64 m (p + 8) v ∙ omega arith

pub set_free-SameOff : (m : Memory) (p : ℕ) (b : Bool) → SameOff p (p + 1) m (set_free m p b)
unfolding set_free
set_free-SameOff m p b a out = ground arith

pub set_size-SameOff : (m : Memory) (p v : ℕ) → SameOff (p + 8) (p + 16) m (set_size m p v)
unfolding set_size
set_size-SameOff m p v a out = store64-SameOff m (p + 8) v a (omega arith)

-- Headers are read alike from memories that agree on the heap.
pub Chain-SameOn :
    (m g : Memory) (p q : ℕ) (bs : List Block) → Chain m p q bs → SameOn p q m g → Chain g p q bs
Chain-SameOn m g p q [] c same = c
Chain-SameOn m g p q (b ∷ bs) c same =
    let end : p + b.size ≤ q = Chain-le m (p + b.size) q bs c.3 in
    (
      mcb_free-eq m g p (same p (omega arith) (omega arith)) ∙ c.0,
      mcb_size-eq m g p (λ a l r. same a (omega arith) (omega arith)) ∙ c.1,
      c.2,
      Chain-SameOn m g (p + b.size) q bs c.3 (λ a l r. same a (omega arith) r),
    )

-- One block more at the end.
pub Chain-append :
    (m : Memory) (p q r : ℕ) (bs : List Block) (b : Block)
    → Chain m p q bs
    → Chain m q r (b ∷ [])
    → Chain m p r (bs ++ b ∷ [])
Chain-append m p q r [] b c d = subst (λ t. Chain m t r (b ∷ [])) (sym c) d
Chain-append m p q r (x ∷ bs) b c d = (c.0, c.1, c.2, Chain-append m (p + x.size) q r bs b c.3 d)
