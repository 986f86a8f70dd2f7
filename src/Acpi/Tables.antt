-- ===== src/Acpi/Tables.antt =====
-- Which table the search of kernel/acpi/acpi.c finds, and how it fails.
use sesh_os.Base.{
  ℕ, zero, suc, ◌+◌, ◌<◌, ◌≤◌, ◌≡◌, refl, sym, true, false, ◌⊎◌, ◌↔◌, inl, inr, arith,
  if◌then◌else◌, Bool-cases, ◌==◌, ==→eq, List, [], ◌∷◌, ◌++◌, Bool,
}
use mathlib.Core.Path.{subst}
use sesh_os.Base.Int.{is_zero→eq, eq→is_zero}
use sesh_os.Base.Memory.{Memory}
use sesh_os.Base.Words.{load32}
use sesh_os.Mem.Compare.{SameBytes, memcmp-zero_iff}
use sesh_os.Acpi.{
  Literals, Message, Acpi, returned, panicked, finished, is_literal, entry, entries, look_at,
  entries_loop, acpi_init, told, level, bad_acpi, signature_not_correct, report_rsdp, report_rsdt,
}

-- The `n` bytes at `p` are the signature at `literal`.
is_literal-SameBytes :
    (m : Memory) (p literal n : ℕ) → (is_literal m p literal n ≡ true) ↔ SameBytes m p literal n
unfolding is_literal
is_literal-SameBytes m p literal n = (
  λ h. (memcmp-zero_iff m p literal n).0 (is_zero→eq _ h),
  λ h. eq→is_zero _ ((memcmp-zero_iff m p literal n).1 h),
)

not_literal :
    (m : Memory) (p literal n : ℕ) → ¬ SameBytes m p literal n → is_literal m p literal n ≡ false
not_literal m p literal n h = elim (Bool-cases (is_literal m p literal n)) [
  | inl same ↦ absurd (h ((is_literal-SameBytes m p literal n).0 same))
  | inr other ↦ other
]

-- The entry `k` points to a table with the signature of an MCFG.
abbrev pub IsMcfg : Literals → Memory → (rsdt k : ℕ) → Type 0
IsMcfg lits m rsdt k = SameBytes m (entry m rsdt k) lits.mcfg 4

-- From entry `i` up to `end`, the last MCFG is at `mcfg`, which is `old` if there is none.
abbrev pub LastMcfg : Literals → Memory → (rsdt i end old mcfg : ℕ) → Type 0
LastMcfg lits m rsdt i end old mcfg =
    ((k : ℕ) × (i ≤ k)
      × (k < end)
      × IsMcfg lits m rsdt k
      × (mcfg ≡ entry m rsdt k)
      × ((j : ℕ) → k < j → j < end → ¬ IsMcfg lits m rsdt j))
    ⊎ ((mcfg ≡ old) × ((j : ℕ) → i ≤ j → j < end → ¬ IsMcfg lits m rsdt j))

refused : {b : Bool} → b ≡ false → b ≡ true → ⊥
refused e f = ground arith

module _ (lits : Literals) (m : Memory) where
  look_at-mcfg :
      (h : ℕ) (a : Acpi)
      → ((look_at lits m h a).mcfg ≡ (if is_literal m h lits.mcfg 4 then h else a.mcfg))
  unfolding look_at
  look_at-mcfg h a = elim (Bool-cases (is_literal m h lits.mcfg 4)) [
    | inl found ↦ rw found refl
    | inr other ↦ elim (Bool-cases (is_literal m h lits.facp 4)) [
      | inl facp ↦ rw (other, facp) refl
      | inr none_ ↦ rw (other, none_) refl
    ]
  ]

  no_earlier :
      (rsdt i end : ℕ)
      → ¬ IsMcfg lits m rsdt i
      → ((j : ℕ) → i + 1 ≤ j → j < end → ¬ IsMcfg lits m rsdt j)
      → (j : ℕ) → i ≤ j
      → j < end
      → ¬ IsMcfg lits m rsdt j
  no_earlier rsdt i end first later j l r is = elim (Bool-cases (i == j)) [
    | inl same ↦ first (subst (IsMcfg lits m rsdt) (sym (==→eq i j same)) is)
    | inr other ↦ later j (ground arith) r is
  ]

  LastMcfg-step :
      (rsdt i end old next mcfg : ℕ)
      → i < end
      → next ≡ (if is_literal m (entry m rsdt i) lits.mcfg 4 then entry m rsdt i else old)
      → LastMcfg lits m rsdt (i + 1) end next mcfg
      → LastMcfg lits m rsdt i end old mcfg
  LastMcfg-step rsdt i end old next mcfg h e (inl (k, l, r, is, eq, last)) =
      inl (k, omega arith, r, is, eq, last)
  LastMcfg-step rsdt i end old next mcfg h e (inr (same, later)) =
      elim (Bool-cases (is_literal m (entry m rsdt i) lits.mcfg 4)) [
        | inl found ↦ inl (
          i,
          omega arith,
          h,
          (is_literal-SameBytes m _ _ 4).0 found,
          ground arith,
          λ j l r. later j (omega arith) r,
        )
        | inr other ↦ inr (
          ground arith,
          no_earlier rsdt i end (λ is. refused other ((is_literal-SameBytes m _ lits.mcfg 4).1 is))
              later,
        )
      ]

  entries_loop-LastMcfg :
      (rsdt left i end : ℕ) (a : Acpi)
      → i + left ≡ end
      → LastMcfg lits m rsdt i end a.mcfg (entries_loop lits m rsdt left i a).mcfg
  unfolding entries_loop
  entries_loop-LastMcfg rsdt zero i end a e = inr (refl, λ j l h. absurd (omega arith))
  entries_loop-LastMcfg rsdt (suc left) i end a e =
      LastMcfg-step rsdt i end a.mcfg _ _ (omega arith) (look_at-mcfg (entry m rsdt i) a) (
        entries_loop-LastMcfg rsdt left (i + 1) end (look_at lits m (entry m rsdt i) a)
          (omega arith))

-- On a root table with its signature, reached from a descriptor with its own, `ACPI_Init` runs to
-- its end, and `mcfg` is the last of the tables that the root table points to which has the
-- signature of an MCFG; if none has, `mcfg` is what it was.
pub acpi_init-LastMcfg :
    (w : ℕ) (lits : Literals) (m : Memory) (p rsdt : ℕ) (a : Acpi)
    → SameBytes m p lits.rsd_ptr 8
    → load32 m (p + 16) ≡ rsdt
    → SameBytes m rsdt lits.rsdt 4
    → (a' : Acpi) × (acpi_init w lits m p a ≡ finished a')
      × LastMcfg lits m rsdt 0 (entries m rsdt) a.mcfg a'.mcfg
unfolding acpi_init report_rsdp report_rsdt
acpi_init-LastMcfg w lits m p rsdt a signed at root = (
  entries_loop lits m rsdt (entries m rsdt) 0 (report_rsdt w m rsdt (report_rsdp m p a)),
  rw
      (
        at,
        (is_literal-SameBytes m p lits.rsd_ptr 8).1 signed,
        (is_literal-SameBytes m rsdt lits.rsdt 4).1 root,
      )
      refl,
  entries_loop-LastMcfg lits m rsdt (entries m rsdt) 0 (entries m rsdt) _ (omega arith),
)

-- With a wrong signature of the descriptor `ACPI_Init` returns at once, and with a wrong one of the
-- root table it panics: in both cases `mcfg` is what it was, and the last message is fatal.
pub acpi_init-error :
    (w : ℕ) (lits : Literals) (m : Memory) (p : ℕ) (a : Acpi)
    → (¬ SameBytes m p lits.rsd_ptr 8) ⊎ (¬ SameBytes m (load32 m (p + 16)) lits.rsdt 4)
    → (a' : Acpi) × (message : Message) × (before : List Message) × ((acpi_init w lits m p a
          ≡ returned a')
        ⊎ (acpi_init w lits m p a ≡ panicked a'))
      × (a'.mcfg ≡ a.mcfg)
      × (a'.messages ≡ before ++ message ∷ [])
      × (level message ≡ 5)
unfolding acpi_init level report_rsdp
acpi_init-error w lits m p a bad = elim (Bool-cases (is_literal m p lits.rsd_ptr 8)) [
  | inl signed ↦ (
    told (signature_not_correct (load32 m (p + 16)) ∷ []) (report_rsdp m p a),
    signature_not_correct (load32 m (p + 16)),
    (report_rsdp m p a).messages,
    inr (rw (signed, not_literal m _ _ 4 (wrong_root signed)) refl),
    refl,
    refl,
    refl,
  )
  | inr unsigned ↦
      (told (bad_acpi ∷ []) a, bad_acpi, a.messages, inl (rw unsigned refl), refl, refl, refl)
]
  where
    wrong_root :
        is_literal m p lits.rsd_ptr 8 ≡ true → ¬ SameBytes m (load32 m (p + 16)) lits.rsdt 4
    wrong_root signed = elim bad [
      | inl no_rsdp ↦ absurd (no_rsdp ((is_literal-SameBytes m p lits.rsd_ptr 8).0 signed))
      | inr no_rsdt ↦ no_rsdt
    ]
