-- ===== src/Idt/Table.antt =====
-- The table of the six handlers.
use sesh_os.Base.{ℕ, ◌^◌, ◌<◌, ◌≡◌, ◌≢◌, ap, ◌∙◌, List, [], ◌∷◌, get_or, length, arith}
use sesh_os.Base.Run.{done, bind-done}
use sesh_os.Idt.{InterruptEntry, get_interrupt_offset, create_entry, create_entries, Handlers}
use sesh_os.Idt.Gates.{blank, Leads, Created, create_entry-Created}

Leads-eq :
    (s t : List InterruptEntry) (i h : ℕ)
    → get_or t i blank ≡ get_or s i blank
    → Leads s i h
    → Leads t i h
Leads-eq s t i h e old = record {
  offset = ap get_interrupt_offset e ∙ old.offset;
  segment = ap (λ (g : InterruptEntry). g.selector) e ∙ old.segment;
  kind = ap (λ (g : InterruptEntry). g.type_attribute) e ∙ old.kind;
}

-- The gates set so far, each with its handler.
abbrev Set : List InterruptEntry → List (ℕ × ℕ) → Type 0
Set table [] = Unit {0}
Set table ((i, h) ∷ gates) = Leads table i h × Set table gates

abbrev Apart : ℕ → List (ℕ × ℕ) → Type 0
Apart i [] = Unit {0}
Apart i ((k, h) ∷ gates) = (k ≢ i) × Apart i gates

Set-Created :
    {s t : List InterruptEntry} {i h : ℕ} (gates : List (ℕ × ℕ))
    → Created s i h t
    → Apart i gates
    → Set s gates
    → Set t gates
Set-Created [] made apart held = tt
Set-Created {s} {t} ((k, g) ∷ gates) made apart held =
    (Leads-eq s t k g (made.others k apart.0) held.0, Set-Created gates made apart.1 held.1)

create_entry-Set :
    (i handler : ℕ) (table : List InterruptEntry) (gates : List (ℕ × ℕ))
    → length table ≡ 256
    → i < 256
    → handler < 2 ^ 64
    → Apart i gates
    → Set table gates
    → (t : List InterruptEntry) × (create_entry i handler table ≡ done t)
      × (length t ≡ 256)
      × Set t ((i, handler) ∷ gates)
create_entry-Set i handler table gates size low room apart held =
    let (t, runs, made) = create_entry-Created i handler table (omega arith) room in
    (t, runs, made.size ∙ size, (made.set_gate, Set-Created gates made apart held))

-- The vectors and their handlers, the last one set first.
abbrev pub Installed : List InterruptEntry → Handlers → Type 0
Installed t h =
    Leads t 0x69 h.test
    × Leads t 0x21 h.keyboard
    × Leads t 0xD h.gp_fault
    × Leads t 0x8 h.double_fault
    × Leads t 0x0 h.divide_by_zero
    × Leads t 0xE h.page_fault

-- Addresses have 64 bits.
pub record AreAddresses (h : Handlers) : Type 0 where
  pub page_fault : h.page_fault < 2 ^ 64
  pub divide_by_zero : h.divide_by_zero < 2 ^ 64
  pub double_fault : h.double_fault < 2 ^ 64
  pub gp_fault : h.gp_fault < 2 ^ 64
  pub keyboard : h.keyboard < 2 ^ 64
  pub test : h.test < 2 ^ 64

-- `create_idt` fills a table of 256 gates so that the six vectors lead to their handlers: 0 to the
-- division error, 8 to the double fault, 13 to the general protection fault, 14 to the page fault,
-- 0x21 to the keyboard and 0x69 to the test handler.
pub create_entries-Installed :
    (h : Handlers) (table : List InterruptEntry)
    → length table ≡ 256
    → AreAddresses h
    → (t : List InterruptEntry) × (create_entries h table ≡ done t) × Installed t h
unfolding create_entries
create_entries-Installed h t0 size fit =
    let (t1, r1, n1, s1) =
      create_entry-Set 0xE h.page_fault t0 ([]) size (omega arith) fit.page_fault tt tt in
    let (t2, r2, n2, s2) =
      create_entry-Set 0x0 h.divide_by_zero t1 ((0xE, h.page_fault) ∷ []) n1 (omega arith)
        fit.divide_by_zero ((λ e. omega arith), tt) s1 in
    let (t3, r3, n3, s3) =
      create_entry-Set 0x8 h.double_fault t2 ((0x0, h.divide_by_zero) ∷ (0xE, h.page_fault) ∷ []) n2
        (omega arith) fit.double_fault ((λ e. omega arith), ((λ e. omega arith), tt)) s2 in
    let (t4, r4, n4, s4) =
      create_entry-Set 0xD h.gp_fault t3
        ((0x8, h.double_fault) ∷ (0x0, h.divide_by_zero) ∷ (0xE, h.page_fault) ∷ []) n3
        (omega arith) fit.gp_fault
        ((λ e. omega arith), ((λ e. omega arith), ((λ e. omega arith), tt))) s3 in
    let (t5, r5, n5, s5) =
      create_entry-Set 0x21 h.keyboard t4
        ((0xD, h.gp_fault)
          ∷ (0x8, h.double_fault)
          ∷ (0x0, h.divide_by_zero)
          ∷ (0xE, h.page_fault)
          ∷ [])
        n4 (omega arith) fit.keyboard
        ((λ e. omega arith), ((λ e. omega arith), ((λ e. omega arith), ((λ e. omega arith), tt))))
        s4 in
    let (t6, r6, n6, s6) =
      create_entry-Set 0x69 h.test t5
        ((0x21, h.keyboard)
          ∷ (0xD, h.gp_fault)
          ∷ (0x8, h.double_fault)
          ∷ (0x0, h.divide_by_zero)
          ∷ (0xE, h.page_fault)
          ∷ [])
        n5 (omega arith) fit.test
        (
          (λ e. omega arith),
          (
            (λ e. omega arith),
            ((λ e. omega arith), ((λ e. omega arith), ((λ e. omega arith), tt))),
          ),
        )
        s5 in
    (
      t6,
      bind-done _ r1 (bind-done _ r2 (bind-done _ r3 (bind-done _ r4 (bind-done _ r5 (r6))))),
      (s6.0, s6.1.0, s6.1.1.0, s6.1.1.1.0, s6.1.1.1.1.0, s6.1.1.1.1.1.0),
    )
