-- ===== src/Intr/Setup.antt =====
-- INTERRUPTS::init of intr.cpp: the descriptor table and the default handlers.
use ckernel.Prelude.{◌≢◌, false}
use ckernel.Prelude.{
  ℕ, zero, suc, ◌+◌, ◌*◌, ◌/◌, ◌%◌, ◌^◌, ◌≤◌, ◌<◌, ◌≡◌, refl, ◌∙◌, ap, Bool, true, arith,
}
use ckernel.Prelude.{if◌then◌else◌, ltb, leb, ◌&&◌, ◌||◌, Option, some, ◌⊎◌}
use ckernel.Word.{u8}
use ckernel.Word.Bits.{bit_and_mask}
use ckernel.Intr.{
  IdtEntry, Interrupts, empty_entry, gate, make_idt_entry, set_gates, set_default,
  register_intr_handler, pic_init, tables, init,
}

-- `i ≤ q < i + n`
abbrev between : ℕ → ℕ → ℕ → Bool
between i n q = leb i q && ltb q (i + n)

-- The address that an entry holds.
abbrev pub target : IdtEntry → ℕ
target e = e.offset_low + e.offset_mid * 2 ^ 16 + e.offset_high * 2 ^ 32

gate-target : (addr type dpl p : ℕ) → addr < 2 ^ 64 → target (gate addr type dpl p) ≡ addr
gate-target addr type dpl p small =
    omega (
      arith,
      bit_and_mask 16 addr,
      bit_and_mask 16 (addr / 2 ^ 16),
      bit_and_mask 32 (addr / 2 ^ 32),
    )

module _ {S : Type 0} where
  set_gates_lem :
      (stub : ℕ → ℕ) (n vec : ℕ) (x : Interrupts S) (q : ℕ)
      → (set_gates stub n vec x).idt q
        ≡ (if between vec n q then gate (stub q) 0xE 0 1 else x.idt q)
  unfolding set_gates
  set_gates_lem stub zero vec x q = ground arith
  set_gates_lem stub (suc n) vec x q =
      ground (arith, set_gates_lem stub n (vec + 1) (make_idt_entry vec (stub vec) 0xE 0 1 x) q)

  set_gates-handlers :
      (stub : ℕ → ℕ) (n vec : ℕ) (x : Interrupts S)
      → (set_gates stub n vec x).interrupt_handlers ≡ x.interrupt_handlers
  unfolding set_gates
  set_gates-handlers stub zero vec x = refl
  set_gates-handlers stub (suc n) vec x =
      set_gates-handlers stub n (vec + 1) (make_idt_entry vec (stub vec) 0xE 0 1 x)

  set_default_lem :
      (handler : ℕ → S → S) (n i : ℕ) (x : Interrupts S) (q : ℕ)
      → i + n ≤ 256
      → (set_default handler n i x).interrupt_handlers q
        ≡ (if between i n q then some handler else x.interrupt_handlers q)
  unfolding set_default
  set_default_lem handler zero i x q fits = ground arith
  set_default_lem handler (suc n) i x q fits =
      let narrow : u8 i ≡ i = omega arith in
      ground (
        arith,
        narrow,
        set_default_lem handler n (i + 1) (register_intr_handler i handler x) q (omega arith),
      )

  set_default-idt :
      (handler : ℕ → S → S) (n i : ℕ) (x : Interrupts S) → (set_default handler n i x).idt ≡ x.idt
  unfolding set_default
  set_default-idt handler zero i x = refl
  set_default-idt handler (suc n) i x =
      set_default-idt handler n (i + 1) (register_intr_handler i handler x)

-- The vectors that get an entry: the processor's exceptions up to 20 and the 16 hardware interrupts.
abbrev pub IsVector : ℕ → Type 0
IsVector q = (q < 21) ⊎ ((32 ≤ q) × (q < 48))

-- `x'` is `x` after a complete `init`.
pub record IsSetUp {S : Type 0} (idt_addr : ℕ) (stub : ℕ → ℕ) (handler : ℕ → S → S)
    (x x' : Interrupts S) : Type 0 where
  pub targets : (q : ℕ) → IsVector q → target (x'.idt q) ≡ stub q
  pub present : (q : ℕ) → IsVector q → (x'.idt q).p ≡ 1
  pub kernel_only : (q : ℕ) → IsVector q → (x'.idt q).dpl ≡ 0
  pub others : (q : ℕ) → ¬ IsVector q → x'.idt q ≡ empty_entry
  pub defaults : (q : ℕ) → q < 32 → x'.interrupt_handlers q ≡ some handler
  pub rest : (q : ℕ) → 32 ≤ q → x'.interrupt_handlers q ≡ x.interrupt_handlers q
  pub base : x'.idtr_base ≡ idt_addr % 2 ^ 32
  pub limit : x'.idtr_limit ≡ 4095

module _ {S : Type 0} (idt_addr : ℕ) (stub : ℕ → ℕ) (handler : ℕ → S → S) (x : Interrupts S) where
  tables-idt :
      (q : ℕ)
      → (tables idt_addr stub handler x).idt q
        ≡ (if between 32 16 q || between 0 21 q then gate (stub q) 0xE 0 1 else empty_entry)
  unfolding tables
  tables-idt q =
      let cleared : Interrupts S = record x { idt = λ v. empty_entry } in
      let faults = set_gates stub 21 0 cleared in
      let built = set_gates stub 16 32 faults in
      let same = ap (λ (t : ℕ → IdtEntry). t q) (set_default-idt handler 32 0 built) in
      same ∙ ground (arith, set_gates_lem stub 16 32 faults q, set_gates_lem stub 21 0 cleared q)

  tables-handlers :
      (q : ℕ)
      → (tables idt_addr stub handler x).interrupt_handlers q
        ≡ (if ltb q 32 then some handler else x.interrupt_handlers q)
  unfolding tables
  tables-handlers q =
      let cleared : Interrupts S = record x { idt = λ v. empty_entry } in
      let faults = set_gates stub 21 0 cleared in
      let built = set_gates stub 16 32 faults in
      let same = set_gates-handlers stub 16 32 faults ∙ set_gates-handlers stub 21 0 cleared in
      set_default_lem handler 32 0 built q (omega arith)
      ∙ ground (arith, ap (λ (t : ℕ → Option (ℕ → S → S)). t q) same)

  tables-gate :
      (q : ℕ) → IsVector q → (tables idt_addr stub handler x).idt q ≡ gate (stub q) 0xE 0 1
  tables-gate q v = tables-idt q ∙ ground (arith, v)

  tables-IsSetUp :
      ((q : ℕ) → stub q < 2 ^ 64) → IsSetUp idt_addr stub handler x (tables idt_addr stub handler x)
  unfolding tables
  tables-IsSetUp small = record {
    targets = λ q v. ap target (tables-gate q v) ∙ gate-target (stub q) 0xE 0 1 (small q);
    present = λ q v. ap (λ (e : IdtEntry). e.p) (tables-gate q v);
    kernel_only = λ q v. ap (λ (e : IdtEntry). e.dpl) (tables-gate q v);
    others = λ q not_vector. tables-idt q ∙ ground (arith, not_vector);
    defaults = λ q h. tables-handlers q ∙ ground arith;
    rest = λ q h. tables-handlers q ∙ ground arith;
    base = refl;
    limit = refl;
  }

-- If the table is aligned to 16 bytes and lies between 1 MiB and 2^48, the entry points are addresses of
-- 64 bits and the table is loaded, `init` succeeds. Exactly the vectors 0 to 20 and 32 to 47 have an
-- entry; it is present, for the kernel only, and holds the address of the vector's entry point. The vectors below 32
-- have the default handler, the other handlers are as before. The base is cut to 32 bits.
pub init-IsSetUp :
    {S : Type 0} (idt_addr : ℕ) (stub : ℕ → ℕ) (handler : ℕ → S → S) (x : Interrupts S)
    → idt_addr % 16 ≡ 0
    → 0x100000 ≤ idt_addr
    → idt_addr ≤ 0xFFFFFFFFFFFF
    → ((q : ℕ) → stub q < 2 ^ 64)
    → (x' : Interrupts S) × (init idt_addr stub handler true x ≡ (true, x'))
      × IsSetUp idt_addr stub handler x x'
unfolding init pic_init
init-IsSetUp {S} idt_addr stub handler x aligned low high small =
    let s = tables-IsSetUp idt_addr stub handler x small in
    let whole = bit_and_mask 4 idt_addr in
    (
      pic_init (tables idt_addr stub handler x),
      ground (arith, whole, aligned),
      record {
        targets = s.targets;
        present = s.present;
        kernel_only = s.kernel_only;
        others = s.others;
        defaults = s.defaults;
        rest = s.rest;
        base = s.base;
        limit = s.limit;
      },
    )

-- A table that is not aligned to 16 bytes or lies outside 1 MiB to 2^48 is refused, and nothing changes.
pub init_refused :
    {S : Type 0} (idt_addr : ℕ) (stub : ℕ → ℕ) (handler : ℕ → S → S) (loaded : Bool)
    (x : Interrupts S)
    → (idt_addr % 16 ≢ 0) ⊎ ((idt_addr < 0x100000) ⊎ (0xFFFFFFFFFFFF < idt_addr))
    → init idt_addr stub handler loaded x ≡ (false, x)
unfolding init
init_refused idt_addr stub handler loaded x bad = ground (arith, bit_and_mask 4 idt_addr, bad)
