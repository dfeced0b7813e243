-- ===== src/GuestMemory/Mapped.antt =====
-- What the checks of src/vmx/guest.rs let through.
use aleph0_virtualization_hy.Base.{
  ℕ, ◌+◌, ◌*◌, ◌/◌, ◌%◌, ◌^◌, ◌≡◌, ◌⊎◌, inl, inr, refl, ap, ◌∙◌, subst, Bool, true, false, not,
  ◌&&◌, arith, Option, none, some, bit_and, ◌!=◌, Bool-cases, if◌then◌else◌, Result, ok, err,
}
use aleph0_virtualization_hy.Base.Bits.{bit_and_flag}
use aleph0_virtualization_hy.Paging.{Mapping, WalkError, walk_current, cr4_la57, five_level_paging}
use aleph0_virtualization_hy.Paging.Reading.{read_pml4, walk-read_pml4}
use aleph0_virtualization_hy.Paging.Entry.{table_of}
use aleph0_virtualization_hy.GuestMemory.{
  GuestMemoryError, Checked, ◌then◌, refuse_if, check_identity, check_permissions,
  check_idt_permissions, check_data_permissions, GuestMappings, GuestMemory, data_page, Walked,
  ◌>>=◌, or_not_mapped, check_all, check_mappings, code_not_mapped, stack_not_mapped,
  idt_not_mapped, data_not_mapped,
}

refuse_if-inv : (b : Bool) (e : GuestMemoryError) {u : Unit {0}} → refuse_if b e ≡ ok u → b ≡ false
refuse_if-inv true e h = absurd cc
refuse_if-inv false e h = refl

then-inv : (a b : Checked) {u : Unit {0}} → (a then b) ≡ ok u → (a ≡ ok tt) × (b ≡ ok tt)
then-inv (ok done) b h = (refl, h)
then-inv (err e) b h = absurd cc

bind-inv :
    {A B : Type 0} (r : Walked A) (f : A → Walked B) (b : B)
    → (r >>= f) ≡ some (ok b)
    → (a : A) × (r ≡ some (ok a)) × (f a ≡ some (ok b))
bind-inv (some (ok a)) f b h = (a, refl, h)
bind-inv (some (err e)) f b h = absurd cc
bind-inv none f b h = absurd cc

or_not_mapped-inv :
    (error : WalkError → GuestMemoryError) (r : Option (Result Mapping WalkError))
    (mapping : Mapping)
    → or_not_mapped error r ≡ some (ok mapping)
    → r ≡ some (ok mapping)
or_not_mapped-inv error (some (ok found)) mapping h = cc
or_not_mapped-inv error (some (err e)) mapping h = absurd cc
or_not_mapped-inv error none mapping h = absurd cc

-- What a page needs to be used by the guest in ring 0: `cr4` blocks no user page.
abbrev pub IsReachable : ℕ → Mapping → Type 0
IsReachable bit mapping = (mapping.user ≡ false) ⊎ (bit ≡ 0)

-- The four pages are where they seem, the code can be executed, the stack and the data written, and
-- none is a user page that SMEP (the code) or SMAP (the others) blocks.
pub record AreUsable (cr4 : ℕ) (memory : GuestMemory) (maps : GuestMappings) : Type 0 where
  pub code_at : maps.code.physical ≡ memory.code
  pub stack_at : maps.stack.physical ≡ memory.stack
  pub idt_at : maps.idt.physical ≡ memory.idt
  pub data_at : maps.data_page.physical ≡ data_page memory
  pub code_executable : maps.code.execute_disable ≡ false
  pub code_reachable : IsReachable (cr4 / 2 ^ 20 % 2) maps.code
  pub stack_writable : maps.stack.writable ≡ true
  pub stack_reachable : IsReachable (cr4 / 2 ^ 21 % 2) maps.stack
  pub idt_reachable : IsReachable (cr4 / 2 ^ 21 % 2) maps.idt
  pub data_writable : maps.data_page.writable ≡ true
  pub data_reachable : IsReachable (cr4 / 2 ^ 21 % 2) maps.data_page

check_identity-inv :
    (address : ℕ) (mapping : Mapping)
    → check_identity address mapping ≡ ok tt
    → mapping.physical ≡ address
unfolding check_identity
check_identity-inv address mapping h =
    let same = refuse_if-inv (mapping.physical != address) _ h in ground arith

reachable :
    (cr4 mask bit : ℕ) (mapping : Mapping)
    → (bit_and cr4 mask ≡ 0 → bit ≡ 0)
    → (mapping.user && (bit_and cr4 mask != 0)) ≡ false
    → IsReachable bit mapping
reachable cr4 mask bit mapping clear h = elim (Bool-cases mapping.user) [
  | inr kernel ↦ inl kernel
  | inl user ↦ inr (clear (ground arith))
]

check_all-AreUsable :
    (cr4 : ℕ) (memory : GuestMemory) (maps : GuestMappings)
    → check_all cr4 memory maps ≡ ok tt
    → AreUsable cr4 memory maps
unfolding check_all check_permissions check_idt_permissions check_data_permissions
check_all-AreUsable cr4 memory maps h =
    let smep : bit_and cr4 (2 ^ 20) ≡ 0 → cr4 / 2 ^ 20 % 2 ≡ 0 =
      λ z. omega (arith, z, bit_and_flag 20 cr4) in
    let smap : bit_and cr4 (2 ^ 21) ≡ 0 → cr4 / 2 ^ 21 % 2 ≡ 0 =
      λ z. omega (arith, z, bit_and_flag 21 cr4) in
    let (h6, data_ok) = then-inv _ (check_data_permissions maps.data_page cr4) h in
    let (h5, idt_ok) = then-inv _ (check_idt_permissions maps.idt cr4) h6 in
    let (h4, permitted) = then-inv _ (check_permissions maps.code maps.stack cr4) h5 in
    let (h3, at_data) = then-inv _ (check_identity (data_page memory) maps.data_page) h4 in
    let (h2, at_idt) = then-inv _ (check_identity memory.idt maps.idt) h3 in
    let (at_code, at_stack) = then-inv _ (check_identity memory.stack maps.stack) h2 in
    let (p3, stack_user) = then-inv _ _ permitted in
    let (p2, stack_read_only) = then-inv _ _ p3 in
    let (p1, code_user) = then-inv _ _ p2 in
    let (data_read_only, data_user) = then-inv _ _ data_ok in
    record {
      code_at = check_identity-inv _ _ at_code;
      stack_at = check_identity-inv _ _ at_stack;
      idt_at = check_identity-inv _ _ at_idt;
      data_at = check_identity-inv _ _ at_data;
      code_executable = refuse_if-inv _ _ p1;
      code_reachable = reachable cr4 _ _ maps.code smep (refuse_if-inv _ _ code_user);
      stack_writable =
          let e = refuse_if-inv (not maps.stack.writable) _ stack_read_only in ground arith;
      stack_reachable = reachable cr4 _ _ maps.stack smap (refuse_if-inv _ _ stack_user);
      idt_reachable = reachable cr4 _ _ maps.idt smap (refuse_if-inv _ _ idt_ok);
      data_writable =
          let e = refuse_if-inv (not maps.data_page.writable) _ data_read_only in ground arith;
      data_reachable = reachable cr4 _ _ maps.data_page smap (refuse_if-inv _ _ data_user);
    }

-- When `check_mappings` succeeds, its mappings are those of the page tables, each page is mapped to
-- itself, the guest in ring 0 can execute the code and write to the stack and to the data page, and
-- neither SMEP nor SMAP blocks one of them.
pub check_mappings-AreUsable :
    (walked : ℕ → Option (Result Mapping WalkError)) (cr4 : ℕ) (memory : GuestMemory)
    (maps : GuestMappings)
    → check_mappings walked cr4 memory ≡ some (ok maps)
    → (walked memory.code ≡ some (ok maps.code))
      × (walked memory.stack ≡ some (ok maps.stack))
      × (walked memory.idt ≡ some (ok maps.idt))
      × (walked (data_page memory) ≡ some (ok maps.data_page))
      × AreUsable cr4 memory maps
unfolding check_mappings
check_mappings-AreUsable walked cr4 memory maps h =
    let (code, e1, h1) = bind-inv (or_not_mapped code_not_mapped (walked memory.code)) _ maps h in
    let (stack, e2, h2) =
      bind-inv (or_not_mapped stack_not_mapped (walked memory.stack)) _ maps h1 in
    let (idt, e3, h3) = bind-inv (or_not_mapped idt_not_mapped (walked memory.idt)) _ maps h2 in
    let (page, e4, h4) =
      bind-inv (or_not_mapped data_not_mapped (walked (data_page memory))) _ maps h3 in
    let found : GuestMappings = record {
      code = code;
      stack = stack;
      idt = idt;
      data_page = page;
    } in
    let (checked, e5, h5) = bind-inv (some (check_all cr4 memory found)) _ maps h4 in
    let same : found ≡ maps = cc in
    let holds : check_all cr4 memory found ≡ ok tt = cc in
    subst
      (λ (x : GuestMappings).
        (walked memory.code ≡ some (ok x.code))
        × (walked memory.stack ≡ some (ok x.stack))
        × (walked memory.idt ≡ some (ok x.idt))
        × (walked (data_page memory) ≡ some (ok x.data_page))
        × AreUsable cr4 memory x)
      same
      (
        or_not_mapped-inv _ _ code e1,
        or_not_mapped-inv _ _ stack e2,
        or_not_mapped-inv _ _ idt e3,
        or_not_mapped-inv _ _ page e4,
        check_all-AreUsable cr4 memory found holds,
      )

-- `walk_current` always returns, also with five-level paging on.
walk_current-returns :
    (cells : ℕ → ℕ) (cr4 cr3 va : ℕ)
    → (r : Result Mapping WalkError) × (walk_current cells cr4 cr3 va ≡ some r)
unfolding walk_current
walk_current-returns cells cr4 cr3 va = elim (Bool-cases (bit_and cr4 cr4_la57 != 0)) [
  | inl five ↦ (err five_level_paging, rw (walk_current, five) refl)
  | inr four ↦ (
    read_pml4 va cells (cells (table_of cr3 + va / 2 ^ 39 % 512 * 8)) true true false,
    rw (walk_current, four) (walk-read_pml4 va cells cr3),
  )
]

abbrev pub Returns : {A : Type 0} → Walked A → Type 0
Returns {A} r = (x : Result A GuestMemoryError) × (r ≡ some x)

or_not_mapped-Returns :
    (error : WalkError → GuestMemoryError) (r : Option (Result Mapping WalkError))
    → ((x : Result Mapping WalkError) × (r ≡ some x))
    → Returns (or_not_mapped error r)
or_not_mapped-Returns error r (ok mapping, e) = (ok mapping, ap (or_not_mapped error) e)
or_not_mapped-Returns error r (err x, e) = (err (error x), ap (or_not_mapped error) e)

bind-Returns :
    {A B : Type 0} (r : Walked A) (f : A → Walked B)
    → Returns r
    → ((a : A) → Returns (f a))
    → Returns (r >>= f)
bind-Returns r f (ok a, e) h = ((h a).0, ap (λ x. x >>= f) e ∙ (h a).1)
bind-Returns r f (err x, e) h = (err x, ap (λ x. x >>= f) e)

-- On every memory, CR3 and CR4, `check_mappings` returns: no walk of the page tables runs past the
-- last level.
pub check_mappings-Returns :
    (cells : ℕ → ℕ) (cr3 cr4 : ℕ) (memory : GuestMemory)
    → Returns (check_mappings (walk_current cells cr4 cr3) cr4 memory)
unfolding check_mappings
check_mappings-Returns cells cr3 cr4 memory =
    let walked = walk_current cells cr4 cr3 in
    let step : (error : WalkError → GuestMemoryError) (address : ℕ)
        → Returns (or_not_mapped error (walked address)) =
      λ error address. or_not_mapped-Returns error _ (walk_current-returns cells cr4 cr3 address) in
    bind-Returns _ _ (step code_not_mapped memory.code) (λ code.
      bind-Returns _ _ (step stack_not_mapped memory.stack) (λ stack.
        bind-Returns _ _ (step idt_not_mapped memory.idt) (λ idt.
          bind-Returns _ _ (step data_not_mapped (data_page memory)) (λ page.
            bind-Returns _ _
              (
                check_all cr4 memory
                    (record { code = code; stack = stack; idt = idt; data_page = page }),
                refl,
              )
              (λ checked.
                (ok (record { code = code; stack = stack; idt = idt; data_page = page }), refl))))))
