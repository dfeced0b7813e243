-- ===== src/ExitDecision/Safety.antt =====
-- What `decide` lets happen: which instructions Aleph0 executes for the guest, when it injects,
-- when it opens the protected page, and that a refused exit changes nothing.
use aleph0_virtualization_hy.Base.{
  ℕ, ◌+◌, ◌-◌, ◌*◌, ◌/◌, ◌%◌, ◌^◌, ◌≤◌, ◌<◌, ◌≡◌, refl, ap₂, ◌∙◌, ◌⊎◌, true, false, Option, none,
  some, arith, bit_and, bit_or, u32, shl64,
}
use aleph0_virtualization_hy.Base.Bits.{bit_and_low, bit_and_flag, bit_or_add}
use aleph0_virtualization_hy.ExitBitmaps.{contains, intercepted_msrs, vmcs_held_msrs}
use aleph0_virtualization_hy.ExitDecision.Types.{
  ExitInfo, IsWord, ExitState, ExitEvent, Emulation, emulated, IoSize, byte, word, dword,
}
use aleph0_virtualization_hy.ExitDecision.Emulation.{
  bytes, cpuid, rdmsr, wrmsr, io, MsrRoute, intercepted, out_of_range, not_intercepted, route,
  wrmsr_by, io_sized, size, is_in, is_string, is_rep, port,
}
use aleph0_virtualization_hy.ExitDecision.Scenario.{
  exception_or_nmi, nmi_window, ept_violation, vmcall,
}
use aleph0_virtualization_hy.ExitDecision.Registers.{is_canonical_48_lem, bits, out_value_lem}
use aleph0_virtualization_hy.ExitDecision.Decide.{decide, decide-elim}

-- Bits 63:47 all 0 or all 1.
abbrev pub IsCanonical : ℕ → Type 0
IsCanonical v = (v < 2 ^ 47) ⊎ (2 ^ 64 - 2 ^ 47 ≤ v)

-- An MSR that Aleph0 may execute RDMSR and WRMSR of.
abbrev pub IsPassedThrough : ℕ → Type 0
IsPassedThrough m = (contains intercepted_msrs m ≡ true) × (contains vmcs_held_msrs m ≡ false)

abbrev pub IsPlainIo : ExitInfo → ℕ → IoSize → Type 0
IsPlainIo exit port size =
    (port ≡ exit.qualification / 2 ^ 16 % 2 ^ 16)
    × (exit.qualification % 8 + 1 ≡ bytes size)
    × (exit.qualification / 2 ^ 4 % 2 ≡ 0)
    × (exit.qualification / 2 ^ 5 % 2 ≡ 0)

-- The instruction that the exit stands for, with its operands.
abbrev pub IsOf : ExitInfo → Emulation → Type 0
IsOf exit (Emulation.cpuid leaf subleaf) =
    (exit.reason.basic ≡ 10)
    × (leaf ≡ exit.guest_rax % 2 ^ 32)
    × (subleaf ≡ exit.guest_rcx % 2 ^ 32)
IsOf exit (Emulation.rdmsr msr) =
    (exit.reason.basic ≡ 31) × (msr ≡ exit.guest_rcx % 2 ^ 32) × IsPassedThrough msr
IsOf exit (Emulation.wrmsr msr value) =
    (exit.reason.basic ≡ 32)
    × (msr ≡ exit.guest_rcx % 2 ^ 32)
    × IsPassedThrough msr
    × (value ≡ exit.guest_rdx % 2 ^ 32 * 2 ^ 32 + exit.guest_rax % 2 ^ 32)
    × IsCanonical value
IsOf exit (Emulation.io_in port size) =
    (exit.reason.basic ≡ 30) × IsPlainIo exit port size × (exit.qualification / 2 ^ 3 % 2 ≡ 1)
IsOf exit (Emulation.io_out port size value) =
    (exit.reason.basic ≡ 30)
    × IsPlainIo exit port size
    × (exit.qualification / 2 ^ 3 % 2 ≡ 0)
    × (value ≡ exit.guest_rax % 2 ^ bits size)

abbrev pub Explains : ExitInfo → ExitEvent → Type 0
Explains exit (emulated em) = IsOf exit em
Explains exit _ = Unit {0}

passed_through : (m : ℕ) → contains intercepted_msrs m ≡ true → IsPassedThrough m
passed_through m h = ground arith

route-intercepted : (m : ℕ) → route m ≡ intercepted → contains intercepted_msrs m ≡ true
unfolding route
route-intercepted m h = ground arith

size_lem : (q : ℕ) (z : IoSize) → size q ≡ some z → q % 8 + 1 ≡ bytes z
unfolding size
size_lem q byte h = ground (arith, bit_and_low 3 q)
size_lem q word h = ground (arith, bit_and_low 3 q)
size_lem q dword h = ground (arith, bit_and_low 3 q)

module _ (s : ExitState) (e : ExitInfo) (w : IsWord e) where
  cpuid-Explains : e.reason.basic ≡ 10 → Explains e (cpuid s e).0
  unfolding cpuid
  cpuid-Explains h = ground arith

  rdmsr-Explains : e.reason.basic ≡ 31 → Explains e (rdmsr s e).0
  unfolding rdmsr
  rdmsr-Explains h = ground (arith, passed_through (u32 e.guest_rcx))

  -- EDX:EAX.
  wrmsr_value :
      bit_or (shl64 e.guest_rdx 32) (bit_and e.guest_rax 0xFFFF_FFFF)
      ≡ e.guest_rdx % 2 ^ 32 * 2 ^ 32 + e.guest_rax % 2 ^ 32
  wrmsr_value =
      ap₂ bit_or (omega arith) (bit_and_low 32 e.guest_rax)
      ∙ bit_or_add 32 (e.guest_rdx % 2 ^ 32) (e.guest_rax % 2 ^ 32) (omega arith)

  wrmsr_by-Explains :
      (r : MsrRoute) (v : ℕ)
      → route (u32 e.guest_rcx) ≡ r
      → v ≡ e.guest_rdx % 2 ^ 32 * 2 ^ 32 + e.guest_rax % 2 ^ 32
      → e.reason.basic ≡ 32
      → Explains e (wrmsr_by r (u32 e.guest_rcx) v s).0
  wrmsr_by-Explains intercepted v er ev h = ground (
    arith,
    is_canonical_48_lem v (omega arith),
    passed_through (u32 e.guest_rcx),
    route-intercepted (u32 e.guest_rcx) er,
  )
  wrmsr_by-Explains out_of_range v er ev h = tt
  wrmsr_by-Explains not_intercepted v er ev h = tt

  wrmsr-Explains : e.reason.basic ≡ 32 → Explains e (wrmsr s e).0
  unfolding wrmsr
  wrmsr-Explains h = wrmsr_by-Explains (route (u32 e.guest_rcx)) _ refl wrmsr_value h

  io_sized-Explains :
      (r : Option IoSize)
      → size e.qualification ≡ r
      → e.reason.basic ≡ 30
      → Explains e (io_sized r s e).0
  unfolding is_in is_string is_rep port
  io_sized-Explains none er h = tt
  io_sized-Explains (some z) er h = ground (
    arith,
    size_lem e.qualification z er,
    bit_and_flag 3 e.qualification,
    bit_and_flag 4 e.qualification,
    bit_and_flag 5 e.qualification,
    out_value_lem e.guest_rax z,
  )

  io-Explains : e.reason.basic ≡ 30 → Explains e (io s e).0
  unfolding io
  io-Explains h = io_sized-Explains (size e.qualification) refl h

  -- An instruction is executed for the guest only if the exit was by that instruction, and with
  -- the operands that the exit shows: an RDMSR or WRMSR only of an intercepted MSR that the VMCS
  -- does not hold, a WRMSR only of a canonical value, and IN and OUT only in their plain forms.
  pub decide-Explains : Explains e (decide s e).0
  decide-Explains =
      decide-elim (λ r. Explains e r.0) s e
        (record {
          refused = tt;
          interrupted = tt;
          on_cpuid = cpuid-Explains;
          on_rdmsr = rdmsr-Explains;
          on_wrmsr = wrmsr-Explains;
          on_io = io-Explains;
          on_nmi = λ _. unfold exception_or_nmi in ground arith;
          on_window = λ _. unfold nmi_window in ground arith;
          on_ept = λ _. unfold ept_violation in ground arith;
          on_vmcall = λ _. unfold vmcall in ground arith;
        })
