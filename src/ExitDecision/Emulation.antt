-- ===== src/ExitDecision/Emulation.antt =====
-- src/vmx/exit_decision/emulation.rs: the instructions that Aleph0 executes for any guest. The
-- counters are u32 and wrap, as in a release build (a debug build panics there).
use aleph0_virtualization_hy.Base.{
  ℕ, ◌+◌, ◌-◌, ◌/◌, ◌^◌, Bool, true, false, not, ◌||◌, Option, none, some, bit_and, bit_or, ltb,
  ◌==◌, ◌!=◌, u16, u32, not32, not64, shr, shl64, if◌then◌else◌,
}
use aleph0_virtualization_hy.ExitBitmaps.{read, msr_bit, contains, intercepted_msrs}
use aleph0_virtualization_hy.ExitDecision.Types.{
  ExitInfo, ExitState, EmulationCounts, ExitEvent, IoSize, byte, word, dword, Emulation, emulated,
  guest_general_protection,
}

abbrev pub cpuid_1_ecx_vmx : ℕ
cpuid_1_ecx_vmx = 2 ^ 5

-- core::arch::x86_64::CpuidResult, four u32.
pub record CpuidResult : Type 0 where
  pub eax : ℕ
  pub ebx : ℕ
  pub ecx : ℕ
  pub edx : ℕ

unfoldable pub cpuid_policy : ℕ → CpuidResult → CpuidResult
cpuid_policy leaf raw =
    if leaf == 1 then record raw { ecx = bit_and raw.ecx (not32 cpuid_1_ecx_vmx) } else raw

-- `counted`, with the counter that its closure adds to.
abbrev pub counted : ExitState → (EmulationCounts → EmulationCounts) → ExitState
counted state count = record state { emulated = count state.emulated }

unfoldable pub cpuid : ExitState → ExitInfo → ExitEvent × ExitState
cpuid state exit = (
  emulated (Emulation.cpuid (u32 exit.guest_rax) (u32 exit.guest_rcx)),
  counted state (λ counts. record counts { cpuid = u32 (counts.cpuid + 1) }),
)

-- `as i64 >> k`: the sign bit fills from the left.
abbrev pub sar64 : ℕ → ℕ → ℕ
sar64 x k = if ltb x (2 ^ 63) then shr x k else shr x k + (2 ^ 64 - 2 ^ 64 / 2 ^ k)

unfoldable pub is_canonical_48 : ℕ → Bool
is_canonical_48 value = sar64 (shl64 value 16) 16 == value

pub data MsrRoute : Type 0 where
  intercepted out_of_range not_intercepted : MsrRoute

abbrev pub is_none {ℓ} : {A : Type ℓ} → Option A → Bool
is_none none = true
is_none (some a) = false

unfoldable pub route : ℕ → MsrRoute
unfolding msr_bit
route msr =
    if is_none (msr_bit msr read)
    then out_of_range
    else if contains intercepted_msrs msr
    then intercepted
    else not_intercepted

abbrev pub rdmsr_by : MsrRoute → ℕ → ExitState → ExitEvent × ExitState
rdmsr_by intercepted msr state = (
  emulated (Emulation.rdmsr msr),
  counted state (λ counts. record counts { rdmsr = u32 (counts.rdmsr + 1) }),
)
rdmsr_by out_of_range msr state = (guest_general_protection, state)
rdmsr_by not_intercepted msr state = (ExitEvent.unexpected, state)

unfoldable pub rdmsr : ExitState → ExitInfo → ExitEvent × ExitState
unfolding route
rdmsr state exit = let msr = u32 exit.guest_rcx in rdmsr_by (route msr) msr state

abbrev pub wrmsr_by : MsrRoute → ℕ → ℕ → ExitState → ExitEvent × ExitState
wrmsr_by intercepted msr value state =
    if not (is_canonical_48 value) then (guest_general_protection, state) else (
      emulated (Emulation.wrmsr msr value),
      counted state (λ counts. record counts { wrmsr = u32 (counts.wrmsr + 1) }),
    )
wrmsr_by out_of_range msr value state = (guest_general_protection, state)
wrmsr_by not_intercepted msr value state = (ExitEvent.unexpected, state)

unfoldable pub wrmsr : ExitState → ExitInfo → ExitEvent × ExitState
unfolding route is_canonical_48
wrmsr state exit =
    let msr = u32 exit.guest_rcx in
    let value = bit_or (shl64 exit.guest_rdx 32) (bit_and exit.guest_rax 0xFFFF_FFFF) in
    wrmsr_by (route msr) msr value state

abbrev pub bytes : IoSize → ℕ
bytes byte = 1
bytes word = 2
bytes dword = 4

abbrev pub mask : IoSize → ℕ
mask byte = 0xFF
mask word = 0xFFFF
mask dword = 0xFFFF_FFFF

-- `IoQualification` is the raw u64.
unfoldable pub size : ℕ → Option IoSize
size qualification =
    let code = bit_and qualification 0b111 in
    if code == 0
    then some byte
    else if code == 1
    then some word
    else if code == 3
    then some dword
    else none

unfoldable pub is_in : ℕ → Bool
is_in qualification = bit_and qualification (2 ^ 3) != 0

unfoldable pub is_string : ℕ → Bool
is_string qualification = bit_and qualification (2 ^ 4) != 0

unfoldable pub is_rep : ℕ → Bool
is_rep qualification = bit_and qualification (2 ^ 5) != 0

unfoldable pub port : ℕ → ℕ
port qualification = u16 (shr qualification 16)

unfoldable pub merge_in : ℕ → IoSize → ℕ → ℕ
merge_in rax dword value = value
merge_in rax byte value = bit_or (bit_and rax (not64 (mask byte))) (bit_and value (mask byte))
merge_in rax word value = bit_or (bit_and rax (not64 (mask word))) (bit_and value (mask word))

unfoldable pub out_value : ℕ → IoSize → ℕ
out_value rax size = u32 (bit_and rax (mask size))

abbrev pub io_access : ℕ → IoSize → ExitState → ExitInfo → ExitEvent × ExitState
io_access qualification size state exit =
    if is_string qualification || is_rep qualification
    then (ExitEvent.unexpected, state)
    else if is_in qualification
    then (
      emulated (Emulation.io_in (port qualification) size),
      counted state (λ counts. record counts { io_in = u32 (counts.io_in + 1) }),
    )
    else (
      emulated (Emulation.io_out (port qualification) size (out_value exit.guest_rax size)),
      counted state (λ counts. record counts { io_out = u32 (counts.io_out + 1) }),
    )

abbrev pub io_sized : Option IoSize → ExitState → ExitInfo → ExitEvent × ExitState
io_sized none state exit = (ExitEvent.unexpected, state)
io_sized (some size) state exit = io_access exit.qualification size state exit

unfoldable pub io : ExitState → ExitInfo → ExitEvent × ExitState
unfolding size is_in is_string is_rep port out_value
io state exit = io_sized (size exit.qualification) state exit
