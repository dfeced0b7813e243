-- ===== src/ExitBitmaps.antt =====
-- src/vmx/exit_bitmaps.rs: the bitmap pages that say which RDMSR, WRMSR, IN and OUT of the guest
-- exit. A page is the list of its bytes; an index outside a slice is a panic, `none`. The
-- allocation of the pages (`ExitBitmaps::allocate`) is left to the firmware.
pub mod Region
pub mod Page
pub mod Msrs
pub mod Ports
pub mod Exact
use aleph0_virtualization_hy.Base.{
  ℕ, ◌+◌, ◌-◌, ◌/◌, ◌%◌, ◌^◌, Bool, true, false, ◌&&◌, ◌||◌, Option, none, some, List, [], ◌∷◌,
  bit_and, bit_or, leb, ltb, ◌==◌, if◌then◌else◌, length, get_or, set, u8,
}
use aleph0_virtualization_hy.Msr.{
  ia32_bndcfgs, ia32_debugctl, ia32_efer, ia32_fs_base, ia32_gs_base, ia32_kernel_gs_base, ia32_pat,
  ia32_perf_global_ctrl, ia32_sysenter_cs, ia32_sysenter_eip, ia32_sysenter_esp,
}
use aleph0_virtualization_hy.Guest.{guest_scratch_port}

abbrev pub intercepted_msrs : List ℕ
intercepted_msrs = ia32_kernel_gs_base ∷ []

abbrev pub intercepted_ports : List ℕ
intercepted_ports = guest_scratch_port ∷ []

abbrev pub vmcs_held_msrs : List ℕ
vmcs_held_msrs =
    ia32_debugctl ∷ ia32_sysenter_cs ∷ ia32_sysenter_esp ∷ ia32_sysenter_eip ∷ ia32_pat
    ∷ ia32_perf_global_ctrl ∷ ia32_bndcfgs ∷ ia32_efer ∷ ia32_fs_base ∷ ia32_gs_base ∷ []

-- Rust's `contains` of a slice.
abbrev pub contains : List ℕ → ℕ → Bool
contains [] x = false
contains (y ∷ ys) x = (y == x) || contains ys x

pub data MsrAccess : Type 0 where
  read write : MsrAccess

-- `MsrAccess::Write` bits stand 0x800 bytes behind the read bits.
abbrev pub access_offset : MsrAccess → ℕ
access_offset read = 0
access_offset write = 0x800

-- The byte offset in the page, and the bit in that byte.
unfoldable pub msr_bit : ℕ → MsrAccess → Option (ℕ × ℕ)
msr_bit msr access =
    if leb msr 0x1FFF
    then some (0x000 + access_offset access + msr / 8, u8 (msr % 8))
    else if leb 0xC000_0000 msr && leb msr 0xC000_1FFF
    then some (0x400 + access_offset access + (msr - 0xC000_0000) / 8, u8 ((msr - 0xC000_0000) % 8))
    else none

pub data IoBitmap : Type 0 where
  a b : IoBitmap

unfoldable pub io_bit : ℕ → IoBitmap × ℕ × ℕ
io_bit port =
    let page = if ltb port 0x8000 then IoBitmap.a else IoBitmap.b in
    let index = bit_and port 0x7FFF in (page, index / 8, u8 (port % 8))

-- `slice[offset] |= 1 << bit`.
unfoldable pub or_byte : List ℕ → ℕ → ℕ → Option (List ℕ)
or_byte slice offset bit =
    if ltb offset (length slice)
    then some (set slice offset (bit_or (get_or slice offset 0) (2 ^ bit)))
    else none

infixl 5 ◌>>=◌
abbrev pub ◌>>=◌ {ℓ κ} : {A : Type ℓ} {B : Type κ} → Option A → (A → Option B) → Option B
none >>= f = none
some x >>= f = f x

-- One turn of the inner loop of `fill`: an MSR with no bit is passed over.
unfoldable pub fill_msr_bit : List ℕ → Option (ℕ × ℕ) → Option (List ℕ)
unfolding or_byte
fill_msr_bit msr none = some msr
fill_msr_bit msr (some (offset, bit)) = or_byte msr offset bit

unfoldable pub fill_msrs : List ℕ → List ℕ → Option (List ℕ)
unfolding fill_msr_bit msr_bit
fill_msrs [] msr = some msr
fill_msrs (intercepted ∷ rest) msr = do
  reads ← fill_msr_bit msr (msr_bit intercepted read)
  writes ← fill_msr_bit reads (msr_bit intercepted write)
  fill_msrs rest writes

abbrev pub fill_port : IoBitmap → ℕ → ℕ → List ℕ × List ℕ → Option (List ℕ × List ℕ)
fill_port IoBitmap.a offset bit (io_a, io_b) = do page ← or_byte io_a offset bit; some (page, io_b)
fill_port IoBitmap.b offset bit (io_a, io_b) = do page ← or_byte io_b offset bit; some (io_a, page)

unfoldable pub fill_ports : List ℕ → List ℕ × List ℕ → Option (List ℕ × List ℕ)
unfolding or_byte io_bit
fill_ports [] pages = some pages
fill_ports (port ∷ rest) pages = do
  next ← fill_port (io_bit port).0 (io_bit port).1 (io_bit port).2 pages
  fill_ports rest next

pub record Pages : Type 0 where
  pub msr : List ℕ
  pub io_a : List ℕ
  pub io_b : List ℕ

unfoldable pub fill : List ℕ → List ℕ → List ℕ → Option Pages
unfolding fill_msrs fill_ports
fill msr io_a io_b = do
  filled ← fill_msrs intercepted_msrs msr
  io ← fill_ports intercepted_ports (io_a, io_b)
  some (record { msr = filled; io_a = io.0; io_b = io.1 })
