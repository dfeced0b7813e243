-- ===== src/ExitBitmaps/Exact.antt =====
-- What `fill` leaves, read by the rules that the head of src/vmx/exit_bitmaps.rs quotes from the
-- manual: which accesses exit.
use aleph0_virtualization_hy.Base.{
  ℕ, ◌+◌, ◌-◌, ◌/◌, ◌%◌, ltb, u8, Bool-cases, inl, inr, ◌∙◌, ◌^◌, ◌<◌, ◌≡◌, refl, ap, Bool, true,
  not, ◌&&◌, ◌||◌, Option, none, some, List, arith, leb, ◌==◌, if◌then◌else◌, length, get_or,
}
use aleph0_virtualization_hy.ExitBitmaps.{
  MsrAccess, IoBitmap, Pages, msr_bit, io_bit, fill, contains, intercepted_msrs, intercepted_ports,
  ◌>>=◌, access_offset,
}
use aleph0_virtualization_hy.Base.Bits.{bit_and_low}
use native.Mathlib.Nat.{zero-div}
use aleph0_virtualization_hy.ExitBitmaps.Page.{bit_at}
use aleph0_virtualization_hy.ExitBitmaps.Msrs.{fill_msrs_lem}
use aleph0_virtualization_hy.ExitBitmaps.Ports.{fill_ports_lem, select}

-- Bit `n` of a page, counted from bit 0 of its first byte.
abbrev pub nth_bit : List ℕ → ℕ → ℕ
nth_bit page n = bit_at page (n / 8) (n % 8)

-- The manual's four bitmaps of the MSR page, 1024 bytes (8192 bits) each: reads of the low MSRs, reads of the
-- high ones, writes of the low ones, writes of the high ones.
abbrev pub low_bitmap : MsrAccess → ℕ
low_bitmap MsrAccess.read = 0
low_bitmap MsrAccess.write = 0x4000

abbrev pub high_bitmap : MsrAccess → ℕ
high_bitmap MsrAccess.read = 0x2000
high_bitmap MsrAccess.write = 0x6000

-- RDMSR and WRMSR exit when the MSR is in neither range, low (0 to 0x1FFF) or high (0xC0000000 to
-- 0xC0001FFF), and else when the bit of its bitmap that its low 13 bits number is set.
unfoldable pub msr_exits : List ℕ → MsrAccess → ℕ → Bool
msr_exits page access msr =
    if leb msr 0x1FFF
    then nth_bit page (low_bitmap access + msr % 2 ^ 13) == 1
    else if leb 0xC000_0000 msr && leb msr 0xC000_1FFF
    then nth_bit page (high_bitmap access + msr % 2 ^ 13) == 1
    else true

-- IN and OUT of one byte exit when the port's bit is set: bitmap A has ports 0 to 0x7FFF, B the others.
unfoldable pub port_exits : Pages → ℕ → Bool
port_exits p port =
    if ltb port 0x8000 then nth_bit p.io_a port == 1 else nth_bit p.io_b (port - 0x8000) == 1

-- The same by the program's addressing.
abbrev exits_by : List ℕ → Option (ℕ × ℕ) → Bool
exits_by page none = true
exits_by page (some (o, i)) = bit_at page o i == 1

abbrev page_of : Pages → IoBitmap → List ℕ
page_of p IoBitmap.a = p.io_a
page_of p IoBitmap.b = p.io_b

same_bit :
    (page : List ℕ) (o i o' i' : ℕ)
    → o ≡ o'
    → i ≡ i'
    → (bit_at page o i == 1) ≡ (bit_at page o' i' == 1)
same_bit page o i o' i' e e' = rw (e, e') refl

at_low :
    (access : MsrAccess) (msr : ℕ)
    → msr < 2 ^ 13
    → (low_bitmap access + msr % 2 ^ 13) / 8 ≡ 0x000 + access_offset access + msr / 8
at_low MsrAccess.read msr h = omega arith
at_low MsrAccess.write msr h = omega arith

in_low :
    (access : MsrAccess) (msr : ℕ)
    → msr < 2 ^ 13
    → (low_bitmap access + msr % 2 ^ 13) % 8 ≡ u8 (msr % 8)
in_low MsrAccess.read msr h = omega arith
in_low MsrAccess.write msr h = omega arith

high_range :
    (msr : ℕ)
    → (leb 0xC000_0000 msr && leb msr 0xC000_1FFF) ≡ true
    → (offset : ℕ) × (offset < 2 ^ 13) × (msr ≡ 0xC000_0000 + offset)
high_range msr h = (msr - 0xC000_0000, ground (arith, h), ground (arith, h))

at_high :
    (access : MsrAccess) (offset : ℕ)
    → offset < 2 ^ 13
    → (high_bitmap access + (0xC000_0000 + offset) % 2 ^ 13) / 8
      ≡ 0x400 + access_offset access + (0xC000_0000 + offset - 0xC000_0000) / 8
at_high MsrAccess.read offset h = omega arith
at_high MsrAccess.write offset h = omega arith

in_high :
    (access : MsrAccess) (offset : ℕ)
    → offset < 2 ^ 13
    → (high_bitmap access + (0xC000_0000 + offset) % 2 ^ 13) % 8
      ≡ u8 ((0xC000_0000 + offset - 0xC000_0000) % 8)
in_high MsrAccess.read offset h = omega arith
in_high MsrAccess.write offset h = omega arith

msr_exits_lem :
    (page : List ℕ) (access : MsrAccess) (msr : ℕ)
    → msr_exits page access msr ≡ exits_by page (msr_bit msr access)
unfolding msr_exits msr_bit
msr_exits_lem page access msr = elim (Bool-cases (leb msr 0x1FFF)) [
  | inl low ↦
      let small : msr < 2 ^ 13 = ground (arith, low) in
      rw low (same_bit page _ _ _ _ (at_low access msr small) (in_low access msr small))
  | inr high ↦ elim (Bool-cases (leb 0xC000_0000 msr && leb msr 0xC000_1FFF)) [
    | inl inside ↦
        let (offset, small, is_msr) = high_range msr inside in
        rw (high, inside)
          (rw is_msr
            (same_bit page _ _ _ _ (at_high access offset small) (in_high access offset small)))
    | inr outside ↦ rw (high, outside) refl
  ]
]

port_exits_lem :
    (p : Pages) (port : ℕ)
    → port < 2 ^ 16
    → port_exits p port ≡ (bit_at (page_of p (io_bit port).0) (io_bit port).1 (io_bit port).2 == 1)
unfolding port_exits io_bit
port_exits_lem p port h = elim (Bool-cases (ltb port 0x8000)) [
  | inl low ↦
      let small : port < 2 ^ 15 = ground (arith, low) in
      rw low (
        same_bit p.io_a _ _ _ _ (omega (arith, ap (λ (n : ℕ). n / 8) (bit_and_low 15 port)))
          (omega arith))
  | inr high ↦
      let large : 2 ^ 15 < port + 1 = ground (arith, high) in
      rw high (
        same_bit p.io_b _ _ _ _ (omega (arith, ap (λ (n : ℕ). n / 8) (bit_and_low 15 port)))
          (omega arith))
]

abbrev pub IsZeroed : List ℕ → Type 0
IsZeroed page = (length page ≡ 4096) × ((i : ℕ) → get_or page i 0 ≡ 0)

-- The two ranges that the MSR bitmap covers.
abbrev pub in_bitmap_range : ℕ → Bool
in_bitmap_range msr = leb msr 0x1FFF || (leb 0xC000_0000 msr && leb msr 0xC000_1FFF)

zeroed_bit : (page : List ℕ) (o i : ℕ) → IsZeroed page → bit_at page o i ≡ 0
unfolding bit_at
zeroed_bit page o i z = rw (z.1 o) (ap (λ (t : ℕ). t % 2) (zero-div (2 ^ i)))

exits_at :
    (page page' : List ℕ) (acc : MsrAccess) (msr : ℕ) (r : Option (ℕ × ℕ))
    → IsZeroed page
    → msr_bit msr acc ≡ r
    → ((o i : ℕ)
        → r ≡ some (o, i)
        → bit_at page' o i ≡ (if contains intercepted_msrs msr then 1 else bit_at page o i))
    → exits_by page' r ≡ (not (in_bitmap_range msr) || contains intercepted_msrs msr)
unfolding msr_bit
exits_at page page' acc msr none z e k = ground arith
exits_at page page' acc msr (some (o, i)) z e k = ground (arith, k o i refl, zeroed_bit page o i z)

zeroed_port :
    (io_a io_b : List ℕ) (page : IoBitmap) (o i : ℕ)
    → IsZeroed io_a
    → IsZeroed io_b
    → bit_at (select (io_a, io_b) page) o i ≡ 0
zeroed_port io_a io_b IoBitmap.a o i za zb = zeroed_bit io_a o i za
zeroed_port io_a io_b IoBitmap.b o i za zb = zeroed_bit io_b o i zb

select-page_of : (p : Pages) (page : IoBitmap) → page_of p page ≡ select (p.io_a, p.io_b) page
select-page_of p IoBitmap.a = refl
select-page_of p IoBitmap.b = refl

-- In zeroed pages of 4096 bytes `fill` never panics. Afterwards RDMSR and WRMSR exit for exactly
-- the intercepted MSRs and those outside the two ranges of the bitmap, and a one-byte IN or OUT
-- exits for exactly the intercepted ports.
pub fill_exact :
    (msr io_a io_b : List ℕ) (acc : MsrAccess) (m port : ℕ)
    → IsZeroed msr
    → IsZeroed io_a
    → IsZeroed io_b
    → port < 2 ^ 16
    → (p : Pages) × (fill msr io_a io_b ≡ some p)
      × (msr_exits p.msr acc m ≡ (not (in_bitmap_range m) || contains intercepted_msrs m))
      × (port_exits p port ≡ contains intercepted_ports port)
unfolding fill
fill_exact msr io_a io_b acc m port zm za zb h =
    let (m1, e1, l1, k1) = fill_msrs_lem intercepted_msrs msr zm.0 in
    let (io, e2, a2, b2, k2) =
      fill_ports_lem intercepted_ports (io_a, io_b) (omega arith) za.0 zb.0 in
    (
      record { msr = m1; io_a = io.0; io_b = io.1 },
      rw (e1, ◌>>=◌, e2) refl,
      msr_exits_lem m1 acc m
          ∙ exits_at msr m1 acc m (msr_bit m acc) zm refl (λ o i e. k1 m acc o i e),
      port_exits_lem (record { msr = m1; io_a = io.0; io_b = io.1 }) port h
          ∙ rw (select-page_of (record { msr = m1; io_a = io.0; io_b = io.1 }) (io_bit port).0) (
              ground (
                arith,
                k2 port h,
                zeroed_port io_a io_b (io_bit port).0 (io_bit port).1 (io_bit port).2 za zb,
              )),
    )
