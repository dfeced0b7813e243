-- ===== src/ExitBitmaps/Ports.antt =====
-- The port half of `fill` in src/vmx/exit_bitmaps.rs.
use aleph0_virtualization_hy.Base.{
  ℕ, ◌^◌, ◌<◌, ◌≡◌, refl, ◌∙◌, Bool, true, false, ◌&&◌, Option, some, List, [], ◌∷◌, arith, ◌==◌,
  if◌then◌else◌, length, length-set, All,
}
use aleph0_virtualization_hy.Base.Bits.{bit_and_low}
use aleph0_virtualization_hy.ExitBitmaps.{IoBitmap, io_bit, fill_port, fill_ports, contains}
use aleph0_virtualization_hy.ExitBitmaps.Page.{bit_at, or_bit, bit_at-or_bit, or_byte_fits}

-- Ports: both pages are of the right size, and the ports that pass the test are set.
abbrev same_page : IoBitmap → IoBitmap → Bool
same_page IoBitmap.a IoBitmap.a = true
same_page IoBitmap.b IoBitmap.b = true
same_page _ _ = false

abbrev pub select : List ℕ × List ℕ → IoBitmap → List ℕ
select pages IoBitmap.a = pages.0
select pages IoBitmap.b = pages.1

abbrev pub port_bit : List ℕ × List ℕ → ℕ → ℕ
port_bit pages port = bit_at (select pages (io_bit port).0) (io_bit port).1 (io_bit port).2

io_bit_bounds : (port : ℕ) → port < 2 ^ 16 → ((io_bit port).1 < 4096) × ((io_bit port).2 < 8)
unfolding io_bit
io_bit_bounds port h = omega (arith, bit_and_low 15 port)

io_bit_inj :
    (p q : ℕ)
    → p < 2 ^ 16
    → q < 2 ^ 16
    → (same_page (io_bit p).0 (io_bit q).0
        && (((io_bit p).1 == (io_bit q).1) && ((io_bit p).2 == (io_bit q).2)))
      ≡ (p == q)
unfolding io_bit
io_bit_inj p q hp hq = ground (arith, bit_and_low 15 p, bit_and_low 15 q)

abbrev pub PortsFilled : List ℕ → List ℕ × List ℕ → Option (List ℕ × List ℕ) → Type 0
PortsFilled ports pages result =
    (pages' : List ℕ × List ℕ) × (result ≡ some pages')
    × (length pages'.0 ≡ 4096)
    × (length pages'.1 ≡ 4096)
    × ((q : ℕ)
        → q < 2 ^ 16
        → port_bit pages' q ≡ (if contains ports q then 1 else port_bit pages q))

fill_port_lem :
    (page : IoBitmap) (o i : ℕ) (pages : List ℕ × List ℕ)
    → length pages.0 ≡ 4096
    → length pages.1 ≡ 4096
    → o < 4096
    → (pages' : List ℕ × List ℕ) × (fill_port page o i pages ≡ some pages')
      × (length pages'.0 ≡ 4096)
      × (length pages'.1 ≡ 4096)
      × ((page' : IoBitmap) (o' i' : ℕ)
          → bit_at (select pages' page') o' i' ≡ (
              if same_page page page' && ((o == o') && (i == i'))
              then 1
              else bit_at (select pages page') o' i'))
fill_port_lem IoBitmap.a o i (pa, pb) la lb h = (
  (or_bit pa o i, pb),
  rw (or_byte_fits pa o i (omega (arith, la))),
  length-set pa o _ ∙ la,
  lb,
  elim [
    | IoBitmap.a ↦ λ o' i'. bit_at-or_bit pa o i o' i' (omega (arith, la))
    | IoBitmap.b ↦ λ o' i'. refl
  ],
)
fill_port_lem IoBitmap.b o i (pa, pb) la lb h = (
  (pa, or_bit pb o i),
  rw (or_byte_fits pb o i (omega (arith, lb))),
  la,
  length-set pb o _ ∙ lb,
  elim [
    | IoBitmap.a ↦ λ o' i'. refl
    | IoBitmap.b ↦ λ o' i'. bit_at-or_bit pb o i o' i' (omega (arith, lb))
  ],
)

pub fill_ports_lem :
    (ports : List ℕ) (pages : List ℕ × List ℕ)
    → All (λ p. p < 2 ^ 16) ports
    → length pages.0 ≡ 4096
    → length pages.1 ≡ 4096
    → PortsFilled ports pages (fill_ports ports pages)
unfolding fill_ports
fill_ports_lem [] pages h la lb = (pages, refl, la, lb, λ q hq. refl)
fill_ports_lem (p ∷ ports) pages h la lb =
    let (p1, e1, a1, b1, k1) =
      fill_port_lem (io_bit p).0 (io_bit p).1 (io_bit p).2 pages la lb (io_bit_bounds p h.0).0 in
    let (p2, e2, a2, b2, k2) = fill_ports_lem ports p1 h.1 a1 b1 in
    (
      p2,
      rw e1 e2,
      a2,
      b2,
      λ q hq.
          ground (arith, k2 q hq, k1 (io_bit q).0 (io_bit q).1 (io_bit q).2, io_bit_inj p q h.0 hq),
    )
