-- ===== src/Drivers/Pcnet/Setup.antt =====
-- How kernel/amd_pcnet.c finds a card and sets it up.
use pine_os.Base.{
  le16, ℕ, zero, suc, ◌+◌, ◌*◌, ◌/◌, ◌%◌, ◌^◌, Bool, true, false, ◌||◌, Option, none, some, ◌++◌,
  ltb, ◌==◌, if◌then◌else◌, ℤ, pos, minus_one,
}
use pine_os.Machine.{codes}
use pine_os.Memory.{Heap, memory_alloc}
use pine_os.Ram.{poke}
use pine_os.Pci.{PciDevice}
use pine_os.Pci.Listing.{pci_find_device}
use pine_os.Network.Table.{mac_to_string}
use pine_os.Drivers.{Io, hex8, bar0, enable}
use pine_os.Drivers.Pcnet.{
  Pcnet, Card, cleared, max_frame, tell, world, left_at, amd_pcnet_read_csr, amd_pcnet_write_csr,
}

-- What the loop over the buffers changes; `ok` tells whether it did not return.
pub record Buffers : Type 0 where
  pub ok : Bool
  pub rx : ℕ → ℕ
  pub tx : ℕ → ℕ
  pub heap : Heap

-- The loop, from the buffers numbered `i` on, with the rounds left.
unfoldable pub fill_buffers : (left i : ℕ) → Buffers → Buffers
fill_buffers zero i b = b
fill_buffers (suc left) i b =
    let (r, h1) = memory_alloc max_frame b.heap in
    let (t, h2) = memory_alloc max_frame h1 in
    let b' = record b { rx = poke b.rx i r; tx = poke b.tx i t; heap = h2 } in
    let rest = fill_buffers left (i + 1) b' in
    if (r == 0) || (t == 0) then record b' { ok = false } else rest

-- I/O space and bus mastering: bits 0 and 2
abbrev pub io_and_master : ℕ → ℕ
io_and_master command = command / 8 * 8 + command / 2 % 2 * 2 + 5

abbrev pub buffers_of : Pcnet → Heap → Buffers
buffers_of d h = record { ok = true; rx = d.rx_buffers; tx = d.tx_buffers; heap = h }

module _ {W : Type 0} (io : Io W) where
  unfoldable pub amd_pcnet_read_mac_address : Card W → Card W
  amd_pcnet_read_mac_address c0 =
      let c = tell (codes "Reading MAC address from AMD PCnet...\n") c0 in
      let (a, w1) = io.inw (c.dev.io_base + 0) (world c) in
      let (b, w2) = io.inw (c.dev.io_base + 1) w1 in
      let (d, w3) = io.inw (c.dev.io_base + 2) w2 in
      let mac = le16 a ++ (le16 b ++ le16 d) in
      let c1 = left_at c w3 in
      tell (codes "AMD PCnet MAC address: " ++ (mac_to_string mac ++ codes "\n"))
        (record c1 { dev = record c1.dev { mac_addr = mac } })

  unfoldable pub amd_pcnet_setup_rings : Card W → ℤ × Card W
  amd_pcnet_setup_rings c0 =
      let c = tell (codes "Setting up AMD PCnet descriptor rings...\n") c0 in
      let b = fill_buffers 16 0 (buffers_of c.dev c.host.heap) in
      let c1 = record c {
        dev = record c.dev { rx_buffers = b.rx; tx_buffers = b.tx };
        host = record c.host { heap = b.heap };
      } in
      if b.ok
      then (
        pos 0,
        tell (codes "AMD PCnet rings configured\n")
            (record c1 { dev = record c1.dev { rx_cur = 0; tx_cur = 0 } }),
      )
      else (minus_one, tell (codes "Failed to allocate AMD PCnet buffers\n") c1)

  -- The wait for IDON, bit 8, and whether `timeout` is positive after it: the last round that is
  -- left counts as none, also when it finds the bit.
  unfoldable pub wait_ready : ℕ → (base : ℕ) → W → Bool × W
  wait_ready zero base w = (false, w)
  wait_ready (suc left) base w =
      let (csr0, w1) = amd_pcnet_read_csr io base 0 w in
      let rest = wait_ready left base w1 in if csr0 / 2 ^ 8 % 2 == 0 then rest else (ltb 0 left, w1)

  -- STRT and INEA
  unfoldable pub go : Bool → Card W → ℤ × Card W
  go false c = (minus_one, tell (codes "AMD PCnet initialization timeout\n") c)
  go true c =
      let c1 = left_at c (amd_pcnet_write_csr io c.dev.io_base 0 0x42 (world c)) in
      (
        pos 0,
        tell (codes "AMD PCnet device ready for VirtualBox networking\n")
            (record c1 { dev = record c1.dev { initialized = true } }),
      )

  unfoldable pub after_rings : ℤ × Card W → ℤ × Card W
  after_rings (pos zero, c) =
      let (ready, w) =
        wait_ready 1000 c.dev.io_base (amd_pcnet_write_csr io c.dev.io_base 0 1 (world c)) in
      go ready (left_at c w)
  after_rings (_, c) = (minus_one, tell (codes "Failed to setup AMD PCnet rings\n") c)

  -- From the command register on; the reset is a read of the port 0x14.
  unfoldable pub start : PciDevice → Card W → ℤ × Card W
  start d c0 =
      let c =
        tell (codes "Resetting AMD PCnet device...\n")
          (record c0 { host = enable io io_and_master d c0.host }) in
      after_rings (
        amd_pcnet_setup_rings
          (amd_pcnet_read_mac_address (left_at c (io.inw (c.dev.io_base + 0x14) (world c)).1)))

  unfoldable pub amd_pcnet_setup_device : PciDevice → Card W → ℤ × Card W
  amd_pcnet_setup_device d c0 =
      let c =
        tell (codes "Setting up AMD PCnet device...\n")
          (record c0 { dev = record c0.dev { pci_dev = some d } }) in
      let base = bar0 d / 4 * 4 in
      if bar0 d % 2 == 0
      then (minus_one, tell (codes "Error: Expected I/O space BAR\n") c)
      else start d (
          tell (codes "AMD PCnet I/O base: " ++ (hex8 base ++ codes "\n"))
            (record c { dev = record c.dev { io_base = base } }))

  unfoldable pub set_up_found : Option PciDevice → Card W → ℤ × Card W
  set_up_found none c = (minus_one, tell (codes "AMD PCnet device not found\n") c)
  set_up_found (some d) c = amd_pcnet_setup_device d (tell (codes "Found AMD PCnet device!\n") c)

  unfoldable pub amd_pcnet_detect_device : Card W → ℤ × Card W
  amd_pcnet_detect_device c =
      set_up_found (pci_find_device 0x1022 0x2000 c.host.pci)
        (tell (codes "Scanning for AMD PCnet device (1022:2000)...\n") c)

  unfoldable pub detected : ℤ × Card W → ℤ × Card W
  detected (pos zero, c) = (pos 0, tell (codes "AMD PCnet driver initialized successfully\n") c)
  detected (_, c) = (minus_one, tell (codes "No AMD PCnet device found\n") c)

  unfoldable pub amd_pcnet_init : Card W → ℤ × Card W
  amd_pcnet_init c = detected (
      amd_pcnet_detect_device
        (tell (codes "Initializing AMD PCnet driver...\n") (record c { dev = cleared })))

-- `get_amd_pcnet_device`
abbrev pub get_amd_pcnet_device : {W : Type 0} → Card W → Option Pcnet
get_amd_pcnet_device c = if c.dev.initialized then some c.dev else none
