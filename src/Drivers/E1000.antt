-- ===== src/Drivers/E1000.antt =====
-- The Intel E1000 driver, kernel/e1000.c. The descriptors are bytes of memory, 16 to each.
pub mod Setup
pub mod Room
pub mod Packets
use pine_os.Base.{
  le32, le16, ℕ, zero, suc, ◌+◌, ◌-◌, ◌*◌, ◌/◌, ◌%◌, ◌^◌, Bool, true, false, ◌&&◌, ◌||◌, not,
  Option, none, some, List, [], ◌∷◌, ◌++◌, ltb, ◌==◌, if◌then◌else◌, ℤ, pos, minus_one, replicate,
}
use pine_os.CString.{Text}
use pine_os.Machine.{codes}
use pine_os.Memory.{Heap, memory_alloc}
use pine_os.Ram.{Ram, poke, memory_copy, put_bytes}
use pine_os.Pci.{PciDevice}
use pine_os.Pci.Listing.{pci_find_device, pci_find_class, pci_list_devices, hex4}
use pine_os.Network.Table.{mac_to_string}
use pine_os.Drivers.{Io, Host, hex8, three_digits, say, on, bar0, enable}

-- `e1000_device_t`; the last two arrays are functions from the index.
pub record E1000 : Type 0 where
  pub pci_dev : Option PciDevice
  pub mmio_base : ℕ
  pub mac_addr : List ℕ
  pub rx_descs : ℕ
  pub tx_descs : ℕ
  pub rx_buffers : ℕ → ℕ
  pub tx_buffers : ℕ → ℕ
  pub rx_cur : ℕ
  pub tx_cur : ℕ
  pub initialized : Bool

-- `memory_set(&e1000_dev, 0, sizeof(e1000_device_t))`
abbrev pub cleared : E1000
cleared = record {
  pci_dev = none;
  mmio_base = 0;
  mac_addr = replicate 6 0;
  rx_descs = 0;
  tx_descs = 0;
  rx_buffers = λ _. 0;
  tx_buffers = λ _. 0;
  rx_cur = 0;
  tx_cur = 0;
  initialized = false;
}

-- the driver's device, and the kernel around it
pub record Card (W : Type 0) : Type 0 where
  pub dev : E1000
  pub host : Host W

abbrev pub buffer_size : ℕ
buffer_size = 2048

-- `256 * sizeof(e1000_rx_desc_t)`
abbrev pub ring_size : ℕ
ring_size = 4096

-- What the loop over the descriptors changes; `ok` tells whether it did not return.
pub record Ring : Type 0 where
  pub ok : Bool
  pub buffers : ℕ → ℕ
  pub heap : Heap
  pub ram : Ram

-- The descriptor at `p`: its `buffer_addr` of 64 bits, and its `status`, byte 12.
abbrev pub put_desc : (p buffer status : ℕ) → Ram → Ram
put_desc p buffer status m = poke (put_bytes m p (le32 buffer ++ replicate 4 0)) (p + 12) status

-- The loop over the descriptors at `descs`, from the one numbered `i`, with the rounds left.
unfoldable pub fill_ring : (left i descs status : ℕ) → Ring → Ring
fill_ring zero i descs status r = r
fill_ring (suc left) i descs status r =
    let (p, h) = memory_alloc buffer_size r.heap in
    let rest = fill_ring left (i + 1) descs status (record r {
      buffers = poke r.buffers i p;
      heap = h;
      ram = put_desc (descs + 16 * i) p status r.ram;
    }) in
    if p == 0 then record r { ok = false; buffers = poke r.buffers i 0; heap = h } else rest

abbrev pub ring_of : (ℕ → ℕ) → Heap → Ram → Ring
ring_of b h m = record { ok = true; buffers = b; heap = h; ram = m }

-- The six bytes of the two registers, or the default.
unfoldable pub mac_of : ℕ → ℕ → List ℕ
mac_of low high =
    if not (low == 0) || not (high == 0)
    then le32 low ++ le16 high
    else 0x08 ∷ 0x00 ∷ 0x27 ∷ 0x12 ∷ 0x34 ∷ 0x56 ∷ []

module _ {W : Type 0} (io : Io W) where
  unfoldable pub e1000_read_reg : ℕ → Card W → ℕ × Card W
  e1000_read_reg reg c =
      let (v, w) = io.read_register (c.dev.mmio_base + reg) c.host.pci.world in
      (v, record c { host = on c.host w })

  unfoldable pub e1000_write_reg : (reg value : ℕ) → Card W → Card W
  e1000_write_reg reg value c = record c {
    host = on c.host (io.write_register (c.dev.mmio_base + reg) value c.host.pci.world);
  }

  abbrev pub tell : Text → Card W → Card W
  tell t c = record c { host = say t c.host }

  unfoldable pub e1000_read_mac_address : Card W → Card W
  e1000_read_mac_address c =
      let (low, c1) =
        e1000_read_reg 0x5400 (tell (codes "Reading MAC address from E1000...\n") c) in
      let (high, c2) = e1000_read_reg 0x5404 c1 in
      tell (codes "E1000 MAC address: " ++ (mac_to_string (mac_of low high) ++ codes "\n"))
        (record c2 { dev = record c2.dev { mac_addr = mac_of low high } })

  -- RDBAL, RDBAH, RDLEN, RDH, RDT and RCTL
  unfoldable pub start_rx : Card W → Card W
  start_rx c = e1000_write_reg 0x100 (0x2 + 0x8000 + 0x400_0000) (
      e1000_write_reg 0x2818 255 (
        e1000_write_reg 0x2810 0 (
          e1000_write_reg 0x2808 ring_size
            (e1000_write_reg 0x2804 0 (e1000_write_reg 0x2800 c.dev.rx_descs c)))))

  -- TDBAL, TDBAH, TDLEN, TDH, TDT, TCTL and TIPG
  unfoldable pub start_tx : Card W → Card W
  start_tx c = e1000_write_reg 0x410 0x60200A (
      e1000_write_reg 0x400 (0x2 + 0x8 + 15 * 2 ^ 4 + 64 * 2 ^ 12) (
        e1000_write_reg 0x3818 0 (
          e1000_write_reg 0x3810 0 (
            e1000_write_reg 0x3808 ring_size
              (e1000_write_reg 0x3804 0 (e1000_write_reg 0x3800 c.dev.tx_descs c))))))

  -- what the card's record and the kernel are after the loop over the receive descriptors
  abbrev pub with_rx : Ring → Card W → Card W
  with_rx r c = record c {
    dev = record c.dev { rx_buffers = r.buffers };
    host = record c.host { heap = r.heap; ram = r.ram };
  }

  abbrev pub with_tx : Ring → Card W → Card W
  with_tx r c = record c {
    dev = record c.dev { tx_buffers = r.buffers };
    host = record c.host { heap = r.heap; ram = r.ram };
  }

  unfoldable pub finish_rx : Ring → Card W → ℤ × Card W
  finish_rx r c =
      let c1 = start_rx (with_rx r c) in
      if r.ok
      then (
        pos 0,
        tell (codes "E1000 receive setup complete\n")
            (record c1 { dev = record c1.dev { rx_cur = 0 } }),
      )
      else (minus_one, tell (codes "Failed to allocate RX buffer\n") (with_rx r c))

  unfoldable pub finish_tx : Ring → Card W → ℤ × Card W
  finish_tx r c =
      let c1 = start_tx (with_tx r c) in
      if r.ok
      then (
        pos 0,
        tell (codes "E1000 transmit setup complete\n")
            (record c1 { dev = record c1.dev { tx_cur = 0 } }),
      )
      else (minus_one, tell (codes "Failed to allocate TX buffer\n") (with_tx r c))

  unfoldable pub e1000_setup_rx : Card W → ℤ × Card W
  e1000_setup_rx c0 =
      let c = tell (codes "Setting up E1000 receive descriptors...\n") c0 in
      let (p, h) = memory_alloc ring_size c.host.heap in
      let c1 = record c {
        dev = record c.dev { rx_descs = p };
        host = record c.host { heap = h };
      } in
      if p == 0
      then (minus_one, tell (codes "Failed to allocate RX descriptors\n") c1)
      else finish_rx (fill_ring 256 0 p 0 (ring_of c.dev.rx_buffers h c.host.ram)) c1

  unfoldable pub e1000_setup_tx : Card W → ℤ × Card W
  e1000_setup_tx c0 =
      let c = tell (codes "Setting up E1000 transmit descriptors...\n") c0 in
      let (p, h) = memory_alloc ring_size c.host.heap in
      let c1 = record c {
        dev = record c.dev { tx_descs = p };
        host = record c.host { heap = h };
      } in
      if p == 0
      then (minus_one, tell (codes "Failed to allocate TX descriptors\n") c1)
      else finish_tx (fill_ring 256 0 p 1 (ring_of c.dev.tx_buffers h c.host.ram)) c1
