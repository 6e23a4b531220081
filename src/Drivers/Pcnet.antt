-- ===== src/Drivers/Pcnet.antt =====
-- The AMD PCnet driver, kernel/amd_pcnet.c. The empty loops that only wait are left out.
pub mod Setup
pub mod Ready
pub mod Packets
use pine_os.Base.{
  le16, ℕ, zero, suc, ◌+◌, ◌-◌, ◌*◌, ◌/◌, ◌%◌, ◌^◌, Bool, true, false, ◌&&◌, ◌||◌, not, Option,
  none, some, List, [], ◌∷◌, ◌++◌, ltb, leb, ◌==◌, if◌then◌else◌, ℤ, pos, minus_one, replicate,
}
use pine_os.CString.{Text}
use pine_os.Machine.{codes}
use pine_os.Memory.{Heap, memory_alloc}
use pine_os.Ram.{Ram, poke, memory_copy}
use pine_os.Pci.{PciDevice}
use pine_os.Network.Table.{mac_to_string}
use pine_os.Drivers.{Io, Host, three_digits, say, on}

-- `amd_pcnet_device_t`, less the rings, which nothing uses; the arrays are functions from the index.
pub record Pcnet : Type 0 where
  pub pci_dev : Option PciDevice
  pub io_base : ℕ
  pub mac_addr : List ℕ
  pub rx_buffers : ℕ → ℕ
  pub tx_buffers : ℕ → ℕ
  pub rx_cur : ℕ
  pub tx_cur : ℕ
  pub initialized : Bool

-- `memory_set(&amd_pcnet_dev, 0, sizeof(amd_pcnet_device_t))`
abbrev pub cleared : Pcnet
cleared = record {
  pci_dev = none;
  io_base = 0;
  mac_addr = replicate 6 0;
  rx_buffers = λ _. 0;
  tx_buffers = λ _. 0;
  rx_cur = 0;
  tx_cur = 0;
  initialized = false;
}

-- the driver's device, and the kernel around it
pub record Card (W : Type 0) : Type 0 where
  pub dev : Pcnet
  pub host : Host W

abbrev pub rdp : ℕ
rdp = 0x10

abbrev pub rap : ℕ
rap = 0x12

-- TDMD and INEA, TINT and INEA, RINT and INEA
abbrev pub demand : ℕ
demand = 0x48

abbrev pub ack_tx : ℕ
ack_tx = 0x240

abbrev pub ack_rx : ℕ
ack_rx = 0x440

abbrev pub max_frame : ℕ
max_frame = 1518

abbrev pub next : ℕ → ℕ
next i = (i + 1) % 16

abbrev pub limit : ℕ → ℕ
limit len = if ltb max_frame len then max_frame else len

module _ {W : Type 0} where
  abbrev pub tell : Text → Card W → Card W
  tell t c = record c { host = say t c.host }

  abbrev pub world : Card W → W
  world c = c.host.pci.world

  abbrev pub left_at : Card W → W → Card W
  left_at c w = record c { host = on c.host w }

module _ {W : Type 0} (io : Io W) where
  unfoldable pub amd_pcnet_read_csr : (base reg : ℕ) → W → ℕ × W
  amd_pcnet_read_csr base reg w = io.inw (base + rdp) (io.outw (base + rap) reg w)

  unfoldable pub amd_pcnet_write_csr : (base reg value : ℕ) → W → W
  amd_pcnet_write_csr base reg value w = io.outw (base + rdp) value (io.outw (base + rap) reg w)

  -- The wait for TINT, bit 9, which then is acknowledged; with the rounds left.
  unfoldable pub wait_sent : ℕ → (base : ℕ) → W → W
  wait_sent zero base w = w
  wait_sent (suc left) base w =
      let (csr0, w1) = amd_pcnet_read_csr base 0 w in
      let rest = wait_sent left base w1 in
      if csr0 / 2 ^ 9 % 2 == 0 then rest else amd_pcnet_write_csr base 0 ack_tx w1

  -- The registers 0x78 and 0x7C get the buffer and the length with the OWN bit.
  unfoldable pub transmit : (base buffer len : ℕ) → W → W
  transmit base buffer len w = wait_sent 10000 base (
      amd_pcnet_write_csr base 0 demand
        (io.ports.outl (base + 0x7C) (len + 2 ^ 31) (io.ports.outl (base + 0x78) buffer w)))

  unfoldable pub send_now : (addr len : ℕ) → Card W → Card W
  send_now addr len c =
      let buffer = c.dev.tx_buffers c.dev.tx_cur in
      let c1 = record c {
        host = record c.host { ram = memory_copy c.host.ram buffer addr (limit len) };
      } in
      let c2 =
        tell (codes "AMD PCnet packet transmitted to VirtualBox bridge\n")
          (left_at c1 (transmit c.dev.io_base buffer (limit len) (world c1))) in
      record c2 { dev = record c2.dev { tx_cur = next c.dev.tx_cur } }

  unfoldable pub amd_pcnet_send_packet : (addr len : ℕ) → Card W → ℤ × Card W
  amd_pcnet_send_packet addr len c =
      if not c.dev.initialized || ((addr == 0) || (len == 0)) then (minus_one, c) else (
        pos 0,
        send_now addr len (
            tell (codes "Sending packet via AMD PCnet (" ++ (three_digits len ++ codes " bytes)\n"))
              c),
      )

  -- A packet of `n` bytes that fits is copied.
  unfoldable pub take_packet : (buffer n : ℕ) → Card W → ℤ × Card W
  take_packet buffer n c =
      let m = memory_copy c.host.ram buffer (c.dev.rx_buffers c.dev.rx_cur) n in
      let c1 =
        left_at (record c { host = record c.host { ram = m } })
          (amd_pcnet_write_csr c.dev.io_base 0 ack_rx (world c)) in
      (
        pos n,
        tell (codes "AMD PCnet: Received " ++ (three_digits n ++ codes " bytes\n"))
            (record c1 { dev = record c1.dev { rx_cur = next c.dev.rx_cur } }),
      )

  unfoldable pub packet_ready : (buffer max_len : ℕ) → Card W → ℤ × Card W
  packet_ready buffer max_len c0 =
      let c1 = tell (codes "AMD PCnet: Packet received from bridge\n") c0 in
      let (v, w) = io.ports.inl (c1.dev.io_base + 0x70) (world c1) in
      let n = v % 2 ^ 16 in
      let c = left_at c1 w in
      if ltb 0 n && leb n max_len
      then take_packet buffer n c
      else (minus_one, left_at c (amd_pcnet_write_csr c.dev.io_base 0 ack_rx w))

  -- RINT is bit 10.
  unfoldable pub amd_pcnet_receive_packet : (buffer max_len : ℕ) → Card W → ℤ × Card W
  amd_pcnet_receive_packet buffer max_len c =
      let (csr0, w) = amd_pcnet_read_csr c.dev.io_base 0 (world c) in
      if not c.dev.initialized || (buffer == 0)
      then (minus_one, c)
      else if csr0 / 2 ^ 10 % 2 == 0
      then (minus_one, left_at c w)
      else packet_ready buffer max_len (left_at c w)
