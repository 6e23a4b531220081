-- ===== src/Drivers/E1000/Setup.antt =====
-- How kernel/e1000.c finds a card and sets it up.
use pine_os.Base.{
  ℕ, zero, ◌+◌, ◌*◌, ◌/◌, ◌%◌, ◌^◌, Bool, true, false, Option, none, some, List, [], ◌∷◌, ◌++◌,
  ◌==◌, if◌then◌else◌, ℤ, pos, minus_one,
}
use pine_os.CString.{Text}
use pine_os.Machine.{codes}
use pine_os.Pci.{PciDevice}
use pine_os.Pci.Listing.{find_id, find_kind, pci_list_devices, hex4}
use pine_os.Drivers.{Found, or_look, Io, hex8, bar0, enable}
use pine_os.Drivers.E1000.{
  E1000, Card, cleared, e1000_read_reg, e1000_write_reg, tell, e1000_read_mac_address,
  e1000_setup_rx, e1000_setup_tx,
}

-- `0x100E` to `0x1017` and `0x10D3`
abbrev pub e1000_ids : List ℕ
e1000_ids =
    0x100E ∷ 0x100F ∷ 0x1010 ∷ 0x1011 ∷ 0x1012 ∷ 0x1013 ∷ 0x1014 ∷ 0x1015 ∷ 0x1016 ∷ 0x1017 ∷ 0x10D3
    ∷ []

-- a search that prints `before`, and `after` when it succeeds
abbrev looked : Text → Option PciDevice → (PciDevice → Text) → Found
looked before none after = (none, before)
looked before (some d) after = (some d, before ++ after d)

unfoldable pub try_ids : List ℕ → List PciDevice → Found
try_ids [] l = (none, [])
try_ids (i ∷ ids) l =
    or_look
      (looked (codes "Trying device ID: " ++ (hex4 i ++ codes "\n")) (find_id 0x8086 i l)
        (λ _. codes "Found Intel E1000 device!\n"))
      (try_ids ids l)

-- The five searches, in order.
unfoldable pub find_card : List PciDevice → Found
unfolding try_ids
find_card l =
    or_look
      (looked (codes "Looking for VirtualBox E1000 (100E)...\n") (find_id 0x8086 0x100E l)
        (λ _. []))
      (or_look
        (looked (codes "Looking for E1000E variant (10D3)...\n") (find_id 0x8086 0x10D3 l)
          (λ _. []))
        (or_look
          (looked (codes "Looking for AMD PCnet device (1022:2000)...\n") (find_id 0x1022 0x2000 l)
            (λ _. codes "Found AMD PCnet device - will use E1000-compatible mode\n"))
          (or_look
            (looked (codes "Looking for ANY network controller for VirtualBox...\n")
              (find_kind 0x02 0x00 l)
              (λ d.
                codes "Found generic network controller: "
                ++ (hex4 d.vendor_id
                    ++ (b':' ∷ (hex4 d.device_id ++ codes " - will try E1000 mode\n")))))
            (or_look (none, codes "Looking for any Intel network device...\n")
              (try_ids e1000_ids l)))))

module _ {W : Type 0} (io : Io W) where
  -- `ctrl |= E1000_CTRL_SLU`, bit 6
  abbrev pub with_slu : ℕ → ℕ
  with_slu ctrl = ctrl / 2 ^ 7 * 2 ^ 7 + 2 ^ 6 + ctrl % 2 ^ 6

  -- the last steps
  unfoldable pub link_up : Card W → ℤ × Card W
  link_up c =
      let (ctrl, c1) = e1000_read_reg io 0 c in
      let c2 = e1000_write_reg io 0 (with_slu ctrl) c1 in
      (
        pos 0,
        tell io (codes "Intel E1000 device ready for VirtualBox networking\n")
            (record c2 { dev = record c2.dev { initialized = true } }),
      )

  -- `!= 0`
  abbrev pub failed : ℤ → Bool
  failed (pos zero) = false
  failed _ = true

  unfoldable pub after_tx : ℤ × Card W → ℤ × Card W
  after_tx (r, c) =
      if failed r
      then (minus_one, tell io (codes "Failed to setup E1000 transmit\n") c)
      else link_up c

  unfoldable pub after_rx : ℤ × Card W → ℤ × Card W
  after_rx (r, c) =
      if failed r
      then (minus_one, tell io (codes "Failed to setup E1000 receive\n") c)
      else after_tx (e1000_setup_tx io c)

  abbrev pub all_on : ℕ → ℕ
  all_on command = command / 8 * 8 + 7

  -- From the command register on; the wait after the reset does nothing.
  unfoldable pub start : PciDevice → Card W → ℤ × Card W
  start d c = after_rx (
      e1000_setup_rx io (
        e1000_read_mac_address io (
          e1000_write_reg io 0 0x400_0000 (
            tell io (codes "Resetting E1000 device...\n")
              (record c { host = enable io all_on d c.host })))))

  unfoldable pub e1000_setup_device : PciDevice → Card W → ℤ × Card W
  e1000_setup_device d c0 =
      let c =
        tell io (codes "Setting up Intel E1000 network device...\n")
          (record c0 { dev = record c0.dev { pci_dev = some d } }) in
      let base = bar0 d / 16 * 16 in
      if bar0 d % 2 == 0
      then start d (
          tell io (codes "E1000 MMIO base: " ++ (hex8 base ++ codes "\n"))
            (record c { dev = record c.dev { mmio_base = base } }))
      else (minus_one, tell io (codes "Error: Expected memory-mapped I/O BAR\n") c)

  unfoldable pub set_up_found : Option PciDevice → Card W → ℤ × Card W
  set_up_found none c0 =
      let c = tell io (codes "No Intel E1000 device found - checking all PCI devices...\n") c0 in
      (minus_one, record c { host = record c.host { pci = pci_list_devices c.host.pci } })
  set_up_found (some d) c =
      e1000_setup_device d (tell io (codes "E1000 device detected, setting up...\n") c)

  unfoldable pub e1000_detect_device : Card W → ℤ × Card W
  e1000_detect_device c =
      let (found, t) = find_card c.host.pci.devices in
      set_up_found found (tell io (codes "Scanning for Intel E1000 network device...\n" ++ t) c)

  abbrev pub detected : ℤ × Card W → ℤ × Card W
  detected (r, c) =
      if failed r
      then (minus_one, tell io (codes "No Intel E1000 device found\n") c)
      else (pos 0, tell io (codes "Intel E1000 network driver initialized\n") c)

  unfoldable pub e1000_init : Card W → ℤ × Card W
  e1000_init c = detected (
      e1000_detect_device (
        tell io (codes "Initializing Intel E1000 network driver...\n")
          (record c { dev = cleared })))

-- `get_e1000_device`
abbrev pub get_e1000_device : {W : Type 0} → Card W → Option E1000
get_e1000_device c = if c.dev.initialized then some c.dev else none
