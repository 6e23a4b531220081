-- ===== src/Wifi/Scan.antt =====
-- `wifi_hardware_init` and `wifi_scan_networks` of kernel/network.c.
use pine_os.Base.{
  ℕ, zero, suc, ◌+◌, ◌*◌, ◌/◌, ◌%◌, ◌≡◌, ◌⊎◌, inl, inr, refl, List, Option, none, some, [], ◌∷◌,
  ◌++◌, ltb, ◌==◌, if◌then◌else◌, ℤ, pos, negsuc, minus_one, length, Bool-cases, Option-cases,
}
use pine_os.CString.{Text, strcmp}
use pine_os.Filesystem.Paths.{same_text}
use pine_os.Machine.{codes}
use pine_os.Pci.{Ports, PciDevice, pci_config_read_word, pci_config_write_dword, pci_init}
use pine_os.Pci.Listing.{find_id, hex4}
use pine_os.Drivers.{hex8, bar0}
use pine_os.Network.Table.{get_interface}
use pine_os.Wifi.{Network, Station, wlan0, say, find_network}
use pine_os.Wifi.Hardware.{
  vendor_intel, vendor_realtek, vendor_broadcom, vendor_atheros, find_wifi, bridge_networks,
  candidates, scan_results, cleared, wifi_process_scan_results, wifi_start_scan, after_results,
  scan_started, wifi_hardware_scan,
}

-- the names of a list of networks
abbrev pub names : List Network → List Text
names [] = []
names (n ∷ l) = n.ssid ∷ names l

abbrev pub six_names : List Text
six_names =
    codes "Linksys"
    ∷ codes "TP-Link_WiFi"
    ∷ codes "Belkin.Setup"
    ∷ codes "ATT-WiFi"
    ∷ codes "Xfinity"
    ∷ codes "CenturyLink"
    ∷ []

-- None of the networks has one of these names.
abbrev pub Absent : List Text → List Network → Type 0
Absent [] l = Unit {0}
Absent (ssid ∷ ssids) l = (find_network ssid l ≡ none) × Absent ssids l

module _ {W Card : Type 0} where
  -- Either nothing was found, or the six candidates that the scan does not skip; none of them has
  -- the name of a network of the bridge.
  abbrev pub Outcome : ℕ × Station W Card → Type 0
  Outcome (n, s) =
      ((n ≡ 0) × (s.networks ≡ []) × (s.network_count ≡ 0))
      ⊎ ((n ≡ 6)
          × (s.networks ≡ scan_results 0 [] candidates)
          × (names s.networks ≡ six_names)
          × Absent (names bridge_networks) s.networks
          × (s.network_count ≡ 6))

  -- a hardware setup that fails has listed nothing
  abbrev Lists : ℤ × Station W Card → Type 0
  Lists (pos n, s) = n ≡ 0
  Lists (negsuc n, s) = (s.networks ≡ []) × (s.network_count ≡ 0)

six_Absent : Absent (names bridge_networks) (scan_results 0 [] candidates)
unfolding find_network scan_results same_text strcmp codes
six_Absent = (refl, (refl, (refl, (refl, (refl, (refl, (refl, (refl, tt))))))))

module _ {W Card : Type 0} (ports : Ports W) where
  -- `command |= 0x06`
  unfoldable pub enable : PciDevice → Station W Card → Station W Card
  enable d s =
      let (command, w) = pci_config_read_word ports d.bus d.device d.function 0x04 s.pci.world in
      record s {
        pci = record s.pci {
          world =
              pci_config_write_dword ports d.bus d.device d.function 0x04
                (command / 8 * 8 + 6 + command % 2) w;
        };
      }

  unfoldable pub wifi_init_intel : PciDevice → Station W Card → ℤ × Station W Card
  wifi_init_intel d s0 =
      let s = enable d (say (codes "Initializing Intel WiFi controller...\n") s0) in
      if bar0 d % 2 == 0
      then (
        pos 0,
        say
            (codes "WiFi controller base address: "
              ++ (hex8 (bar0 d / 16 * 16) ++ codes "\nIntel WiFi hardware detected and ready\n"))
            s,
      )
      else (minus_one, say (codes "Error: Invalid BAR configuration\n") s)

  -- The other three differ in what they print.
  unfoldable pub init_other :
      (before after : Text) → PciDevice → Station W Card → ℤ × Station W Card
  init_other before after d s = (pos 0, say after (enable d (say before s)))

  abbrev pub wifi_init_realtek : PciDevice → Station W Card → ℤ × Station W Card
  wifi_init_realtek =
      init_other (codes "Initializing Realtek network controller...\n")
        (codes "Realtek network hardware detected\n")

  abbrev pub wifi_init_broadcom : PciDevice → Station W Card → ℤ × Station W Card
  wifi_init_broadcom =
      init_other (codes "Initializing Broadcom WiFi controller...\n")
        (codes "Broadcom WiFi hardware detected\n")

  abbrev pub wifi_init_atheros : PciDevice → Station W Card → ℤ × Station W Card
  wifi_init_atheros =
      init_other (codes "Initializing Atheros WiFi controller...\n")
        (codes "Atheros WiFi hardware detected\n")

  -- No WiFi device: the bridge, if the adapter of VirtualBox is there.
  unfoldable pub bridge : Option PciDevice → Station W Card → ℤ × Station W Card
  bridge none s = (
    minus_one,
    say
        (codes "No VirtualBox network adapter found\n"
          ++ codes "Please ensure VirtualBox is configured with bridged networking\n")
        s,
  )
  bridge (some d) s = (
    pos 0,
    say
        (codes "VirtualBox bridged network detected!\n"
          ++ (codes "Your host PC has Intel Wi-Fi 6 AX201 - bridging WiFi networks...\n"
              ++ (codes "WiFi 6 AX201 bridge initialized - "
                  ++ ((b'0' + length bridge_networks)
                      ∷ (codes " networks available\n"
                          ++ codes "Note: Networks bridged through your host AX201 adapter\n")))))
        (record s { networks = bridge_networks; network_count = length bridge_networks }),
  )

  unfoldable pub by_vendor : PciDevice → Station W Card → ℤ × Station W Card
  by_vendor d s =
      if d.vendor_id == vendor_intel
      then wifi_init_intel d s
      else if d.vendor_id == vendor_realtek
      then wifi_init_realtek d s
      else if d.vendor_id == vendor_broadcom
      then wifi_init_broadcom d s
      else if d.vendor_id == vendor_atheros
      then wifi_init_atheros d s
      else (minus_one, say (codes "Unsupported WiFi hardware vendor\n") s)

  unfoldable pub set_up : Option PciDevice → Station W Card → ℤ × Station W Card
  set_up none s = bridge (find_id 0x8086 0x100E s.pci.devices) (
      say
        (codes "No WiFi hardware passed through to VM\n"
          ++ codes "Detecting VirtualBox bridged network setup...\n")
        s)
  set_up (some d) s = by_vendor d (
      say
        (codes "Found WiFi controller: "
          ++ (hex4 d.vendor_id ++ (b':' ∷ (hex4 d.device_id ++ codes "\n"))))
        s)

  unfoldable pub wifi_hardware_init : Station W Card → ℤ × Station W Card
  wifi_hardware_init s0 =
      let s1 = say (codes "Detecting WiFi hardware...\n") s0 in
      let s2 = record s1 { pci = pci_init ports s1.pci } in
      let (found, t) = find_wifi s2.pci.devices in set_up found (say t s2)

  unfoldable pub scan_done : ℕ × Station W Card → ℕ × Station W Card
  scan_done (n, s) =
      if ltb 0 n
      then (
        n,
        record (say (codes "Scan complete. Found " ++ ((b'0' + n) ∷ codes " networks\n")) s) {
          network_count = n;
        },
      )
      else (n, say (codes "No WiFi networks found in range\n") s)

  unfoldable pub hardware_ready : ℤ × Station W Card → ℕ × Station W Card
  hardware_ready (pos zero, s) = scan_done (wifi_hardware_scan s)
  hardware_ready (r, s) = (
    0,
    say
        (codes "Error: No WiFi hardware detected\n"
          ++ codes "This requires a real WiFi adapter to function\n")
        s,
  )

  unfoldable pub wifi_scan_networks : Station W Card → ℕ × Station W Card
  wifi_scan_networks s =
      hardware_ready
        (wifi_hardware_init (cleared (say (codes "Scanning for WiFi networks...\n") s)))

  set_up-Lists :
      (o : Option PciDevice) (s : Station W Card)
      → s.networks ≡ []
      → s.network_count ≡ 0
      → Lists (set_up o s)
  unfolding set_up bridge by_vendor wifi_init_intel init_other enable
  set_up-Lists none s a b = elim (Option-cases (find_id 0x8086 0x100E s.pci.devices)) [
    | inl e ↦ rw e (a, b)
    | inr (d, e) ↦ rw e refl
  ]
  set_up-Lists (some d) s a b = elim (Bool-cases (d.vendor_id == vendor_intel)) [
    | inl y ↦ elim (Bool-cases (bar0 d % 2 == 0)) [
      | inl z ↦ rw (y, z) refl
      | inr n ↦ rw (y, n) (a, b)
    ]
    | inr k ↦ elim (Bool-cases (d.vendor_id == vendor_realtek)) [
      | inl y ↦ rw (k, y) refl
      | inr m ↦ elim (Bool-cases (d.vendor_id == vendor_broadcom)) [
        | inl y ↦ rw (k, m, y) refl
        | inr n ↦ elim (Bool-cases (d.vendor_id == vendor_atheros)) [
          | inl y ↦ rw (k, m, n, y) refl
          | inr u ↦ rw (k, m, n, u) (a, b)
        ]
      ]
    ]
  ]

  hardware_scan-Outcome : (s : Station W Card) → Outcome (scan_done (wifi_hardware_scan s))
  unfolding scan_done wifi_hardware_scan scan_started wifi_start_scan wifi_process_scan_results
      after_results scan_results
  hardware_scan-Outcome s = elim (Option-cases (get_interface wlan0 s.ifaces)) [
    | inl e ↦ rw (e, wifi_hardware_scan) (inl (refl, refl, refl))
    | inr (i, e) ↦ rw (e, wifi_hardware_scan) (inr (refl, refl, refl, six_Absent, refl))
  ]

  hardware_ready-Outcome : (x : ℤ × Station W Card) → Lists x → Outcome (hardware_ready x)
  unfolding hardware_ready
  hardware_ready-Outcome (pos zero, s) k = hardware_scan-Outcome s
  hardware_ready-Outcome (pos (suc n), s) k = absurd (cc k)
  hardware_ready-Outcome (negsuc n, s) k = inl (refl, k.0, k.1)

  -- Whatever hardware there is, a scan lists no network and returns 0, or it returns 6 and lists the
  -- entries named Linksys, TP-Link_WiFi, Belkin.Setup, ATT-WiFi, Xfinity and CenturyLink, in this
  -- order; no network that `wifi_hardware_init` makes up for a bridge is found by its name there.
  pub wifi_scan_networks-Outcome : (s : Station W Card) → Outcome (wifi_scan_networks s)
  unfolding wifi_scan_networks wifi_hardware_init
  wifi_scan_networks-Outcome s = hardware_ready-Outcome _ (set_up-Lists _ _ refl refl)
