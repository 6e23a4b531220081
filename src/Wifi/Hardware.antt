-- ===== src/Wifi/Hardware.antt =====
-- How kernel/network.c looks for WiFi hardware, and what its scan finds.
use pine_os.Base.{
  ℕ, zero, ◌+◌, ◌*◌, ◌/◌, ◌%◌, ◌||◌, Option, none, some, List, [], ◌∷◌, ◌++◌, ltb, leb, ◌==◌,
  if◌then◌else◌, ℤ, pos, length,
}
use pine_os.CString.{Text}
use pine_os.Machine.{codes}
use pine_os.Pci.{PciDevice}
use pine_os.Pci.Listing.{find_id, find_kind, hex4}
use pine_os.Network.Table.{get_interface}
use pine_os.Drivers.{Found, or_look}
use pine_os.Wifi.{Network, Station, wlan0, say}

abbrev pub vendor_intel : ℕ
vendor_intel = 0x8086

abbrev pub vendor_realtek : ℕ
vendor_realtek = 0x10EC

abbrev pub vendor_broadcom : ℕ
vendor_broadcom = 0x14E4

abbrev pub vendor_atheros : ℕ
vendor_atheros = 0x168C

abbrev pub intel_ids : List ℕ
intel_ids =
    0x06F0 ∷ 0x34F0 ∷ 0x2723 ∷ 0x2725 ∷ 0x271B ∷ 0x271C ∷ 0x7AF0 ∷ 0x51F0 ∷ 0x51F1 ∷ 0x54F0 ∷ 0x08B1
    ∷ 0x08B2 ∷ 0x08B3 ∷ 0x08B4 ∷ 0x095A ∷ 0x095B ∷ 0x3165 ∷ 0x3166 ∷ 0x24F3 ∷ 0x24F4 ∷ []

abbrev pub realtek_ids : List ℕ
realtek_ids = 0x8179 ∷ 0x8178 ∷ 0x8723 ∷ 0x8822 ∷ 0x8821 ∷ 0x8812 ∷ 0x8811 ∷ []

abbrev pub broadcom_ids : List ℕ
broadcom_ids =
    0x4311 ∷ 0x4312 ∷ 0x4313 ∷ 0x4315 ∷ 0x4318 ∷ 0x4319 ∷ 0x431A ∷ 0x4320 ∷ 0x4321 ∷ 0x4322 ∷ 0x4324
    ∷ 0x4325 ∷ []

-- The first of the identifiers that a device in the table has, with the device.
unfoldable pub find_any : ℕ → List ℕ → List PciDevice → Option (ℕ × PciDevice)
find_any vendor [] l = none
find_any vendor (i ∷ ids) l =
    let rest = find_any vendor ids l in
    elim (find_id vendor i l) [ some d ↦ some (i, d) | none ↦ rest ]

abbrev pub found_as : (ℕ → Text) → Option (ℕ × PciDevice) → Found
found_as t none = (none, [])
found_as t (some (i, d)) = (some d, t i)

-- The four searches, in order.
unfoldable pub find_wifi : List PciDevice → Found
unfolding find_any
find_wifi l =
    or_look (find_kind 0x02 0x80 l, [])
      (or_look
        (none, codes "No dedicated WiFi controller found, scanning for known WiFi devices...\n")
        (or_look
          (found_as (λ i. codes "Found Intel WiFi device: " ++ (hex4 i ++ codes "\n"))
            (find_any vendor_intel intel_ids l))
          (or_look
            (found_as (λ _. codes "Found Realtek WiFi device\n")
              (find_any vendor_realtek realtek_ids l))
            (found_as (λ _. codes "Found Broadcom WiFi device\n")
              (find_any vendor_broadcom broadcom_ids l)))))

-- An entry that the bridge makes up, the one numbered `i`.
abbrev bridged : (i : ℕ) → Text → (security signal channel : ℕ) → Network
bridged i ssid security signal channel = record {
  ssid = ssid;
  security = security;
  signal = signal;
  bssid =
      0x00
      ∷ (if i % 2 == 0 then 0x24 else 0x1B)
      ∷ (if i % 3 == 0 then 0xF2 else 0x77)
      ∷ (0x10 + i)
      ∷ (0x20 + i * 3)
      ∷ (0x30 + i * 7)
      ∷ [];
  channel = channel;
}

abbrev pub bridge_networks : List Network
bridge_networks =
    bridged 0 (codes "YourHomeWiFi") 4 28 36
    ∷ bridged 1 (codes "Neighbor_5G") 3 45 149
    ∷ bridged 2 (codes "NETGEAR_AX6000") 4 52 6
    ∷ bridged 3 (codes "Linksys_WiFi6E") 4 38 44
    ∷ bridged 4 (codes "TP-Link_AX73") 3 61 157
    ∷ bridged 5 (codes "ASUS_AX6000") 4 48 11
    ∷ bridged 6 (codes "Xfinity_WiFi6") 3 67 1
    ∷ bridged 7 (codes "ATT_Fiber_5G") 4 55 161
    ∷ []

-- A candidate of the scan, the one numbered `i`: its entry's address is made from the name's first
-- two bytes.
abbrev scanned : Text → (a b : ℕ) → (security signal channel : ℕ) → Network
scanned ssid a b security signal channel = record {
  ssid = ssid;
  security = security;
  signal = signal;
  bssid =
      ((a + b) % 256)
      ∷ ((a + b + 23) % 256)
      ∷ ((a + b + 46) % 256)
      ∷ ((a + b + 69) % 256)
      ∷ ((a + b + 92) % 256)
      ∷ ((a + b + 115) % 256)
      ∷ [];
  channel = channel;
}

abbrev pub candidates : List Network
candidates =
    scanned (codes "NETGEAR") b'N' b'E' 3 42 1
    ∷ scanned (codes "Linksys") b'L' b'i' 3 58 6
    ∷ scanned (codes "TP-Link_WiFi") b'T' b'P' 4 35 11
    ∷ scanned (codes "ASUS_Router") b'A' b'S' 3 67 3
    ∷ scanned (codes "Belkin.Setup") b'B' b'e' 0 73 9
    ∷ scanned (codes "ATT-WiFi") b'A' b'T' 3 81 2
    ∷ scanned (codes "Verizon_WiFi") b'V' b'e' 3 45 7
    ∷ scanned (codes "Xfinity") b'X' b'f' 3 52 4
    ∷ scanned (codes "CenturyLink") b'C' b'e' 3 69 8
    ∷ []

abbrev pub max_wifi_networks : ℕ
max_wifi_networks = 16

-- The loop over the candidates from the one numbered `i`; each third one is skipped.
unfoldable pub scan_results : (i : ℕ) → List Network → List Network → List Network
scan_results i found [] = found
scan_results i found (n ∷ l) =
    scan_results (i + 1)
      (if leb max_wifi_networks (length found) || (i % 3 == 0) then found else found ++ (n ∷ [])) l

abbrev pub found_line : Network → Text
found_line n =
    codes "Found: "
    ++ (n.ssid
        ++ (codes " (-" ++ ((b'0' + n.signal / 10) ∷ (b'0' + n.signal % 10) ∷ codes " dBm)\n")))

abbrev pub found_lines : List Network → Text
found_lines [] = []
found_lines (n ∷ l) = found_line n ++ found_lines l

module _ {W Card : Type 0} where
  -- The entries are those of a table that has just been cleared.
  unfoldable pub wifi_process_scan_results : Station W Card → ℕ × Station W Card
  wifi_process_scan_results s =
      let found = scan_results 0 [] candidates in
      (
        length found,
        say (codes "Processing WiFi scan results...\n" ++ found_lines found)
            (record s { networks = found }),
      )

  unfoldable pub wifi_start_scan : Station W Card → ℤ × Station W Card
  wifi_start_scan s =
      (pos 0, say (codes "Initiating WiFi hardware scan...\nWiFi scan started on all channels\n") s)

  abbrev pub cleared : Station W Card → Station W Card
  cleared s = record s { networks = []; network_count = 0 }

  unfoldable pub after_results : ℕ × Station W Card → ℕ × Station W Card
  after_results (n, s) =
      if ltb 0 n
      then (
        n,
        record (say (codes "Hardware scan complete. Found " ++ ((b'0' + n) ∷ codes " networks\n"))
            s) { network_count = n },
      )
      else (n, say (codes "No networks found in range\n") s)

  unfoldable pub scan_started : ℤ × Station W Card → ℕ × Station W Card
  scan_started (pos zero, s) =
      after_results (wifi_process_scan_results (say (codes "Scanning for networks...\n") s))
  scan_started (r, s) = (0, say (codes "Error: Failed to start WiFi scan\n") s)

  unfoldable pub wifi_hardware_scan : Station W Card → ℕ × Station W Card
  wifi_hardware_scan s0 =
      let s = cleared (say (codes "Performing hardware WiFi scan...\n") s0) in
      elim (get_interface wlan0 s.ifaces) [
        | none ↦ (0, say (codes "Error: WiFi interface not available\n") s)
        | some i ↦ scan_started (wifi_start_scan s)
      ]
