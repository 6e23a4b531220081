-- ===== src/Wifi.antt =====
-- The WiFi commands of kernel/network.c, with the state of the network that they share.
pub mod Hardware
pub mod Connect
pub mod Scan
pub mod Ping
pub mod Resolve
pub mod Report
mod Tests
use pine_os.Base.{
  ℕ, zero, suc, ◌+◌, ◌-◌, ◌*◌, ◌/◌, ◌%◌, Bool, true, false, ◌&&◌, ◌||◌, not, Option, none, some,
  List, [], ◌∷◌, ◌++◌, ltb, leb, ◌==◌, if◌then◌else◌, ℤ, pos, minus_one, replicate,
}
use pine_os.Base.Bind.{◌>>=◌}
use pine_os.CString.{Text, strlen}
use pine_os.Machine.{codes}
use pine_os.Filesystem.Paths.{same_text}
use pine_os.Network.{ip, ip_to_string}
use pine_os.Network.Table.{
  Iface, Net, state_down, state_up, get_interface, set_interface, interface_up,
}
use pine_os.Netstack.Link.{Nic, Host}
use pine_os.Netstack.Dhcp.{dhcp_client_start}
use pine_os.Pci.{Pci}

-- `wifi_network_t`; `signal` is the strength negated, since every strength is negative.
pub record Network : Type 0 where
  pub ssid : Text
  pub security : ℕ
  pub signal : ℕ
  pub bssid : List ℕ
  pub channel : ℕ

-- The PCI table, the interfaces and the WiFi fields of `wlan0`, the used entries of `wifi_networks`,
-- which are the first ones, `wifi_network_count`, and the globals of netstack.c. The console is that
-- of the table; what the driver keeps is the card.
pub record Station (W Card : Type 0) : Type 0 where
  pub pci : Pci W
  pub ifaces : List Iface
  pub connected_ssid : Text
  pub signal_strength : ℕ
  pub networks : List Network
  pub network_count : ℕ
  pub card : Card
  pub dhcp_transaction_id : ℕ
  pub dns_query_id : ℕ

abbrev pub state_connecting : ℕ
state_connecting = 2

abbrev pub state_connected : ℕ
state_connected = 3

abbrev pub state_error : ℕ
state_error = 4

abbrev pub wlan0 : Text
wlan0 = codes "wlan0"

-- The digits of a signal below 200.
abbrev pub signal_text : ℕ → Text
signal_text n =
    let rest = if leb 100 n then n - 100 else n in
    b'-' ∷ (if leb 100 n then b'1' else b' ') ∷ ((b'0' + rest / 10) % 256) ∷ (b'0' + rest % 10) ∷ []

unfoldable pub find_network : Text → List Network → Option Network
find_network ssid [] = none
find_network ssid (n ∷ l) = if same_text n.ssid ssid then some n else find_network ssid l

abbrev pub security_text : ℕ → Text
security_text n =
    if n == 0
    then codes "Open        "
    else if n == 1
    then codes "WEP         "
    else if n == 2
    then codes "WPA         "
    else if n == 3
    then codes "WPA2        "
    else if n == 4
    then codes "WPA3        "
    else codes "Unknown     "

unfoldable pub network_line : Network → Text
network_line n =
    n.ssid
    ++ (replicate (24 - strlen n.ssid) b' '
        ++ (security_text n.security
            ++ (signal_text n.signal
                ++ (codes " dBm   "
                    ++ ((b'0' + n.channel / 10) ∷ (b'0' + n.channel % 10) ∷ codes "\n")))))

abbrev pub network_lines : List Network → Text
network_lines [] = []
network_lines (n ∷ l) = network_line n ++ network_lines l

-- the new addresses of an interface that is disconnected
abbrev pub disconnected : Iface → Iface
disconnected i = record i {
  state = state_down;
  ip_addr = ip 0 0 0 0;
  subnet_mask = ip 0 0 0 0;
  gateway = ip 0 0 0 0;
  dns_server = ip 0 0 0 0;
}

abbrev pub has_password : Option Text → Bool
has_password none = false
has_password (some p) = ltb 0 (strlen p)

module _ {W Card : Type 0} where
  abbrev pub say : Text → Station W Card → Station W Card
  say t s = record s { pci = record s.pci { console = s.pci.console ++ t } }

  -- A function on the interfaces and the console.
  abbrev pub net_of : Station W Card → Net
  net_of s = record { ifaces = s.ifaces; console = s.pci.console }

  abbrev pub with_net : Net → Station W Card → Station W Card
  with_net n s = record s { ifaces = n.ifaces; pci = record s.pci { console = n.console } }

  abbrev pub set_wlan : (Iface → Iface) → Station W Card → Station W Card
  set_wlan f s = record s { ifaces = set_interface wlan0 f s.ifaces }

  -- The stack's view of an interface, and what it leaves.
  abbrev pub host_of : Iface → Station W Card → Host Card
  host_of i s = record {
    iface = i;
    card = s.card;
    console = s.pci.console;
    dhcp_transaction_id = s.dhcp_transaction_id;
    dns_query_id = s.dns_query_id;
  }

  abbrev pub with_host : Text → Host Card → Station W Card → Station W Card
  with_host name h s = record s {
    ifaces = set_interface name (λ _. h.iface) s.ifaces;
    card = h.card;
    pci = record s.pci { console = h.console };
    dhcp_transaction_id = h.dhcp_transaction_id;
    dns_query_id = h.dns_query_id;
  }

  abbrev pub not_available : Station W Card → ℤ × Station W Card
  not_available s = (minus_one, say (codes "Error: WiFi interface not found\n") s)

  unfoldable pub wifi_list_networks : Station W Card → Station W Card
  wifi_list_networks s =
      say
        (if s.network_count == 0
          then codes "No WiFi networks found. Run 'wifi scan' first.\n"
          else codes "Available WiFi Networks:\n"
            ++ (codes "SSID                    Security    Signal  Channel\n"
                ++ (codes "----                    --------    ------  -------\n"
                    ++ network_lines s.networks)))
        s

  unfoldable pub disconnect : Option Iface → Station W Card → ℤ × Station W Card
  disconnect none s = not_available s
  disconnect (some i) s =
      if i.state == state_connected
      then (
        pos 0,
        say (codes "Disconnecting from " ++ (s.connected_ssid ++ codes "...\nWiFi disconnected\n"))
            (record (set_wlan disconnected s) { connected_ssid = []; signal_strength = 0 }),
      )
      else (minus_one, say (codes "WiFi is not connected\n") s)

  unfoldable pub wifi_disconnect : Station W Card → ℤ × Station W Card
  wifi_disconnect s = disconnect (get_interface wlan0 s.ifaces) s

abbrev pub after_dhcp :
    {W Card : Type 0} → Text → Station W Card → Option (ℤ × Host Card) → Option (ℤ × Station W Card)
after_dhcp name s none = none
after_dhcp name s (some (r, h)) = some (r, with_host name h s)

-- `wifi_connect` returns 0, whatever the DHCP client did.
abbrev pub joined : {W Card : Type 0} → Option (ℤ × Station W Card) → Option (ℤ × Station W Card)
joined none = none
joined (some (r, s)) = some (pos 0, s)

module _ {W Card : Type 0} (nics : Text → Nic Card) where
  -- The functions of the card of an interface are those of its `network_interface_t`.
  unfoldable pub start_dhcp : Text → Option Iface → Station W Card → Option (ℤ × Station W Card)
  start_dhcp name none s =
      some (minus_one, say (codes "Error: Interface not found: " ++ (name ++ codes "\n")) s)
  start_dhcp name (some i) s =
      if i.state == state_up
      then (let s' = say (codes "Starting REAL DHCP client on " ++ (name ++ codes "...\n")) s in
          after_dhcp name s' (dhcp_client_start (nics name) (host_of i s')))
      else some (minus_one, say (codes "Error: Interface must be UP to start DHCP\n") s)

  -- `none` is a read past the end of a buffer.
  unfoldable pub network_start_dhcp : Text → Station W Card → Option (ℤ × Station W Card)
  network_start_dhcp name s = start_dhcp name (get_interface name s.ifaces) s

  -- The state `CONNECTED`, and the end of `wifi_connect`, which does not look at its calls' results.
  unfoldable pub join : Text → Network → Station W Card → Option (ℤ × Station W Card)
  join ssid n s0 =
      let s1 = record (set_wlan (λ i. record i { state = state_connected }) s0) {
        connected_ssid = ssid;
        signal_strength = n.signal;
      } in
      let s2 = say (codes "Connected to " ++ (ssid ++ codes "\n")) s1 in
      let (_, up) = interface_up wlan0 (net_of s2) in
      joined (network_start_dhcp wlan0 (with_net up s2))

  unfoldable pub connect_to :
      Text → Option Text → Option Network → Station W Card → Option (ℤ × Station W Card)
  connect_to ssid password none s =
      some (minus_one, say (codes "Error: Network not found: " ++ (ssid ++ codes "\n")) s)
  connect_to ssid password (some n) s0 =
      let s =
        set_wlan (λ i. record i { state = state_connecting })
          (say (codes "Connecting to " ++ (ssid ++ codes "...\n")) s0) in
      if n.security == 0
      then join ssid n s
      else if has_password password
      then join ssid n (say (codes "Authenticating...\n") s)
      else some (
        minus_one,
        set_wlan (λ i. record i { state = state_error })
            (say (codes "Error: Password required for secured network\n") s),
      )

  unfoldable pub wifi_connect : Text → Option Text → Station W Card → Option (ℤ × Station W Card)
  wifi_connect ssid password s = elim (get_interface wlan0 s.ifaces) [
    | none ↦ some (not_available s)
    | some i ↦ connect_to ssid password (find_network ssid s.networks) s
  ]
