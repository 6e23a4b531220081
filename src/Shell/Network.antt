-- ===== src/Shell/Network.antt =====
-- The commands of `execute_command` (kernel/kernel.c) for the network and the PCI bus, from
-- `ifconfig` on.
use pine_os.Base.{
  ℕ, ◌-◌, ◌&&◌, ◌||◌, Option, none, some, [], ◌∷◌, ◌++◌, ltb, leb, ◌==◌, if◌then◌else◌, take, drop,
}
use pine_os.Base.Bind.{◌>>=◌}
use pine_os.CString.{Text, strlen}
use pine_os.Machine.{codes}
use pine_os.Filesystem.Paths.{same_text}
use pine_os.Pci.{Ports}
use pine_os.Pci.Listing.{pci_list_devices}
use pine_os.Network.{Ip, ip_to_string}
use pine_os.Network.Table.{get_interface, interface_up, interface_down, list_interfaces}
use pine_os.Network.Config.{network_show_config}
use pine_os.Netstack.Link.{Nic}
use pine_os.Shell.{starts, skip_spaces, split_space}
use pine_os.Wifi.{
  Station, say, net_of, with_net, wifi_list_networks, wifi_connect, wifi_disconnect,
  network_start_dhcp,
}
use pine_os.Wifi.Scan.{wifi_scan_networks}
use pine_os.Wifi.Report.{wifi_show_status, network_show_stats}
use pine_os.Wifi.Ping.{eth0}
use pine_os.Wifi.Resolve.{
  address_of, network_real_dhcp, network_dns_resolve, network_real_ping, ping,
}

-- The arguments behind a word of `n` letters.
abbrev pub arguments : ℕ → Text → Text
arguments n c = skip_spaces (drop n c)

-- A word, cut to what its buffer holds, and what follows it, if a space does.
abbrev pub first_word : ℕ → Text → Text × Option Text
first_word size args = (take (size - 1) (split_space args).0, (split_space args).1)

abbrev pub password_of : Option Text → Text
password_of none = []
password_of (some t) = skip_spaces t

-- Four packets, unless the next argument begins with a digit from 1 to 9.
abbrev pub count_digit : Text → ℕ
count_digit [] = 4
count_digit (c ∷ t) = if leb b'1' c && leb c b'9' then c - b'0' else 4

abbrev pub count_of : Option Text → ℕ
count_of none = 4
count_of (some t) = count_digit (skip_spaces t)

abbrev pub wifi_help : Text
wifi_help =
    codes "WiFi commands:\n"
    ++ (codes "  wifi status              - Show WiFi status\n"
        ++ (codes "  wifi scan                - Scan for networks\n"
            ++ (codes "  wifi list                - List found networks\n"
                ++ (codes "  wifi connect <ssid> [pw] - Connect to network\n"
                    ++ codes "  wifi disconnect          - Disconnect from network\n"))))

module _ {W Card : Type 0} where
  -- the result of a command is not looked at
  abbrev pub done : {A : Type 0} → Option (A × Station W Card) → Option (Station W Card)
  done none = none
  done (some (r, s)) = some s

  abbrev pub interface_command : Text → Option Text → Station W Card → Station W Card
  interface_command name none s = with_net (network_show_config name (net_of s)) s
  interface_command name (some rest) s =
      if starts (skip_spaces rest) (codes "up")
      then with_net (interface_up name (net_of s)).1 s
      else if starts (skip_spaces rest) (codes "down")
      then with_net (interface_down name (net_of s)).1 s
      else with_net (network_show_config name (net_of s)) s

  unfoldable pub ifconfig : Text → Station W Card → Station W Card
  ifconfig [] s = with_net (list_interfaces (net_of s)) s
  ifconfig (c ∷ args) s =
      let (name, rest) = first_word 16 (c ∷ args) in interface_command name rest s

  abbrev pub list_found : ℕ × Station W Card → Station W Card
  list_found (n, s) = if ltb 0 n then wifi_list_networks s else s

  abbrev pub print_address : Text → Option Ip × Station W Card → Station W Card
  print_address t (none, s) = s
  print_address t (some x, s) = say (t ++ (ip_to_string x ++ codes "\n")) s

  -- The answer, with what is printed when there is none.
  abbrev pub print_lookup : Text → Option Ip × Station W Card → Station W Card
  print_lookup hostname (none, s) =
      say (codes "DNS resolution failed for " ++ (hostname ++ codes "\n")) s
  print_lookup hostname (some x, s) =
      print_address (codes "Name: " ++ (hostname ++ codes "\nAddress: ")) (some x, s)

  abbrev pub list_pci : Text → Station W Card → Station W Card
  list_pci word s0 =
      let s =
        say (codes "DEBUG: " ++ (word ++ codes " command detected, calling pci_list_devices()\n"))
          s0 in
      record s { pci = pci_list_devices s.pci }

module _ {W Card : Type 0} (ports : Ports W) (nics : Text → Nic Card) where
  abbrev pub connect_command : Text × Option Text → Station W Card → Option (Station W Card)
  connect_command ([], rest) s = some (say (codes "Usage: wifi connect <ssid> [password]\n") s)
  connect_command (c ∷ ssid, rest) s =
      done (wifi_connect nics (c ∷ ssid) (some (password_of rest)) s)

  unfoldable pub wifi : Text → Station W Card → Option (Station W Card)
  wifi args s =
      if (strlen args == 0) || same_text args (codes "status")
      then some (wifi_show_status s)
      else if same_text args (codes "scan")
      then some (wifi_scan_networks ports s).1
      else if same_text args (codes "list")
      then some (wifi_list_networks s)
      else if starts args (codes "connect")
      then connect_command (first_word 32 (arguments 7 args)) s
      else if same_text args (codes "disconnect")
      then some (wifi_disconnect s).1
      else some (say wifi_help s)

  unfoldable pub dhcp : Text → Station W Card → Option (Station W Card)
  dhcp [] s = some (say (codes "Usage: dhcp <interface>\nExample: dhcp eth0\n") s)
  dhcp (c ∷ name) s = done (network_start_dhcp nics (c ∷ name) s)

  unfoldable pub ping_command : Text → Station W Card → Option (Station W Card)
  ping_command [] s = some (say (codes "Usage: ping <target> [count]\nExample: ping 8.8.8.8 3\n") s)
  ping_command (c ∷ args) s =
      let (target, rest) = first_word 64 (c ∷ args) in done (ping nics target (count_of rest) s)

  unfoldable pub nslookup : Text → Station W Card → Option (Station W Card)
  nslookup [] s = some (say (codes "Usage: nslookup <hostname>\nExample: nslookup google.com\n") s)
  nslookup (c ∷ hostname) s = do
    r ← network_dns_resolve nics (c ∷ hostname) s
    some (print_lookup (c ∷ hostname) (address_of r))

  abbrev pub test_dhcp : Station W Card → Option (Station W Card)
  test_dhcp s = elim (get_interface eth0 s.ifaces) [
    | none ↦ some s
    | some i ↦ done (network_real_dhcp nics eth0 (with_net (interface_up eth0 (net_of s)).1 s))
  ]

  unfoldable pub nettest : Station W Card → Option (Station W Card)
  nettest s0 =
      let s1 =
        say
          (codes "Testing complete networking stack...\n"
            ++ (codes "================================\n" ++ codes "1. Network interfaces:\n"))
          s0 in
      let s2 = say (codes "\n2. WiFi scan test:\n") (with_net (list_interfaces (net_of s1)) s1) in
      let s3 = list_found (wifi_scan_networks ports s2) in
      do
        s4 ← test_dhcp (say (codes "\n3. DHCP client test:\n") s3)
        r ←
            network_dns_resolve nics (codes "google.com")
              (say (codes "\n4. DNS resolution test:\n") s4)
        (v, s5) ← network_real_ping nics (codes "8.8.8.8") 3 (
            say (codes "\n5. ICMP ping test:\n")
              (print_address (codes "google.com resolved to ") (address_of r)))
        some (say (codes "\nNetworking stack test complete!\n") s5)

  -- The branches from `ifconfig` on, with the last one, for a line that is no command.
  unfoldable pub network_command : Text → Station W Card → Option (Station W Card)
  network_command c s =
      if starts c (codes "ifconfig")
      then some (ifconfig (arguments 8 c) s)
      else if starts c (codes "dhcp")
      then dhcp (arguments 4 c) s
      else if starts c (codes "wifi")
      then wifi (arguments 4 c) s
      else if starts c (codes "ping")
      then ping_command (arguments 4 c) s
      else if same_text c (codes "netstat")
      then some (network_show_stats s)
      else if same_text c (codes "lspci")
      then some (list_pci (codes "lspci") s)
      else if same_text c (codes "pci")
      then some (list_pci (codes "pci") s)
      else if starts c (codes "nslookup")
      then nslookup (arguments 8 c) s
      else if same_text c (codes "nettest")
      then nettest s
      else if ltb 0 (strlen c)
      then some (
          say (codes "Unknown command: " ++ (c ++ codes "\nType 'help' for available commands\n"))
            s)
      else some s
