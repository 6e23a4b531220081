-- ===== src/Wifi/Tests.antt =====
-- The WiFi commands on a machine whose PCI bus has nothing, with a card that sends every packet and
-- receives none.
use pine_os.Base.{
  arith, length, ◌<◌, ℕ, ◌≡◌, ◌≤◌, refl, none, some, [], ◌∷◌, ◌++◌, ℤ, pos, minus_one, Option,
}
use pine_os.CString.{Text, strcmp}
use pine_os.Machine.{codes}
use pine_os.Pci.{Ports}
use pine_os.Network.{ip, ip_from_string, parse}
use pine_os.Network.Table.{new_iface, interface_up, get_interface, set_interface}
use pine_os.Netstack.Dhcp.{
  dhcp_client_start, dhcp_send_discover, dhcp_started, dhcp_wait, dhcp_poll,
}
use pine_os.Netstack.Icmp.{icmp_send_ping}
use pine_os.Netstack.Link.{Nic, ip_send_packet, ethernet_send_frame}
use pine_os.Netstack.Udp.{udp_send_packet}
use pine_os.Filesystem.Paths.{same_text}
use pine_os.Wifi.{
  Station, wlan0, wifi_connect, wifi_disconnect, say, connect_to, find_network, join,
  network_start_dhcp, start_dhcp,
}
use pine_os.Shell.Network.{done, network_command}
use pine_os.Shell.Wireless.{Spaceless, connect_line, network_command-connect}
use pine_os.Wifi.Connect.{IsUp, wifi_disconnect-wifi_connect}
use pine_os.Wifi.Hardware.{candidates}
use pine_os.Wifi.Scan.{wifi_scan_networks, Outcome, wifi_scan_networks-Outcome}
use pine_os.Wifi.Ping.{eth0, Tally, statistics, ping_rounds, ping_one, ping_sent, ping_wait}
use pine_os.Wifi.Resolve.{
  target_of, ping_target, ping_from, network_real_ping, network_real_ping-Counts,
}

abbrev silent : Nic ℕ
silent = record { send_packet = some (λ frame n. (pos 0, n)); receive_packet = none }

abbrev empty_bus : Ports ℕ
empty_bus = record { outl = λ _ _ w. w; inl = λ _ w. (0xFFFF_FFFF, w) }

abbrev station : Station ℕ ℕ
station = record {
  pci = record { world = 0; devices = []; console = [] };
  ifaces =
      record (new_iface eth0 1) { state = 1; ip_addr = ip 10 0 2 15 }
      ∷ record (new_iface wlan0 2) { state = 1 }
      ∷ [];
  connected_ssid = [];
  signal_strength = 0;
  networks = candidates;
  network_count = 9;
  card = 0;
  dhcp_transaction_id = 1;
  dns_query_id = 1;
}

wifi_scan_networks-Outcome_example : Outcome (wifi_scan_networks empty_bus station)
wifi_scan_networks-Outcome_example = wifi_scan_networks-Outcome empty_bus station

-- The station of a result, if there is one.
abbrev after : Option (ℤ × Station ℕ ℕ) → Station ℕ ℕ
after none = station
after (some r) = r.1

abbrev connected : Station ℕ ℕ
connected = after (wifi_connect (λ _. silent) (codes "Belkin.Setup") none station)

connected_lem :
    wifi_connect (λ _. silent) (codes "Belkin.Setup") none station ≡ some (pos 0, connected)
unfolding wifi_connect connect_to find_network join interface_up network_start_dhcp start_dhcp
    dhcp_client_start dhcp_send_discover get_interface set_interface new_iface same_text strcmp
    codes dhcp_started udp_send_packet ip_send_packet ethernet_send_frame dhcp_wait dhcp_poll
connected_lem = refl

wifi_disconnect-wifi_connect_example :
    IsUp connected
    × (wifi_disconnect connected ≡ (minus_one, say (codes "WiFi is not connected\n") connected))
wifi_disconnect-wifi_connect_example =
    wifi_disconnect-wifi_connect (λ _. silent) (codes "Belkin.Setup") none station connected
      connected_lem

abbrev pinged : Station ℕ ℕ
pinged = after (network_real_ping (λ _. silent) (codes "10.0.2.2") 2 station)

pinged_lem : network_real_ping (λ _. silent) (codes "10.0.2.2") 2 station ≡ some (pos 0, pinged)
unfolding network_real_ping ip_from_string target_of ping_target ping_from ping_rounds ping_one
    ping_sent ping_wait icmp_send_ping get_interface set_interface new_iface parse codes same_text
    strcmp ip_send_packet ethernet_send_frame
pinged_lem = refl

network_real_ping-Counts_example :
    (t : Tally) × (before : Text) × (pinged.pci.console ≡ before ++ statistics (codes "10.0.2.2") t)
    × (t.received ≤ t.sent)
    × (t.sent ≤ 2)
network_real_ping-Counts_example =
    network_real_ping-Counts (λ _. silent) (codes "10.0.2.2") 2 station pinged pinged_lem

name-Spaceless : Spaceless (b'A' ∷ codes "TT-WiFi")
unfolding codes
name-Spaceless = ground arith

name-short : length (codes "TT-WiFi") < 31
unfolding codes
name-short = omega arith

network_command-connect_example :
    network_command empty_bus
      (λ _. silent)
      (connect_line (b'A' ∷ codes "TT-WiFi") (b's' ∷ codes "ecret word"))
      station
    ≡ done (
        wifi_connect
          (λ _. silent)
          (b'A' ∷ codes "TT-WiFi")
          (some (b's' ∷ codes "ecret word"))
          station)
network_command-connect_example =
    network_command-connect empty_bus (λ _. silent) b'A' b's' (codes "TT-WiFi") (codes "ecret word")
      station name-Spaceless name-short (omega arith)
