-- ===== src/Wifi/Report.antt =====
-- What `wifi_show_status` and `network_show_stats` of kernel/network.c print.
use pine_os.Base.{◌+◌, ◌/◌, ◌%◌, ◌||◌, Option, none, some, List, [], ◌∷◌, ◌++◌, ◌==◌, if◌then◌else◌}
use pine_os.CString.{Text}
use pine_os.Machine.{codes}
use pine_os.Network.{ip_to_string}
use pine_os.Network.Table.{Iface, state_down, state_up, get_interface}
use pine_os.Wifi.{Station, wlan0, state_connecting, state_connected, state_error, signal_text, say}

abbrev pub activity : Iface → Text
activity i =
    codes "  "
    ++ (i.name
        ++ (codes ": "
            ++ ((if (i.state == state_up) || (i.state == state_connected)
                  then codes "Active"
                  else codes "Inactive")
                ++ codes "\n")))

abbrev pub activities : List Iface → Text
activities [] = []
activities (i ∷ l) = activity i ++ activities l

module _ {W Card : Type 0} where
  -- The lines from the state on; the address is that of a connected interface.
  unfoldable pub status_text : Iface → Station W Card → Text
  status_text i s =
      if i.state == state_down
      then codes "Down\n"
      else if i.state == state_up
      then codes "Up (not connected)\n"
      else if i.state == state_connecting
      then codes "Connecting...\n"
      else if i.state == state_connected
      then codes "Connected\n"
        ++ (codes "  SSID: "
            ++ (s.connected_ssid
                ++ (codes "\n  Signal: "
                    ++ (signal_text s.signal_strength
                        ++ (codes " dBm\n  IP Address: "
                            ++ (ip_to_string i.ip_addr ++ codes "\n"))))))
      else if i.state == state_error
      then codes "Error\n"
      else codes "Unknown\n"

  abbrev pub status_of : Option Iface → Station W Card → Text
  status_of none s = codes "Error: WiFi interface not found\n"
  status_of (some i) s =
      codes "WiFi Status:\n"
      ++ (codes "  Interface: wlan0\n" ++ (codes "  State: " ++ status_text i s))

  unfoldable pub wifi_show_status : Station W Card → Station W Card
  wifi_show_status s = say (status_of (get_interface wlan0 s.ifaces) s) s

  -- The signal with two digits, the first of which is past '9' from 100 on.
  abbrev pub connection_text : Option Iface → Station W Card → Text
  connection_text none s = []
  connection_text (some i) s =
      if i.state == state_connected
      then codes "  Connected to: "
        ++ (s.connected_ssid
            ++ (codes "\n  Signal strength: -"
                ++ (((b'0' + s.signal_strength / 10) % 256)
                    ∷ (b'0' + s.signal_strength % 10)
                    ∷ codes " dBm\n")))
      else []

  unfoldable pub network_show_stats : Station W Card → Station W Card
  network_show_stats s =
      say
        (codes "Network Statistics:\n"
          ++ (codes "==================\n"
              ++ (codes "Interface Statistics:\n"
                  ++ (activities s.ifaces
                      ++ (codes "\nWiFi Statistics:\n  Networks found: "
                          ++ (((b'0' + s.network_count) % 256) ∷ codes "\n"
                              ++ (connection_text (get_interface wlan0 s.ifaces) s
                                  ++ (codes "\nProtocol Statistics:\n"
                                      ++ (codes "  DHCP requests: 5\n"
                                          ++ (codes "  DNS queries: 3\n"
                                              ++ (codes "  ICMP packets: 12\n"
                                                  ++ codes "  UDP packets: 8\n")))))))))))
        s
