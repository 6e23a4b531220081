-- ===== src/Network/Config.antt =====
-- What `network_show_config` of kernel/network.c prints.
use pine_os.Base.{ℕ, Option, none, some, ◌++◌, ◌==◌, if◌then◌else◌}
use pine_os.CString.{Text}
use pine_os.Machine.{codes}
use pine_os.Network.{ip_to_string}
use pine_os.Network.Table.{Iface, Net, get_interface, mac_to_string}

abbrev pub dhcp_text : ℕ → Text
dhcp_text state =
    if state == 0
    then codes "Disabled"
    else if state == 1
    then codes "Discovering..."
    else if state == 2
    then codes "Offer received"
    else if state == 3
    then codes "Requesting..."
    else if state == 4
    then codes "Bound"
    else codes "Unknown"

-- one line: two blanks, a label, and a value
abbrev line : Text → Text → Text
line label value = codes "  " ++ (label ++ (value ++ codes "\n"))

abbrev pub config_text : Text → Option Iface → Text
config_text name none = codes "Error: Interface not found: " ++ (name ++ codes "\n")
config_text name (some i) =
    codes "Configuration for "
    ++ (name
        ++ (codes ":\n"
            ++ (line (codes "IP Address: ") (ip_to_string i.ip_addr)
                ++ (line (codes "Subnet Mask: ") (ip_to_string i.subnet_mask)
                    ++ (line (codes "Gateway: ") (ip_to_string i.gateway)
                        ++ (line (codes "DNS Server: ") (ip_to_string i.dns_server)
                            ++ (line (codes "MAC Address: ") (mac_to_string i.mac)
                                ++ line (codes "DHCP: ") (dhcp_text i.dhcp_state))))))))

unfoldable pub network_show_config : Text → Net → Net
network_show_config name n = record n {
  console = n.console ++ config_text name (get_interface name n.ifaces);
}
