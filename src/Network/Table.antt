-- ===== src/Network/Table.antt =====
-- The table of interfaces of kernel/network.c: its entries, their configuration and listing.
use pine_os.Base.{
  ℕ, zero, ◌+◌, ◌-◌, ◌*◌, ◌/◌, ◌%◌, Bool, true, false, ◌||◌, not, Option, none, some, List, [], ◌∷◌,
  ◌++◌, ltb, leb, ◌==◌, if◌then◌else◌, length, ℤ, pos, minus_one,
}
use pine_os.CString.{Text}
use pine_os.Machine.{codes}
use pine_os.Filesystem.Paths.{same_text}
use pine_os.Network.{Ip, ip, ip_from_string, ip_to_string}

abbrev pub state_down : ℕ
state_down = 0

abbrev pub state_up : ℕ
state_up = 1

-- `DHCP_STATE_IDLE`
abbrev pub dhcp_idle : ℕ
dhcp_idle = 0

-- `network_interface_t`, without what belongs to WiFi
pub record Iface : Type 0 where
  pub name : Text
  pub kind : ℕ
  pub state : ℕ
  pub mac : List ℕ
  pub ip_addr : Ip
  pub subnet_mask : Ip
  pub gateway : Ip
  pub dns_server : Ip
  pub dhcp_state : ℕ

-- The used entries of `network_interfaces`, in order; there are `interface_count` of them.
pub record Net : Type 0 where
  pub ifaces : List Iface
  pub console : Text

abbrev pub max_interfaces : ℕ
max_interfaces = 4

-- `name[0] + name[1] + i * 17` as a byte; behind the end of a name of one byte is its NUL
unfoldable pub mac_byte : Text → ℕ → ℕ
mac_byte [] i = i * 17 % 256
mac_byte (c ∷ []) i = (c + i * 17) % 256
mac_byte (c ∷ d ∷ t) i = (c + d + i * 17) % 256

unfoldable pub new_iface : Text → ℕ → Iface
new_iface name kind = record {
  name = name;
  kind = kind;
  state = state_down;
  mac =
      mac_byte name 0
      ∷ mac_byte name 1
      ∷ mac_byte name 2
      ∷ mac_byte name 3
      ∷ mac_byte name 4
      ∷ mac_byte name 5
      ∷ [];
  ip_addr = ip 0 0 0 0;
  subnet_mask = ip 0 0 0 0;
  gateway = ip 0 0 0 0;
  dns_server = ip 0 0 0 0;
  dhcp_state = dhcp_idle;
}

-- The result is whether there was room.
unfoldable pub create_interface : Text → ℕ → Net → Bool × Net
create_interface name kind s =
    if leb max_interfaces (length s.ifaces)
    then (false, s)
    else (true, record s { ifaces = s.ifaces ++ (new_iface name kind ∷ []) })

unfoldable pub get_interface : Text → List Iface → Option Iface
get_interface name [] = none
get_interface name (i ∷ l) = if same_text i.name name then some i else get_interface name l

-- `iface->field = ...` for the interface that `network_get_interface` finds
unfoldable pub set_interface : Text → (Iface → Iface) → List Iface → List Iface
set_interface name f [] = []
set_interface name f (i ∷ l) = if same_text i.name name then f i ∷ l else i ∷ set_interface name f l

abbrev pub write : Text → Net → Net
write t s = record s { console = s.console ++ t }

abbrev pub change : Text → (Iface → Iface) → Net → Net
change name f s = record s { ifaces = set_interface name f s.ifaces }

abbrev pub not_found : Text → Net → ℤ × Net
not_found name s =
    (minus_one, write (codes "Error: Interface not found: " ++ (name ++ codes "\n")) s)

unfoldable pub interface_up : Text → Net → ℤ × Net
interface_up name s = elim (get_interface name s.ifaces) [
  | none ↦ not_found name s
  | some i ↦ (
    pos 0,
    write (codes "Interface " ++ (name ++ codes " is now UP\n"))
        (change name (λ i. record i { state = state_up }) s),
  )
]

unfoldable pub interface_down : Text → Net → ℤ × Net
interface_down name s = elim (get_interface name s.ifaces) [
  | none ↦ not_found name s
  | some i ↦ (
    pos 0,
    write (codes "Interface " ++ (name ++ codes " is now DOWN\n"))
        (change name (λ i. record i { state = state_down; dhcp_state = dhcp_idle }) s),
  )
]

-- Each address that parses is written before the next one is looked at.
unfoldable pub set_gateway : Text → Option Text → Net → ℤ × Net
set_gateway name none s = (pos 0, s)
set_gateway name (some t) s = elim (ip_from_string t) [
  | none ↦ (minus_one, write (codes "Error: Invalid gateway address\n") s)
  | some g ↦ (pos 0, change name (λ i. record i { gateway = g }) s)
]

abbrev pub configured : Text → ℤ × Net → ℤ × Net
configured name (pos zero, s) = (
  pos 0,
  write (codes "Static IP configuration set for " ++ (name ++ codes "\n"))
      (change name (λ i. record i { dhcp_state = dhcp_idle }) s),
)
configured name (r, s) = (r, s)

unfoldable pub set_mask : Text → Text → Option Text → Net → ℤ × Net
set_mask name mask gateway s = elim (ip_from_string mask) [
  | none ↦ (minus_one, write (codes "Error: Invalid subnet mask\n") s)
  | some m ↦
      configured name (set_gateway name gateway (change name (λ i. record i { subnet_mask = m }) s))
]

unfoldable pub set_address : Text → Text → Text → Option Text → Net → ℤ × Net
set_address name addr mask gateway s = elim (ip_from_string addr) [
  | none ↦ (minus_one, write (codes "Error: Invalid IP address\n") s)
  | some a ↦ set_mask name mask gateway (change name (λ i. record i { ip_addr = a }) s)
]

unfoldable pub set_static_ip : Text → Text → Text → Option Text → Net → ℤ × Net
set_static_ip name addr mask gateway s = elim (get_interface name s.ifaces) [
  | none ↦ not_found name s
  | some i ↦ set_address name addr mask gateway s
]

-- `hex_chars[n]`
unfoldable pub hex_digit : ℕ → ℕ
hex_digit n = if ltb n 10 then b'0' + n else b'A' + (n - 10)

-- `mac_to_string`: two digits for each byte, and a colon between bytes
unfoldable pub mac_to_string : List ℕ → Text
mac_to_string [] = []
mac_to_string (m ∷ []) = hex_digit (m / 16) ∷ hex_digit (m % 16) ∷ []
mac_to_string (m ∷ n ∷ ms) = hex_digit (m / 16) ∷ hex_digit (m % 16) ∷ b':' ∷ mac_to_string (n ∷ ms)

abbrev pub state_text : ℕ → Text
state_text s =
    if s == 0
    then codes "DOWN"
    else if s == 1
    then codes "UP"
    else if s == 2
    then codes "CONNECTING"
    else if s == 3
    then codes "CONNECTED"
    else if s == 4
    then codes "ERROR"
    else codes "UNKNOWN"

abbrev pub kind_text : ℕ → Text
kind_text k =
    if k == 1
    then codes "Ethernet"
    else if k == 2
    then codes "WiFi"
    else if k == 3
    then codes "Loopback"
    else codes "Unknown"

abbrev pub has_ip : Ip → Bool
has_ip x = not (x.a == 0) || not (x.b == 0) || not (x.c == 0) || not (x.d == 0)

-- What `network_list_interfaces` prints of one interface.
unfoldable pub iface_text : Iface → Text
iface_text i =
    codes "  "
    ++ (i.name
        ++ (codes ": "
            ++ (state_text i.state
                ++ (codes " ("
                    ++ (kind_text i.kind
                        ++ (codes ")\n"
                            ++ ((if has_ip i.ip_addr
                                  then codes "    IP: " ++ (ip_to_string i.ip_addr ++ codes "\n")
                                  else [])
                                ++ (codes "    MAC: " ++ (mac_to_string i.mac ++ codes "\n")))))))))

abbrev pub iface_texts : List Iface → Text
iface_texts [] = []
iface_texts (i ∷ l) = iface_text i ++ iface_texts l

unfoldable pub list_interfaces : Net → Net
list_interfaces s = write (codes "Network Interfaces:\n" ++ iface_texts s.ifaces) s
