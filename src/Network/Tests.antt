-- ===== src/Network/Tests.antt =====
-- Addresses, and the configuration of an interface.
use pine_os.Base.{◌≡◌, refl, none, some, [], ◌∷◌, arith}
use pine_os.CString.{Text, strcmp}
use pine_os.Filesystem.Paths.{same_text}
use pine_os.Network.{Ip, ip, parse, ip_from_string, ip_to_string}
use pine_os.Network.Table.{Net, new_iface, get_interface}
use pine_os.Network.Address.{IsIp, ip_from_string-ip_to_string}

abbrev home : Ip
home = ip 192 168 1 7

abbrev mask : Ip
mask = ip 255 255 255 0

home-IsIp : IsIp home
home-IsIp = record {
  first = omega arith;
  second = omega arith;
  third = omega arith;
  fourth = omega arith;
}

mask-IsIp : IsIp mask
mask-IsIp = record {
  first = omega arith;
  second = omega arith;
  third = omega arith;
  fourth = omega arith;
}

abbrev lo : Text
lo = b'l' ∷ b'o' ∷ []

abbrev loopback : Net
loopback = record { ifaces = new_iface lo 3 ∷ []; console = [] }

get-lo : get_interface lo loopback.ifaces ≡ some (new_iface lo 3)
unfolding get_interface same_text strcmp new_iface
get-lo = refl

bad : ip_from_string (b'x' ∷ []) ≡ none
unfolding ip_from_string parse
bad = refl

ip_from_string-ip_to_string_example : ip_from_string (ip_to_string home) ≡ some home
ip_from_string-ip_to_string_example = ip_from_string-ip_to_string home home-IsIp
