-- ===== src/Netstack/Icmp.antt =====
-- Echo requests and replies of kernel/netstack.c.
use pine_os.Base.{ℕ, Bool, false, ◌&&◌, Option, some, ◌++◌, ◌==◌, if◌then◌else◌, get_elem?, ℤ}
use pine_os.Base.Bind.{◌>>=◌}
use pine_os.Machine.{codes}
use pine_os.Network.{Ip, ip_to_string}
use pine_os.Netstack.{
  Bytes, network_htons, ip_checksum, IcmpHeader, icmp_header_bytes, read16, read_ip,
}
use pine_os.Netstack.Link.{Nic, Host, puts, ethertype_ip, ip_send_packet}

abbrev pub protocol_icmp : ℕ
protocol_icmp = 1

abbrev pub icmp_header_size : ℕ
icmp_header_size = 8

-- an echo request, with a given checksum
unfoldable pub echo_request : ℕ → ℕ → ℕ → IcmpHeader
echo_request id sequence checksum = record {
  type = 8;
  code = 0;
  checksum = checksum;
  id = network_htons id;
  sequence = network_htons sequence;
}

unfoldable pub icmp_packet : ℕ → ℕ → Bytes
icmp_packet id sequence =
    icmp_header_bytes
      (echo_request id sequence (ip_checksum (icmp_header_bytes (echo_request id sequence 0))))

unfoldable pub icmp_send_ping : {Card : Type 0} → Nic Card → Ip → ℕ → ℕ → Host Card → ℤ × Host Card
icmp_send_ping nic dest id sequence h =
    ip_send_packet nic dest protocol_icmp (icmp_packet id sequence) icmp_header_size
      (puts (codes "ICMP: Sending ping to " ++ (ip_to_string dest ++ codes "\n")) h)

abbrev pub same_ip : Ip → Ip → Bool
same_ip x y = x.a == y.a && x.b == y.b && x.c == y.c && x.d == y.d

-- The header behind an IP header of 20 bytes in a frame.
unfoldable pub echo_reply : Bytes → ℕ → Option Bool
echo_reply packet expected_seq = do
  type ← get_elem? packet 34
  code ← get_elem? packet 35
  sequence ← read16 packet 40
  some (type == 0 && code == 0 && network_htons sequence == expected_seq)

unfoldable pub from_expected : Bytes → Ip → ℕ → Option Bool
from_expected packet expected_ip expected_seq = do
  src ← read_ip packet 26
  if same_ip src expected_ip then echo_reply packet expected_seq else some false

unfoldable pub is_icmp : Bytes → Ip → ℕ → Option Bool
is_icmp packet expected_ip expected_seq = do
  protocol ← get_elem? packet 23
  if protocol == protocol_icmp then from_expected packet expected_ip expected_seq else some false

-- `none` is a read past the end of the packet's buffer.
unfoldable pub icmp_process_reply : Bytes → Ip → ℕ → Option Bool
icmp_process_reply packet expected_ip expected_seq = do
  ethertype ← read16 packet 12
  (if network_htons ethertype == ethertype_ip
      then is_icmp packet expected_ip expected_seq
      else some false)
