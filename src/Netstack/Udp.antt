-- ===== src/Netstack/Udp.antt =====
-- The UDP layer of kernel/netstack.c.
use pine_os.Base.{
  ℕ, ◌+◌, ◌-◌, ◌/◌, ◌%◌, ◌^◌, Option, none, some, [], ◌∷◌, ◌++◌, ltb, ◌==◌, if◌then◌else◌, length,
  take, drop, ℤ,
}
use pine_os.Base.Bind.{◌>>=◌}
use pine_os.Machine.{codes}
use pine_os.Network.{Ip}
use pine_os.Netstack.{Bytes, network_htons, IpHeader, UdpHeader, udp_header_bytes, read16}
use pine_os.Netstack.Link.{
  Nic, Host, Received, failed, overrun, received, puts, max_payload, ip_send_packet,
  ip_receive_packet,
}

abbrev pub protocol_udp : ℕ
protocol_udp = 17

abbrev pub udp_header_size : ℕ
udp_header_size = 8

unfoldable pub udp_packet : ℕ → ℕ → Bytes → ℕ → Bytes
udp_packet src_port dest_port bytes len =
    udp_header_bytes (record {
      src_port = network_htons src_port;
      dest_port = network_htons dest_port;
      length = network_htons ((udp_header_size + len) % 2 ^ 16);
      checksum = 0;
    })
    ++ take len bytes

-- `memory_copy(udp_hdr, ip_payload, sizeof(udp_header_t))`
unfoldable pub read_udp_header : Bytes → Option UdpHeader
read_udp_header bs = do
  src_port ← read16 bs 0
  dest_port ← read16 bs 2
  len ← read16 bs 4
  checksum ← read16 bs 6
  some (record { src_port = src_port; dest_port = dest_port; length = len; checksum = checksum })

-- `network_ntohs(length) - sizeof(udp_header_t)` as a `uint16_t`
abbrev pub data_length : UdpHeader → ℕ
data_length hdr = (network_htons hdr.length + 2 ^ 16 - udp_header_size) % 2 ^ 16

unfoldable pub udp_data : Option UdpHeader → Bytes → Received UdpHeader
udp_data none bs = overrun
udp_data (some hdr) bs =
    if ltb (length bs) (udp_header_size + data_length hdr)
    then overrun
    else received hdr (take (data_length hdr) (drop udp_header_size bs))

-- The local array `ip_payload`: what has been copied there, over what was on the stack.
abbrev pub over : Bytes → Bytes → Bytes
over payload stack = payload ++ drop (length payload) stack

unfoldable pub udp_payload : Bytes → Received IpHeader → Received UdpHeader
udp_payload stack failed = failed
udp_payload stack overrun = overrun
udp_payload stack (received hdr payload) =
    if ltb max_payload (length payload)
    then overrun
    else if hdr.protocol == protocol_udp
    then udp_data (read_udp_header (over payload stack)) (over payload stack)
    else failed

-- `vga_putchar('0' + n)` takes a `char`.
abbrev pub port_text : ℕ → Bytes
port_text port = ((b'0' + port / 10) % 256) ∷ (b'0' + port % 10) ∷ []

abbrev pub datagram_text : ℕ → Bytes
datagram_text port = codes "Sending UDP packet (port " ++ (port_text port ++ codes ")\n")

module _ {Card : Type 0} (nic : Nic Card) where
  unfoldable pub udp_send_packet : Ip → ℕ → ℕ → Bytes → ℕ → Host Card → ℤ × Host Card
  udp_send_packet dest src_port dest_port bytes len h =
      ip_send_packet nic dest protocol_udp (udp_packet src_port dest_port bytes len)
        ((udp_header_size + len) % 2 ^ 16) (puts (datagram_text dest_port) h)

  -- `stack` is what the local array held before, `max_payload` bytes.
  unfoldable pub udp_receive_packet : Bytes → Host Card → Received UdpHeader × Host Card
  udp_receive_packet stack h = let (r, h') = ip_receive_packet nic h in (udp_payload stack r, h')
