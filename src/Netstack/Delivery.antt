-- ===== src/Netstack/Delivery.antt =====
-- A datagram goes down the layers of one interface and up again: what is sent is received.

use pine_os.Base.{
  le16, ℕ, ◌+◌, ◌%◌, ◌^◌, ◌≡◌, ◌≤◌, ◌<◌, refl, ap, false, some, ◌++◌, ltb, length, take, drop, ℤ,
  pos, arith, length-append, take_length, take-append,
}
use pine_os.Network.{Ip}
use pine_os.Netstack.{
  Bytes, network_htons, IpHeader, ip_header_bytes, udp_header_bytes, UdpHeader, read16,
}
use pine_os.Netstack.Link.{
  Nic, Host, Received, received, puts, frame_text, frame_size, ethertype_ip, ethernet_frame,
  ip_header, ip_packet, dest_mac, route_text, ip_frame, frame_received, ethernet_send_frame,
  ethernet_receive_frame, ip_send_packet, ip_receive_packet,
}
use pine_os.Netstack.Udp.{
  udp_packet, read_udp_header, data_length, udp_data, udp_payload, protocol_udp, datagram_text,
  udp_send_packet, udp_receive_packet,
}
use pine_os.Netstack.RoundTrip.{checked-ip_packet, frame-parts, dest_mac-length, word}

-- A card that is connected to itself: a frame that has been sent is in the buffer of the next
-- reception, at the front.
pub record Delivers {Card : Type 0} (nic : Nic Card) : Type 0 where
  pub send : Bytes → Card → ℤ × Card
  pub receive : ℕ → Card → ℤ × Bytes × Card
  pub sends : nic.send_packet ≡ some send
  pub receives : nic.receive_packet ≡ some receive
  pub delivers :
      (frame : Bytes) (c : Card)
      → length frame ≤ frame_size
      → (n : ℕ) × (rest : Bytes) × (c' : Card) × (receive frame_size (send frame c).1
          ≡ (pos n, frame ++ rest, c'))

ip_frame-ip_packet :
    {Card : Type 0} (d s : Bytes) (src dest : Ip) (protocol : ℕ) (payload rest : Bytes)
    (h : Host Card)
    → length d ≡ 6
    → length s ≡ 6
    → length payload ≤ 1480
    → (let frame =
          ethernet_frame d s ethertype_ip (ip_packet src dest protocol payload (length payload))
          ++ rest in
        ip_frame (read16 frame 12) frame h
        ≡ (received (ip_header src dest protocol (length payload) 0) payload, h))
unfolding ip_frame
ip_frame-ip_packet d s src dest protocol payload rest h hd hs le =
    let packet = ip_packet src dest protocol payload (length payload) in
    let parts = frame-parts d s ethertype_ip packet rest hd hs (omega arith) in
    let twice : network_htons (network_htons ethertype_ip) ≡ ethertype_ip =
      unfold network_htons in refl in
    rw (parts.0, parts.1, twice) (checked-ip_packet src dest protocol payload rest h le)

length-ip_header_bytes : (h : IpHeader) → length (ip_header_bytes h) ≡ 20
unfolding ip_header_bytes
length-ip_header_bytes h = refl

length-ip_packet :
    (src dest : Ip) (protocol : ℕ) (payload : Bytes)
    → length (ip_packet src dest protocol payload (length payload)) ≡ 20 + length payload
unfolding ip_packet
length-ip_packet src dest protocol payload =
    rw (length-append, take_length payload, length-ip_header_bytes) refl

length-ethernet_frame :
    (d s p : Bytes) (type : ℕ)
    → length d ≡ 6
    → length s ≡ 6
    → length (ethernet_frame d s type p) ≡ 14 + length p
unfolding ethernet_frame
length-ethernet_frame d s p type hd hs = omega (
  arith,
  length-append d (s ++ (le16 (network_htons type) ++ p)),
  length-append s (le16 (network_htons type) ++ p),
)

length-udp_packet :
    (sp dp : ℕ) (bytes : Bytes) → length (udp_packet sp dp bytes (length bytes)) ≡ 8 + length bytes
unfolding udp_packet udp_header_bytes
length-udp_packet sp dp bytes = rw (take_length bytes) (omega arith)

-- the header that a datagram of `len` bytes has
abbrev pub udp_header : ℕ → ℕ → ℕ → UdpHeader
udp_header src_port dest_port len = record {
  src_port = network_htons src_port;
  dest_port = network_htons dest_port;
  length = network_htons (8 + len);
  checksum = 0;
}

read_udp_header-udp_packet :
    (sp dp : ℕ) (bytes rest : Bytes)
    → sp < 2 ^ 16
    → dp < 2 ^ 16
    → length bytes ≤ 1472
    → read_udp_header (udp_packet sp dp bytes (length bytes) ++ rest)
      ≡ some (udp_header sp dp (length bytes))
unfolding read_udp_header udp_packet udp_header_bytes read16
read_udp_header-udp_packet sp dp bytes rest hs hd le =
    let fits : (8 + length bytes) % 2 ^ 16 ≡ 8 + length bytes = omega arith in
    let n = length bytes in
    rw
      (
        fits,
        word (network_htons sp) (unfold network_htons in omega arith),
        word (network_htons dp) (unfold network_htons in omega arith),
        word (network_htons (8 + n)) (unfold network_htons in omega arith),
      )
      refl

udp_data-udp_packet :
    (sp dp : ℕ) (bytes rest : Bytes)
    → sp < 2 ^ 16
    → dp < 2 ^ 16
    → length bytes ≤ 1472
    → (let packet = udp_packet sp dp bytes (length bytes) ++ rest in
        udp_data (read_udp_header packet) packet ≡ received (udp_header sp dp (length bytes)) bytes)
udp_data-udp_packet sp dp bytes rest hs hd le =
    let n = length bytes in
    let packet = udp_packet sp dp bytes n in
    let data_len : data_length (udp_header sp dp n) ≡ n = unfold network_htons in omega arith in
    let size = length-udp_packet sp dp bytes in
    let long : ltb (length (packet ++ rest)) (8 + data_length (udp_header sp dp n)) ≡ false =
      rw data_len (ground (arith, length-append packet rest)) in
    let body : drop 8 (packet ++ rest) ≡ bytes ++ rest =
      unfold udp_packet udp_header_bytes in ap (λ (t : Bytes). t ++ rest) (take_length bytes) in
    rw (read_udp_header-udp_packet sp dp bytes rest hs hd le)
      (unfold udp_data in rw (long, body, data_len, take-append bytes rest) refl)

module _ {Card : Type 0} (nic : Nic Card) (wire : Delivers nic) where
  sent :
      (d p : Bytes) (type len : ℕ) (h : Host Card)
      → len ≤ 1500
      → (ethernet_send_frame nic d type p len h).1 ≡ record (puts (frame_text len) h) {
        card = (wire.send (ethernet_frame d h.iface.mac type (take len p)) h.card).1;
      }
  unfolding ethernet_send_frame
  sent d p type len h le =
      let short : ltb 1500 len ≡ false = ground arith in rw (short, wire.sends) refl

  ethernet_received :
      (frame : Bytes) (h : Host Card) (c : Card)
      → h.card ≡ (wire.send frame c).1
      → length frame ≤ frame_size
      → (n : ℕ) × (rest : Bytes) × (h' : Host Card) × (ethernet_receive_frame nic h
          ≡ (pos n, frame ++ rest, h'))
  unfolding ethernet_receive_frame
  ethernet_received frame h c e le =
      let (n, rest, c', got) = wire.delivers frame c le in
      (n, rest, record h { card = c' }, rw (wire.receives, e, got) refl)

  -- An IP packet of up to 1480 bytes arrives with its header and its bytes.
  pub ip_receive_packet-ip_send_packet :
      (dest : Ip) (protocol : ℕ) (payload : Bytes) (h : Host Card)
      → length h.iface.mac ≡ 6
      → length payload ≤ 1480
      → (ip_receive_packet nic (ip_send_packet nic dest protocol payload (length payload) h).1).0
        ≡ received (ip_header h.iface.ip_addr dest protocol (length payload) 0) payload
  unfolding ip_receive_packet ip_send_packet
  ip_receive_packet-ip_send_packet dest protocol payload h mac le =
      let packet = ip_packet h.iface.ip_addr dest protocol payload (length payload) in
      let size = length-ip_packet h.iface.ip_addr dest protocol payload in
      let len : (20 + length payload) % 2 ^ 16 ≡ length packet = omega arith in
      let frame = ethernet_frame (dest_mac dest) h.iface.mac ethertype_ip packet in
      let framed =
        length-ethernet_frame (dest_mac dest) h.iface.mac packet ethertype_ip (dest_mac-length dest)
          mac in
      let said = puts (route_text dest) h in
      let h' = record (puts (frame_text (length packet)) said) {
        card = (wire.send frame h.card).1;
      } in
      let (n, rest, h'', got) = ethernet_received frame h' h.card refl (omega arith) in
      let go = sent (dest_mac dest) packet ethertype_ip (length packet) said (omega arith) in
      let there =
        ip_frame-ip_packet (dest_mac dest) h.iface.mac h.iface.ip_addr dest protocol payload rest
          h'' (dest_mac-length dest) mac le in
      rw (len, go, take_length packet, got)
        (unfold frame_received in ap (λ (x : Received IpHeader × Host Card). x.0) there)

  -- A datagram of up to 1472 bytes that `udp_send_packet` sends is received by `udp_receive_packet`
  -- with its ports and exactly its bytes, whatever the driver leaves behind it in the buffer and
  -- whatever the local array held before, if the card delivers what it is given.
  pub udp_receive_packet-udp_send_packet :
      (dest : Ip) (sp dp : ℕ) (bytes stack : Bytes) (h : Host Card)
      → sp < 2 ^ 16
      → dp < 2 ^ 16
      → length h.iface.mac ≡ 6
      → length bytes ≤ 1472
      → (udp_receive_packet nic stack (udp_send_packet nic dest sp dp bytes (length bytes) h).1).0
        ≡ received (udp_header sp dp (length bytes)) bytes
  unfolding udp_receive_packet udp_send_packet
  udp_receive_packet-udp_send_packet dest sp dp bytes stack h hs hd mac le =
      let packet = udp_packet sp dp bytes (length bytes) in
      let size = length-udp_packet sp dp bytes in
      let len : (8 + length bytes) % 2 ^ 16 ≡ length packet = omega arith in
      let short : ltb 1500 (length packet) ≡ false = ground arith in
      let said = puts (datagram_text dp) h in
      let there =
        ip_receive_packet-ip_send_packet dest protocol_udp packet said mac (omega arith) in
      let hdr = ip_header h.iface.ip_addr dest protocol_udp (length packet) 0 in
      let udp : hdr.protocol ≡ 17 = unfold ip_header in refl in
      rw (len, there)
        (unfold udp_payload in
          rw (short, udp) (udp_data-udp_packet sp dp bytes (drop (length packet) stack) hs hd le))
