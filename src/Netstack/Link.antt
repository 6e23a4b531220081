-- ===== src/Netstack/Link.antt =====
-- The Ethernet and IP layers of kernel/netstack.c. A card's functions are those that its driver
-- stores in the interface, and its state is theirs.
use pine_os.Base.{
  le16, ℕ, ◌+◌, ◌-◌, ◌/◌, ◌%◌, ◌^◌, Bool, ◌&&◌, Option, none, some, [], ◌∷◌, ◌++◌, ltb, ◌==◌,
  if◌then◌else◌, length, take, drop, get_elem?, ℤ, pos, negsuc, minus_one,
}
use pine_os.Base.Bind.{◌>>=◌}
use pine_os.Machine.{codes}
use pine_os.Network.{Ip, ip_to_string}
use pine_os.Network.Table.{Iface}
use pine_os.Netstack.{Bytes, network_htons, ip_checksum, IpHeader, ip_header_bytes, read16, read_ip}

-- The function pointers `send_packet` and `receive_packet`; `none` is the null pointer. Reception
-- is given the buffer's size and answers with the whole buffer, of which it has written a part.
pub record Nic (Card : Type 0) : Type 0 where
  pub send_packet : Option (Bytes → Card → ℤ × Card)
  pub receive_packet : Option (ℕ → Card → ℤ × Bytes × Card)

-- an interface, its card, the console and the globals of netstack.c
pub record Host (Card : Type 0) : Type 0 where
  pub iface : Iface
  pub card : Card
  pub console : Bytes
  pub dhcp_transaction_id : ℕ
  pub dns_query_id : ℕ

-- What the receiving functions have for a result: -1, or a header and the data behind it. An
-- overrun is a copy past the end of the frame or of the caller's array.
pub data Received (Header : Type 0) : Type 0 where
  failed : Received Header
  overrun : Received Header
  received : Header → Bytes → Received Header

abbrev pub puts : {Card : Type 0} → Bytes → Host Card → Host Card
puts t h = record h { console = h.console ++ t }

unfoldable pub netstack_init : {Card : Type 0} → Host Card → Host Card
netstack_init h = record h {
  console =
      h.console ++ (codes "Initializing network stack...\n" ++ codes "Network stack initialized\n");
  dhcp_transaction_id = 0x12345678;
  dns_query_id = 1;
}

abbrev pub ethertype_ip : ℕ
ethertype_ip = 0x0800

abbrev pub max_payload : ℕ
max_payload = 1500

abbrev pub frame_size : ℕ
frame_size = 1514

abbrev pub ip_header_size : ℕ
ip_header_size = 20

unfoldable pub ethernet_frame : Bytes → Bytes → ℕ → Bytes → Bytes
ethernet_frame dest_mac src_mac ethertype payload =
    dest_mac ++ (src_mac ++ (le16 (network_htons ethertype) ++ payload))

abbrev pub digits3 : ℕ → Bytes
digits3 n = (b'0' + n / 100) ∷ (b'0' + n / 10 % 10) ∷ (b'0' + n % 10) ∷ []

abbrev pub frame_text : ℕ → Bytes
frame_text len =
    codes "Sending REAL Ethernet frame via E1000 (" ++ (digits3 len ++ codes " bytes)\n")

-- The header that `ip_send_packet` fills, with a given checksum.
unfoldable pub ip_header : Ip → Ip → ℕ → ℕ → ℕ → IpHeader
ip_header src dest protocol payload_len checksum = record {
  version_ihl = 0x45;
  tos = 0;
  total_length = network_htons ((ip_header_size + payload_len) % 2 ^ 16);
  identification = network_htons 0x1234;
  flags_fragment = network_htons 0x4000;
  ttl = 64;
  protocol = protocol;
  checksum = checksum;
  src_ip = src;
  dest_ip = dest;
}

unfoldable pub ip_packet : Ip → Ip → ℕ → Bytes → ℕ → Bytes
ip_packet src dest protocol payload payload_len =
    let sum = ip_checksum (ip_header_bytes (ip_header src dest protocol payload_len 0)) in
    ip_header_bytes (ip_header src dest protocol payload_len sum) ++ take payload_len payload

abbrev pub is_broadcast : Ip → Bool
is_broadcast x = x.a == 255 && x.b == 255 && x.c == 255 && x.d == 255

unfoldable pub dest_mac : Ip → Bytes
dest_mac dest =
    if is_broadcast dest
    then 0xff ∷ 0xff ∷ 0xff ∷ 0xff ∷ 0xff ∷ 0xff ∷ []
    else 0x52 ∷ 0x54 ∷ 0x00 ∷ 0x12 ∷ 0x35 ∷ 0x00 ∷ []

abbrev pub route_text : Ip → Bytes
route_text dest =
    (if is_broadcast dest
      then codes "Using broadcast MAC for DHCP\n"
      else codes "Using VirtualBox router MAC\n")
    ++ (codes "Sending IP packet to " ++ (ip_to_string dest ++ codes "\n"))

-- `memory_copy(ip_hdr, bytes, sizeof(ip_header_t))`
unfoldable pub read_ip_header : Bytes → Option IpHeader
read_ip_header bs = do
  version_ihl ← get_elem? bs 0
  tos ← get_elem? bs 1
  total_length ← read16 bs 2
  identification ← read16 bs 4
  flags_fragment ← read16 bs 6
  ttl ← get_elem? bs 8
  protocol ← get_elem? bs 9
  checksum ← read16 bs 10
  src_ip ← read_ip bs 12
  dest_ip ← read_ip bs 16
  some (record {
    version_ihl = version_ihl;
    tos = tos;
    total_length = total_length;
    identification = identification;
    flags_fragment = flags_fragment;
    ttl = ttl;
    protocol = protocol;
    checksum = checksum;
    src_ip = src_ip;
    dest_ip = dest_ip;
  })

-- `network_ntohs(total_length) - sizeof(ip_header_t)` as a `uint16_t`
abbrev pub payload_length : IpHeader → ℕ
payload_length hdr = (network_htons hdr.total_length + 2 ^ 16 - ip_header_size) % 2 ^ 16

unfoldable pub ip_payload : IpHeader → Bytes → Received IpHeader
ip_payload hdr payload =
    if ltb (length payload) (ip_header_size + payload_length hdr)
    then overrun
    else received (record hdr { checksum = 0 })
        (take (payload_length hdr) (drop ip_header_size payload))

-- whether the checksum is the one that is computed with the field cleared
unfoldable pub checksum_matches : IpHeader → Bool
checksum_matches hdr = hdr.checksum == ip_checksum (ip_header_bytes (record hdr { checksum = 0 }))

unfoldable pub checked :
    {Card : Type 0} → IpHeader → Bytes → Host Card → Received IpHeader × Host Card
checked hdr payload h =
    if checksum_matches hdr
    then (ip_payload hdr payload, h)
    else (failed, puts (codes "IP checksum mismatch\n") h)

unfoldable pub ip_header_found :
    {Card : Type 0} → Option IpHeader → Bytes → Host Card → Received IpHeader × Host Card
ip_header_found none payload h = (overrun, h)
ip_header_found (some hdr) payload h = checked hdr payload h

unfoldable pub ip_frame :
    {Card : Type 0} → Option ℕ → Bytes → Host Card → Received IpHeader × Host Card
ip_frame none frame h = (overrun, h)
ip_frame (some ethertype) frame h =
    if network_htons ethertype == ethertype_ip
    then ip_header_found (read_ip_header (drop 14 frame)) (drop 14 frame) h
    else (failed, h)

unfoldable pub frame_received :
    {Card : Type 0} → ℤ × Bytes × Host Card → Received IpHeader × Host Card
frame_received (negsuc n, frame, h) = (failed, h)
frame_received (pos n, frame, h) = ip_frame (read16 frame 12) frame h

module _ {Card : Type 0} (nic : Nic Card) where
  unfoldable pub ethernet_send_frame : Bytes → ℕ → Bytes → ℕ → Host Card → ℤ × Host Card
  ethernet_send_frame dest ethertype payload len h =
      if ltb max_payload len
      then (minus_one, h)
      else (let frame = ethernet_frame dest h.iface.mac ethertype (take len payload) in
          let said = puts (frame_text len) h in
          elim nic.send_packet [
            | none ↦ (minus_one, puts (codes "Error: No hardware send function available\n") said)
            | some send ↦ let (r, c) = send frame said.card in (r, record said { card = c })
          ])

  unfoldable pub ethernet_receive_frame : Host Card → ℤ × Bytes × Host Card
  ethernet_receive_frame h = elim nic.receive_packet [
    | none ↦ (minus_one, [], h)
    | some receive ↦
        let (r, frame, c) = receive frame_size h.card in (r, frame, record h { card = c })
  ]

  unfoldable pub ip_send_packet : Ip → ℕ → Bytes → ℕ → Host Card → ℤ × Host Card
  ip_send_packet dest protocol payload payload_len h =
      ethernet_send_frame (dest_mac dest) ethertype_ip
        (ip_packet h.iface.ip_addr dest protocol payload payload_len)
        ((ip_header_size + payload_len) % 2 ^ 16) (puts (route_text dest) h)

  unfoldable pub ip_receive_packet : Host Card → Received IpHeader × Host Card
  ip_receive_packet h = frame_received (ethernet_receive_frame h)
