-- ===== src/Netstack/Dhcp.antt =====
-- The DHCP client of kernel/netstack.c.
use pine_os.Base.{
  ℕ, zero, suc, ◌+◌, Bool, true, false, ◌&&◌, Option, none, some, ◌∷◌, ◌++◌, leb, ◌==◌,
  if◌then◌else◌, get_elem?, drop, replicate, ℤ, pos,
}
use pine_os.Base.Bind.{◌>>=◌}
use pine_os.Machine.{codes}
use pine_os.Network.{Ip, ip, ip_from_string, ip_to_string}
use pine_os.Network.Table.{Iface}
use pine_os.Netstack.{
  Bytes, network_htons, network_htonl, DhcpPacket, dhcp_bytes, ip_bytes, read16, read32, read_ip,
}
use pine_os.Netstack.Link.{Nic, Host, puts, ethertype_ip}
use pine_os.Netstack.Udp.{protocol_udp, udp_send_packet}

abbrev pub port_dhcp_client : ℕ
port_dhcp_client = 68

abbrev pub port_dhcp_server : ℕ
port_dhcp_server = 67

abbrev pub dhcp_discover : ℕ
dhcp_discover = 1

abbrev pub dhcp_bound : ℕ
dhcp_bound = 4

abbrev pub dhcp_packet_size : ℕ
dhcp_packet_size = 548

abbrev pub no_ip : Ip
no_ip = ip 0 0 0 0

abbrev pub broadcast_ip : Ip
broadcast_ip = ip 255 255 255 255

abbrev pub end_option : ℕ
end_option = 255

-- What the client's packets share. `mac` has six bytes, the other ten of `chaddr` are zero.
unfoldable pub client_packet : ℕ → Bytes → Bytes → DhcpPacket
client_packet transaction mac options = record {
  op = 1;
  htype = 1;
  hlen = 6;
  hops = 0;
  xid = network_htonl transaction;
  secs = 0;
  flags = network_htons 0x8000;
  ciaddr = no_ip;
  yiaddr = no_ip;
  siaddr = no_ip;
  giaddr = no_ip;
  chaddr = mac ++ replicate 10 0;
  sname = replicate 64 0;
  file = replicate 128 0;
  options = options;
}

abbrev pub discover_options : Bytes
discover_options = 99 ∷ 130 ∷ 83 ∷ 99 ∷ 53 ∷ 1 ∷ 1 ∷ end_option ∷ replicate 304 0

abbrev pub request_options : Ip → Ip → Bytes
request_options offered server =
    99
    ∷ 130
    ∷ 83
    ∷ 99
    ∷ 53
    ∷ 1
    ∷ 3
    ∷ 50
    ∷ 4
    ∷ (ip_bytes offered ++ (54 ∷ 4 ∷ (ip_bytes server ++ (end_option ∷ replicate 292 0))))

-- `switch (option_type)`, with the option's bytes at `off`
unfoldable pub set_option : ℕ → ℕ → Bytes → ℕ → Iface → Option Iface
set_option type len options off i =
    if type == 1 && len == 4
    then (do x ← read_ip options off; some (record i { subnet_mask = x }))
    else if type == 3 && leb 4 len
    then (do x ← read_ip options off; some (record i { gateway = x }))
    else if type == 6 && leb 4 len
    then (do x ← read_ip options off; some (record i { dns_server = x }))
    else some i

-- The loop over the options from `off` on, on fuel; `none` is a read past the end of the buffer.
unfoldable pub parse_options : ℕ → Bytes → ℕ → Iface → Option Iface
parse_options zero options off i = none
parse_options (suc fuel) options off i = do
  first ← get_elem? options off
  (if first == end_option then some i else if leb 300 off then some i else (do
    len ← get_elem? options (off + 1)
    j ← set_option first len options (off + 2) i
    parse_options fuel options (off + 2 + len) j))

-- Each round but the last moves by two bytes at least.
abbrev pub option_rounds : ℕ
option_rounds = 151

abbrev pub options_offset : ℕ
options_offset = 282

unfoldable pub take_offer : {Card : Type 0} → Bytes → Host Card → Option (Bool × Host Card)
take_offer packet h = do
  yiaddr ← read_ip packet 58
  i ←
      parse_options option_rounds (drop options_offset packet) 0
        (record (h.iface) { ip_addr = yiaddr })
  some (
    true,
    record h { iface = i; console = h.console ++ codes "DHCP: Processing response from router\n" },
  )

unfoldable pub dhcp_message : {Card : Type 0} → Bytes → Host Card → Option (Bool × Host Card)
dhcp_message packet h = do
  op ← get_elem? packet 42
  xid ← read32 packet 46
  (if op == 2 && network_htonl xid == h.dhcp_transaction_id
      then take_offer packet h
      else some (false, h))

unfoldable pub udp_message : {Card : Type 0} → Bytes → Host Card → Option (Bool × Host Card)
udp_message packet h = do
  port ← read16 packet 36
  (if network_htons port == port_dhcp_client then dhcp_message packet h else some (false, h))

unfoldable pub ip_message : {Card : Type 0} → Bytes → Host Card → Option (Bool × Host Card)
ip_message packet h = do
  protocol ← get_elem? packet 23
  (if protocol == protocol_udp then udp_message packet h else some (false, h))

-- The result 1 or 0, and the interface that is changed.
unfoldable pub dhcp_process_response :
    {Card : Type 0} → Bytes → Host Card → Option (Bool × Host Card)
dhcp_process_response packet h = do
  ethertype ← read16 packet 12
  (if network_htons ethertype == ethertype_ip then ip_message packet h else some (false, h))

abbrev pub is_positive : ℤ → Bool
is_positive (pos (suc n)) = true
is_positive n = false

abbrev pub set_iface : {Card : Type 0} → (Iface → Iface) → Host Card → Host Card
set_iface f h = record h { iface = f h.iface }

-- `ip_from_string(text, &field)`, with what the field keeps if the text is no address
abbrev pub parsed : Bytes → Ip → Ip
parsed t old = elim (ip_from_string t) [ none ↦ old | some x ↦ x ]

abbrev pub fallback : Iface → Iface
fallback i = record i {
  ip_addr = parsed (codes "192.168.1.100") i.ip_addr;
  subnet_mask = parsed (codes "255.255.255.0") i.subnet_mask;
  gateway = parsed (codes "192.168.1.1") i.gateway;
  dns_server = parsed (codes "8.8.8.8") i.dns_server;
  dhcp_state = dhcp_bound;
}

-- after the wait: whether a response came
unfoldable pub after_wait : {Card : Type 0} → Bool × Host Card → ℤ × Host Card
after_wait (true, h) =
    let bound = set_iface (λ i. record i { dhcp_state = dhcp_bound }) h in
    (
      pos 0,
      puts
          (codes "DHCP response received from router!\n"
            ++ (codes "Real IP assigned by router: "
                ++ (ip_to_string bound.iface.ip_addr ++ codes "\n")))
          bound,
    )
after_wait (false, h) =
    let bound = set_iface fallback h in
    (
      pos 0,
      puts
          (codes "DHCP timeout - using fallback configuration\n"
            ++ (codes "Fallback IP: " ++ (ip_to_string bound.iface.ip_addr ++ codes "\n")))
          bound,
    )

abbrev pub dhcp_attempts : ℕ
dhcp_attempts = 100

abbrev pub rx_buffer_size : ℕ
rx_buffer_size = 1500

module _ {Card : Type 0} (nic : Nic Card) where
  unfoldable pub dhcp_send_discover : Host Card → ℤ × Host Card
  dhcp_send_discover h =
      udp_send_packet nic broadcast_ip port_dhcp_client port_dhcp_server
        (dhcp_bytes (client_packet h.dhcp_transaction_id h.iface.mac discover_options))
        dhcp_packet_size (puts (codes "DHCP: Sending DISCOVER packet\n") h)

  unfoldable pub dhcp_send_request : Ip → Ip → Host Card → ℤ × Host Card
  dhcp_send_request offered server h =
      udp_send_packet nic broadcast_ip port_dhcp_client port_dhcp_server
        (dhcp_bytes
          (client_packet h.dhcp_transaction_id h.iface.mac (request_options offered server)))
        dhcp_packet_size (puts (codes "DHCP: Sending REQUEST packet\n") h)

  -- one attempt to receive a response
  unfoldable pub dhcp_poll : Host Card → Option (Bool × Host Card)
  dhcp_poll h = elim nic.receive_packet [
    | none ↦ some (false, h)
    | some receive ↦
        let (r, packet, c) = receive rx_buffer_size h.card in
        if is_positive r
        then dhcp_process_response packet (record h { card = c })
        else some (false, record h { card = c })
  ]

  -- The attempts that are left.
  unfoldable pub dhcp_wait : ℕ → Host Card → Option (Bool × Host Card)
  dhcp_wait zero h = some (false, h)
  dhcp_wait (suc left) h = do got ← dhcp_poll h; (if got.0 then some got else dhcp_wait left got.1)

  unfoldable pub dhcp_started : ℤ × Host Card → Option (ℤ × Host Card)
  dhcp_started (pos zero, h) = do
    got ← dhcp_wait dhcp_attempts (
        puts
          (codes "REAL DHCP DISCOVER sent via E1000 hardware\n"
            ++ codes "Waiting for DHCP response from router...\n")
          h)
    some (after_wait got)
  dhcp_started (r, h) = some (r, h)

  unfoldable pub dhcp_client_start : Host Card → Option (ℤ × Host Card)
  dhcp_client_start h = dhcp_started (
      dhcp_send_discover (
        set_iface (λ i. record i { dhcp_state = dhcp_discover })
          (puts (codes "Starting REAL DHCP client via E1000...\n") h)))
