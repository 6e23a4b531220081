-- ===== src/Netstack/Tests.antt =====
-- The protocols over a card that hands back the last frame that was sent.
use pine_os.Base.{
  ◌⊎◌, ◌≤◌, ◌+◌, ℕ, zero, suc, ◌-◌, ◌≡◌, ◌<◌, ◌↔◌, refl, true, none, some, [], ◌∷◌, ◌++◌, length,
  replicate, ℤ, pos, arith, length-replicate,
}
use pine_os.CString.{Text}
use pine_os.Machine.{codes}
use pine_os.Network.{ip}
use pine_os.Network.Address.{IsIp}
use pine_os.Network.Table.{new_iface}
use pine_os.Netstack.{Bytes, network_htons, ip_checksum, IcmpHeader, icmp_header_bytes}
use pine_os.Netstack.Link.{
  Nic, Host, received, puts, ethernet_send_frame, ip_send_packet, ethertype_ip, ethernet_frame,
  ip_packet,
}
use pine_os.Netstack.Udp.{udp_send_packet, udp_receive_packet}
use pine_os.Netstack.Icmp.{protocol_icmp, icmp_process_reply}
use pine_os.Netstack.Checksum.{AreBytes, total, ones_sum, ip_checksum_lem}
use pine_os.Netstack.Delivery.{Delivers, udp_header, udp_receive_packet-udp_send_packet}
use pine_os.Netstack.Replies.{icmp_process_reply_lem}
use pine_os.Netstack.Dhcp.{
  dhcp_poll, parse_options, option_rounds, dhcp_discover, dhcp_bound, set_iface, dhcp_send_discover,
  dhcp_client_start,
}
use pine_os.Netstack.Responses.{
  Outcome, FillsBuffers, dhcp_process_response-Outcome, dhcp_client_start-bound,
}
use pine_os.Netstack.Dns.{dns_question, dns_send_query}
use pine_os.Netstack.Names.{read_name, join, read_name-dns_question, dns_send_query-overrun}
use pine_os.Netstack.Offers.{Opt, encode, apply_options, parse_options-encode}

-- The card keeps the last frame; reception fills the buffer up with zeroes.
abbrev looped_send : Bytes → Bytes → ℤ × Bytes
looped_send frame card = (pos 0, frame)

abbrev looped_receive : ℕ → Bytes → ℤ × Bytes × Bytes
looped_receive n card = (pos (length card), card ++ replicate (n - length card) 0, card)

abbrev looped : Nic Bytes
looped = record { send_packet = some looped_send; receive_packet = some looped_receive }

looped-Delivers : Delivers looped
looped-Delivers = record {
  send = looped_send;
  receive = looped_receive;
  sends = refl;
  receives = refl;
  delivers = λ frame c le. (length frame, replicate (1514 - length frame) 0, frame, refl);
}

abbrev eth0 : Text
eth0 = codes "eth0"

abbrev host : Host Bytes
host = record {
  iface = new_iface eth0 1;
  card = [];
  console = [];
  dhcp_transaction_id = 0x12345678;
  dns_query_id = 1;
}

host-mac : length host.iface.mac ≡ 6
unfolding new_iface
host-mac = refl

udp_receive_packet-udp_send_packet_example :
    (udp_receive_packet looped []
      (udp_send_packet looped (ip 10 0 2 2) 68 67 (1 ∷ 2 ∷ 3 ∷ []) 3 host).1).0
    ≡ received (udp_header 68 67 3) (1 ∷ 2 ∷ 3 ∷ [])
udp_receive_packet-udp_send_packet_example =
    udp_receive_packet-udp_send_packet looped looped-Delivers (ip 10 0 2 2) 68 67 (1 ∷ 2 ∷ 3 ∷ [])
      [] host (omega arith) (omega arith) host-mac (omega arith)

ip_checksum_lem_example :
    ip_checksum (0x45 ∷ 0xff ∷ 7 ∷ []) ≡ 65535 - ones_sum (total (0x45 ∷ 0xff ∷ 7 ∷ []))
ip_checksum_lem_example = ip_checksum_lem (0x45 ∷ 0xff ∷ 7 ∷ []) (ground arith) (omega arith)

gateway-IsIp : IsIp (ip 10 0 2 2)
gateway-IsIp = record {
  first = omega arith;
  second = omega arith;
  third = omega arith;
  fourth = omega arith;
}

abbrev reply : IcmpHeader
reply = record { type = 0; code = 0; checksum = 0; id = 0; sequence = 256 }

abbrev mac : Bytes
mac = 1 ∷ 2 ∷ 3 ∷ 4 ∷ 5 ∷ 6 ∷ []

icmp_process_reply_lem_example :
    icmp_process_reply
      (ethernet_frame mac mac ethertype_ip
          (ip_packet (ip 10 0 2 2) (ip 10 0 2 15) protocol_icmp (icmp_header_bytes reply) 8)
        ++ [])
      (ip 10 0 2 2)
      1
    ≡ some true
unfolding network_htons
icmp_process_reply_lem_example =
    icmp_process_reply_lem mac mac (ip 10 0 2 2) (ip 10 0 2 15) (ip 10 0 2 2) reply [] 1 refl refl
      (omega arith)

abbrev mask : Opt
mask = record { type = 1; body = 255 ∷ 255 ∷ 255 ∷ 0 ∷ [] }

abbrev router : Opt
router = record { type = 3; body = 10 ∷ 0 ∷ 2 ∷ 2 ∷ [] }

parse_options-encode_example :
    parse_options option_rounds (encode (mask ∷ router ∷ []) ++ (1 ∷ [])) 0 host.iface
    ≡ some (apply_options (mask ∷ router ∷ []) host.iface)
parse_options-encode_example =
    parse_options-encode (mask ∷ router ∷ []) (1 ∷ []) host.iface (ground arith) (omega arith)

AreBytes-replicate : (n : ℕ) → AreBytes (replicate n 0)
AreBytes-replicate zero = tt
AreBytes-replicate (suc n) = (omega arith, AreBytes-replicate n)

dhcp_process_response-Outcome_example : Outcome (replicate 1500 0) host
dhcp_process_response-Outcome_example =
    dhcp_process_response-Outcome (replicate 1500 0) host (AreBytes-replicate 1500)
      (omega (arith, length-replicate {A = ℕ} 1500 0))

-- a card on a wire on which nobody answers
-- a card that counts its receptions, each of zeroes
abbrev quiet : Nic ℕ
quiet = record {
  send_packet = some (λ frame c. (pos 0, c));
  receive_packet = some (λ n c. (pos n, replicate n 0, c + 1));
}

quiet-FillsBuffers : FillsBuffers quiet
quiet-FillsBuffers = record {
  receive = λ n c. (pos n, replicate n 0, c + 1);
  receives = refl;
  bytes = λ n c. AreBytes-replicate n;
  size = λ n c. length-replicate n 0;
  receptions = λ c. c;
  counts = λ n c. refl;
}

abbrev alone : Host ℕ
alone = record {
  iface = new_iface eth0 1;
  card = 0;
  console = [];
  dhcp_transaction_id = 0x12345678;
  dns_query_id = 1;
}

abbrev asked : ℤ × Host ℕ
asked = dhcp_send_discover quiet (
    set_iface (λ i. record i { dhcp_state = dhcp_discover })
      (puts (codes "Starting REAL DHCP client via E1000...\n") alone))

asked_ok : asked ≡ (pos 0, asked.1)
unfolding dhcp_send_discover udp_send_packet ip_send_packet ethernet_send_frame
asked_ok = refl

dhcp_client_start-bound_example :
    (h : Host ℕ) × (dhcp_client_start quiet alone ≡ some (pos 0, h))
    × (h.iface.dhcp_state ≡ dhcp_bound)
    × (h.card ≤ asked.1.card + 100)
    × ((h.card ≡ asked.1.card + 100)
        ⊎ ((g g' : Host ℕ) × (dhcp_poll quiet g ≡ some (true, g')) × (g'.card ≡ h.card)))
unfolding quiet-FillsBuffers dhcp_send_discover
dhcp_client_start-bound_example =
    dhcp_client_start-bound quiet quiet-FillsBuffers alone asked.1 asked_ok

abbrev site : Text
site = b'a' ∷ b'b' ∷ b'.' ∷ b'c' ∷ []

read_name-dns_question_example :
    (read_name 3 (dns_question site ++ (9 ∷ [])) ≡ some ((b'a' ∷ b'b' ∷ []) ∷ (b'c' ∷ []) ∷ []))
    × (join ((b'a' ∷ b'b' ∷ []) ∷ (b'c' ∷ []) ∷ []) ≡ site)
read_name-dns_question_example = read_name-dns_question site (9 ∷ []) 3 (ground arith) (omega arith)

dns_send_query-overrun_example : (dns_send_query looped site 1 host ≡ none) ↔ (494 < length site)
dns_send_query-overrun_example = dns_send_query-overrun looped site 1 host
