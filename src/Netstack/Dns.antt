-- ===== src/Netstack/Dns.antt =====
-- The DNS client of kernel/netstack.c.
use pine_os.Base.{
  ℕ, zero, ◌+◌, ◌%◌, ◌^◌, Option, none, some, [], ◌∷◌, ◌++◌, ltb, ◌==◌, if◌then◌else◌, length, ℤ,
  pos, minus_one,
}
use pine_os.Base.Bind.{◌>>=◌}
use pine_os.CString.{Text}
use pine_os.Machine.{codes}
use pine_os.Filesystem.Paths.{same_text}
use pine_os.Network.{Ip, ip_from_string, ip_to_string}
use pine_os.Netstack.{Bytes, network_htons, dns_header_bytes}
use pine_os.Netstack.Link.{Nic, Host, puts}
use pine_os.Netstack.Udp.{udp_send_packet}

abbrev pub port_dns : ℕ
port_dns = 53

abbrev pub dns_buffer_size : ℕ
dns_buffer_size = 512

-- `question[pos++] = label_len` and the label; the length is stored as a byte.
abbrev pub put_label : Bytes → Bytes
put_label label = length label % 256 ∷ label

-- The loop over the host name, with the label that has begun; at the end stands the NUL.
unfoldable pub put_name : Text → Bytes → Bytes
put_name [] label = put_label label
put_name (c ∷ hostname) label =
    let next = put_name hostname [] in
    let more = put_name hostname (label ++ (c ∷ [])) in
    if c == b'.' then put_label label ++ next else more

unfoldable pub dns_question : Text → Bytes
dns_question hostname = put_name hostname [] ++ (0 ∷ 0 ∷ 1 ∷ 0 ∷ 1 ∷ [])

unfoldable pub dns_packet : Text → ℕ → Bytes
dns_packet hostname query_id =
    dns_header_bytes (record {
      id = network_htons query_id;
      flags = network_htons 0x0100;
      questions = network_htons 1;
      answers = 0;
      authority = 0;
      additional = 0;
    })
    ++ dns_question hostname

-- The answer is not waited for.
unfoldable pub simulated : Text → Option Ip
simulated hostname =
    if same_text hostname (codes "google.com")
    then ip_from_string (codes "8.8.8.8")
    else if same_text hostname (codes "github.com")
    then ip_from_string (codes "140.82.112.3")
    else ip_from_string (codes "1.1.1.1")

abbrev pub ip_text : Option Ip → Bytes
ip_text none = []
ip_text (some x) = ip_to_string x

module _ {Card : Type 0} (nic : Nic Card) where
  -- `none` is a write past the end of the array of 512 bytes in which the packet is built.
  unfoldable pub dns_send_query : Text → ℕ → Host Card → Option (ℤ × Host Card)
  dns_send_query hostname query_id h =
      let packet = dns_packet hostname query_id in
      if ltb dns_buffer_size (length packet)
      then none
      else some (
          udp_send_packet nic h.iface.dns_server 12345 port_dns packet (length packet)
            (puts (codes "DNS: Sending query for " ++ (hostname ++ codes "\n")) h))

  unfoldable pub dns_answered : Text → ℤ × Host Card → ℤ × Option Ip × Host Card
  dns_answered hostname (pos zero, h) = (
    pos 0,
    simulated hostname,
    puts
        (codes "DNS query sent successfully\n"
          ++ (codes "Resolved to: " ++ (ip_text (simulated hostname) ++ codes "\n")))
        h,
  )
  dns_answered hostname (r, h) = (minus_one, none, h)

  -- The result, what is written to `*result` if anything is, and the host.
  unfoldable pub dns_query : Text → Host Card → Option (ℤ × Option Ip × Host Card)
  dns_query hostname h = do
    sent ←
        dns_send_query hostname h.dns_query_id
          (record (puts (codes "DNS: Resolving " ++ (hostname ++ codes "\n")) h) {
            dns_query_id = (h.dns_query_id + 1) % 2 ^ 16;
          })
    some (dns_answered hostname sent)
