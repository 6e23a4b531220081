-- ===== src/Netstack.antt =====
-- Byte order, the Internet checksum and the packed headers of kernel/netstack.c and netstack.h.
-- A structure in memory is the list of its bytes; words are stored low byte first.
pub mod Link
pub mod Udp
pub mod Checksum
pub mod RoundTrip
pub mod Delivery
pub mod Icmp
pub mod Replies
pub mod Dhcp
pub mod Options
pub mod Offers
pub mod Responses
pub mod Dns
pub mod Names
pub mod Kept
mod Tests
use pine_os.Base.{
  le16, le32, ℕ, zero, suc, ◌+◌, ◌-◌, ◌*◌, ◌/◌, ◌%◌, ◌^◌, Option, none, some, List, [], ◌∷◌, ◌++◌,
  ltb, get_elem?, if◌then◌else◌, add32,
}
use pine_os.Base.Bind.{◌>>=◌}
use pine_os.Network.{Ip, ip}

abbrev pub Bytes : Type 0
Bytes = List ℕ

-- `network_htons`, which is `network_ntohs` too
unfoldable pub network_htons : ℕ → ℕ
network_htons h = h % 256 * 256 + h / 256 % 256

-- `network_htonl`, which is `network_ntohl` too
unfoldable pub network_htonl : ℕ → ℕ
network_htonl h =
    h % 256 * 2 ^ 24 + h / 256 % 256 * 2 ^ 16 + h / 2 ^ 16 % 256 * 256 + h / 2 ^ 24 % 256

-- The first two loops of `ip_checksum`: the words, and an odd byte at the end.
unfoldable pub word_sum : Bytes → ℕ → ℕ
word_sum [] sum = sum
word_sum (a ∷ []) sum = add32 sum a
word_sum (a ∷ b ∷ body) sum = word_sum body (add32 sum (a + 256 * b))

-- The loop that adds the carries, on fuel: `while (sum >> 16)`.
unfoldable pub add_carries : ℕ → ℕ → ℕ
add_carries zero sum = sum
add_carries (suc fuel) sum =
    let rest = add_carries fuel (sum % 2 ^ 16 + sum / 2 ^ 16) in
    if ltb sum (2 ^ 16) then sum else rest

-- `~sum` as a `uint16_t`. Three rounds are enough for any 32-bit sum.
unfoldable pub ip_checksum : Bytes → ℕ
ip_checksum body = 2 ^ 16 - 1 - add_carries 3 (word_sum body 0) % 2 ^ 16

-- `ip_header_t`, each field as it is stored
pub record IpHeader : Type 0 where
  pub version_ihl : ℕ
  pub tos : ℕ
  pub total_length : ℕ
  pub identification : ℕ
  pub flags_fragment : ℕ
  pub ttl : ℕ
  pub protocol : ℕ
  pub checksum : ℕ
  pub src_ip : Ip
  pub dest_ip : Ip

abbrev pub ip_bytes : Ip → Bytes
ip_bytes x = x.a ∷ x.b ∷ x.c ∷ x.d ∷ []

-- the 20 bytes of a header
unfoldable pub ip_header_bytes : IpHeader → Bytes
ip_header_bytes h =
    h.version_ihl
    ∷ h.tos
    ∷ (le16 h.total_length
        ++ (le16 h.identification
            ++ (le16 h.flags_fragment
                ++ (h.ttl
                    ∷ h.protocol
                    ∷ (le16 h.checksum ++ (ip_bytes h.src_ip ++ ip_bytes h.dest_ip))))))

-- `udp_header_t`
pub record UdpHeader : Type 0 where
  pub src_port : ℕ
  pub dest_port : ℕ
  pub length : ℕ
  pub checksum : ℕ

unfoldable pub udp_header_bytes : UdpHeader → Bytes
udp_header_bytes h = le16 h.src_port ++ (le16 h.dest_port ++ (le16 h.length ++ le16 h.checksum))

-- `icmp_header_t`
pub record IcmpHeader : Type 0 where
  pub type : ℕ
  pub code : ℕ
  pub checksum : ℕ
  pub id : ℕ
  pub sequence : ℕ

unfoldable pub icmp_header_bytes : IcmpHeader → Bytes
icmp_header_bytes h = h.type ∷ h.code ∷ (le16 h.checksum ++ (le16 h.id ++ le16 h.sequence))

-- `dns_header_t`
pub record DnsHeader : Type 0 where
  pub id : ℕ
  pub flags : ℕ
  pub questions : ℕ
  pub answers : ℕ
  pub authority : ℕ
  pub additional : ℕ

unfoldable pub dns_header_bytes : DnsHeader → Bytes
dns_header_bytes h =
    le16 h.id
    ++ (le16 h.flags
        ++ (le16 h.questions ++ (le16 h.answers ++ (le16 h.authority ++ le16 h.additional))))

-- `dhcp_packet_t`; `options` are the bytes that follow the fixed fields.
pub record DhcpPacket : Type 0 where
  pub op : ℕ
  pub htype : ℕ
  pub hlen : ℕ
  pub hops : ℕ
  pub xid : ℕ
  pub secs : ℕ
  pub flags : ℕ
  pub ciaddr : Ip
  pub yiaddr : Ip
  pub siaddr : Ip
  pub giaddr : Ip
  pub chaddr : Bytes
  pub sname : Bytes
  pub file : Bytes
  pub options : Bytes

unfoldable pub dhcp_bytes : DhcpPacket → Bytes
dhcp_bytes p =
    p.op
    ∷ p.htype
    ∷ p.hlen
    ∷ p.hops
    ∷ (le32 p.xid
        ++ (le16 p.secs
            ++ (le16 p.flags
                ++ (ip_bytes p.ciaddr
                    ++ (ip_bytes p.yiaddr
                        ++ (ip_bytes p.siaddr
                            ++ (ip_bytes p.giaddr
                                ++ (p.chaddr ++ (p.sname ++ (p.file ++ p.options))))))))))

-- words and addresses read at an offset within a buffer
unfoldable pub read16 : Bytes → ℕ → Option ℕ
read16 bs i = do lo ← get_elem? bs i; hi ← get_elem? bs (i + 1); some (lo + 256 * hi)

unfoldable pub read32 : Bytes → ℕ → Option ℕ
read32 bs i = do lo ← read16 bs i; hi ← read16 bs (i + 2); some (lo + 2 ^ 16 * hi)

unfoldable pub read_ip : Bytes → ℕ → Option Ip
read_ip bs i = do
  a ← get_elem? bs i
  b ← get_elem? bs (i + 1)
  c ← get_elem? bs (i + 2)
  d ← get_elem? bs (i + 3)
  some (ip a b c d)
