-- ===== src/Netstack/Replies.antt =====
-- Which packets are taken for the answer to a ping.
use pine_os.Base.{
  ℕ, ◌^◌, ◌≡◌, ◌<◌, refl, false, ◌&&◌, Bool, some, ◌++◌, ◌==◌, if◌then◌else◌, inl, inr, length,
  Bool-cases, arith,
}
use pine_os.Network.{Ip}
use pine_os.Netstack.{
  Bytes, network_htons, ip_checksum, IcmpHeader, icmp_header_bytes, ip_header_bytes, read16,
  read_ip,
}
use pine_os.Netstack.Checksum.{ip_checksum_lt, checksum-field}
use pine_os.Netstack.Link.{ethertype_ip, ethernet_frame, ip_packet, ip_header}
use pine_os.Netstack.Icmp.{
  echo_request, icmp_packet, same_ip, echo_reply, from_expected, is_icmp, icmp_process_reply,
  protocol_icmp,
}
use pine_os.Netstack.RoundTrip.{six, word}

-- An echo request adds up to 0, as its receiver checks.
pub icmp_packet-ip_checksum : (id sequence : ℕ) → ip_checksum (icmp_packet id sequence) ≡ 0
unfolding icmp_packet icmp_header_bytes echo_request
icmp_packet-ip_checksum id sequence =
    let zeroed = icmp_header_bytes (echo_request id sequence 0) in
    let sum = ip_checksum zeroed in
    let sum_lt : sum < 2 ^ 16 = ip_checksum_lt zeroed in
    checksum-field zeroed (icmp_header_bytes (echo_request id sequence sum)) (ground arith)
      (ground arith) (omega arith) (omega arith) (omega arith)

-- The address is compared first, then the message.
decided :
    (src expected : Ip) (packet : Bytes) (n : ℕ) (b : Bool)
    → echo_reply packet n ≡ some b
    → (if same_ip src expected then echo_reply packet n else some false)
      ≡ some (same_ip src expected && b)
decided src expected packet n b e = elim (Bool-cases (same_ip src expected)) [
  | inl y ↦ rw (y, e) refl
  | inr f ↦ rw f refl
]

-- A message in an IP packet from `src`: it is taken for the answer exactly if it is an echo reply,
-- it comes from the address that was pinged, and its sequence number is the expected one.
pub icmp_process_reply_lem :
    (d s : Bytes) (src dest expected : Ip) (hdr : IcmpHeader) (rest : Bytes) (n : ℕ)
    → length d ≡ 6
    → length s ≡ 6
    → hdr.sequence < 2 ^ 16
    → icmp_process_reply
        (ethernet_frame d s ethertype_ip
            (ip_packet src dest protocol_icmp (icmp_header_bytes hdr) 8)
          ++ rest)
        expected
        n
      ≡ some (
          same_ip src expected
          && (hdr.type == 0 && hdr.code == 0 && network_htons hdr.sequence == n))
unfolding icmp_process_reply is_icmp
icmp_process_reply_lem d s src dest expected hdr rest n hd hs lt =
    let (a, b, c, d', e, f, eq) = six d hd in
    let (a', b', c', d'', e', f', eq') = six s hs in
    rw (eq, eq')
      (unfold ethernet_frame network_htons ip_packet ip_header ip_header_bytes icmp_header_bytes in
        unfold icmp_process_reply is_icmp from_expected read16 read_ip in
        decided src expected _ n (hdr.type == 0 && hdr.code == 0 && network_htons hdr.sequence == n)
          (unfold echo_reply in rw (word hdr.sequence lt) refl))
