-- ===== src/Netstack/RoundTrip.antt =====
-- What an interface sends is what another one receives: headers, frames, IP and UDP packets.
use pine_os.Base.{
  take_length, take-append, drop-append, ℕ, ◌+◌, ◌*◌, ◌/◌, ◌%◌, ◌^◌, ◌≡◌, ◌≤◌, ◌<◌, inl, inr, refl,
  ap, ◌∙◌, sym, true, false, some, [], ◌∷◌, ◌++◌, ltb, ◌==◌, length, take, drop, Bool-cases, arith,
  length-append,
}
use mathlib.Core.List.{append_assoc}
use pine_os.Network.{Ip}
use pine_os.Network.Address.{IsIp}
use pine_os.Netstack.{Bytes, network_htons, ip_checksum, IpHeader, ip_header_bytes, read16, read_ip}
use pine_os.Netstack.Checksum.{AreBytes, ip_checksum_lt, checksum-field}
use pine_os.Netstack.Link.{
  Host, received, ethernet_frame, ip_header, ip_packet, dest_mac, is_broadcast, read_ip_header,
  payload_length, ip_payload, checksum_matches, checked, ip_header_found,
}

ip_header-AreBytes :
    (src dest : Ip) (protocol len sum : ℕ)
    → IsIp src
    → IsIp dest
    → protocol < 256
    → AreBytes (ip_header_bytes (ip_header src dest protocol len sum))
unfolding ip_header_bytes ip_header
ip_header-AreBytes src dest protocol len sum hs hd lt = ground arith

-- The header that `ip_send_packet` puts in front of its payload adds up to 0, as a receiver checks.
ip_packet-ip_checksum :
    (src dest : Ip) (protocol len : ℕ) (payload : Bytes)
    → IsIp src
    → IsIp dest
    → protocol < 256
    → ip_checksum (take 20 (ip_packet src dest protocol payload len)) ≡ 0
unfolding ip_packet ip_header_bytes ip_header
ip_packet-ip_checksum src dest protocol len payload hs hd lt =
    let zeroed = ip_header_bytes (ip_header src dest protocol len 0) in
    let sum = ip_checksum zeroed in
    let sum_lt : sum < 2 ^ 16 = ip_checksum_lt zeroed in
    checksum-field zeroed (ip_header_bytes (ip_header src dest protocol len sum))
      (ip_header-AreBytes src dest protocol len 0 hs hd lt)
      (ip_header-AreBytes src dest protocol len sum hs hd lt) (omega arith) (omega arith)
      (omega arith)

pub word : (w : ℕ) → w < 2 ^ 16 → w % 256 + 256 * (w / 256 % 256) ≡ w
word w lt = omega arith

-- each field fits its type
pub record IsIpHeader (h : IpHeader) : Type 0 where
  pub total_length : h.total_length < 2 ^ 16
  pub identification : h.identification < 2 ^ 16
  pub flags_fragment : h.flags_fragment < 2 ^ 16
  pub checksum : h.checksum < 2 ^ 16

read_ip_header-ip_header_bytes :
    (h : IpHeader) (rest : Bytes)
    → IsIpHeader h
    → read_ip_header (ip_header_bytes h ++ rest) ≡ some h
unfolding read_ip_header ip_header_bytes read16 read_ip
read_ip_header-ip_header_bytes h rest w =
    rw
      (
        word h.total_length w.total_length,
        word h.identification w.identification,
        word h.flags_fragment w.flags_fragment,
        word h.checksum w.checksum,
      )
      refl

pub six : (m : Bytes) → length m ≡ 6 → (a b c d e f : ℕ) × (m ≡ a ∷ b ∷ c ∷ d ∷ e ∷ f ∷ [])
six (a ∷ b ∷ c ∷ d ∷ e ∷ f ∷ []) h = (a, b, c, d, e, f, refl)
six [] h = absurd (omega arith)
six (a ∷ []) h = absurd (omega arith)
six (a ∷ b ∷ []) h = absurd (omega arith)
six (a ∷ b ∷ c ∷ []) h = absurd (omega arith)
six (a ∷ b ∷ c ∷ d ∷ []) h = absurd (omega arith)
six (a ∷ b ∷ c ∷ d ∷ e ∷ []) h = absurd (omega arith)
six (a ∷ b ∷ c ∷ d ∷ e ∷ f ∷ g ∷ m) h = absurd (omega arith)

pub dest_mac-length : (dest : Ip) → length (dest_mac dest) ≡ 6
unfolding dest_mac
dest_mac-length dest = elim (Bool-cases (is_broadcast dest)) [
  | inl y ↦ rw y refl
  | inr n ↦ rw n refl
]

-- Behind two addresses of six bytes stand the type and the payload.
pub frame-parts :
    (d s : Bytes) (type : ℕ) (payload rest : Bytes)
    → length d ≡ 6
    → length s ≡ 6
    → type < 2 ^ 16
    → (read16 (ethernet_frame d s type payload ++ rest) 12 ≡ some (network_htons type))
      × (drop 14 (ethernet_frame d s type payload ++ rest) ≡ payload ++ rest)
unfolding ethernet_frame read16 network_htons
frame-parts d s type payload rest hd hs lt =
    let (a, b, c, d', e, f, eq) = six d hd in
    let (a', b', c', d'', e', f', eq') = six s hs in rw (eq, eq') (ap some (omega arith), refl)

ip_header-IsIpHeader :
    (src dest : Ip) (protocol len sum : ℕ)
    → sum < 2 ^ 16
    → IsIpHeader (ip_header src dest protocol len sum)
unfolding ip_header network_htons
ip_header-IsIpHeader src dest protocol len sum lt = record {
  total_length = omega arith;
  identification = omega arith;
  flags_fragment = omega arith;
  checksum = lt;
}

pub eq_self : (n : ℕ) → (n == n) ≡ true
eq_self n = ground arith

checksum_matches-ip_header :
    (src dest : Ip) (protocol len : ℕ)
    → checksum_matches (
        ip_header src dest protocol len
          (ip_checksum (ip_header_bytes (ip_header src dest protocol len 0))))
      ≡ true
unfolding checksum_matches ip_header
checksum_matches-ip_header src dest protocol len = eq_self _

payload_length-ip_header :
    (src dest : Ip) (protocol len sum : ℕ)
    → len ≤ 1480
    → payload_length (ip_header src dest protocol len sum) ≡ len
unfolding ip_header network_htons
payload_length-ip_header src dest protocol len sum le = omega arith

drop_prefix : (n : ℕ) (pre bs : Bytes) → length pre ≡ n → drop n (pre ++ bs) ≡ bs
drop_prefix n pre bs e = ap (λ (k : ℕ). drop k (pre ++ bs)) (sym e) ∙ drop-append pre bs

ip_payload_prefix :
    (hdr : IpHeader) (pre payload rest : Bytes)
    → length pre ≡ 20
    → payload_length hdr ≡ length payload
    → ip_payload hdr (pre ++ (payload ++ rest)) ≡ received (record hdr { checksum = 0 }) payload
unfolding ip_payload
ip_payload_prefix hdr pre payload rest e n =
    let long : ltb (length (pre ++ (payload ++ rest))) (20 + payload_length hdr) ≡ false =
      ground (arith, length-append pre (payload ++ rest), length-append payload rest) in
    rw (long, drop_prefix 20 pre (payload ++ rest) e, n, take-append payload rest) refl

ip_payload-ip_header :
    (src dest : Ip) (protocol sum : ℕ) (payload rest : Bytes)
    → length payload ≤ 1480
    → (let hdr = ip_header src dest protocol (length payload) sum in
        ip_payload hdr (ip_header_bytes hdr ++ (payload ++ rest))
        ≡ received (ip_header src dest protocol (length payload) 0) payload)
ip_payload-ip_header src dest protocol sum payload rest le =
    let hdr = ip_header src dest protocol (length payload) sum in
    ip_payload_prefix hdr (ip_header_bytes hdr) payload rest (unfold ip_header_bytes in refl)
      (payload_length-ip_header src dest protocol (length payload) sum le)
    ∙ unfold ip_header in refl

pub checked-ip_packet :
    {Card : Type 0} (src dest : Ip) (protocol : ℕ) (payload rest : Bytes) (h : Host Card)
    → length payload ≤ 1480
    → ip_header_found
        (read_ip_header (ip_packet src dest protocol payload (length payload) ++ rest))
        (ip_packet src dest protocol payload (length payload) ++ rest)
        h
      ≡ (received (ip_header src dest protocol (length payload) 0) payload, h)
unfolding ip_packet
checked-ip_packet {Card} src dest protocol payload rest h le =
    let len = length payload in
    let sum = ip_checksum (ip_header_bytes (ip_header src dest protocol len 0)) in
    let hdr = ip_header src dest protocol len sum in
    let assoc : (ip_header_bytes hdr ++ take len payload) ++ rest
        ≡ ip_header_bytes hdr ++ (payload ++ rest) =
      append_assoc (ip_header_bytes hdr) (take len payload) rest
      ∙ ap (λ (t : Bytes). ip_header_bytes hdr ++ (t ++ rest)) (take_length payload) in
    let read =
      read_ip_header-ip_header_bytes hdr (payload ++ rest)
        (ip_header-IsIpHeader src dest protocol len sum (ip_checksum_lt _)) in
    rw (assoc, read)
      (unfold ip_header_found checked in
        rw
          (
            checksum_matches-ip_header src dest protocol len,
            ip_payload-ip_header src dest protocol sum payload rest le,
          )
          refl)
