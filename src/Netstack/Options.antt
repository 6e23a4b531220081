-- ===== src/Netstack/Options.antt =====
-- The options of a DHCP response: the parser reads within the buffer, and takes what it should.

use pine_os.Base.{
  ℕ, zero, suc, ◌+◌, ◌*◌, ◌^◌, ◌≡◌, ◌≢◌, ◌≤◌, ◌<◌, ◌⊎◌, inl, inr, refl, ◌∙◌, true, false, ◌&&◌,
  Option, some, [], ◌∷◌, leb, ◌==◌, length, get_elem?, Bool-cases, dec_lt, ℕ_discrete, arith,
}
use pine_os.Network.{Ip, ip}
use pine_os.Network.Table.{Iface}
use pine_os.Netstack.{Bytes, read16, read32, read_ip}
use pine_os.Netstack.Checksum.{AreBytes}
use pine_os.Netstack.Dhcp.{set_option, parse_options}

-- A read within the buffer gives a byte.
pub in_buffer :
    (bs : Bytes) (i : ℕ)
    → AreBytes bs
    → i < length bs
    → (b : ℕ) × (get_elem? bs i ≡ some b) × (b < 256)
in_buffer [] i h lt = absurd (omega arith)
in_buffer (b ∷ bs) zero (h, hs) lt = (b, refl, h)
in_buffer (b ∷ bs) (suc i) (h, hs) lt = in_buffer bs i hs (omega arith)

pub read16_in :
    (bs : Bytes) (i : ℕ) → AreBytes bs → i + 1 < length bs → (w : ℕ) × (read16 bs i ≡ some w)
unfolding read16
read16_in bs i h lt =
    let (a, ea, la) = in_buffer bs i h (omega arith) in
    let (b, eb, lb) = in_buffer bs (i + 1) h lt in (a + 256 * b, rw (ea, eb) refl)

pub read32_in :
    (bs : Bytes) (i : ℕ) → AreBytes bs → i + 3 < length bs → (w : ℕ) × (read32 bs i ≡ some w)
unfolding read32
read32_in bs i h lt =
    let (a, ea) = read16_in bs i h (omega arith) in
    let (b, eb) = read16_in bs (i + 2) h (omega arith) in (a + 2 ^ 16 * b, rw (ea, eb) refl)

pub read_ip_in :
    (bs : Bytes) (i : ℕ) → AreBytes bs → i + 3 < length bs → (x : Ip) × (read_ip bs i ≡ some x)
unfolding read_ip
read_ip_in bs i h lt =
    let (a, ea, la) = in_buffer bs i h (omega arith) in
    let (b, eb, lb) = in_buffer bs (i + 1) h (omega arith) in
    let (c, ec, lc) = in_buffer bs (i + 2) h (omega arith) in
    let (d, ed, ld) = in_buffer bs (i + 3) h lt in (ip a b c d, rw (ea, eb, ec, ed) refl)

-- What a response may set: the interface is the old one but for these fields.
abbrev pub with_addresses : Ip → Ip → Ip → Ip → Iface → Iface
with_addresses addr mask gateway dns i = record i {
  ip_addr = addr;
  subnet_mask = mask;
  gateway = gateway;
  dns_server = dns;
}

abbrev Sets : Iface → Option Iface → Type 0
Sets i o =
    (mask : Ip) × (gateway : Ip) × (dns : Ip) × (o
      ≡ some (with_addresses i.ip_addr mask gateway dns i))

set_option-Sets :
    (type len : ℕ) (options : Bytes) (off : ℕ) (i : Iface)
    → AreBytes options
    → off + 3 < length options
    → Sets i (set_option type len options off i)
unfolding set_option
set_option-Sets type len options off i h lt =
    let (x, e) = read_ip_in options off h lt in
    elim (Bool-cases (type == 1 && len == 4)) [
      | inl y ↦ (x, i.gateway, i.dns_server, rw (y, e) refl)
      | inr n ↦ elim (Bool-cases (type == 3 && leb 4 len)) [
        | inl y ↦ (i.subnet_mask, x, i.dns_server, rw (n, y, e) refl)
        | inr m ↦ elim (Bool-cases (type == 6 && leb 4 len)) [
          | inl y ↦ (i.subnet_mask, i.gateway, x, rw (n, m, y, e) refl)
          | inr k ↦ (i.subnet_mask, i.gateway, i.dns_server, rw (n, m, k) refl)
        ]
      ]
    ]

-- One round on an option that is not the end.
pub option_round :
    (fuel : ℕ) (options : Bytes) (off : ℕ) (i j : Iface) (type len : ℕ)
    → off < 300
    → type ≢ 255
    → get_elem? options off ≡ some type
    → get_elem? options (off + 1) ≡ some len
    → set_option type len options (off + 2) i ≡ some j
    → parse_options (suc fuel) options off i ≡ parse_options fuel options (off + 2 + len) j
unfolding parse_options
option_round fuel options off i j type len lt ne e e' es =
    let more : (type == 255) ≡ false = ground arith in
    let low : leb 300 off ≡ false = ground arith in rw (e, more, low, e', es) refl

pub parse_options_stop :
    (fuel : ℕ) (options : Bytes) (off : ℕ) (i : Iface) (b : ℕ)
    → get_elem? options off ≡ some b
    → (b ≡ 255) ⊎ (300 ≤ off)
    → parse_options (suc fuel) options off i ≡ some i
unfolding parse_options
parse_options_stop fuel options off i b e (inl y) = rw (e, y) refl
parse_options_stop fuel options off i b e (inr y) =
    let high : leb 300 off ≡ true = ground arith in
    elim (Bool-cases (b == 255)) [ inl y ↦ rw (e, y) refl | inr n ↦ rw (e, n, high) refl ]

pub parse_options-Sets :
    (fuel : ℕ) (options : Bytes) (off : ℕ) (i : Iface)
    → AreBytes options
    → 557 ≤ length options
    → off ≤ 556
    → 300 ≤ off + 2 * fuel
    → Sets i (parse_options (suc fuel) options off i)
parse_options-Sets zero options off i h le lo hi =
    let (b, e, lt) = in_buffer options off h (omega arith) in
    (
      i.subnet_mask,
      i.gateway,
      i.dns_server,
      parse_options_stop zero options off i b e (inr (omega arith)),
    )
parse_options-Sets (suc fuel) options off i h le lo hi =
    let (b, e, lt) = in_buffer options off h (omega arith) in
    let stop : (b ≡ 255) ⊎ (300 ≤ off) → Sets i (parse_options (suc (suc fuel)) options off i) =
      λ c. (
        i.subnet_mask,
        i.gateway,
        i.dns_server,
        parse_options_stop (suc fuel) options off i b e c,
      ) in
    elim (ℕ_discrete b 255) [
      | yes y ↦ stop (inl y)
      | no n ↦ elim (dec_lt off 300) [
        | no ge ↦ stop (inr (omega arith))
        | yes low ↦
            let (len, e', lt') = in_buffer options (off + 1) h (omega arith) in
            let (m, g, d, es) = set_option-Sets b len options (off + 2) i h (omega arith) in
            let j = with_addresses i.ip_addr m g d i in
            let (m', g', d', done) =
              parse_options-Sets fuel options (off + 2 + len) j h le (omega arith) (omega arith) in
            (m', g', d', option_round (suc fuel) options off i j b len low n e e' es ∙ done)
      ]
    ]
