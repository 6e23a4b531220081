-- ===== src/Netstack/Responses.antt =====
-- Any packet at all, taken for a DHCP response.

use pine_os.Base.{
  ℕ, zero, suc, ◌≡◌, ℤ, pos, ◌≤◌, ◌⊎◌, inl, inr, refl, ap, ◌∙◌, sym, ◌+◌, Bool, true, false, ◌&&◌,
  some, [], ◌∷◌, ◌++◌, ◌==◌, length, drop, Bool-cases, arith, length-drop,
}
use pine_os.Machine.{codes}
use pine_os.Network.{Ip}
use pine_os.Netstack.{Bytes, network_htons, network_htonl, read32, read_ip}
use pine_os.Netstack.Checksum.{AreBytes}
use pine_os.Netstack.Link.{Nic, Host, puts}
use pine_os.Netstack.Dhcp.{
  options_offset, take_offer, dhcp_message, udp_message, ip_message, dhcp_process_response,
  is_positive, set_iface, after_wait, dhcp_discover, dhcp_bound, dhcp_send_discover, dhcp_poll,
  dhcp_wait, dhcp_started, dhcp_client_start,
}
use pine_os.Netstack.Options.{
  in_buffer, read16_in, read32_in, read_ip_in, with_addresses, parse_options-Sets,
}

AreBytes-drop : (n : ℕ) (bs : Bytes) → AreBytes bs → AreBytes (drop n bs)
AreBytes-drop zero bs h = h
AreBytes-drop (suc n) [] h = h
AreBytes-drop (suc n) (b ∷ bs) (h, hs) = AreBytes-drop n bs hs

abbrev pub offered : {Card : Type 0} → Ip → Ip → Ip → Ip → Host Card → Host Card
offered addr mask gateway dns h = record h {
  iface = with_addresses addr mask gateway dns h.iface;
  console = h.console ++ codes "DHCP: Processing response from router\n";
}

-- What a packet does to an interface: it is ignored, or it has the client's transaction and sets
-- the interface's addresses and no other field.
abbrev pub Outcome : {Card : Type 0} → Bytes → Host Card → Type 0
Outcome packet h =
    (dhcp_process_response packet h ≡ some (false, h))
    ⊎ ((xid : ℕ) × (addr : Ip) × (mask : Ip) × (gateway : Ip) × (dns : Ip) × (read32 packet 46
          ≡ some xid)
        × (network_htonl xid ≡ h.dhcp_transaction_id)
        × (read_ip packet 58 ≡ some addr)
        × (dhcp_process_response packet h ≡ some (true, offered addr mask gateway dns h)))

same_second : (a b n m : ℕ) → (a == b && n == m) ≡ true → n ≡ m
same_second a b n m h = ground arith

take_offer_lem :
    {Card : Type 0} (packet : Bytes) (h : Host Card)
    → AreBytes packet
    → 839 ≤ length packet
    → (addr : Ip) × (mask : Ip) × (gateway : Ip) × (dns : Ip) × (read_ip packet 58 ≡ some addr)
      × (take_offer packet h ≡ some (true, offered addr mask gateway dns h))
unfolding take_offer
take_offer_lem packet h bytes le =
    let (addr, e) = read_ip_in packet 58 bytes (omega arith) in
    let j = record (h.iface) { ip_addr = addr } in
    let (mask, gateway, dns, done) =
      parse_options-Sets 150 (drop options_offset packet) 0 j
        (AreBytes-drop options_offset packet bytes)
        (omega (arith, length-drop options_offset packet)) (omega arith) (omega arith) in
    (addr, mask, gateway, dns, e, rw (e, done) refl)

-- A receive buffer of 839 bytes or more is never read past its end, whatever it holds: the response
-- is ignored, or it is for the client's transaction and sets the addresses and nothing else.
pub dhcp_process_response-Outcome :
    {Card : Type 0} (packet : Bytes) (h : Host Card)
    → AreBytes packet
    → 839 ≤ length packet
    → Outcome packet h
unfolding dhcp_process_response ip_message udp_message dhcp_message
dhcp_process_response-Outcome packet h bytes le =
    let (ty, ety) = read16_in packet 12 bytes (omega arith) in
    let (proto, eproto, lproto) = in_buffer packet 23 bytes (omega arith) in
    let (port, eport) = read16_in packet 36 bytes (omega arith) in
    let (op, eop, lop) = in_buffer packet 42 bytes (omega arith) in
    let (xid, exid) = read32_in packet 46 bytes (omega arith) in
    let (addr, mask, gateway, dns, eaddr, done) = take_offer_lem packet h bytes le in
    elim (Bool-cases (network_htons ty == 0x0800)) [
      | inr n ↦ inl (rw (ety, n) refl)
      | inl y ↦ elim (Bool-cases (proto == 17)) [
        | inr n ↦ inl (rw (ety, y, eproto, n) refl)
        | inl y2 ↦ elim (Bool-cases (network_htons port == 68)) [
          | inr n ↦ inl (rw (ety, y, eproto, y2, eport, n) refl)
          | inl y3 ↦ elim (Bool-cases (op == 2 && network_htonl xid == h.dhcp_transaction_id)) [
            | inr n ↦ inl (rw (ety, y, eproto, y2, eport, y3, eop, exid, n) refl)
            | inl y4 ↦
                let same = same_second op 2 (network_htonl xid) h.dhcp_transaction_id y4 in
                inr (
                  xid,
                  addr,
                  mask,
                  gateway,
                  dns,
                  exid,
                  same,
                  eaddr,
                  rw (ety, y, eproto, y2, eport, y3, eop, exid, y4, done) refl,
                )
          ]
        ]
      ]
    ]

answered :
    {Card : Type 0} (packet : Bytes) (h : Host Card)
    → AreBytes packet
    → 839 ≤ length packet
    → (b : Bool) × (h' : Host Card) × (dhcp_process_response packet h ≡ some (b, h'))
      × (h'.card ≡ h.card)
answered packet h bytes le = elim (dhcp_process_response-Outcome packet h bytes le) [
  | inl e ↦ (false, h, e, refl)
  | inr x ↦ (true, offered x.1 x.2 x.3 x.4 h, x.8, refl)
]

-- Receptions give the buffer of the size asked for, filled with bytes, and are counted.
pub record FillsBuffers {Card : Type 0} (nic : Nic Card) : Type 0 where
  pub receive : ℕ → Card → ℤ × Bytes × Card
  pub receives : nic.receive_packet ≡ some receive
  pub bytes : (n : ℕ) (c : Card) → AreBytes ((receive n c).1)
  pub size : (n : ℕ) (c : Card) → length ((receive n c).1) ≡ n
  pub receptions : Card → ℕ
  pub counts : (n : ℕ) (c : Card) → receptions ((receive n c).2) ≡ receptions c + 1

module _ {Card : Type 0} (nic : Nic Card) (fills : FillsBuffers nic) where
  polled :
      (h : Host Card)
      → (b : Bool) × (h' : Host Card) × (dhcp_poll nic h ≡ some (b, h'))
        × (fills.receptions h'.card ≡ fills.receptions h.card + 1)
  unfolding dhcp_poll
  polled h =
      let got = fills.receive 1500 h.card in
      let h' = record h { card = got.2 } in
      let (b, g, e, same) =
        answered got.1 h' (fills.bytes 1500 h.card) (omega (arith, fills.size 1500 h.card)) in
      let one = fills.counts 1500 h.card in
      elim (Bool-cases (is_positive got.0)) [
        | inr n ↦ (false, h', rw (fills.receives, n) refl, one)
        | inl y ↦ (b, g, rw (fills.receives, y) e, ap fills.receptions same ∙ one)
      ]

  waited :
      (left : ℕ) (h : Host Card)
      → (b : Bool) × (h' : Host Card) × (dhcp_wait nic left h ≡ some (b, h'))
        × (fills.receptions h'.card ≤ fills.receptions h.card + left)
        × ((fills.receptions h'.card ≡ fills.receptions h.card + left)
            ⊎ ((g : Host Card) × (dhcp_poll nic g ≡ some (true, h'))))
  unfolding dhcp_wait
  waited zero h = (false, h, refl, omega arith, inl (omega arith))
  waited (suc left) h =
      let (b, h', e, n) = polled h in
      let (c, h'', e', m, how) = waited left h' in
      elim (Bool-cases b) [
        | inl t ↦ (b, h', rw (e, t) refl, omega (arith, n), inr (h, rw t at e))
        | inr f ↦ (
          c,
          h'',
          rw (e, f) e',
          omega (arith, n, m),
          elim how [ inl k ↦ inl (omega (arith, n, k)) | inr x ↦ inr x ],
        )
      ]

  after_wait-bound :
      (b : Bool) (h : Host Card)
      → (h' : Host Card) × (after_wait (b, h) ≡ (pos 0, h'))
        × (h'.iface.dhcp_state ≡ dhcp_bound)
        × (h'.card ≡ h.card)
  unfolding after_wait
  after_wait-bound true h = (_, refl, refl, refl)
  after_wait-bound false h = (_, refl, refl, refl)

  -- With a card whose receptions fill the buffer that they are given, and if the DISCOVER packet
  -- could be sent, `dhcp_client_start` ends after at most 100 receptions, and after fewer only where
  -- the last one was an answer; it reads no packet past its end, and leaves the interface bound, with
  -- an answer or without one.
  pub dhcp_client_start-bound :
      (h h' : Host Card)
      → dhcp_send_discover nic (
          set_iface
            (λ i. record i { dhcp_state = dhcp_discover })
            (puts (codes "Starting REAL DHCP client via E1000...\n") h))
        ≡ (pos 0, h')
      → (h'' : Host Card) × (dhcp_client_start nic h ≡ some (pos 0, h''))
        × (h''.iface.dhcp_state ≡ dhcp_bound)
        × (fills.receptions h''.card ≤ fills.receptions h'.card + 100)
        × ((fills.receptions h''.card ≡ fills.receptions h'.card + 100)
            ⊎ ((g g' : Host Card) × (dhcp_poll nic g ≡ some (true, g')) × (g'.card ≡ h''.card)))
  unfolding dhcp_client_start dhcp_started
  dhcp_client_start-bound h h' sent =
      let (b, g, e, n, how) = waited 100 (
        puts
          (codes "REAL DHCP DISCOVER sent via E1000 hardware\n"
            ++ codes "Waiting for DHCP response from router...\n")
          h') in
      let (h'', c, bound, same) = after_wait-bound b g in
      let count = ap fills.receptions same in
      (
        h'',
        rw (sent, e, c) refl,
        bound,
        omega (arith, n, count),
        elim how [ inl k ↦ inl (omega (arith, k, count)) | inr (f, x) ↦ inr (f, g, x, sym same) ],
      )
