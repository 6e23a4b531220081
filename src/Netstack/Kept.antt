-- ===== src/Netstack/Kept.antt =====
-- What the DHCP client leaves alone of an interface: its name and its state.
use pine_os.Base.{
  ℕ, zero, suc, ◌+◌, ◌≡◌, refl, Bool, true, false, ◌&&◌, Option, none, some, ltb, leb, ◌==◌,
  if◌then◌else◌, ℤ, pos, negsuc, Bool-cases, Option-cases, inl, inr, arith, get_elem?, drop, ◌%◌,
  ◌^◌, ◌++◌,
}
use pine_os.Base.Bind.{◌>>=◌}
use pine_os.Base.Always.{Always, Always-if, Always-bind}
use pine_os.Machine.{codes}
use pine_os.Network.{Ip}
use pine_os.Network.Table.{Iface}
use pine_os.Netstack.{Bytes, read16, read32, read_ip, network_htonl}
use pine_os.Netstack.Link.{Nic, Host, ethernet_send_frame, ip_send_packet}
use pine_os.Netstack.Udp.{udp_send_packet}
use pine_os.Netstack.Dhcp.{
  end_option, set_option, parse_options, is_positive, take_offer, dhcp_message, udp_message,
  ip_message, dhcp_process_response, after_wait, dhcp_send_discover, dhcp_poll, dhcp_wait,
  dhcp_started, dhcp_client_start,
}

pub record Kept (i j : Iface) : Type 0 where
  pub name : j.name ≡ i.name
  pub state : j.state ≡ i.state

Kept-refl : (i : Iface) → Kept i i
Kept-refl i = record { name = refl; state = refl }

bind-Kept :
    (i : Iface) (o : Option Iface) (f : Iface → Option Iface)
    → Always (Kept i) o
    → ((j : Iface) → Kept i j → Always (Kept i) (f j))
    → Always (Kept i) (o >>= f)
bind-Kept i none f h step = tt
bind-Kept i (some j) f h step = step j h

set_option-Kept :
    (type len : ℕ) (options : Bytes) (off : ℕ) (i j : Iface)
    → Kept i j
    → Always (Kept i) (set_option type len options off j)
unfolding set_option
set_option-Kept type len options off i j k = ground (arith, Option-cases (read_ip options off))

parse_options-Kept :
    (fuel : ℕ) (options : Bytes) (off : ℕ) (i j : Iface)
    → Kept i j
    → Always (Kept i) (parse_options fuel options off j)
unfolding parse_options
parse_options-Kept zero options off i j k = tt
parse_options-Kept (suc fuel) options off i j k =
    Always-bind (Kept i) (get_elem? options off) _ (λ first.
      elim (Bool-cases (first == end_option)) [
        | inl y ↦ rw y k
        | inr n ↦ elim (Bool-cases (leb 300 off)) [
          | inl y ↦ rw (n, y) k
          | inr m ↦
              rw (n, m)
                (Always-bind (Kept i) (get_elem? options (off + 1)) _ (λ len.
                  bind-Kept i (set_option first len options (off + 2) j)
                    (parse_options fuel options (off + 2 + len))
                    (set_option-Kept first len options (off + 2) i j k)
                    (λ j'. parse_options-Kept fuel options (off + 2 + len) i j')))
        ]
      ])

-- The interface that comes with a result.
abbrev pub Leaves : {Card R : Type 0} → Iface → R × Host Card → Type 0
Leaves i (r, h) = Kept i h.iface

module _ {Card : Type 0} (i : Iface) where
  take_offer-Kept :
      (packet : Bytes) (h : Host Card) → Kept i h.iface → Always (Leaves i) (take_offer packet h)
  unfolding take_offer
  take_offer-Kept packet h k = Always-bind (Leaves i) (read_ip packet 58) _ (λ yiaddr.
      map-Kept (parse_options 151 (drop 282 packet) 0 (record (h.iface) { ip_addr = yiaddr })) (
        parse_options-Kept 151 (drop 282 packet) 0 i (record (h.iface) { ip_addr = yiaddr })
          (record { name = k.name; state = k.state })))
    where
      map-Kept :
          (o : Option Iface)
          → Always (Kept i) o
          → Always (Leaves i) (
              o >>= λ j. some (
                true,
                record h {
                  iface = j;
                  console = h.console ++ codes "DHCP: Processing response from router\n";
                },
              ))
      map-Kept none q = tt
      map-Kept (some j) q = q

  -- one layer of a packet: a field is read, and if it fits the next layer is looked at
  layer-Kept :
      (o : Option ℕ) (test : ℕ → Bool) (next : Option (Bool × Host Card)) (h : Host Card)
      → Kept i h.iface
      → Always (Leaves i) next
      → Always (Leaves i) (o >>= λ x. if test x then next else some (false, h))
  layer-Kept o test next h k q =
      Always-bind (Leaves i) o _ (λ x. Always-if (Leaves i) (test x) next (some (false, h)) q k)

  dhcp_process_response-Kept :
      (packet : Bytes) (h : Host Card)
      → Kept i h.iface
      → Always (Leaves i) (dhcp_process_response packet h)
  unfolding dhcp_process_response ip_message udp_message dhcp_message
  dhcp_process_response-Kept packet h k = layer-Kept (read16 packet 12) _ _ h k (
      layer-Kept (get_elem? packet 23) _ _ h k (
        layer-Kept (read16 packet 36) _ _ h k (
          Always-bind (Leaves i) (get_elem? packet 42) _ (λ op.
            layer-Kept (read32 packet 46)
              (λ xid. op == 2 && network_htonl xid == h.dhcp_transaction_id) _ h k
              (take_offer-Kept packet h k)))))

  module _ (nic : Nic Card) where
    dhcp_poll-Kept : (h : Host Card) → Kept i h.iface → Always (Leaves i) (dhcp_poll nic h)
    unfolding dhcp_poll
    dhcp_poll-Kept h k = elim (Option-cases nic.receive_packet) [
      | inl e ↦ rw (e, dhcp_poll) k
      | inr (receive, e) ↦
          let (r, packet, c) = receive 1500 h.card in
          let h' = record h { card = c } in
          rw (e, dhcp_poll)
            (Always-if (Leaves i) (is_positive r) (dhcp_process_response packet h')
              (some (false, h')) (dhcp_process_response-Kept packet h' k) k)
    ]

    dhcp_wait-Kept :
        (left : ℕ) (h : Host Card) → Kept i h.iface → Always (Leaves i) (dhcp_wait nic left h)
    unfolding dhcp_wait
    dhcp_wait-Kept zero h k = k
    dhcp_wait-Kept (suc left) h k = go (dhcp_poll nic h) (dhcp_poll-Kept h k) (dhcp_wait-Kept left)
      where
        go :
            (o : Option (Bool × Host Card))
            → Always (Leaves i) o
            → ((h' : Host Card) → Kept i h'.iface → Always (Leaves i) (dhcp_wait nic left h'))
            → Always (Leaves i) (o >>= λ got. if got.0 then some got else dhcp_wait nic left got.1)
        go none q rest = tt
        go (some (b, h')) q rest =
            Always-if (Leaves i) b (some (b, h')) (dhcp_wait nic left h') q (rest h' q)

    udp_send_packet-Kept :
        (dest : Ip) (src_port dest_port : ℕ) (bytes : Bytes) (len : ℕ) (h : Host Card)
        → Kept i h.iface
        → Kept i (udp_send_packet nic dest src_port dest_port bytes len h).1.iface
    unfolding udp_send_packet ip_send_packet ethernet_send_frame
    udp_send_packet-Kept dest src_port dest_port bytes len h k =
        elim (Bool-cases (ltb 1500 ((20 + (8 + len) % 2 ^ 16) % 2 ^ 16))) [
          | inl y ↦ rw y k
          | inr n ↦ elim (Option-cases nic.send_packet) [
            | inl e ↦ rw (n, e, ethernet_send_frame) k
            | inr (send, e) ↦ rw (n, e, ethernet_send_frame) k
          ]
        ]

    after_wait-Kept :
        (got : Bool × Host Card) → Kept i got.1.iface → Kept i (after_wait got).1.iface
    unfolding after_wait
    after_wait-Kept (true, h) k = record { name = k.name; state = k.state }
    after_wait-Kept (false, h) k = record { name = k.name; state = k.state }

    dhcp_started-Kept :
        (x : ℤ × Host Card) → Kept i x.1.iface → Always (Leaves i) (dhcp_started nic x)
    unfolding dhcp_started
    dhcp_started-Kept (pos zero, h) k = go (dhcp_wait nic 100 _) (dhcp_wait-Kept 100 _ k)
      where
        go :
            (o : Option (Bool × Host Card))
            → Always (Leaves i) o
            → Always (Leaves i) (o >>= λ got. some (after_wait got))
        go none q = tt
        go (some got) q = after_wait-Kept got q
    dhcp_started-Kept (pos (suc n), h) k = k
    dhcp_started-Kept (negsuc n, h) k = k

  -- Whatever the card does, the DHCP client leaves the interface's name and state as they were.
  pub dhcp_client_start-Kept :
      (nic : Nic Card) (h : Host Card)
      → Kept i h.iface
      → Always (Leaves i) (dhcp_client_start nic h)
  unfolding dhcp_client_start dhcp_send_discover
  dhcp_client_start-Kept nic h k =
      dhcp_started-Kept nic _
        (udp_send_packet-Kept nic _ _ _ _ _ _ (record { name = k.name; state = k.state }))
