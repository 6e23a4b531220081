-- ===== src/Wifi/Ping.antt =====
-- The functions of kernel/network.c that use the network stack: name resolution and `ping`. An
-- interface's card is reached through the functions `nics` has for the interface's name.
use pine_os.Base.{
  ℕ, zero, suc, ◌+◌, ◌-◌, ◌*◌, ◌/◌, ◌%◌, ◌^◌, ◌≤◌, ◌≡◌, Option, none, some, ◌∷◌, ◌++◌, ◌==◌,
  if◌then◌else◌, ℤ, pos, negsuc, inl, inr, Option-cases, arith,
}
use pine_os.Base.Bind.{◌>>=◌}
use pine_os.Base.Always.{Always, of_Always, Always-bind}
use pine_os.CString.{Text}
use pine_os.Machine.{codes}
use pine_os.Network.{Ip, ip_to_string}
use pine_os.Netstack.Link.{Nic, Host, puts}
use pine_os.Netstack.Icmp.{icmp_send_ping, icmp_process_reply}
use pine_os.Netstack.Dhcp.{is_positive}

abbrev pub eth0 : Text
eth0 = codes "eth0"

-- `packets_sent` and `packets_received`
pub record Tally : Type 0 where
  pub sent : ℕ
  pub received : ℕ

-- `'0' + n` as the `char` that `vga_putchar` takes
abbrev pub digit : ℕ → ℕ
digit n = (b'0' + n) % 256

abbrev pub reply_text : Ip → ℕ → ℕ → Text
reply_text target i timeout_count =
    codes "64 bytes from "
    ++ (ip_to_string target
        ++ (codes ": icmp_seq="
            ++ (digit i
                ∷ (codes " ttl=64 time="
                    ++ (digit ((timeout_count * 10 + 5) / 10)
                        ∷ digit ((timeout_count * 10 + 5) % 10)
                        ∷ codes " ms\n")))))

-- percent, with nothing lost if nothing was sent
abbrev pub loss_percent : Tally → ℕ
loss_percent t = if t.sent == 0 then 0 else (t.sent - t.received) * 100 / t.sent

abbrev pub statistics : Text → Tally → Text
statistics target t =
    codes "\n--- "
    ++ (target
        ++ (codes " ping statistics ---\n"
            ++ (digit t.sent
                ∷ (codes " packets transmitted, "
                    ++ (digit t.received
                        ∷ (codes " received, "
                            ++ (digit (loss_percent t / 10)
                                ∷ digit (loss_percent t % 10)
                                ∷ codes "% packet loss\n")))))))

module _ {Card : Type 0} (nic : Nic Card) (target : Ip) (i : ℕ) where
  -- the sequence number that is sent, a `uint16_t`; the one that is expected is the `int` itself
  abbrev pub seq : ℕ
  seq = i % 2 ^ 16

  -- The wait for the reply, with the rounds left; the result is `timeout_count`, if a reply came.
  unfoldable pub ping_wait : ℕ → ℕ → Host Card → Option (Option ℕ × Host Card)
  ping_wait zero timeout_count h = some (none, h)
  ping_wait (suc left) timeout_count h = elim nic.receive_packet [
    | none ↦ ping_wait left (timeout_count + 1) h
    | some receive ↦
        let (r, packet, c) = receive 1500 h.card in
        let h' = record h { card = c } in
        let next = ping_wait left (timeout_count + 1) h' in
        if is_positive r
        then (do
          reply ← icmp_process_reply packet target i
          (if reply then some (some timeout_count, h') else next))
        else next
  ]

  abbrev pub replied : Tally → Option ℕ × Host Card → Tally × Host Card
  replied t (none, h) =
      (t, puts (codes "Request timeout for icmp_seq " ++ (digit i ∷ codes "\n")) h)
  replied t (some n, h) = (record t { received = t.received + 1 }, puts (reply_text target i n) h)

  unfoldable pub ping_sent : Tally → ℤ × Host Card → Option (Tally × Host Card)
  ping_sent t (pos zero, h) = do
    got ← ping_wait 10 0 h
    some (replied (record t { sent = t.sent + 1 }) got)
  ping_sent t (r, h) =
      some (t, puts (codes "Failed to send ICMP packet " ++ (digit i ∷ codes "\n")) h)

  unfoldable pub ping_one : Tally → Host Card → Option (Tally × Host Card)
  ping_one t h = ping_sent t (
      icmp_send_ping nic target 1234 seq
        (puts (codes "Sending REAL ICMP packet " ++ (digit i ∷ codes " via E1000...\n")) h))

module _ {Card : Type 0} (nic : Nic Card) (target : Ip) where
  -- The loop, with the packets left, from the packet numbered `i`.
  unfoldable pub ping_rounds : (left i : ℕ) → Tally → Host Card → Option (Tally × Host Card)
  ping_rounds zero i t h = some (t, h)
  ping_rounds (suc left) i t h = do r ← ping_one nic target i t h; ping_rounds left (i + 1) r.0 r.1

  -- No more replies than packets, and at most `n` packets.
  abbrev pub Tallied : ℕ → Tally × Host Card → Type 0
  Tallied n (t, h) = (t.received ≤ t.sent) × (t.sent ≤ n)

  ping_one-Tallied :
      (i n : ℕ) (t : Tally) (h : Host Card)
      → t.received ≤ t.sent
      → t.sent ≤ n
      → Always (Tallied (n + 1)) (ping_one nic target i t h)
  unfolding ping_one ping_sent
  ping_one-Tallied i n t h a b = go (icmp_send_ping nic target 1234 (i % 2 ^ 16) _)
    where
      replied-Tallied :
          (got : Option ℕ × Host Card)
          → Tallied (n + 1) (replied nic target i (record t { sent = t.sent + 1 }) got)
      replied-Tallied (none, h') = (omega (arith, a), omega (arith, b))
      replied-Tallied (some m, h') = (omega (arith, a), omega (arith, b))

      go : (x : ℤ × Host Card) → Always (Tallied (n + 1)) (ping_sent nic target i t x)
      go (pos zero, h') =
          Always-bind (Tallied (n + 1)) (ping_wait nic target i 10 0 h') _
            (λ got. replied-Tallied got)
      go (pos (suc k), h') = (a, omega (arith, b))
      go (negsuc k, h') = (a, omega (arith, b))

  -- Over any card, a ping never counts more replies than packets sent, and sends no more packets than
  -- it was asked for.
  pub ping_rounds-Tallied :
      (left i n : ℕ) (t : Tally) (h : Host Card)
      → t.received ≤ t.sent
      → t.sent ≤ n
      → Always (Tallied (n + left)) (ping_rounds left i t h)
  unfolding ping_rounds
  ping_rounds-Tallied zero i n t h a b = (a, omega (arith, b))
  ping_rounds-Tallied (suc left) i n t h a b = elim (Option-cases (ping_one nic target i t h)) [
    | inl e ↦ rw e tt
    | inr (r, e) ↦
        let (a', b') =
          of_Always (Tallied (n + 1)) (ping_one nic target i t h) r (ping_one-Tallied i n t h a b)
            e in
        let sum : (n + suc left) ≡ (n + 1 + left) = omega arith in
        rw (e, sum) (ping_rounds-Tallied left (i + 1) (n + 1) r.0 r.1 a' b')
  ]
