-- ===== src/Drivers/Pcnet/Packets.antt =====
-- What a call of the PCnet driver does to the memory.
use pine_os.Base.{
  ℕ, ◌+◌, ◌-◌, ◌/◌, ◌%◌, ◌^◌, ◌≤◌, ◌<◌, ◌≡◌, ◌≢◌, ◌⊎◌, inl, inr, refl, true, false, ◌||◌, ◌&&◌, not,
  ltb, leb, ◌==◌, if◌then◌else◌, ℤ, pos, minus_one, Bool-cases, arith,
}
use pine_os.Ram.{Ram, memory_copy_lem}
use pine_os.Drivers.{Io}
use pine_os.Drivers.Pcnet.{
  Card, world, left_at, limit, amd_pcnet_read_csr, send_now, amd_pcnet_send_packet, take_packet,
  packet_ready, amd_pcnet_receive_packet,
}

-- `n` bytes from `src` stand at `dest`, and all else is as in `m`.
abbrev pub Copied : (m m' : Ram) (dest src n : ℕ) → Type 0
Copied m m' dest src n =
    (a : ℕ) → m' a ≡ (if leb dest a && ltb a (dest + n) then m (src + (a - dest)) else m a)

module _ {W : Type 0} (io : Io W) where
  -- A device in use takes any packet that is not empty: the call returns 0, the transmit buffer holds the
  -- first 1518 bytes of the packet, no other byte is changed, and the next buffer is the next one of 16.
  amd_pcnet_send_packet-Copied :
      (addr len : ℕ) (c : Card W)
      → c.dev.initialized ≡ true
      → addr ≢ 0
      → len ≢ 0
      → let buffer = c.dev.tx_buffers c.dev.tx_cur in
        (buffer ≤ addr) ⊎ (addr + limit len ≤ buffer)
        → let (r, c') = amd_pcnet_send_packet io addr len c in
          (r ≡ pos 0)
          × Copied c.host.ram c'.host.ram (c.dev.tx_buffers c.dev.tx_cur) addr (limit len)
          × (c'.dev.tx_cur ≡ (c.dev.tx_cur + 1) % 16)
  unfolding amd_pcnet_send_packet send_now
  amd_pcnet_send_packet-Copied addr len c on a b apart =
      let x : (addr == 0) ≡ false = ground (arith, a) in
      let y : (len == 0) ≡ false = ground (arith, b) in
      rw (on, x, y)
        (
          refl,
          (λ p.
              memory_copy_lem c.host.ram (c.dev.tx_buffers c.dev.tx_cur) addr (limit len) p apart),
          refl,
        )

  -- What a receive leaves: no packet and the memory as it was, or one of at most `max_len` bytes.
  abbrev pub Received : (buffer max_len : ℕ) → Card W → ℤ × Card W → Type 0
  Received buffer max_len c x =
      ((x.0 ≡ minus_one) × (x.1.host.ram ≡ c.host.ram) × (x.1.dev.rx_cur ≡ c.dev.rx_cur))
      ⊎ ((n : ℕ) × (x.0 ≡ pos n)
          × (0 < n)
          × (n ≤ max_len)
          × Copied c.host.ram x.1.host.ram buffer (c.dev.rx_buffers c.dev.rx_cur) n
          × (x.1.dev.rx_cur ≡ (c.dev.rx_cur + 1) % 16))

  packet_ready-Received :
      (buffer max_len : ℕ) (c : Card W)
      → let src = c.dev.rx_buffers c.dev.rx_cur in
        (buffer ≤ src) ⊎ (src + max_len ≤ buffer)
        → Received buffer max_len c (packet_ready io buffer max_len c)
  unfolding packet_ready take_packet
  packet_ready-Received buffer max_len c apart =
      let src = c.dev.rx_buffers c.dev.rx_cur in
      let n = (io.ports.inl (c.dev.io_base + 0x70) c.host.pci.world).0 % 2 ^ 16 in
      elim (Bool-cases (ltb 0 n && leb n max_len)) [
        | inl y ↦
            let near : (buffer ≤ src) ⊎ (src + n ≤ buffer) = ground (arith, y, apart) in
            rw y (
              inr (
                n,
                refl,
                ground (arith, y),
                ground (arith, y),
                (λ p. memory_copy_lem c.host.ram buffer src n p near),
                refl,
              ))
        | inr k ↦ rw k (inl (refl, refl, refl))
      ]

  -- Whatever the hardware answers, a receive either returns -1 and changes no byte of memory, or it returns
  -- a length from 1 to `max_len`, that many bytes of the current buffer are in the caller's, no other byte is
  -- changed, and the next buffer is the next one of 16. The two buffers must not overlap in the wrong order.
  pub amd_pcnet_receive_packet-Received :
      (buffer max_len : ℕ) (c : Card W)
      → (buffer ≤ c.dev.rx_buffers c.dev.rx_cur)
        ⊎ (c.dev.rx_buffers c.dev.rx_cur + max_len ≤ buffer)
      → Received buffer max_len c (amd_pcnet_receive_packet io buffer max_len c)
  unfolding amd_pcnet_receive_packet
  amd_pcnet_receive_packet-Received buffer max_len c apart =
      let (csr0, w) = amd_pcnet_read_csr io c.dev.io_base 0 (world c) in
      elim (Bool-cases (not c.dev.initialized || (buffer == 0))) [
        | inl y ↦ rw y (inl (refl, refl, refl))
        | inr n ↦ elim (Bool-cases (csr0 / 2 ^ 10 % 2 == 0)) [
          | inl z ↦ rw (n, z) (inl (refl, refl, refl))
          | inr k ↦ rw (n, k) (packet_ready-Received buffer max_len (left_at c w) apart)
        ]
      ]
