-- ===== src/Drivers/Pcnet/Ready.antt =====
-- The state of the PCnet driver between calls.
use pine_os.Base.{
  ℕ, zero, suc, not, ltb, leb, ◌&&◌, ◌+◌, ◌/◌, ◌%◌, ◌^◌, ◌<◌, ◌≡◌, ◌≢◌, inl, inr, refl, Bool, true,
  false, ◌||◌, Option, none, some, ◌==◌, ℤ, pos, negsuc, Bool-cases, arith,
}
use pine_os.Memory.{memory_alloc}
use pine_os.Ram.{poke}
use pine_os.Pci.{PciDevice}
use pine_os.Drivers.{Io, bar0}
use pine_os.Drivers.Pcnet.{
  Pcnet, Card, world, amd_pcnet_read_csr, max_frame, send_now, amd_pcnet_send_packet, take_packet,
  packet_ready, amd_pcnet_receive_packet,
}
use pine_os.Drivers.Pcnet.Setup.{
  Buffers, buffers_of, fill_buffers, amd_pcnet_setup_rings, go, after_rings, start,
  amd_pcnet_setup_device, set_up_found, amd_pcnet_detect_device, detected, amd_pcnet_init,
}

-- The first `n` entries of both arrays are pointers.
abbrev pub Filled : ℕ → (ℕ → ℕ) → (ℕ → ℕ) → Type 0
Filled n rx tx = (j : ℕ) → j < n → (rx j ≢ 0) × (tx j ≢ 0)

Filled-grow :
    (i r t : ℕ) (rx tx : ℕ → ℕ)
    → Filled i rx tx
    → (r == 0 || t == 0) ≡ false
    → Filled (i + 1) (poke rx i r) (poke tx i t)
unfolding poke
Filled-grow i r t rx tx f ne j lt = elim (Bool-cases (j == i)) [
  | inl y ↦ rw y (ground (arith, ne), ground (arith, ne))
  | inr n ↦ rw n (f j (ground (arith, n)))
]

fill_buffers-Filled :
    (left i : ℕ) (b : Buffers)
    → Filled i b.rx b.tx
    → (fill_buffers left i b).ok ≡ true
    → Filled (i + left) (fill_buffers left i b).rx (fill_buffers left i b).tx
unfolding fill_buffers
fill_buffers-Filled zero i b f e = λ j lt. f j (omega (arith, lt))
fill_buffers-Filled (suc left) i b f e =
    let (r, h1) = memory_alloc max_frame b.heap in
    let (t, h2) = memory_alloc max_frame h1 in
    let b' = record b { rx = poke b.rx i r; tx = poke b.tx i t; heap = h2 } in
    elim (Bool-cases (r == 0 || t == 0)) [
      | inl y ↦ absurd (cc (rw y at e))
      | inr n ↦
          let s : (fill_buffers left (i + 1) b').ok ≡ true = rw n at e in
          let all = fill_buffers-Filled left (i + 1) b' (Filled-grow i r t b.rx b.tx f n) s in
          rw n (λ j lt. all j (omega (arith, lt)))
    ]

-- A device that is in use: its cursors are indices of the arrays, whose entries are pointers.
pub record Ready (d : Pcnet) : Type 0 where
  pub on : d.initialized ≡ true
  pub rx_low : d.rx_cur < 16
  pub tx_low : d.tx_cur < 16
  pub filled : Filled 16 d.rx_buffers d.tx_buffers

-- A success comes with a device of which `P` holds.
abbrev Ok : {W : Type 0} → (Pcnet → Type 0) → ℤ × Card W → Type 0
Ok P (pos n, c) = P c.dev
Ok P (negsuc n, c) = Unit {0}

-- the state after the rings are set up
pub record Ringed (d : Pcnet) : Type 0 where
  pub rx_zero : d.rx_cur ≡ 0
  pub tx_zero : d.tx_cur ≡ 0
  pub filled : Filled 16 d.rx_buffers d.tx_buffers

module _ {W : Type 0} (io : Io W) where
  setup_rings-Ok : (c : Card W) → Ok Ringed (amd_pcnet_setup_rings io c)
  unfolding amd_pcnet_setup_rings
  setup_rings-Ok c =
      let b = buffers_of c.dev c.host.heap in
      elim (Bool-cases (fill_buffers 16 0 b).ok) [
        | inl y ↦ rw y (record {
          rx_zero = refl;
          tx_zero = refl;
          filled = fill_buffers-Filled 16 0 b (λ j lt. elim lt [ ]) y;
        })
        | inr n ↦ rw n tt
      ]

  go-Ok : (b : Bool) (c : Card W) → Ringed c.dev → Ok Ready (go io b c)
  unfolding go
  go-Ok false c r = tt
  go-Ok true c r = record {
    on = refl;
    rx_low = omega (arith, r.rx_zero);
    tx_low = omega (arith, r.tx_zero);
    filled = r.filled;
  }

  after_rings-Ok : (x : ℤ × Card W) → Ok Ringed x → Ok Ready (after_rings io x)
  unfolding after_rings
  after_rings-Ok (pos zero, c) r = go-Ok _ _ r
  after_rings-Ok (pos (suc n), c) r = tt
  after_rings-Ok (negsuc n, c) r = tt

  setup_device-Ok : (d : PciDevice) (c : Card W) → Ok Ready (amd_pcnet_setup_device io d c)
  unfolding amd_pcnet_setup_device start
  setup_device-Ok d c = elim (Bool-cases (bar0 d % 2 == 0)) [
    | inl y ↦ rw y tt
    | inr n ↦ rw n (after_rings-Ok _ (setup_rings-Ok _))
  ]

  set_up_found-Ok : (o : Option PciDevice) (c : Card W) → Ok Ready (set_up_found io o c)
  unfolding set_up_found
  set_up_found-Ok none c = tt
  set_up_found-Ok (some d) c = setup_device-Ok d _

  detected-Ok : (x : ℤ × Card W) → Ok Ready x → Ok Ready (detected io x)
  unfolding detected
  detected-Ok (pos zero, c) r = r
  detected-Ok (pos (suc n), c) r = tt
  detected-Ok (negsuc n, c) r = tt

  init-Ok : (c : Card W) → Ok Ready (amd_pcnet_init io c)
  unfolding amd_pcnet_init amd_pcnet_detect_device
  init-Ok c = detected-Ok _ (set_up_found-Ok _ _)

  send-Ready :
      (addr len : ℕ) (c : Card W) → Ready c.dev → Ready (amd_pcnet_send_packet io addr len c).1.dev
  unfolding amd_pcnet_send_packet send_now
  send-Ready addr len c r =
      elim (Bool-cases (not c.dev.initialized || ((addr == 0) || (len == 0)))) [
        | inl y ↦ rw y r
        | inr n ↦
            rw n (record { on = r.on; rx_low = r.rx_low; tx_low = omega arith; filled = r.filled })
      ]

  packet_ready-Ready :
      (buffer max_len : ℕ) (c : Card W)
      → Ready c.dev
      → Ready (packet_ready io buffer max_len c).1.dev
  unfolding packet_ready take_packet
  packet_ready-Ready buffer max_len c r =
      let n = (io.ports.inl (c.dev.io_base + 0x70) c.host.pci.world).0 % 2 ^ 16 in
      elim (Bool-cases (ltb 0 n && leb n max_len)) [
        | inl y ↦
            rw y (record { on = r.on; rx_low = omega arith; tx_low = r.tx_low; filled = r.filled })
        | inr k ↦ rw k r
      ]

  receive-Ready :
      (buffer max_len : ℕ) (c : Card W)
      → Ready c.dev
      → Ready (amd_pcnet_receive_packet io buffer max_len c).1.dev
  unfolding amd_pcnet_receive_packet
  receive-Ready buffer max_len c r =
      let (csr0, w) = amd_pcnet_read_csr io c.dev.io_base 0 (world c) in
      elim (Bool-cases (not c.dev.initialized || (buffer == 0))) [
        | inl y ↦ rw y r
        | inr n ↦ elim (Bool-cases (csr0 / 2 ^ 10 % 2 == 0)) [
          | inl z ↦ rw (n, z) r
          | inr k ↦ rw (n, k) (packet_ready-Ready buffer max_len _ r)
        ]
      ]

  of_success : (x : ℤ × Card W) → Ok Ready x → x.0 ≡ pos 0 → Ready x.1.dev
  of_success (pos n, c) r e = r
  of_success (negsuc n, c) r e = absurd (cc e)

  -- The states that a successful `amd_pcnet_init` and the calls after it lead to; the rest of the
  -- kernel may change all but the driver's own device in between.
  pub data Reach : Pcnet → Type 0 where
    init : (c : Card W) → (amd_pcnet_init io c).0 ≡ pos 0 → Reach (amd_pcnet_init io c).1.dev
    send :
        (addr len : ℕ) (c : Card W)
        → Reach c.dev
        → Reach (amd_pcnet_send_packet io addr len c).1.dev
    receive :
        (buffer max_len : ℕ) (c : Card W)
        → Reach c.dev
        → Reach (amd_pcnet_receive_packet io buffer max_len c).1.dev

  -- After an `amd_pcnet_init` that reports success, whatever is sent and received, both cursors
  -- are below 16 and the 16 buffers of either kind are not null.
  pub Reach-Ready : {d : Pcnet} → Reach d → Ready d
  Reach-Ready (init c e) = of_success (amd_pcnet_init io c) (init-Ok c) e
  Reach-Ready (send addr len c r) = send-Ready addr len c (Reach-Ready r)
  Reach-Ready (receive buffer max_len c r) = receive-Ready buffer max_len c (Reach-Ready r)
