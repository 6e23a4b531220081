-- ===== src/Drivers/E1000/Room.antt =====
-- The buffers of the E1000 driver do not fit into the kernel's heap.
use pine_os.Base.{
  ℕ, zero, suc, ◌+◌, ◌*◌, ◌%◌, ◌≤◌, ◌<◌, ◌≡◌, refl, true, false, inl, inr, Bool-cases, arith, ◌==◌,
  ℤ, pos, negsuc, minus_one, Option, none, some,
}
use pine_os.Memory.{Heap, memory_alloc}
use pine_os.Memory.Inv.{IsValid}
use pine_os.Memory.Alloc.{memory_alloc-IsValid}
use pine_os.Memory.Usage.{in_use-le, memory_alloc-in_use}
use pine_os.Ram.{poke}
use pine_os.Pci.{PciDevice}
use pine_os.Pci.Listing.{pci_list_devices}
use pine_os.Drivers.{Io, bar0, enable}
use pine_os.Drivers.E1000.{
  Ring, ring_of, Card, buffer_size, ring_size, fill_ring, put_desc, e1000_read_reg, e1000_write_reg,
  e1000_read_mac_address, start_rx, start_tx, finish_rx, finish_tx, e1000_setup_rx, e1000_setup_tx,
}
use pine_os.Drivers.E1000.Setup.{
  after_tx, after_rx, start, e1000_setup_device, set_up_found, find_card, e1000_detect_device,
  detected, e1000_init, get_e1000_device,
}

-- A heap that is valid and has at least `n` bytes in use.
pub record Uses (n : ℕ) (h : Heap) : Type 0 where
  pub valid : IsValid h
  pub least : n ≤ h.in_use

alloc-Uses :
    (n size : ℕ) (h : Heap)
    → Uses n h
    → size < 0x1000_0000
    → ((memory_alloc size h).0 == 0) ≡ false
    → Uses (n + size) (memory_alloc size h).1
alloc-Uses n size h u small got = record {
  valid = memory_alloc-IsValid size h u.valid;
  least = omega (arith, u.least, memory_alloc-in_use size h u.valid small (ground (arith, got)));
}

-- The loop over the descriptors keeps the heap valid, and if it does not return early it has taken
-- 2048 bytes for each of them.
fill_ring-Uses :
    (left i descs status n : ℕ) (r : Ring)
    → Uses n r.heap
    → let r' = fill_ring left i descs status r in
      IsValid r'.heap × ((r'.ok ≡ true) → Uses (n + left * buffer_size) r'.heap)
unfolding fill_ring
fill_ring-Uses zero i descs status n r u =
    (u.valid, λ _. record { valid = u.valid; least = omega (arith, u.least) })
fill_ring-Uses (suc left) i descs status n r u =
    let (p, h) = memory_alloc buffer_size r.heap in
    elim (Bool-cases (p == 0)) [
      | inl y ↦ rw y (memory_alloc-IsValid buffer_size r.heap u.valid, λ e. absurd (cc e))
      | inr k ↦
          let next = record r {
            buffers = poke r.buffers i p;
            heap = h;
            ram = put_desc (descs + 16 * i) p status r.ram;
          } in
          let (v, all) =
            fill_ring-Uses left (i + 1) descs status (n + buffer_size) next
              (alloc-Uses n buffer_size r.heap u (omega arith) k) in
          rw k (v, λ e. let w = all e in record { valid = w.valid; least = omega (arith, w.least) })
    ]

-- what one of the two setups takes: its descriptors and its buffers
abbrev pub share : ℕ
share = ring_size + 256 * buffer_size

more : (n : ℕ) (h : Heap) → Uses (n + ring_size + 256 * buffer_size) h → Uses (n + share) h
more n h u = record { valid = u.valid; least = omega (arith, u.least) }

-- A setup keeps the heap valid, and one that succeeds has taken its share;
-- neither marks the device as ready.
abbrev Took : {W : Type 0} → ℕ → ℤ × Card W → Type 0
Took n (r, c) =
    IsValid c.host.heap × ((r ≡ pos 0) → Uses (n + share) c.host.heap) × (c.dev.initialized ≡ false)

module _ {W : Type 0} (io : Io W) where
  finish_rx-Took :
      (n : ℕ) (r : Ring) (c : Card W)
      → IsValid r.heap
      → ((r.ok ≡ true) → Uses (n + share) r.heap)
      → c.dev.initialized ≡ false
      → Took n (finish_rx io r c)
  unfolding finish_rx start_rx e1000_write_reg
  finish_rx-Took n r c v all off = elim (Bool-cases r.ok) [
    | inl y ↦ rw y (v, (λ _. all y), off)
    | inr f ↦ rw f (v, (λ e. absurd (cc e)), off)
  ]

  e1000_setup_rx-Took :
      (n : ℕ) (c : Card W)
      → Uses n c.host.heap
      → c.dev.initialized ≡ false
      → Took n (e1000_setup_rx io c)
  unfolding e1000_setup_rx
  e1000_setup_rx-Took n c u off =
      let (p, h) = memory_alloc ring_size c.host.heap in
      elim (Bool-cases (p == 0)) [
        | inl y ↦
            rw y (memory_alloc-IsValid ring_size c.host.heap u.valid, (λ e. absurd (cc e)), off)
        | inr f ↦
            let start = ring_of c.dev.rx_buffers h c.host.ram in
            let (v, all) =
              fill_ring-Uses 256 0 p 0 (n + ring_size) start
                (alloc-Uses n ring_size c.host.heap u (omega arith) f) in
            rw f (finish_rx-Took n (fill_ring 256 0 p 0 start) _ v (λ e. more n _ (all e)) off)
      ]

  finish_tx-Took :
      (n : ℕ) (r : Ring) (c : Card W)
      → IsValid r.heap
      → ((r.ok ≡ true) → Uses (n + share) r.heap)
      → c.dev.initialized ≡ false
      → Took n (finish_tx io r c)
  unfolding finish_tx start_tx e1000_write_reg
  finish_tx-Took n r c v all off = elim (Bool-cases r.ok) [
    | inl y ↦ rw y (v, (λ _. all y), off)
    | inr f ↦ rw f (v, (λ e. absurd (cc e)), off)
  ]

  e1000_setup_tx-Took :
      (n : ℕ) (c : Card W)
      → Uses n c.host.heap
      → c.dev.initialized ≡ false
      → Took n (e1000_setup_tx io c)
  unfolding e1000_setup_tx
  e1000_setup_tx-Took n c u off =
      let (p, h) = memory_alloc ring_size c.host.heap in
      elim (Bool-cases (p == 0)) [
        | inl y ↦
            rw y (memory_alloc-IsValid ring_size c.host.heap u.valid, (λ e. absurd (cc e)), off)
        | inr f ↦
            let start = ring_of c.dev.tx_buffers h c.host.ram in
            let (v, all) =
              fill_ring-Uses 256 0 p 1 (n + ring_size) start
                (alloc-Uses n ring_size c.host.heap u (omega arith) f) in
            rw f (finish_tx-Took n (fill_ring 256 0 p 1 start) _ v (λ e. more n _ (all e)) off)
      ]

  -- What a call of the driver that did not succeed leaves.
  abbrev pub Failed : ℤ × Card W → Type 0
  Failed x = (x.0 ≡ minus_one) × (get_e1000_device x.1 ≡ none) × IsValid x.1.host.heap

  after_tx-Failed : (x : ℤ × Card W) → Took share x → Failed (after_tx io x)
  unfolding after_tx
  after_tx-Failed (pos zero, c) t =
      absurd (omega (arith, (t.1 refl).least, in_use-le c.host.heap t.0))
  after_tx-Failed (pos (suc n), c) t = (refl, rw t.2 refl, t.0)
  after_tx-Failed (negsuc n, c) t = (refl, rw t.2 refl, t.0)

  after_rx-Failed : (x : ℤ × Card W) → Took 0 x → Failed (after_rx io x)
  unfolding after_rx
  after_rx-Failed (pos zero, c) t =
      let u = t.1 refl in
      after_tx-Failed (e1000_setup_tx io c) (
        e1000_setup_tx-Took share c (record { valid = u.valid; least = omega (arith, u.least) })
          t.2)
  after_rx-Failed (pos (suc n), c) t = (refl, rw t.2 refl, t.0)
  after_rx-Failed (negsuc n, c) t = (refl, rw t.2 refl, t.0)

  start-Failed :
      (d : PciDevice) (c : Card W)
      → IsValid c.host.heap
      → c.dev.initialized ≡ false
      → Failed (start io d c)
  unfolding start e1000_read_mac_address e1000_read_reg e1000_write_reg enable
  start-Failed d c v off =
      after_rx-Failed _ (e1000_setup_rx-Took 0 _ (record { valid = v; least = omega arith }) off)

  e1000_setup_device-Failed :
      (d : PciDevice) (c : Card W)
      → IsValid c.host.heap
      → c.dev.initialized ≡ false
      → Failed (e1000_setup_device io d c)
  unfolding e1000_setup_device
  e1000_setup_device-Failed d c v off = elim (Bool-cases (bar0 d % 2 == 0)) [
    | inl y ↦ rw y (start-Failed d _ v off)
    | inr n ↦ rw n (refl, rw off refl, v)
  ]

  set_up_found-Failed :
      (o : Option PciDevice) (c : Card W)
      → IsValid c.host.heap
      → c.dev.initialized ≡ false
      → Failed (set_up_found io o c)
  unfolding set_up_found pci_list_devices
  set_up_found-Failed none c v off = (refl, rw off refl, v)
  set_up_found-Failed (some d) c v off = e1000_setup_device-Failed d _ v off

  detected-Failed : (x : ℤ × Card W) → Failed x → Failed (detected io x)
  detected-Failed (pos n, c) f = absurd (cc f.0)
  detected-Failed (negsuc n, c) f = (refl, f.1, f.2)

  -- From a valid heap, whatever cards the table lists and whatever the hardware answers,
  -- `e1000_init` returns -1, the driver has no device afterwards, and the heap is valid: the two sets
  -- of buffers need more memory than the allocator manages.
  pub e1000_init-Failed : (c : Card W) → IsValid c.host.heap → Failed (e1000_init io c)
  unfolding e1000_init e1000_detect_device
  e1000_init-Failed c v =
      detected-Failed _ (set_up_found-Failed (find_card c.host.pci.devices).0 _ v refl)
