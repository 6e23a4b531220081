-- ===== src/Drivers/E1000/Packets.antt =====
-- Sending and receiving with an E1000 card: the last functions of kernel/e1000.c. Between two reads
-- of a descriptor the card may act on the memory; what it does is a parameter.
use pine_os.Base.{
  le16, ℕ, zero, suc, ◌+◌, ◌*◌, ◌%◌, ◌^◌, Bool, ◌||◌, not, Option, none, some, ◌++◌, ltb, ◌==◌,
  if◌then◌else◌, ℤ, pos, minus_one,
}
use pine_os.Machine.{codes}
use pine_os.Ram.{Ram, poke, memory_copy, put_bytes}
use pine_os.Drivers.{Io, three_digits}
use pine_os.Drivers.E1000.{Card, e1000_write_reg, tell}

-- `cmd` and `status` of the descriptor at `p` are its bytes 11 and 12.
abbrev pub done : Ram → ℕ → Bool
done m p = not (m (p + 12) % 2 == 0)

abbrev pub limit : ℕ → ℕ
limit len = if ltb 1500 len then 1500 else len

-- The descriptor at `p` gets the length, the flags and the status. The flags, 0x01000000 and
-- 0x08000000, are cut to the 8 bits of `cmd`.
abbrev pub put_tx : ℕ → ℕ → Ram → Ram
put_tx p len m =
    poke (poke (put_bytes m (p + 8) (le16 len)) (p + 11) ((0x100_0000 + 0x800_0000) % 256)) (p + 12)
      0

abbrev pub tx_desc : {W : Type 0} → Card W → ℕ
tx_desc c = c.dev.tx_descs + 16 * c.dev.tx_cur

abbrev pub next : ℕ → ℕ
next i = (i + 1) % 256

abbrev pub rx_desc : {W : Type 0} → Card W → ℕ
rx_desc c = c.dev.rx_descs + 16 * c.dev.rx_cur

-- `desc->length`, at most `max_len`
abbrev pub rx_len : {W : Type 0} → ℕ → Card W → ℕ
rx_len max_len c =
    let n = c.host.ram (rx_desc c + 8) + c.host.ram (rx_desc c + 9) * 2 ^ 8 in
    if ltb max_len n then max_len else n

module _ {W : Type 0} (act : W → Ram → W × Ram) where
  abbrev pub after_act : Card W → Card W
  after_act c =
      let (w, m) = act c.host.pci.world c.host.ram in
      record c { host = record c.host { pci = record c.host.pci { world = w }; ram = m } }

  -- `while (!(desc->status & E1000_TXD_STAT_DD))`; `none` is a wait that is not over.
  unfoldable pub wait_done : ℕ → ℕ → Card W → Option (Card W)
  wait_done zero p c = none
  wait_done (suc f) p c =
      let rest = wait_done f p (after_act c) in if done c.host.ram p then some c else rest

module _ {W : Type 0} (io : Io W) where
  unfoldable pub queue : (addr len : ℕ) → Card W → ℤ × Card W
  queue addr len c =
      let m = memory_copy c.host.ram (c.dev.tx_buffers c.dev.tx_cur) addr (limit len) in
      let c1 = record c {
        dev = record c.dev { tx_cur = next c.dev.tx_cur };
        host = record c.host { ram = put_tx (tx_desc c) (limit len) m };
      } in
      (pos 0, e1000_write_reg io 0x3818 (next c.dev.tx_cur) c1)

  unfoldable pub take_packet : (buffer max_len : ℕ) → Card W → ℤ × Card W
  take_packet buffer max_len c =
      let n = rx_len max_len c in
      let m = memory_copy c.host.ram buffer (c.dev.rx_buffers c.dev.rx_cur) n in
      let c1 =
        e1000_write_reg io 0x2818 c.dev.rx_cur
          (record c { host = record c.host { ram = poke m (rx_desc c + 12) 0 } }) in
      (pos n, record c1 { dev = record c1.dev { rx_cur = next c.dev.rx_cur } })

  unfoldable pub e1000_receive_packet : (buffer max_len : ℕ) → Card W → ℤ × Card W
  e1000_receive_packet buffer max_len c =
      if not c.dev.initialized || (buffer == 0)
      then (minus_one, c)
      else if done c.host.ram (rx_desc c)
      then take_packet buffer max_len c
      else (minus_one, c)

  abbrev pub queued : (addr len : ℕ) → Option (Card W) → Option (ℤ × Card W)
  queued addr len none = none
  queued addr len (some c) = some (queue addr len c)

  abbrev pub announced : ℕ → Card W → Card W
  announced len c =
      tell io (codes "Sending packet via E1000 (" ++ (three_digits len ++ codes " bytes)\n")) c

module _ {W : Type 0} (io : Io W) (act : W → Ram → W × Ram) where
  unfoldable pub e1000_send_packet : ℕ → (addr len : ℕ) → Card W → Option (ℤ × Card W)
  e1000_send_packet fuel addr len c =
      if not c.dev.initialized || ((addr == 0) || (len == 0))
      then some (minus_one, c)
      else queued io addr len (wait_done act fuel (tx_desc c) (announced io len c))
