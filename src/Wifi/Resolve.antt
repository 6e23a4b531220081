-- ===== src/Wifi/Resolve.antt =====
-- `network_real_dhcp`, `network_dns_resolve`, `network_real_ping` and `ping` of kernel/network.c.
use pine_os.Base.{
  ℕ, zero, ◌+◌, ◌≤◌, ◌≡◌, refl, Option, none, some, List, ◌++◌, ◌==◌, if◌then◌else◌, ℤ, pos,
  minus_one, inl, inr, not, Bool-cases, arith,
}
use pine_os.Base.Bind.{◌>>=◌}
use pine_os.Base.Always.{Always, of_Always, Always-bind}
use pine_os.CString.{Text}
use pine_os.Machine.{codes}
use pine_os.Network.{Ip, ip_from_string, ip_to_string}
use pine_os.Network.Table.{Iface, has_ip, state_up, get_interface}
use pine_os.Netstack.Link.{Nic, Host, puts, netstack_init}
use pine_os.Netstack.Dns.{dns_query}
use pine_os.Netstack.Dhcp.{dhcp_client_start}
use pine_os.Wifi.{Station, wlan0, state_connected, say, host_of, with_host, after_dhcp}
use pine_os.Wifi.Ping.{eth0, Tally, statistics, ping_rounds, Tallied, ping_rounds-Tallied}

-- an interface of this name that is in this state
abbrev pub usable : ℕ → Option Iface → Option Iface
usable state none = none
usable state (some i) = if i.state == state then some i else none

abbrev pub first_of : {A : Type 0} → Option A → Option A → Option A
first_of none o = o
first_of (some a) o = some a

-- `wlan0` if it is connected, else `eth0` if it is up
abbrev pub active_interface : List Iface → Option Iface
active_interface l =
    first_of (usable state_connected (get_interface wlan0 l))
      (usable state_up (get_interface eth0 l))

abbrev pub resolved :
    {W Card : Type 0}
    → Text
    → Station W Card
    → ℤ × Option Ip × Host Card
    → ℤ × Option Ip × Station W Card
resolved name s (r, x, h) = (r, x, with_host name h s)

-- What `network_real_ping` goes on with: an address, or nothing.
abbrev pub address_of :
    {W Card : Type 0} → ℤ × Option Ip × Station W Card → Option Ip × Station W Card
address_of (pos zero, x, s) = (x, s)
address_of (r, x, s) = (none, s)

module _ {W Card : Type 0} (nics : Text → Nic Card) where
  abbrev pub real_dhcp : Text → Option Iface → Station W Card → Option (ℤ × Station W Card)
  real_dhcp name none s = some (minus_one, say (codes "Error: Interface not found\n") s)
  real_dhcp name (some i) s = after_dhcp name s (
      dhcp_client_start (nics name) (
        netstack_init
          (puts (codes "Starting real DHCP client with network stack...\n") (host_of i s))))

  unfoldable pub network_real_dhcp : Text → Station W Card → Option (ℤ × Station W Card)
  network_real_dhcp name s = real_dhcp name (get_interface name s.ifaces) s

  unfoldable pub resolve_on :
      Text → Option Iface → Station W Card → Option (ℤ × Option Ip × Station W Card)
  resolve_on hostname none s =
      some (minus_one, none, say (codes "Error: No active network interface found\n") s)
  resolve_on hostname (some i) s = do
    answer ← dns_query (nics i.name) hostname (host_of i s)
    some (resolved i.name s answer)

  -- `none` is a write past the end of the query's buffer.
  unfoldable pub network_dns_resolve :
      Text → Station W Card → Option (ℤ × Option Ip × Station W Card)
  network_dns_resolve hostname s =
      resolve_on hostname (active_interface s.ifaces)
        (say (codes "Resolving hostname: " ++ (hostname ++ codes "\n")) s)

  -- The address of the target, and the name resolution that is tried first if it is not one.
  unfoldable pub target_of : Text → Option Ip → Station W Card → Option (Option Ip × Station W Card)
  target_of target (some x) s = some (some x, s)
  target_of target none s = do r ← network_dns_resolve target s; some (address_of r)

  abbrev pub finished : Text → Station W Card → Tally × Host Card → ℤ × Station W Card
  finished target s (t, h) = (pos 0, say (statistics target t) (with_host eth0 h s))

  unfoldable pub ping_from :
      Text → ℕ → Ip → Option Iface → Station W Card → Option (ℤ × Station W Card)
  ping_from target count x none s = some (minus_one, say (codes "Error: eth0 interface not UP\n") s)
  ping_from target count x (some i) s =
      if not (has_ip i.ip_addr)
      then some
          (minus_one, say (codes "Error: Interface has no IP address. Run 'dhcp eth0' first.\n") s)
      else (do
        r ←
            ping_rounds (nics eth0) x count 0 (record { sent = 0; received = 0 })
              (puts
                (codes "PING "
                  ++ (ip_to_string x ++ (codes " from " ++ (ip_to_string i.ip_addr ++ codes "\n"))))
                (host_of i s))
        some (finished target s r))

  unfoldable pub ping_target : Text → ℕ → Option Ip × Station W Card → Option (ℤ × Station W Card)
  ping_target target count (none, s) =
      some (minus_one, say (codes "Error: Could not resolve hostname\n") s)
  ping_target target count (some x, s) =
      ping_from target count x (usable state_up (get_interface eth0 s.ifaces)) s

  -- `count` is the number of rounds; none are run for a negative one.
  unfoldable pub network_real_ping : Text → ℕ → Station W Card → Option (ℤ × Station W Card)
  network_real_ping target count s = do
    r ←
        target_of target (ip_from_string target)
          (say (codes "PING " ++ (target ++ codes " via REAL E1000 hardware\n")) s)
    ping_target target count r

  abbrev pub ping : Text → ℕ → Station W Card → Option (ℤ × Station W Card)
  ping = network_real_ping

  -- If the result is 0, the last thing printed is the statistics of a tally that counts.
  abbrev pub Counts : Text → ℕ → ℤ × Station W Card → Type 0
  Counts target count (r, s) =
      (r ≡ pos 0)
      → (t : Tally) × (before : Text) × (s.pci.console ≡ before ++ statistics target t)
        × (t.received ≤ t.sent)
        × (t.sent ≤ count)

  ping_target-Counts :
      (target : Text) (count : ℕ) (x : Option Ip × Station W Card)
      → Always (Counts target count) (ping_target target count x)
  unfolding ping_target ping_from
  ping_target-Counts target count (none, s) = λ q. absurd (cc q)
  ping_target-Counts target count (some x, s) = go (usable state_up (get_interface eth0 s.ifaces))
    where
      done :
          (r : Tally × Host Card)
          → (r.0.received ≤ r.0.sent) × (r.0.sent ≤ 0 + count)
          → Counts target count (finished target s r)
      done (t, h) (a, b) = λ _. (t, h.console, refl, a, omega (arith, b))

      bound :
          (m : Option (Tally × Host Card))
          → Always (Tallied (nics eth0) x (0 + count)) m
          → Always (Counts target count) (do r ← m; some (finished target s r))
      bound none a = tt
      bound (some r) a = done r a

      go : (o : Option Iface) → Always (Counts target count) (ping_from target count x o s)
      go none = λ q. absurd (cc q)
      go (some i) = elim (Bool-cases (has_ip i.ip_addr)) [
        | inl y ↦ rw y (
            bound _ (
              ping_rounds-Tallied (nics eth0) x count 0 0 (record { sent = 0; received = 0 }) _
                (omega arith) (omega arith)))
        | inr n ↦ rw n (λ q. absurd (cc q))
      ]

  -- Over any card: if a ping returns 0, it ends with printing the statistics of at most `count`
  -- packets sent and no more replies than packets sent.
  pub network_real_ping-Counts :
      (target : Text) (count : ℕ) (s s' : Station W Card)
      → network_real_ping target count s ≡ some (pos 0, s')
      → (t : Tally) × (before : Text) × (s'.pci.console ≡ before ++ statistics target t)
        × (t.received ≤ t.sent)
        × (t.sent ≤ count)
  unfolding network_real_ping
  network_real_ping-Counts target count s s' e =
      of_Always (Counts target count) (network_real_ping target count s) (pos 0, s')
        (Always-bind (Counts target count) (target_of target (ip_from_string target) _) _
          (λ x. ping_target-Counts target count x))
        e refl
