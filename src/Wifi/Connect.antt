-- ===== src/Wifi/Connect.antt =====
-- A WiFi connection and its end: `wifi_connect` and `wifi_disconnect` of kernel/network.c.
use pine_os.Base.{
  ℕ, ◌≡◌, refl, sym, ap, ◌∙◌, true, false, Option, none, some, List, [], ◌∷◌, ◌++◌, ◌==◌, ℤ, pos,
  minus_one, Bool-cases, Option-cases, inl, inr, subst, some-injective, some-injective,
}
use pine_os.Base.Always.{Always, of_Always}
use pine_os.CString.{Text}
use pine_os.Machine.{codes}
use pine_os.Filesystem.Paths.{same_text}
use pine_os.Network.Table.{Iface, Net, state_up, get_interface, set_interface, interface_up}
use pine_os.Network.Interfaces.{get-set}
use pine_os.Netstack.Link.{Nic, Host}
use pine_os.Netstack.Dhcp.{dhcp_client_start}
use pine_os.Netstack.Kept.{Leaves, dhcp_client_start-Kept}
use pine_os.Wifi.{
  Network, Station, wlan0, state_connected, state_connecting, say, host_of, disconnect,
  wifi_disconnect, after_dhcp, joined, start_dhcp, network_start_dhcp, join, has_password,
  connect_to, wifi_connect,
}

found-named :
    (name : Text) (l : List Iface) (i : Iface)
    → get_interface name l ≡ some i
    → same_text i.name name ≡ true
unfolding get_interface
found-named name [] i e = absurd (cc e)
found-named name (j ∷ l) i e = elim (Bool-cases (same_text j.name name)) [
  | inl y ↦
      let s : some j ≡ some i = rw y at e in
      subst (λ (k : Iface). same_text k.name name ≡ true) (some-injective j i s) y
  | inr n ↦ found-named name l i (rw n at e)
]

get-replaced :
    (name : Text) (l : List Iface) (i k : Iface)
    → get_interface name l ≡ some i
    → same_text k.name name ≡ true
    → get_interface name (set_interface name (λ _. k) l) ≡ some k
unfolding get_interface set_interface
get-replaced name [] i k e h = absurd (cc e)
get-replaced name (j ∷ l) i k e h = elim (Bool-cases (same_text j.name name)) [
  | inl y ↦ rw (y, h) refl
  | inr n ↦ rw (n, n) (get-replaced name l i k (rw n at e) h)
]

interface_up-get :
    (name : Text) (n : Net) (i : Iface)
    → get_interface name n.ifaces ≡ some i
    → get_interface name (interface_up name n).1.ifaces ≡ some (record i { state = state_up })
unfolding interface_up
interface_up-get name n i e =
    rw (e, interface_up)
      (get-set name (λ j. record j { state = state_up }) n.ifaces i (λ j. refl) e)

module _ {W Card : Type 0} where
  -- `wlan0` is there and its state is UP.
  abbrev pub IsUp : Station W Card → Type 0
  IsUp s = (i : Iface) × (get_interface wlan0 s.ifaces ≡ some i) × (i.state ≡ state_up)

  abbrev EndsUp : ℤ × Station W Card → Type 0
  EndsUp (r, s) = (r ≡ pos 0) → IsUp s

  after_dhcp-IsUp :
      (s : Station W Card) (i : Iface) (o : Option (ℤ × Host Card))
      → get_interface wlan0 s.ifaces ≡ some i
      → i.state ≡ state_up
      → Always (Leaves i) o
      → Always (λ x. IsUp x.1) (after_dhcp wlan0 s o)
  after_dhcp-IsUp s i none e up k = tt
  after_dhcp-IsUp s i (some (r, h)) e up k = (
    h.iface,
    get-replaced wlan0 s.ifaces i h.iface e (
        subst (λ (t : Text). same_text t wlan0 ≡ true) (sym k.name)
          (found-named wlan0 s.ifaces i e)),
    k.state ∙ up,
  )

  joined-EndsUp :
      (o : Option (ℤ × Station W Card)) → Always (λ x. IsUp x.1) o → Always EndsUp (joined o)
  joined-EndsUp none u = tt
  joined-EndsUp (some (r, s)) u = λ _. u

  -- A station with `wlan0` up has it still up when the DHCP client is done.
  module _ (nics : Text → Nic Card) where
    start-IsUp :
        (s : Station W Card) → IsUp s → Always (λ x. IsUp x.1) (network_start_dhcp nics wlan0 s)
    unfolding network_start_dhcp start_dhcp
    start-IsUp s (i, e, up) =
        let test : (i.state == state_up) ≡ true = ap (λ (n : ℕ). n == 1) up in
        let s' = say (codes "Starting REAL DHCP client on " ++ (wlan0 ++ codes "...\n")) s in
        subst (λ (o : Option Iface). Always (λ x. IsUp x.1) (start_dhcp nics wlan0 o s)) (sym e)
          (rw test (
            after_dhcp-IsUp s' i (dhcp_client_start (nics wlan0) (host_of i s')) e up (
              dhcp_client_start-Kept i (nics wlan0) (host_of i s')
                (record { name = refl; state = refl }))))

    join-EndsUp :
        (ssid : Text) (n : Network) (s : Station W Card) (i : Iface)
        → get_interface wlan0 s.ifaces ≡ some i
        → Always EndsUp (join nics ssid n s)
    unfolding join
    join-EndsUp ssid n s i e =
        let a =
          get-set wlan0 (λ j. record j { state = state_connected }) s.ifaces i (λ j. refl) e in
        joined-EndsUp (network_start_dhcp nics wlan0 _)
          (start-IsUp _ (_, interface_up-get wlan0 _ _ a, refl))

    connect_to-EndsUp :
        (ssid : Text) (password : Option Text) (o : Option Network) (s : Station W Card) (i : Iface)
        → get_interface wlan0 s.ifaces ≡ some i
        → Always EndsUp (connect_to nics ssid password o s)
    unfolding connect_to
    connect_to-EndsUp ssid password none s i e = λ q. absurd (cc q)
    connect_to-EndsUp ssid password (some n) s i e =
        let a =
          get-set wlan0 (λ j. record j { state = state_connecting }) s.ifaces i (λ j. refl) e in
        elim (Bool-cases (n.security == 0)) [
          | inl y ↦ rw y (join-EndsUp ssid n _ _ a)
          | inr k ↦ elim (Bool-cases (has_password password)) [
            | inl y ↦ rw (k, y) (join-EndsUp ssid n _ _ a)
            | inr m ↦ rw (k, m) (λ q. absurd (cc q))
          ]
        ]

    connect-EndsUp :
        (ssid : Text) (password : Option Text) (s : Station W Card)
        → Always EndsUp (wifi_connect nics ssid password s)
    unfolding wifi_connect
    connect-EndsUp ssid password s = elim (Option-cases (get_interface wlan0 s.ifaces)) [
      | inl e ↦ rw (e, wifi_connect) (λ q. absurd (cc q))
      | inr (i, e) ↦ rw (e, wifi_connect) (connect_to-EndsUp ssid password _ s i e)
    ]

    -- Whatever the card does, a connection that `wifi_connect` reports as successful cannot be ended:
    -- `wlan0` is UP and not CONNECTED afterwards, and `wifi_disconnect` returns -1 and only prints.
    pub wifi_disconnect-wifi_connect :
        (ssid : Text) (password : Option Text) (s s' : Station W Card)
        → wifi_connect nics ssid password s ≡ some (pos 0, s')
        → IsUp s' × (wifi_disconnect s' ≡ (minus_one, say (codes "WiFi is not connected\n") s'))
    unfolding wifi_disconnect disconnect
    wifi_disconnect-wifi_connect ssid password s s' e =
        let (i, g, up) =
          of_Always EndsUp (wifi_connect nics ssid password s) (pos 0, s')
            (connect-EndsUp ssid password s) e refl in
        let test : (i.state == state_connected) ≡ false = ap (λ (n : ℕ). n == 3) up in
        ((i, g, up), ap (λ (o : Option Iface). disconnect o s') g ∙ rw test refl)
