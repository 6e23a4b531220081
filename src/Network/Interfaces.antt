-- ===== src/Network/Interfaces.antt =====
-- Static configuration of an interface.
use pine_os.Base.{
  ◌≡◌, refl, Option, none, some, List, [], ◌∷◌, pos, minus_one, Bool-cases, ◌++◌, inl, inr, arith,
}
use pine_os.CString.{Text}
use pine_os.Machine.{codes}
use pine_os.Filesystem.Paths.{same_text}
use pine_os.Network.{Ip, ip_from_string, ip_to_string}
use pine_os.Network.Table.{
  Iface, Net, get_interface, set_interface, change, dhcp_idle, set_static_ip, set_address, set_mask,
  set_gateway, write,
}
use pine_os.Network.Address.{IsIp, ip_from_string-ip_to_string}

pub get-set :
    (name : Text) (f : Iface → Iface) (l : List Iface) (i : Iface)
    → ((j : Iface) → (f j).name ≡ j.name)
    → get_interface name l ≡ some i
    → get_interface name (set_interface name f l) ≡ some (f i)
unfolding get_interface set_interface
get-set name f [] i same e = absurd (ground arith)
get-set name f (j ∷ l) i same e = elim (Bool-cases (same_text j.name name)) [
  | inl h ↦ ground (arith, same j)
  | inr h ↦ ground (arith, get-set name f l i same)
]

-- A static configuration with printed addresses, of an interface that exists, succeeds; afterwards
-- the interface has those addresses and its DHCP client is idle, and all else about it is as before.
set_static_ip-get_interface :
    (name : Text) (addr mask gate : Ip) (s : Net) (i : Iface)
    → get_interface name s.ifaces ≡ some i
    → IsIp addr
    → IsIp mask
    → IsIp gate
    → (s' : Net) × (set_static_ip name
          (ip_to_string addr)
          (ip_to_string mask)
          (some (ip_to_string gate))
          s
        ≡ (pos 0, s'))
      × (get_interface name s'.ifaces
          ≡ some (record i {
            ip_addr = addr;
            subnet_mask = mask;
            gateway = gate;
            dhcp_state = dhcp_idle;
          }))
unfolding set_static_ip set_address set_mask set_gateway
set_static_ip-get_interface name addr mask gate s i e ha hm hg = (
  idle (gated (masked (addressed s))),
  rw
      (
        e,
        ip_from_string-ip_to_string addr ha,
        ip_from_string-ip_to_string mask hm,
        ip_from_string-ip_to_string gate hg,
        set_static_ip,
        set_address,
        set_mask,
        set_gateway,
      )
      refl,
  get-set name (λ j. record j { dhcp_state = dhcp_idle }) _ _ (λ j. refl)
      (get-set name (λ j. record j { gateway = gate }) _ _ (λ j. refl)
        (get-set name (λ j. record j { subnet_mask = mask }) _ _ (λ j. refl)
          (get-set name (λ j. record j { ip_addr = addr }) s.ifaces i (λ j. refl) e))),
)
  where
    addressed : Net → Net
    addressed s = change name (λ j. record j { ip_addr = addr }) s

    masked : Net → Net
    masked s = change name (λ j. record j { subnet_mask = mask }) s

    gated : Net → Net
    gated s = change name (λ j. record j { gateway = gate }) s

    idle : Net → Net
    idle s =
        write (codes "Static IP configuration set for " ++ (name ++ codes "\n"))
          (change name (λ j. record j { dhcp_state = dhcp_idle }) s)

-- An invalid mask leaves the interface with the new address: -1 is returned, but the address has
-- been written already.
set_static_ip-bad_mask :
    (name : Text) (addr : Ip) (mask : Text) (gate : Option Text) (s : Net) (i : Iface)
    → get_interface name s.ifaces ≡ some i
    → IsIp addr
    → ip_from_string mask ≡ none
    → (s' : Net) × (set_static_ip name (ip_to_string addr) mask gate s ≡ (minus_one, s'))
      × (get_interface name s'.ifaces ≡ some (record i { ip_addr = addr }))
unfolding set_static_ip set_address set_mask
set_static_ip-bad_mask name addr mask gate s i e ha bad = (
  write (codes "Error: Invalid subnet mask\n") (change name (λ j. record j { ip_addr = addr }) s),
  rw (e, ip_from_string-ip_to_string addr ha, bad, set_static_ip, set_address, set_mask) refl,
  get-set name (λ j. record j { ip_addr = addr }) s.ifaces i (λ j. refl) e,
)
