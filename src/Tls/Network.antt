-- ===== src/Tls/Network.antt =====
-- The addresses and names of the host, in tls.go.
pub mod Outer
use duh_go.Prelude.{
  ℕ, zero, suc, Bool, true, false, List, [], ◌∷◌, ◌++◌, Option, none, some, Text, str,
}
use duh_go.Prelude.{itoa, if◌then◌else◌, ◌&&◌, ◌==◌, text_eq, length}
use mathlib.Core.Bool.{not}
use duh_go.Errors.{GoError}
use duh_go.Frames.{Bytes, Result, ok, err}

-- A `net.Addr` that holds an IP address, of which the code knows two types, or another. A `net.IP`
-- is its bytes, and none if it is nil.
pub data Addr : Type 0 where
  ip_net : Bytes → Addr
  ip_addr : Bytes → Addr
  other_addr : Addr

-- A `net.Interface`, by its flags and what `Addrs` returns.
pub record Interface : Type 0 where
  pub up : Bool
  pub loopback : Bool
  pub addrs : Result (List Addr)

-- The prefix of an IPv4 address in sixteen bytes.
abbrev pub mapped_prefix : Bytes
mapped_prefix = 0 ∷ 0 ∷ 0 ∷ 0 ∷ 0 ∷ 0 ∷ 0 ∷ 0 ∷ 0 ∷ 0 ∷ 255 ∷ 255 ∷ []

abbrev pub without_prefix : Bytes → Bytes → Option Bytes
without_prefix [] ip = some ip
without_prefix (b ∷ prefix) [] = none
without_prefix (b ∷ prefix) (c ∷ ip) =
    let rest = without_prefix prefix ip in if b == c then rest else none

-- `ip.To4()`
unfoldable pub to4 : Bytes → Option Bytes
to4 ip =
    if length ip == 4
    then some ip
    else if length ip == 16
    then without_prefix mapped_prefix ip
    else none

abbrev pub first_byte : Bytes → ℕ
first_byte [] = 0
first_byte (b ∷ ip) = b

-- `net.IPv6loopback`
abbrev pub loopback6 : Bytes
loopback6 = 0 ∷ 0 ∷ 0 ∷ 0 ∷ 0 ∷ 0 ∷ 0 ∷ 0 ∷ 0 ∷ 0 ∷ 0 ∷ 0 ∷ 0 ∷ 0 ∷ 0 ∷ 1 ∷ []

-- `ip.IsLoopback()`
unfoldable pub is_loopback : Bytes → Bool
is_loopback ip = elim (to4 ip) [ some ip4 ↦ first_byte ip4 == 127 | none ↦ text_eq ip loopback6 ]

-- `ip.String()` of an IPv4 address.
unfoldable pub ip_text : Bytes → Text
ip_text [] = []
ip_text (b ∷ []) = itoa b
ip_text (b ∷ c ∷ ip) = itoa b ++ (str "." ++ ip_text (c ∷ ip))

abbrev pub ip_of : Addr → Bytes
ip_of (ip_net ip) = ip
ip_of (ip_addr ip) = ip
ip_of other_addr = []

-- `if ip == nil || ip.IsLoopback() { continue }`, and then `To4`.
unfoldable pub outer_ip4 : Bytes → Option Bytes
outer_ip4 [] = none
outer_ip4 (b ∷ ip) = if is_loopback (b ∷ ip) then none else to4 (b ∷ ip)

-- The loop over the addresses of an interface; `results` are those found before.
unfoldable pub scan_addrs : List Text → List Addr → List Text
scan_addrs results [] = results
scan_addrs results (addr ∷ addrs) =
    scan_addrs
      (elim (outer_ip4 (ip_of addr)) [ none ↦ results | some ip ↦ results ++ ip_text ip ∷ [] ])
      addrs

abbrev pub scan_found :
    (List Text → Result (List Text)) → List Text → Result (List Addr) → Result (List Text)
scan_found again results (ok addrs) = again (scan_addrs results addrs)
scan_found again results (err e) = err e

-- The loop over the interfaces. The branches wait in cases, as the loop's rest is in two of them.
unfoldable pub scan_interfaces : List Text → List Interface → Result (List Text)
scan_interfaces results [] = ok results
scan_interfaces results (iface ∷ ifaces) = elim (iface.up && not iface.loopback) [
  | true ↦ scan_found (λ found. scan_interfaces found ifaces) results iface.addrs
  | false ↦ scan_interfaces results ifaces
]

-- `discoverNetworkAddresses`
unfoldable pub discover_network_addresses : Result (List Interface) → Result (List Text)
discover_network_addresses (ok ifaces) = scan_interfaces [] ifaces
discover_network_addresses (err e) = err e

-- `netInfo`
pub record NetInfo : Type 0 where
  pub ip_addresses : List Text
  pub dns_names : List Text

unfoldable pub lookup_names : (Text → List Text) → List Text → List Text → List Text
lookup_names lookup_addr names [] = names
lookup_names lookup_addr names (ip ∷ ips) = lookup_names lookup_addr (names ++ lookup_addr ip) ips

abbrev pub named : (Text → List Text) → Result (List Text) → Result NetInfo
named lookup_addr (ok ips) =
    ok (record { ip_addresses = ips; dns_names = lookup_names lookup_addr [] ips })
named lookup_addr (err e) = err e

-- `discoverNetwork`
unfoldable pub discover_network : Result (List Interface) → (Text → List Text) → Result NetInfo
discover_network ifaces lookup_addr = named lookup_addr (discover_network_addresses ifaces)
