-- ===== src/Tls/Network/Outer.antt =====
-- Which addresses of the host tls.go finds.
use duh_go.Prelude.{
  ◌+◌, ◌≡◌, refl, sym, ◌∙◌, arith, Bool, true, false, List, [], ◌∷◌, ◌++◌, Option, none, some, Text,
  if◌then◌else◌, ◌==◌, length, All, All-append, ◌&&◌,
}
use mathlib.Core.Bool.{not}
use duh_go.Frames.{Bytes, Result, ok, err}
use duh_go.Tls.Network.{
  Addr, Interface, mapped_prefix, without_prefix, to4, first_byte, is_loopback, ip_text, ip_of,
  outer_ip4, scan_addrs, scan_found, scan_interfaces, discover_network_addresses,
}

without_prefix-length :
    (prefix ip r : Bytes) → without_prefix prefix ip ≡ some r → length ip ≡ length prefix + length r
without_prefix-length [] ip r h = ground arith
without_prefix-length (b ∷ prefix) [] r h = ground arith
without_prefix-length (b ∷ prefix) (c ∷ ip) r h = ground (arith, without_prefix-length prefix ip r)

to4-length : (ip r : Bytes) → to4 ip ≡ some r → length r ≡ 4
unfolding to4
to4-length ip r h = ground (arith, without_prefix-length mapped_prefix ip r)

loopback_first : (ip r : Bytes) → to4 ip ≡ some r → is_loopback ip ≡ (first_byte r == 127)
unfolding is_loopback
loopback_first ip r h = rw (h, is_loopback)

-- An IPv4 address that is not of the loopback network 127.0.0.0/8.
abbrev pub IsOuter : Text → Type 0
IsOuter t = (ip : Bytes) × (t ≡ ip_text ip) × (length ip ≡ 4) × ((first_byte ip == 127) ≡ false)

outer_ip4-IsOuter : (ip r : Bytes) → outer_ip4 ip ≡ some r → IsOuter (ip_text r)
unfolding outer_ip4
outer_ip4-IsOuter [] r h = let no : ⊥ = cc in absurd no
outer_ip4-IsOuter (b ∷ ip) r h = by_loopback (is_loopback (b ∷ ip)) refl h
  where
    by_loopback :
        (l : Bool)
        → is_loopback (b ∷ ip) ≡ l
        → (if l then none else to4 (b ∷ ip)) ≡ some r
        → IsOuter (ip_text r)
    by_loopback true e h = let no : ⊥ = cc in absurd no
    by_loopback false e h =
        (r, refl, to4-length (b ∷ ip) r h, sym (loopback_first (b ∷ ip) r h) ∙ e)

scan_addrs-IsOuter :
    (addrs : List Addr) (results : List Text)
    → All IsOuter results
    → All IsOuter (scan_addrs results addrs)
unfolding scan_addrs
scan_addrs-IsOuter [] results a = a
scan_addrs-IsOuter (addr ∷ addrs) results a =
    scan_addrs-IsOuter addrs _ (kept (outer_ip4 (ip_of addr)) refl)
  where
    kept :
        (o : Option Bytes)
        → outer_ip4 (ip_of addr) ≡ o
        → All IsOuter (elim o [ none ↦ results | some ip ↦ results ++ ip_text ip ∷ [] ])
    kept none h = a
    kept (some ip) h =
        All-append IsOuter results (ip_text ip ∷ []) a (outer_ip4-IsOuter (ip_of addr) ip h, tt)

-- Every address that is found is such a one.
abbrev pub AllOuter : Result (List Text) → Type 0
AllOuter (ok ts) = All IsOuter ts
AllOuter (err e) = Unit

scan_found-AllOuter :
    (again : List Text → Result (List Text)) (results : List Text) (r : Result (List Addr))
    → All IsOuter results
    → ((found : List Text) → All IsOuter found → AllOuter (again found))
    → AllOuter (scan_found again results r)
scan_found-AllOuter again results (ok addrs) a k =
    k (scan_addrs results addrs) (scan_addrs-IsOuter addrs results a)
scan_found-AllOuter again results (err e) a k = tt

both_AllOuter :
    (b : Bool) (r s : Result (List Text))
    → AllOuter r
    → AllOuter s
    → AllOuter (elim b [ true ↦ r | false ↦ s ])
both_AllOuter true r s h k = h
both_AllOuter false r s h k = k

scan_interfaces-AllOuter :
    (ifaces : List Interface) (results : List Text)
    → All IsOuter results
    → AllOuter (scan_interfaces results ifaces)
unfolding scan_interfaces
scan_interfaces-AllOuter [] results a = a
scan_interfaces-AllOuter (iface ∷ ifaces) results a =
    both_AllOuter (iface.up && not iface.loopback)
      (scan_found (λ found. scan_interfaces found ifaces) results iface.addrs)
      (scan_interfaces results ifaces)
      (scan_found-AllOuter (λ found. scan_interfaces found ifaces) results iface.addrs a
        (scan_interfaces-AllOuter ifaces))
      (scan_interfaces-AllOuter ifaces results a)

-- Whatever addresses the interfaces of the host have, those that are found for the certificate are
-- IPv4 addresses in dotted form, and none of them of the loopback network.
pub discover_network_addresses-AllOuter :
    (r : Result (List Interface)) → AllOuter (discover_network_addresses r)
unfolding discover_network_addresses
discover_network_addresses-AllOuter (ok ifaces) = scan_interfaces-AllOuter ifaces [] tt
discover_network_addresses-AllOuter (err e) = tt
