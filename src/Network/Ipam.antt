-- ===== src/Network/Ipam.antt =====
-- network/ipam.go: which container of a network has which address.
pub mod Free
pub mod Distinct
pub mod Lookup
pub mod Others
pub mod Examples
use zylo.Prelude.{
  ℕ, zero, suc, ◌+◌, Bool, true, false, not, Option, none, some, List, [], ◌∷◌, ◌++◌, Result, ok,
  err, if◌then◌else◌,
}
use zylo.Prelude.Actions.{Act, Done, pure, fail, lift, wrap, ignore, ◌>>=◌, ◌>>◌}
use zylo.Text.{Text, ◌==◌, is_empty, split, decimal}
use zylo.Disk.{Write, TextWrite}
use zylo.Table.{Table, get, put, remove, some_value}
use zylo.Hosts
use zylo.Hosts.{new_hosts_manager, add_container, remove_container}
use zylo.Network.{
  Net, ContainerNetInfo, NetState, Network, Error, invalid_gateway, no_free_ip, container_not_found,
  save_failed, on_hosts, save_config, get_network,
}

-- fmt.Sprintf("%s.%d", base, i)
abbrev pub address : Text → ℕ → Text
address base i = base ++ b'.' ∷ decimal i

abbrev pub has_ip : Text → ContainerNetInfo → Bool
has_ip ip c = c.ip == ip

-- The first three of the four parts of the gateway.
unfoldable pub base_of : List Text → Result Error Text
base_of (a ∷ b ∷ c ∷ d ∷ []) = ok (a ++ b'.' ∷ (b ++ b'.' ∷ c))
base_of _ = err invalid_gateway

-- The loop of AllocateIP, with the rounds left and the last part to try.
unfoldable pub free_ip : ℕ → ℕ → Text → Table ContainerNetInfo → Result Error Text
free_ip zero i base ctrs = err no_free_ip
free_ip (suc n) i base ctrs =
    let rest = free_ip n (i + 1) base ctrs in
    if some_value (has_ip (address base i)) ctrs then rest else ok (address base i)

-- for i := 2; i <= 254; i++
abbrev pub rounds : ℕ
rounds = 253

-- How the writes of one call go: the configuration, the hosts directory, its base file, its change.
pub record Fate : Type 0 where
  pub config : Write
  pub made : Bool
  pub base : TextWrite
  pub change : TextWrite

abbrev pub with_container : Text → Text → Text → Net → Net
with_container id name ip config = record config {
  containers = put id (record { id = id; name = name; ip = ip }) config.containers;
}

-- A warning is printed where the hosts file cannot be changed.
unfoldable pub add_to_hosts : Fate → Text → Text → Text → Act NetState Hosts.Error Done
add_to_hosts w network ip name =
    ignore (on_hosts network (do new_hosts_manager w.made w.base; add_container w.change ip name))

-- The body of `if !taken`.
unfoldable pub take_ip : Fate → Text → Text → Text → Net → Text → Network Text
take_ip w network id name config ip = do
  wrap save_failed (save_config w.config (with_container id name ip config))
  ignore (add_to_hosts w network ip name)
  pure ip

unfoldable pub allocate_ip : Fate → Text → Text → Text → Network Text
allocate_ip w network id name = do
  config ← get_network network
  base ← lift (base_of (split b'.' config.gateway))
  ip ← lift (free_ip rounds 2 base config.containers)
  take_ip w network id name config ip

abbrev ip_of : Option ContainerNetInfo → Network Text
ip_of none = fail container_not_found
ip_of (some c) = pure c.ip

unfoldable pub get_container_ip : Text → Text → Network Text
get_container_ip network id = do config ← get_network network; ip_of (get id config.containers)

-- A warning is printed where the hosts file cannot be changed.
unfoldable pub remove_from_hosts : Fate → Text → ContainerNetInfo → Act NetState Hosts.Error Done
remove_from_hosts w network c =
    ignore
      (on_hosts network (do new_hosts_manager w.made w.base; remove_container w.change c.ip c.name))

-- The hosts entry goes only where the container is there and has a name.
unfoldable pub drop_hosts : Fate → Text → Option ContainerNetInfo → Network Done
drop_hosts w network none = pure tt
drop_hosts w network (some c) =
    if not (is_empty c.name) then ignore (remove_from_hosts w network c) else pure tt

unfoldable pub release_ip : Fate → Text → Text → Network Done
release_ip w network id = do
  config ← get_network network
  drop_hosts w network (get id config.containers)
  wrap save_failed
      (save_config w.config (record config { containers = remove id config.containers }))

unfoldable pub get_gateway : Text → Network Text
get_gateway network = do config ← get_network network; pure config.gateway
