-- ===== src/Network/Subnet/Gateway.antt =====
-- The gateway of a chosen subnet, and the addresses that its network gives to containers.
use zylo.Prelude.{ℕ, ◌<◌, ◌≡◌, sym, ◌≢◌, ◌∙◌, ◌∷◌, ◌++◌, ok, arith, append_assoc, length}
use zylo.Text.{Text, codes, split, decimal}
use zylo.Text.Lines.{split-append}
use zylo.Text.Decimal.{decimal-Free}
use zylo.Disk.{holds, written}
use zylo.Network.{Net, NetState, file_of}
use zylo.Network.Ipam.{Fate, address, base_of, allocate_ip}
use zylo.Network.Ipam.Free.{address_injective}
use zylo.Network.Ipam.Lookup.{allocate_ip_total}
use zylo.Network.Subnet.{gateway_at}

abbrev pub base_at : ℕ → Text
base_at i = codes "10" ++ b'.' ∷ (codes "20" ++ b'.' ∷ decimal i)

gateway-base : (i : ℕ) → base_of (split b'.' (gateway_at i)) ≡ ok (base_at i)
unfolding base_of split
gateway-base i = rw (split-append b'.' (decimal i) (codes "1") (decimal-Free i))

gateway-address : (i : ℕ) → gateway_at i ≡ address (base_at i) 1
unfolding decimal
gateway-address i = sym (append_assoc (codes "10.20.") (decimal i) (codes ".1"))

-- In a network whose file holds its configuration, with the gateway that was chosen with its subnet
-- and fewer than 253 containers, an allocation whose configuration is written succeeds, and the
-- address is not the gateway's.
pub allocate_ip-gateway :
    (w : Fate) (i : ℕ) (network id name : Text) (s : NetState) (config : Net)
    → w.config ≡ written
    → file_of network s ≡ holds config
    → config.name ≡ network
    → config.gateway ≡ gateway_at i
    → length config.containers < 253
    → (ip : Text) × ((allocate_ip w network id name s).0 ≡ ok ip) × (ip ≢ config.gateway)
allocate_ip-gateway w i network id name s config hw hf hn hg few =
    let based : base_of (split b'.' config.gateway) ≡ ok (base_at i) = rw hg (gateway-base i) in
    let (ip, least, got, _) =
      allocate_ip_total w network id name (base_at i) s config hw hf hn based few in
    (
      ip,
      got,
      λ e.
          let one = sym least.is_address ∙ e ∙ hg ∙ gateway-address i in
          omega (arith, least.low, address_injective (base_at i) least.part 1 one),
    )
