-- ===== src/Network/Laws.antt =====
-- Reading and writing the files of networks.
use zylo.Prelude.{◌≡◌, refl, ok, arith, if◌then◌else◌}
use zylo.Prelude.Actions.{Act}
use zylo.Text.{Text, ◌==◌}
use zylo.Text.Equality.{==_iff}
use zylo.Disk.{Write, TextFile, holds, written, write}
use zylo.Table.Laws.{get-put}
use zylo.Network.{Net, NetState, file_of, on_hosts, save_config, get_network}

pub file_of-save_config :
    (w : Write) (config : Net) (name : Text) (s : NetState)
    → file_of name (save_config w config s).1
      ≡ (if config.name == name then (write w config (file_of config.name s)).1 else file_of name s)
unfolding save_config file_of
file_of-save_config w config name s =
    ground (arith, get-put config.name name (write w config (file_of config.name s)).1 s.networks)

pub file_of-on_hosts {κ} :
    {E : Type κ} {A : Type 0} (network name : Text) (m : Act TextFile E A) (s : NetState)
    → file_of name (on_hosts network m s).1 ≡ file_of name s
unfolding on_hosts file_of
file_of-on_hosts network name m s = refl

pub get_network-holds :
    (name : Text) (s : NetState) {config : Net}
    → file_of name s ≡ holds config
    → get_network name s ≡ (ok config, s)
unfolding get_network
get_network-holds name s e = rw e

pub holds-get_network :
    (name : Text) (s : NetState) {config : Net}
    → (get_network name s).0 ≡ ok config
    → file_of name s ≡ holds config
unfolding get_network
holds-get_network name s e = ground arith

pub get_network_same : (name : Text) (s : NetState) → (get_network name s).1 ≡ s
unfolding get_network
get_network_same name s = refl

pub save_config-ok :
    (w : Write) (config : Net) (s : NetState) → w ≡ written → (save_config w config s).0 ≡ ok tt
unfolding save_config
save_config-ok w config s h = ground arith

-- A write that succeeds leaves the configuration in the file of its network.
pub save_config-holds :
    (w : Write) (config : Net) (name : Text) (s : NetState)
    → w ≡ written
    → config.name ≡ name
    → file_of name (save_config w config s).1 ≡ holds config
unfolding write
save_config-holds w config name s hw hn =
    ground (arith, file_of-save_config w config name s, ==_iff config.name name)
