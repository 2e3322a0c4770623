-- ===== src/Daemon/Examples.antt =====
-- The theorems on the daemon's networks at concrete inputs, and tests.
use zylo.Prelude.{Bool-cases, inl, inr, err}
use zylo.Text.Equality.{==_sound}
use zylo.Disk.{written}
use zylo.Table.{some_value}
use zylo.Network.{container_not_found}
use zylo.Network.Ipam
use zylo.Network.Ipam.{get_container_ip}
use zylo.Network.Ipam.Distinct.{IsSound}
use zylo.Daemon.{release_container_from_all_networks}
use zylo.Daemon.Release.{release_container-address}
use zylo.Prelude.{◌≡◌, refl, true, false, none, some, [], ◌∷◌, ◌++◌, any, keep, if◌then◌else◌}
use zylo.Text.{Text, codes, ◌==◌}
use zylo.Disk.{File, holds, malformed, whole, has}
use zylo.Table.{Table, get}
use zylo.Hosts.{base_content, all_entries, newline, entry}
use zylo.Network.{Net, NetState, ContainerNetInfo, file_of, hosts_of, readable_networks}
use zylo.Daemon.{SyncFate, clean_networks, sync_all_hosts}
use zylo.Daemon.Networks.{is_bad, stays, clean_networks-keep}
use zylo.Daemon.Sync.{IsSmooth, sync_all_hosts-hosts}

abbrev empty : Net
empty = record {
  name = codes "lan";
  id = [];
  kind = [];
  driver = [];
  created = [];
  subnet = codes "10.20.2.0/24";
  gateway = codes "10.20.2.1";
  ip_range = [];
  containers = [];
  options = [];
  labels = [];
  internal = false;
}

abbrev web : ContainerNetInfo
web = record { id = codes "17-1"; name = codes "web"; ip = codes "10.20.3.2" }

abbrev dmz : Net
dmz = record empty { name = codes "dmz"; containers = (codes "17-1", web) ∷ [] }

abbrev files : Table (File Net)
files = (codes "lan", holds empty) ∷ (codes "dmz", holds dmz) ∷ []

clean_networks-keep_example :
    clean_networks (λ name. true) files
    ≡ (if any is_bad files then none else some (keep (stays (λ name. true)) files))
clean_networks-keep_example = clean_networks-keep (λ name. true) files

one_left : clean_networks (λ name. true) files ≡ some ((codes "dmz", holds dmz) ∷ [])
unfolding clean_networks ◌==◌
one_left = refl

-- One file that cannot be decoded ends the daemon.
panics : clean_networks (λ name. true) ((codes "old", malformed) ∷ files) ≡ none
unfolding clean_networks
panics = refl

abbrev nets : NetState
nets = record { networks = files; hosts = [] }

abbrev smooth : Text → SyncFate
smooth name = record { made = true; base = whole; all = whole }

smooth-IsSmooth : (name : Text) → IsSmooth (smooth name)
smooth-IsSmooth name = record { made = refl; base = refl; all = refl }

sync_all_hosts-hosts_example :
    hosts_of (codes "dmz") (sync_all_hosts smooth nets).1
    ≡ has (base_content ++ (entry (codes "10.20.3.2") (codes "web") ++ newline))
unfolding file_of get readable_networks all_entries ◌==◌
sync_all_hosts-hosts_example =
    sync_all_hosts-hosts smooth (codes "dmz") dmz nets (smooth-IsSmooth (codes "dmz")) refl refl

abbrev one : NetState
one = record { networks = (codes "dmz", holds dmz) ∷ []; hosts = [] }

one-IsSound : IsSound one
unfolding file_of get some_value ◌==◌
one-IsSound = record {
  at_name = λ name. elim (Bool-cases (codes "dmz" == name)) [
    | inl e ↦ rw e (==_sound (codes "dmz") name e, (refl, tt))
    | inr e ↦ rw e tt
  ];
}

abbrev all_written : Text → Ipam.Fate
all_written name = record { config = written; made = true; base = whole; change = whole }

release_container-address_example :
    (get_container_ip
      (codes "dmz")
      (codes "17-1")
      (release_container_from_all_networks all_written (codes "17-1") one)).0
    ≡ err container_not_found
unfolding file_of get readable_networks ◌==◌
release_container-address_example =
    release_container-address all_written (codes "17-1") (codes "dmz") dmz one refl one-IsSound refl
      refl
