-- ===== src/Hosts/Examples.antt =====
-- The theorems on the hosts file at concrete inputs, and tests.
use zylo.Prelude.{◌≡◌, refl, ◌≢◌, true, false, not, [], ◌∷◌, ◌++◌, arith, any, keep}
use zylo.Text.{Text, codes, ◌==◌, contains, split, join}
use zylo.Text.Equality.{==_iff}
use zylo.Disk.{has, whole, missing}
use zylo.Hosts.{base_content, entry, place, add_container, remove_container, new_hosts_manager}
use zylo.Hosts.Lines.{lines}
use zylo.Hosts.Entries.{add_container_lem, remove_drops_longer_address}

abbrev web_ip : Text
web_ip = codes "10.20.1.2"

add_container_lem_example :
    let after = lines (add_container whole web_ip (codes "web") (has base_content)).1 in
    (keep (λ l. contains l (codes "web")) after ≡ entry web_ip (codes "web") ∷ [])
    × (keep (λ l. not (contains l (codes "web"))) after
        ≡ keep (λ l. not (contains l (codes "web"))) (split 10 base_content))
add_container_lem_example = add_container_lem web_ip (codes "web") base_content refl refl

longer_address_dropped :
    any
      (λ l. l == codes "10.20.1.20       db")
      (lines (remove_container whole web_ip (codes "web") (has (codes "10.20.1.20       db"))).1)
    ≡ false
longer_address_dropped =
    remove_drops_longer_address web_ip (codes "0") (codes "web") (codes "db")
      (codes "10.20.1.20       db")

web-ne-webdb :
    entry (codes "10.20.1.3") ([] ++ (codes "web" ++ codes "db")) ≢ entry web_ip (codes "web")
unfolding ◌==◌
web-ne-webdb e =
    ground (arith, ==_iff (codes "10.20.1.3       webdb") (codes "10.20.1.2       web"))

-- A new entry goes directly behind the marker.
add_to_base :
    lines (add_container whole web_ip (codes "web") (new_hosts_manager true whole missing).1).1
    ≡ codes "127.0.0.1       localhost"
      ∷ codes "::1             localhost ip6-localhost ip6-loopback"
      ∷ []
      ∷ codes "# containers zylo-net"
      ∷ codes "10.20.1.2       web"
      ∷ []
      ∷ []
unfolding add_container new_hosts_manager contains split join place
add_to_base = refl
