-- ===== src/Hosts.antt =====
-- hosts/manager.go: the hosts file of a network, which maps addresses to container names.
pub mod Lines
pub mod Entries
mod Examples
use zylo.Prelude.{
  Bool, true, false, not, ◌||◌, Option, List, [], ◌∷◌, ◌++◌, Result, ok, err, keep, if◌then◌else◌,
}
use zylo.Prelude.Actions.{Act, Done, pure, fail, fail_if, wrap, ◌>>=◌, ◌>>◌}
use zylo.Text.{Text, codes, contains, split, join}
use zylo.Disk.{TextFile, TextWrite, Fault, missing, read_text, write_text}

pub record ContainerInfo : Type 0 where
  pub id : Text
  pub name : Text
  pub ip : Text

pub data Error : Type 0 where
  mkdir_failed : Error
  create_failed read_error write_error : Fault → Error

abbrev pub Hosts : Type 0 → Type 0
Hosts A = Act TextFile Error A

abbrev pub newline : Text
newline = 10 ∷ []

abbrev pub marker : Text
marker = codes "# containers zylo-net"

abbrev pub base_content : Text
base_content =
    codes "127.0.0.1       localhost"
    ++ (10
        ∷ (codes "::1             localhost ip6-localhost ip6-loopback"
            ++ (10 ∷ 10 ∷ (marker ++ newline))))

abbrev create_base : TextWrite → TextFile → Result Error Done × TextFile
create_base w f = wrap create_failed (write_text w base_content) f

abbrev exists_or_create : TextWrite → TextFile → Result Error Done × TextFile
exists_or_create w TextFile.missing = create_base w missing
exists_or_create w (TextFile.has s) = (ok tt, TextFile.has s)
exists_or_create w TextFile.locked = (ok tt, TextFile.locked)

-- `made` says whether os.MkdirAll makes the directory.
unfoldable pub new_hosts_manager : Bool → TextWrite → Hosts Done
unfolding write_text
new_hosts_manager made w = do fail_if (not made) mkdir_failed; exists_or_create w

abbrev pub entry : Text → Text → Text
entry ip name = ip ++ (codes "       " ++ name)

-- The new entry behind the first line with the marker, or at the end.
unfoldable pub place : Text → List Text → List Text
place e [] = e ∷ []
place e (l ∷ ls) = if contains l marker then l ∷ e ∷ ls else l ∷ place e ls

unfoldable pub add_container : TextWrite → Text → Text → Hosts Done
unfolding read_text write_text
add_container w ip name f =
    (do
      content ← wrap read_error (λ g. (read_text g, g))
      let lines = keep (λ l. not (contains l name)) (split 10 content)
      wrap write_error (write_text w (join 10 (place (entry ip name) lines))))
      f

unfoldable pub remove_container : TextWrite → Text → Text → Hosts Done
unfolding read_text write_text
remove_container w ip name f =
    (do
      content ← wrap read_error (λ g. (read_text g, g))
      let lines = keep (λ l. not (contains l ip || contains l name)) (split 10 content)
      wrap write_error (write_text w (join 10 lines)))
      f

-- The containers in the order in which Go ranges over the map.
unfoldable pub all_entries : List ContainerInfo → Text
all_entries [] = []
all_entries (c ∷ cs) = entry c.ip c.name ++ (newline ++ all_entries cs)

unfoldable pub update_all_containers : TextWrite → List ContainerInfo → Hosts Done
unfolding write_text all_entries
update_all_containers w cs = wrap write_error (write_text w (base_content ++ all_entries cs))
