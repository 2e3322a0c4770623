-- ===== src/Resources/Users.antt =====
-- internal/container/resources/users.go and metadata.go: the entries of passwd and group.
pub mod Lines
use zylo.Prelude.{
  ℕ, suc, Bool, true, false, not, Option, none, some, List, [], ◌∷◌, ◌++◌, Result, ok, err, take,
  map, if◌then◌else◌,
}
use zylo.Prelude.Actions.{Act, Done, pure, fail, fail_if, modify, ◌>>=◌, ◌>>◌}
use zylo.Text.{Text, codes, join}
use zylo.Disk.{
  File, Fault, TextWrite, whole, refused, finally, short, absent, unreadable, malformed, holds,
}
use zylo.Integer.{ℤ, pos, itoa}

pub record User : Type 0 where
  pub name : Text
  pub uid : ℤ
  pub gid : ℤ
  pub home : Text
  pub shell : Text
  pub password : Text

pub record Group : Type 0 where
  pub name : Text
  pub gid : ℤ
  pub users : List Text

pub record UserManager : Type 0 where
  pub users : List User
  pub groups : List Group

pub record ImageMetadata : Type 0 where
  pub default_user : Option User
  pub groups : List Group

abbrev pub new_user_manager : UserManager
new_user_manager = record { users = []; groups = [] }

abbrev pub add_user : User → UserManager → UserManager
add_user u m = record m { users = m.users ++ u ∷ [] }

abbrev pub add_group : Group → UserManager → UserManager
add_group g m = record m { groups = m.groups ++ g ∷ [] }

abbrev pub root_group : Group
root_group = record { name = codes "root"; gid = pos 0; users = codes "root" ∷ [] }

abbrev pub root_user : User
root_user = record {
  name = codes "root";
  uid = pos 0;
  gid = pos 0;
  home = codes "/root";
  shell = codes "/bin/sh";
  password = codes "x";
}

unfoldable pub add_groups : List Group → UserManager → UserManager
add_groups [] m = m
add_groups (g ∷ gs) m = add_groups gs (add_group g m)

abbrev add_default : Option User → UserManager → UserManager
add_default none m = m
add_default (some u) m = add_user u m

-- AddUsersFromMetadata, on metadata that is not nil
unfoldable pub add_users_from_metadata : ImageMetadata → UserManager → UserManager
unfolding add_groups
add_users_from_metadata meta m = add_default meta.default_user (add_groups meta.groups m)

unfoldable pub add_default_root : UserManager → UserManager
add_default_root m = add_user root_user (add_group root_group m)

-- LoadImageMetadata: a file that cannot be read counts as empty metadata.
unfoldable pub load_image_metadata : File ImageMetadata → Result Fault ImageMetadata
load_image_metadata (holds meta) = ok meta
load_image_metadata malformed = err Fault.parse_failed
load_image_metadata absent = ok (record { default_user = none; groups = [] })
load_image_metadata unreadable = ok (record { default_user = none; groups = [] })

abbrev pub user_fields : User → List Text
user_fields u = u.name ∷ u.password ∷ itoa u.uid ∷ itoa u.gid ∷ u.name ∷ u.home ∷ u.shell ∷ []

-- fmt.Sprintf("%s:%s:%d:%d:%s:%s:%s\n", …)
unfoldable pub passwd_line : User → Text
unfolding join
passwd_line u = join b':' (user_fields u) ++ 10 ∷ []

abbrev pub group_fields : Group → List Text
group_fields g = g.name ∷ codes "x" ∷ itoa g.gid ∷ join b',' g.users ∷ []

unfoldable pub group_line : Group → Text
unfolding join
group_line g = join b':' (group_fields g) ++ 10 ∷ []

-- The texts of passwd and group below the root.
pub record EtcFiles : Type 0 where
  pub passwd : Text
  pub group : Text

pub data WriteError : Type 0 where
  etc_failed passwd_failed group_failed line_failed : WriteError

-- How the calls go: the directory, the two files, and the write of each line.
pub record WriteFate : Type 0 where
  pub made : Bool
  pub passwd_opened : Bool
  pub group_opened : Bool
  pub user : ℕ → TextWrite
  pub group : ℕ → TextWrite

-- WriteString to a file that was opened to append.
abbrev pub append_line : TextWrite → Text → Act Text WriteError Done
append_line whole line text = (ok tt, text ++ line)
append_line refused line text = (err line_failed, text)
append_line finally line text = (err line_failed, text ++ line)
append_line (short n) line text = (err line_failed, text ++ take n line)

abbrev then_lines : Result WriteError Done → Act Text WriteError Done → Act Text WriteError Done
then_lines (ok u) rest text = rest text
then_lines (err e) rest text = (err e, text)

unfoldable pub append_lines : (ℕ → TextWrite) → ℕ → List Text → Act Text WriteError Done
append_lines w n [] text = (ok tt, text)
append_lines w n (l ∷ ls) text =
    then_lines (append_line (w n) l text).0 (append_lines w (suc n) ls) (append_line (w n) l text).1

abbrev on_passwd : Act Text WriteError Done → Act EtcFiles WriteError Done
on_passwd m s = let (r, text) = m s.passwd in (r, record s { passwd = text })

abbrev on_group : Act Text WriteError Done → Act EtcFiles WriteError Done
on_group m s = let (r, text) = m s.group in (r, record s { group = text })

-- `WriteFiles`
unfoldable pub write_files : WriteFate → UserManager → Act EtcFiles WriteError Done
unfolding append_lines passwd_line group_line
write_files w m = do
  fail_if (not w.made) etc_failed
  fail_if (not w.passwd_opened) passwd_failed
  on_passwd (append_lines w.user 0 (map passwd_line m.users))
  fail_if (not w.group_opened) group_failed
  on_group (append_lines w.group 0 (map group_line m.groups))
