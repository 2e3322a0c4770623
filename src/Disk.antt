-- ===== src/Disk.antt =====
-- Files that hold one JSON document, as os.ReadFile, os.WriteFile and encoding/json leave them. A
-- document is held as the value that it decodes to.
use zylo.Prelude.{ℕ, Result, ok, err, take}
use zylo.Prelude.Actions.{Act, Done}
use zylo.Text.{Text}

pub data File {ℓ} (A : Type ℓ) : Type ℓ where
  absent : File A
  -- the read fails, and not because the file is missing
  unreadable : File A
  -- json.Unmarshal refuses the bytes
  malformed : File A
  holds : A → File A

pub data Fault : Type 0 where
  not_exist read_failed parse_failed mkdir_failed write_failed : Fault

-- How os.MkdirAll of the directory and os.WriteFile go: the environment chooses. os.WriteFile
-- truncates first, so a write that stops early leaves a proper prefix of the document, which
-- json.Unmarshal refuses; an error that comes last leaves the whole document.
pub data Write : Type 0 where
  written no_dir not_opened torn late : Write

module _ {ℓ} {A : Type ℓ} where
  -- os.ReadFile and json.Unmarshal
  unfoldable pub read : File A → Result Fault A
  read absent = err not_exist
  read unreadable = err read_failed
  read malformed = err parse_failed
  read (holds a) = ok a

  -- The same where a missing file stands for a default.
  unfoldable pub read_or : A → File A → Result Fault A
  unfolding read
  read_or default absent = ok default
  read_or default unreadable = read unreadable
  read_or default malformed = read malformed
  read_or default (holds a) = read (holds a)

  -- os.MkdirAll, json.MarshalIndent and os.WriteFile
  unfoldable pub write : Write → A → Act (File A) Fault Done
  write written a f = (ok tt, holds a)
  write no_dir a f = (err mkdir_failed, f)
  write not_opened a f = (err write_failed, f)
  write torn a f = (err write_failed, malformed)
  write late a f = (err write_failed, holds a)

-- A file of plain text, which nothing decodes.
pub data TextFile : Type 0 where
  missing locked : TextFile
  has : Text → TextFile

-- How os.WriteFile goes: a write that stops early leaves as many bytes as it got to.
pub data TextWrite : Type 0 where
  whole refused finally : TextWrite
  short : ℕ → TextWrite

unfoldable pub read_text : TextFile → Result Fault Text
read_text missing = err not_exist
read_text locked = err read_failed
read_text (has s) = ok s

unfoldable pub write_text : TextWrite → Text → Act TextFile Fault Done
write_text whole s f = (ok tt, has s)
write_text refused s f = (err write_failed, f)
write_text finally s f = (err write_failed, has s)
write_text (short n) s f = (err write_failed, has (take n s))
