-- ===== src/Fs/Engine/Scenario.antt =====
-- Calls that follow one another on one path: `Mkdir` and then `Stat`, or `Rmdir`.
use fusee_fs.Prelude.{ℕ, Bytes}
use fusee_fs.Fs.Path.{separate_last_component, format_path}
use fusee_fs.Fs.Inode.{Inode}
use fusee_fs.Fs.KvClient.{KvClient}
use fusee_fs.Fs.Outcome.{Outcome}
use fusee_fs.Fs.Engine.{Engine}
use fusee_fs.Fs.Engine.Create.Linked.{Linked}
use fusee_fs.Fs.Engine.Remove.Unlinked.{Unlinked}

module _ (kv : KvClient) (path : Bytes) (uid gid : ℕ) where
  abbrev parent_path : Bytes
  parent_path = (separate_last_component (format_path path)).0

  abbrev name : Bytes
  name = (separate_last_component (format_path path)).1
