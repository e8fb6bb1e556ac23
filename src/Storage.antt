-- ===== src/Storage.antt =====
-- The part of github.com/jancajthaml-openbank/local-fs that both services call, as a parameter:
-- the state of a storage, one operation for each method, and what the methods are relied on for.
--
-- A method's error is not read by the services, only tested: `none` stands for `(_, err)` of a
-- method that reads, and `false` beside the new state for the `err` of a method that writes.
pub mod Memory
use bondster_bco.Base.{◌≡◌, ◌≢◌, Bool, true, false, Option, none, some, List, ◌++◌, All}
use bondster_bco.Base.Text.{Bytes, codes, Lacks, strip_prefix}

pub record Storage : Type 1 where
  pub Disk : Type 0
  pub exists : Disk → Bytes → Option Bool
  pub list_directory : Disk → Bytes → Option (List Bytes)
  pub read_file_fully : Disk → Bytes → Option Bytes
  pub write_file : Disk → Bytes → Bytes → Disk × Bool
  pub write_file_exclusive : Disk → Bytes → Bytes → Disk × Bool
  pub touch_file : Disk → Bytes → Disk × Bool
  pub mkdir : Disk → Bytes → Disk × Bool
  pub delete : Disk → Bytes → Disk × Bool

-- What a file holds after a write that returned no error, and what the write leaves alone.
pub record StorageLaws (s : Storage) : Type 0 where
  pub write_exists :
      (d : s.Disk) (p v : Bytes)
      → (s.write_file_exclusive d p v).1 ≡ true
      → s.exists (s.write_file_exclusive d p v).0 p ≡ some true
  pub write_read :
      (d : s.Disk) (p v : Bytes)
      → (s.write_file_exclusive d p v).1 ≡ true
      → s.read_file_fully (s.write_file_exclusive d p v).0 p ≡ some v
  pub write_fresh :
      (d : s.Disk) (p v : Bytes)
      → s.exists d p ≡ some true
      → (s.write_file_exclusive d p v).1 ≡ false
  pub touch_exists :
      (d : s.Disk) (p : Bytes)
      → (s.touch_file d p).1 ≡ true
      → s.exists (s.touch_file d p).0 p ≡ some true
  pub touch_keeps :
      (d : s.Disk) (p q : Bytes)
      → s.exists d q ≡ some true
      → s.exists (s.touch_file d p).0 q ≡ some true
  pub delete_gone :
      (d : s.Disk) (p : Bytes) → (s.delete d p).1 ≡ true → s.exists (s.delete d p).0 p ≡ some false
  pub delete_failed :
      (d : s.Disk) (p : Bytes)
      → (s.delete d p).1 ≡ false
      → s.exists (s.delete d p).0 p ≡ s.exists d p

-- A file is touched alone: whatever is not on the way to it stays as it was; and a name in a
-- directory has no slash.
pub record TouchLaws (s : Storage) : Type 0 where
  pub exists_apart :
      (d : s.Disk) (p q : Bytes)
      → strip_prefix q p ≡ none
      → s.exists (s.touch_file d p).0 q ≡ s.exists d q
  pub read_apart :
      (d : s.Disk) (p q : Bytes)
      → strip_prefix q p ≡ none
      → s.read_file_fully (s.touch_file d p).0 q ≡ s.read_file_fully d q
  pub list_apart :
      (d : s.Disk) (p q : Bytes)
      → strip_prefix (q ++ codes "/") p ≡ none
      → s.list_directory (s.touch_file d p).0 q ≡ s.list_directory d q
  pub list_names :
      (d : s.Disk) (p : Bytes) {names : List Bytes}
      → s.list_directory d p ≡ some names
      → All (Lacks b'/') names
