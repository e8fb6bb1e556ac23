-- ===== src/Rest/Monitors.antt =====
-- services/bondster-bco-rest/system/memory.go and storage.go, and the handlers of api/health.go.
--
-- What the kernel answers to one check is a parameter of the check; `none` is an error.
pub mod Verdict
use bondster_bco.Base.{
  ℕ, ◌+◌, ◌-◌, ◌*◌, ◌%◌, ◌^◌, Bool, true, false, ◌&&◌, ◌||◌, not, Option, none, some, List, [], ◌∷◌,
  ltb, if◌then◌else◌,
}
use bondster_bco.Rest.{Written, status}

abbrev pub word : ℕ
word = 2 ^ 64

-- `MemoryMonitor` and `DiskMonitor`, which keep the same fields.
pub record Monitor : Type 0 where
  pub limit : ℕ
  pub free : ℕ
  pub used : ℕ
  pub ok : Bool

unfoldable pub new_monitor : ℕ → Monitor
new_monitor limit = record { limit = limit; free = 0; used = 0; ok = true }

pub record MemoryReading : Type 0 where
  pub freeram : ℕ
  pub unit : ℕ
  pub sys : ℕ

pub record DiskReading : Type 0 where
  pub bavail : ℕ
  pub bsize : ℕ
  pub blocks : ℕ
  pub bfree : ℕ

unfoldable pub memory_free : MemoryReading → ℕ
memory_free r = r.freeram * r.unit % word

unfoldable pub disk_free : DiskReading → ℕ
disk_free r = r.bavail * r.bsize % word

-- The subtraction wraps around.
unfoldable pub disk_used : DiskReading → ℕ
disk_used r = (r.blocks + (word - r.bfree % word)) % word * r.bsize % word

-- The last test of a check.
judged : Monitor → Monitor
judged m = record m { ok = not (ltb 0 m.limit && ltb m.free m.limit) }

unfoldable pub check_memory_allocation : Option MemoryReading → Monitor → Monitor
unfolding judged memory_free
check_memory_allocation none m = record m { ok = false }
check_memory_allocation (some r) m = judged (record m { free = memory_free r; used = r.sys })

unfoldable pub check_disk_space : Option DiskReading → Monitor → Monitor
unfolding judged disk_free disk_used
check_disk_space none m = record m { ok = false }
check_disk_space (some r) m = judged (record m { free = disk_free r; used = disk_used r })

-- The `Work` of a monitor, once for each reading.
unfoldable pub memory_checks : List (Option MemoryReading) → Monitor → Monitor
unfolding check_memory_allocation
memory_checks [] m = m
memory_checks (r ∷ rs) m = memory_checks rs (check_memory_allocation r m)

unfoldable pub disk_checks : List (Option DiskReading) → Monitor → Monitor
unfolding check_disk_space
disk_checks [] m = m
disk_checks (r ∷ rs) m = disk_checks rs (check_disk_space r m)

-- The methods of `CapacityCheck`, also on a nil pointer.
unfoldable pub is_healthy : Option Monitor → Bool
is_healthy none = true
is_healthy (some m) = m.ok

unfoldable pub get_free : Option Monitor → ℕ
get_free none = 0
get_free (some m) = m.free

unfoldable pub get_used : Option Monitor → ℕ
get_used none = 0
get_used (some m) = m.used

-- `HealtCheckPing`
unfoldable pub health_check_ping : Monitor → Monitor → Written
unfolding is_healthy
health_check_ping memory disk =
    if not (is_healthy (some memory)) || not (is_healthy (some disk))
    then status 503 []
    else status 200 []

pub record CapacityStatus : Type 0 where
  pub free : ℕ
  pub used : ℕ
  pub is_healthy : Bool

pub record Status : Type 0 where
  pub storage : CapacityStatus
  pub memory : CapacityStatus

capacity : Option Monitor → CapacityStatus
unfolding is_healthy get_free get_used
capacity m = record { free = get_free m; used = get_used m; is_healthy = is_healthy m }

-- `HealtCheck`: the status code, and the value that is written as JSON.
unfoldable pub health_check : Monitor → Monitor → ℕ × Status
unfolding capacity
health_check memory disk =
    let s : Status = record { storage = capacity (some disk); memory = capacity (some memory) } in
    ((if not s.storage.is_healthy || not s.memory.is_healthy then 503 else 200), s)
