-- ===== src/Rest/Monitors/Verdict.antt =====
-- What a healthy service stands for.
use bondster_bco.Base.{ℕ, ◌≤◌, ◌≡◌, ◌⊎◌, ◌↔◌, true, Option, none, some, List, [], ◌∷◌, ◌++◌, arith}
use bondster_bco.Rest.{status}
use bondster_bco.Rest.Monitors.{
  Monitor, MemoryReading, DiskReading, memory_free, disk_free, judged, check_memory_allocation,
  check_disk_space, memory_checks, disk_checks, health_check_ping,
}

-- A reading was made, and the capacity in it is not below the limit, if there is one.
abbrev pub MemoryPasses : ℕ → Option MemoryReading → Type 0
MemoryPasses limit none = ⊥
MemoryPasses limit (some r) = (limit ≡ 0) ⊎ (limit ≤ memory_free r)

abbrev pub DiskPasses : ℕ → Option DiskReading → Type 0
DiskPasses limit none = ⊥
DiskPasses limit (some r) = (limit ≡ 0) ⊎ (limit ≤ disk_free r)

memory_ok :
    (r : Option MemoryReading) (m : Monitor)
    → ((check_memory_allocation r m).ok ≡ true) ↔ MemoryPasses m.limit r
unfolding check_memory_allocation judged
memory_ok none m = ground arith
memory_ok (some r) m = ground arith

disk_ok :
    (r : Option DiskReading) (m : Monitor)
    → ((check_disk_space r m).ok ≡ true) ↔ DiskPasses m.limit r
unfolding check_disk_space judged
disk_ok none m = ground arith
disk_ok (some r) m = ground arith

memory_last :
    (rs : List (Option MemoryReading)) (r : Option MemoryReading) (m : Monitor)
    → ((memory_checks (rs ++ r ∷ []) m).ok ≡ true) ↔ MemoryPasses m.limit r
unfolding memory_checks check_memory_allocation judged
memory_last [] r m = memory_ok r m
memory_last (none ∷ rs) r m = memory_last rs r (check_memory_allocation none m)
memory_last (some q ∷ rs) r m = memory_last rs r (check_memory_allocation (some q) m)

disk_last :
    (rs : List (Option DiskReading)) (r : Option DiskReading) (m : Monitor)
    → ((disk_checks (rs ++ r ∷ []) m).ok ≡ true) ↔ DiskPasses m.limit r
unfolding disk_checks check_disk_space judged
disk_last [] r m = disk_ok r m
disk_last (none ∷ rs) r m = disk_last rs r (check_disk_space none m)
disk_last (some q ∷ rs) r m = disk_last rs r (check_disk_space (some q) m)

ping_ok :
    (memory disk : Monitor)
    → (health_check_ping memory disk ≡ status 200 []) ↔ ((memory.ok ≡ true) × (disk.ok ≡ true))
unfolding health_check_ping
ping_ok memory disk = ground arith

-- After any checks of both monitors the service is reported healthy exactly if the last check of
-- each made its reading and found its capacity not below the limit, a limit of zero being none.
pub health_check_ping_iff :
    (rs : List (Option MemoryReading)) (r : Option MemoryReading) (qs : List (Option DiskReading))
    (q : Option DiskReading) (memory disk : Monitor)
    → (health_check_ping (memory_checks (rs ++ r ∷ []) memory) (disk_checks (qs ++ q ∷ []) disk)
        ≡ status 200 [])
      ↔ (MemoryPasses memory.limit r × DiskPasses disk.limit q)
health_check_ping_iff rs r qs q memory disk =
    let a = memory_last rs r memory in
    let b = disk_last qs q disk in
    let p = ping_ok (memory_checks (rs ++ r ∷ []) memory) (disk_checks (qs ++ q ∷ []) disk) in
    (λ h. (a.0 (p.0 h).0, b.0 (p.0 h).1), λ h. p.1 (a.1 h.0, b.1 h.1))
