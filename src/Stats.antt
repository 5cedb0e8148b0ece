-- ===== src/Stats.antt =====
-- internal/worker/stats.go: the snapshot of a worker's load that its stats endpoint serves.
use task_orchestrator.Prelude.{ℕ, zero, suc, ◌+◌, ◌-◌, ◌/◌, ◌%◌, Option, none, some, List, [], ◌∷◌}
use task_orchestrator.Prelude.Int.{ℤ, pos, negsuc}
use task_orchestrator.Float64.{Float64}

-- The fields that gopsutil fills, as far as the code reads them. They are uint64.
pub record MemStats : Type 0 where
  pub total : ℕ
  pub available : ℕ

pub record DiskStats : Type 0 where
  pub total : ℕ
  pub free : ℕ
  pub used : ℕ

pub record LoadStats (F : Type 0) : Type 0 where
  pub load1 : F
  pub load5 : F
  pub load15 : F

pub record Stats (F : Type 0) : Type 0 where
  pub mem_stats : MemStats
  pub disk_stats : DiskStats
  pub cpu_usage_percentage : F
  pub load_stats : LoadStats F
  pub task_count : ℤ

abbrev pub u64_mod : ℕ
u64_mod = 18446744073709551616

module _ {F : Type 0} (s : Stats F) where
  unfoldable pub mem_total_kb : ℕ
  mem_total_kb = s.mem_stats.total

  unfoldable pub mem_available_kb : ℕ
  mem_available_kb = s.mem_stats.available

  -- An unsigned difference wraps round.
  unfoldable pub mem_used_kb : ℕ
  mem_used_kb = (s.mem_stats.total + u64_mod - s.mem_stats.available) % u64_mod

  -- A zero total would be a division fault.
  unfoldable pub mem_used_percent : Option ℕ
  mem_used_percent = elim s.mem_stats.total [
    | zero ↦ none
    | suc n ↦ some (s.mem_stats.available / suc n)
  ]

  unfoldable pub disk_total : ℕ
  disk_total = s.disk_stats.total

  unfoldable pub disk_free : ℕ
  disk_free = s.disk_stats.free

  unfoldable pub disk_used : ℕ
  disk_used = s.disk_stats.used

  unfoldable pub cpu_usage : F
  cpu_usage = s.cpu_usage_percentage

-- What gopsutil returned for one snapshot: `none` is an error, and the percentages may be none.
pub record Readings (F : Type 0) : Type 0 where
  pub virtual_memory : Option MemStats
  pub disk_usage : Option DiskStats
  pub cpu_percents : List F
  pub load_average : Option (LoadStats F)

-- A failed reading leaves zeros, and -1 for the CPU.
unfoldable pub new_stats : (fl : Float64) → Readings fl.F → Stats fl.F
new_stats fl r = record {
  mem_stats = elim r.virtual_memory [ some m ↦ m | none ↦ record { total = 0; available = 0 } ];
  disk_stats = elim r.disk_usage [ some d ↦ d | none ↦ record { total = 0; free = 0; used = 0 } ];
  cpu_usage_percentage = elim r.cpu_percents [ p ∷ _ ↦ p | [] ↦ fl.of_int (negsuc 0) ];
  load_stats = elim r.load_average [
    | some l ↦ l
    | none ↦
        let none_yet = fl.of_int (pos 0) in
        record { load1 = none_yet; load5 = none_yet; load15 = none_yet }
  ];
  task_count = pos 0;
}
