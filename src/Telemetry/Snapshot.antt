-- ===== src/Telemetry/Snapshot.antt =====
-- src/telemetry.rs: the sample that two readings of the counters give. `f64` is the record Numbers. A text is the list of its code points.
use caroba_guard.Prelude.{
  ℕ, ◌+◌, ◌-◌, ◌%◌, Bool, ◌&&◌, Option, none, some, List, [], ◌∷◌, ◌==◌, if◌then◌else◌, unwrap_or,
  get_elem?, drop, codes, starts_with, Chars,
}
use caroba_guard.Telemetry.HostFiles.{
  read_trimmed, os_pretty_name, read_cpu_frequency, root_disk_usage, ThermalZone, Host,
}
use caroba_guard.Telemetry.Counters.{u64, mem, CpuCounter}

pub record Numbers : Type 1 where
  pub F : Type 0
  pub of_u64 : ℕ → F
  pub thousandth : F
  pub minus : F → F
  pub abs : F → F
  pub times : F → F → F
  pub over : F → F → F
  pub max_of : F → F → F
  pub gt : F → F → Bool
  pub le : F → F → Bool
  pub parse : Chars → Option F
  pub as_secs : ℕ → F

module _ (n : Numbers) where
  pub record MemoryMetrics : Type 0 where
    pub used_bytes : ℕ
    pub total_bytes : ℕ
    pub percent : n.F

  pub record DiskMetrics : Type 0 where
    pub used_bytes : ℕ
    pub total_bytes : ℕ
    pub percent : n.F
    pub read_bytes_per_sec : n.F
    pub write_bytes_per_sec : n.F

  pub record NetworkMetrics : Type 0 where
    pub received_bytes_per_sec : n.F
    pub transmitted_bytes_per_sec : n.F
    pub total_received_bytes : ℕ
    pub total_transmitted_bytes : ℕ

  pub record Temperature : Type 0 where
    pub label : Chars
    pub celsius : n.F

  pub record SelfMetrics : Type 0 where
    pub cpu_percent : n.F
    pub memory_bytes : ℕ
    pub disk_bytes : ℕ
    pub network_bytes_per_sec : n.F
    pub db_writes_per_minute : n.F

  pub record SystemSnapshot : Type 0 where
    pub sampled_at : ℕ
    pub hostname : Chars
    pub os : Chars
    pub kernel : Chars
    pub architecture : Chars
    pub uptime_seconds : n.F
    pub load_average : n.F × n.F × n.F
    pub cpu_percent : n.F
    pub per_core_percent : List n.F
    pub cpu_frequency_mhz : Option ℕ
    pub memory : MemoryMetrics
    pub swap : MemoryMetrics
    pub disk : DiskMetrics
    pub network : NetworkMetrics
    pub temperatures : List Temperature
    pub process_count : ℕ
    pub carobaguard : SelfMetrics
    pub telemetry_interval_seconds : ℕ
    pub performance_mode : Bool

  -- `collected_at` counts nanoseconds.
  pub record RawSnapshot : Type 0 where
    pub collected_at : ℕ
    pub timestamp : ℕ
    pub cpu : List CpuCounter
    pub process_ticks : ℕ
    pub memory : List (Chars × ℕ)
    pub network_rx : ℕ
    pub network_tx : ℕ
    pub disk_read_sectors : ℕ
    pub disk_write_sectors : ℕ
    pub uptime : n.F
    pub load : n.F × n.F × n.F
    pub process_count : ℕ
    pub self_memory : ℕ

  -- The share of `part` in a total that is not 0.
  abbrev pub share : ℕ → ℕ → n.F
  share part total =
      if total == 0
      then n.of_u64 0
      else n.times (n.over (n.of_u64 part) (n.of_u64 total)) (n.of_u64 100)

  abbrev pub percent : ℕ → ℕ → n.F
  percent used total = share used total

  abbrev usage : ℕ → ℕ → MemoryMetrics
  usage used total = record { used_bytes = used; total_bytes = total; percent = percent used total }

  abbrev pub counter_percent : CpuCounter → CpuCounter → n.F
  counter_percent previous current =
      let total = current.total - previous.total in
      let idle = current.idle - previous.idle in share (total - idle) total

  abbrev percentages : List CpuCounter → List CpuCounter → List n.F
  percentages [] before = []
  percentages (now ∷ nows) [] = []
  percentages (now ∷ nows) (before ∷ befores) =
      counter_percent before now ∷ percentages nows befores

  abbrev total_delta : List CpuCounter → List CpuCounter → ℕ
  total_delta [] before = 0
  total_delta (now ∷ nows) [] = 0
  total_delta (now ∷ nows) (before ∷ befores) = now.total - before.total

  abbrev celsius_of : Option Chars → Option n.F
  celsius_of none = none
  celsius_of (some raw) = n.parse raw

  abbrev scaled : n.F → n.F
  scaled celsius =
      if n.gt (n.abs celsius) (n.of_u64 1000) then n.over celsius (n.of_u64 1000) else celsius

  abbrev plausible : n.F → Bool
  plausible celsius = n.le (n.minus (n.of_u64 50)) celsius && n.le celsius (n.of_u64 250)

  abbrev add_zone : ThermalZone → List Temperature → List Temperature
  add_zone zone rest = elim (celsius_of (read_trimmed zone.temp)) [
    | none ↦ rest
    | some celsius ↦
        if plausible (scaled celsius)
        then record {
          label = unwrap_or (read_trimmed zone.kind) zone.file_name;
          celsius = scaled celsius;
        }
          ∷ rest
        else rest
  ]

  pub zone_temperatures : List ThermalZone → List Temperature
  zone_temperatures [] = []
  zone_temperatures (zone ∷ zones) =
      let rest = zone_temperatures zones in
      if starts_with (codes "thermal_zone") zone.file_name then add_zone zone rest else rest

  unfoldable pub read_temperatures : Option (List ThermalZone) → List Temperature
  unfolding zone_temperatures
  read_temperatures none = []
  read_temperatures (some zones) = zone_temperatures zones

  abbrev pub elapsed_between : RawSnapshot → RawSnapshot → n.F
  elapsed_between previous current =
      n.max_of (n.as_secs (current.collected_at - previous.collected_at)) n.thousandth

  abbrev rate : ℕ → ℕ → n.F → n.F
  rate now before elapsed = n.over (n.of_u64 (now - before)) elapsed

  abbrev sector_rate : ℕ → ℕ → n.F → n.F
  sector_rate now before elapsed = n.over (n.times (n.of_u64 (now - before)) (n.of_u64 512)) elapsed

  unfoldable pub snapshot_of :
      Host → RawSnapshot → RawSnapshot → ℕ → Bool → ℕ → n.F → n.F → ℕ × ℕ → SystemSnapshot
  unfolding mem read_temperatures
  snapshot_of host previous current interval performance_mode database_bytes sse writes
        (disk_total, disk_used) =
      let elapsed = elapsed_between previous current in
      let total_memory = mem current.memory "MemTotal" in
      let total_swap = mem current.memory "SwapTotal" in
      record {
        sampled_at = current.timestamp;
        hostname = unwrap_or (read_trimmed host.hostname) (codes "unknown");
        os = os_pretty_name host.os_release;
        kernel = unwrap_or (read_trimmed host.kernel) (codes "unknown");
        architecture = host.architecture;
        uptime_seconds = current.uptime;
        load_average = current.load;
        cpu_percent = unwrap_or (get_elem? (percentages current.cpu previous.cpu) 0) (n.of_u64 0);
        per_core_percent = drop 1 (percentages current.cpu previous.cpu);
        cpu_frequency_mhz = read_cpu_frequency host.cpu_frequency;
        memory = usage (total_memory - mem current.memory "MemAvailable") total_memory;
        swap = usage (total_swap - mem current.memory "SwapFree") total_swap;
        disk = record {
          used_bytes = disk_used;
          total_bytes = disk_total;
          percent = percent disk_used disk_total;
          read_bytes_per_sec =
              sector_rate current.disk_read_sectors previous.disk_read_sectors elapsed;
          write_bytes_per_sec =
              sector_rate current.disk_write_sectors previous.disk_write_sectors elapsed;
        };
        network = record {
          received_bytes_per_sec = rate current.network_rx previous.network_rx elapsed;
          transmitted_bytes_per_sec = rate current.network_tx previous.network_tx elapsed;
          total_received_bytes = current.network_rx;
          total_transmitted_bytes = current.network_tx;
        };
        temperatures = read_temperatures host.thermal;
        process_count = current.process_count;
        carobaguard = record {
          cpu_percent =
              share (current.process_ticks - previous.process_ticks)
                (total_delta current.cpu previous.cpu);
          memory_bytes = current.self_memory;
          disk_bytes = (unwrap_or host.executable_bytes 0 + database_bytes) % u64;
          network_bytes_per_sec = sse;
          db_writes_per_minute = writes;
        };
        telemetry_interval_seconds = interval;
        performance_mode = performance_mode;
      }

  unfoldable pub build_snapshot :
      Host → RawSnapshot → RawSnapshot → ℕ → Bool → ℕ → n.F → n.F → Option SystemSnapshot
  unfolding snapshot_of
  build_snapshot host previous current interval performance_mode database_bytes sse writes =
      elim (root_disk_usage host.root_disk) [
        | none ↦ none
        | some disk ↦ some (
            snapshot_of host previous current interval performance_mode database_bytes sse writes
              disk)
      ]
