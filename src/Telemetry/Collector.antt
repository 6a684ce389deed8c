-- ===== src/Telemetry/Collector.antt =====
-- src/telemetry.rs, spawn_collector: one round of the loop, in the parts between
-- which it waits, for its sleep, the database, the lock of the latest sample and its own statements.
use caroba_guard.Prelude.{
  ℕ, ◌+◌, ◌-◌, ◌*◌, ◌%◌, Bool, not, ◌&&◌, Option, none, some, [], ◌∷◌, ◌++◌, ltb, ◌==◌,
  if◌then◌else◌, unwrap_or, length, Bytes,
}
use caroba_guard.Telemetry.Counters.{u64}
use caroba_guard.Telemetry.HostFiles.{Host}
use caroba_guard.Telemetry.Snapshot.{
  elapsed_between, build_snapshot, Numbers, SystemSnapshot, RawSnapshot,
}
use caroba_guard.Telemetry.Service.{record_sse_bytes, enforce_retention, TelemetryService}

module _ (n : Numbers) where
  -- What a round meets: the reading of the counters, the database and the channel. `none` is a failure.
  pub record Round : Type 0 where
    pub host : Host
    pub current : Option (RawSnapshot n)
    pub now : ℕ
    pub unix_now : ℕ
    pub database_size : Option ℕ
    pub receiver_count : ℕ
    pub to_json : SystemSnapshot n → Option Bytes
    pub insert_fails : Bool
    pub retention_fails : Bool

  -- What has been read before the size of the database is: `interval` is in the collector.
  pub record Taken : Type 0 where
    pub current : RawSnapshot n
    pub performance_mode : Bool
    pub sse_bytes_per_sec : n.F
    pub db_writes_per_minute : n.F

  -- Where the loop stands: at its head, in its sleep, before the new sample is the latest one, before it is
  -- stored, and before the retention.
  pub data Stage : Type 0 where
    looping asleep : Stage
    took : Taken → Stage
    showed : SystemSnapshot n → Stage
    kept : Stage

  -- The variables of the loop beside the service: `interval` is what was read before the sleep.
  pub record Collector : Type 0 where
    pub service : TelemetryService n
    pub previous : RawSnapshot n
    pub samples : ℕ
    pub interval : ℕ
    pub stage : Stage

  abbrev pub wake_at : Stage → Collector → Collector
  wake_at looping c = record c { interval = c.service.interval_seconds; stage = asleep }
  wake_at _ c = c

  -- From the head of the loop to the sleep.
  unfoldable pub wake : Collector → Collector
  wake c = wake_at c.stage c

  abbrev pub wrote : TelemetryService n → TelemetryService n
  wrote service = record service { db_writes = (service.db_writes + 1) % u64 }

  abbrev counted_bytes : Option Bytes → ℕ → TelemetryService n → TelemetryService n
  counted_bytes none subscribers service = service
  counted_bytes (some payload) subscribers service =
      if ltb 0 subscribers
      then record_sse_bytes n ((length payload * subscribers) % u64) service
      else service

  -- The new sample is the latest one, and is sent.
  abbrev pub publish : Round → SystemSnapshot n → TelemetryService n → TelemetryService n
  publish round snapshot service =
      let counted =
        counted_bytes (round.to_json snapshot) round.receiver_count
          (record service { latest = snapshot }) in
      record counted { events = counted.events ++ snapshot ∷ [] }

  abbrev insert_sample : ℕ → SystemSnapshot n → Bytes → TelemetryService n → TelemetryService n
  insert_sample seconds snapshot payload service = record service {
    db = record service.db {
      telemetry_samples =
          service.db.telemetry_samples
          ++ record {
            sampled_at = snapshot.sampled_at;
            resolution_seconds = seconds;
            columns = snapshot;
            payload_json = payload;
          }
            ∷ [];
    };
  }

  abbrev pub stored :
      Round → ℕ → SystemSnapshot n → TelemetryService n → Option Bytes → TelemetryService n
  stored round seconds snapshot service none = service
  stored round seconds snapshot service (some payload) =
      if round.insert_fails then service else wrote (insert_sample seconds snapshot payload service)

  abbrev pub store_sample : Round → ℕ → SystemSnapshot n → TelemetryService n → TelemetryService n
  store_sample round seconds snapshot service =
      stored round seconds snapshot service (round.to_json snapshot)

  -- Every 240th sample.
  abbrev pub retain : Round → ℕ → TelemetryService n → TelemetryService n
  retain round samples service =
      if samples % 240 == 0 && not round.retention_fails
      then wrote (record service { db = enforce_retention n round.unix_now service.db })
      else service

  abbrev writes_per_minute : ℕ → TelemetryService n → n.F
  writes_per_minute now service =
      n.over (n.times (n.of_u64 service.db_writes) (n.of_u64 60))
        (n.max_of (n.as_secs (now - service.started)) (n.of_u64 1))

  -- The count of bytes starts again.
  abbrev pub take_at : Stage → Round → Option (RawSnapshot n) → Collector → Collector
  take_at asleep round none c = record c { stage = looping }
  take_at asleep round (some current) c = record c {
    service = record (c.service) { sse_bytes = 0 };
    stage = took (record {
      current = current;
      performance_mode = c.service.performance_mode;
      sse_bytes_per_sec =
          n.over (n.of_u64 c.service.sse_bytes) (elapsed_between n c.previous current);
      db_writes_per_minute = writes_per_minute round.now c.service;
    });
  }
  take_at _ round current c = c

  -- From the sleep to the query of the size of the database.
  unfoldable pub take_counts : Round → Collector → Collector
  take_counts round c = take_at c.stage round round.current c

  abbrev pub snapshot_of_taken : Round → Collector → Taken → Option (SystemSnapshot n)
  snapshot_of_taken round c t =
      build_snapshot n round.host c.previous t.current c.interval t.performance_mode
        (unwrap_or round.database_size 0) t.sse_bytes_per_sec t.db_writes_per_minute

  abbrev pub show_built : Round → RawSnapshot n → Option (SystemSnapshot n) → Collector → Collector
  show_built round current none c = record c { previous = current; stage = looping }
  show_built round current (some snapshot) c = record c {
    previous = current;
    service = publish round snapshot c.service;
    stage = showed snapshot;
  }

  abbrev pub show_at : Stage → Round → Collector → Collector
  show_at (took t) round c = show_built round t.current (snapshot_of_taken round c t) c
  show_at _ round c = c

  -- From there to the insertion of the sample, with the lock of the latest one.
  unfoldable pub show_sample : Round → Collector → Collector
  unfolding build_snapshot
  show_sample round c = show_at c.stage round c

  abbrev pub keep_at : Stage → Round → Collector → Collector
  keep_at (showed snapshot) round c = record c {
    service = store_sample round c.interval snapshot c.service;
    samples = (c.samples + 1) % u64;
    stage = kept;
  }
  keep_at _ round c = c

  -- The insertion, with its count.
  unfoldable pub keep_sample : Round → Collector → Collector
  keep_sample round c = keep_at c.stage round c

  abbrev pub retain_at : Stage → Round → Collector → Collector
  retain_at kept round c = record c { service = retain round c.samples c.service; stage = looping }
  retain_at _ round c = c

  -- From there to the end of the loop.
  unfoldable pub end_round : Round → Collector → Collector
  unfolding enforce_retention
  end_round round c = retain_at c.stage round c
