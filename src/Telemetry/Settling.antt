-- ===== src/Telemetry/Settling.antt =====
-- src/telemetry.rs: what an undisturbed round of the collector shows, whatever came before it.
use caroba_guard.Prelude.{
  ℕ, ◌≡◌, refl, sym, ap, subst, ◌∙◌, inl, inr, Bool, some, List, [], ◌∷◌, ◌++◌, Option-cases,
}
use caroba_guard.Telemetry.HostFiles.{DiskBlocks, Host}
use caroba_guard.Telemetry.Snapshot.{
  snapshot_of, build_snapshot, Numbers, SystemSnapshot, RawSnapshot,
}
use caroba_guard.Telemetry.Collector.{
  wake_at, wake, take_at, take_counts, snapshot_of_taken, show_built, show_sample, Round, Taken,
  Collector, looping, asleep,
}
use caroba_guard.Telemetry.Reachable.{InRange, Reach-IsSound, Reach}
use caroba_guard.Telemetry.Published.{publish-Shows, publish-sends, build_snapshot-shows}
use caroba_guard.Telemetry.Service.{TelemetryService}

module _ (n : Numbers) where
  -- With the settings of `before`, which are left alone, the collector has waited and made the latest sample,
  -- which it has sent.
  pub record Settled (before : TelemetryService n) (after : Collector n) : Type 0 where
    pub waits : after.interval ≡ before.interval_seconds
    pub bounds : InRange n after.interval
    pub seconds : after.service.latest.telemetry_interval_seconds ≡ before.interval_seconds
    pub mode : after.service.latest.performance_mode ≡ before.performance_mode
    pub sent : after.service.events ≡ before.events ++ after.service.latest ∷ []
    pub same_seconds : after.service.interval_seconds ≡ before.interval_seconds
    pub same_mode : after.service.performance_mode ≡ before.performance_mode

  build_snapshot-some :
      (host : Host) (disk : DiskBlocks) (previous current : RawSnapshot n) (seconds : ℕ)
      (mode : Bool) (size : ℕ) (sse writes : n.F)
      → host.root_disk ≡ some disk
      → (x : SystemSnapshot n) × (build_snapshot n host previous current seconds mode size sse
            writes
          ≡ some x)
  unfolding build_snapshot snapshot_of
  build_snapshot-some host disk previous current seconds mode size sse writes used =
      elim (Option-cases (build_snapshot n host previous current seconds mode size sse writes)) [
        | inl e ↦ absurd (cc (rw (used, build_snapshot) at e))
        | inr found ↦ found
      ]

  -- The collector at the head of its loop, after its sleep and the reading of `current`.
  abbrev counted_next : Round n → RawSnapshot n → Collector n → Collector n
  counted_next round current c = take_at n asleep round (some current) (wake_at n looping c)

  take_counts-wake :
      (round : Round n) (current : RawSnapshot n) (c : Collector n)
      → c.stage ≡ looping
      → round.current ≡ some current
      → take_counts n round (wake n c) ≡ counted_next round current c
  unfolding wake take_counts
  take_counts-wake round current c at_head read =
      ap (λ s. take_counts n round (wake_at n s c)) at_head
      ∙ ap (λ o. take_at n asleep round o (wake_at n looping c)) read

  -- What is shown is settled when what was taken is what `before` has.
  show_built-Settled :
      (before : TelemetryService n) (round : Round n) (c : Collector n) (t : Taken n)
      (x : SystemSnapshot n)
      → snapshot_of_taken n round c t ≡ some x
      → c.interval ≡ before.interval_seconds
      → InRange n c.interval
      → t.performance_mode ≡ before.performance_mode
      → c.service.interval_seconds ≡ before.interval_seconds
      → c.service.performance_mode ≡ before.performance_mode
      → c.service.events ≡ before.events
      → Settled before (show_built n round t.current (some x) c)
  show_built-Settled before round c t x e waits bounds taken same_seconds same_mode same_events =
      let (seconds, mode) =
        build_snapshot-shows n round.host c.previous t.current c.interval t.performance_mode _ _ _
          e in
      let s = publish-Shows n round x c.service in
      record {
        waits = waits;
        bounds = bounds;
        seconds = rw s.latest (seconds ∙ waits);
        mode = rw s.latest (mode ∙ taken);
        sent = rw s.latest (
            publish-sends n round x c.service
            ∙ ap (λ (l : List (SystemSnapshot n)). l ++ x ∷ []) same_events);
        same_seconds = s.seconds ∙ same_seconds;
        same_mode = s.mode ∙ same_mode;
      }

  show_sample-Settled :
      (round : Round n) (current : RawSnapshot n) (disk : DiskBlocks) (c : Collector n)
      → InRange n c.service.interval_seconds
      → round.host.root_disk ≡ some disk
      → Settled c.service (show_sample n round (counted_next round current c))
  unfolding show_sample
  show_sample-Settled round current disk c bounds used =
      let d = counted_next round current c in
      let (x, e) =
        build_snapshot-some round.host disk d.previous current d.interval c.service.performance_mode
          _ _ _ used in
      subst (λ o. Settled c.service (show_built n round current o d)) (sym e)
        (show_built-Settled c.service round d _ x e refl bounds refl refl refl refl)

  abbrev pub shown_next : Round n → Collector n → Collector n
  shown_next round c = show_sample n round (take_counts n round (wake n c))

  -- However calls of configure interleave with each other and with the collector: from the head of its loop,
  -- a round that no call disturbs, in which the counters and the use of the disk can be read, waits for the
  -- interval of the service, which is from 5 s to 60 s, makes the latest sample show the interval and
  -- the mode of the service, sends that sample once, and leaves the interval and the mode of the service as they are.
  pub Reach-Settled :
      {c : Collector n} (round : Round n) (current : RawSnapshot n) (disk : DiskBlocks)
      → Reach n c
      → c.stage ≡ looping
      → round.current ≡ some current
      → round.host.root_disk ≡ some disk
      → Settled c.service (shown_next round c)
  Reach-Settled {c} round current disk r at_head read used =
      rw (take_counts-wake round current c at_head read)
        (show_sample-Settled round current disk c (Reach-IsSound n r).seconds used)
