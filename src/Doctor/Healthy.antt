-- ===== src/Doctor/Healthy.antt =====
-- src/doctor.rs, run: when the report has nothing to say.
use caroba_guard.Prelude.{
  ℕ, zero, suc, ◌≤◌, String, ◌≡◌, refl, sym, subst, ◌↔◌, ◌⊎◌, inl, inr, Bool, true, false, none,
  some, List, [], ◌∷◌, arith, ◌==◌, Bool-cases, Option-cases, any, count_if, All, Bytes,
}
use caroba_guard.Doctor.{
  count, is_alarming, is_critical, listed, unlisted, threshold_finding, swap_finding, hottest,
  sensor_finding, Floats, Severity, Finding, UpdateCount, Units, Sensor, Observed, ok, info,
  warning, critical, unavailable, skipped, not_available,
}
use caroba_guard.Doctor.Hottest.{Below, IsNumber, IsCool, hottest-none, hottest-All, hottest-Below}
use std.Logic.{↔_trans}
use caroba_guard.Doctor.Report.{
  failed_names, failed_finding, units_finding, updates_finding, overall_severity, docker_finding,
  services_finding, security_finding, findings, run,
}

abbrev pub Quiet : Finding → Type 0
Quiet x = is_alarming x.severity ≡ false

critical-alarming : (s : Severity) → is_alarming s ≡ false → is_critical s ≡ false
critical-alarming ok h = refl
critical-alarming info h = refl
critical-alarming warning h = cc
critical-alarming critical h = cc
critical-alarming unavailable h = refl

Quiet-counts :
    (found : List Finding)
    → All Quiet found
    → (count_if (λ x. is_alarming x.severity) found ≡ 0)
      × (any (λ x. is_critical x.severity) found ≡ false)
Quiet-counts [] h = (refl, refl)
Quiet-counts (x ∷ found) h =
    let (zero_count, none_critical) = Quiet-counts found h.1 in
    (grind arith, rw (critical-alarming x.severity h.0) none_critical)

counts-Quiet :
    (found : List Finding) → count_if (λ x. is_alarming x.severity) found ≡ 0 → All Quiet found
counts-Quiet [] h = tt
counts-Quiet (x ∷ found) h = elim (Bool-cases (is_alarming x.severity)) [
  | inl e ↦ absurd (grind arith)
  | inr e ↦ (e, counts-Quiet found (grind arith))
]

pub overall_severity-ok_iff :
    (found : List Finding) → (overall_severity found ≡ ok) ↔ All Quiet found
unfolding overall_severity
overall_severity-ok_iff found = (
  (λ h. counts-Quiet found (ground arith)),
  (λ h.
      let (zero_count, none_critical) = Quiet-counts found h in
      ground (arith, zero_count, none_critical)),
)

-- systemd is not there, or its units cannot be listed, or none of them has failed.
abbrev pub UnitsRun : Bool → Units → Type 0
UnitsRun false units = Unit
UnitsRun true (unlisted error) = Unit
UnitsRun true (listed units) = failed_names units ≡ []

failed_finding-Quiet : (names : List Bytes) → Quiet (failed_finding names) ↔ (names ≡ [])
unfolding failed_finding
failed_finding-Quiet [] = ((λ q. refl), (λ q. refl))
failed_finding-Quiet (name ∷ names) = ((λ q. cc), (λ q. cc))

units_finding-Quiet : (units : Units) → Quiet (units_finding units) ↔ UnitsRun true units
unfolding units_finding
units_finding-Quiet (unlisted error) = ((λ q. tt), (λ q. refl))
units_finding-Quiet (listed units) = failed_finding-Quiet (failed_names units)

module _ (f : Floats) where
  pub record Healthy (o : Observed f) : Type 0 where
    pub cpu : Below f 80 o.cpu_percent
    pub memory : Below f 85 o.memory_percent
    pub disk : Below f 85 o.disk_percent
    pub swap : (o.swap_total_bytes ≡ 0) ⊎ Below f 40 o.swap_percent
    pub temperatures : All (IsCool f) o.temperatures
    pub docker : (o.docker_available ≡ true) ⊎ (o.socket_exists ≡ false)
    pub services : UnitsRun o.systemd_available o.units
    pub security : (o.exposed ≡ false) ⊎ (o.cookie_secure ≡ true)

  threshold_finding-Quiet :
      (category label : String) (value : f.F) (warn crit : ℕ) (suffix : String)
      → warn ≤ crit
      → Quiet (threshold_finding f category label value warn crit suffix) ↔ Below f warn value
  unfolding threshold_finding
  threshold_finding-Quiet category label value warn crit suffix h =
      let lower = f.ge_lower value warn crit h in
      ((λ q. ground (arith, q, lower)), (λ q. ground (arith, q, lower)))

  swap_finding-Quiet :
      (o : Observed f)
      → Quiet (swap_finding f o) ↔ ((o.swap_total_bytes ≡ 0) ⊎ Below f 40 o.swap_percent)
  unfolding swap_finding
  swap_finding-Quiet o =
      let quiet =
        threshold_finding-Quiet "swap" "Swap" o.swap_percent 40 80 "% used" (omega arith) in
      elim (Bool-cases (o.swap_total_bytes == 0)) [
        | inl e ↦ ((λ q. inl (ground (arith, e))), (λ q. rw e refl))
        | inr e ↦ ((λ q. inr (quiet.0 (rw e at q))), (λ q. ground (arith, e, q, quiet.1)))
      ]

  some_sensor-Quiet : (s : Sensor f) → Quiet (sensor_finding f (some s)) ↔ Below f 80 s.celsius
  unfolding sensor_finding
  some_sensor-Quiet s =
      let lower = f.ge_lower s.celsius 80 90 (omega arith) in
      ((λ q. ground (arith, q, lower)), (λ q. ground (arith, q, lower)))

  none-Quiet : Quiet (sensor_finding f none)
  unfolding sensor_finding
  none-Quiet = refl

  sensor_finding-Quiet :
      (ss : List (Sensor f))
      → All (IsNumber f) ss
      → Quiet (sensor_finding f (hottest f ss)) ↔ All (IsCool f) ss
  sensor_finding-Quiet ss n = elim (Option-cases (hottest f ss)) [
    | inl e ↦ ((λ q. subst (All (IsCool f)) (sym (hottest-none f ss e)) tt), (λ q. rw e none-Quiet))
    | inr (t, e) ↦ (
      (λ q. hottest-Below f ss n e ((some_sensor-Quiet t).0 (rw e at q))),
      (λ q. rw e ((some_sensor-Quiet t).1 (hottest-All f (IsCool f) ss q e))),
    )
  ]

  services_finding-Quiet :
      (o : Observed f) → Quiet (services_finding f o) ↔ UnitsRun o.systemd_available o.units
  unfolding services_finding
  services_finding-Quiet o = elim (Bool-cases o.systemd_available) [
    | inl e ↦ (
      (λ q. rw e ((units_finding-Quiet o.units).0 (rw e at q))),
      (λ q. rw e ((units_finding-Quiet o.units).1 (rw e at q))),
    )
    | inr e ↦ ((λ q. rw e tt), (λ q. rw e refl))
  ]

  docker_finding-Quiet :
      (o : Observed f)
      → Quiet (docker_finding f o) ↔ ((o.docker_available ≡ true) ⊎ (o.socket_exists ≡ false))
  unfolding docker_finding
  docker_finding-Quiet o = elim (Bool-cases o.docker_available) [
    | inl e ↦ ((λ q. inl e), (λ q. rw e refl))
    | inr e ↦ ((λ q. inr (ground (arith, e, q))), (λ q. ground (arith, e, q)))
  ]

  security_finding-Quiet :
      (o : Observed f)
      → Quiet (security_finding f o) ↔ ((o.exposed ≡ false) ⊎ (o.cookie_secure ≡ true))
  unfolding security_finding
  security_finding-Quiet o = elim (Bool-cases o.exposed) [
    | inl e ↦ ((λ q. inr (ground (arith, e, q))), (λ q. ground (arith, e, q)))
    | inr e ↦ ((λ q. inl e), (λ q. rw e refl))
  ]

  updates_finding-Quiet : (updates : UpdateCount) → Quiet (updates_finding updates)
  unfolding updates_finding
  updates_finding-Quiet (count zero) = refl
  updates_finding-Quiet (count (suc n)) = refl
  updates_finding-Quiet skipped = refl
  updates_finding-Quiet not_available = refl

  findings-Quiet :
      (o : Observed f) → All (IsNumber f) o.temperatures → All Quiet (findings f o) ↔ Healthy o
  unfolding findings
  findings-Quiet o n =
      let cpu = threshold_finding-Quiet "cpu" "CPU" o.cpu_percent 80 95 "%" (omega arith) in
      let memory =
        threshold_finding-Quiet "memory" "Memory" o.memory_percent 85 95 "%" (omega arith) in
      let disk =
        threshold_finding-Quiet "disk" "Disk" o.disk_percent 85 95 "% used on /" (omega arith) in
      let temperatures = sensor_finding-Quiet o.temperatures n in
      (
        (λ q.
            let (a, (b, (c, (d, (t, (e, (s, (u, (x, _))))))))) = q in
            record {
              cpu = cpu.0 a;
              memory = memory.0 b;
              disk = disk.0 c;
              swap = (swap_finding-Quiet o).0 d;
              temperatures = temperatures.0 t;
              docker = (docker_finding-Quiet o).0 e;
              services = (services_finding-Quiet o).0 s;
              security = (security_finding-Quiet o).0 x;
            }),
        (λ h. (
          cpu.1 h.cpu,
          (
            memory.1 h.memory,
            (
              disk.1 h.disk,
              (
                (swap_finding-Quiet o).1 h.swap,
                (
                  temperatures.1 h.temperatures,
                  (
                    (docker_finding-Quiet o).1 h.docker,
                    (
                      (services_finding-Quiet o).1 h.services,
                      (updates_finding-Quiet _, ((security_finding-Quiet o).1 h.security, tt)),
                    ),
                  ),
                ),
              ),
            ),
          ),
        )),
      )

  -- Where no sensor reports a value that is not a number: the report says that all is well exactly if the
  -- use of the processors is below 80 %, of the memory and of the disk below 85 %, of the swap space below
  -- 40 % or there is none, every sensor is below 80 degrees, Docker answers or its socket does not exist,
  -- no unit that systemd can list has failed, and the panel is bound to a loopback address or its cookies
  -- are Secure. What is not a number counts as below.
  pub run-ok_iff :
      (o : Observed f) → All (IsNumber f) o.temperatures → ((run f o).overall ≡ ok) ↔ Healthy o
  unfolding run
  run-ok_iff o n = ↔_trans (overall_severity-ok_iff (findings f o)) (findings-Quiet o n)
