-- ===== src/Doctor/Report.antt =====
-- src/doctor.rs: the findings on Docker, systemd, the updates and the network, and the report of run.
use caroba_guard.Prelude.{
  zero, suc, true, false, not, ◌&&◌, List, [], ◌∷◌, ◌++◌, ltb, if◌then◌else◌, unwrap_or, length,
  any, count_if, Bytes, codes, bytes_eq, to_string,
}
use caroba_guard.Doctor.{
  count, finding, no_evidence, one_field, is_alarming, is_critical, listed, unlisted,
  threshold_finding, swap_finding, hottest, sensor_finding, Floats, Severity, Finding, DoctorReport,
  UpdateCount, Units, Observed, ok, info, warning, critical, unavailable, skipped, not_available,
}
use caroba_guard.Doctor.Updates.{available_updates}
use caroba_guard.Context.{
  bool_value, number_value, string_value, array_value, object_value, no_items, item, no_fields,
  field, Items,
}

abbrev pub texts : List Bytes → Items
texts [] = no_items
texts (t ∷ ts) = item (string_value t) (texts ts)

-- The names of the units whose active state is "failed".
abbrev pub failed_names : List (Bytes × Bytes) → List Bytes
failed_names [] = []
failed_names ((name, active_state) ∷ units) =
    if bytes_eq active_state (codes "failed") then name ∷ failed_names units else failed_names units

unfoldable pub failed_finding : List Bytes → Finding
unfolding to_string
failed_finding [] =
    finding "services" ok "Services" (codes "No failed service units were detected.") 10
      (one_field "failed" (array_value no_items))
failed_finding (name ∷ names) =
    finding "services" warning "Failed services detected"
      (to_string (length (name ∷ names)) ++ codes " service unit(s) are failed.") 10
      (one_field "failed" (array_value (texts (name ∷ names))))

unfoldable pub units_finding : Units → Finding
unfolding failed_finding
units_finding (unlisted error) =
    finding "services" unavailable "Unable to inspect services" error 10 no_evidence
units_finding (listed units) = failed_finding (failed_names units)

unfoldable pub updates_finding : UpdateCount → Finding
unfolding to_string
updates_finding (count zero) =
    finding "updates" ok "Updates" (codes "No pending package updates were reported.") 8
      (one_field "count" (number_value (codes "0")))
updates_finding (count (suc n)) =
    finding "updates" info "Updates available"
      (to_string (suc n) ++ codes " package update(s) are visible in the local package database.") 8
      (one_field "count" (number_value (to_string (suc n))))
updates_finding skipped =
    finding "updates" info "Update scan suspended"
      (codes "Performance Mode skips this secondary scan.") 10
      (one_field "performance_mode" (bool_value true))
updates_finding not_available =
    finding "updates" unavailable "Update status unavailable"
      (codes "No supported package-manager query was available.") 8 no_evidence

unfoldable pub overall_severity : List Finding → Severity
overall_severity found =
    if any (λ x. is_critical x.severity) found
    then critical
    else if ltb 0 (count_if (λ x. is_alarming x.severity) found)
    then warning
    else ok

module _ (f : Floats) where
  unfoldable pub docker_finding : Observed f → Finding
  docker_finding o =
      if o.docker_available
      then finding "docker" ok "Docker"
          (codes "Docker Engine " ++ (unwrap_or o.docker_version [] ++ codes " is responding.")) 10
          (one_field "socket" (string_value o.docker_socket))
      else if o.socket_exists
      then finding "docker" warning "Docker socket is not accessible"
          (unwrap_or o.docker_error (codes "Docker API failed.")) 10
          (one_field "socket" (string_value o.docker_socket))
      else finding "docker" info "Docker not installed or disabled"
          (codes "No Docker socket was found; Docker is optional.") 10
          (one_field "socket" (string_value o.docker_socket))

  unfoldable pub services_finding : Observed f → Finding
  unfolding units_finding
  services_finding o =
      if not o.systemd_available
      then finding "services" unavailable "systemd unavailable"
          (unwrap_or o.systemd_error (codes "systemctl failed.")) 10 no_evidence
      else units_finding o.units

  unfoldable pub security_finding : Observed f → Finding
  security_finding o =
      if o.exposed && not o.cookie_secure
      then finding "security" critical "Insecure remote binding"
          (codes "CarobaGuard is listening beyond loopback while Secure cookies are disabled.") 10
          (object_value (
            field (codes "bind") (string_value o.bind)
              (field (codes "secure_cookie") (bool_value false) no_fields)))
      else finding "security" ok "Panel network exposure"
          (if o.exposed
            then codes "Remote bind detected with Secure cookies enabled. Verify HTTPS termination."
            else codes "The panel is bound to loopback only.")
          10 (one_field "bind" (string_value o.bind))

  unfoldable pub findings : Observed f → List Finding
  unfolding threshold_finding swap_finding hottest sensor_finding docker_finding services_finding
      updates_finding security_finding
  findings o =
      threshold_finding f "cpu" "CPU" o.cpu_percent 80 95 "%"
      ∷ threshold_finding f "memory" "Memory" o.memory_percent 85 95 "%"
      ∷ threshold_finding f "disk" "Disk" o.disk_percent 85 95 "% used on /"
      ∷ swap_finding f o
      ∷ sensor_finding f (hottest f o.temperatures)
      ∷ docker_finding o
      ∷ services_finding o
      ∷ updates_finding (available_updates o.performance_mode o.packages)
      ∷ security_finding o
      ∷ []

  unfoldable pub run : Observed f → DoctorReport
  unfolding findings overall_severity
  run o = record {
    checked_at = o.now;
    overall = overall_severity (findings o);
    issues = count_if (λ x. is_alarming x.severity) (findings o);
    findings = findings o;
  }
