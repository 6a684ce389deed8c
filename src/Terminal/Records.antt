-- ===== src/Terminal/Records.antt =====
-- src/terminal.rs, run_session: the records of a session.
use caroba_guard.Prelude.{
  ℕ, ◌<◌, ◌≡◌, refl, subst, ◌≢◌, ◌⊎◌, inl, inr, Bool, true, false, Option, none, some, List, [],
  ◌∷◌, ◌++◌, arith, Bool-cases, map_option, All, Bytes,
}
use caroba_guard.Terminal.Session.{
  saturating_add, run_loop, ClientMessage, Event, TerminalConfig, Closed,
}
use caroba_guard.Terminal.{PtySize}
use caroba_guard.Terminal.Pty.{hang_up, kill_child, may_signal, cleanup_signals, Signal}
use caroba_guard.Terminal.Lifetime.{
  open_event, close_event, record_close, signals, undelivered, ended, connected, entering,
  after_open, around_loop, run_session, World, Outcome,
}
use caroba_guard.Auth.{AuthUser}
use caroba_guard.Audit.{row, record_event-row, AuditEvent}
use caroba_guard.Terminal.Counts.{shown_by, sum_of, typed_by, run_loop-Counts, Reads}

abbrev pub IsSafe : ℕ → Signal → Type 0
IsSafe own_group (hang_up group) = (1 < group) × (group ≢ own_group)
IsSafe own_group kill_child = Unit {0}

cleanup_signals-IsSafe :
    (leader : Option ℕ) (own_group : ℕ) (alive : Bool)
    → All (IsSafe own_group) (cleanup_signals leader own_group alive)
unfolding cleanup_signals
cleanup_signals-IsSafe leader own_group false = tt
cleanup_signals-IsSafe none own_group true = (tt, tt)
cleanup_signals-IsSafe (some group) own_group true =
    elim (Bool-cases (may_signal own_group group)) [
      | inl m ↦ rw (m, cleanup_signals) ((ground arith, λ e. ground arith), (tt, tt))
      | inr n ↦ rw (n, cleanup_signals) (tt, tt)
    ]

module _ (user : AuthUser) (world : World) (decode : Bytes → Option ClientMessage)
    (config : TerminalConfig) (size : PtySize) where
  -- A session's end: the two records, the events that were read, and what the second one counts in them.
  pub record Recorded (events : List Event) (audit : List AuditEvent) (o : Outcome) : Type 0 where
    pub closed : Closed
    pub consumed : List Event
    pub after : List Event
    pub events_split : events ≡ consumed ++ after
    -- The loop has read exactly these, or the status could not be sent and it did not run.
    pub read_by :
        Reads decode config world.started (entering user world) consumed closed
        ⊎ ((world.status_is_sent ≡ false) × (consumed ≡ []) × (closed ≡ undelivered user world))
    pub typed_counted :
        closed.session.input_bytes ≡ saturating_add 0 (sum_of (typed_by decode) consumed)
    pub shown_counted : closed.session.output_bytes ≡ saturating_add 0 (sum_of shown_by consumed)
    pub records :
        o.audit_events
        ≡ row world.close_audit (close_event user world closed)
          ∷ row world.open_audit (open_event user world size)
          ∷ audit
    pub signals_safe : All (IsSafe world.own_group) o.signals

  record_close-eq :
      (c : Closed) (events : List AuditEvent)
      → world.close_audit.fails ≡ false
      → record_close user world c events ≡ row world.close_audit (close_event user world c) ∷ events
  unfolding record_close
  record_close-eq c events h =
      rw (record_event-row world.close_audit (close_event user world c) events h) refl

  served-Recorded :
      (events : List Event) (audit : List AuditEvent) (c : Closed)
      → run_loop decode config world.started events (entering user world) ≡ some c
      → world.close_audit.fails ≡ false
      → Recorded events audit (
          ended user world
            (connected user world)
            c
            (row world.open_audit (open_event user world size) ∷ audit))
  served-Recorded events audit c l closed =
      let (consumed, after, split_at, reads, counted) =
        run_loop-Counts decode config world.started events (entering user world)
          (omega arith, omega arith) l in
      record {
        closed = c;
        consumed = consumed;
        after = after;
        events_split = split_at;
        read_by = inl reads;
        typed_counted = counted.0;
        shown_counted = counted.1;
        records = record_close-eq c _ closed;
        signals_safe = cleanup_signals-IsSafe world.leader world.own_group world.child_is_running;
      }

  undelivered-Recorded :
      (events : List Event) (audit : List AuditEvent)
      → world.status_is_sent ≡ false
      → world.close_audit.fails ≡ false
      → Recorded events audit (record {
        sent = connected user world;
        signals = signals user world;
        audit_events =
            record_close user world
              (undelivered user world)
              (row world.open_audit (open_event user world size) ∷ audit);
      })
  undelivered-Recorded events audit unsent closed = record {
    closed = undelivered user world;
    consumed = [];
    after = events;
    events_split = refl;
    read_by = inr (unsent, refl, refl);
    typed_counted = refl;
    shown_counted = refl;
    records = record_close-eq (undelivered user world) _ closed;
    signals_safe = cleanup_signals-IsSafe world.leader world.own_group world.child_is_running;
  }

  after_open-Recorded :
      (events : List Event) (audit : List AuditEvent) (looped : Option Closed) {o : Outcome}
      → run_loop decode config world.started events (entering user world) ≡ looped
      → after_open user world audit looped
          (some (row world.open_audit (open_event user world size) ∷ audit))
        ≡ some o
      → world.close_audit.fails ≡ false
      → Recorded events audit o
  unfolding record_close
  after_open-Recorded events audit looped {o} l e closed = elim (Bool-cases world.status_is_sent) [
    | inl s ↦ of_loop looped l (rw s at e)
    | inr n ↦
        subst (Recorded events audit) (some-inj (rw n at e))
          (undelivered-Recorded events audit n closed)
  ]
    where
      some-inj : {a b : Outcome} → some a ≡ some b → a ≡ b
      some-inj h = cc

      of_loop :
          (looped : Option Closed)
          → run_loop decode config world.started events (entering user world) ≡ looped
          → map_option
              (λ c.
                ended user world
                  (connected user world)
                  c
                  (row world.open_audit (open_event user world size) ∷ audit))
              looped
            ≡ some o
          → Recorded events audit o
      of_loop none l h = cc
      of_loop (some c) l h =
          subst (Recorded events audit) (some-inj h) (served-Recorded events audit c l closed)

-- A session whose shell started and whose records could be written has, when it is over, exactly
-- two more records, of its opening and of its end. The events that were read are those up to the one
-- that ends the loop, or none if the status could not be sent, and the second record has how the loop
-- ends there and counts all that was typed and shown in them, up to the largest `u64`. No signal was sent to the program's own process
-- group, or to a group of 0 or 1.
pub run_session-Recorded :
    (user : AuthUser) (world : World) (decode : Bytes → Option ClientMessage)
    (config : TerminalConfig) (size : PtySize) (events : List Event) (audit : List AuditEvent)
    {o : Outcome}
    → run_session user world decode config size events audit ≡ some o
    → world.spawns ≡ true
    → world.open_audit.fails ≡ false
    → world.close_audit.fails ≡ false
    → Recorded user world decode config size events audit o
unfolding run_session around_loop
run_session-Recorded user world decode config size events audit e spawned opened closed =
    after_open-Recorded user world decode config size events audit
      (run_loop decode config world.started events (entering user world)) refl
      (rw (spawned, record_event-row world.open_audit (open_event user world size) audit opened) at
        e)
      closed
