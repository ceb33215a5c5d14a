-- ===== src/Ingest/Attempt.antt =====
-- The attempts on an update and its settlement: internal/ingest/attempt.go, settle.go and offset.go.
use Prim.Native.String.{String, ◌++◌}
use lab_game.Prelude.{
  ℕ, zero, suc, ◌+◌, ◌-◌, ◌==◌, Bool, true, false, if◌then◌else◌, ◌∷◌, Option, none, some,
}
use lab_game.Prelude.Int.{ℤ, pos, ◌+ℤ◌}
use lab_game.Ingest.Kind.{date_of, chat_of}
use lab_game.Ingest.Router.{Update, Handler, Handled, returned, already_posted, errored, panicked}
use lab_game.Ingest.State.{
  DeadUpdate, Outcome, handled, duplicate, unrouted, failed, panic, given_up, World, Server,
  advanced, after, observe_update,
}

abbrev pub next_of : Update → ℤ
next_of u = u.raw.update_id +ℤ pos 1

abbrev pub dead_update : Update → ℕ → Option String → DeadUpdate
dead_update u attempts last = record {
  update_id = u.raw.update_id;
  kind = u.kind;
  chat_id = chat_of u.raw;
  consecutive_failures = attempts;
  last_error = elim last [ none ↦ "" | some e ↦ e ];
}

module _ {D : Type 0} where
  abbrev pub report_attempt : Update → ℕ → Outcome → World D → World D
  report_attempt u attempt outcome w =
      observe_update
        (record {
          kind = u.kind;
          attempt = attempt;
          outcome = outcome;
          lag_from = date_of u.raw;
          derivation_failed = none;
        })
        w

  -- BEGIN, the statements, COMMIT: three calls where nothing fails. After a failed statement one more rolls back.
  unfoldable pub advance_offset_fresh : Server → Update → World D → Option String × World D
  advance_offset_fresh v u w = elim (v.fault w.calls) [
    | some e ↦ (some ("ingest: begin offset advance: " ++ e), after (w.calls + 1) w)
    | none ↦ elim (v.fault (w.calls + 1)) [
      | some e ↦ (some ("ingest: advance offset: " ++ e), after (w.calls + 3) w)
      | none ↦ elim (v.fault (w.calls + 2)) [
        | some e ↦ (some ("ingest: commit offset advance: " ++ e), after (w.calls + 3) w)
        | none ↦ (
          none,
          record w {
            tables = record w.tables { offset = advanced (next_of u) w.tables.offset };
            calls = w.calls + 3;
          },
        )
      ]
    ]
  ]

  -- `derivation` is the error of NewUpdate.
  unfoldable pub settle_unrouted :
      Server → Update → Option String → World D → Option String × World D
  settle_unrouted v u derivation w =
      let advance = advance_offset_fresh v u w in
      elim advance.0 [
        | some e ↦ (some e, advance.1)
        | none ↦ (
          none,
          observe_update
              (record {
                kind = u.kind;
                attempt = 0;
                outcome = unrouted;
                lag_from = date_of u.raw;
                derivation_failed = derivation;
              })
              advance.1,
        )
      ]

  unfoldable pub settle_given_up :
      Server → Update → ℕ → Option String → World D → Option String × World D
  settle_given_up v u attempts last w = elim (v.fault w.calls) [
    | some e ↦ (some ("ingest: begin give-up: " ++ e), after (w.calls + 1) w)
    | none ↦ elim (v.fault (w.calls + 1)) [
      | some e ↦ (some ("ingest: write dead update: " ++ e), after (w.calls + 3) w)
      | none ↦ elim (v.fault (w.calls + 2)) [
        | some e ↦ (some ("ingest: advance offset: " ++ e), after (w.calls + 4) w)
        | none ↦ elim (v.fault (w.calls + 3)) [
          | some e ↦ (some ("ingest: commit give-up: " ++ e), after (w.calls + 4) w)
          | none ↦ (
            none,
            report_attempt u (attempts - 1) given_up (record w {
              tables = record w.tables {
                offset = advanced (next_of u) w.tables.offset;
                dead = dead_update u attempts last ∷ w.tables.dead;
              };
              calls = w.calls + 4;
            }),
          )
        ]
      ]
    ]
  ]

  -- From the handler's answer on, where it ran as call `n`: whether the update is settled, and the error of a retry.
  unfoldable pub conclude :
      Server → Update → ℕ → ℕ → Handled D → World D → (Bool × Option String) × World D
  conclude v u attempt n (returned d) w = elim (v.fault (n + 1)) [
    | some e ↦ (
      (false, some ("ingest: advance offset: " ++ e)),
      report_attempt u attempt failed (after (n + 3) w),
    )
    | none ↦ elim (v.fault (n + 2)) [
      | some e ↦ (
        (false, some ("ingest: commit handled attempt: " ++ e)),
        report_attempt u attempt failed (after (n + 3) w),
      )
      | none ↦ (
        (true, none),
        report_attempt u attempt handled (record w {
          tables = record w.tables { offset = advanced (next_of u) w.tables.offset; effects = d };
          calls = n + 3;
        }),
      )
    ]
  ]
  conclude v u attempt n (already_posted e) w =
      let advance = advance_offset_fresh v u (after (n + 2) w) in
      elim advance.0 [
        | some x ↦ ((false, some x), report_attempt u attempt failed advance.1)
        | none ↦ ((true, none), report_attempt u attempt duplicate advance.1)
      ]
  conclude v u attempt n (errored e) w =
      ((false, some e), report_attempt u attempt failed (after (n + 2) w))
  conclude v u attempt n (panicked e) w = (
    (false, some ("ingest: handler panic: " ++ e)),
    report_attempt u attempt panic (after (n + 2) w),
  )

  unfoldable pub attempt_once :
      Server → Handler D → Update → ℕ → World D → (Bool × Option String) × World D
  attempt_once v h u attempt w = elim (v.fault w.calls) [
    | some e ↦ ((false, some ("ingest: begin attempt: " ++ e)), after (w.calls + 1) w)
    | none ↦ conclude v u attempt (w.calls + 1) (h (w.calls + 1) u w.tables.effects) w
  ]

  -- The loop from attempt `k` of `attempts` on, with `left` attempts to go. The wait after a failed attempt has the
  -- number of the next call.
  unfoldable pub attempts_from :
      Server → Handler D → Update → ℕ → ℕ → ℕ → Option String → World D → Option String × World D
  attempts_from v h u attempts zero k last w = settle_given_up v u attempts last w
  attempts_from v h u attempts (suc left) k last w =
      let once = attempt_once v h u k w in
      let rest = attempts_from v h u attempts left (suc k) once.0.1 once.1 in
      if once.0.0
      then (none, once.1)
      else if suc k == attempts
      then settle_given_up v u attempts once.0.1 once.1
      else elim (v.cancelled once.1.calls) [ some e ↦ (some e, once.1) | none ↦ rest ]

  unfoldable pub run_attempts : Server → ℕ → Handler D → Update → World D → Option String × World D
  run_attempts v attempts h u w = attempts_from v h u attempts attempts 0 none w
