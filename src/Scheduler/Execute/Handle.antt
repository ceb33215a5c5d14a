-- ===== src/Scheduler/Execute/Handle.antt =====
-- The call of a handler under a savepoint: internal/scheduler/execute.go.
use Prim.Native.String.{String, ◌++◌}
use lab_game.Prelude.{Bool, true, false, if◌then◌else◌, suc, Option, none, some}
use lab_game.Scheduler.Task.{Task, Outcome, done, failed}
use lab_game.Scheduler.Session.{Server, Session, call}
use lab_game.Scheduler.Registry.{Return, returned, panicked, Handler}

pub record HandlerResult : Type 0 where
  pub outcome : Outcome
  pub handler_err : Option String
  pub release_err : Option String
  pub panicked : Bool

-- The result of a call of the handler, before the savepoint is left.
abbrev pub recovered : Return → HandlerResult
recovered (returned o e) = record {
  outcome = o;
  handler_err = e;
  release_err = none;
  panicked = false;
}
recovered (panicked text) = record {
  outcome = failed;
  handler_err = some ("scheduler: handler panic: " ++ text);
  release_err = none;
  panicked = true;
}

-- handlerErr == nil && outcome == OutcomeDone
abbrev pub is_done : HandlerResult → Bool
is_done r = elim r.handler_err [
  | some e ↦ false
  | none ↦ elim r.outcome [ done ↦ true | _ ↦ false ]
]

module _ {D : Type 0} (v : Server) where
  abbrev pub call_handler_recovered : Handler D → Task → Session D → HandlerResult × Session D
  call_handler_recovered h task s = (recovered (h task s).0, (h task s).1)

  -- ROLLBACK TO SAVEPOINT is accepted in an aborted transaction too. `saved` is the session at the savepoint.
  unfoldable pub rollback_to : Session D → Session D → Option String × Session D
  rollback_to saved s =
      let next = record s { calls = suc s.calls } in
      elim (v.fault s.calls) [
        | none ↦ (none, record next { database = saved.database; aborted = saved.aborted })
        | some e ↦ (some e, record next { aborted = true })
      ]

  -- After the handler's call, where it reported OutcomeDone without an error.
  unfoldable pub release : Session D → Session D → HandlerResult × Session D
  release saved s =
      let r = call v s in
      let back = rollback_to saved r.1 in
      elim r.0 [
        | none ↦ (
          record { outcome = done; handler_err = none; release_err = none; panicked = false },
          r.1,
        )
        | some e ↦ (
          record {
            outcome = failed;
            handler_err = none;
            release_err = some (elim back.0 [
              | none ↦ "release failed: " ++ e
              | some b ↦ "scheduler: rollback after failed release: " ++ (e ++ ("\n" ++ b))
            ]);
            panicked = false;
          },
          back.1,
        )
      ]

  -- Where it reported anything else.
  unfoldable pub discard : Session D → HandlerResult → Session D → HandlerResult × Session D
  discard saved r s =
      let back = rollback_to saved s in
      (
        record r {
          release_err = elim back.0 [
            | none ↦ none
            | some e ↦ some ("scheduler: rollback to savepoint: " ++ e)
          ];
        },
        back.1,
      )

  unfoldable pub run_handler_with_savepoint :
      Handler D → Task → Session D → HandlerResult × Session D
  run_handler_with_savepoint h task s =
      let saved = call v s in
      let r = call_handler_recovered h task saved.1 in
      elim saved.0 [
        | some e ↦ (
          record {
            outcome = failed;
            handler_err = some ("scheduler: savepoint: " ++ e);
            release_err = none;
            panicked = false;
          },
          saved.1,
        )
        | none ↦ if is_done r.0 then release saved.1 r.1 else discard saved.1 r.0 r.1
      ]
