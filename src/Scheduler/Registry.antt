-- ===== src/Scheduler/Registry.antt =====
-- The declared task types: internal/scheduler/registry.go.
pub mod Accepted
use Prim.Native.String.{String}
use text.Mathlib.Text.{◌==◌}
use lab_game.Prelude.{Bool, if◌then◌else◌, List, [], ◌∷◌, Option, none, some, ◌⊎◌, inl, inr}
use lab_game.Scheduler.Task.{Task, Outcome, Cadence, Recurrence}
use lab_game.Scheduler.Session.{Session}

-- What a call of Handler.Execute comes to: an outcome with the text of its error, or a panic with its text.
pub data Return : Type 0 where
  returned : Outcome → Option String → Return
  panicked : String → Return

-- A handler may change the tasks and everything else, by calls of its own.
abbrev pub Handler : Type 0 → Type 0
Handler D = Task → Session D → Return × Session D

-- What a caller declares: the handler, and the cadence of a recurrence, may be nil.
pub record Declaration (D : Type 0) : Type 0 where
  pub type : String
  pub handler : Option (Handler D)
  pub recurrence : Option (Option Cadence × String)

-- What the registry's map holds of an accepted declaration.
pub record Entry (D : Type 0) : Type 0 where
  pub type : String
  pub handler : Handler D
  pub recurrence : Option Recurrence

pub data InvalidDeclaration : Type 0 where
  empty_type : InvalidDeclaration
  nil_handler duplicate nil_cadence empty_config_key : String → InvalidDeclaration

abbrev pub empty : String
empty = ""

-- The checks of the recurrence.
unfoldable pub check_recurrence :
    String → Option (Option Cadence × String) → InvalidDeclaration ⊎ Option Recurrence
check_recurrence t none = inr none
check_recurrence t (some (none, key)) = inl (nil_cadence t)
check_recurrence t (some (some cadence, key)) =
    if key == empty
    then inl (empty_config_key t)
    else inr (some (record { cadence = cadence; config_key = key }))

module _ {D : Type 0} where
  unfoldable pub declaration : List (Entry D) → String → Option (Entry D)
  declaration [] t = none
  declaration (d ∷ ds) t = if d.type == t then some d else declaration ds t

  -- One turn of the loop, on the map of the turns before it.
  unfoldable pub check_declaration : Declaration D → List (Entry D) → InvalidDeclaration ⊎ Entry D
  check_declaration d seen = if d.type == empty then inl empty_type else elim d.handler [
    | none ↦ inl (nil_handler d.type)
    | some handler ↦ elim (declaration seen d.type) [
      | some _ ↦ inl (duplicate d.type)
      | none ↦ elim (check_recurrence d.type d.recurrence) [
        | inl e ↦ inl e
        | inr recurrence ↦
            inr (record { type = d.type; handler = handler; recurrence = recurrence })
      ]
    ]
  ]

  unfoldable pub register :
      List (Declaration D) → List (Entry D) → InvalidDeclaration ⊎ List (Entry D)
  register [] seen = inr seen
  register (d ∷ ds) seen = elim (check_declaration d seen) [
    | inl e ↦ inl e
    | inr entry ↦ register ds (entry ∷ seen)
  ]

  unfoldable pub new_registry : List (Declaration D) → InvalidDeclaration ⊎ List (Entry D)
  new_registry ds = register ds []
