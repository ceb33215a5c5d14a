-- ===== src/Scheduler/Registry/Accepted.antt =====
-- About NewRegistry, internal/scheduler/registry.go.
use Prim.Native.String.{String}
use text.Mathlib.Text.{◌==◌}
use text.Mathlib.TextEquality.{eq_iff}
use lab_game.Prelude.{
  ◌≡◌, ◌≢◌, refl, sym, ap, ◌∙◌, Bool, true, false, if◌then◌else◌, List, [], ◌∷◌, map, Option, none,
  some, ◌⊎◌, inl, inr,
}
use lab_game.Prelude.Members.{◌∈◌, Distinct, mem-map}
use lab_game.Scheduler.Task.{Cadence, Recurrence}
use lab_game.Scheduler.Registry.{
  Handler, Declaration, Entry, InvalidDeclaration, empty, empty_type, nil_handler, duplicate,
  empty_config_key, declaration, check_recurrence, check_declaration, register, new_registry,
}

-- The entry holds the recurrence that was declared: none, or one with a cadence, which is not nil, and its key, which
-- is not empty.
abbrev pub IsKept : Option (Option Cadence × String) → Option Recurrence → Type 0
IsKept none r = r ≡ none
IsKept (some (none, key)) r = ⊥
IsKept (some (some cadence, key)) r =
    (r ≡ some (record { cadence = cadence; config_key = key })) × (key ≢ empty)

check_recurrence-IsKept :
    (t : String) (d : Option (Option Cadence × String)) (r : Option Recurrence)
    → check_recurrence t d ≡ inr r
    → IsKept d r
unfolding check_recurrence
check_recurrence-IsKept t none r h = cc
check_recurrence-IsKept t (some (none, key)) r h = cc
check_recurrence-IsKept t (some (some cadence, key)) r h =
    go (key == empty) ((eq_iff key empty).1) h
  where
    kept : Recurrence
    kept = record { cadence = cadence; config_key = key }

    go :
        (b : Bool)
        → (key ≡ empty → b ≡ true)
        → ◌≡◌ {A = InvalidDeclaration ⊎ Option Recurrence}
            (if b then inl (empty_config_key t) else inr (some kept))
            (inr r)
        → (r ≡ some kept) × (key ≢ empty)
    go true k h = absurd (cc)
    go false k h = (cc, λ e. absurd (cc (k e)))

module _ {D : Type 0} where
  -- The entry holds what was declared.
  pub record IsEntryOf (d : Declaration D) (e : Entry D) : Type 0 where
    pub typed : e.type ≡ d.type
    pub named : d.type ≢ empty
    pub handled : d.handler ≡ some e.handler
    pub recurring : IsKept d.recurrence e.recurrence

  check_declaration_lem :
      (d : Declaration D) (seen : List (Entry D)) (e : Entry D)
      → check_declaration d seen ≡ inr e
      → IsEntryOf d e × (declaration seen d.type ≡ none)
  unfolding check_declaration
  check_declaration_lem d seen e h =
      go (d.type == empty) refl d.handler refl (declaration seen d.type) refl
        (check_recurrence d.type d.recurrence) refl h
    where
      go :
          (b : Bool)
          → (d.type == empty) ≡ b
          → (o : Option (Handler D)) → d.handler ≡ o
          → (x : Option (Entry D)) → declaration seen d.type ≡ x
          → (r : InvalidDeclaration ⊎ Option Recurrence) → check_recurrence d.type d.recurrence ≡ r
          → (if b then inl empty_type else elim o as (λ x. InvalidDeclaration ⊎ Entry D) [
            | none ↦ inl (nil_handler d.type)
            | some handler ↦ elim x as (λ x. InvalidDeclaration ⊎ Entry D) [
              | some _ ↦ inl (duplicate d.type)
              | none ↦ elim r as (λ x. InvalidDeclaration ⊎ Entry D) [
                | inl e ↦ inl e
                | inr recurrence ↦
                    inr (record { type = d.type; handler = handler; recurrence = recurrence })
              ]
            ]
          ])
            ≡ inr e
          → IsEntryOf d e × (declaration seen d.type ≡ none)
      go true p o q x s r t h = absurd (cc)
      go false p none q x s r t h = absurd (cc)
      go false p (some f) q (some y) s r t h = absurd (cc)
      go false p (some f) q none s (inl y) t h = absurd (cc)
      go false p (some f) q none s (inr rec) t h =
          let same = inr_inj h in
          (
            record {
              typed = ap (λ y. y.type) (sym same);
              named = λ n. absurd (cc ((eq_iff d.type empty).1 n));
              handled = q ∙ ap (λ y. some y.handler) same;
              recurring =
                  check_recurrence-IsKept d.type d.recurrence e.recurrence
                    (t ∙ ap (λ y. inr y.recurrence) same);
            },
            s,
          )
        where
          inr_inj : {a b : Entry D} → ◌≡◌ {A = InvalidDeclaration ⊎ Entry D} (inr a) (inr b) → a ≡ b
          inr_inj h = cc

  -- A type that was found is found still.
  stays :
      (e : Entry D) (seen : List (Entry D)) (t : String) (y : Entry D)
      → declaration seen e.type ≡ none
      → declaration seen t ≡ some y
      → declaration (e ∷ seen) t ≡ some y
  unfolding declaration
  stays e seen t y none_such found = go (e.type == t) refl
    where
      go : (b : Bool) → (e.type == t) ≡ b → (if b then some e else declaration seen t) ≡ some y
      go true h = absurd (cc ((eq_iff e.type t).0 h))
      go false h = found

  finds_itself : (e : Entry D) (seen : List (Entry D)) → declaration (e ∷ seen) e.type ≡ some e
  unfolding declaration
  finds_itself e seen = rw ((eq_iff e.type e.type).1 refl) refl

  unseen :
      (e : Entry D) (seen : List (Entry D)) (t : String)
      → declaration (e ∷ seen) t ≡ none
      → (declaration seen t ≡ none) × (e.type ≢ t)
  unfolding declaration
  unseen e seen t = go (e.type == t) (λ h. (eq_iff e.type t).1 h)
    where
      go :
          (b : Bool)
          → (e.type ≡ t → b ≡ true)
          → (if b then some e else declaration seen t) ≡ none
          → (declaration seen t ≡ none) × (e.type ≢ t)
      go true k h = absurd (cc)
      go false k h = (h, λ n. absurd (cc (k n)))

  -- What the map of a registry holds of the declarations, after those of an earlier part.
  record IsRegistered (ds : List (Declaration D)) (seen es : List (Entry D)) : Type 0 where
    keeps : (t : String) (y : Entry D) → declaration seen t ≡ some y → declaration es t ≡ some y
    holds :
        (d : Declaration D)
        → d ∈ ds
        → (e : Entry D) × IsEntryOf d e × (declaration es d.type ≡ some e)
    fresh : (d : Declaration D) → d ∈ ds → declaration seen d.type ≡ none
    distinct : Distinct (map (λ d. d.type) ds)

  IsRegistered-one :
      (d : Declaration D) (ds : List (Declaration D)) (seen es : List (Entry D)) (e : Entry D)
      → check_declaration d seen ≡ inr e
      → IsRegistered ds (e ∷ seen) es
      → IsRegistered (d ∷ ds) seen es
  IsRegistered-one d ds seen es e checked r =
      let (entry, none_such) = check_declaration_lem d seen e checked in
      let none_typed = ap (declaration seen) entry.typed ∙ none_such in
      record {
        keeps = λ t y h. r.keeps t y (stays e seen t y none_typed h);
        holds = λ x m. elim m [
          | inl h ↦ rw h (
            e,
            entry,
            ap (declaration es) (sym entry.typed) ∙ r.keeps e.type e (finds_itself e seen),
          )
          | inr n ↦ r.holds x n
        ];
        fresh = λ x m. elim m [
          | inl h ↦ ap (λ y. declaration seen y.type) h ∙ none_such
          | inr n ↦ (unseen e seen x.type (r.fresh x n)).0
        ];
        distinct = (
          λ m.
              let (x, n, h) = (mem-map (λ y. y.type) d.type ds).0 m in
              (unseen e seen x.type (r.fresh x n)).1 (entry.typed ∙ h),
          r.distinct,
        );
      }

  register_lem :
      (ds : List (Declaration D)) (seen es : List (Entry D))
      → register ds seen ≡ inr es
      → IsRegistered ds seen es
  unfolding register
  register_lem [] seen es h = record {
    keeps = λ t y k. ap (λ x. declaration x t) (sym (same h)) ∙ k;
    holds = λ d m. absurd m;
    fresh = λ d m. absurd m;
    distinct = tt;
  }
    where
      same : ◌≡◌ {A = InvalidDeclaration ⊎ List (Entry D)} (inr seen) (inr es) → seen ≡ es
      same h = cc
  register_lem (d ∷ ds) seen es h =
      go (check_declaration d seen) refl h (λ e k. register_lem ds (e ∷ seen) es k)
    where
      go :
          (c : InvalidDeclaration ⊎ Entry D)
          → check_declaration d seen ≡ c
          → elim c as (λ x. InvalidDeclaration ⊎ List (Entry D)) [
            | inl e ↦ inl e
            | inr entry ↦ register ds (entry ∷ seen)
          ]
            ≡ inr es
          → ((e : Entry D) → register ds (e ∷ seen) ≡ inr es → IsRegistered ds (e ∷ seen) es)
          → IsRegistered (d ∷ ds) seen es
      go (inl x) q k ih = absurd (cc)
      go (inr e) q k ih = IsRegistered-one d ds seen es e q (ih e k)

  -- Where NewRegistry accepts the declarations, their types are distinct and not empty, and the registry finds for
  -- each the entry with its handler, which is not nil, and its recurrence: none where none was declared, and otherwise
  -- the declared cadence, which is not nil, with the declared key, which is not empty.
  pub new_registry-Accepted :
      (ds : List (Declaration D)) (es : List (Entry D))
      → new_registry ds ≡ inr es
      → Distinct (map (λ d. d.type) ds)
        × ((d : Declaration D)
            → d ∈ ds
            → (e : Entry D) × IsEntryOf d e × (declaration es d.type ≡ some e))
  unfolding new_registry
  new_registry-Accepted ds es h = let r = register_lem ds [] es h in (r.distinct, r.holds)
