-- ===== src/Ingest/Gate/Allowed.antt =====
-- Whom the gate lets through: AllowCall of internal/ingest/gate.go.
use Prim.Native.String.{String}
use lab_game.Prelude.{
  ℕ, suc, ◌≡◌, refl, ap, ◌∙◌, Bool, true, false, if◌then◌else◌, ◌||◌, ◌⊎◌, inl, inr, List, ◌∷◌,
  Option, none, some, arith,
}
use lab_game.Prelude.Int.{ℤ, eqb_ℤ, eq_of_parts}
use lab_game.Ingest.Gate.{
  Target, chat_none, chat_unknown, chat_known, chat_other, Lookup, Refusal, not_an_integer,
  not_known, presence_lookup, player_lookup, Gate, holds_id, ask_player, allow_id, allow_known,
  allow_call,
}

-- Each id was found to be a player by some question.
abbrev pub IsConfirmed : Lookup → List ℤ → Type 0
IsConfirmed l ids = (i : ℤ) → holds_id i ids ≡ true → (n : ℕ) × (l.player_exists n i ≡ inr true)

-- A player by some question, or allowed and found present by the question asked now.
abbrev pub IsReachable : Lookup → Gate → ℤ → Type 0
IsReachable l g i =
    ((n : ℕ) × (l.player_exists n i ≡ inr true))
    ⊎ ((holds_id i g.allowed ≡ true) × (l.bot_present_in_chat g.asked i ≡ inr true))

-- What a call leaves of the gate: who is allowed stays, and a refusal adds nothing to the confirmed players.
record Kept (l : Lookup) (g : Gate) (q : Option Refusal × Gate) : Type 0 where
  allowed : q.1.allowed ≡ g.allowed
  confirmed : IsConfirmed l q.1.cache
  refused : (e : Refusal) → q.0 ≡ some e → q.1.cache ≡ g.cache

unchanged :
    (l : Lookup) (g : Gate) (n : ℕ) (o : Option Refusal)
    → IsConfirmed l g.cache
    → Kept l g (o, record g { asked = n })
unchanged l g n o c = record { allowed = refl; confirmed = c; refused = λ e h. refl }

added :
    (l : Lookup) (n : ℕ) (i : ℤ) (ids : List ℤ)
    → l.player_exists n i ≡ inr true
    → IsConfirmed l ids
    → IsConfirmed l (i ∷ ids)
unfolding holds_id
added l n i ids found c j = go (eqb_ℤ j i) (eqb_eq j i)
  where
    eqb_eq : (a b : ℤ) → eqb_ℤ a b ≡ true → a ≡ b
    eqb_eq a b h = eq_of_parts a b (ground arith)

    go :
        (b : Bool)
        → (b ≡ true → j ≡ i)
        → b || holds_id j ids ≡ true
        → (m : ℕ) × (l.player_exists m j ≡ inr true)
    go true e h = (n, ap (l.player_exists n) (e refl) ∙ found)
    go false e h = c j h

ask_player-Kept :
    (l : Lookup) (i : ℤ) (g : Gate)
    → IsConfirmed l g.cache
    → ((ask_player l i g).0 ≡ none → (n : ℕ) × (l.player_exists n i ≡ inr true))
      × Kept l g (ask_player l i g)
unfolding ask_player
ask_player-Kept l i g c = go (l.player_exists g.asked i) refl
  where
    after : Gate
    after = record g { asked = suc g.asked }

    Leaves : Option Refusal × Gate → Type 0
    Leaves q = (q.0 ≡ none → (n : ℕ) × (l.player_exists n i ≡ inr true)) × Kept l g q

    go :
        (a : String ⊎ Bool)
        → l.player_exists g.asked i ≡ a
        → Leaves (elim a as (λ x. Option Refusal × Gate) [
          | inl e ↦ (some (player_lookup e), after)
          | inr exists ↦
              if exists
              then (none, record after { cache = i ∷ g.cache })
              else (some not_known, after)
        ])
    go (inl e) p = (λ h. absurd (cc), unchanged l g _ _ c)
    go (inr false) p = (λ h. absurd (cc), unchanged l g _ _ c)
    go (inr true) p = (
      λ h. (g.asked, p),
      record {
        allowed = refl;
        confirmed = added l g.asked i g.cache p c;
        refused = λ e h. absurd (cc);
      },
    )

allow_id-Kept :
    (l : Lookup) (i : ℤ) (g : Gate)
    → IsConfirmed l g.cache
    → ((allow_id l i g).0 ≡ none → IsReachable l g i) × Kept l g (allow_id l i g)
unfolding allow_id
allow_id-Kept l i g c =
    go (holds_id i g.cache) refl (holds_id i g.allowed) refl (l.bot_present_in_chat g.asked i) refl
  where
    after : Gate
    after = record g { asked = suc g.asked }

    Leaves : Option Refusal × Gate → Type 0
    Leaves q = (q.0 ≡ none → IsReachable l g i) × Kept l g q

    asks : Leaves (ask_player l i g)
    asks = let (p, k) = ask_player-Kept l i g c in (λ h. inl (p h), k)

    asks_after : Leaves (ask_player l i after)
    asks_after =
        let (p, k) = ask_player-Kept l i after c in
        (
          λ h. inl (p h),
          record { allowed = k.allowed; confirmed = k.confirmed; refused = k.refused },
        )

    go :
        (b : Bool)
        → holds_id i g.cache ≡ b
        → (d : Bool) → holds_id i g.allowed ≡ d
        → (a : String ⊎ Bool) → l.bot_present_in_chat g.asked i ≡ a
        → Leaves (
            if b
            then (none, g)
            else if d
            then elim a as (λ x. Option Refusal × Gate) [
              | inl e ↦ (some (presence_lookup e), after)
              | inr present ↦ if present then (none, after) else ask_player l i after
            ]
            else ask_player l i g)
    go true p d q a r = (λ h. inl (c i p), unchanged l g g.asked _ c)
    go false p true q (inl e) r = (λ h. absurd (cc), unchanged l g _ _ c)
    go false p true q (inr true) r = (λ h. inr (q, r), unchanged l g _ _ c)
    go false p true q (inr false) r = asks_after
    go false p false q a r = asks

module _ (parse_int : String → Option ℤ) where
  -- Why a call may pass: it has no destination, or its key is the id of somebody who may be reached.
  abbrev pub IsJustified : Lookup → Gate → Target → Type 0
  IsJustified l g chat_none = Unit {0}
  IsJustified l g chat_unknown = ⊥
  IsJustified l g (chat_known key) = (i : ℤ) × (parse_int key ≡ some i) × IsReachable l g i
  IsJustified l g chat_other = ⊥

  -- AllowCall lets a call pass only if it has no destination, or its key is the id of a player that a lookup has
  -- confirmed, or of an allowed chat in which the bot is present by the lookup made for this call. The cache holds
  -- confirmed players only, where it did before, and a refusal changes neither the cache nor who is allowed.
  pub allow_call-IsJustified :
      (l : Lookup) (t : Target) (g : Gate)
      → IsConfirmed l g.cache
      → ((allow_call parse_int l t g).0 ≡ none → IsJustified l g t)
        × IsConfirmed l (allow_call parse_int l t g).1.cache
        × ((allow_call parse_int l t g).1.allowed ≡ g.allowed)
        × ((e : Refusal)
            → (allow_call parse_int l t g).0 ≡ some e
            → (allow_call parse_int l t g).1.cache ≡ g.cache)
  unfolding allow_call allow_known
  allow_call-IsJustified l chat_none g c = (λ h. tt, c, refl, λ e h. refl)
  allow_call-IsJustified l chat_unknown g c = (λ h. absurd (cc), c, refl, λ e h. refl)
  allow_call-IsJustified l chat_other g c = (λ h. absurd (cc), c, refl, λ e h. refl)
  allow_call-IsJustified l (chat_known key) g c = go (parse_int key) refl
    where
      Result : Option Refusal × Gate → Type 0
      Result q =
          (q.0 ≡ none → IsJustified l g (chat_known key))
          × IsConfirmed l q.1.cache
          × (q.1.allowed ≡ g.allowed)
          × ((e : Refusal) → q.0 ≡ some e → q.1.cache ≡ g.cache)

      go :
          (o : Option ℤ)
          → parse_int key ≡ o
          → Result (elim o as (λ x. Option Refusal × Gate) [
            | none ↦ (some not_an_integer, g)
            | some i ↦ allow_id l i g
          ])
      go none p = (λ h. absurd (cc), c, refl, λ e h. refl)
      go (some i) p =
          let (r, k) = allow_id-Kept l i g c in
          (λ h. (i, p, r h), k.confirmed, k.allowed, k.refused)
