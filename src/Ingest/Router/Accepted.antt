-- ===== src/Ingest/Router/Accepted.antt =====
-- About NewRouter, internal/ingest/router.go.
use Prim.Native.String.{String}
use mathlib.Core.Path.{subst}
use text.Mathlib.Text.{◌==◌}
use text.Mathlib.TextEquality.{eq_iff}
use lab_game.Prelude.{
  ◌≡◌, ◌≢◌, refl, sym, ap, ◌∙◌, Bool, true, false, if◌then◌else◌, List, [], ◌∷◌, map, Option, none,
  some, ◌⊎◌, inl, inr,
}
use lab_game.Prelude.Members.{◌∈◌, Distinct, mem-map}
use lab_game.Ingest.Kind.{known_kind}
use lab_game.Ingest.Router.{
  IngestError, unknown_kind, duplicate_route, Handler, Route, lookup, check_route, add_routes,
  new_router,
}

module _ {D : Type 0} where
  check_route_lem :
      (r : Route D) (seen : List (Route D))
      → check_route r seen ≡ none
      → (known_kind r.kind ≡ true) × (lookup seen r.kind ≡ none)
  unfolding check_route
  check_route_lem r seen h = go (known_kind r.kind) (lookup seen r.kind) h
    where
      go :
          (b : Bool) (o : Option (Handler D))
          → (if b
              then elim o as (λ x. Option IngestError) [
                | none ↦ none
                | some f ↦ some (duplicate_route r.kind)
              ]
              else some (unknown_kind r.kind))
            ≡ none
          → (b ≡ true) × (o ≡ none)
      go true none h = (refl, refl)
      go true (some f) h = absurd (cc)
      go false o h = absurd (cc)

  -- The newest route is found first, and the others as before.
  lookup_cases :
      (r : Route D) (seen : List (Route D)) (k : String)
      → ((r.kind ≡ k) × (lookup (r ∷ seen) k ≡ some r.handler))
        ⊎ ((r.kind ≢ k) × (lookup (r ∷ seen) k ≡ lookup seen k))
  unfolding lookup
  lookup_cases r seen k = go (r.kind == k) ((eq_iff r.kind k).0) ((eq_iff r.kind k).1)
    where
      go :
          (b : Bool)
          → (b ≡ true → r.kind ≡ k)
          → (r.kind ≡ k → b ≡ true)
          → ((r.kind ≡ k) × ((if b then some r.handler else lookup seen k) ≡ some r.handler))
            ⊎ ((r.kind ≢ k) × ((if b then some r.handler else lookup seen k) ≡ lookup seen k))
      go true p q = inl (p refl, refl)
      go false p q = inr (λ e. absurd (cc (q e)), refl)

  -- What the map of a router holds of the routes, after those of an earlier part.
  record IsRouted (rs seen es : List (Route D)) : Type 0 where
    keeps : (k : String) (f : Handler D) → lookup seen k ≡ some f → lookup es k ≡ some f
    finds : (r : Route D) → r ∈ rs → lookup es r.kind ≡ some r.handler
    known :
        (k : String) (f : Handler D)
        → lookup es k ≡ some f
        → (lookup seen k ≡ some f) ⊎ (known_kind k ≡ true)
    fresh : (r : Route D) → r ∈ rs → lookup seen r.kind ≡ none
    distinct : Distinct (map (λ r. r.kind) rs)

  IsRouted-one :
      (r : Route D) (rs seen es : List (Route D))
      → (known_kind r.kind ≡ true) × (lookup seen r.kind ≡ none)
      → IsRouted rs (r ∷ seen) es
      → IsRouted (r ∷ rs) seen es
  IsRouted-one r rs seen es (k, none_such) i = record {
    keeps = λ x f h. i.keeps x f (elim (lookup_cases r seen x) [
      | inl (e, found) ↦ absurd (cc (ap (lookup seen) e))
      | inr (n, same) ↦ same ∙ h
    ]);
    finds = λ x m. elim m [
      | inl e ↦ rw e (
          i.keeps r.kind r.handler (elim (lookup_cases r seen r.kind) [
            | inl (same, found) ↦ found
            | inr (n, same) ↦ absurd (n refl)
          ]))
      | inr n ↦ i.finds x n
    ];
    known = λ x f h. elim (i.known x f h) [
      | inl found ↦ elim (lookup_cases r seen x) [
        | inl (e, same) ↦ inr (rw (sym e) k)
        | inr (n, same) ↦ inl (sym same ∙ found)
      ]
      | inr kn ↦ inr kn
    ];
    fresh = λ x m. elim m [ inl e ↦ rw e none_such | inr n ↦ (unseen x n).1 ];
    distinct = (
      λ m. let (x, n, e) = (mem-map (λ y. y.kind) r.kind rs).0 m in (unseen x n).0 e,
      i.distinct,
    );
  }
    where
      unseen : (x : Route D) → x ∈ rs → (r.kind ≢ x.kind) × (lookup seen x.kind ≡ none)
      unseen x n = elim (lookup_cases r seen x.kind) [
        | inl (e, found) ↦ absurd (cc (i.fresh x n))
        | inr (d, same) ↦ (d, sym same ∙ i.fresh x n)
      ]

  add_routes-IsRouted :
      (rs seen es : List (Route D)) → add_routes rs seen ≡ inr es → IsRouted rs seen es
  unfolding add_routes
  add_routes-IsRouted [] seen es h = subst (IsRouted [] seen) (inr_inj h) (record {
    keeps = λ k f e. e;
    finds = λ r m. absurd m;
    known = λ k f e. inl e;
    fresh = λ r m. absurd m;
    distinct = tt;
  })
    where
      inr_inj :
          {a b : List (Route D)} → ◌≡◌ {A = IngestError ⊎ List (Route D)} (inr a) (inr b) → a ≡ b
      inr_inj h = cc
  add_routes-IsRouted (r ∷ rs) seen es h =
      go (check_route r seen) (check_route_lem r seen) h (add_routes-IsRouted rs (r ∷ seen) es)
    where
      go :
          (o : Option IngestError)
          → (o ≡ none → (known_kind r.kind ≡ true) × (lookup seen r.kind ≡ none))
          → elim o as (λ x. IngestError ⊎ List (Route D)) [
            | some e ↦ inl e
            | none ↦ add_routes rs (r ∷ seen)
          ]
            ≡ inr es
          → (add_routes rs (r ∷ seen) ≡ inr es → IsRouted rs (r ∷ seen) es)
          → IsRouted (r ∷ rs) seen es
      go (some e) checked h ih = absurd (cc)
      go none checked h ih = IsRouted-one r rs seen es (checked refl) (ih h)

  -- Where NewRouter accepts the routes, their kinds are distinct, Lookup finds for each its handler, and what it finds
  -- a handler for is a kind of the table, so that an update of no kind has no route.
  pub new_router-Accepted :
      (rs es : List (Route D))
      → new_router rs ≡ inr es
      → Distinct (map (λ r. r.kind) rs)
        × ((r : Route D) → r ∈ rs → lookup es r.kind ≡ some r.handler)
        × ((k : String) (f : Handler D) → lookup es k ≡ some f → known_kind k ≡ true)
  unfolding new_router lookup
  new_router-Accepted rs es h =
      let i = add_routes-IsRouted rs [] es h in
      (
        i.distinct,
        i.finds,
        λ k f e. elim (i.known k f e) [ inl n ↦ absurd (nothing k f n) | inr t ↦ t ],
      )
    where
      nothing : (k : String) (f : Handler D) → ¬ (lookup [] k ≡ some f)
      nothing k f n = cc n
