-- ===== src/Traefikemulator/Routes.antt =====
-- traefikemulator/emulator.go: what becomes of each route.
use traefik_middleware_utili.Keys.{find, store}
use traefik_middleware_utili.Keys.Laws.{find-store, find-store_other, same_key}
use traefik_middleware_utili.Prelude.{
  ℕ, Bool-cases, Bytes, List, [], inl, inr, none, sym, ◌∙◌, ◌∷◌, ◌≡◌, ◌≢◌, ◌⊎◌,
}
use traefik_middleware_utili.Prelude.Result.{Result, err, ok}
use traefik_middleware_utili.Traefikemulator.{
  Built, Constructor, Emulator, Failure, Route, apply, build_route, build_routes, is_seen,
  none_built, record_result, not_constructed,
}

-- A key that is there stays there.
store_keeps :
    {A : Type 0} (key other_key : Bytes) (a : A) (m : List (Bytes × A))
    → find key m ≢ none
    → find key (store other_key a m) ≢ none
store_keeps key other_key a m h q = elim (same_key key other_key) [
  | inl e ↦
      let there = find-store other_key a m in
      let gone : find other_key (store other_key a m) ≡ none = rw e at q in cc
  | inr d ↦ h (sym (find-store_other other_key key a m d) ∙ q)
]

store_there :
    {A : Type 0} (key : Bytes) (a : A) (m : List (Bytes × A)) → find key (store key a m) ≢ none
store_there key a m q = let there = find-store key a m in cc

-- The name has a handler or a failure.
abbrev pub IsSettled : {H E : Type 0} → Bytes → List (Bytes × H) → List (Bytes × Failure E) → Type 0
IsSettled name constructed failed = (find name constructed ≢ none) ⊎ (find name failed ≢ none)

abbrev pub AllSettled :
    {H N C E : Type 0} → List (Route N C) → List (Bytes × H) → List (Bytes × Failure E) → Type 0
AllSettled [] constructed failed = Unit {0}
AllSettled (r ∷ rs) constructed failed =
    IsSettled r.name constructed failed × AllSettled rs constructed failed

module _ {H N C E S : Type 0} (construct : Constructor H N C E S) where
  build_route-IsSettled :
      (g : ℕ) (r : Route N C) (b : Built H E) (s : S)
      → IsSettled r.name
          (build_route construct g r b s).0.constructed
          (build_route construct g r b s).0.failed
  unfolding build_route
  build_route-IsSettled g r b s = elim (Bool-cases (is_seen r.name b.seen)) [
    | inl q ↦ rw q (inr (store_there r.name _ b.failed))
    | inr q ↦ rw q (go _)
  ]
    where
      go :
          (p : Result E H × S)
          → IsSettled r.name
              (record_result construct r.name b p).0.constructed
              (record_result construct r.name b p).0.failed
      go (err e, t) = inr (store_there r.name _ b.failed)
      go (ok h, t) = inl (store_there r.name h b.constructed)

  build_route_keeps :
      (name : Bytes) (g : ℕ) (r : Route N C) (b : Built H E) (s : S)
      → IsSettled name b.constructed b.failed
      → IsSettled name
          (build_route construct g r b s).0.constructed
          (build_route construct g r b s).0.failed
  unfolding build_route
  build_route_keeps name g r b s h = elim (Bool-cases (is_seen r.name b.seen)) [
    | inl q ↦ rw q (failing _ h)
    | inr q ↦ rw q (go _ h)
  ]
    where
      failing :
          (f : Failure E)
          → IsSettled name b.constructed b.failed
          → IsSettled name b.constructed (store r.name f b.failed)
      failing f (inl p) = inl p
      failing f (inr p) = inr (store_keeps name r.name f b.failed p)

      go :
          (p : Result E H × S)
          → IsSettled name b.constructed b.failed
          → IsSettled name
              (record_result construct r.name b p).0.constructed
              (record_result construct r.name b p).0.failed
      go (err e, t) k = failing (not_constructed e) k
      go (ok x, t) (inl p) = inl (store_keeps name r.name x b.constructed p)
      go (ok x, t) (inr p) = inr p

  build_routes_keeps :
      (name : Bytes) (g : ℕ) (rs : List (Route N C)) (b : Built H E) (s : S)
      → IsSettled name b.constructed b.failed
      → IsSettled name
          (build_routes construct g rs b s).0.constructed
          (build_routes construct g rs b s).0.failed
  unfolding build_routes
  build_routes_keeps name g [] b s h = h
  build_routes_keeps name g (r ∷ rs) b s h =
      build_routes_keeps name g rs _ _ (build_route_keeps name g r b s h)

  build_routes-AllSettled :
      (g : ℕ) (rs : List (Route N C)) (b : Built H E) (s : S)
      → AllSettled rs
          (build_routes construct g rs b s).0.constructed
          (build_routes construct g rs b s).0.failed
  unfolding build_routes
  build_routes-AllSettled g [] b s = tt
  build_routes-AllSettled g (r ∷ rs) b s =
      let p = build_route construct g r b s in
      (
        build_routes_keeps r.name g rs p.0 p.1 (build_route-IsSettled g r b s),
        build_routes-AllSettled g rs p.0 p.1,
      )

  -- After Apply every route of the generation has a handler or an entry in the returned failures,
  -- whatever the constructor does.
  pub apply-AllSettled :
      (rs : List (Route N C)) (e : Emulator H) (s : S)
      → AllSettled rs (apply construct rs e s).1.0.routes (apply construct rs e s).0
  unfolding apply
  apply-AllSettled rs e s = build_routes-AllSettled e.generation rs (none_built construct) s
