-- ===== src/Traefikemulator.antt =====
-- traefikemulator/emulator.go: one generation of routes at a time. The constructor is an argument,
-- with the state behind it; a generation's context is known by a number.
pub mod Routes
use traefik_middleware_utili.Prelude.{
  ℕ, Bool, Bytes, List, Option, [], false, if◌then◌else◌, none, same_text, some, ◌+◌, ◌||◌, ◌∷◌,
}
use traefik_middleware_utili.Prelude.Result.{Result, err, ok}
use traefik_middleware_utili.Keys.{find, store}

pub record Route (N : Type 0) (C : Type 0) : Type 0 where
  pub name : Bytes
  pub middleware_name : Bytes
  pub next_handler : N
  pub config : C

-- `cancelled` are the generations whose contexts are done; `generation` is the number of the next.
pub record Emulator (H : Type 0) : Type 0 where
  pub cancel : Option ℕ
  pub cancelled : List ℕ
  pub generation : ℕ
  pub routes : List (Bytes × H)

pub data Failure (E : Type 0) : Type 0 where
  duplicate_route : Failure E
  not_constructed : E → Failure E

-- What the loop of `Apply` has built: the names seen, the handlers and the failures.
pub record Built (H : Type 0) (E : Type 0) : Type 0 where
  pub seen : List Bytes
  pub constructed : List (Bytes × H)
  pub failed : List (Bytes × Failure E)

abbrev pub Constructor : Type 0 → Type 0 → Type 0 → Type 0 → Type 0 → Type 0
Constructor H N C E S = ℕ → N → C → Bytes → S → Result E H × S

abbrev pub is_seen : Bytes → List Bytes → Bool
is_seen name [] = false
is_seen name (s ∷ seen) = same_text name s || is_seen name seen

abbrev pub name_or : Bytes → Bytes → Bytes
name_or [] name = name
name_or (c ∷ cs) name = c ∷ cs

abbrev pub new_emulator : {H : Type 0} → Emulator H
new_emulator = record { cancel = none; cancelled = []; generation = 0; routes = [] }

-- The call of `cancel`, if there is one.
abbrev pub done_with : Option ℕ → List ℕ → List ℕ
done_with none cancelled = cancelled
done_with (some g) cancelled = g ∷ cancelled

module _ {H N C E S : Type 0} (construct : Constructor H N C E S) where
  abbrev pub record_result : Bytes → Built H E → Result E H × S → Built H E × S
  record_result name b (err e, s) =
      (record b { seen = name ∷ b.seen; failed = store name (not_constructed e) b.failed }, s)
  record_result name b (ok h, s) =
      (record b { seen = name ∷ b.seen; constructed = store name h b.constructed }, s)

  unfoldable pub build_route : ℕ → Route N C → Built H E → S → Built H E × S
  build_route g r b s =
      if is_seen r.name b.seen
      then (record b { failed = store r.name duplicate_route b.failed }, s)
      else record_result r.name b
          (construct g r.next_handler r.config (name_or r.middleware_name r.name) s)

  unfoldable pub build_routes : ℕ → List (Route N C) → Built H E → S → Built H E × S
  build_routes g [] b s = (b, s)
  build_routes g (r ∷ rs) b s = let p = build_route g r b s in build_routes g rs p.0 p.1

  abbrev pub none_built : Built H E
  none_built = record { seen = []; constructed = []; failed = [] }

  -- `Apply`: the failures by name, an empty list for nil.
  unfoldable pub apply :
      List (Route N C) → Emulator H → S → List (Bytes × Failure E) × (Emulator H × S)
  apply rs e s =
      let p = build_routes e.generation rs none_built s in
      (
        p.0.failed,
        (
          record {
            cancel = some e.generation;
            cancelled = done_with e.cancel e.cancelled;
            generation = e.generation + 1;
            routes = p.0.constructed;
          },
          p.1,
        ),
      )

unfoldable pub stop : {H : Type 0} → Emulator H → Emulator H
stop e = record e { cancel = none; cancelled = done_with e.cancel e.cancelled; routes = [] }

-- `Handler`.
abbrev pub handler : {H : Type 0} → Bytes → Emulator H → Option H
handler name e = find name e.routes
