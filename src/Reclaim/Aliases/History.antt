-- ===== src/Reclaim/Aliases/History.antt =====
-- reclaim/alias.go: all the values that one watcher is told.
use traefik_middleware_utili.Prelude.{
  Bool-cases, List, [], false, inl, inr, refl, true, ◌∷◌, ◌≡◌, ℕ,
}
use traefik_middleware_utili.Reclaim.Values.{Any, nil, same_value}
use traefik_middleware_utili.Reclaim.Aliases.{Watcher, deliver}

-- One value after the other, as the entry changes.
unfoldable pub deliver_all : List Any → Watcher → Watcher
deliver_all [] w = w
deliver_all (v ∷ vs) w = deliver_all vs (deliver v w)

-- Each value differs from the one before it, the first one from nil; the last one comes first.
abbrev pub Differing : List Any → Type 0
Differing [] = Unit {0}
Differing (v ∷ []) = same_value nil v ≡ false
Differing (v ∷ u ∷ vs) = (same_value u v ≡ false) × Differing (u ∷ vs)

abbrev pub last_told : List Any → Any
last_told [] = nil
last_told (v ∷ vs) = v

abbrev new_watcher : ℕ → Watcher
new_watcher identity = record { identity = identity; changed = true; last = nil; told = [] }

record IsHistory (w : Watcher) : Type 0 where
  calls : w.changed ≡ true
  newest : w.last ≡ last_told w.told
  differing : Differing w.told

grows :
    (v : Any) (told : List Any)
    → same_value (last_told told) v ≡ false
    → Differing told
    → Differing (v ∷ told)
grows v [] d h = d
grows v (u ∷ vs) d h = (d, h)

deliver-IsHistory : (v : Any) (w : Watcher) → IsHistory w → IsHistory (deliver v w)
unfolding deliver
deliver-IsHistory v w h = elim (Bool-cases (same_value w.last v)) [
  | inl q ↦ rw q h
  | inr q ↦
      rw (q, h.calls)
        (record {
          calls = refl;
          newest = refl;
          differing = grows v w.told (rw h.newest at q) h.differing;
        })
]

deliver_all-IsHistory : (vs : List Any) (w : Watcher) → IsHistory w → IsHistory (deliver_all vs w)
unfolding deliver_all
deliver_all-IsHistory [] w h = h
deliver_all-IsHistory (v ∷ vs) w h =
    deliver_all-IsHistory vs (deliver v w) (deliver-IsHistory v w h)

-- Whatever values a watcher with a function is given one after the other, its function is called
-- with values that each differ from the one before, the first one from nil.
pub deliver_all-Differing :
    (vs : List Any) (identity : ℕ)
    → Differing
        (deliver_all vs
          (record { identity = identity; changed = true; last = nil; told = [] })).told
deliver_all-Differing vs identity =
    (deliver_all-IsHistory vs (new_watcher identity)
      (record { calls = refl; newest = refl; differing = tt })).differing
