-- ===== src/Reclaim/Open/Aliased.antt =====
-- reclaim/alias.go: what a SetAlias without an error has done, the test of its arguments and of the
-- mapped slot included.
use traefik_middleware_utili.Keys.{find}
use traefik_middleware_utili.Prelude.{
  ℕ, Bool-cases, Bytes, Option, false, inl, inr, none, refl, same_text, some, true, ◌||◌, ◌≡◌, ◌⊎◌,
  [], sym,
}
use traefik_middleware_utili.Prelude.Result.{Result, err, ok, ◌>>=◌}
use traefik_middleware_utili.Reclaim.Aliases.{AliasError, Aliases, publish}
use traefik_middleware_utili.Reclaim.Aliases.Published.{IsOnly, publish_lem}
use traefik_middleware_utili.Reclaim.Open.{publish_found, publish_slot, set_alias}
use traefik_middleware_utili.Reclaim.Table.{
  SlotState, Table, slot_asleep, slot_awake, slot_busy, slot_gone,
}

-- A slot that SetAlias may publish.
abbrev pub IsMapped : SlotState → Type 0
IsMapped x = (x ≡ slot_awake) ⊎ (x ≡ slot_asleep)

-- The key has a mapped slot, which the alias has now, and the table is otherwise as it was.
pub record IsAliased (key alias publisher group : Bytes) (t u : Table) : Type 0 where
  pub slot : ℕ
  pub there : find key t.items ≡ some slot
  pub mapped : IsMapped (t.slots slot).state
  pub only : IsOnly slot alias publisher group u.aliases
  pub rest_same : u ≡ record t { aliases = u.aliases }

module _ (key alias publisher group : Bytes) (t u : Table)
    (has_name : same_text [] publisher ≡ false) where
  abbrev stored : Result AliasError Aliases → Result AliasError Table
  stored r = r >>= λ a. ok (record t { aliases = a })

  published-IsAliased :
      (i : ℕ) (r : Result AliasError Aliases)
      → find key t.items ≡ some i
      → IsMapped (t.slots i).state
      → publish i (t.slots i).value alias publisher group t.aliases ≡ r
      → stored r ≡ ok u
      → IsAliased key alias publisher group t u
  published-IsAliased i (err e) there mapped q done = absurd cc
  published-IsAliased i (ok a) there mapped q done =
      let same : record t { aliases = a } ≡ u = cc in
      rw (← same) (record {
        slot = i;
        there = there;
        mapped = mapped;
        only = publish_lem i (t.slots i).value alias publisher group t.aliases a has_name q;
        rest_same = refl;
      })

  slot-IsAliased :
      (i : ℕ) (x : SlotState)
      → find key t.items ≡ some i
      → (t.slots i).state ≡ x
      → stored (publish_slot i x alias publisher group t) ≡ ok u
      → IsAliased key alias publisher group t u
  slot-IsAliased i slot_awake there at_state done =
      published-IsAliased i _ there (inl at_state) refl done
  slot-IsAliased i slot_asleep there at_state done =
      published-IsAliased i _ there (inr at_state) refl done
  slot-IsAliased i slot_busy there at_state done = absurd cc
  slot-IsAliased i slot_gone there at_state done = absurd cc

  found-IsAliased :
      (o : Option ℕ)
      → find key t.items ≡ o
      → stored (publish_found o alias publisher group t) ≡ ok u
      → IsAliased key alias publisher group t u
  found-IsAliased none there done = absurd cc
  found-IsAliased (some i) there done = slot-IsAliased i (t.slots i).state there refl done

  -- A SetAlias without an error by a publisher with a name leaves the table as it was if the alias
  -- or the key is empty; otherwise the key has an awake or asleep slot, the entry of the alias has
  -- its incarnation, the publisher and the group, no other entry with a name is that publisher's
  -- in that group, and the rest of the table is as it was.
  pub set_alias_lem :
      set_alias key alias publisher group t ≡ ok u
      → (((same_text alias [] || same_text key []) ≡ true) × (u ≡ t))
        ⊎ (((same_text alias [] || same_text key []) ≡ false)
            × IsAliased key alias publisher group t u)
  unfolding set_alias
  set_alias_lem done = elim (Bool-cases (same_text alias [] || same_text key [])) [
    | inl q ↦ let kept : ok t ≡ ok u = rw q at done in let same : t ≡ u = cc in inl (q, sym same)
    | inr q ↦ inr (q, found-IsAliased (find key t.items) refl (rw q at done))
  ]
