-- ===== src/Simpleredis/Commands/Engines.antt =====
-- `msetex` on an engine that has MSETEX and on one that has not: the same pairs are set.
use traefik_middleware_utili.Prelude.{not, ◌||◌, ap, ltb, ◌==◌, ◌≢◌, Option}
use traefik_middleware_utili.Simpleredis.Errors.{error_text, other}
use traefik_middleware_utili.Prelude.Int.{ℤ, pos}
use traefik_middleware_utili.Prelude.Decimal.{digits_value, format_int, itoa}
use traefik_middleware_utili.Prelude.Int.{ℤ}
use traefik_middleware_utili.Prelude.Result.{ok, err}
use traefik_middleware_utili.Simpleredis.Commands.Group.{
  eval, fallback_script, eval_argv, msetex_args, max_msetex_pairs, GroupWritePath, after_native,
  group_write_lua, group_write_native, group_write_unknown, msetex, msetex_eval, msetex_success,
  unknown_command, with_path,
}
use traefik_middleware_utili.Prelude.{
  Bytes, List, [], arith, codes, length, none, refl, some, ◌∷◌, ◌≡◌, ◌++◌, Bool, Bool-cases, false,
  has_prefix, inl, inr, true, ◌<◌, ◌≤◌, ◌⊎◌,
}
use traefik_middleware_utili.Simpleredis.Commands.Wire.{
  one_reply, set_all, run_msetex, run_eval, run_eval-set_all, run_msetex-set_all,
}
use traefik_middleware_utili.Simpleredis.Commands.{Exec, parse_int, parse_integer_reply}

module _ {S : Type 0} (set : Bytes → Bytes → Bytes → Bytes → S → S) where
  -- An engine with MSETEX.
  pub record IsNative (exec : Exec S) : Type 0 where
    pub writes :
        (args : List Bytes) (s t : S)
        → run_msetex set args s ≡ some t
        → exec (codes "MSETEX" ∷ args) s ≡ (ok one_reply, t)

  -- An engine without MSETEX, with a cache of scripts that EVAL fills.
  pub record IsScripted (digest : Bytes) (exec : Exec S) : Type 0 where
    pub refusal : Bytes
    pub no_script : Bytes
    pub refusal_prefix : has_prefix (codes "ERR unknown command") refusal ≡ true
    pub no_script_prefix : has_prefix (codes "NOSCRIPT") no_script ≡ true
    pub is_cached : S → Bool
    pub cache : S → S
    pub read : S → Bytes → Option Bytes
    pub cache_reads : (s : S) (name : Bytes) → read (cache s) name ≡ read s name
    pub refuses :
        (args : List Bytes) (s : S) → exec (codes "MSETEX" ∷ args) s ≡ (err (other refusal), s)
    pub runs_cached :
        (args : List Bytes) (s t : S)
        → is_cached s ≡ true
        → run_eval set args s ≡ some t
        → exec (codes "EVALSHA" ∷ digest ∷ args) s ≡ (ok one_reply, t)
    pub misses :
        (args : List Bytes) (s : S)
        → is_cached s ≡ false
        → exec (codes "EVALSHA" ∷ digest ∷ args) s ≡ (err (other no_script), s)
    pub runs_sent :
        (args : List Bytes) (s t : S)
        → run_eval set args s ≡ some t
        → exec (codes "EVAL" ∷ fallback_script ∷ args) s ≡ (ok one_reply, cache t)

  -- What `msetex` does not refuse.
  pub record Fit (names values : List Bytes) : Type 0 where
    pub some_names : 0 < length names
    pub paired : length names ≡ length values
    pub few : length names ≤ max_msetex_pairs

  one_is_one : parse_integer_reply (ok one_reply) ≡ ok (pos 1)
  unfolding parse_integer_reply parse_int digits_value
  one_is_one = refl

  -- `Eval` of the fallback script sets all pairs, whether the engine has the script or not; in the
  -- second case it has it afterwards.
  eval-set_all :
      (digest : Bytes) (exec : Exec S) (names values : List Bytes) (token ttl : Bytes) (s : S)
      (e : IsScripted digest exec)
      → length names ≡ length values
      → let t = set_all set names values token ttl s in
        (eval exec fallback_script digest names (values ++ (token ∷ ttl ∷ [])) s
          ≡ (ok one_reply, t))
        ⊎ (eval exec fallback_script digest names (values ++ (token ∷ ttl ∷ [])) s
            ≡ (ok one_reply, e.cache t))
  unfolding eval error_text eval_argv
  eval-set_all digest exec names values token ttl s e h =
      let args : List Bytes = itoa (length names) ∷ (names ++ (values ++ (token ∷ ttl ∷ []))) in
      let t : S = set_all set names values token ttl s in
      let run : run_eval set args s ≡ some t = run_eval-set_all set names values token ttl s h in
      elim (Bool-cases (e.is_cached s)) [
        | inl q ↦ inl (rw (e.runs_cached args s t q run) refl)
        | inr q ↦ inr (rw (e.misses args s q, e.no_script_prefix, e.runs_sent args s t run) refl)
      ]

  -- A store that holds all pairs, the script perhaps cached, which no value depends on.
  abbrev pub HasAll :
      (digest : Bytes) (exec : Exec S)
      → IsScripted digest exec
      → List Bytes
      → List Bytes
      → Bytes
      → ℤ
      → S
      → S
      → Type 0
  HasAll digest exec e names values token ttl s t =
      let written = set_all set names values token (format_int ttl) s in
      ((t ≡ written) ⊎ (t ≡ e.cache written))
      × ((name : Bytes) → e.read t name ≡ e.read written name)

  msetex_eval-HasAll :
      (digest : Bytes) (exec : Exec S) (names values : List Bytes) (token : Bytes) (ttl : ℤ) (s : S)
      (e : IsScripted digest exec)
      → length names ≡ length values
      → (t : S) × (msetex_eval exec digest names values token ttl s ≡ (none, t))
        × HasAll digest exec e names values token ttl s t
  unfolding msetex_eval msetex_success
  msetex_eval-HasAll digest exec names values token ttl s e h =
      let written : S = set_all set names values token (format_int ttl) s in
      elim (eval-set_all digest exec names values token (format_int ttl) s e h) [
        | inl q ↦ (written, rw (q, one_is_one) refl, (inl refl, λ name. refl))
        | inr q ↦ (e.cache written, rw (q, one_is_one) refl, (inr refl, e.cache_reads written))
      ]

  Fit-guard :
      (names values : List Bytes)
      → Fit names values
      → (length names == 0
          || not (length names == length values)
          || ltb max_msetex_pairs (length names))
        ≡ false
  Fit-guard names values f = ground (arith, f.some_names, f.paired, f.few)

  native_writes :
      (exec : Exec S) (names values : List Bytes) (token : Bytes) (ttl : ℤ) (s : S)
      → IsNative exec
      → length names ≡ length values
      → exec (msetex_args names values token ttl) s
        ≡ (ok one_reply, set_all set names values token (format_int ttl) s)
  unfolding msetex_args
  native_writes exec names values token ttl s n h =
      n.writes _ s _ (run_msetex-set_all set names values token (format_int ttl) s h)

  -- On an engine whose MSETEX reads the number of pairs, then each name with its value, then the
  -- expiry, and sets those pairs, msetex of 1 to 1024 pairs sets every pair and remembers the
  -- native path, if it did not take the fallback before.
  pub msetex-IsNative :
      (digest : Bytes) (exec : Exec S) (names values : List Bytes) (token : Bytes) (ttl : ℤ)
      (path : GroupWritePath) (s : S)
      → IsNative exec
      → Fit names values
      → path ≢ group_write_lua
      → msetex exec digest names values token ttl path s
        ≡ (none, group_write_native, set_all set names values token (format_int ttl) s)
  unfolding msetex unknown_command msetex_success
  msetex-IsNative digest exec names values token ttl group_write_lua s n f p = absurd (p refl)
  msetex-IsNative digest exec names values token ttl group_write_native s n f p =
      rw
        (
          Fit-guard names values f,
          native_writes exec names values token ttl s n f.paired,
          one_is_one,
        )
        refl
  msetex-IsNative digest exec names values token ttl group_write_unknown s n f p =
      rw
        (
          Fit-guard names values f,
          native_writes exec names values token ttl s n f.paired,
          one_is_one,
        )
        refl

  after_refusal :
      (digest : Bytes) (exec : Exec S) (names values : List Bytes) (token : Bytes) (ttl : ℤ)
      (path : GroupWritePath) (s : S) (e : IsScripted digest exec)
      → length names ≡ length values
      → (t : S) × (after_native exec digest names values token ttl path
            (exec (msetex_args names values token ttl) s)
          ≡ (none, group_write_lua, t))
        × HasAll digest exec e names values token ttl s t
  unfolding unknown_command parse_integer_reply error_text msetex_args
  after_refusal digest exec names values token ttl path s e h =
      let r = msetex_eval-HasAll digest exec names values token ttl s e h in
      (r.0, rw (e.refuses _ s, e.refusal_prefix) (ap (with_path exec group_write_lua) r.1), r.2)

  -- On an engine without MSETEX, which runs the fallback script by EVAL, and by EVALSHA once it
  -- has it, on the number of keys, the keys and the arguments in their documented order, msetex of
  -- 1 to 1024 pairs sets every pair, whatever the client remembered and whether or not the engine
  -- has the script cached, and remembers the fallback.
  pub msetex-IsScripted :
      (digest : Bytes) (exec : Exec S) (names values : List Bytes) (token : Bytes) (ttl : ℤ)
      (path : GroupWritePath) (s : S) (e : IsScripted digest exec)
      → Fit names values
      → (t : S) × (msetex exec digest names values token ttl path s ≡ (none, group_write_lua, t))
        × HasAll digest exec e names values token ttl s t
  unfolding msetex
  msetex-IsScripted digest exec names values token ttl group_write_lua s e f =
      let r = msetex_eval-HasAll digest exec names values token ttl s e f.paired in
      (r.0, rw (Fit-guard names values f) (ap (with_path exec group_write_lua) r.1), r.2)
  msetex-IsScripted digest exec names values token ttl group_write_native s e f =
      let r = after_refusal digest exec names values token ttl group_write_native s e f.paired in
      (r.0, rw (Fit-guard names values f) r.1, r.2)
  msetex-IsScripted digest exec names values token ttl group_write_unknown s e f =
      let r = after_refusal digest exec names values token ttl group_write_unknown s e f.paired in
      (r.0, rw (Fit-guard names values f) r.1, r.2)
