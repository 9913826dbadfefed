-- ===== src/Simpleredis/Commands/Tests.antt =====
-- Witnesses of the properties of the commands, on an engine that stores the pairs, with and without
-- MSETEX, and knows whether it has the script.
use traefik_middleware_utili.Keys.{find, store}
use traefik_middleware_utili.Prelude.{
  Bool, Bytes, List, Option, [], arith, codes, false, has_prefix, if◌then◌else◌, none, refl,
  same_text, some, true, ◌∷◌, ◌≡◌,
}
use traefik_middleware_utili.Prelude.Int.{pos}
use traefik_middleware_utili.Prelude.Result.{Result, err, ok}
use traefik_middleware_utili.Simpleredis.Errors.{Error, other}
use traefik_middleware_utili.Simpleredis.Commands.{Exec}
use traefik_middleware_utili.Simpleredis.Commands.Group.{
  group_write_lua, group_write_native, group_write_unknown, msetex,
}
use traefik_middleware_utili.Simpleredis.Commands.Wire.{one_reply, run_eval, run_msetex, set_all}
use traefik_middleware_utili.Simpleredis.Commands.Engines.{
  Fit, HasAll, IsNative, IsScripted, msetex-IsNative, msetex-IsScripted,
}
use traefik_middleware_utili.Simpleredis.Exec.{Values}

-- The pairs, and whether the script is cached.
abbrev Stored : Type 0
Stored = List (Bytes × Bytes) × Bool

abbrev set_pair : Bytes → Bytes → Bytes → Bytes → Stored → Stored
set_pair name value token ttl (m, cached) = (store name value m, cached)

-- A command that ran, or wrong arguments.
abbrev answer : Stored → Option Stored → Result Error Values × Stored
answer s none = (err (other (codes "ERR syntax error")), s)
answer s (some t) = (ok one_reply, t)

abbrev native_engine : Exec Stored
native_engine [] s = (ok [], s)
native_engine (verb ∷ args) s =
    if same_text verb (codes "MSETEX") then answer s (run_msetex set_pair args s) else (ok [], s)

native_engine-IsNative : IsNative set_pair native_engine
unfolding same_text
native_engine-IsNative = record { writes = λ args s t q. rw q refl }

abbrev two_names : List Bytes
two_names = codes "a" ∷ codes "b" ∷ []

abbrev two_values : List Bytes
two_values = codes "1" ∷ codes "2" ∷ []

abbrev two_pairs : List (Bytes × Bytes)
two_pairs = (codes "a", codes "1") ∷ (codes "b", codes "2") ∷ []

two_names-Fit : Fit set_pair two_names two_values
two_names-Fit = record { some_names = omega arith; paired = refl; few = omega arith }

msetex-IsNative_example :
    msetex native_engine
      (codes "d")
      two_names
      two_values
      (codes "EX")
      (pos 60)
      group_write_unknown
      ([], false)
    ≡ (none, group_write_native, (two_pairs, false))
unfolding set_all store same_text
msetex-IsNative_example =
    msetex-IsNative set_pair (codes "d") native_engine two_names two_values (codes "EX") (pos 60)
      group_write_unknown ([], false) native_engine-IsNative two_names-Fit (λ q. cc)

abbrev with_script : Stored → Stored
with_script (m, cached) = (m, true)

abbrev caching : Result Error Values × Stored → Result Error Values × Stored
caching (err e, s) = (err e, s)
caching (ok v, s) = (ok v, with_script s)

abbrev eval_sent : List Bytes → Stored → Result Error Values × Stored
eval_sent [] s = (err (other (codes "ERR wrong number of arguments")), s)
eval_sent (script ∷ args) s = caching (answer s (run_eval set_pair args s))

abbrev eval_cached : List Bytes → Stored → Result Error Values × Stored
eval_cached [] s = (err (other (codes "ERR wrong number of arguments")), s)
eval_cached (digest ∷ args) s =
    if s.1 then answer s (run_eval set_pair args s) else (err (other (codes "NOSCRIPT")), s)

abbrev scripted_engine : Exec Stored
scripted_engine [] s = (ok [], s)
scripted_engine (verb ∷ args) s =
    if same_text verb (codes "MSETEX")
    then (err (other (codes "ERR unknown command")), s)
    else if same_text verb (codes "EVALSHA")
    then eval_cached args s
    else eval_sent args s

scripted_engine-IsScripted : IsScripted set_pair (codes "d") scripted_engine
unfolding same_text has_prefix
scripted_engine-IsScripted = record {
  refusal = codes "ERR unknown command";
  no_script = codes "NOSCRIPT";
  refusal_prefix = refl;
  no_script_prefix = refl;
  is_cached = λ s. s.1;
  cache = with_script;
  read = λ s name. find name s.0;
  cache_reads = λ s name. refl;
  refuses = λ args s. refl;
  runs_cached = λ args s t c r. rw r (rw c refl);
  misses = λ args s c. rw c refl;
  runs_sent = λ args s t r. rw r refl;
}

msetex-IsScripted_example :
    (t : Stored) × (msetex scripted_engine
        (codes "d")
        two_names
        two_values
        (codes "EX")
        (pos 60)
        group_write_unknown
        ([], false)
      ≡ (none, group_write_lua, t))
    × HasAll set_pair
        (codes "d")
        scripted_engine
        scripted_engine-IsScripted
        two_names
        two_values
        (codes "EX")
        (pos 60)
        ([], false)
        t
msetex-IsScripted_example =
    msetex-IsScripted set_pair (codes "d") scripted_engine two_names two_values (codes "EX")
      (pos 60) group_write_unknown ([], false) scripted_engine-IsScripted two_names-Fit
