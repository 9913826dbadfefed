-- ===== src/Simpleredis/Commands/Group.antt =====
-- simpleredis/commands_eval.go and simpleredis/commands_msetex.go. The digest of a script is SHA-1,
-- an argument; the source of the fallback script is `fallback_script`.
use traefik_middleware_utili.Prelude.{
  ℕ, Bool, Bytes, List, Option, [], codes, false, has_prefix, if◌then◌else◌, length, ltb, none, not,
  some, true, ◌==◌, ◌∷◌, ◌++◌, ◌||◌,
}
use traefik_middleware_utili.Prelude.Decimal.{itoa, format_int}
use traefik_middleware_utili.Prelude.Int.{ℤ, pos, ◌==ℤ◌}
use traefik_middleware_utili.Prelude.Result.{Result, err, ok}
use traefik_middleware_utili.Simpleredis.Errors.{Error, error_text, issue}
use traefik_middleware_utili.Simpleredis.Exec.{Values}
use traefik_middleware_utili.Simpleredis.Commands.{Exec, parse_integer_reply}

abbrev pub max_msetex_pairs : ℕ
max_msetex_pairs = 1024

pub data GroupWritePath : Type 0 where
  group_write_unknown group_write_native group_write_lua : GroupWritePath

abbrev pub fallback_script : Bytes
fallback_script =
    codes
      "local token = ARGV[#ARGV - 1]\nlocal ttl = ARGV[#ARGV]\nfor i = 1, #KEYS do\n  redis.call('SET', KEYS[i], ARGV[i], token, ttl)\nend\nreturn 1"

unfoldable pub eval_argv : Bytes → Bytes → List Bytes → List Bytes → List Bytes
eval_argv verb script_or_digest keys args =
    verb ∷ script_or_digest ∷ itoa (length keys) ∷ keys ++ args

-- Names and values in turn. `msetex` has as many of one as of the other.
unfoldable pub pairs_in_order : List Bytes → List Bytes → List Bytes
pairs_in_order [] vs = []
pairs_in_order (n ∷ ns) [] = []
pairs_in_order (n ∷ ns) (v ∷ vs) = n ∷ v ∷ pairs_in_order ns vs

unfoldable pub msetex_args : List Bytes → List Bytes → Bytes → ℤ → List Bytes
msetex_args names values expire_token ttl =
    codes "MSETEX" ∷ itoa (length names) ∷ pairs_in_order names values
    ++ (expire_token ∷ format_int ttl ∷ [])

unfoldable pub msetex_success : Result Error ℤ → Option Error
msetex_success (err e) = some e
msetex_success (ok n) = if n ==ℤ pos 1 then none else some issue

abbrev pub is_no_script : Error → Bool
is_no_script e = has_prefix (codes "NOSCRIPT") (error_text e)

unfoldable pub unknown_command : Result Error ℤ → Bool
unknown_command (ok n) = false
unknown_command (err e) = has_prefix (codes "ERR unknown command") (error_text e)

abbrev pub is_ok {ℓ} : {A : Type ℓ} → Result Error A → Bool
is_ok (ok a) = true
is_ok (err e) = false

module _ {S : Type 0} (exec : Exec S) where
  abbrev pub after_eval_sha :
      Bytes → List Bytes → List Bytes → Result Error Values × S → Result Error Values × S
  after_eval_sha script keys args (ok vs, s) = (ok vs, s)
  after_eval_sha script keys args (err e, s) =
      if is_no_script e then exec (eval_argv (codes "EVAL") script keys args) s else (err e, s)

  unfoldable pub eval : Bytes → Bytes → List Bytes → List Bytes → S → Result Error Values × S
  eval script digest keys args s =
      after_eval_sha script keys args (exec (eval_argv (codes "EVALSHA") digest keys args) s)

  unfoldable pub msetex_eval : Bytes → List Bytes → List Bytes → Bytes → ℤ → S → Option Error × S
  msetex_eval digest names values expire_token ttl s =
      let r =
        eval fallback_script digest names (values ++ (expire_token ∷ format_int ttl ∷ [])) s in
      (msetex_success (parse_integer_reply r.0), r.1)

  -- The capability cache after the native command.
  abbrev pub learned : Bool → GroupWritePath → GroupWritePath
  learned answered path = if answered then group_write_native else path

  abbrev pub with_path : GroupWritePath → Option Error × S → Option Error × GroupWritePath × S
  with_path path (e, s) = (e, path, s)

  -- Native MSETEX first; the answer to it is `r`.
  abbrev pub after_native :
      Bytes
      → List Bytes
      → List Bytes
      → Bytes
      → ℤ
      → GroupWritePath
      → Result Error Values × S
      → Option Error × GroupWritePath × S
  after_native digest names values expire_token ttl path r =
      let n = parse_integer_reply r.0 in
      if unknown_command n
      then with_path group_write_lua (msetex_eval digest names values expire_token ttl r.1)
      else (msetex_success n, learned (is_ok n) path, r.1)

  abbrev pub send :
      Bytes
      → List Bytes
      → List Bytes
      → Bytes
      → ℤ
      → GroupWritePath
      → S
      → Option Error × GroupWritePath × S
  send digest names values expire_token ttl group_write_lua s =
      with_path group_write_lua (msetex_eval digest names values expire_token ttl s)
  send digest names values expire_token ttl path s =
      after_native digest names values expire_token ttl path
        (exec (msetex_args names values expire_token ttl) s)

  unfoldable pub msetex :
      Bytes
      → List Bytes
      → List Bytes
      → Bytes
      → ℤ
      → GroupWritePath
      → S
      → Option Error × GroupWritePath × S
  msetex digest names values expire_token ttl path s =
      if length names == 0
        || not (length names == length values)
        || ltb max_msetex_pairs (length names)
      then (some issue, path, s)
      else send digest names values expire_token ttl path s

  unfoldable pub mset_ex :
      Bytes → List Bytes → List Bytes → ℤ → GroupWritePath → S → Option Error × GroupWritePath × S
  mset_ex digest names values seconds path s =
      msetex digest names values (codes "EX") seconds path s

  unfoldable pub mset_ex_at :
      Bytes → List Bytes → List Bytes → ℤ → GroupWritePath → S → Option Error × GroupWritePath × S
  mset_ex_at digest names values unix_seconds path s =
      msetex digest names values (codes "EXAT") unix_seconds path s
