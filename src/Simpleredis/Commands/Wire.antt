-- ===== src/Simpleredis/Commands/Wire.antt =====
-- What an engine does with the arguments of MSETEX, EVAL and EVALSHA on the wire, as their
-- documentation orders them.
use traefik_middleware_utili.Prelude.{
  ℕ, Bytes, List, Option, [], ap, append_assoc, arith, codes, get_elem?, get_elem?-append, length,
  append-nil, length-append, none, refl, some, suc, zero, ◌+◌, ◌-◌, ◌∷◌, ◌++◌, ◌≡◌, ◌∙◌,
}
use traefik_middleware_utili.Prelude.Decimal.{digits_value, itoa}
use traefik_middleware_utili.Prelude.Decimal.Laws.{digits_value-itoa}
use traefik_middleware_utili.Simpleredis.Commands.Group.{pairs_in_order}
use traefik_middleware_utili.Simpleredis.Exec.{Values}

-- The reply `:1`.
abbrev pub one_reply : Values
one_reply = some (codes "1") ∷ []

-- `SET key value token ttl` on the store of an engine.
module _ {S : Type 0} (set : Bytes → Bytes → Bytes → Bytes → S → S) where
  -- Every name gets its value, in order.
  unfoldable pub set_all : List Bytes → List Bytes → Bytes → Bytes → S → S
  set_all [] values token ttl s = s
  set_all (n ∷ ns) [] token ttl s = s
  set_all (n ∷ ns) (v ∷ vs) token ttl s = set_all ns vs token ttl (set n v token ttl s)

  abbrev pub set_next : Option Bytes → (Bytes → Option S) → Option S
  set_next none k = none
  set_next (some v) k = k v

  -- The loop of the script from key `i` on. A missing argument is an error.
  unfoldable pub script_loop : ℕ → List Bytes → List Bytes → Bytes → Bytes → S → Option S
  script_loop i [] argv token ttl s = some s
  script_loop i (k ∷ ks) argv token ttl s =
      set_next (get_elem? argv i) (λ v. script_loop (i + 1) ks argv token ttl (set k v token ttl s))

  -- The fallback script on KEYS and ARGV.
  unfoldable pub run_script : List Bytes → List Bytes → S → Option S
  run_script keys argv s = set_next (get_elem? argv (length argv - 2)) λ token.
      set_next (get_elem? argv (length argv - 1)) λ ttl. script_loop 0 keys argv token ttl s

  script_loop-set_all :
      (before names values tail : List Bytes) (i : ℕ) (token ttl : Bytes) (s : S)
      → i ≡ length before
      → length names ≡ length values
      → script_loop i names (before ++ (values ++ tail)) token ttl s
        ≡ some (set_all names values token ttl s)
  unfolding script_loop set_all
  script_loop-set_all before [] [] tail i token ttl s q h = refl
  script_loop-set_all before [] (v ∷ vs) tail i token ttl s q h = absurd (omega arith)
  script_loop-set_all before (n ∷ ns) [] tail i token ttl s q h = absurd (omega arith)
  script_loop-set_all before (n ∷ ns) (v ∷ vs) tail i token ttl s q h =
      let argv : List Bytes = before ++ ((v ∷ vs) ++ tail) in
      let here : get_elem? argv i ≡ some v =
        get_elem?-append before ((v ∷ vs) ++ tail) i 0 (omega (arith, q)) in
      let later : script_loop (i + 1) ns ((before ++ v ∷ []) ++ (vs ++ tail)) token ttl
            (set n v token ttl s)
          ≡ some (set_all ns vs token ttl (set n v token ttl s)) =
        script_loop-set_all (before ++ v ∷ []) ns vs tail (i + 1) token ttl (set n v token ttl s)
          (omega (arith, q, length-append before (v ∷ []))) (omega (arith, h)) in
      rw here (rw (append_assoc before (v ∷ []) (vs ++ tail)) at later)

  -- The script sets the pairs that `msetex` was called with.
  pub run_script-set_all :
      (names values : List Bytes) (token ttl : Bytes) (s : S)
      → length names ≡ length values
      → run_script names (values ++ (token ∷ ttl ∷ [])) s ≡ some (set_all names values token ttl s)
  unfolding run_script
  run_script-set_all names values token ttl s h =
      let argv : List Bytes = values ++ (token ∷ ttl ∷ []) in
      let two : length argv ≡ length values + 2 = length-append values (token ∷ ttl ∷ []) in
      let token_at : get_elem? argv (length argv - 2) ≡ some token =
        get_elem?-append values (token ∷ ttl ∷ []) (length argv - 2) 0 (omega (arith, two)) in
      let ttl_at : get_elem? argv (length argv - 1) ≡ some ttl =
        get_elem?-append values (token ∷ ttl ∷ []) (length argv - 1) 1 (omega (arith, two)) in
      rw (token_at, ttl_at)
        (script_loop-set_all [] names values (token ∷ ttl ∷ []) 0 token ttl s refl h)

  -- As many keys as are announced, and the other arguments.
  unfoldable pub run_keys : ℕ → List Bytes → List Bytes → S → Option S
  run_keys zero keys args s = run_script keys args s
  run_keys (suc n) keys [] s = none
  run_keys (suc n) keys (k ∷ args) s = run_keys n (keys ++ (k ∷ [])) args s

  abbrev pub run_counted : Option ℕ → List Bytes → S → Option S
  run_counted none args s = none
  run_counted (some n) args s = run_keys n [] args s

  -- `numkeys key [key ...] arg [arg ...]`, after the script or its digest.
  unfoldable pub run_eval : List Bytes → S → Option S
  run_eval [] s = none
  run_eval (numkeys ∷ args) s = run_counted (digits_value 0 numkeys) args s

  -- As many names with their values as are announced, then the expiry.
  unfoldable pub set_pairs : ℕ → List Bytes → List Bytes → List Bytes → S → Option S
  set_pairs zero names values (token ∷ ttl ∷ []) s = some (set_all names values token ttl s)
  set_pairs zero names values args s = none
  set_pairs (suc n) names values (k ∷ v ∷ args) s =
      set_pairs n (names ++ (k ∷ [])) (values ++ (v ∷ [])) args s
  set_pairs (suc n) names values args s = none

  abbrev pub set_counted : Option ℕ → List Bytes → S → Option S
  set_counted none args s = none
  set_counted (some n) args s = set_pairs n [] [] args s

  -- `numkeys key value [key value ...] token ttl`, after MSETEX.
  unfoldable pub run_msetex : List Bytes → S → Option S
  run_msetex [] s = none
  run_msetex (numkeys ∷ args) s = set_counted (digits_value 0 numkeys) args s

  run_keys-run_script :
      (names before args : List Bytes) (s : S)
      → run_keys (length names) before (names ++ args) s ≡ run_script (before ++ names) args s
  unfolding run_keys
  run_keys-run_script [] before args s = rw (append-nil before) refl
  run_keys-run_script (n ∷ ns) before args s =
      run_keys-run_script ns (before ++ (n ∷ [])) args s
      ∙ ap (λ keys. run_script keys args s) (append_assoc before (n ∷ []) ns)

  pub run_eval-set_all :
      (names values : List Bytes) (token ttl : Bytes) (s : S)
      → length names ≡ length values
      → run_eval (itoa (length names) ∷ (names ++ (values ++ (token ∷ ttl ∷ [])))) s
        ≡ some (set_all names values token ttl s)
  unfolding run_eval
  run_eval-set_all names values token ttl s h = rw (digits_value-itoa (length names)) (
      run_keys-run_script names [] (values ++ (token ∷ ttl ∷ [])) s
      ∙ run_script-set_all names values token ttl s h)

  set_pairs-set_all :
      (names values names_before values_before : List Bytes) (token ttl : Bytes) (s : S)
      → length names ≡ length values
      → set_pairs
          (length names)
          names_before
          values_before
          (pairs_in_order names values ++ (token ∷ ttl ∷ []))
          s
        ≡ some (set_all (names_before ++ names) (values_before ++ values) token ttl s)
  unfolding set_pairs pairs_in_order
  set_pairs-set_all [] [] ms ws token ttl s h = rw (append-nil ms, append-nil ws) refl
  set_pairs-set_all [] (v ∷ vs) ms ws token ttl s h = absurd (omega arith)
  set_pairs-set_all (n ∷ ns) [] ms ws token ttl s h = absurd (omega arith)
  set_pairs-set_all (n ∷ ns) (v ∷ vs) ms ws token ttl s h =
      set_pairs-set_all ns vs (ms ++ (n ∷ [])) (ws ++ (v ∷ [])) token ttl s (omega (arith, h))
      ∙ rw (append_assoc ms (n ∷ []) ns, append_assoc ws (v ∷ []) vs) refl

  pub run_msetex-set_all :
      (names values : List Bytes) (token ttl : Bytes) (s : S)
      → length names ≡ length values
      → run_msetex (itoa (length names) ∷ (pairs_in_order names values ++ (token ∷ ttl ∷ []))) s
        ≡ some (set_all names values token ttl s)
  unfolding run_msetex
  run_msetex-set_all names values token ttl s h =
      rw (digits_value-itoa (length names)) (set_pairs-set_all names values [] [] token ttl s h)
