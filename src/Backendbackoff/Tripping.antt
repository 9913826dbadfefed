-- ===== src/Backendbackoff/Tripping.antt =====
-- How many failures open a closed key.
use traefik_middleware_utili.Keys.Laws.{find-store}
use traefik_middleware_utili.Prelude.{
  ℕ, Bytes, List, [], arith, false, if◌then◌else◌, length, some, refl, ap, suc, zero, ◌+◌, ◌-◌, ◌^◌,
  ◌==◌, ◌∙◌, ◌∷◌, ◌≡◌, ◌≤◌, ◌<◌,
}
use traefik_middleware_utili.Prelude.Int.{pos}
use traefik_middleware_utili.Prelude.Result.{Result, ok, ◌>>=◌}
use traefik_middleware_utili.Float.{Float, IsExact}
use traefik_middleware_utili.Backendbackoff.Config.{Error, one_float}
use traefik_middleware_utili.Keys.{find, store}
use traefik_middleware_utili.Backendbackoff.Gate.{
  Entry, Gate, GateState, state_closed, state_open, state_half_open, refresh,
  reset_n_if_closed_long_enough,
}
use traefik_middleware_utili.Backendbackoff.Report.{
  report, report_entry, report_state, report_found, lose,
}
use traefik_middleware_utili.Backendbackoff.Probe.{not_refused}

module _ (fl : Float) where
  -- Failures in a row, each at a time and with a sample.
  unfoldable pub fail_times :
      Bytes → List (ℕ × fl.number) → Gate fl.number → Result Error (Gate fl.number)
  fail_times key [] g = ok g
  fail_times key ((now, sample) ∷ fs) g =
      report fl key false now sample g >>= λ g'. fail_times key fs g'

  abbrev pub credit_of : ℕ → fl.number
  credit_of c = fl.of_int (pos c)

  lose_credit :
      (now : ℕ) (sample : fl.number) (g : Gate fl.number) (e : Entry fl.number) (c : ℕ)
      → IsExact fl
      → c + 1 ≤ 2 ^ 53
      → e.credit ≡ credit_of (suc c)
      → e.state ≡ state_closed
      → ((lose fl now sample g e).credit ≡ credit_of c)
        × ((lose fl now sample g e).state ≡ (if c == 0 then state_open else state_closed))
  unfolding reset_n_if_closed_long_enough
  lose_credit now sample g e c laws le q st =
      let spent : fl.sub e.credit (one_float fl) ≡ credit_of c = rw q (laws.exact c le) in
      let tested : fl.le (fl.sub e.credit (one_float fl)) (credit_of 0) ≡ (c == 0) =
        rw spent (laws.le_zero c (omega arith)) in
      (ground (arith, spent), ground (arith, spent, tested))

  report_closed :
      (s : GateState) (now : ℕ) (sample : fl.number) (g : Gate fl.number) (e : Entry fl.number)
      → s ≡ state_closed
      → report_state fl s false now sample g e ≡ lose fl now sample g e
  report_closed state_closed now sample g e q = refl
  report_closed state_open now sample g e q = cc
  report_closed state_half_open now sample g e q = cc

  report_failure :
      (key : Bytes) (now : ℕ) (sample : fl.number) (g : Gate fl.number) (e : Entry fl.number)
      → g.closed ≡ false
      → find key g.keys ≡ some e
      → e.state ≡ state_closed
      → report fl key false now sample g
        ≡ ok (record g { keys = store key (lose fl now sample g (refresh now g e)) g.keys })
  unfolding report report_entry
  report_failure key now sample g e c q st =
      not_refused g.closed _ _ c
      ∙ ap (λ o. ok (report_found fl key false now sample g o)) q
      ∙ ap (λ e'. ok (record g { keys = store key e' g.keys }))
          (report_closed e.state now sample g (refresh now g e) st)

  -- A closed key with a credit of `c`.
  pub record HasCredit (key : Bytes) (c : ℕ) (g : Gate fl.number) (e : Entry fl.number)
      : Type 0 where
    pub open_gate : g.closed ≡ false
    pub stored : find key g.keys ≡ some e
    pub state : e.state ≡ state_closed
    pub credit : e.credit ≡ credit_of c

  -- From a closed key with a whole credit of `c`, at least one and at most 2^53, up to `c` failures in
  -- a row take one credit each. The key opens at the last of `c` failures and not before.
  pub report_trips :
      (key : Bytes) (fs : List (ℕ × fl.number)) (c : ℕ) (g : Gate fl.number) (e : Entry fl.number)
      → IsExact fl
      → HasCredit key c g e
      → 0 < c
      → c ≤ 2 ^ 53
      → length fs ≤ c
      → (g' : Gate fl.number) × (e' : Entry fl.number) × (fail_times key fs g ≡ ok g')
        × (find key g'.keys ≡ some e')
        × (e'.credit ≡ credit_of (c - length fs))
        × (e'.state ≡ (if c == length fs then state_open else state_closed))
  unfolding fail_times
  report_trips key [] (suc c) g e laws h p le len =
      let early : false ≡ (suc c == 0) = ground arith in
      (
        g,
        e,
        refl,
        h.stored,
        h.credit ∙ ap credit_of (omega arith),
        h.state ∙ ap (λ b. if b then state_open else state_closed) early,
      )
  report_trips key [] zero g e laws h p le len = absurd (omega arith)
  report_trips key (f ∷ fs) zero g e laws h p le len = absurd (omega arith)
  report_trips key ((now, sample) ∷ []) (suc zero) g e laws h p le len =
      let lost = lose_credit now sample g (refresh now g e) 0 laws (omega arith) h.credit h.state in
      let e' : Entry fl.number = lose fl now sample g (refresh now g e) in
      (
        record g { keys = store key e' g.keys },
        e',
        ap (λ r. r >>= fail_times key [])
            (report_failure key now sample g e h.open_gate h.stored h.state),
        find-store key e' g.keys,
        lost.0,
        lost.1,
      )
  report_trips key ((now, sample) ∷ f ∷ fs) (suc zero) g e laws h p le len = absurd (omega arith)
  report_trips key ((now, sample) ∷ fs) (suc (suc c)) g e laws h p le len =
      let lost =
        lose_credit now sample g (refresh now g e) (suc c) laws (omega arith) h.credit h.state in
      let e' : Entry fl.number = lose fl now sample g (refresh now g e) in
      let early : (suc c == 0) ≡ false = ground arith in
      let g' : Gate fl.number = record g { keys = store key e' g.keys } in
      let kept : HasCredit key (suc c) g' e' = record {
        open_gate = h.open_gate;
        stored = find-store key e' g.keys;
        state = lost.1 ∙ ap (λ b. if b then state_open else state_closed) early;
        credit = lost.0;
      } in
      let same : (suc c == length fs) ≡ (suc (suc c) == length ((now, sample) ∷ fs)) =
        ground arith in
      let rest =
        report_trips key fs (suc c) g' e' laws kept (omega arith) (omega arith) (omega arith) in
      (
        rest.0,
        rest.1,
        ap (λ r. r >>= fail_times key fs)
              (report_failure key now sample g e h.open_gate h.stored h.state)
            ∙ rest.2,
        rest.3,
        rest.4 ∙ ap credit_of (omega arith),
        rest.5 ∙ ap (λ b. if b then state_open else state_closed) same,
      )
