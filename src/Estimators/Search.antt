-- ===== src/Estimators/Search.antt =====
-- The gas search ends, and its answer is enough, while nearly as much is not.
use py_evm.Prelude.{
  ℕ, zero, suc, ◌+◌, ◌-◌, ◌*◌, ◌/◌, ◌^◌, ◌≤◌, ◌<◌, ◌≡◌, ◌∙◌, ◌⊎◌, inl, inr, true, false, Option,
  none, some, arith, ltb, ltb→lt, Bool-cases, Option-cases, ◌==◌, ==_iff, sym, ap, none-some,
}
use py_evm.Prelude.Exec.{Result, ok, err, Exec, pure, >>=-ok, ok_inj}
use mathlib.Core.Path.{subst}
use py_evm.Exceptions.{Exception, VmError, vm_error}
use py_evm.Vm.Accounts.{Accounts}
use py_evm.Vm.Executor.{Submitted}
use py_evm.Estimators.{
  after_trial, raise_or, spoof_gas, spoof_free, get_computation_error, search_loop, search_range,
  binary_gas_search,
}

pub pow-suc : (k : ℕ) → 2 ^ suc k ≡ 2 * 2 ^ k
pow-suc k = omega arith

error_or_none :
    (e : VmError) → ◌≡◌ {A = Result Exception (Option VmError)} (ok (some e)) (ok none) → ⊥
error_or_none e h = absurd (none-some e (sym (ok_inj (some e) none h)))

module _ {W : Type 0} (db : Accounts W)
    (execute : Submitted → Exec Exception W (Option VmError)) where
  -- A trial of a transaction has this result, an error or none, and leaves the state as it was.
  abbrev pub Trial : W → Submitted → Option VmError → Type 0
  Trial w t r = get_computation_error db execute t w ≡ (ok r, w)

  abbrev pub IsAnswered : W → Submitted → Type 0
  IsAnswered w t = (r : Option VmError) × Trial w t r

  -- The trials that a search may make are answered: those with the intrinsic gas and with the limit, at a
  -- gas price of 0, and those with an amount between the two.
  abbrev pub Answers : W → Submitted → ℕ → Type 0
  Answers w t limit =
      IsAnswered w (spoof_free t.intrinsic_gas t)
      × IsAnswered w (spoof_free limit t)
      × ((gas : ℕ) → t.intrinsic_gas < gas → gas < limit → IsAnswered w (spoof_gas gas t))

  module _ (w : W) (t : Submitted) (limit : ℕ) where
    -- A trial with so much gas succeeds.
    abbrev pub IsEnough : ℕ → Type 0
    IsEnough gas = Trial w (spoof_free gas t) none ⊎ Trial w (spoof_gas gas t) none

    -- A trial with so much gas fails.
    abbrev pub Fails : ℕ → Type 0
    Fails gas =
        (e : VmError) × (Trial w (spoof_free gas t) (some e) ⊎ Trial w (spoof_gas gas t) (some e))

    -- An amount that is enough, above one that fails, by the tolerance at most.
    abbrev pub Found : ℕ → ℕ → Type 0
    Found tolerance gas =
        IsEnough gas
        × (gas ≤ limit)
        × ((less : ℕ) × Fails less
            × (t.intrinsic_gas ≤ less)
            × (less < gas)
            × (gas ≤ less + tolerance))

    step_down :
        (fuel tolerance viable failed : ℕ)
        → ltb tolerance (viable - failed) ≡ true
        → Trial w (spoof_gas ((viable + failed) / 2) t) none
        → search_loop db execute (suc fuel) tolerance t viable failed w
          ≡ search_loop db execute fuel tolerance t ((viable + failed) / 2) failed w
    unfolding search_loop
    step_down fuel tolerance viable failed wide good =
        rw (wide, search_loop)
          (>>=-ok (get_computation_error db execute (spoof_gas ((viable + failed) / 2) t))
            (after_trial (search_loop db execute fuel tolerance t ((viable + failed) / 2) failed)
              (search_loop db execute fuel tolerance t viable ((viable + failed) / 2)))
            w w none good)

    step_up :
        (fuel tolerance viable failed : ℕ) (e : VmError)
        → ltb tolerance (viable - failed) ≡ true
        → Trial w (spoof_gas ((viable + failed) / 2) t) (some e)
        → search_loop db execute (suc fuel) tolerance t viable failed w
          ≡ search_loop db execute fuel tolerance t viable ((viable + failed) / 2) w
    unfolding search_loop
    step_up fuel tolerance viable failed e wide bad =
        rw (wide, search_loop)
          (>>=-ok (get_computation_error db execute (spoof_gas ((viable + failed) / 2) t))
            (after_trial (search_loop db execute fuel tolerance t ((viable + failed) / 2) failed)
              (search_loop db execute fuel tolerance t viable ((viable + failed) / 2)))
            w w (some e) bad)

    module _
        (between : (gas : ℕ)
          → t.intrinsic_gas < gas
          → gas < limit
          → IsAnswered w (spoof_gas gas t)) where
      search_loop_finds :
          (k tolerance viable failed : ℕ)
          → 1 ≤ tolerance
          → viable - failed ≤ 2 ^ k
          → failed < viable
          → viable ≤ limit
          → t.intrinsic_gas ≤ failed
          → IsEnough viable
          → Fails failed
          → (gas : ℕ) × (search_loop db execute (suc k) tolerance t viable failed w ≡ (ok gas, w))
            × Found tolerance gas
      unfolding search_loop
      search_loop_finds zero tolerance viable failed pos gap below top low enough fails =
          let narrow : ltb tolerance (viable - failed) ≡ false = ground (arith, gap, pos) in
          (
            viable,
            rw (narrow, search_loop),
            (enough, top, (failed, fails, low, below, omega (arith, gap, pos))),
          )
      search_loop_finds (suc k) tolerance viable failed pos gap below top low enough fails =
          elim (Bool-cases (ltb tolerance (viable - failed))) [
            | inr narrow ↦ (
              viable,
              rw (narrow, search_loop),
              (enough, top, (failed, fails, low, below, ground (arith, narrow))),
            )
            | inl wide ↦
                let mid = (viable + failed) / 2 in
                let lt = ltb→lt tolerance (viable - failed) wide in
                let half = pow-suc k in
                let (r, answer) = between mid (omega (arith, lt, low)) (omega (arith, lt, top)) in
                elim (Option-cases r) [
                  | inl is_none ↦
                      let good = subst (Trial w (spoof_gas mid t)) is_none answer in
                      let (gas, run, found) =
                        search_loop_finds k tolerance mid failed pos (omega (arith, gap, lt, half))
                          (omega (arith, lt, pos)) (omega (arith, lt, top)) low (inr good) fails in
                      (gas, step_down (suc k) tolerance viable failed wide good ∙ run, found)
                  | inr (e, is_some) ↦
                      let bad = subst (Trial w (spoof_gas mid t)) is_some answer in
                      let (gas, run, found) =
                        search_loop_finds k tolerance viable mid pos (omega (arith, gap, lt, half))
                          (omega (arith, lt)) top (omega (arith, lt, low)) enough (e, inr bad) in
                      (gas, step_up (suc k) tolerance viable failed e wide bad ∙ run, found)
                ]
          ]

    searched :
        (k tolerance : ℕ) (e : VmError)
        → Answers w t limit
        → 1 ≤ tolerance
        → t.intrinsic_gas < limit
        → limit - t.intrinsic_gas ≤ 2 ^ k
        → Trial w (spoof_free t.intrinsic_gas t) (some e)
        → Trial w (spoof_free limit t) none
        → (gas : ℕ) × (binary_gas_search db execute (suc k) tolerance limit t w ≡ (ok gas, w))
          × Found tolerance gas
    unfolding binary_gas_search search_range
    searched k tolerance e (_, _, between) pos order gap low high =
        let (gas, run, found) =
          search_loop_finds between k tolerance limit t.intrinsic_gas pos gap order (omega arith)
            (omega arith) (inl high) (e, inl low) in
        (
          gas,
          >>=-ok (get_computation_error db execute (spoof_free t.intrinsic_gas t))
                (after_trial (pure t.intrinsic_gas)
                  (search_range db execute (suc k) tolerance limit t))
                w w (some e) low
              ∙ >>=-ok (get_computation_error db execute (spoof_free limit t))
                  (λ x.
                    raise_or x (search_loop db execute (suc k) tolerance t limit t.intrinsic_gas))
                  w w none high
              ∙ run,
          found,
        )

    at_once :
        (fuel tolerance : ℕ)
        → Trial w (spoof_free t.intrinsic_gas t) none
        → binary_gas_search db execute fuel tolerance limit t w ≡ (ok t.intrinsic_gas, w)
    unfolding binary_gas_search
    at_once fuel tolerance low =
        >>=-ok (get_computation_error db execute (spoof_free t.intrinsic_gas t))
          (after_trial (pure t.intrinsic_gas) (search_range db execute fuel tolerance limit t)) w w
          none low

    refused :
        (fuel tolerance : ℕ) (e d : VmError)
        → Trial w (spoof_free t.intrinsic_gas t) (some e)
        → Trial w (spoof_free limit t) (some d)
        → binary_gas_search db execute fuel tolerance limit t w ≡ (err (vm_error d), w)
    unfolding binary_gas_search search_range
    refused fuel tolerance e d low high =
        >>=-ok (get_computation_error db execute (spoof_free t.intrinsic_gas t))
          (after_trial (pure t.intrinsic_gas) (search_range db execute fuel tolerance limit t)) w w
          (some e) low
        ∙ >>=-ok (get_computation_error db execute (spoof_free limit t))
            (λ x. raise_or x (search_loop db execute fuel tolerance t limit t.intrinsic_gas)) w w
            (some d) high

    -- What a search ends with: the intrinsic gas if it is enough, the error of the trial with the limit if
    -- there is one, or else an amount that is enough, above one that fails, by the tolerance at most.
    abbrev pub Outcome : ℕ → Result Exception ℕ × W → Type 0
    Outcome tolerance end =
        (Trial w (spoof_free t.intrinsic_gas t) none × (end ≡ (ok t.intrinsic_gas, w)))
        ⊎ ((e : VmError) × Trial w (spoof_free t.intrinsic_gas t) (some e)
            × (((d : VmError) × Trial w (spoof_free limit t) (some d)
                  × (end ≡ (err (vm_error d), w)))
                ⊎ (Trial w (spoof_free limit t) none
                    × ((gas : ℕ) × (end ≡ (ok gas, w)) × Found tolerance gas))))

    -- The two trials with a gas price of 0 differ, so they have different amounts.
    trials_differ :
        (e : VmError)
        → t.intrinsic_gas ≤ limit
        → Trial w (spoof_free t.intrinsic_gas t) (some e)
        → Trial w (spoof_free limit t) none
        → t.intrinsic_gas < limit
    trials_differ e order low high = elim (Bool-cases (t.intrinsic_gas == limit)) [
      | inr differ ↦ ground arith
      | inl same ↦
          let equal = (==_iff t.intrinsic_gas limit).0 same in
          let clash : (ok (some e), w) ≡ (ok none, w) =
            sym low
            ∙ ap (λ gas. get_computation_error db execute (spoof_free gas t) w) equal
            ∙ high in
          absurd (error_or_none e (ap (λ x. x.0) clash))
    ]

  -- If the trials are answered that the search may make, which lie from the intrinsic gas to a gas limit
  -- that is no lower, the tolerance is at least 1, and the range is at most 2 ** k for a fuel of k + 1, then
  -- binary_gas_search ends and leaves the state: with the intrinsic gas if that is enough; else with the
  -- error of the trial with the gas limit if it fails; else with an amount up to the limit that is enough,
  -- while a lower amount, which is at least the intrinsic gas and at most the tolerance below it, fails.
  pub binary_gas_search_finds :
      (w : W) (t : Submitted) (k tolerance limit : ℕ)
      → Answers w t limit
      → 1 ≤ tolerance
      → t.intrinsic_gas ≤ limit
      → limit - t.intrinsic_gas ≤ 2 ^ k
      → Outcome w t limit tolerance (binary_gas_search db execute (suc k) tolerance limit t w)
  binary_gas_search_finds w t k tolerance limit ((none, low), limit_trial, between) pos order gap =
      inl (low, at_once w t limit (suc k) tolerance low)
  binary_gas_search_finds w t k tolerance limit ((some e, low), (some d, high), between) pos order
        gap =
      inr (e, low, inl (d, high, refused w t limit (suc k) tolerance e d low high))
  binary_gas_search_finds w t k tolerance limit ((some e, low), (none, high), between) pos order
        gap =
      let (gas, run, found) =
        searched w t limit k tolerance e ((some e, low), (none, high), between) pos
          (trials_differ w t limit e order low high) gap low high in
      inr (e, low, inr (high, (gas, run, found)))
