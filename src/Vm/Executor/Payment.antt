-- ===== src/Vm/Executor/Payment.antt =====
-- Which transactions are accepted, and who pays for them.
use native.Mathlib.Nat.{add-mul, mul-le-mul_right, mul_assoc}
use py_evm.Prelude.Exec.{pure, gets, ◌>>=◌, ◌>>◌, Exec, Result, ok, err, raise_if}
use py_evm.Vm.Logic.World.{on_accounts}
use py_evm.Vm.Computation.{Computation, Action}
use py_evm.Vm.Computation.Outcome.{get_gas_remaining}
use py_evm.Vm.Computation.Collect.{get_gas_refund}
use py_evm.Vm.Executor.{
  settle, Submitted, gas_cost, capped_refund, validate_frontier_transaction, validate_transaction,
}
use py_evm.Prelude.{
  if◌then◌else◌, ◌==◌, inl, inr, Bool-cases, ℕ, ◌+◌, ◌-◌, ◌*◌, ◌/◌, ◌≤◌, ◌<◌, min, ◌≡◌, refl, sym,
  ap, ◌∙◌, ◌↔◌, Bool, true, false, not, arith, ltb, ◌==◌,
}
use py_evm.Prelude.Int.{pos}
use py_evm.Constants.{uint_256_max}
use py_evm.Exceptions.{Exception, validation_error}
use py_evm.Numeric.{bytes_eq}
use py_evm.Vm.Message.{Address, IsAddress}
use py_evm.Vm.Accounts.{Accounts, delta_balance}

-- What an account database keeps in the states where it is ready, for addresses of 20 bytes: balances and
-- nonces up to 2 ** 256 - 1, each by its own address.
pub record Lawful {W : Type 0} (db : Accounts W) (IsReady : W → Type 0) : Type 0 where
  pub set_ok :
      (a : Address) (v : ℕ) (w : W)
      → IsReady w
      → IsAddress a
      → v ≤ uint_256_max
      → ((db.set_balance a v w).0 ≡ ok tt) × IsReady (db.set_balance a v w).1
  pub get_set :
      (a : Address) (v : ℕ) (w : W)
      → IsReady w
      → IsAddress a
      → v ≤ uint_256_max
      → db.get_balance (db.set_balance a v w).1 a ≡ v
  pub get_other :
      (a b : Address) (v : ℕ) (w : W)
      → IsReady w
      → IsAddress a
      → IsAddress b
      → v ≤ uint_256_max
      → bytes_eq a b ≡ false
      → db.get_balance (db.set_balance a v w).1 b ≡ db.get_balance w b
  pub get_nonce_set :
      (a : Address) (v : ℕ) (w : W)
      → IsReady w
      → IsAddress a
      → v ≤ uint_256_max
      → db.get_nonce (db.set_balance a v w).1 a ≡ db.get_nonce w a
  pub nonce_ok :
      (a : Address) (w : W)
      → IsReady w
      → IsAddress a
      → db.get_nonce w a < uint_256_max
      → (db.increment_nonce a w).0 ≡ ok tt
  pub get_nonced :
      (a : Address) (w : W)
      → IsReady w
      → IsAddress a
      → db.get_nonce w a < uint_256_max
      → db.get_balance (db.increment_nonce a w).1 a ≡ db.get_balance w a

-- What validation asks of a transaction.
pub record IsPayable {W : Type 0} (db : Accounts W) (t : Submitted) (w : W) : Type 0 where
  pub intrinsic : t.intrinsic_gas ≤ t.fields.gas
  pub checked : t.checked ≡ ok tt
  pub funds : t.fields.value + gas_cost t ≤ db.get_balance w t.sender
  pub nonce : db.get_nonce w t.sender ≡ t.fields.nonce

-- The refund and the fee together are what the gas did cost.
pub capped_refund_lem :
    (gas gas_remaining gas_refunded gas_price : ℕ)
    → gas_remaining ≤ gas
    → let refund = capped_refund gas gas_remaining gas_refunded in
      ((refund + gas_remaining) * gas_price + (gas - gas_remaining - refund) * gas_price
        ≡ gas * gas_price)
      × (gas - gas_remaining ≤ 2 * (gas - gas_remaining - refund))
unfolding capped_refund
capped_refund_lem gas gas_remaining gas_refunded gas_price h =
    let refund = min gas_refunded ((gas - gas_remaining) / 2) in
    let whole : (refund + gas_remaining) + (gas - gas_remaining - refund) ≡ gas =
      omega (arith, h) in
    (
      sym (add-mul (refund + gas_remaining) (gas - gas_remaining - refund) gas_price)
          ∙ ap (λ n. n * gas_price) whole,
      omega arith,
    )

-- A row of checks that writes nothing and passes just if `P` holds.
record Checks {S : Type 0} (x : Result Exception Unit × S) (s : S) (P : Type 0) : Type 0 where
  same : x.1 ≡ s
  passed : x.0 ≡ ok tt → P
  passes : P → x.0 ≡ ok tt

module _ {S : Type 0} where
  Checks-raise_if : (b : Bool) (e : Exception) (s : S) → Checks (raise_if b e s) s (b ≡ false)
  Checks-raise_if true e s = record {
    same = refl;
    passed = λ h. absurd (cc);
    passes = λ h. absurd (cc);
  }
  Checks-raise_if false e s = record { same = refl; passed = λ h. refl; passes = λ h. refl }

  Checks-result : (r : Result Exception Unit) (s : S) → Checks (r, s) s (r ≡ ok tt)
  Checks-result r s = record { same = refl; passed = λ h. h; passes = λ h. h }

  both :
      {P Q : Type 0} (r : Result Exception Unit) (t s : S) (k : S → Result Exception Unit × S)
      → Checks (r, t) s P
      → Checks (k s) s Q
      → Checks (elim r [ ok _ ↦ k t | err e ↦ (err e, t) ]) s (P × Q)
  both (ok u) t s k p q = rw p.same (record {
    same = q.same;
    passed = λ h. (p.passed refl, q.passed h);
    passes = λ (a, b). q.passes b;
  })
  both (err e) t s k p q = record {
    same = p.same;
    passed = λ h. absurd (cc);
    passes = λ (a, b). let bad = p.passes a in absurd (cc);
  }

  Checks-then :
      {P Q : Type 0} (m k : Exec Exception S Unit) (s : S)
      → Checks (m s) s P
      → Checks (k s) s Q
      → Checks ((m >> k) s) s (P × Q)
  Checks-then m k s p q = both (m s).0 (m s).1 s k p q

module _ {W : Type 0} (db : Accounts W) where
  validate_checks :
      (t : Submitted) (w : W)
      → Checks (validate_transaction db t w) w (
          (ltb t.fields.gas t.intrinsic_gas ≡ false)
          × ((t.checked ≡ ok tt)
              × ((ltb (db.get_balance w t.sender) (gas_cost t) ≡ false)
                  × ((ltb (db.get_balance w t.sender) (t.fields.value + gas_cost t) ≡ false)
                      × (not (db.get_nonce w t.sender == t.fields.nonce) ≡ false)))))
  unfolding validate_transaction validate_frontier_transaction
  validate_checks t w =
      let poor : ℕ → W → Result Exception Unit × W =
        λ n. raise_if (ltb (db.get_balance w t.sender) n) validation_error in
      let other = raise_if (not (db.get_nonce w t.sender == t.fields.nonce)) validation_error in
      let funds =
        Checks-then (poor (t.fields.value + gas_cost t)) other w (Checks-raise_if _ _ w)
          (Checks-raise_if _ _ w) in
      let all =
        Checks-then (poor (gas_cost t)) (poor (t.fields.value + gas_cost t) >> other) w
          (Checks-raise_if _ _ w) funds in
      let frontier = validate_frontier_transaction db t in
      let class_checks : W → Result Exception Unit × W = λ s. (t.checked, s) in
      Checks-then (raise_if (ltb t.fields.gas t.intrinsic_gas) validation_error)
        (class_checks >> frontier) w (Checks-raise_if _ _ w)
        (Checks-then class_checks frontier w (Checks-result t.checked w) all)

  -- Validation writes nothing, and accepts just the transactions whose gas covers the intrinsic gas,
  -- whose class accepts them, whose sender can pay for the value and all of the gas, and whose nonce
  -- is that of the sender.
  pub validate_transaction_iff :
      (t : Submitted) (w : W)
      → ((validate_transaction db t w).1 ≡ w)
        × (((validate_transaction db t w).0 ≡ ok tt) ↔ IsPayable db t w)
  unfolding validate_transaction validate_frontier_transaction
  validate_transaction_iff t w =
      let checks = validate_checks t w in
      (
        checks.same,
        (
          λ h.
              let (a, (b, (c, (e, f)))) = checks.passed h in
              record {
                intrinsic = ground arith;
                checked = b;
                funds = ground arith;
                nonce = ground arith;
              },
          λ p. checks.passes (
            ground (arith, p.intrinsic),
            (
              p.checked,
              (ground (arith, p.funds), (ground (arith, p.funds), ground (arith, p.nonce))),
            ),
          ),
        ),
      )

module _ {W : Type 0} (db : Accounts W) (IsReady : W → Type 0) (lawful : Lawful db IsReady) where
  -- A balance that grows by `n`, and no other one changes.
  record Credited (a : Address) (n : ℕ) (w w' : W) : Type 0 where
    own : db.get_balance w' a ≡ db.get_balance w a + n
    others :
        (b : Address)
        → IsAddress b
        → bytes_eq a b ≡ false
        → db.get_balance w' b ≡ db.get_balance w b
    ready : IsReady w'

  credit_lem :
      (a : Address) (n : ℕ) (w : W)
      → IsReady w
      → IsAddress a
      → db.get_balance w a + n ≤ uint_256_max
      → (w' : W) × (delta_balance db a (pos n) w ≡ (ok tt, w')) × Credited a n w w'
  unfolding delta_balance
  credit_lem a n w ready address h =
      let v = db.get_balance w a + n in
      let (done, ready') = lawful.set_ok a v w ready address h in
      (
        (db.set_balance a v w).1,
        ap (λ r. (r, (db.set_balance a v w).1)) done,
        record {
          own = lawful.get_set a v w ready address h;
          others = λ b other p. lawful.get_other a b v w ready address other h p;
          ready = ready';
        },
      )

module _ {W : Type 0} where
  then_lem : (m k : Action W Unit) (c c' : Computation W) → m c ≡ (ok tt, c') → (m >> k) c ≡ k c'
  then_lem m k c c' e = rw (e, ◌>>◌, ◌>>=◌, e) refl

double_le : (a b p : ℕ) → a ≤ 2 * b → a * p ≤ 2 * (b * p)
double_le a b p h = omega (arith, mul-le-mul_right p h, mul_assoc 2 b p)

-- How a computation is settled: a refund for the sender and a fee for the miner.
pub record Settled {W : Type 0} (db : Accounts W) (t : Submitted) (c : Computation W)
    (x : Result Exception Unit × Computation W) : Type 0 where
  pub done : x.0 ≡ ok tt
  pub refund : ℕ
  pub fee : ℕ
  pub sum : refund + fee ≡ gas_cost t
  pub unused : get_gas_remaining c * t.fields.gas_price ≤ refund
  pub paid : (t.fields.gas - get_gas_remaining c) * t.fields.gas_price ≤ 2 * fee
  pub sender :
      db.get_balance x.1.accounts c.msg.sender ≡ db.get_balance c.accounts c.msg.sender + refund
  pub coinbase :
      db.get_balance x.1.accounts c.context.coinbase
      ≡ db.get_balance c.accounts c.context.coinbase + fee
  pub others :
      (b : Address)
      → IsAddress b
      → bytes_eq c.msg.sender b ≡ false
      → bytes_eq c.context.coinbase b ≡ false
      → db.get_balance x.1.accounts b ≡ db.get_balance c.accounts b

module _ {W : Type 0} (db : Accounts W) (IsReady : W → Type 0) (lawful : Lawful db IsReady) where
  -- A credit that is left out if it is nothing.
  refund_lem :
      (a : Address) (n : ℕ) (c : Computation W)
      → IsReady c.accounts
      → IsAddress a
      → db.get_balance c.accounts a + n ≤ uint_256_max
      → (w' : W) × ((if n == 0 then pure tt else on_accounts (delta_balance db a (pos n))) c
          ≡ (ok tt, record c { accounts = w' }))
        × Credited db IsReady lawful a n c.accounts w'
  refund_lem a n c ready address h = elim (Bool-cases (n == 0)) [
    | inl nothing ↦
        let zero_n : n ≡ 0 = ground arith in
        (
          c.accounts,
          rw nothing refl,
          record { own = omega (arith, zero_n); others = λ b other p. refl; ready = ready },
        )
    | inr some_ ↦
        let (w', e, credited) = credit_lem db IsReady lawful a n c.accounts ready address h in
        (w', rw (some_, e) refl, credited)
  ]

  -- Over an account database that keeps balances and is ready, with addresses of 20 bytes for the sender
  -- and the miner, which differ, no more gas left than the transaction had, and room for the balances, the
  -- settling of a computation succeeds: refund and fee add up to the whole cost of the gas, the refund covers the gas that is
  -- left, the fee at least half of what was used, and no other balance changes.
  pub settle_lem :
      (t : Submitted) (c : Computation W)
      → IsReady c.accounts
      → IsAddress c.msg.sender
      → IsAddress c.context.coinbase
      → get_gas_remaining c ≤ t.fields.gas
      → bytes_eq c.msg.sender c.context.coinbase ≡ false
      → bytes_eq c.context.coinbase c.msg.sender ≡ false
      → db.get_balance c.accounts c.msg.sender + gas_cost t ≤ uint_256_max
      → db.get_balance c.accounts c.context.coinbase + gas_cost t ≤ uint_256_max
      → Settled db t c (settle db t c)
  unfolding settle
  settle_lem t c ready sender miner h differ differ' room room' =
      let remaining = get_gas_remaining c in
      let r = capped_refund t.fields.gas remaining (get_gas_refund c) in
      let refund = (r + remaining) * t.fields.gas_price in
      let fee = (t.fields.gas - remaining - r) * t.fields.gas_price in
      let (whole, half) =
        capped_refund_lem t.fields.gas remaining (get_gas_refund c) t.fields.gas_price h in
      let (w', e, first) =
        refund_lem c.msg.sender refund c ready sender (omega (arith, whole, room)) in
      let same = first.others c.context.coinbase miner differ in
      let (w'', e', second) =
        credit_lem db IsReady lawful c.context.coinbase fee w' first.ready miner
          (omega (arith, same, whole, room')) in
      let c' = record c { accounts = w' } in
      let all : settle db t c ≡ (ok tt, record c { accounts = w'' }) =
        then_lem
          (if refund == 0
            then pure tt
            else on_accounts (delta_balance db c.msg.sender (pos refund)))
          (do
            coinbase ← gets (λ x. x.context.coinbase)
            on_accounts (delta_balance db coinbase (pos fee)))
          c c' e
        ∙ ap (λ x. (x.0, record c' { accounts = x.1 })) e' in
      rw all (record {
        done = refl;
        refund = refund;
        fee = fee;
        sum = whole;
        unused = omega (arith, add-mul r remaining t.fields.gas_price);
        paid = double_le _ _ t.fields.gas_price half;
        sender = second.others c.msg.sender sender differ' ∙ first.own;
        coinbase = omega (arith, second.own, same);
        others = λ b other p q. second.others b other q ∙ first.others b other p;
      })
