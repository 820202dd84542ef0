-- ===== src/Vm/Executor/Purchase.antt =====
-- The message of a transaction: the sender pays for all of its gas before it runs.
use py_evm.Prelude.{
  ℕ, zero, suc, ◌+◌, ◌-◌, ◌≤◌, ◌<◌, ◌≡◌, refl, ap, ◌∙◌, inl, inr, true, false, ◌||◌, none, arith,
  length, length-drop, ltb, leb, Bool-cases,
}
use py_evm.Prelude.Exec.{Result, ok, Exec, gets, ◌>>=◌, ◌>>◌}
use py_evm.Constants.{uint_256_max}
use py_evm.Exceptions.{Exception}
use py_evm.Numeric.{Bytes}
use py_evm.Vm.Message.{
  Message, Address, build, is_create_address, is_canonical, is_canonical_or_none, IsAddress,
}
use py_evm.Vm.Accounts.{Accounts, Library, delta_balance}
use py_evm.Vm.Computation.{Context}
use py_evm.Vm.Logic.Words.{negate}
use py_evm.Vm.Logic.Call.Create.{generate_contract_address}
use py_evm.Vm.Executor.{Submitted, gas_cost, get_transaction_context, message_of, build_evm_message}
use py_evm.Vm.Executor.Payment.{Lawful, IsPayable}

-- What the class of a transaction checks of the ranges of its fields, and what a sender is.
pub record IsFormed (t : Submitted) : Type 0 where
  pub gas_price : t.fields.gas_price ≤ uint_256_max
  pub gas : t.fields.gas ≤ uint_256_max
  pub value : t.fields.value ≤ uint_256_max
  pub to : (is_create_address t.fields.to || is_canonical t.fields.to) ≡ true
  pub sender : IsAddress t.sender
  pub nonce : t.fields.nonce < uint_256_max

-- A hash has at least the 20 bytes of an address.
pub record Hashes (lib : Library) : Type 0 where
  pub long : (b : Bytes) → 20 ≤ length (lib.keccak b)

contract_address-canonical :
    (lib : Library) (a : Address) (n : ℕ)
    → Hashes lib
    → is_canonical (generate_contract_address lib a n) ≡ true
contract_address-canonical lib a n h =
    let hash = lib.keccak (lib.encode_address_nonce a n) in
    let size : length (generate_contract_address lib a n) ≡ 20 =
      omega (arith, length-drop (length hash - 20) hash, h.long (lib.encode_address_nonce a n)) in
    rw size refl

then_ok :
    {E S A B : Type 0} (m : Exec E S A) (f : A → Exec E S B) (s s' : S) (a : A)
    → m s ≡ (ok a, s')
    → (m >>= f) s ≡ f a s'
then_ok m f s s' a e = rw (e, ◌>>=◌, e) refl

-- A message in range is built.
built_ok :
    (m : Message)
    → m.gas ≤ uint_256_max
    → m.value ≤ uint_256_max
    → (is_create_address m.to || is_canonical m.to) ≡ true
    → is_canonical m.sender ≡ true
    → is_canonical_or_none m.create_address ≡ true
    → m.given_code_address ≡ none
    → build m ≡ ok m
unfolding build
built_ok m g v t s c n =
    let gas : leb m.gas uint_256_max ≡ true = ground (arith, g) in
    let value : leb m.value uint_256_max ≡ true = ground (arith, v) in
    rw (gas, t, s, value, c, n) refl

-- What the purchase of the gas leaves.
pub record Bought {W : Type 0} (db : Accounts W) (t : Submitted) (w : W)
    (x : Result Exception Message × W) : Type 0 where
  pub message : Message
  pub built : x.0 ≡ ok message
  pub gas : message.gas + t.intrinsic_gas ≡ t.fields.gas
  pub sender : message.sender ≡ t.sender
  pub balance : db.get_balance x.1 t.sender + gas_cost t ≡ db.get_balance w t.sender
  pub covered : message.value ≤ db.get_balance x.1 t.sender

module _ {W : Type 0} (db : Accounts W) (IsReady : W → Type 0) (lawful : Lawful db IsReady) where
  debit_lem :
      (a : Address) (n : ℕ) (w : W)
      → IsReady w
      → IsAddress a
      → n ≤ db.get_balance w a
      → db.get_balance w a ≤ uint_256_max
      → (w' : W) × (delta_balance db a (negate n) w ≡ (ok tt, w'))
        × (db.get_balance w' a + n ≡ db.get_balance w a)
        × (db.get_nonce w' a ≡ db.get_nonce w a)
        × IsReady w'
  unfolding delta_balance
  debit_lem a zero w ready address h room =
      let v = db.get_balance w a + 0 in
      let (done, ready') = lawful.set_ok a v w ready address (omega (arith, room)) in
      (
        (db.set_balance a v w).1,
        ap (λ r. (r, (db.set_balance a v w).1)) done,
        omega (arith, lawful.get_set a v w ready address (omega (arith, room))),
        lawful.get_nonce_set a v w ready address (omega (arith, room)),
        ready',
      )
  debit_lem a (suc n) w ready address h room =
      let v = db.get_balance w a - suc n in
      let (done, ready') = lawful.set_ok a v w ready address (omega (arith, room)) in
      let enough : ltb (db.get_balance w a) (suc n) ≡ false = ground (arith, h) in
      (
        (db.set_balance a v w).1,
        rw enough (ap (λ r. (r, (db.set_balance a v w).1)) done),
        omega (arith, h, lawful.get_set a v w ready address (omega (arith, room))),
        lawful.get_nonce_set a v w ready address (omega (arith, room)),
        ready',
      )

module _ {W : Type 0} (db : Accounts W) (IsReady : W → Type 0) (lawful : Lawful db IsReady)
    (lib : Library) (hashes : Hashes lib) where
  created :
      (t : Submitted) (w : W) → is_canonical_or_none (message_of db lib t w).create_address ≡ true
  unfolding message_of
  created t w = elim (Bool-cases (is_create_address t.fields.to)) [
    | inl e ↦ rw e (contract_address-canonical lib t.sender _ hashes)
    | inr e ↦ rw e refl
  ]

  context_ok :
      (block : Context) (t : Submitted) (w : W)
      → IsFormed t
      → get_transaction_context db block t w
        ≡ (ok (record block { gas_price = t.fields.gas_price; origin = t.sender }), w)
  unfolding get_transaction_context
  context_ok block t w formed =
      let price : leb t.fields.gas_price uint_256_max ≡ true = ground (arith, formed.gas_price) in
      rw (price, formed.sender.0) refl

  -- Over an account database that keeps balances and is ready, and with hashes of at least 20 bytes, a
  -- payable and well-formed transaction, with a sender of 20 bytes and a nonce that is not the highest, has its message built: its sender has paid for all of the
  -- gas, and what is left to the sender still covers the value of the message.
  pub build_evm_message_lem :
      (block : Context) (t : Submitted) (w : W)
      → IsReady w
      → IsFormed t
      → IsPayable db t w
      → db.get_balance w t.sender ≤ uint_256_max
      → Bought db t w (build_evm_message db lib block t w)
  unfolding build_evm_message get_transaction_context message_of
  build_evm_message_lem block t w ready formed payable room =
      let (w', e, paid, same_nonce, ready') =
        debit_lem db IsReady lawful t.sender (gas_cost t) w ready formed.sender
          (omega (arith, payable.funds)) room in
      let context : get_transaction_context db block t w ≡ (ok _, w) =
        context_ok block t w formed in
      let bump = db.increment_nonce t.sender in
      let w'' = (bump w').1 in
      let nonce : db.get_nonce w' t.sender < uint_256_max =
        omega (arith, same_nonce, payable.nonce, formed.nonce) in
      let bumped : bump w' ≡ (ok tt, w'') =
        ap (λ r. (r, w'')) (lawful.nonce_ok t.sender w' ready' formed.sender nonce) in
      let same = lawful.get_nonced t.sender w' ready' formed.sender nonce in
      let msg = message_of db lib t w'' in
      let built =
        built_ok msg (omega (arith, formed.gas)) formed.value formed.to formed.sender.0
          (created t w'') refl in
      let finish : Exec Exception W Message =
        gets (message_of db lib t) >>= (λ m x. (build m, x)) in
      let all : build_evm_message db lib block t w ≡ (ok msg, w'') =
        then_ok (get_transaction_context db block t)
          (λ _. delta_balance db t.sender (negate (gas_cost t)) >> (bump >> finish)) w w _ context
        ∙ (then_ok (delta_balance db t.sender (negate (gas_cost t))) (λ _. bump >> finish) w w' tt e
            ∙ (then_ok bump (λ _. finish) w' w'' tt bumped ∙ ap (λ r. (r, w'')) built)) in
      rw all (record {
        message = msg;
        built = refl;
        gas = omega (arith, payable.intrinsic);
        sender = refl;
        balance = omega (arith, same, paid);
        covered = omega (arith, same, paid, payable.funds);
      })
