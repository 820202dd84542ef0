-- ===== src/Vm/GasMeter/Laws.antt =====
-- The gas account balances over any sequence of calls.
use py_evm.Prelude.{ℕ, ◌+◌, ◌≡◌, List, [], ◌∷◌, arith}
use py_evm.Prelude.Int.{ℤ, pos, negsuc}
use py_evm.Prelude.Exec.{Result, ok, err}
use py_evm.Vm.GasMeter.{GasMeter, consume_gas, return_gas, refund_gas}

pub data Call : Type 0 where
  consume give_back refund : ℤ → Call

-- The amount that a call moved: nothing if it raised.
abbrev moved : {E : Type 0} → Result E Unit × GasMeter → ℤ → ℕ
moved (ok _, _) (pos amount) = amount
moved (ok _, _) (negsuc _) = 0
moved (err _, _) _ = 0

-- The calls made one after the other, with the sums of what was consumed, returned and refunded.
pub record Ledger : Type 0 where
  pub meter : GasMeter
  pub consumed : ℕ
  pub returned : ℕ
  pub refunded : ℕ

abbrev pub call : Call → Ledger → Ledger
call (consume z) l = record l {
  meter = (consume_gas z l.meter).1;
  consumed = l.consumed + moved (consume_gas z l.meter) z;
}
call (give_back z) l = record l {
  meter = (return_gas z l.meter).1;
  returned = l.returned + moved (return_gas z l.meter) z;
}
call (refund z) l = record l {
  meter = (refund_gas z l.meter).1;
  refunded = l.refunded + moved (refund_gas z l.meter) z;
}

abbrev pub calls : List Call → Ledger → Ledger
calls [] l = l
calls (c ∷ cs) l = calls cs (call c l)

-- What is left and what was consumed make up what there was at the start and what was returned.
pub record Balances (l : Ledger) : Type 0 where
  pub remaining : l.meter.gas_remaining + l.consumed ≡ l.meter.start_gas + l.returned
  pub refunds : l.meter.gas_refunded ≡ l.refunded

call-Balances : (c : Call) (l : Ledger) → Balances l → Balances (call c l)
unfolding consume_gas return_gas refund_gas
call-Balances (consume (pos amount)) l b = ground arith
call-Balances (consume (negsuc n)) l b = ground arith
call-Balances (give_back (pos amount)) l b = ground arith
call-Balances (give_back (negsuc n)) l b = ground arith
call-Balances (refund (pos amount)) l b = ground arith
call-Balances (refund (negsuc n)) l b = ground arith

-- Over any sequence of calls from a meter that balances, refused ones and negative amounts included, the gas that is left and
-- the gas that was consumed add up to the start gas and the gas that was returned; the refund
-- counter is the sum of the refunds.
pub calls-Balances : (cs : List Call) (l : Ledger) → Balances l → Balances (calls cs l)
calls-Balances [] l b = b
calls-Balances (c ∷ cs) l b = calls-Balances cs (call c l) (call-Balances c l b)
