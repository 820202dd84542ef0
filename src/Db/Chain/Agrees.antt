-- ===== src/Db/Chain/Agrees.antt =====
-- The two databases agree on the headers.
use py_evm.Prelude.{◌≡◌}
use py_evm.Prelude.Exec.{Result}
use py_evm.Exceptions.{Exception}
use py_evm.Db.Header
use py_evm.Db.Header.{HeaderDb, score_of}
use py_evm.Db.Chain.{ChainDb}

-- The same result, and the same headers.
pub record Agree {A : Type 0} (x : Result Exception A × ChainDb) (y : Result Exception A × HeaderDb)
    : Type 0 where
  pub result : x.0 ≡ y.0
  pub headers : x.1.chain ≡ y.1
