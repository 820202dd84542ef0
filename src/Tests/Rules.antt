-- ===== src/Tests/Rules.antt =====
-- The rules of headers, transactions and numbers at concrete inputs.
use py_evm.Prelude.{
  ℕ, ◌+◌, ◌-◌, ◌*◌, ◌/◌, ◌^◌, ◌≤◌, ◌<◌, ◌≡◌, refl, ◌↔◌, ◌⊎◌, true, some, [], ◌∷◌, arith,
}
use py_evm.Prelude.Int.{pos}
use py_evm.Prelude.Exec.{ok, err}
use py_evm.Exceptions.{validation_error}
use py_evm.Constants.{empty_uncle_hash}
use py_evm.Numeric.{int_to_big_endian}
use py_evm.Headers.{
  BlockHeader, add_bomb, compute_gas_limit, validate_gas_limit, compute_homestead_difficulty,
}
use py_evm.Headers.GasLimit.{compute_gas_limit_valid, validate_gas_limit_iff}
use py_evm.Headers.Difficulty.{compute_homestead_difficulty_bounds}
use py_evm.Transactions.{Crypto, UnsignedTransaction, given, as_signed_transaction}
use py_evm.Transactions.Signatures.{Signs, IsSigned, as_signed_transaction_lem}

abbrev parent : BlockHeader
parent = record {
  parent_hash = 7;
  transaction_root = 0;
  state_root = 0;
  coinbase = [];
  extra_data = [];
  difficulty = 200000;
  block_number = 400000;
  gas_limit = 4000000;
  gas_used = 3000000;
  timestamp = 1000;
  uncles_hash = empty_uncle_hash;
}

validate_gas_limit_iff_example :
    (validate_gas_limit 5000 4000000 ≡ ok tt)
    ↔ ((5000 ≤ 5000) × (5000 ≤ 2 ^ 63 - 1) × (5000 ≤ 4000000 + 4000000 / 1024))
validate_gas_limit_iff_example = validate_gas_limit_iff 5000 4000000

compute_gas_limit_valid_example :
    (limit : ℕ) × (compute_gas_limit parent 3141592 ≡ ok limit)
    × (validate_gas_limit limit 4000000 ≡ ok tt)
compute_gas_limit_valid_example =
    compute_gas_limit_valid parent 3141592 (omega arith) (omega arith) (omega arith) (omega arith)

-- A limit far below the parent's is accepted.
far_below : validate_gas_limit 5000 4000000 ≡ ok tt
unfolding validate_gas_limit
far_below = refl

compute_homestead_difficulty_bounds_example :
    ((1050 ≤ 1000) × (compute_homestead_difficulty parent 1050 ≡ err validation_error))
    ⊎ ((1000 < 1050)
        × (d : ℕ) × (compute_homestead_difficulty parent 1050 ≡ ok (add_bomb 4 d))
        × (131072 ≤ d)
        × (200000 ≤ d + 99 * 97)
        × (d ≤ 200000 + 97))
compute_homestead_difficulty_bounds_example = compute_homestead_difficulty_bounds parent 1050

-- A toy signature scheme with one key.
abbrev toy : Crypto Unit Unit
toy = record {
  encode = λ parts. [];
  encode_int = int_to_big_endian;
  sign_msg = λ key message. (1, 5, 6);
  recover_public_key_from_msg = λ vrs message. some tt;
  verify_msg = λ vrs message key. true;
  to_canonical_address = λ key. 9 ∷ [];
}

toy_Signs : Signs toy
toy_Signs = record {
  public_key = λ key. tt;
  canonical = λ key message. omega arith;
  recovers = λ key message. refl;
  verifies = λ key message. refl;
}

abbrev transfer : UnsignedTransaction
transfer = record { nonce = 0; gas_price = 1; gas = 21000; to = 3 ∷ []; value = 4; «data» = [] }

as_signed_transaction_lem_example :
    IsSigned toy toy_Signs tt (some (pos 3)) (as_signed_transaction toy transfer tt (some 3))
unfolding given
as_signed_transaction_lem_example = as_signed_transaction_lem toy toy_Signs transfer tt (some 3)
