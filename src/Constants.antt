-- ===== src/Constants.antt =====
-- The constants of evm/constants.py that the modelled code uses.
use py_evm.Prelude.{ℕ, ◌*◌, ◌^◌, ◌-◌}

abbrev pub uint_256_max : ℕ
uint_256_max = 2 ^ 256 - 1

abbrev pub uint_256_ceiling : ℕ
uint_256_ceiling = 2 ^ 256

abbrev pub uint_255_max : ℕ
uint_255_max = 2 ^ 255 - 1

abbrev pub stack_depth_limit : ℕ
stack_depth_limit = 1024

abbrev pub gas_sset : ℕ
gas_sset = 20000

abbrev pub gas_sreset : ℕ
gas_sreset = 5000

abbrev pub refund_sclear : ℕ
refund_sclear = 15000

abbrev pub gas_callvalue : ℕ
gas_callvalue = 9000

abbrev pub gas_callstipend : ℕ
gas_callstipend = 2300

abbrev pub gas_newaccount : ℕ
gas_newaccount = 25000

abbrev pub gas_memory : ℕ
gas_memory = 3

abbrev pub gas_txcreate : ℕ
gas_txcreate = 32000

abbrev pub gas_txdatazero : ℕ
gas_txdatazero = 4

abbrev pub gas_txdatanonzero : ℕ
gas_txdatanonzero = 68

abbrev pub gas_tx : ℕ
gas_tx = 21000

abbrev pub gas_logdata : ℕ
gas_logdata = 8

abbrev pub gas_logtopic : ℕ
gas_logtopic = 375

abbrev pub gas_sha3word : ℕ
gas_sha3word = 6

abbrev pub gas_copy : ℕ
gas_copy = 3

abbrev pub gas_codedeposit : ℕ
gas_codedeposit = 200

abbrev pub gas_memory_quadratic_denominator : ℕ
gas_memory_quadratic_denominator = 512

abbrev pub gas_limit_ema_denominator : ℕ
gas_limit_ema_denominator = 1024

abbrev pub gas_limit_adjustment_factor : ℕ
gas_limit_adjustment_factor = 1024

abbrev pub gas_limit_minimum : ℕ
gas_limit_minimum = 5000

abbrev pub gas_limit_usage_adjustment_numerator : ℕ
gas_limit_usage_adjustment_numerator = 3

abbrev pub gas_limit_usage_adjustment_denominator : ℕ
gas_limit_usage_adjustment_denominator = 2

abbrev pub difficulty_adjustment_denominator : ℕ
difficulty_adjustment_denominator = 2048

abbrev pub difficulty_minimum : ℕ
difficulty_minimum = 131072

abbrev pub bomb_exponential_period : ℕ
bomb_exponential_period = 100000

abbrev pub bomb_exponential_free_periods : ℕ
bomb_exponential_free_periods = 2

abbrev pub genesis_gas_limit : ℕ
genesis_gas_limit = 3141592

abbrev pub genesis_parent_hash : ℕ
genesis_parent_hash = 0

abbrev pub secpk1_n : ℕ
secpk1_n = 115792089237316195423570985008687907852837564279074904382605163141518161494337

abbrev pub max_uncles : ℕ
max_uncles = 2

abbrev pub max_uncle_depth : ℕ
max_uncle_depth = 6

abbrev pub block_reward : ℕ
block_reward = 5 * 10 ^ 18

abbrev pub uncle_depth_penalty_factor : ℕ
uncle_depth_penalty_factor = 8

-- evm/vm/forks/byzantium/constants.py
abbrev pub eip649_block_reward : ℕ
eip649_block_reward = 3 * 10 ^ 18

abbrev pub max_prev_header_depth : ℕ
max_prev_header_depth = 256

abbrev pub gas_limit_maximum : ℕ
gas_limit_maximum = 2 ^ 63 - 1

abbrev pub gas_selfdestruct_newaccount : ℕ
gas_selfdestruct_newaccount = 25000

abbrev pub gas_zero : ℕ
gas_zero = 0

abbrev pub gas_null : ℕ
gas_null = 0

abbrev pub gas_base : ℕ
gas_base = 2

abbrev pub gas_verylow : ℕ
gas_verylow = 3

abbrev pub gas_low : ℕ
gas_low = 5

abbrev pub gas_mid : ℕ
gas_mid = 8

abbrev pub gas_high : ℕ
gas_high = 10

abbrev pub gas_exp : ℕ
gas_exp = 10

abbrev pub gas_expbyte : ℕ
gas_expbyte = 10

abbrev pub gas_extcode : ℕ
gas_extcode = 20

abbrev pub gas_balance : ℕ
gas_balance = 20

abbrev pub gas_sload : ℕ
gas_sload = 50

abbrev pub gas_jumpdest : ℕ
gas_jumpdest = 1

abbrev pub gas_create : ℕ
gas_create = 32000

abbrev pub gas_call : ℕ
gas_call = 40

abbrev pub gas_log : ℕ
gas_log = 375

abbrev pub gas_sha3 : ℕ
gas_sha3 = 30

abbrev pub gas_blockhash : ℕ
gas_blockhash = 20

abbrev pub gas_selfdestruct : ℕ
gas_selfdestruct = 0

-- The 32 bytes as one number.
abbrev pub empty_uncle_hash : ℕ
empty_uncle_hash = 13478047122767188135818125966132228187941283477090363246179690878162135454535

abbrev pub gas_sha256 : ℕ
gas_sha256 = 60

abbrev pub gas_sha256word : ℕ
gas_sha256word = 12

abbrev pub gas_ripemd160 : ℕ
gas_ripemd160 = 600

abbrev pub gas_ripemd160word : ℕ
gas_ripemd160word = 120

abbrev pub gas_identity : ℕ
gas_identity = 15

abbrev pub gas_identityword : ℕ
gas_identityword = 3

abbrev pub gas_ecrecover : ℕ
gas_ecrecover = 3000

abbrev pub gas_mod_exp_quadratic_denominator : ℕ
gas_mod_exp_quadratic_denominator = 20

-- Of the Frontier fork.
abbrev pub refund_selfdestruct : ℕ
refund_selfdestruct = 24000

-- Of the Tangerine Whistle and Spurious Dragon forks.
abbrev pub gas_selfdestruct_eip150 : ℕ
gas_selfdestruct_eip150 = 5000

abbrev pub gas_call_eip150 : ℕ
gas_call_eip150 = 700

abbrev pub gas_extcode_eip150 : ℕ
gas_extcode_eip150 = 700

abbrev pub gas_balance_eip150 : ℕ
gas_balance_eip150 = 400

abbrev pub gas_sload_eip150 : ℕ
gas_sload_eip150 = 200

abbrev pub gas_exp_eip160 : ℕ
gas_exp_eip160 = 10

abbrev pub gas_expbyte_eip160 : ℕ
gas_expbyte_eip160 = 50

abbrev pub eip170_code_size_limit : ℕ
eip170_code_size_limit = 24577

-- Hashes are the numbers of their bytes.
abbrev pub empty_sha3 : ℕ
empty_sha3 = 0xc5d2460186f7233c927e7db2dcc703c0e500b653ca82273b7bfad8045d85a470

abbrev pub blank_root_hash : ℕ
blank_root_hash = 0x56e81f171bcc55a6ff8345e692c0f86e5b48e01b996cadc001622fb5e363b421
