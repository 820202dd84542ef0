-- ===== src/Vm/CodeStream.antt =====
-- evm/vm/code_stream.py: `class CodeStream`, with the opcodes that it tests for.
pub mod Walk
pub mod Jumps
pub mod Peek
use py_evm.Prelude.{
  ℕ, zero, suc, ◌+◌, ◌-◌, List, [], ◌∷◌, ◌++◌, Bool, true, false, ◌&&◌, not, length, take, drop,
  get_or, contains, leb, if◌then◌else◌, min,
}
use py_evm.Numeric.{Bytes}

-- `stream` is the code and the position in it. The set of invalid positions is a list.
pub record CodeStream : Type 0 where
  pub code : Bytes
  pub position : ℕ
  pub invalid_positions : List ℕ
  pub depth_processed : ℕ

-- `CodeStream.__init__`
abbrev pub start : Bytes → CodeStream
start code_bytes = record {
  code = code_bytes;
  position = 0;
  invalid_positions = [];
  depth_processed = 0;
}

-- `self.__getitem__(i)`, which is called below the length only.
abbrev pub byte_at : Bytes → ℕ → ℕ
byte_at code i = get_or code i 0

-- `CodeStream.read`: at most `size` bytes, and the position moves behind them.
unfoldable pub read : ℕ → CodeStream → Bytes × CodeStream
read size c =
    let found = take size (drop c.position c.code) in
    (found, record c { position = c.position + length found })

-- evm/vm/opcode_values.py
abbrev pub stop : ℕ
stop = 0x00

abbrev pub jumpdest : ℕ
jumpdest = 0x5b

abbrev pub push1 : ℕ
push1 = 0x60

abbrev pub push32 : ℕ
push32 = 0x7f

first_or_stop : Bytes → ℕ
first_or_stop [] = stop
first_or_stop (b ∷ _) = b

-- `CodeStream.next`
unfoldable pub next : CodeStream → ℕ × CodeStream
unfolding read first_or_stop
next c = let (found, c') = read 1 c in (first_or_stop found, c')

-- The setter of `pc`.
unfoldable pub seek : ℕ → CodeStream → CodeStream
seek value c = record c { position = min value (length c.code) }

-- `CodeStream.peek`
unfoldable pub peek : CodeStream → ℕ × CodeStream
unfolding next seek
peek c = let (opcode, c') = next c in (opcode, seek c.position c')

-- `range(start, start + count)`
abbrev pub range : ℕ → ℕ → List ℕ
range start zero = []
range start (suc count) = start ∷ range (start + 1) count

-- The number of bytes behind an opcode that belong to it.
abbrev pub push_size : ℕ → ℕ
push_size opcode = if leb push1 opcode && leb opcode push32 then opcode - 95 else 0

-- The loop of `is_valid_opcode`. Every round moves `i` up, so `position + 1` rounds are enough.
unfoldable pub scan : ℕ → ℕ → ℕ → CodeStream → CodeStream
scan zero i position c = c
scan (suc fuel) i position c =
    let opcode = byte_at c.code i in
    let right_bound = i + 1 + (opcode - 95) in
    let after_push =
      scan fuel right_bound position
        (record c { invalid_positions = range (i + 1) (opcode - 95) ++ c.invalid_positions }) in
    let after_other = scan fuel (i + 1) position (record c { depth_processed = i }) in
    if leb i position
    then (if leb push1 opcode && leb opcode push32 then after_push else after_other)
    else c

-- `CodeStream.is_valid_opcode`
unfoldable pub is_valid_opcode : ℕ → CodeStream → Bool × CodeStream
unfolding scan
is_valid_opcode position c =
    if leb (length c.code) position
    then (false, c)
    else if contains c.invalid_positions position
    then (false, c)
    else if leb position c.depth_processed
    then (true, c)
    else (let c' = scan (position + 1) c.depth_processed position c in
        (not (contains c'.invalid_positions position), c'))
