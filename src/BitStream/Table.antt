-- ===== src/BitStream/Table.antt =====
-- The tables `GShift` and `GMask` of Project/Core/src/BitReader.cpp, and the bytes of an integer.
pub mod Bytes
use rudp_network_engine.Prelude.{ℕ, zero, suc, ◌+◌, ◌-◌, ◌*◌, ◌/◌, ◌%◌, ◌^◌, List, [], ◌∷◌, get_or}

abbrev pub g_shift : List ℕ
g_shift = 0x01 ∷ 0x02 ∷ 0x04 ∷ 0x08 ∷ 0x10 ∷ 0x20 ∷ 0x40 ∷ 0x80 ∷ []

abbrev pub g_mask : List ℕ
g_mask = 0x00 ∷ 0x01 ∷ 0x03 ∷ 0x07 ∷ 0x0f ∷ 0x1f ∷ 0x3f ∷ 0x7f ∷ []

-- The memory of an integer of `k` bytes, the lowest byte first, and the integer that it holds.
abbrev pub le_bytes : ℕ → ℕ → List ℕ
le_bytes zero v = []
le_bytes (suc k) v = v % 2 ^ 8 ∷ le_bytes k (v / 2 ^ 8)

abbrev pub le_value : List ℕ → ℕ
le_value [] = 0
le_value (b ∷ bs) = le_value bs * 2 ^ 8 + b % 2 ^ 8
