-- ===== src/Connection/Relative.antt =====
-- `NetConnectionHelper` of Project/Network/src/connection/NetConnection.cpp. An `int32_t` is its bit
-- pattern, a number below 2 ^ 32, so that the sums wrap.
use rudp_network_engine.Prelude.{ℕ, ◌+◌, ◌-◌, ◌/◌, ◌%◌, ◌^◌, ◌≤◌, ◌<◌, ◌≡◌, ◌↔◌, bit_and, arith}
use rudp_network_engine.Prelude.Bits.{bit_and-mask}

-- `BestSignedDifference`
unfoldable pub best_signed_difference : ℕ → ℕ → ℕ → ℕ
best_signed_difference value reference max =
    (bit_and ((value + 2 ^ 32 - reference + max / 2) % 2 ^ 32) (max - 1) + 2 ^ 32 - max / 2)
    % 2 ^ 32

-- `MakeRelative`
unfoldable pub make_relative : ℕ → ℕ → ℕ → ℕ
make_relative value reference max =
    (reference + best_signed_difference value reference max) % 2 ^ 32

make_relative-mod :
    (value reference : ℕ)
    → make_relative value reference 1024
      ≡ (reference + ((value + 2 ^ 32 - reference + 512) % 2 ^ 32 % 2 ^ 10 + 2 ^ 32 - 512) % 2 ^ 32)
        % 2 ^ 32
unfolding make_relative best_signed_difference
make_relative-mod value reference =
    omega (arith, bit_and-mask 10 ((value + 2 ^ 32 - reference + 512) % 2 ^ 32))

-- Around a number from 512 to 2 ^ 31 - 1, `MakeRelative` at 1024 gives the number in the window from
-- 512 before it to 511 after it that agrees with the value in its ten low bits.
pub make_relative-window :
    (value reference : ℕ)
    → value < 2 ^ 32
    → 512 ≤ reference
    → reference < 2 ^ 31
    → (reference ≤ make_relative value reference 1024 + 512)
      × (make_relative value reference 1024 < reference + 512)
      × (make_relative value reference 1024 % 1024 ≡ value % 1024)
make_relative-window value reference h k l = omega (arith, make_relative-mod value reference)

-- So a number is read as itself exactly if it lies in that window.
pub make_relative_iff :
    (value reference : ℕ)
    → value < 2 ^ 32
    → 512 ≤ reference
    → reference < 2 ^ 31
    → (make_relative value reference 1024 ≡ value)
      ↔ ((reference ≤ value + 512) × (value < reference + 512))
make_relative_iff value reference h k l =
    let w = make_relative-window value reference h k l in
    (λ e. omega (arith, w, e), λ p. omega (arith, w, p))
