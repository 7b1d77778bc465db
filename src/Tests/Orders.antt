-- ===== src/Tests/Orders.antt =====
-- The order of iteration on concrete inputs.
use proxykit_go.Base.{ℕ, ◌+◌, ◌*◌, ◌%◌, ◌<◌, ◌≡◌, refl, arith}
use proxykit_go.Pool.Modular.{add_modulo, multiply_modulo}
use proxykit_go.Pool.Modular.Laws.{add_modulo_lem, multiply_modulo_lem}
use proxykit_go.Pool.Permutation.{mix64, permutation_params, visit}
use proxykit_go.Pool.Permutation.Visits.{visit-permutation_params}

add_modulo_lem_example :
    add_modulo 18446744073709551556 18446744073709551550 18446744073709551557
    ≡ (18446744073709551556 + 18446744073709551550) % 18446744073709551557
add_modulo_lem_example =
    add_modulo_lem 18446744073709551556 18446744073709551550 18446744073709551557 (omega arith)
      (omega arith) (omega arith)

multiply_modulo_lem_example :
    multiply_modulo 1000000007 998244353 4294967296 ≡ 1000000007 * 998244353 % 4294967296
multiply_modulo_lem_example =
    multiply_modulo_lem 1000000007 998244353 4294967296 (omega arith) (omega arith) (omega arith)

mix64_one : mix64 1 ≡ 0x5692161d100b05e5
unfolding mix64
mix64_one = refl

visit-permutation_params_example :
    (k : ℕ) × (k < 10)
    × (visit 10 (permutation_params 10 42) k ≡ 7)
    × ((j : ℕ) → j < 10 → visit 10 (permutation_params 10 42) j ≡ 7 → j ≡ k)
visit-permutation_params_example = visit-permutation_params 10 42 7 (omega arith)
