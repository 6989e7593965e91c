-- ===== src/Prelude/Powers.antt =====
-- Powers of two, and how `/` and `%` by them undo a sum of shifted fields.
use Prim.Native.Nat.{ℕ, zero, suc, ◌+◌, ◌*◌, ◌/◌, ◌%◌, ◌^◌, ◌<◌}
use mathlib.Core.Path.{◌≡◌, refl}
use native.Mathlib.Nat.{pow-suc, one-le-pow, mul-add-div, add-mul-mod_self_left, add_comm}
use native.Mathlib.Omega.{arith}

pub pow_add : (a b : ℕ) → 2 ^ (a + b) ≡ 2 ^ a * 2 ^ b
pow_add zero b = let e : 0 + b ≡ b = omega arith in rw e (omega arith)
pow_add (suc a) b =
    let e : suc a + b ≡ suc (a + b) = omega arith in
    rw (e, pow-suc 2 (a + b), pow-suc 2 a, pow_add a b) (omega arith)

pub pow_bytes : (n : ℕ) → 256 ^ n ≡ 2 ^ (n * 8)
pow_bytes zero = refl
pow_bytes (suc n) =
    let e : suc n * 8 ≡ 8 + n * 8 = omega arith in
    rw (pow-suc 256 n, e, pow_add 8 (n * 8), pow_bytes n) (omega arith)

pub pow_pos : (k : ℕ) → 0 < 2 ^ k
pow_pos k = omega (arith, one-le-pow k 2)

-- `(low + 2 ^ k * high) >> k` and its low bits.
pub div-pow : (k low high : ℕ) → low < 2 ^ k → (low + 2 ^ k * high) / 2 ^ k ≡ high
div-pow k low high h = grind arith

pub mod-pow : (k low high : ℕ) → (low + 2 ^ k * high) % 2 ^ k ≡ low % 2 ^ k
mod-pow k low high = add-mul-mod_self_left low (2 ^ k) high

pub add-div_pow : (k low high : ℕ) → (low + 2 ^ k * high) / 2 ^ k ≡ low / 2 ^ k + high
add-div_pow k low high =
    rw (add_comm low (2 ^ k * high), mul-add-div (pow_pos k) high low) (add_comm high (low / 2 ^ k))
