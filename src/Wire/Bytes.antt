-- ===== src/Wire/Bytes.antt =====
-- Little-endian words (`Le32`, `Le64`) and big-endian words (`u32::to_be_bytes`) as bytes.
use vhost_gpu_backend.Prelude.{
  ℕ, zero, suc, ◌+◌, ◌*◌, ◌/◌, ◌%◌, ◌^◌, ◌≤◌, ◌<◌, ◌≡◌, refl, ap, List, [], ◌∷◌, ◌++◌, Option, none,
  some, arith, All, length, Option-cases, inl, inr,
}
use native.Mathlib.Nat.{pow-suc}

abbrev pub IsByte : ℕ → Type 0
IsByte b = b < 256

-- The `n` lowest bytes of a number, lowest first.
unfoldable pub to_le_bytes : ℕ → ℕ → List ℕ
to_le_bytes zero v = []
to_le_bytes (suc n) v = v % 256 ∷ to_le_bytes n (v / 256)

-- The number in the first `n` bytes, lowest first, and the bytes behind them.
unfoldable pub from_le_bytes : ℕ → List ℕ → Option (ℕ × List ℕ)
from_le_bytes zero bs = some (0, bs)
from_le_bytes (suc n) [] = none
from_le_bytes (suc n) (b ∷ bs) = elim (from_le_bytes n bs) [
  | none ↦ none
  | some (v, rest) ↦ some (b + 256 * v, rest)
]

pub length-to_le_bytes : (n v : ℕ) → length (to_le_bytes n v) ≡ n
unfolding to_le_bytes
length-to_le_bytes zero v = refl
length-to_le_bytes (suc n) v = ap suc (length-to_le_bytes n (v / 256))

pub to_le_bytes-IsByte : (n v : ℕ) → All IsByte (to_le_bytes n v)
unfolding to_le_bytes
to_le_bytes-IsByte zero v = tt
to_le_bytes-IsByte (suc n) v = (omega arith, to_le_bytes-IsByte n (v / 256))

pub from_le_bytes-to_le_bytes :
    (n v : ℕ) (rest : List ℕ)
    → v < 256 ^ n
    → from_le_bytes n (to_le_bytes n v ++ rest) ≡ some (v, rest)
unfolding from_le_bytes to_le_bytes
from_le_bytes-to_le_bytes zero v rest h = ground arith
from_le_bytes-to_le_bytes (suc n) v rest h =
    ground (arith, from_le_bytes-to_le_bytes n (v / 256) rest (omega (arith, pow-suc 256 n)))

pub from_le_bytes_bounds :
    (n v : ℕ) (bs rest : List ℕ)
    → All IsByte bs
    → from_le_bytes n bs ≡ some (v, rest)
    → (v < 256 ^ n) × All IsByte rest × (to_le_bytes n v ++ rest ≡ bs)
unfolding from_le_bytes to_le_bytes
from_le_bytes_bounds zero v bs rest h e = grind arith
from_le_bytes_bounds (suc n) v [] rest h e = cc
from_le_bytes_bounds (suc n) v (b ∷ bs) rest h e = elim (Option-cases (from_le_bytes n bs)) [
  | inl short ↦ ground arith
  | inr ((u, tail), more) ↦
      let (fits, bytes, same) = from_le_bytes_bounds n u bs tail h.1 more in
      let value : v ≡ b + 256 * u = ground arith in
      let behind : rest ≡ tail = ground arith in
      let high : (b + 256 * u) / 256 ≡ u = omega arith in
      let low : (b + 256 * u) % 256 ≡ b = omega arith in
      (
        omega (arith, pow-suc 256 n),
        rw behind bytes,
        rw (value, behind, high, low) (ap (λ l. b ∷ l) same),
      )
]

pub from_le_bytes_total :
    (n : ℕ) (bs : List ℕ)
    → n ≤ length bs
    → (v : ℕ) × (rest : List ℕ) × (from_le_bytes n bs ≡ some (v, rest))
unfolding from_le_bytes
from_le_bytes_total zero bs h = (0, bs, refl)
from_le_bytes_total (suc n) [] h = absurd (omega arith)
from_le_bytes_total (suc n) (b ∷ bs) h =
    let (v, rest, e) = from_le_bytes_total n bs (omega arith) in (b + 256 * v, rest, rw e)
