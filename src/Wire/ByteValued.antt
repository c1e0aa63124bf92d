-- ===== src/Wire/ByteValued.antt =====
-- The trait `ByteValued` of vm-memory, which src/protocol.rs implements for each structure: a type
-- whose values are read from, and viewed as, exactly `size_of` bytes.
use mathlib.Core.Path.{subst}
use vhost_gpu_backend.Prelude.{
  ℕ, ◌+◌, ◌≤◌, ◌≡◌, ◌∙◌, List, [], ◌++◌, Option, some, All, length, append-nil,
}
use vhost_gpu_backend.Prelude.Result.{Result, ok, ok-injective}
use vhost_gpu_backend.Wire.Bytes.{IsByte}

pub record ByteValued (A : Type 0) : Type 1 where
  -- The fields hold values of their widths.
  pub InRange : A → Type 0
  pub size_of : ℕ
  -- `Default`, which the trait requires: all zeros.
  pub default : A
  pub as_slice : A → List ℕ
  -- A value from the first `size_of` bytes, and the bytes behind it.
  pub read : List ℕ → Option (A × List ℕ)
  pub default-InRange : InRange default
  pub length-as_slice : (a : A) → InRange a → length (as_slice a) ≡ size_of
  pub as_slice-IsByte : (a : A) → InRange a → All IsByte (as_slice a)
  pub read-as_slice :
      (a : A) (rest : List ℕ) → InRange a → read (as_slice a ++ rest) ≡ some (a, rest)
  -- Whatever the bytes are, the value is in range and takes exactly `size_of` of them.
  pub read_bounds :
      (bs rest : List ℕ) (a : A)
      → All IsByte bs
      → read bs ≡ some (a, rest)
      → InRange a × All IsByte rest × (length bs ≡ size_of + length rest)
  pub read_total :
      (bs : List ℕ)
      → All IsByte bs
      → size_of ≤ length bs
      → (a : A) × (rest : List ℕ) × (read bs ≡ some (a, rest))

-- Bytes that are exactly those of one value.
abbrev pub IsBytesOf : {A : Type 0} → ByteValued A → A → ℕ → List ℕ → Type 0
IsBytesOf c a n bs = (c.read bs ≡ some (a, [])) × (length bs ≡ n) × All IsByte bs

pub as_slice-IsBytesOf :
    {A E : Type 0} (c : ByteValued A) (a : A) (n : ℕ) (bs : List ℕ)
    → c.InRange a
    → c.size_of ≡ n
    → ◌≡◌ {A = Result E (List ℕ)} (ok (c.as_slice a)) (ok bs)
    → IsBytesOf c a n bs
as_slice-IsBytesOf c a n bs h size e = subst (IsBytesOf c a n) (ok-injective e) (
  rw (append-nil (c.as_slice a)) at (c.read-as_slice a [] h),
  c.length-as_slice a h ∙ size,
  c.as_slice-IsByte a h,
)
