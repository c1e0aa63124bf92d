-- ===== src/Wire/Array.antt =====
-- Arrays of a fixed length in a structure, and the padding that `repr(C)` puts behind the last field.
use mathlib.Core.Path.{subst}
use mathlib.Core.Option.{some-injective}
use vhost_gpu_backend.Prelude.{
  ℕ, zero, suc, ◌+◌, ◌*◌, ◌≤◌, ◌≡◌, refl, ap, List, [], ◌∷◌, ◌++◌, append_assoc, Option, none, some,
  inl, inr, Option-cases, arith, All, All-append, All-replicate, length, length-append,
  length-replicate, replicate,
}
use vhost_gpu_backend.Wire.Bytes.{IsByte}
use vhost_gpu_backend.Wire.ByteValued.{ByteValued}
use vhost_gpu_backend.Wire.Layout.{le, ◌⊗◌, struct}

module _ {A : Type 0} (c : ByteValued A) where
  -- `n` values that are in range.
  abbrev pub Elements : ℕ → List A → Type 0
  Elements n xs = (length xs ≡ n) × All c.InRange xs

  unfoldable pub array_as_slice : List A → List ℕ
  array_as_slice [] = []
  array_as_slice (x ∷ xs) = c.as_slice x ++ array_as_slice xs

  unfoldable pub read_array : ℕ → List ℕ → Option (List A × List ℕ)
  read_array zero bs = some ([], bs)
  read_array (suc n) bs = elim (c.read bs) [
    | none ↦ none
    | some (x, behind) ↦ elim (read_array n behind) [
      | none ↦ none
      | some (xs, rest) ↦ some (x ∷ xs, rest)
    ]
  ]

  pub length-array_as_slice :
      (n : ℕ) (xs : List A) → Elements n xs → length (array_as_slice xs) ≡ n * c.size_of
  unfolding array_as_slice
  length-array_as_slice zero [] h = omega arith
  length-array_as_slice zero (x ∷ xs) h = absurd (omega arith)
  length-array_as_slice (suc n) [] h = absurd (omega arith)
  length-array_as_slice (suc n) (x ∷ xs) (e, (h, k)) = omega (
    arith,
    length-append (c.as_slice x) (array_as_slice xs),
    c.length-as_slice x h,
    length-array_as_slice n xs (omega arith, k),
  )

  pub array_as_slice-IsByte : (xs : List A) → All c.InRange xs → All IsByte (array_as_slice xs)
  unfolding array_as_slice
  array_as_slice-IsByte [] h = tt
  array_as_slice-IsByte (x ∷ xs) (h, k) =
      All-append IsByte (c.as_slice x) (array_as_slice xs) (c.as_slice-IsByte x h)
        (array_as_slice-IsByte xs k)

  pub read_array-array_as_slice :
      (n : ℕ) (xs : List A) (rest : List ℕ)
      → Elements n xs
      → read_array n (array_as_slice xs ++ rest) ≡ some (xs, rest)
  unfolding array_as_slice read_array
  read_array-array_as_slice zero [] rest h = refl
  read_array-array_as_slice zero (x ∷ xs) rest h = absurd (omega arith)
  read_array-array_as_slice (suc n) [] rest h = absurd (omega arith)
  read_array-array_as_slice (suc n) (x ∷ xs) rest (e, (h, k)) = rw (
    append_assoc (c.as_slice x) (array_as_slice xs) rest,
    read_array,
    c.read-as_slice x (array_as_slice xs ++ rest) h,
    read_array-array_as_slice n xs rest (omega arith, k),
  )

  pub read_array_bounds :
      (n : ℕ) (bs rest : List ℕ) (xs : List A)
      → All IsByte bs
      → read_array n bs ≡ some (xs, rest)
      → Elements n xs × All IsByte rest × (length bs ≡ n * c.size_of + length rest)
  unfolding read_array
  read_array_bounds zero bs rest xs h e =
      let value : ◌≡◌ {A = List A} [] xs =
        ap (λ (q : List A × List ℕ). q.0) (some-injective _ _ e) in
      let behind : bs ≡ rest = ap (λ (q : List A × List ℕ). q.1) (some-injective _ _ e) in
      (
        subst (Elements 0) value (refl, tt),
        rw behind at h,
        omega (arith, ap (λ l. length l) behind),
      )
  read_array_bounds (suc n) bs rest xs h e = elim (Option-cases (c.read bs)) [
    | inl short ↦ ground arith
    | inr ((x, behind), first) ↦ elim (Option-cases (read_array n behind)) [
      | inl short ↦ ground arith
      | inr ((ys, tail), second) ↦
          let (xr, byte, took) = c.read_bounds bs behind x h first in
          let (yr, bytes, took') = read_array_bounds n behind tail ys byte second in
          let same : ◌≡◌ {A = Option (List A × List ℕ)} (some (x ∷ ys, tail)) (some (xs, rest)) =
            rw (read_array, first, second) at e in
          let value : x ∷ ys ≡ xs = ap (λ (q : List A × List ℕ). q.0) (some-injective _ _ same) in
          let end : tail ≡ rest = ap (λ (q : List A × List ℕ). q.1) (some-injective _ _ same) in
          (
            subst (Elements (suc n)) value (ap suc yr.0, (xr, yr.1)),
            rw end at bytes,
            omega (arith, ap (λ l. length l) end),
          )
    ]
  ]

  pub read_array_total :
      (n : ℕ) (bs : List ℕ)
      → All IsByte bs
      → n * c.size_of ≤ length bs
      → (xs : List A) × (rest : List ℕ) × (read_array n bs ≡ some (xs, rest))
  unfolding read_array
  read_array_total zero bs w h = ([], bs, refl)
  read_array_total (suc n) bs w h =
      let (x, behind, first) = c.read_total bs w (omega arith) in
      let (xr, byte, took) = c.read_bounds bs behind x w first in
      let (xs, rest, second) = read_array_total n behind byte (omega arith) in
      (x ∷ xs, rest, rw (read_array, first, second))

-- `[A; n]`
abbrev pub array : {A : Type 0} → ℕ → ByteValued A → ByteValued (List A)
array n c = record {
  InRange = Elements c n;
  size_of = n * c.size_of;
  default = replicate n c.default;
  default-InRange =
      (length-replicate n c.default, All-replicate c.InRange n c.default c.default-InRange);
  as_slice = array_as_slice c;
  read = read_array c n;
  length-as_slice = length-array_as_slice c n;
  as_slice-IsByte = λ xs h. array_as_slice-IsByte c xs h.1;
  read-as_slice = read_array-array_as_slice c n;
  read_bounds = read_array_bounds c n;
  read_total = read_array_total c n;
}

-- `[u8; n]`
abbrev pub bytes : ℕ → ByteValued (List ℕ)
bytes n = array n (le 1)

pub zero_bytes : (k : ℕ) → Elements (le 1) k (replicate k 0)
zero_bytes k = (length-replicate k 0, All-replicate (λ v. suc v ≤ 256) k 0 (omega arith))

-- A structure with `k` bytes of padding behind its last field. The padding belongs to no field, so
-- reading passes over it; written as zeros here.
abbrev pub padded : {A : Type 0} → ℕ → ByteValued A → ByteValued A
padded {A} k c =
    struct {T = A × List ℕ} (λ a. (a, replicate k 0)) (λ t. t.0) (λ a. refl) (c ⊗ bytes k)
      (λ t h. (h.0, zero_bytes k))
