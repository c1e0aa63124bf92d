-- ===== src/Wire/Layout.antt =====
-- How `repr(C)` builds a structure from its fields: words, arrays of bytes, one field behind the
-- other, and the padding behind the last field.
use vhost_gpu_backend.Prelude.{
  ℕ, zero, suc, ◌+◌, ◌^◌, ◌≤◌, ◌<◌, ◌≡◌, ap, List, ◌++◌, append_assoc, Option, none, some, inl, inr,
  Option-cases, arith, All, All-append, length, length-append,
}
use mathlib.Core.Path.{subst}
use mathlib.Core.Option.{some-injective}
use native.Mathlib.Nat.{pow-suc}
use vhost_gpu_backend.Wire.Bytes.{
  IsByte, to_le_bytes, from_le_bytes, length-to_le_bytes, to_le_bytes-IsByte,
  from_le_bytes-to_le_bytes, from_le_bytes_bounds, from_le_bytes_total,
}
use vhost_gpu_backend.Wire.ByteValued.{ByteValued}

pub le_bounds :
    (n : ℕ) (bs rest : List ℕ) (v : ℕ)
    → All IsByte bs
    → from_le_bytes n bs ≡ some (v, rest)
    → (v < 256 ^ n) × All IsByte rest × (length bs ≡ n + length rest)
le_bounds n bs rest v h e =
    let (fits, bytes, same) = from_le_bytes_bounds n v bs rest h e in
    (
      fits,
      bytes,
      omega (
        arith,
        ap (λ l. length l) same,
        length-append (to_le_bytes n v) rest,
        length-to_le_bytes n v,
      ),
    )

pub zero-lt-pow : (n : ℕ) → 0 < 256 ^ n
zero-lt-pow zero = omega arith
zero-lt-pow (suc n) = omega (arith, pow-suc 256 n, zero-lt-pow n)

-- An unsigned word of `n` bytes, lowest first.
abbrev pub le : ℕ → ByteValued ℕ
le n = record {
  InRange = λ v. v < 256 ^ n;
  size_of = n;
  default = 0;
  default-InRange = zero-lt-pow n;
  as_slice = to_le_bytes n;
  read = from_le_bytes n;
  length-as_slice = λ v _. length-to_le_bytes n v;
  as_slice-IsByte = λ v _. to_le_bytes-IsByte n v;
  read-as_slice = from_le_bytes-to_le_bytes n;
  read_bounds = le_bounds n;
  read_total = λ bs _. from_le_bytes_total n bs;
}

abbrev pub le32 : ByteValued ℕ
le32 = le 4

abbrev pub le64 : ByteValued ℕ
le64 = le 8

module _ {A B : Type 0} (a : ByteValued A) (b : ByteValued B) where
  pub read_pair : List ℕ → Option ((A × B) × List ℕ)
  read_pair bs = elim (a.read bs) [
    | none ↦ none
    | some (x, behind) ↦ elim (b.read behind) [ none ↦ none | some (y, rest) ↦ some ((x, y), rest) ]
  ]

  pub read_pair-as_slice :
      (p : A × B) (rest : List ℕ)
      → a.InRange p.0 × b.InRange p.1
      → read_pair ((a.as_slice p.0 ++ b.as_slice p.1) ++ rest) ≡ some (p, rest)
  unfolding read_pair
  read_pair-as_slice p rest (h, k) = rw (
    append_assoc (a.as_slice p.0) (b.as_slice p.1) rest,
    read_pair,
    a.read-as_slice p.0 (b.as_slice p.1 ++ rest) h,
    b.read-as_slice p.1 rest k,
  )

  pub read_pair_bounds :
      (bs rest : List ℕ) (p : A × B)
      → All IsByte bs
      → read_pair bs ≡ some (p, rest)
      → (a.InRange p.0 × b.InRange p.1)
        × All IsByte rest
        × (length bs ≡ a.size_of + b.size_of + length rest)
  unfolding read_pair
  read_pair_bounds bs rest p h e = elim (Option-cases (a.read bs)) [
    | inl short ↦ ground arith
    | inr ((x, behind), first) ↦ elim (Option-cases (b.read behind)) [
      | inl short ↦ ground arith
      | inr ((y, tail), second) ↦
          let (xr, byte, took) = a.read_bounds bs behind x h first in
          let (yr, bytes, took') = b.read_bounds behind tail y byte second in
          let same : ◌≡◌ {A = Option ((A × B) × List ℕ)} (some ((x, y), tail)) (some (p, rest)) =
            rw (read_pair, first, second) at e in
          let value : ◌≡◌ {A = A × B} (x, y) p =
            ap (λ (q : (A × B) × List ℕ). q.0) (some-injective _ _ same) in
          let behind' : tail ≡ rest =
            ap (λ (q : (A × B) × List ℕ). q.1) (some-injective _ _ same) in
          (
            subst (λ q. a.InRange q.0 × b.InRange q.1) value (xr, yr),
            rw behind' at bytes,
            omega (arith, ap (λ l. length l) behind'),
          )
    ]
  ]

  pub read_pair_total :
      (bs : List ℕ)
      → All IsByte bs
      → a.size_of + b.size_of ≤ length bs
      → (p : A × B) × (rest : List ℕ) × (read_pair bs ≡ some (p, rest))
  unfolding read_pair
  read_pair_total bs w h =
      let (x, behind, first) = a.read_total bs w (omega arith) in
      let (xr, byte, took) = a.read_bounds bs behind x w first in
      let (y, rest, second) = b.read_total behind byte (omega arith) in
      ((x, y), rest, rw (read_pair, first, second))

infixr 60 ◌⊗◌
-- A field and the fields behind it.
abbrev pub ◌⊗◌ : {A B : Type 0} → ByteValued A → ByteValued B → ByteValued (A × B)
a ⊗ b = record {
  InRange = λ p. a.InRange p.0 × b.InRange p.1;
  size_of = a.size_of + b.size_of;
  default = (a.default, b.default);
  default-InRange = (a.default-InRange, b.default-InRange);
  as_slice = λ p. a.as_slice p.0 ++ b.as_slice p.1;
  read = read_pair a b;
  length-as_slice = λ p h. omega (
    arith,
    length-append (a.as_slice p.0) (b.as_slice p.1),
    a.length-as_slice p.0 h.0,
    b.length-as_slice p.1 h.1,
  );
  as_slice-IsByte = λ p h.
      All-append IsByte (a.as_slice p.0) (b.as_slice p.1) (a.as_slice-IsByte p.0 h.0)
        (b.as_slice-IsByte p.1 h.1);
  read-as_slice = read_pair-as_slice a b;
  read_bounds = read_pair_bounds a b;
  read_total = read_pair_total a b;
}

module _ {S T : Type 0} (to : S → T) (of : T → S) (c : ByteValued T) where
  pub read_struct : List ℕ → Option (S × List ℕ)
  read_struct bs = elim (c.read bs) [ none ↦ none | some (t, rest) ↦ some (of t, rest) ]

  pub read_struct-as_slice :
      ((s : S) → of (to s) ≡ s)
      → (s : S) (rest : List ℕ) → c.InRange (to s)
      → read_struct (c.as_slice (to s) ++ rest) ≡ some (s, rest)
  unfolding read_struct
  read_struct-as_slice forth s rest h = rw (read_struct, c.read-as_slice (to s) rest h, forth s)

  pub read_struct_bounds :
      ((t : T) → c.InRange t → c.InRange (to (of t)))
      → (bs rest : List ℕ) (s : S) → All IsByte bs
      → read_struct bs ≡ some (s, rest)
      → c.InRange (to s) × All IsByte rest × (length bs ≡ c.size_of + length rest)
  unfolding read_struct
  read_struct_bounds keeps bs rest s h e = elim (Option-cases (c.read bs)) [
    | inl short ↦ ground arith
    | inr ((t, tail), found) ↦
        let (inside, bytes, took) = c.read_bounds bs tail t h found in
        let same : ◌≡◌ {A = Option (S × List ℕ)} (some (of t, tail)) (some (s, rest)) =
          rw (read_struct, found) at e in
        let value : of t ≡ s = ap (λ (q : S × List ℕ). q.0) (some-injective _ _ same) in
        let behind : tail ≡ rest = ap (λ (q : S × List ℕ). q.1) (some-injective _ _ same) in
        (
          subst (λ q. c.InRange (to q)) value (keeps t inside),
          rw behind at bytes,
          omega (arith, ap (λ l. length l) behind),
        )
  ]

  pub read_struct_total :
      (bs : List ℕ)
      → All IsByte bs
      → c.size_of ≤ length bs
      → (s : S) × (rest : List ℕ) × (read_struct bs ≡ some (s, rest))
  unfolding read_struct
  read_struct_total bs w h =
      let (t, rest, found) = c.read_total bs w h in (of t, rest, rw (read_struct, found))

-- A structure with the fields that `to` lists and `of` puts together.
abbrev pub struct :
    {S T : Type 0} (to : S → T) (of : T → S)
    → ((s : S) → of (to s) ≡ s)
    → (c : ByteValued T) → ((t : T) → c.InRange t → c.InRange (to (of t)))
    → ByteValued S
struct to of forth c keeps = record {
  InRange = λ s. c.InRange (to s);
  size_of = c.size_of;
  default = of c.default;
  default-InRange = keeps c.default c.default-InRange;
  as_slice = λ s. c.as_slice (to s);
  read = read_struct to of c;
  length-as_slice = λ s. c.length-as_slice (to s);
  as_slice-IsByte = λ s. c.as_slice-IsByte (to s);
  read-as_slice = read_struct-as_slice to of c forth;
  read_bounds = read_struct_bounds to of c keeps;
  read_total = read_struct_total to of c;
}
