-- ===== src/GuestMemory.antt =====
-- The crate vm-memory, which is not part of the repository: guest memory as its users see it.
-- `Memory` is what the memory holds at one moment. The guest writes to it at any time, so each read
-- of the program is given the memory of its own moment.
use vhost_gpu_backend.Prelude.{
  ℕ, ◌≡◌, ap, ◌∙◌, List, [], Option, none, some, All, length, arith, append-nil, length-zero, inl,
  inr,
}
use vhost_gpu_backend.Prelude.Result.{
  Result, ok, err, map_ok, Result-cases, ok-injective, err-ne-ok, ok-ne-err, err-injective,
}
use vhost_gpu_backend.Wire.Bytes.{IsByte}
use vhost_gpu_backend.Wire.ByteValued.{ByteValued}

pub record GuestMemory : Type 1 where
  pub Memory : Type 0
  pub Error : Type 0
  -- `Bytes::read_slice`: `n` bytes at an address.
  pub read_slice : Memory → ℕ → ℕ → Result Error (List ℕ)
  -- A read that succeeds fills the whole slice.
  pub read_slice_full :
      (m : Memory) (addr n : ℕ) (bs : List ℕ)
      → read_slice m addr n ≡ ok bs
      → (length bs ≡ n) × All IsByte bs

abbrev value_or : {A : Type 0} → A → Option (A × List ℕ) → A
value_or d none = d
value_or d (some (a, _)) = a

module _ (g : GuestMemory) where
  -- `Bytes::read_obj`: it starts from the default value and fills its bytes.
  unfoldable pub read_obj : {A : Type 0} → ByteValued A → g.Memory → ℕ → Result g.Error A
  read_obj c m addr = map_ok (λ bs. value_or c.default (c.read bs)) (g.read_slice m addr c.size_of)

  -- The memory holds these bytes at this address.
  abbrev pub Holds : g.Memory → ℕ → List ℕ → Type 0
  Holds m addr bs = g.read_slice m addr (length bs) ≡ ok bs

  pub read_obj-as_slice :
      {A : Type 0} (c : ByteValued A) (m : g.Memory) (addr : ℕ) (a : A)
      → c.InRange a
      → Holds m addr (c.as_slice a)
      → read_obj c m addr ≡ ok a
  unfolding read_obj
  read_obj-as_slice c m addr a h e =
      let full : g.read_slice m addr c.size_of ≡ ok (c.as_slice a) =
        rw (c.length-as_slice a h) at e in
      let found : c.read (c.as_slice a) ≡ some (a, []) =
        rw (append-nil (c.as_slice a)) at (c.read-as_slice a [] h) in
      rw (full, map_ok, found)

  -- An object that is read is in range, and the bytes behind the address are its bytes.
  pub read_obj_ok :
      {A : Type 0} (c : ByteValued A) (m : g.Memory) (addr : ℕ) (a : A)
      → read_obj c m addr ≡ ok a
      → (bs : List ℕ) × (g.read_slice m addr c.size_of ≡ ok bs)
        × (c.read bs ≡ some (a, []))
        × c.InRange a
  unfolding read_obj
  read_obj_ok c m addr a e = elim (Result-cases (g.read_slice m addr c.size_of)) [
    | inl (bs, got) ↦
        let (long, bytes) = g.read_slice_full m addr c.size_of bs got in
        let (b, rest, found) = c.read_total bs bytes (omega arith) in
        let (inside, _, took) = c.read_bounds bs rest b bytes found in
        let value : b ≡ a = ok-injective (rw (got, map_ok, found) at e) in
        let end : rest ≡ [] = length-zero rest (omega arith) in
        (bs, got, rw (← value, found, end), rw value at inside)
    | inr (x, failed) ↦ absurd (err-ne-ok (rw (failed, map_ok) at e))
  ]

  pub read_obj_err :
      {A : Type 0} (c : ByteValued A) (m : g.Memory) (addr : ℕ) (x : g.Error)
      → read_obj c m addr ≡ err x
      → g.read_slice m addr c.size_of ≡ err x
  unfolding read_obj
  read_obj_err c m addr x e = elim (Result-cases (g.read_slice m addr c.size_of)) [
    | inl (bs, got) ↦ absurd (ok-ne-err (rw (got, map_ok) at e))
    | inr (y, failed) ↦ failed ∙ ap err (err-injective (rw (failed, map_ok) at e))
  ]
