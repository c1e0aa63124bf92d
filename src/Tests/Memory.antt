-- ===== src/Tests/Memory.antt =====
-- Guest memory as a list of bytes from address 0, and the ranges of it that the host sees.
use vhost_gpu_backend.Wire.Bytes.{IsByte}
use vhost_gpu_backend.Prelude.{
  refl, inr, inl, arith, if◌then◌else◌, ◌&&◌, All, ◌+◌, ltb, length, ℕ, zero, suc, ◌%◌, List, [],
  ◌∷◌, none, some, ◌≡◌,
}
use vhost_gpu_backend.Prelude.Result.{
  Result-cases, err-ne-ok, ok-injective, map_ok, Result, ok, err,
}
use vhost_gpu_backend.GuestMemory.{GuestMemory}
use vhost_gpu_backend.Gpu.Iovecs.{GuestRegions}

-- The first `n` bytes, as bytes.
abbrev take : ℕ → List ℕ → Result ℕ (List ℕ)
take zero bs = ok []
take (suc n) [] = err 7
take (suc n) (b ∷ bs) = map_ok (λ rest. b % 256 ∷ rest) (take n bs)

abbrev read_slice : List ℕ → ℕ → ℕ → Result ℕ (List ℕ)
read_slice m zero n = take n m
read_slice [] (suc addr) n = err 7
read_slice (b ∷ m) (suc addr) n = read_slice m addr n

pub take_full : (n : ℕ) (m bs : List ℕ) → take n m ≡ ok bs → (length bs ≡ n) × All IsByte bs
take_full zero m bs e = rw (← ok-injective e) (refl, tt)
take_full (suc n) [] bs e = absurd (err-ne-ok e)
take_full (suc n) (b ∷ m) bs e = elim (Result-cases (take n m)) [
  | inl (rest, found) ↦
      let (long, bytes) = take_full n m rest found in
      let same : b % 256 ∷ rest ≡ bs = ok-injective (rw (found, map_ok) at e) in
      rw (← same) (omega (arith, long), (omega arith, bytes))
  | inr (x, failed) ↦ absurd (err-ne-ok (rw (failed, map_ok) at e))
]

pub read_slice_full :
    (m : List ℕ) (addr n : ℕ) (bs : List ℕ)
    → read_slice m addr n ≡ ok bs
    → (length bs ≡ n) × All IsByte bs
read_slice_full m zero n bs e = take_full n m bs e
read_slice_full [] (suc addr) n bs e = absurd (err-ne-ok e)
read_slice_full (b ∷ m) (suc addr) n bs e = read_slice_full m addr n bs e

abbrev pub memory : GuestMemory
memory = record {
  Memory = List ℕ;
  Error = ℕ;
  read_slice = read_slice;
  read_slice_full = read_slice_full;
}

-- One region of 4096 bytes, which the host has at address 65536.
abbrev pub regions : GuestRegions
regions = record {
  Memory = Unit;
  get_slice = λ m addr len. ltb (addr + len) 4097 && ltb addr 4096;
  get_host_address = λ m addr. if ltb addr 4096 then some (65536 + addr) else none;
  get_slice_host = λ m addr len e. ground arith;
}
