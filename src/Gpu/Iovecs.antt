-- ===== src/Gpu/Iovecs.antt =====
-- src/virtio_gpu.rs, `sglist_to_rutabaga_iovecs`: a list of ranges of guest memory, as the host sees
-- them. The guest memory is that of the crate vm-memory.
pub mod Ranges
use vhost_gpu_backend.Protocol.Response.{invalid_sglist_region, VirtioGpuResponse}
use vhost_gpu_backend.Prelude.{
  if◌then◌else◌, ◌||◌, ◌≡◌, ℕ, Bool, true, false, not, List, [], ◌∷◌, Option, none, some, is_some,
}
use vhost_gpu_backend.Libraries.{RutabagaIovec}
use vhost_gpu_backend.Gpu.State.{panicked, library_panicked, raised, done, Outcome}

pub record GuestRegions : Type 1 where
  pub Memory : Type 0
  -- Whether `get_slice(addr, len)` succeeds.
  pub get_slice : Memory → ℕ → ℕ → Bool
  -- `get_host_address(addr).ok()`
  pub get_host_address : Memory → ℕ → Option ℕ
  -- A range lies in one region, whose every address has one of the host.
  pub get_slice_host :
      (m : Memory) (addr len : ℕ)
      → get_slice m addr len ≡ true
      → is_some (get_host_address m addr) ≡ true

abbrev pub any : {A : Type 0} → (A → Bool) → List A → Bool
any f [] = false
any f (x ∷ xs) = f x || any f xs

module _ (mem : GuestRegions) {M R I D : Type 0} where
  -- The loop over the ranges; `unwrap` is a panic on an address outside the memory.
  unfoldable pub push_iovecs :
      mem.Memory → List (ℕ × ℕ) → Outcome (VirtioGpuResponse M R I D) (List RutabagaIovec)
  push_iovecs m [] = done []
  push_iovecs m ((addr, len) ∷ vecs) =
      let rest = push_iovecs m vecs in
      elim (mem.get_host_address m addr) [
        | none ↦ panicked
        | some address ↦ elim rest [
          | done iovecs ↦ done (record { base = address; len = len } ∷ iovecs)
          | raised e ↦ raised e
          | panicked ↦ panicked
          | library_panicked ↦ library_panicked
        ]
      ]

  unfoldable pub sglist_to_rutabaga_iovecs :
      mem.Memory → List (ℕ × ℕ) → Outcome (VirtioGpuResponse M R I D) (List RutabagaIovec)
  unfolding push_iovecs
  sglist_to_rutabaga_iovecs m vecs =
      if any (λ (v : ℕ × ℕ). not (mem.get_slice m v.0 v.1)) vecs
      then raised invalid_sglist_region
      else push_iovecs m vecs
