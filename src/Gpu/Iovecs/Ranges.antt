-- ===== src/Gpu/Iovecs/Ranges.antt =====
-- `sglist_to_rutabaga_iovecs` on every list of ranges.
use vhost_gpu_backend.Protocol.Response.{invalid_sglist_region}
use vhost_gpu_backend.Libraries.{RutabagaIovec}
use vhost_gpu_backend.Prelude.{
  Bool-cases, refl, Option-cases, ◌⊎◌, arith, ℕ, Bool, true, false, not, List, [], ◌∷◌, some, ◌≡◌,
  inl, inr,
}
use vhost_gpu_backend.Gpu.State.{done, raised}
use vhost_gpu_backend.Gpu.Iovecs.{GuestRegions, any, push_iovecs, sglist_to_rutabaga_iovecs}

module _ (mem : GuestRegions) where
  -- The ranges as the host sees them: each at the host's address of its start, with its length.
  abbrev pub AreOf : mem.Memory → List (ℕ × ℕ) → List RutabagaIovec → Type 0
  AreOf m [] iovecs = iovecs ≡ []
  AreOf m ((addr, len) ∷ vecs) [] = ⊥
  AreOf m ((addr, len) ∷ vecs) (v ∷ iovecs) =
      (mem.get_host_address m addr ≡ some v.base) × (v.len ≡ len) × AreOf m vecs iovecs

  abbrev pub refused : mem.Memory → ℕ × ℕ → Bool
  refused m v = not (mem.get_slice m v.0 v.1)

module _ (mem : GuestRegions) {M R I D : Type 0} where
  pushed :
      (m : mem.Memory) (vecs : List (ℕ × ℕ))
      → any (refused mem m) vecs ≡ false
      → (iovecs : List RutabagaIovec) × (push_iovecs mem {M = M} {R = R} {I = I} {D = D} m vecs
          ≡ done iovecs)
        × AreOf mem m vecs iovecs
  unfolding push_iovecs
  pushed m [] e = ([], refl, refl)
  pushed m ((addr, len) ∷ vecs) e =
      let (iovecs, rest, are) = pushed m vecs (ground arith) in
      elim (Option-cases (mem.get_host_address m addr)) [
        | inl missing ↦
            absurd (ground (arith, mem.get_slice_host m addr len (ground arith), missing))
        | inr (address, found) ↦ (
          record { base = address; len = len } ∷ iovecs,
          rw (push_iovecs, found, rest) refl,
          (found, refl, are),
        )
      ]

  -- A list of ranges is refused exactly when one of its ranges is not in guest memory. Otherwise
  -- the result has one entry for each range, in order, at the address of the host. There is no
  -- panic.
  pub sglist_to_rutabaga_iovecs_cases :
      (m : mem.Memory) (vecs : List (ℕ × ℕ))
      → ((any (refused mem m) vecs ≡ true)
          × (sglist_to_rutabaga_iovecs mem {M = M} {R = R} {I = I} {D = D} m vecs
              ≡ raised invalid_sglist_region))
        ⊎ ((any (refused mem m) vecs ≡ false)
            × (iovecs : List RutabagaIovec) × (sglist_to_rutabaga_iovecs mem {M = M} {R = R} {I = I}
                  {D = D} m vecs
                ≡ done iovecs)
            × AreOf mem m vecs iovecs)
  unfolding sglist_to_rutabaga_iovecs
  sglist_to_rutabaga_iovecs_cases m vecs = elim (Bool-cases (any (refused mem m) vecs)) [
    | inl bad ↦ inl (bad, rw (sglist_to_rutabaga_iovecs, bad) refl)
    | inr good ↦
        let (iovecs, ran, are) = pushed m vecs good in
        inr (good, iovecs, rw (sglist_to_rutabaga_iovecs, good) ran, are)
  ]
