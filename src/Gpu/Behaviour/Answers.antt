-- ===== src/Gpu/Behaviour/Answers.antt =====
-- The answers of the device: the display information, the EDID, the UUID of a resource, and what the
-- transfers hand on.
use vhost_gpu_backend.Gpu.Invariant.Ends.{raised-ne-done, done-injective}
use vhost_gpu_backend.Wire.Bytes.{IsByte}
use vhost_gpu_backend.Protocol.Response.{ok_resource_uuid, ok_edid}
use vhost_gpu_backend.Gpu.Edid.{edid_vec, write_at}
use vhost_gpu_backend.Gpu.Commands.{
  assigned_uuid, cmd_get_edid, cmd_resource_assign_uuid, to_be_bytes,
}
use vhost_gpu_backend.Protocol.Structs.{VirtioGpuCmdGetEdid, VirtioGpuResourceAssignUuid}
use vhost_gpu_backend.Libraries.{Libraries}
use vhost_gpu_backend.Prelude.{
  ◌&&◌, ltb, Bool, ap, ◌∙◌, refl, sym, arith, length, inr, inl, ◌%◌, Bool-cases, All, ◌++◌,
  replicate, zero, ◌+◌, suc, [], ◌∷◌, List, ℕ, ◌≡◌, true, ◌<◌, ◌^◌,
}
use vhost_gpu_backend.Prelude.Table
use vhost_gpu_backend.Gpu.State.{Response, VirtioGpu, done}

to_be_bytes-injective : (a b : ℕ) → a < 2 ^ 32 → b < 2 ^ 32 → to_be_bytes a ≡ to_be_bytes b → a ≡ b
unfolding to_be_bytes
to_be_bytes-injective a b ha hb e = ground arith

-- A test for bytes, which decides long lists by computation.
abbrev all_bytes : List ℕ → Bool
all_bytes [] = true
all_bytes (b ∷ bs) = ltb b 256 && all_bytes bs

all_bytes_sound : (bs : List ℕ) → all_bytes bs ≡ true → All IsByte bs
all_bytes_sound [] e = tt
all_bytes_sound (b ∷ bs) e = (ground arith, all_bytes_sound bs (ground arith))

-- The sum of the bytes of a block.
abbrev pub sum : List ℕ → ℕ
sum [] = 0
sum (b ∷ bs) = b + sum bs

abbrev pub take : ℕ → List ℕ → List ℕ
take zero bs = []
take (suc n) [] = []
take (suc n) (b ∷ bs) = b ∷ take n bs

abbrev pub drop : ℕ → List ℕ → List ℕ
drop zero bs = bs
drop (suc n) [] = []
drop (suc n) (b ∷ bs) = drop n bs

module _ {l : Libraries} where
  open l use {rutabaga as r}

  assigned :
      (cmd : VirtioGpuResourceAssignUuid) (g g' : VirtioGpu l) (x : Response l)
      → cmd_resource_assign_uuid cmd g ≡ (done x, g')
      → (Table.contains_key cmd.resource_id g.resources ≡ true)
        × (x ≡ ok_resource_uuid (replicate 12 0 ++ to_be_bytes cmd.resource_id))
        × (g' ≡ g)
  unfolding cmd_resource_assign_uuid assigned_uuid write_at to_be_bytes
  assigned cmd g g' x e = elim (Bool-cases (Table.contains_key cmd.resource_id g.resources)) [
    | inl known ↦
        let e' = rw (cmd_resource_assign_uuid, known, assigned_uuid) at e in
        (known, sym (done-injective _ _ (ap (λ q. q.0) e')), sym (ap (λ q. q.1) e'))
    | inr unknown ↦
        absurd (raised-ne-done (ap (λ q. q.0) (rw (cmd_resource_assign_uuid, unknown) at e)))
  ]

  -- Two resources that are given the same UUID have the same id, where the ids are words of 32
  -- bits.
  pub cmd_resource_assign_uuid-injective :
      (a b : VirtioGpuResourceAssignUuid) (g h g' h' : VirtioGpu l) (x : Response l)
      → a.resource_id < 2 ^ 32
      → b.resource_id < 2 ^ 32
      → cmd_resource_assign_uuid a g ≡ (done x, g')
      → cmd_resource_assign_uuid b h ≡ (done x, h')
      → a.resource_id ≡ b.resource_id
  cmd_resource_assign_uuid-injective a b g h g' h' x ha hb ea eb =
      let same = sym (assigned a g g' x ea).1 ∙ (assigned b h h' x eb).1 in
      to_be_bytes-injective a.resource_id b.resource_id ha hb cc

  -- The EDID that the device answers: the two blocks of 128 bytes, each with the sum 0 modulo 256
  -- and the first with the header of an EDID, then zeros up to 1024 bytes; `size` says 256. The
  -- device does not change.
  pub cmd_get_edid_done :
      (cmd : VirtioGpuCmdGetEdid) (g : VirtioGpu l)
      → (edid : List ℕ) × (cmd_get_edid cmd g ≡ (done (ok_edid 256 edid), g))
        × (length edid ≡ 1024)
        × All IsByte edid
        × (sum (take 128 edid) % 256 ≡ 0)
        × (sum (take 128 (drop 128 edid)) % 256 ≡ 0)
        × (take 8 edid ≡ 0 ∷ 255 ∷ 255 ∷ 255 ∷ 255 ∷ 255 ∷ 255 ∷ 0 ∷ [])
        × (drop 256 edid ≡ replicate 768 0)
  unfolding cmd_get_edid write_at
  cmd_get_edid_done cmd g = (
    edid_vec ++ replicate 768 0,
    refl,
    refl,
    all_bytes_sound (edid_vec ++ replicate 768 0) refl,
    refl,
    refl,
    refl,
    refl,
  )
