-- ===== src/Protocol/Command/Arms.antt =====
-- The arms of the match in `decode`: each reads the structure of its request.
use vhost_gpu_backend.Prelude.{
  ◌&◌, ℕ, ◌≡◌, ◌≢◌, inl, inr, refl, List, [], ◌∷◌, All, arith, ◌==◌, Bool-cases,
}
use vhost_gpu_backend.Prelude.Result.{err}
use vhost_gpu_backend.Wire.ByteValued.{ByteValued}
use vhost_gpu_backend.GuestMemory.{GuestMemory}
use vhost_gpu_backend.Protocol.Consts
use vhost_gpu_backend.Protocol.Structs.{
  virtio_gpu_cmd_get_edid, virtio_gpu_cmd_submit, virtio_gpu_ctrl_hdr, virtio_gpu_ctx_create,
  virtio_gpu_ctx_destroy, virtio_gpu_ctx_resource, virtio_gpu_get_capset,
  virtio_gpu_get_capset_info, virtio_gpu_resource_assign_uuid, virtio_gpu_resource_attach_backing,
  virtio_gpu_resource_create_2d, virtio_gpu_resource_create_3d, virtio_gpu_resource_detach_backing,
  virtio_gpu_resource_flush, virtio_gpu_resource_unref, virtio_gpu_set_scanout,
  virtio_gpu_transfer_host_3d, virtio_gpu_transfer_to_host_2d, virtio_gpu_update_cursor,
}
use vhost_gpu_backend.Protocol.Command.{
  VirtioGpuCommand, invalid_command, Decoded, match_arms, read_as, arms, cmd_get_display_info,
  cmd_resource_create_2d, cmd_resource_unref, cmd_set_scanout, cmd_resource_flush,
  cmd_transfer_to_host_2d, cmd_resource_attach_backing, cmd_resource_detach_backing,
  cmd_get_capset_info, cmd_get_capset, cmd_get_edid, cmd_resource_assign_uuid, cmd_ctx_create,
  cmd_ctx_destroy, cmd_ctx_attach_resource, cmd_ctx_detach_resource, cmd_resource_create_3d,
  cmd_transfer_to_host_3d, cmd_transfer_from_host_3d, cmd_submit_3d, cmd_update_cursor,
  cmd_move_cursor,
}
use vhost_gpu_backend.Protocol.Command.Request.{request, request_of, IsRequestType}

-- A property that each arm has at its own number, and the last arm at the other numbers.
pub match_arms_rule :
    {R : Type 0} (P : R → Type 0) (n : ℕ) (cases : List (ℕ × R)) (last : R)
    → All (λ a. n ≡ a.0 → P a.1) cases
    → (All (λ a. n ≢ a.0) cases → P last)
    → P (match_arms n cases last)
unfolding match_arms
match_arms_rule P n [] last h k = k tt
match_arms_rule P n (a ∷ cases) last (h, hs) k = elim (Bool-cases (n == a.0)) [
  | inl hit ↦ rw hit (h (ground arith))
  | inr miss ↦ rw miss (match_arms_rule P n cases last hs (λ others. k (ground arith, others)))
]

module _ (g : GuestMemory) where
  -- An arm reads a structure of guest memory as a request with its own type number.
  abbrev pub IsArm : g.Memory → ℕ → ℕ × Decoded g VirtioGpuCommand → Type 1
  IsArm m addr (const, r) =
      (A : Type 0) × (make : A → VirtioGpuCommand) × (c : ByteValued A) × (r
        ≡ read_as g m addr make c)
      × ((v : A) → request (make v) ≡ request_of c const make v)
      × IsRequestType const

  read_as-IsArm :
      {A : Type 0} (m : g.Memory) (addr const : ℕ) (make : A → VirtioGpuCommand) (c : ByteValued A)
      → ((v : A) → request (make v) ≡ request_of c const make v)
      → IsRequestType const
      → IsArm m addr (const, read_as g m addr make c)
  read_as-IsArm {A} m addr const make c same known = (A, make, c, refl, same, known)

  pub arms-IsArm : (m : g.Memory) (addr : ℕ) → All (IsArm m addr) (arms g m addr)
  unfolding arms
  arms-IsArm m addr =
      read_as-IsArm m addr Consts.virtio_gpu_cmd_get_display_info cmd_get_display_info
        virtio_gpu_ctrl_hdr (λ v. refl) (omega arith)
      & read_as-IsArm m addr Consts.virtio_gpu_cmd_resource_create_2d cmd_resource_create_2d
          virtio_gpu_resource_create_2d (λ v. refl) (omega arith)
      & read_as-IsArm m addr Consts.virtio_gpu_cmd_resource_unref cmd_resource_unref
          virtio_gpu_resource_unref (λ v. refl) (omega arith)
      & read_as-IsArm m addr Consts.virtio_gpu_cmd_transfer_to_host_2d cmd_transfer_to_host_2d
          virtio_gpu_transfer_to_host_2d (λ v. refl) (omega arith)
      & read_as-IsArm m addr Consts.virtio_gpu_cmd_set_scanout cmd_set_scanout
          virtio_gpu_set_scanout (λ v. refl) (omega arith)
      & read_as-IsArm m addr Consts.virtio_gpu_cmd_resource_flush cmd_resource_flush
          virtio_gpu_resource_flush (λ v. refl) (omega arith)
      & read_as-IsArm m addr Consts.virtio_gpu_cmd_resource_attach_backing
          cmd_resource_attach_backing virtio_gpu_resource_attach_backing (λ v. refl) (omega arith)
      & read_as-IsArm m addr Consts.virtio_gpu_cmd_resource_detach_backing
          cmd_resource_detach_backing virtio_gpu_resource_detach_backing (λ v. refl) (omega arith)
      & read_as-IsArm m addr Consts.virtio_gpu_cmd_get_capset_info cmd_get_capset_info
          virtio_gpu_get_capset_info (λ v. refl) (omega arith)
      & read_as-IsArm m addr Consts.virtio_gpu_cmd_get_capset cmd_get_capset virtio_gpu_get_capset
          (λ v. refl) (omega arith)
      & read_as-IsArm m addr Consts.virtio_gpu_cmd_get_edid cmd_get_edid virtio_gpu_cmd_get_edid
          (λ v. refl) (omega arith)
      & read_as-IsArm m addr Consts.virtio_gpu_cmd_resource_assign_uuid cmd_resource_assign_uuid
          virtio_gpu_resource_assign_uuid (λ v. refl) (omega arith)
      & read_as-IsArm m addr Consts.virtio_gpu_cmd_ctx_create cmd_ctx_create virtio_gpu_ctx_create
          (λ v. refl) (omega arith)
      & read_as-IsArm m addr Consts.virtio_gpu_cmd_ctx_destroy cmd_ctx_destroy
          virtio_gpu_ctx_destroy (λ v. refl) (omega arith)
      & read_as-IsArm m addr Consts.virtio_gpu_cmd_ctx_attach_resource cmd_ctx_attach_resource
          virtio_gpu_ctx_resource (λ v. refl) (omega arith)
      & read_as-IsArm m addr Consts.virtio_gpu_cmd_ctx_detach_resource cmd_ctx_detach_resource
          virtio_gpu_ctx_resource (λ v. refl) (omega arith)
      & read_as-IsArm m addr Consts.virtio_gpu_cmd_resource_create_3d cmd_resource_create_3d
          virtio_gpu_resource_create_3d (λ v. refl) (omega arith)
      & read_as-IsArm m addr Consts.virtio_gpu_cmd_transfer_to_host_3d cmd_transfer_to_host_3d
          virtio_gpu_transfer_host_3d (λ v. refl) (omega arith)
      & read_as-IsArm m addr Consts.virtio_gpu_cmd_transfer_from_host_3d cmd_transfer_from_host_3d
          virtio_gpu_transfer_host_3d (λ v. refl) (omega arith)
      & read_as-IsArm m addr Consts.virtio_gpu_cmd_submit_3d cmd_submit_3d virtio_gpu_cmd_submit
          (λ v. refl) (omega arith)
      & read_as-IsArm m addr Consts.virtio_gpu_cmd_update_cursor cmd_update_cursor
          virtio_gpu_update_cursor (λ v. refl) (omega arith)
      & read_as-IsArm m addr Consts.virtio_gpu_cmd_move_cursor cmd_move_cursor
          virtio_gpu_update_cursor (λ v. refl) (omega arith)
      & tt

  pub match_arms-request :
      (m : g.Memory) (addr : ℕ) (c : VirtioGpuCommand) (last : Decoded g VirtioGpuCommand)
      → match_arms (request c).const (arms g m addr) last
        ≡ read_as g m addr (request c).make (request c).codec
  unfolding match_arms arms
  match_arms-request m addr (cmd_get_display_info v) last = refl
  match_arms-request m addr _ last = refl

  pub no_arm :
      (m : g.Memory) (addr type_ : ℕ)
      → All (λ a. type_ ≢ a.0) (arms g m addr)
      → ¬ (IsRequestType type_)
  unfolding arms
  no_arm m addr type_ others known = omega arith

  pub arms_unknown :
      (m : g.Memory) (addr type_ : ℕ)
      → ¬ (IsRequestType type_)
      → match_arms type_ (arms g m addr) (err (invalid_command type_)) ≡ err (invalid_command type_)
  unfolding match_arms arms
  arms_unknown m addr type_ unknown = ground arith
