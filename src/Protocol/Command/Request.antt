-- ===== src/Protocol/Command/Request.antt =====
-- What a request is on the wire, beside `decode`: its structure, its type number and its bytes.
use vhost_gpu_backend.Prelude.{ℕ, ◌≤◌, ◌≡◌, refl, ◌⊎◌, List}
use vhost_gpu_backend.Wire.ByteValued.{ByteValued}
use vhost_gpu_backend.Protocol.Consts
use vhost_gpu_backend.Protocol.Structs.{
  virtio_gpu_cmd_get_edid, virtio_gpu_cmd_submit, virtio_gpu_ctrl_hdr, virtio_gpu_ctx_create,
  virtio_gpu_ctx_destroy, virtio_gpu_ctx_resource, virtio_gpu_get_capset,
  virtio_gpu_get_capset_info, virtio_gpu_resource_assign_uuid, virtio_gpu_resource_attach_backing,
  virtio_gpu_resource_create_2d, virtio_gpu_resource_create_3d, virtio_gpu_resource_detach_backing,
  virtio_gpu_resource_flush, virtio_gpu_resource_unref, virtio_gpu_set_scanout,
  virtio_gpu_transfer_host_3d, virtio_gpu_transfer_to_host_2d, virtio_gpu_update_cursor,
  virtio_gpu_display_one, virtio_gpu_rect,
}
use vhost_gpu_backend.Protocol.Command.{
  VirtioGpuCommand, size, cmd_get_display_info, cmd_resource_create_2d, cmd_resource_unref,
  cmd_set_scanout, cmd_resource_flush, cmd_transfer_to_host_2d, cmd_resource_attach_backing,
  cmd_resource_detach_backing, cmd_get_capset_info, cmd_get_capset, cmd_get_edid,
  cmd_resource_assign_uuid, cmd_ctx_create, cmd_ctx_destroy, cmd_ctx_attach_resource,
  cmd_ctx_detach_resource, cmd_resource_create_3d, cmd_transfer_to_host_3d,
  cmd_transfer_from_host_3d, cmd_submit_3d, cmd_update_cursor, cmd_move_cursor,
}

-- A request taken apart: the structure that it carries, and the constructor and the type number.
pub record Request : Type 1 where
  pub Payload : Type 0
  pub codec : ByteValued Payload
  pub const : ℕ
  pub make : Payload → VirtioGpuCommand
  pub payload : Payload

abbrev pub request_of : {A : Type 0} → ByteValued A → ℕ → (A → VirtioGpuCommand) → A → Request
request_of {A} c const make a = record {
  Payload = A;
  codec = c;
  const = const;
  make = make;
  payload = a;
}

abbrev pub request : VirtioGpuCommand → Request
request (cmd_get_display_info v) =
    request_of virtio_gpu_ctrl_hdr Consts.virtio_gpu_cmd_get_display_info cmd_get_display_info v
request (cmd_resource_create_2d v) =
    request_of virtio_gpu_resource_create_2d Consts.virtio_gpu_cmd_resource_create_2d
      cmd_resource_create_2d v
request (cmd_resource_unref v) =
    request_of virtio_gpu_resource_unref Consts.virtio_gpu_cmd_resource_unref cmd_resource_unref v
request (cmd_set_scanout v) =
    request_of virtio_gpu_set_scanout Consts.virtio_gpu_cmd_set_scanout cmd_set_scanout v
request (cmd_resource_flush v) =
    request_of virtio_gpu_resource_flush Consts.virtio_gpu_cmd_resource_flush cmd_resource_flush v
request (cmd_transfer_to_host_2d v) =
    request_of virtio_gpu_transfer_to_host_2d Consts.virtio_gpu_cmd_transfer_to_host_2d
      cmd_transfer_to_host_2d v
request (cmd_resource_attach_backing v) =
    request_of virtio_gpu_resource_attach_backing Consts.virtio_gpu_cmd_resource_attach_backing
      cmd_resource_attach_backing v
request (cmd_resource_detach_backing v) =
    request_of virtio_gpu_resource_detach_backing Consts.virtio_gpu_cmd_resource_detach_backing
      cmd_resource_detach_backing v
request (cmd_get_capset_info v) =
    request_of virtio_gpu_get_capset_info Consts.virtio_gpu_cmd_get_capset_info cmd_get_capset_info
      v
request (cmd_get_capset v) =
    request_of virtio_gpu_get_capset Consts.virtio_gpu_cmd_get_capset cmd_get_capset v
request (cmd_get_edid v) =
    request_of virtio_gpu_cmd_get_edid Consts.virtio_gpu_cmd_get_edid cmd_get_edid v
request (cmd_resource_assign_uuid v) =
    request_of virtio_gpu_resource_assign_uuid Consts.virtio_gpu_cmd_resource_assign_uuid
      cmd_resource_assign_uuid v
request (cmd_ctx_create v) =
    request_of virtio_gpu_ctx_create Consts.virtio_gpu_cmd_ctx_create cmd_ctx_create v
request (cmd_ctx_destroy v) =
    request_of virtio_gpu_ctx_destroy Consts.virtio_gpu_cmd_ctx_destroy cmd_ctx_destroy v
request (cmd_ctx_attach_resource v) =
    request_of virtio_gpu_ctx_resource Consts.virtio_gpu_cmd_ctx_attach_resource
      cmd_ctx_attach_resource v
request (cmd_ctx_detach_resource v) =
    request_of virtio_gpu_ctx_resource Consts.virtio_gpu_cmd_ctx_detach_resource
      cmd_ctx_detach_resource v
request (cmd_resource_create_3d v) =
    request_of virtio_gpu_resource_create_3d Consts.virtio_gpu_cmd_resource_create_3d
      cmd_resource_create_3d v
request (cmd_transfer_to_host_3d v) =
    request_of virtio_gpu_transfer_host_3d Consts.virtio_gpu_cmd_transfer_to_host_3d
      cmd_transfer_to_host_3d v
request (cmd_transfer_from_host_3d v) =
    request_of virtio_gpu_transfer_host_3d Consts.virtio_gpu_cmd_transfer_from_host_3d
      cmd_transfer_from_host_3d v
request (cmd_submit_3d v) =
    request_of virtio_gpu_cmd_submit Consts.virtio_gpu_cmd_submit_3d cmd_submit_3d v
request (cmd_update_cursor v) =
    request_of virtio_gpu_update_cursor Consts.virtio_gpu_cmd_update_cursor cmd_update_cursor v
request (cmd_move_cursor v) =
    request_of virtio_gpu_update_cursor Consts.virtio_gpu_cmd_move_cursor cmd_move_cursor v

-- The bytes of a request, and that its fields hold values of their widths.
abbrev pub request_bytes : VirtioGpuCommand → List ℕ
request_bytes c = let r = request c in r.codec.as_slice r.payload

abbrev pub IsWellFormed : VirtioGpuCommand → Type 0
IsWellFormed c = let r = request c in r.codec.InRange r.payload

-- The type numbers of requests: 2D, 3D and cursor.
abbrev pub IsRequestType : ℕ → Type 0
IsRequestType t =
    ((0x100 ≤ t) × (t ≤ 0x10b)) ⊎ (((0x200 ≤ t) × (t ≤ 0x207)) ⊎ ((0x301 ≤ t) × (t ≤ 0x302)))

pub make-payload : (c : VirtioGpuCommand) → (request c).make (request c).payload ≡ c
make-payload (cmd_get_display_info v) = refl
make-payload _ = refl

-- `size` of a request is the size of its structure above, also where the source names another one
-- (`CmdGetDisplayInfo`).
pub size-eq-size_of : (c : VirtioGpuCommand) → size c ≡ (request c).codec.size_of
unfolding size virtio_gpu_ctrl_hdr virtio_gpu_display_one virtio_gpu_rect
size-eq-size_of (cmd_get_display_info v) = refl
size-eq-size_of _ = refl
