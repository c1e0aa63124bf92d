-- ===== src/Protocol/Structs/Queries.antt =====
-- src/protocol.rs: the requests for information, and the cursor requests.
-- Each field stands in the order and the width of the source, and the layout is that of `repr(C)`.
use vhost_gpu_backend.Prelude.{ℕ, refl}
use vhost_gpu_backend.Wire.ByteValued.{ByteValued}
use vhost_gpu_backend.Wire.Layout.{struct, ◌⊗◌, le32}
use vhost_gpu_backend.Wire.Array.{padded}
use vhost_gpu_backend.Protocol.Structs.Common.{
  VirtioGpuCtrlHdr, virtio_gpu_ctrl_hdr, VirtioGpuCursorPos, virtio_gpu_cursor_pos,
}

pub record VirtioGpuGetCapsetInfo : Type 0 where
  pub hdr : VirtioGpuCtrlHdr
  pub capset_index : ℕ
  pub padding : ℕ

unfoldable pub virtio_gpu_get_capset_info : ByteValued VirtioGpuGetCapsetInfo
virtio_gpu_get_capset_info =
    struct (λ s. (s.hdr, (s.capset_index, s.padding)))
      (λ t. record { hdr = t.0; capset_index = t.1.0; padding = t.1.1 }) (λ s. refl)
      (virtio_gpu_ctrl_hdr ⊗ le32 ⊗ le32) (λ t h. h)

pub record VirtioGpuGetCapset : Type 0 where
  pub hdr : VirtioGpuCtrlHdr
  pub capset_id : ℕ
  pub capset_version : ℕ

unfoldable pub virtio_gpu_get_capset : ByteValued VirtioGpuGetCapset
virtio_gpu_get_capset =
    struct (λ s. (s.hdr, (s.capset_id, s.capset_version)))
      (λ t. record { hdr = t.0; capset_id = t.1.0; capset_version = t.1.1 }) (λ s. refl)
      (virtio_gpu_ctrl_hdr ⊗ le32 ⊗ le32) (λ t h. h)

pub record VirtioGpuCmdGetEdid : Type 0 where
  pub hdr : VirtioGpuCtrlHdr
  pub scanout : ℕ
  pub padding : ℕ

unfoldable pub virtio_gpu_cmd_get_edid : ByteValued VirtioGpuCmdGetEdid
virtio_gpu_cmd_get_edid =
    struct (λ s. (s.hdr, (s.scanout, s.padding)))
      (λ t. record { hdr = t.0; scanout = t.1.0; padding = t.1.1 }) (λ s. refl)
      (virtio_gpu_ctrl_hdr ⊗ le32 ⊗ le32) (λ t h. h)

pub record VirtioGpuResourceAssignUuid : Type 0 where
  pub hdr : VirtioGpuCtrlHdr
  pub resource_id : ℕ
  pub padding : ℕ

unfoldable pub virtio_gpu_resource_assign_uuid : ByteValued VirtioGpuResourceAssignUuid
virtio_gpu_resource_assign_uuid =
    struct (λ s. (s.hdr, (s.resource_id, s.padding)))
      (λ t. record { hdr = t.0; resource_id = t.1.0; padding = t.1.1 }) (λ s. refl)
      (virtio_gpu_ctrl_hdr ⊗ le32 ⊗ le32) (λ t h. h)

pub record VirtioGpuUpdateCursor : Type 0 where
  pub hdr : VirtioGpuCtrlHdr
  pub pos : VirtioGpuCursorPos
  pub resource_id : ℕ
  pub hot_x : ℕ
  pub padding : ℕ

unfoldable pub virtio_gpu_update_cursor : ByteValued VirtioGpuUpdateCursor
virtio_gpu_update_cursor = padded 4 (
    struct (λ s. (s.hdr, (s.pos, (s.resource_id, (s.hot_x, s.padding)))))
      (λ t. record {
        hdr = t.0;
        pos = t.1.0;
        resource_id = t.1.1.0;
        hot_x = t.1.1.1.0;
        padding = t.1.1.1.1;
      })
      (λ s. refl) (virtio_gpu_ctrl_hdr ⊗ virtio_gpu_cursor_pos ⊗ le32 ⊗ le32 ⊗ le32) (λ t h. h))
