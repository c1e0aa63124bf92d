-- ===== src/Protocol/Structs/Commands2d.antt =====
-- src/protocol.rs: the 2D requests.
-- Each field stands in the order and the width of the source, and the layout is that of `repr(C)`.
use vhost_gpu_backend.Prelude.{ℕ, refl}
use vhost_gpu_backend.Wire.ByteValued.{ByteValued}
use vhost_gpu_backend.Wire.Layout.{struct, ◌⊗◌, le32, le64}
use vhost_gpu_backend.Protocol.Structs.Common.{
  VirtioGpuCtrlHdr, virtio_gpu_ctrl_hdr, VirtioGpuRect, virtio_gpu_rect,
}

pub record VirtioGpuResourceUnref : Type 0 where
  pub hdr : VirtioGpuCtrlHdr
  pub resource_id : ℕ
  pub padding : ℕ

unfoldable pub virtio_gpu_resource_unref : ByteValued VirtioGpuResourceUnref
virtio_gpu_resource_unref =
    struct (λ s. (s.hdr, (s.resource_id, s.padding)))
      (λ t. record { hdr = t.0; resource_id = t.1.0; padding = t.1.1 }) (λ s. refl)
      (virtio_gpu_ctrl_hdr ⊗ le32 ⊗ le32) (λ t h. h)

pub record VirtioGpuResourceCreate2d : Type 0 where
  pub hdr : VirtioGpuCtrlHdr
  pub resource_id : ℕ
  pub format : ℕ
  pub width : ℕ
  pub height : ℕ

unfoldable pub virtio_gpu_resource_create_2d : ByteValued VirtioGpuResourceCreate2d
virtio_gpu_resource_create_2d =
    struct (λ s. (s.hdr, (s.resource_id, (s.format, (s.width, s.height)))))
      (λ t. record {
        hdr = t.0;
        resource_id = t.1.0;
        format = t.1.1.0;
        width = t.1.1.1.0;
        height = t.1.1.1.1;
      })
      (λ s. refl) (virtio_gpu_ctrl_hdr ⊗ le32 ⊗ le32 ⊗ le32 ⊗ le32) (λ t h. h)

pub record VirtioGpuSetScanout : Type 0 where
  pub hdr : VirtioGpuCtrlHdr
  pub r : VirtioGpuRect
  pub scanout_id : ℕ
  pub resource_id : ℕ

unfoldable pub virtio_gpu_set_scanout : ByteValued VirtioGpuSetScanout
virtio_gpu_set_scanout =
    struct (λ s. (s.hdr, (s.r, (s.scanout_id, s.resource_id))))
      (λ t. record { hdr = t.0; r = t.1.0; scanout_id = t.1.1.0; resource_id = t.1.1.1 })
      (λ s. refl) (virtio_gpu_ctrl_hdr ⊗ virtio_gpu_rect ⊗ le32 ⊗ le32) (λ t h. h)

pub record VirtioGpuResourceFlush : Type 0 where
  pub hdr : VirtioGpuCtrlHdr
  pub r : VirtioGpuRect
  pub resource_id : ℕ
  pub padding : ℕ

unfoldable pub virtio_gpu_resource_flush : ByteValued VirtioGpuResourceFlush
virtio_gpu_resource_flush =
    struct (λ s. (s.hdr, (s.r, (s.resource_id, s.padding))))
      (λ t. record { hdr = t.0; r = t.1.0; resource_id = t.1.1.0; padding = t.1.1.1 }) (λ s. refl)
      (virtio_gpu_ctrl_hdr ⊗ virtio_gpu_rect ⊗ le32 ⊗ le32) (λ t h. h)

pub record VirtioGpuTransferToHost2d : Type 0 where
  pub hdr : VirtioGpuCtrlHdr
  pub r : VirtioGpuRect
  pub offset : ℕ
  pub resource_id : ℕ
  pub padding : ℕ

unfoldable pub virtio_gpu_transfer_to_host_2d : ByteValued VirtioGpuTransferToHost2d
virtio_gpu_transfer_to_host_2d =
    struct (λ s. (s.hdr, (s.r, (s.offset, (s.resource_id, s.padding)))))
      (λ t. record {
        hdr = t.0;
        r = t.1.0;
        offset = t.1.1.0;
        resource_id = t.1.1.1.0;
        padding = t.1.1.1.1;
      })
      (λ s. refl) (virtio_gpu_ctrl_hdr ⊗ virtio_gpu_rect ⊗ le64 ⊗ le32 ⊗ le32) (λ t h. h)

pub record VirtioGpuResourceAttachBacking : Type 0 where
  pub hdr : VirtioGpuCtrlHdr
  pub resource_id : ℕ
  pub nr_entries : ℕ

unfoldable pub virtio_gpu_resource_attach_backing : ByteValued VirtioGpuResourceAttachBacking
virtio_gpu_resource_attach_backing =
    struct (λ s. (s.hdr, (s.resource_id, s.nr_entries)))
      (λ t. record { hdr = t.0; resource_id = t.1.0; nr_entries = t.1.1 }) (λ s. refl)
      (virtio_gpu_ctrl_hdr ⊗ le32 ⊗ le32) (λ t h. h)

pub record VirtioGpuResourceDetachBacking : Type 0 where
  pub hdr : VirtioGpuCtrlHdr
  pub resource_id : ℕ
  pub padding : ℕ

unfoldable pub virtio_gpu_resource_detach_backing : ByteValued VirtioGpuResourceDetachBacking
virtio_gpu_resource_detach_backing =
    struct (λ s. (s.hdr, (s.resource_id, s.padding)))
      (λ t. record { hdr = t.0; resource_id = t.1.0; padding = t.1.1 }) (λ s. refl)
      (virtio_gpu_ctrl_hdr ⊗ le32 ⊗ le32) (λ t h. h)
