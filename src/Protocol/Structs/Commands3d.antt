-- ===== src/Protocol/Structs/Commands3d.antt =====
-- src/protocol.rs: the 3D requests.
-- Each field stands in the order and the width of the source, and the layout is that of `repr(C)`.
use vhost_gpu_backend.Prelude.{ℕ, refl, List}
use vhost_gpu_backend.Wire.ByteValued.{ByteValued}
use vhost_gpu_backend.Wire.Layout.{struct, ◌⊗◌, le32, le64}
use vhost_gpu_backend.Wire.Array.{bytes}
use vhost_gpu_backend.Protocol.Structs.Common.{
  VirtioGpuCtrlHdr, virtio_gpu_ctrl_hdr, VirtioGpuBox, virtio_gpu_box,
}

pub record VirtioGpuResourceCreate3d : Type 0 where
  pub hdr : VirtioGpuCtrlHdr
  pub resource_id : ℕ
  pub target : ℕ
  pub format : ℕ
  pub bind : ℕ
  pub width : ℕ
  pub height : ℕ
  pub depth : ℕ
  pub array_size : ℕ
  pub last_level : ℕ
  pub nr_samples : ℕ
  pub flags : ℕ
  pub padding : ℕ

unfoldable pub virtio_gpu_resource_create_3d : ByteValued VirtioGpuResourceCreate3d
virtio_gpu_resource_create_3d =
    struct
      (λ s. (
        s.hdr,
        (
          s.resource_id,
          (
            s.target,
            (
              s.format,
              (
                s.bind,
                (
                  s.width,
                  (
                    s.height,
                    (s.depth, (s.array_size, (s.last_level, (s.nr_samples, (s.flags, s.padding))))),
                  ),
                ),
              ),
            ),
          ),
        ),
      ))
      (λ t. record {
        hdr = t.0;
        resource_id = t.1.0;
        target = t.1.1.0;
        format = t.1.1.1.0;
        bind = t.1.1.1.1.0;
        width = t.1.1.1.1.1.0;
        height = t.1.1.1.1.1.1.0;
        depth = t.1.1.1.1.1.1.1.0;
        array_size = t.1.1.1.1.1.1.1.1.0;
        last_level = t.1.1.1.1.1.1.1.1.1.0;
        nr_samples = t.1.1.1.1.1.1.1.1.1.1.0;
        flags = t.1.1.1.1.1.1.1.1.1.1.1.0;
        padding = t.1.1.1.1.1.1.1.1.1.1.1.1;
      })
      (λ s. refl)
      (virtio_gpu_ctrl_hdr ⊗ le32 ⊗ le32 ⊗ le32 ⊗ le32 ⊗ le32 ⊗ le32 ⊗ le32 ⊗ le32 ⊗ le32 ⊗ le32
        ⊗ le32 ⊗ le32)
      (λ t h. h)

pub record VirtioGpuTransferHost3d : Type 0 where
  pub hdr : VirtioGpuCtrlHdr
  pub box_ : VirtioGpuBox
  pub offset : ℕ
  pub resource_id : ℕ
  pub level : ℕ
  pub stride : ℕ
  pub layer_stride : ℕ

unfoldable pub virtio_gpu_transfer_host_3d : ByteValued VirtioGpuTransferHost3d
virtio_gpu_transfer_host_3d =
    struct
      (λ s. (s.hdr, (s.box_, (s.offset, (s.resource_id, (s.level, (s.stride, s.layer_stride)))))))
      (λ t. record {
        hdr = t.0;
        box_ = t.1.0;
        offset = t.1.1.0;
        resource_id = t.1.1.1.0;
        level = t.1.1.1.1.0;
        stride = t.1.1.1.1.1.0;
        layer_stride = t.1.1.1.1.1.1;
      })
      (λ s. refl) (virtio_gpu_ctrl_hdr ⊗ virtio_gpu_box ⊗ le64 ⊗ le32 ⊗ le32 ⊗ le32 ⊗ le32)
      (λ t h. h)

pub record VirtioGpuCtxCreate : Type 0 where
  pub hdr : VirtioGpuCtrlHdr
  pub nlen : ℕ
  pub padding : ℕ
  pub debug_name : List ℕ

unfoldable pub virtio_gpu_ctx_create : ByteValued VirtioGpuCtxCreate
virtio_gpu_ctx_create =
    struct (λ s. (s.hdr, (s.nlen, (s.padding, s.debug_name))))
      (λ t. record { hdr = t.0; nlen = t.1.0; padding = t.1.1.0; debug_name = t.1.1.1 }) (λ s. refl)
      (virtio_gpu_ctrl_hdr ⊗ le32 ⊗ le32 ⊗ bytes 64) (λ t h. h)

pub record VirtioGpuCtxDestroy : Type 0 where
  pub hdr : VirtioGpuCtrlHdr

unfoldable pub virtio_gpu_ctx_destroy : ByteValued VirtioGpuCtxDestroy
virtio_gpu_ctx_destroy =
    struct (λ s. s.hdr) (λ t. record { hdr = t }) (λ s. refl) virtio_gpu_ctrl_hdr (λ t h. h)

pub record VirtioGpuCtxResource : Type 0 where
  pub hdr : VirtioGpuCtrlHdr
  pub resource_id : ℕ
  pub padding : ℕ

unfoldable pub virtio_gpu_ctx_resource : ByteValued VirtioGpuCtxResource
virtio_gpu_ctx_resource =
    struct (λ s. (s.hdr, (s.resource_id, s.padding)))
      (λ t. record { hdr = t.0; resource_id = t.1.0; padding = t.1.1 }) (λ s. refl)
      (virtio_gpu_ctrl_hdr ⊗ le32 ⊗ le32) (λ t h. h)

pub record VirtioGpuCmdSubmit : Type 0 where
  pub hdr : VirtioGpuCtrlHdr
  pub size : ℕ
  pub padding : ℕ

unfoldable pub virtio_gpu_cmd_submit : ByteValued VirtioGpuCmdSubmit
virtio_gpu_cmd_submit =
    struct (λ s. (s.hdr, (s.size, s.padding)))
      (λ t. record { hdr = t.0; size = t.1.0; padding = t.1.1 }) (λ s. refl)
      (virtio_gpu_ctrl_hdr ⊗ le32 ⊗ le32) (λ t h. h)
