-- ===== src/Protocol/Structs/Replies.antt =====
-- src/protocol.rs: the responses that carry data.
-- Each field stands in the order and the width of the source, and the layout is that of `repr(C)`.
use vhost_gpu_backend.Prelude.{ℕ, refl, List}
use vhost_gpu_backend.Wire.ByteValued.{ByteValued}
use vhost_gpu_backend.Wire.Layout.{struct, ◌⊗◌, le32}
use vhost_gpu_backend.Wire.Array.{array, bytes}
use vhost_gpu_backend.Protocol.Consts.{virtio_gpu_max_scanouts}
use vhost_gpu_backend.Protocol.Structs.Common.{
  VirtioGpuCtrlHdr, virtio_gpu_ctrl_hdr, VirtioGpuDisplayOne, virtio_gpu_display_one,
}

pub record VirtioGpuRespDisplayInfo : Type 0 where
  pub hdr : VirtioGpuCtrlHdr
  pub pmodes : List VirtioGpuDisplayOne

unfoldable pub virtio_gpu_resp_display_info : ByteValued VirtioGpuRespDisplayInfo
virtio_gpu_resp_display_info =
    struct (λ s. (s.hdr, s.pmodes)) (λ t. record { hdr = t.0; pmodes = t.1 }) (λ s. refl)
      (virtio_gpu_ctrl_hdr ⊗ array virtio_gpu_max_scanouts virtio_gpu_display_one) (λ t h. h)

pub record VirtioGpuRespCapsetInfo : Type 0 where
  pub hdr : VirtioGpuCtrlHdr
  pub capset_id : ℕ
  pub capset_max_version : ℕ
  pub capset_max_size : ℕ
  pub padding : ℕ

unfoldable pub virtio_gpu_resp_capset_info : ByteValued VirtioGpuRespCapsetInfo
virtio_gpu_resp_capset_info =
    struct (λ s. (s.hdr, (s.capset_id, (s.capset_max_version, (s.capset_max_size, s.padding)))))
      (λ t. record {
        hdr = t.0;
        capset_id = t.1.0;
        capset_max_version = t.1.1.0;
        capset_max_size = t.1.1.1.0;
        padding = t.1.1.1.1;
      })
      (λ s. refl) (virtio_gpu_ctrl_hdr ⊗ le32 ⊗ le32 ⊗ le32 ⊗ le32) (λ t h. h)

pub record VirtioGpuRespEdid : Type 0 where
  pub hdr : VirtioGpuCtrlHdr
  pub size : ℕ
  pub padding : ℕ
  pub edid : List ℕ

unfoldable pub virtio_gpu_resp_edid : ByteValued VirtioGpuRespEdid
virtio_gpu_resp_edid =
    struct (λ s. (s.hdr, (s.size, (s.padding, s.edid))))
      (λ t. record { hdr = t.0; size = t.1.0; padding = t.1.1.0; edid = t.1.1.1 }) (λ s. refl)
      (virtio_gpu_ctrl_hdr ⊗ le32 ⊗ le32 ⊗ bytes 1024) (λ t h. h)

pub record VirtioGpuRespResourceUuid : Type 0 where
  pub hdr : VirtioGpuCtrlHdr
  pub uuid : List ℕ

unfoldable pub virtio_gpu_resp_resource_uuid : ByteValued VirtioGpuRespResourceUuid
virtio_gpu_resp_resource_uuid =
    struct (λ s. (s.hdr, s.uuid)) (λ t. record { hdr = t.0; uuid = t.1 }) (λ s. refl)
      (virtio_gpu_ctrl_hdr ⊗ bytes 16) (λ t h. h)
