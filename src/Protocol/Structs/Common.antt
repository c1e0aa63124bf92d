-- ===== src/Protocol/Structs/Common.antt =====
-- src/protocol.rs: the structures that occur inside others, and the configuration space.
-- Each field stands in the order and the width of the source, and the layout is that of `repr(C)`.
use vhost_gpu_backend.Prelude.{ℕ, refl}
use vhost_gpu_backend.Wire.ByteValued.{ByteValued}
use vhost_gpu_backend.Wire.Layout.{struct, ◌⊗◌, le32, le64}

pub record VirtioGpuCtrlHdr : Type 0 where
  pub type_ : ℕ
  pub flags : ℕ
  pub fence_id : ℕ
  pub ctx_id : ℕ
  pub padding : ℕ

unfoldable pub virtio_gpu_ctrl_hdr : ByteValued VirtioGpuCtrlHdr
virtio_gpu_ctrl_hdr =
    struct (λ s. (s.type_, (s.flags, (s.fence_id, (s.ctx_id, s.padding)))))
      (λ t. record {
        type_ = t.0;
        flags = t.1.0;
        fence_id = t.1.1.0;
        ctx_id = t.1.1.1.0;
        padding = t.1.1.1.1;
      })
      (λ s. refl) (le32 ⊗ le32 ⊗ le64 ⊗ le32 ⊗ le32) (λ t h. h)

pub record VirtioGpuRect : Type 0 where
  pub x : ℕ
  pub y : ℕ
  pub width : ℕ
  pub height : ℕ

unfoldable pub virtio_gpu_rect : ByteValued VirtioGpuRect
virtio_gpu_rect =
    struct (λ s. (s.x, (s.y, (s.width, s.height))))
      (λ t. record { x = t.0; y = t.1.0; width = t.1.1.0; height = t.1.1.1 }) (λ s. refl)
      (le32 ⊗ le32 ⊗ le32 ⊗ le32) (λ t h. h)

pub record VirtioGpuBox : Type 0 where
  pub x : ℕ
  pub y : ℕ
  pub z : ℕ
  pub w : ℕ
  pub h : ℕ
  pub d : ℕ

unfoldable pub virtio_gpu_box : ByteValued VirtioGpuBox
virtio_gpu_box =
    struct (λ s. (s.x, (s.y, (s.z, (s.w, (s.h, s.d))))))
      (λ t. record {
        x = t.0;
        y = t.1.0;
        z = t.1.1.0;
        w = t.1.1.1.0;
        h = t.1.1.1.1.0;
        d = t.1.1.1.1.1;
      })
      (λ s. refl) (le32 ⊗ le32 ⊗ le32 ⊗ le32 ⊗ le32 ⊗ le32) (λ t h. h)

pub record VirtioGpuCursorPos : Type 0 where
  pub scanout_id : ℕ
  pub x : ℕ
  pub y : ℕ
  pub padding : ℕ

unfoldable pub virtio_gpu_cursor_pos : ByteValued VirtioGpuCursorPos
virtio_gpu_cursor_pos =
    struct (λ s. (s.scanout_id, (s.x, (s.y, s.padding))))
      (λ t. record { scanout_id = t.0; x = t.1.0; y = t.1.1.0; padding = t.1.1.1 }) (λ s. refl)
      (le32 ⊗ le32 ⊗ le32 ⊗ le32) (λ t h. h)

pub record VirtioGpuMemEntry : Type 0 where
  pub addr : ℕ
  pub length : ℕ
  pub padding : ℕ

unfoldable pub virtio_gpu_mem_entry : ByteValued VirtioGpuMemEntry
virtio_gpu_mem_entry =
    struct (λ s. (s.addr, (s.length, s.padding)))
      (λ t. record { addr = t.0; length = t.1.0; padding = t.1.1 }) (λ s. refl) (le64 ⊗ le32 ⊗ le32)
      (λ t h. h)

pub record VirtioGpuDisplayOne : Type 0 where
  pub r : VirtioGpuRect
  pub enabled : ℕ
  pub flags : ℕ

unfoldable pub virtio_gpu_display_one : ByteValued VirtioGpuDisplayOne
virtio_gpu_display_one =
    struct (λ s. (s.r, (s.enabled, s.flags)))
      (λ t. record { r = t.0; enabled = t.1.0; flags = t.1.1 }) (λ s. refl)
      (virtio_gpu_rect ⊗ le32 ⊗ le32) (λ t h. h)

pub record VirtioGpuConfig : Type 0 where
  pub events_read : ℕ
  pub events_clear : ℕ
  pub num_scanouts : ℕ
  pub num_capsets : ℕ

unfoldable pub virtio_gpu_config : ByteValued VirtioGpuConfig
virtio_gpu_config =
    struct (λ s. (s.events_read, (s.events_clear, (s.num_scanouts, s.num_capsets))))
      (λ t. record {
        events_read = t.0;
        events_clear = t.1.0;
        num_scanouts = t.1.1.0;
        num_capsets = t.1.1.1;
      })
      (λ s. refl) (le32 ⊗ le32 ⊗ le32 ⊗ le32) (λ t h. h)
