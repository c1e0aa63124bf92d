-- ===== src/Gpu/New.antt =====
-- src/virtio_gpu.rs: the default parameters of a device, and how a device is made.
use vhost_gpu_backend.Prelude.{ℕ, true, none, []}
use vhost_gpu_backend.Prelude.Result.{ok, err}
use vhost_gpu_backend.Libraries.{virgl_renderer, rutabaga_2d, Libraries, RutabagaComponentType}
use vhost_gpu_backend.Gpu.State.{
  done, raised, panicked, mode_3d, GpuMode, mode_2d, mode_3d, GpuParameter, VirtioGpu, Outcome,
}

abbrev pub default_dsiplay_width : ℕ
default_dsiplay_width = 1920

abbrev pub default_display_height : ℕ
default_display_height = 1080

abbrev pub default : GpuParameter
default = record {
  display_width = default_dsiplay_width;
  display_height = default_display_height;
  renderer_use_egl = true;
  renderer_use_gles = true;
  renderer_use_glx = true;
  renderer_use_surfaceless = true;
  mode = mode_3d;
}

-- The renderer of a mode.
abbrev pub component : GpuMode → RutabagaComponentType
component mode_2d = rutabaga_2d
component mode_3d = virgl_renderer

module _ (l : Libraries) where
  open l use {rutabaga as r}

  abbrev pub virglrenderer_flags : GpuParameter → r.Flags
  virglrenderer_flags p = r.use_surfaceless p.renderer_use_surfaceless (
      r.use_glx p.renderer_use_glx
        (r.use_gles p.renderer_use_gles (r.use_egl p.renderer_use_egl r.no_flags)))

module _ {l : Libraries} where
  open l use {rutabaga as r, display as d}

  abbrev pub initial : GpuParameter → d.State → r.State → VirtioGpu l
  initial p display rutabaga = record {
    display = display;
    display_width = p.display_width;
    display_height = p.display_height;
    scanout_resource_id = none;
    scanout_surface_id = none;
    cursor_resource_id = none;
    cursor_surface_id = none;
    rutabaga = rutabaga;
    resources = [];
  }

  -- The display is opened first, and a display that cannot be opened is a panic.
  unfoldable pub new : GpuParameter → Outcome r.Error (VirtioGpu l)
  new p = elim d.open_x [
    | err _ ↦ panicked
    | ok display ↦ elim (r.build (component p.mode) (virglrenderer_flags l p)) [
      | err e ↦ raised e
      | ok rutabaga ↦ done (initial p display rutabaga)
    ]
  ]
