-- ===== src/Libraries/Interfaces.antt =====
-- The operations of the libraries, and the structures that the program builds for their calls.
use vhost_gpu_backend.Prelude.{ℕ, Bool, List, Option}
use vhost_gpu_backend.Prelude.Result.{Result}

pub record RutabagaIovec : Type 0 where
  pub base : ℕ
  pub len : ℕ

pub record ResourceCreate3d : Type 0 where
  pub target : ℕ
  pub format : ℕ
  pub bind : ℕ
  pub width : ℕ
  pub height : ℕ
  pub depth : ℕ
  pub array_size : ℕ
  pub last_level : ℕ
  pub nr_samples : ℕ
  pub flags : ℕ

pub record Transfer3d : Type 0 where
  pub x : ℕ
  pub y : ℕ
  pub z : ℕ
  pub w : ℕ
  pub h : ℕ
  pub d : ℕ
  pub level : ℕ
  pub stride : ℕ
  pub layer_stride : ℕ
  pub offset : ℕ

pub data RutabagaComponentType : Type 0 where
  rutabaga_2d virgl_renderer gfxstream cross_domain : RutabagaComponentType

-- A call that may fail: the state comes back in either case. A call whose result is an `Option` of
-- the answer and the state is one that can panic: then it is `none`.
abbrev pub Call : Type 0 → Type 0 → Type 0 → Type 0
Call S E A = S → Result E A × S

-- The renderer. `Slice` is a window of memory and `Pixels` what a call has written to one.
pub record Rutabaga (Slice Pixels : Type 0) : Type 1 where
  pub State : Type 0
  pub Error : Type 0
  pub Flags : Type 0
  pub Metadata : Type 0
  pub FenceData : Type 0
  pub no_flags : Flags
  pub use_egl : Bool → Flags → Flags
  pub use_gles : Bool → Flags → Flags
  pub use_glx : Bool → Flags → Flags
  pub use_surfaceless : Bool → Flags → Flags
  pub build : RutabagaComponentType → Flags → Result Error State
  pub pipe_texture_2d : ℕ
  pub pipe_bind_render_target : ℕ
  pub new_2d : ℕ → ℕ → ℕ → ℕ → Transfer3d
  pub resource_create_3d : ℕ → ResourceCreate3d → Call State Error (Unit {0})
  pub query : ℕ → State → Result Error Metadata
  pub unref_resource : ℕ → Call State Error (Unit {0})
  pub attach_backing : ℕ → List RutabagaIovec → Call State Error (Unit {0})
  pub detach_backing : ℕ → Call State Error (Unit {0})
  pub create_context : ℕ → ℕ → Call State Error (Unit {0})
  pub destroy_context : ℕ → Call State Error (Unit {0})
  pub context_attach_resource : ℕ → ℕ → Call State Error (Unit {0})
  pub context_detach_resource : ℕ → ℕ → Call State Error (Unit {0})
  pub submit_command : ℕ → List ℕ → State → Result Error (Unit {0}) × State × List ℕ
  pub transfer_write : ℕ → ℕ → Transfer3d → Call State Error (Unit {0})
  pub transfer_read :
      ℕ → ℕ → Transfer3d → Option Slice → State → Result Error (Unit {0}) × State × Pixels
  pub get_capset_info : ℕ → State → Result Error (ℕ × ℕ × ℕ)
  pub get_capset : ℕ → ℕ → State → Result Error (List ℕ)
  -- `Rutabaga::poll` unwraps the default component, which a build without its feature does not have.
  pub poll : State → Option (List FenceData × State)
  pub force_ctx_0 : State → State
  pub create_fence : FenceData → Call State Error (Unit {0})
  -- The resources that the renderer knows.
  pub has_resource : State → ℕ → Bool

-- The display server. A framebuffer is a window of the display's memory; `store` is what the display
-- becomes when pixels are written through one.
pub record GpuDisplay (Slice Pixels : Type 0) : Type 1 where
  pub State : Type 0
  pub Error : Type 0
  pub Framebuffer : Type 0
  pub stride : Framebuffer → ℕ
  pub as_volatile_slice : Framebuffer → Slice
  pub store : Slice → Pixels → State → State
  pub open_x : Result Error State
  pub dispatch_events : State → State
  pub close_requested : ℕ → State → Bool
  pub create_surface : Option ℕ → ℕ → ℕ → Call State Error ℕ
  pub release_surface : ℕ → State → State
  -- A buffer is made at the first use, and its size is a checked product that is unwrapped. A region
  -- is a slice that is unwrapped, so one that leaves the surface is a panic.
  pub framebuffer : ℕ → State → Option (Option Framebuffer × State)
  pub framebuffer_region : ℕ → ℕ → ℕ → ℕ → ℕ → State → Option (Option Framebuffer × State)
  pub next_buffer_in_use : ℕ → State → Bool
  pub flip : ℕ → State → State
  pub flip_to : ℕ → ℕ → State → State
  pub set_position : ℕ → ℕ → ℕ → State → State
  pub commit : ℕ → State → State
  -- The surfaces that are created and not yet released.
  pub is_live : State → ℕ → Bool

-- All that the program is linked with.
pub record Libraries : Type 1 where
  pub Slice : Type 0
  pub Pixels : Type 0
  pub rutabaga : Rutabaga Slice Pixels
  pub display : GpuDisplay Slice Pixels
  pub GuestMemoryError : Type 0
  pub TryFromIntError : Type 0
