-- ===== src/Libraries/Laws.antt =====
-- What the program relies on: how the calls change the renderer's resources and the display's
-- surfaces. The comments of third-party/rutabaga_gfx and third-party/gpu_display document it.
use vhost_gpu_backend.Prelude.{ℕ, ◌≡◌, true, false, List, Option, some, ◌==◌, if◌then◌else◌}
use vhost_gpu_backend.Prelude.Result.{ok, err}
use vhost_gpu_backend.Libraries.Interfaces.{
  RutabagaIovec, ResourceCreate3d, Transfer3d, RutabagaComponentType, Rutabaga, GpuDisplay,
}

-- The renderer keeps a table of resources: an id is created once, and released once.
pub record RutabagaLaws {Slice Pixels : Type 0} (r : Rutabaga Slice Pixels) : Type 0 where
  -- A new renderer has no resources.
  pub build_ok :
      (c : RutabagaComponentType) (flags : r.Flags) (s : r.State)
      → r.build c flags ≡ ok s
      → (j : ℕ) → r.has_resource s j ≡ false
  pub resource_create_3d_ok :
      (id : ℕ) (c : ResourceCreate3d) (s s' : r.State)
      → r.resource_create_3d id c s ≡ (ok tt, s')
      → (r.has_resource s id ≡ false)
        × ((j : ℕ) → r.has_resource s' j ≡ (if j == id then true else r.has_resource s j))
  pub resource_create_3d_err :
      (id : ℕ) (c : ResourceCreate3d) (e : r.Error) (s s' : r.State)
      → r.resource_create_3d id c s ≡ (err e, s')
      → (j : ℕ) → r.has_resource s' j ≡ r.has_resource s j
  pub unref_resource_ok :
      (id : ℕ) (s s' : r.State)
      → r.unref_resource id s ≡ (ok tt, s')
      → (r.has_resource s id ≡ true)
        × ((j : ℕ) → r.has_resource s' j ≡ (if j == id then false else r.has_resource s j))
  pub unref_resource_err :
      (id : ℕ) (e : r.Error) (s s' : r.State)
      → r.unref_resource id s ≡ (err e, s')
      → (j : ℕ) → r.has_resource s' j ≡ r.has_resource s j
  pub attach_backing_keeps :
      (id : ℕ) (vecs : List RutabagaIovec) (s : r.State) (j : ℕ)
      → r.has_resource (r.attach_backing id vecs s).1 j ≡ r.has_resource s j
  pub detach_backing_keeps :
      (id : ℕ) (s : r.State) (j : ℕ)
      → r.has_resource (r.detach_backing id s).1 j ≡ r.has_resource s j
  pub create_context_keeps :
      (ctx init : ℕ) (s : r.State) (j : ℕ)
      → r.has_resource (r.create_context ctx init s).1 j ≡ r.has_resource s j
  pub destroy_context_keeps :
      (ctx : ℕ) (s : r.State) (j : ℕ)
      → r.has_resource (r.destroy_context ctx s).1 j ≡ r.has_resource s j
  pub context_attach_resource_keeps :
      (ctx id : ℕ) (s : r.State) (j : ℕ)
      → r.has_resource (r.context_attach_resource ctx id s).1 j ≡ r.has_resource s j
  pub context_detach_resource_keeps :
      (ctx id : ℕ) (s : r.State) (j : ℕ)
      → r.has_resource (r.context_detach_resource ctx id s).1 j ≡ r.has_resource s j
  pub submit_command_keeps :
      (ctx : ℕ) (commands : List ℕ) (s : r.State) (j : ℕ)
      → r.has_resource (r.submit_command ctx commands s).1 j ≡ r.has_resource s j
  pub transfer_write_keeps :
      (ctx id : ℕ) (t : Transfer3d) (s : r.State) (j : ℕ)
      → r.has_resource (r.transfer_write ctx id t s).1 j ≡ r.has_resource s j
  pub transfer_read_keeps :
      (ctx id : ℕ) (t : Transfer3d) (buf : Option Slice) (s : r.State) (j : ℕ)
      → r.has_resource (r.transfer_read ctx id t buf s).1 j ≡ r.has_resource s j
  pub poll_keeps :
      (s s' : r.State) (fences : List r.FenceData)
      → r.poll s ≡ some (fences, s')
      → (j : ℕ) → r.has_resource s' j ≡ r.has_resource s j
  pub force_ctx_0_keeps :
      (s : r.State) (j : ℕ) → r.has_resource (r.force_ctx_0 s) j ≡ r.has_resource s j
  pub create_fence_keeps :
      (fence : r.FenceData) (s : r.State) (j : ℕ)
      → r.has_resource (r.create_fence fence s).1 j ≡ r.has_resource s j

-- The display hands out ids of surfaces that are not in use, until they are released.
pub record DisplayLaws {Slice Pixels : Type 0} (d : GpuDisplay Slice Pixels) : Type 0 where
  -- A display that has just been opened has no surfaces.
  pub open_x_ok : (s : d.State) → d.open_x ≡ ok s → (j : ℕ) → d.is_live s j ≡ false
  pub create_surface_ok :
      (parent : Option ℕ) (w h id : ℕ) (s s' : d.State)
      → d.create_surface parent w h s ≡ (ok id, s')
      → (d.is_live s id ≡ false)
        × ((j : ℕ) → d.is_live s' j ≡ (if j == id then true else d.is_live s j))
  pub create_surface_err :
      (parent : Option ℕ) (w h : ℕ) (e : d.Error) (s s' : d.State)
      → d.create_surface parent w h s ≡ (err e, s')
      → (j : ℕ) → d.is_live s' j ≡ d.is_live s j
  pub release_surface_lem :
      (id : ℕ) (s : d.State) (j : ℕ)
      → d.is_live (d.release_surface id s) j ≡ (if j == id then false else d.is_live s j)
  pub store_keeps :
      (at : Slice) (p : Pixels) (s : d.State) (j : ℕ) → d.is_live (d.store at p s) j ≡ d.is_live s j
  pub dispatch_events_keeps :
      (s : d.State) (j : ℕ) → d.is_live (d.dispatch_events s) j ≡ d.is_live s j
  pub framebuffer_keeps :
      (id : ℕ) (s s' : d.State) (found : Option d.Framebuffer)
      → d.framebuffer id s ≡ some (found, s')
      → (j : ℕ) → d.is_live s' j ≡ d.is_live s j
  pub framebuffer_region_keeps :
      (id x y w h : ℕ) (s s' : d.State) (found : Option d.Framebuffer)
      → d.framebuffer_region id x y w h s ≡ some (found, s')
      → (j : ℕ) → d.is_live s' j ≡ d.is_live s j
  pub flip_keeps : (id : ℕ) (s : d.State) (j : ℕ) → d.is_live (d.flip id s) j ≡ d.is_live s j
  pub flip_to_keeps :
      (id import_id : ℕ) (s : d.State) (j : ℕ)
      → d.is_live (d.flip_to id import_id s) j ≡ d.is_live s j
  pub set_position_keeps :
      (id x y : ℕ) (s : d.State) (j : ℕ) → d.is_live (d.set_position id x y s) j ≡ d.is_live s j
  pub commit_keeps : (id : ℕ) (s : d.State) (j : ℕ) → d.is_live (d.commit id s) j ≡ d.is_live s j
