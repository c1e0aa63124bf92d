-- ===== src/Gpu/Invariant/Screen.antt =====
-- The methods that put resources on the screen keep the invariant.
use vhost_gpu_backend.Gpu.Invariant.Ends.{Keeps-Ends, display_partial-Ends, Ends}
use vhost_gpu_backend.Protocol.Response.{err_unspec, err_invalid_resource_id, ok_no_data}
use vhost_gpu_backend.Protocol.Structs.{VirtioGpuResourceFlush}
use vhost_gpu_backend.Gpu.Scanout.{
  copy_to_framebuffer, import_to_display, flush_resource_to_surface, transfer_read_into,
  flush_if_shown, process_display, flush_shown, copy_to_surface, cmd_flush_resource, skip, for_some,
}
use vhost_gpu_backend.Gpu.Invariant.{
  IsValid, RegionPanics, raise-Keeps, ok_or-Keeps, if-Keeps, gets-Keeps, some, >>=-Keeps,
  pure-Keeps, Keeps,
}
use vhost_gpu_backend.Gpu.Invariant.Calls.{display-IsValid, rutabaga_call-Keeps, display_do-Keeps}
use vhost_gpu_backend.Prelude.{false, none, ◌==◌, ℕ, Option}
use vhost_gpu_backend.Gpu.State.{◌>>=◌, gets, Response, VirtioGpu, pure, display_do, ◌>>◌, Action}
use vhost_gpu_backend.Libraries.{Transfer3d, DisplayLaws, RutabagaLaws, Libraries}

module _ (l : Libraries) where
  pub skip-Keeps : {P : Type 0} → Keeps l P skip
  skip-Keeps = pure-Keeps l tt

  pub for_some-Keeps :
      {P : Type 0}
      → {A : Type 0} (o : Option A) (f : A → Action l (Unit {0})) → ((a : A) → Keeps l P (f a))
      → Keeps l P (for_some o f)
  for_some-Keeps none f k = skip-Keeps
  for_some-Keeps (some a) f k = k a

  -- A method that first reads its whole state.
  pub reading-Keeps :
      {P : Type 0}
      → {B : Type 0} (k : VirtioGpu l → Action l B) → ((g : VirtioGpu l) → Keeps l P (k g))
      → Keeps l P (gets (λ g. g) >>= k)
  reading-Keeps k kk = >>=-Keeps l (gets (λ g. g)) k (gets-Keeps l (λ g. g)) kk

  pub >>-Keeps :
      {P : Type 0}
      → {B : Type 0} (m : Action l (Unit {0})) (k : Action l B) → Keeps l P m
      → Keeps l P k
      → Keeps l P (m >> k)
  >>-Keeps m k km kk = >>=-Keeps l m (λ _. k) km (λ _. kk)

module _ {l : Libraries} (rl : RutabagaLaws l.rutabaga) (dl : DisplayLaws l.display) where
  open l use {rutabaga as r, display as d}

  pub process_display-Keeps : {P : Type 0} → Keeps l P (process_display {l = l})
  unfolding process_display
  process_display-Keeps =
      >>-Keeps l _ _ (display_do-Keeps l d.dispatch_events dl.dispatch_events_keeps) (
        gets-Keeps l (λ g. elim g.scanout_surface_id [
          | none ↦ false
          | some surface_id ↦ d.close_requested surface_id g.display
        ]))

  pub transfer_read_into-Keeps :
      {P : Type 0}
      → (id : ℕ) (t : Transfer3d) (fb : d.Framebuffer)
      → Keeps l P (transfer_read_into {l = l} id t fb)
  unfolding transfer_read_into
  transfer_read_into-Keeps id t fb = >>=-Keeps l _ _ (gets-Keeps l _) (λ pixels.
      >>-Keeps l _ _
        (display_do-Keeps l (d.store (d.as_volatile_slice fb) pixels)
          (dl.store_keeps (d.as_volatile_slice fb) pixels))
        (rutabaga_call-Keeps l
          (λ s.
            let (ended, s', _) = r.transfer_read 0 id t (some (d.as_volatile_slice fb)) s in
            (ended, s'))
          (rl.transfer_read_keeps 0 id t (some (d.as_volatile_slice fb)))))

  pub flip-Keeps :
      {P : Type 0}
      → (surface_id : ℕ)
      → Keeps l P {A = Response l} (display_do (d.flip surface_id) >> pure ok_no_data)
  flip-Keeps surface_id =
      >>-Keeps l _ _ (display_do-Keeps l (d.flip surface_id) (dl.flip_keeps surface_id))
        (pure-Keeps l _)

  copy_to_framebuffer-Keeps :
      {P : Type 0}
      → (id surface_id width height : ℕ) (found : Option d.Framebuffer)
      → Keeps l P (copy_to_framebuffer id surface_id width height found)
  copy_to_framebuffer-Keeps id surface_id width height found =
      >>=-Keeps l _ _ (ok_or-Keeps l found err_unspec) (λ fb.
        >>-Keeps l _ _
          (transfer_read_into-Keeps id (record (r.new_2d 0 0 width height) { stride = d.stride fb })
            fb)
          (flip-Keeps surface_id))

  copy_to_surface-Ends :
      (id surface_id : ℕ) (g : VirtioGpu l)
      → IsValid g
      → Ends (RegionPanics l) (copy_to_surface {l = l} id surface_id g)
  unfolding copy_to_surface
  copy_to_surface-Ends id surface_id g v =
      let rest = copy_to_framebuffer id surface_id g.display_width g.display_height in
      display_partial-Ends {l = l}
        (d.framebuffer_region surface_id 0 0 g.display_width g.display_height) rest g v
        (λ panics. (g, v, surface_id, panics))
        (λ found s ran.
          Keeps-Ends {l = l} (rest found) _
            (copy_to_framebuffer-Keeps id surface_id g.display_width g.display_height found)
            (display-IsValid l g s
              (dl.framebuffer_region_keeps surface_id 0 0 g.display_width g.display_height g.display
                s found ran)
              v))

  copy_to_surface-Keeps :
      (id surface_id : ℕ) → Keeps l (RegionPanics l) (copy_to_surface {l = l} id surface_id)
  copy_to_surface-Keeps id surface_id = record {
    valid = λ g v. (copy_to_surface-Ends id surface_id g v).0;
    calm = λ g v. (copy_to_surface-Ends id surface_id g v).1;
  }

  pub flush_resource_to_surface-Keeps :
      (id surface_id : ℕ)
      → Keeps l (RegionPanics l) (flush_resource_to_surface {l = l} id surface_id)
  unfolding flush_resource_to_surface import_to_display
  flush_resource_to_surface-Keeps id surface_id = >>=-Keeps l _ _ (gets-Keeps l _) (λ known.
      >>=-Keeps l _ _ (gets-Keeps l (λ g. d.next_buffer_in_use surface_id g.display)) (λ busy.
        if-Keeps l known _ _
          (if-Keeps l busy _ _ (pure-Keeps l ok_no_data) (copy_to_surface-Keeps id surface_id))
          (raise-Keeps l err_invalid_resource_id)))

  flush_if_shown-Keeps :
      (id : ℕ) (shown surface : Option ℕ)
      → Keeps l (RegionPanics l) (flush_if_shown {l = l} id shown surface)
  unfolding flush_if_shown
  flush_if_shown-Keeps id (some a) (some b) =
      if-Keeps l (a == id) _ _
        (>>=-Keeps l _ _ (flush_resource_to_surface-Keeps id b) (λ _. skip-Keeps l)) (skip-Keeps l)
  flush_if_shown-Keeps id none b = skip-Keeps l
  flush_if_shown-Keeps id (some a) none = skip-Keeps l

  flush_shown-Keeps : (id : ℕ) → Keeps l (RegionPanics l) (flush_shown {l = l} id)
  unfolding flush_shown
  flush_shown-Keeps id = reading-Keeps l _ (λ g.
      >>-Keeps l _ _ (flush_if_shown-Keeps id g.scanout_resource_id g.scanout_surface_id) (
        reading-Keeps l _ (λ g'.
          >>-Keeps l _ _ (flush_if_shown-Keeps id g'.cursor_resource_id g'.cursor_surface_id)
            (pure-Keeps l ok_no_data))))

  pub cmd_flush_resource-Keeps :
      (cmd : VirtioGpuResourceFlush) → Keeps l (RegionPanics l) (cmd_flush_resource {l = l} cmd)
  unfolding cmd_flush_resource
  cmd_flush_resource-Keeps cmd =
      if-Keeps l (cmd.resource_id == 0) _ _ (pure-Keeps l _) (flush_shown-Keeps cmd.resource_id)
