-- ===== src/Gpu/Frames/Drawing.antt =====
-- The methods that only draw, whatever they answer.
use vhost_gpu_backend.Protocol.Structs.{VirtioGpuResourceFlush, VirtioGpuUpdateCursor}
use vhost_gpu_backend.Protocol.Response.{err_invalid_resource_id, err_unspec, ok_no_data}
use vhost_gpu_backend.Gpu.Frames.{
  rutabaga_call-OnlyDraws, ok_or-OnlyDraws, raise-OnlyDraws, gets-OnlyDraws,
  display_partial-OnlyDraws, pure-OnlyDraws, >>=-OnlyDraws, if-OnlyDraws, display_do-OnlyDraws,
  OnlyDraws,
}
use vhost_gpu_backend.Gpu.Scanout.{
  for_some, skip, import_to_display, process_display, flush_resource_to_surface, flush_shown,
  cmd_flush_resource, flush_if_shown, copy_to_surface, transfer_read_into,
}
use vhost_gpu_backend.Gpu.Cursor.{copy_cursor, cmd_move_curosr}
use vhost_gpu_backend.Prelude.{false, none, some, ◌==◌, ℕ, Option}
use vhost_gpu_backend.Libraries.{Transfer3d, DisplayLaws, Libraries}
use vhost_gpu_backend.Gpu.State.{◌>>=◌, gets, Response, VirtioGpu, pure, display_do, ◌>>◌, Action}

module _ (l : Libraries) where
  pub skip-OnlyDraws : OnlyDraws l skip
  skip-OnlyDraws = pure-OnlyDraws l tt

  pub for_some-OnlyDraws :
      {A : Type 0} (o : Option A) (f : A → Action l (Unit {0}))
      → ((a : A) → OnlyDraws l (f a))
      → OnlyDraws l (for_some o f)
  for_some-OnlyDraws none f k = skip-OnlyDraws
  for_some-OnlyDraws (some a) f k = k a

  -- A method that first reads its whole state.
  pub reading-OnlyDraws :
      {B : Type 0} (k : VirtioGpu l → Action l B)
      → ((g : VirtioGpu l) → OnlyDraws l (k g))
      → OnlyDraws l (gets (λ g. g) >>= k)
  reading-OnlyDraws k kk = >>=-OnlyDraws l (gets (λ g. g)) k (gets-OnlyDraws l (λ g. g)) kk

  pub >>-OnlyDraws :
      {B : Type 0} (m : Action l (Unit {0})) (k : Action l B)
      → OnlyDraws l m
      → OnlyDraws l k
      → OnlyDraws l (m >> k)
  >>-OnlyDraws m k km kk = >>=-OnlyDraws l m (λ _. k) km (λ _. kk)

module _ {l : Libraries} (dl : DisplayLaws l.display) where
  open l use {rutabaga as r, display as d}

  pub process_display-OnlyDraws : OnlyDraws l (process_display {l = l})
  unfolding process_display
  process_display-OnlyDraws =
      >>-OnlyDraws l _ _ (display_do-OnlyDraws l d.dispatch_events dl.dispatch_events_keeps) (
        gets-OnlyDraws l (λ g. elim g.scanout_surface_id [
          | none ↦ false
          | some surface_id ↦ d.close_requested surface_id g.display
        ]))

  pub transfer_read_into-OnlyDraws :
      (id : ℕ) (t : Transfer3d) (fb : d.Framebuffer)
      → OnlyDraws l (transfer_read_into {l = l} id t fb)
  unfolding transfer_read_into
  transfer_read_into-OnlyDraws id t fb = >>=-OnlyDraws l _ _ (gets-OnlyDraws l _) (λ pixels.
      >>-OnlyDraws l _ _
        (display_do-OnlyDraws l (d.store (d.as_volatile_slice fb) pixels)
          (dl.store_keeps (d.as_volatile_slice fb) pixels))
        (rutabaga_call-OnlyDraws l (λ s.
          let (ended, s', _) = r.transfer_read 0 id t (some (d.as_volatile_slice fb)) s in
          (ended, s'))))

  pub flip-OnlyDraws :
      (surface_id : ℕ)
      → OnlyDraws l {A = Response l} (display_do (d.flip surface_id) >> pure ok_no_data)
  flip-OnlyDraws surface_id =
      >>-OnlyDraws l _ _ (display_do-OnlyDraws l (d.flip surface_id) (dl.flip_keeps surface_id))
        (pure-OnlyDraws l _)

  copy_to_surface-OnlyDraws :
      (id surface_id : ℕ) → OnlyDraws l (copy_to_surface {l = l} id surface_id)
  unfolding copy_to_surface
  copy_to_surface-OnlyDraws id surface_id = reading-OnlyDraws l _ (λ g.
      >>=-OnlyDraws l _ _
        (display_partial-OnlyDraws l
          (d.framebuffer_region surface_id 0 0 g.display_width g.display_height)
          (dl.framebuffer_region_keeps surface_id 0 0 g.display_width g.display_height))
        (λ found. >>=-OnlyDraws l _ _ (ok_or-OnlyDraws l found err_unspec) (λ fb.
          >>-OnlyDraws l _ _
            (transfer_read_into-OnlyDraws id
              (record (r.new_2d 0 0 g.display_width g.display_height) { stride = d.stride fb }) fb)
            (flip-OnlyDraws surface_id))))

  pub flush_resource_to_surface-OnlyDraws :
      (id surface_id : ℕ) → OnlyDraws l (flush_resource_to_surface {l = l} id surface_id)
  unfolding flush_resource_to_surface import_to_display
  flush_resource_to_surface-OnlyDraws id surface_id =
      >>=-OnlyDraws l _ _ (gets-OnlyDraws l _) (λ known.
        >>=-OnlyDraws l _ _ (gets-OnlyDraws l (λ g. d.next_buffer_in_use surface_id g.display))
          (λ busy.
            if-OnlyDraws l known _ _
              (if-OnlyDraws l busy _ _ (pure-OnlyDraws l ok_no_data)
                (copy_to_surface-OnlyDraws id surface_id))
              (raise-OnlyDraws l err_invalid_resource_id)))

  flush_if_shown-OnlyDraws :
      (id : ℕ) (shown surface : Option ℕ) → OnlyDraws l (flush_if_shown {l = l} id shown surface)
  unfolding flush_if_shown
  flush_if_shown-OnlyDraws id (some a) (some b) =
      if-OnlyDraws l (a == id) _ _
        (>>=-OnlyDraws l _ _ (flush_resource_to_surface-OnlyDraws id b) (λ _. skip-OnlyDraws l))
        (skip-OnlyDraws l)
  flush_if_shown-OnlyDraws id none b = skip-OnlyDraws l
  flush_if_shown-OnlyDraws id (some a) none = skip-OnlyDraws l

  flush_shown-OnlyDraws : (id : ℕ) → OnlyDraws l (flush_shown {l = l} id)
  unfolding flush_shown
  flush_shown-OnlyDraws id = reading-OnlyDraws l _ (λ g.
      >>-OnlyDraws l _ _ (flush_if_shown-OnlyDraws id g.scanout_resource_id g.scanout_surface_id) (
        reading-OnlyDraws l _ (λ g'.
          >>-OnlyDraws l _ _
            (flush_if_shown-OnlyDraws id g'.cursor_resource_id g'.cursor_surface_id)
            (pure-OnlyDraws l ok_no_data))))

  pub cmd_flush_resource-OnlyDraws :
      (cmd : VirtioGpuResourceFlush) → OnlyDraws l (cmd_flush_resource {l = l} cmd)
  unfolding cmd_flush_resource
  cmd_flush_resource-OnlyDraws cmd =
      if-OnlyDraws l (cmd.resource_id == 0) _ _ (pure-OnlyDraws l _)
        (flush_shown-OnlyDraws cmd.resource_id)

  pub cmd_move_curosr-OnlyDraws :
      (cmd : VirtioGpuUpdateCursor) → OnlyDraws l (cmd_move_curosr {l = l} cmd)
  unfolding cmd_move_curosr
  cmd_move_curosr-OnlyDraws cmd = reading-OnlyDraws l _ (λ g.
      >>-OnlyDraws l _ _
        (for_some-OnlyDraws l g.cursor_surface_id _ (λ cursor_surface_id.
          for_some-OnlyDraws l g.scanout_surface_id _ (λ scanout_surface_id.
            >>-OnlyDraws l _ _
              (display_do-OnlyDraws l _
                (dl.set_position_keeps cursor_surface_id cmd.pos.x cmd.pos.y))
              (display_do-OnlyDraws l _ (dl.commit_keeps scanout_surface_id)))))
        (pure-OnlyDraws l ok_no_data))

  pub copy_cursor-OnlyDraws :
      (id : ℕ) (size : ℕ × ℕ) (surface_id : ℕ)
      → OnlyDraws l (copy_cursor {l = l} id size surface_id)
  unfolding copy_cursor
  copy_cursor-OnlyDraws id (width, height) surface_id =
      >>=-OnlyDraws l _ _
        (display_partial-OnlyDraws l (d.framebuffer surface_id) (dl.framebuffer_keeps surface_id))
        (λ found.
          >>-OnlyDraws l _ _
            (for_some-OnlyDraws l found _ (λ fb.
              transfer_read_into-OnlyDraws id
                (record (r.new_2d 0 0 width height) { stride = d.stride fb }) fb))
            (flip-OnlyDraws surface_id))
