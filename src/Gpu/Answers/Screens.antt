-- ===== src/Gpu/Answers/Screens.antt =====
-- src/virtio_gpu.rs: what the methods of the screen answer.

use vhost_gpu_backend.Protocol.Structs.{VirtioGpuSetScanout, VirtioGpuResourceFlush}
use vhost_gpu_backend.Prelude.{refl, ℕ, ◌≡◌, Option, none, some, ◌==◌}
use vhost_gpu_backend.Prelude.Table
use vhost_gpu_backend.Libraries.{Libraries, Call, Transfer3d}
use vhost_gpu_backend.Protocol.Response.{ok_no_data, err_unspec, err_invalid_resource_id}
use vhost_gpu_backend.Gpu.State.{
  display_partial, non_zero, VirtioGpu, VirtioGpuResource, ◌>>=◌, ◌>>◌, pure, display_do,
  display_try, modify,
}
use vhost_gpu_backend.Gpu.Answers.{
  for_some-Answers, >>-Answers, IsSendable, Any-Answers, Any, Answers, Fits, IsShort, >>=-Answers,
  pure-Answers, raise-Answers, gets-Answers, modify-Answers, ok_or-Answers, rutabaga_call-Answers,
  display_try-Answers, display_do-Answers, display_partial-Answers, if-Answers,
}
use vhost_gpu_backend.Gpu.Scanout.{
  create_scanout_surface, show_scanout, disable_scanout, copy_to_surface, import_to_display,
  flush_shown, flush_resource_to_surface, copy_to_framebuffer, flush_if_shown, transfer_read_into,
  cmd_flush_resource, for_some, cmd_set_scanout,
}

module _ {l : Libraries} where
  open l use {rutabaga as r, display as d}

  pub ok_no_data-Answers : Answers l (IsSendable l) (pure ok_no_data)
  ok_no_data-Answers = pure-Answers l ok_no_data tt

  pub transfer_read_into-Answers :
      (id : ℕ) (t : Transfer3d) (fb : d.Framebuffer) → Answers l Any (transfer_read_into id t fb)
  unfolding transfer_read_into
  transfer_read_into-Answers id t fb = record {
    answer = λ g.
        (rutabaga_call-Answers l (λ s.
            let (ended, s', _) = r.transfer_read 0 id t (some (d.as_volatile_slice fb)) s in
            (ended, s'))).answer
          g;
  }

  copy_to_framebuffer-Answers :
      (id surface_id width height : ℕ) (found : Option d.Framebuffer)
      → Answers l (IsSendable l) (copy_to_framebuffer id surface_id width height found)
  copy_to_framebuffer-Answers id surface_id width height found =
      >>=-Answers l _ _ (ok_or-Answers l found err_unspec tt) (λ fb.
        >>-Answers l _ _
          (transfer_read_into-Answers id
            (record (r.new_2d 0 0 width height) { stride = d.stride fb }) fb)
          (>>-Answers l _ _ (display_do-Answers l (d.flip surface_id)) ok_no_data-Answers))

  copy_to_surface-Answers :
      (id surface_id : ℕ) → Answers l (IsSendable l) (copy_to_surface id surface_id)
  unfolding copy_to_surface
  copy_to_surface-Answers id surface_id = record {
    answer = λ g.
        (>>=-Answers l
            (display_partial (d.framebuffer_region surface_id 0 0 g.display_width g.display_height))
            (copy_to_framebuffer id surface_id g.display_width g.display_height)
            (display_partial-Answers l _)
            (copy_to_framebuffer-Answers id surface_id g.display_width g.display_height)).answer
          g;
  }

  pub flush_resource_to_surface-Answers :
      (id surface_id : ℕ) → Answers l (IsSendable l) (flush_resource_to_surface id surface_id)
  unfolding flush_resource_to_surface import_to_display
  flush_resource_to_surface-Answers id surface_id =
      >>=-Answers l _ _ (gets-Answers l (λ g. Table.contains_key id g.resources)) (λ known.
        >>=-Answers l _ _ (gets-Answers l (λ g. d.next_buffer_in_use surface_id g.display)) (λ busy.
          if-Answers l known _ _
            (if-Answers l busy _ _ ok_no_data-Answers (copy_to_surface-Answers id surface_id))
            (raise-Answers l err_invalid_resource_id tt)))

  flush_if_shown-Answers :
      (id : ℕ) (shown surface : Option ℕ) → Answers l Any (flush_if_shown id shown surface)
  unfolding flush_if_shown
  flush_if_shown-Answers id (some a) (some b) =
      if-Answers l (a == id) _ _
        (>>=-Answers l _ _ (Any-Answers l _ (flush_resource_to_surface-Answers id b))
          (λ _. pure-Answers l tt tt))
        (pure-Answers l tt tt)
  flush_if_shown-Answers id none b = pure-Answers l tt tt
  flush_if_shown-Answers id (some a) none = pure-Answers l tt tt

  pub cmd_flush_resource-Answers :
      (cmd : VirtioGpuResourceFlush) → Answers l (IsSendable l) (cmd_flush_resource cmd)
  unfolding cmd_flush_resource flush_shown
  cmd_flush_resource-Answers cmd = if-Answers l (cmd.resource_id == 0) _ _ ok_no_data-Answers (
      >>=-Answers l _ _ (gets-Answers l (λ g. g)) (λ g.
        >>-Answers l _ _
          (flush_if_shown-Answers cmd.resource_id g.scanout_resource_id g.scanout_surface_id)
          (>>=-Answers l _ _ (gets-Answers l (λ g. g)) (λ g'.
            >>-Answers l _ _
              (flush_if_shown-Answers cmd.resource_id g'.cursor_resource_id g'.cursor_surface_id)
              ok_no_data-Answers))))

  pub released-Answers :
      (taken : Option ℕ) (f : VirtioGpu l → VirtioGpu l)
      → Answers l (IsSendable l) (
          for_some taken (λ surface_id. display_do (d.release_surface surface_id))
          >> (modify f >> pure ok_no_data))
  released-Answers taken f =
      >>-Answers l (for_some taken (λ surface_id. display_do (d.release_surface surface_id)))
        (modify f >> pure ok_no_data)
        (for_some-Answers l taken _
          (λ surface_id. display_do-Answers l (d.release_surface surface_id)))
        (record { answer = λ g. tt })

  disable_scanout-Answers : Answers l (IsSendable l) (disable_scanout {l = l})
  unfolding disable_scanout
  disable_scanout-Answers = record {
    answer = λ g.
        (released-Answers g.scanout_surface_id
            (λ g. record g { scanout_resource_id = none })).answer
          (record g { scanout_surface_id = none });
  }

  -- A surface is created, and its id is stored.
  pub stored-Answers :
      (f : Call d.State d.Error ℕ) (k : ℕ → VirtioGpu l → VirtioGpu l)
      → Answers l Any (display_try f >>= λ a. modify (k a))
  stored-Answers f k =
      >>=-Answers l (display_try f) (λ a. modify (k a)) (display_try-Answers l f)
        (λ a. modify-Answers l (k a))

  create_scanout_surface-Answers :
      (surface : Option ℕ) → Answers l Any (create_scanout_surface surface)
  unfolding create_scanout_surface
  create_scanout_surface-Answers (some a) = pure-Answers l tt tt
  create_scanout_surface-Answers none = record {
    answer = λ g.
        (stored-Answers (d.create_surface none g.display_width g.display_height)
            (λ a g. record g { scanout_surface_id = some a })).answer
          g;
  }

  known_scanout-Fits :
      (id : ℕ) (g : VirtioGpu l) (found : Option VirtioGpuResource)
      → Table.get id g.resources ≡ found
      → Fits IsShort (show_scanout {l = l} id g).0
  unfolding show_scanout
  known_scanout-Fits id g none e = rw (show_scanout, e) tt
  known_scanout-Fits id g (some res) e =
      rw (show_scanout, e)
        ((>>-Answers l (create_scanout_surface g.scanout_surface_id) (pure ok_no_data)
            (create_scanout_surface-Answers g.scanout_surface_id) ok_no_data-Answers).answer
          (record g { scanout_resource_id = non_zero id }))

  show_scanout-Answers : (id : ℕ) → Answers l (IsSendable l) (show_scanout id)
  show_scanout-Answers id = record {
    answer = λ g. known_scanout-Fits id g (Table.get id g.resources) refl;
  }

  pub cmd_set_scanout-Answers :
      (cmd : VirtioGpuSetScanout) → Answers l (IsSendable l) (cmd_set_scanout cmd)
  unfolding cmd_set_scanout
  cmd_set_scanout-Answers cmd =
      if-Answers l (cmd.resource_id == 0) _ _ disable_scanout-Answers
        (show_scanout-Answers cmd.resource_id)
