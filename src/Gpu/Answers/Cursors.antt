-- ===== src/Gpu/Answers/Cursors.antt =====
-- src/virtio_gpu.rs: what the methods of the cursor answer.
use vhost_gpu_backend.Gpu.Answers.Screens.{
  ok_no_data-Answers, transfer_read_into-Answers, released-Answers, stored-Answers,
}
use vhost_gpu_backend.Protocol.Structs.{VirtioGpuUpdateCursor}
use vhost_gpu_backend.Prelude.{refl, ℕ, ◌≡◌, Option, none, some, ◌==◌}
use vhost_gpu_backend.Prelude.Table
use vhost_gpu_backend.Libraries.{Libraries}
use vhost_gpu_backend.Gpu.State.{
  non_zero, VirtioGpu, VirtioGpuResource, Response, Action, ◌>>=◌, ◌>>◌, gets, display_do, unwrap,
  dimensions,
}
use vhost_gpu_backend.Gpu.Answers.{
  for_some-Answers, >>-Answers, IsSendable, Any, Answers, Fits, IsShort, >>=-Answers, pure-Answers,
  gets-Answers, unwrap-Answers, display_do-Answers, display_partial-Answers, if-Answers,
}
use vhost_gpu_backend.Gpu.Scanout.{import_to_display}
use vhost_gpu_backend.Gpu.Cursor.{
  show_cursor, copy_cursor, hide_cursor, create_cursor_surface, cmd_move_curosr, cmd_update_cursor,
}

module _ {l : Libraries} where
  open l use {rutabaga as r, display as d}

  hide_cursor-Answers : Answers l (IsSendable l) (hide_cursor {l = l})
  unfolding hide_cursor
  hide_cursor-Answers = record {
    answer = λ g.
        (released-Answers g.cursor_surface_id (λ g. record g { cursor_resource_id = none })).answer
          (record g { cursor_surface_id = none });
  }

  create_cursor_surface-Answers :
      (surface : Option ℕ) (size : ℕ × ℕ) → Answers l Any (create_cursor_surface surface size)
  unfolding create_cursor_surface
  create_cursor_surface-Answers (some a) size = pure-Answers l tt tt
  create_cursor_surface-Answers none (width, height) = record {
    answer = λ g.
        (stored-Answers (d.create_surface g.scanout_surface_id width height)
            (λ a g. record g { cursor_surface_id = some a })).answer
          g;
  }

  copy_cursor-Answers :
      (id : ℕ) (size : ℕ × ℕ) (surface_id : ℕ)
      → Answers l (IsSendable l) (copy_cursor id size surface_id)
  unfolding copy_cursor
  copy_cursor-Answers id (width, height) surface_id =
      >>=-Answers l _ _ (display_partial-Answers l (d.framebuffer surface_id)) (λ found.
        >>-Answers l _ _
          (for_some-Answers l found _ (λ fb.
            transfer_read_into-Answers id
              (record (r.new_2d 0 0 width height) { stride = d.stride fb }) fb))
          (>>-Answers l _ _ (display_do-Answers l (d.flip surface_id)) ok_no_data-Answers))

  -- The cursor is placed and drawn, once it has a surface.
  abbrev placed : ℕ → ℕ × ℕ → ℕ → ℕ → Action l (Response l)
  placed id size x y = do
    made ← gets (λ g. g.cursor_surface_id)
    surface_id ← unwrap made
    display_do (d.set_position surface_id x y)
    copy_cursor id size surface_id

  shown-Answers : (id : ℕ) (size : ℕ × ℕ) (x y : ℕ) → Answers l (IsSendable l) (placed id size x y)
  shown-Answers id size x y = >>=-Answers l _ _ (gets-Answers l (λ g. g.cursor_surface_id)) (λ made.
      >>=-Answers l _ _ (unwrap-Answers l made) (λ surface_id.
        >>-Answers l _ _ (display_do-Answers l (d.set_position surface_id x y))
          (copy_cursor-Answers id size surface_id)))

  known_cursor-Fits :
      (id x y : ℕ) (g : VirtioGpu l) (found : Option VirtioGpuResource)
      → Table.get id g.resources ≡ found
      → Fits IsShort (show_cursor {l = l} id x y g).0
  unfolding show_cursor import_to_display
  known_cursor-Fits id x y g none e = rw (show_cursor, e) tt
  known_cursor-Fits id x y g (some res) e =
      rw (show_cursor, e)
        ((>>-Answers l (create_cursor_surface g.cursor_surface_id (dimensions res))
            (placed id (dimensions res) x y)
            (create_cursor_surface-Answers g.cursor_surface_id (dimensions res))
            (shown-Answers id (dimensions res) x y)).answer
          (record g { cursor_resource_id = non_zero id }))

  show_cursor-Answers : (id x y : ℕ) → Answers l (IsSendable l) (show_cursor id x y)
  show_cursor-Answers id x y = record {
    answer = λ g. known_cursor-Fits id x y g (Table.get id g.resources) refl;
  }

  pub cmd_update_cursor-Answers :
      (cmd : VirtioGpuUpdateCursor) → Answers l (IsSendable l) (cmd_update_cursor cmd)
  unfolding cmd_update_cursor
  cmd_update_cursor-Answers cmd =
      if-Answers l (cmd.resource_id == 0) _ _ hide_cursor-Answers
        (show_cursor-Answers cmd.resource_id cmd.pos.x cmd.pos.y)

  pub cmd_move_curosr-Answers :
      (cmd : VirtioGpuUpdateCursor) → Answers l (IsSendable l) (cmd_move_curosr cmd)
  unfolding cmd_move_curosr
  cmd_move_curosr-Answers cmd = >>=-Answers l _ _ (gets-Answers l (λ g. g)) (λ g.
      >>-Answers l _ _
        (for_some-Answers l g.cursor_surface_id _
          (λ c. for_some-Answers l g.scanout_surface_id _ (λ s. record { answer = λ g. tt })))
        ok_no_data-Answers)
