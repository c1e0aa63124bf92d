-- ===== src/Gpu/Cursor.antt =====
-- src/virtio_gpu.rs: the methods of the cursor queue.
use vhost_gpu_backend.Prelude.{ℕ, Option, none, some, ◌==◌, if◌then◌else◌}
use vhost_gpu_backend.Prelude.Table
use vhost_gpu_backend.Libraries.{Libraries}
use vhost_gpu_backend.Protocol.Structs.{VirtioGpuUpdateCursor}
use vhost_gpu_backend.Protocol.Response.{ok_no_data, err_invalid_resource_id}
use vhost_gpu_backend.Gpu.State.{
  Response, Action, ◌>>=◌, ◌>>◌, pure, gets, modify, ok_or, unwrap, display_partial, display_do,
  display_try, dimensions, non_zero,
}
use vhost_gpu_backend.Gpu.Scanout.{skip, for_some, import_to_display, transfer_read_into}

module _ {l : Libraries} where
  open l use {rutabaga as r, display as d}

  unfoldable pub cmd_move_curosr : VirtioGpuUpdateCursor → Action l (Response l)
  cmd_move_curosr cmd = do
    g ← gets (λ g. g)
    for_some g.cursor_surface_id (λ cursor_surface_id.
        for_some g.scanout_surface_id (λ scanout_surface_id. do
          display_do (d.set_position cursor_surface_id cmd.pos.x cmd.pos.y)
          display_do (d.commit scanout_surface_id)))
    pure ok_no_data

  -- `cmd_update_cursor` on resource 0: the cursor is hidden.
  unfoldable pub hide_cursor : Action l (Response l)
  hide_cursor = do
    taken ← gets (λ g. g.cursor_surface_id)
    modify (λ g. record g { cursor_surface_id = none })
    for_some taken (λ surface_id. display_do (d.release_surface surface_id))
    modify (λ g. record g { cursor_resource_id = none })
    pure ok_no_data

  -- The surface of the cursor, which is made the first time, below that of the screen.
  unfoldable pub create_cursor_surface : Option ℕ → ℕ × ℕ → Action l (Unit {0})
  create_cursor_surface (some _) size = skip
  create_cursor_surface none (width, height) = do
    parent ← gets (λ g. g.scanout_surface_id)
    surface_id ← display_try (d.create_surface parent width height)
    modify (λ g. record g { cursor_surface_id = some surface_id })

  -- The copy of the pixels of the cursor, where the import is not done.
  unfoldable pub copy_cursor : ℕ → ℕ × ℕ → ℕ → Action l (Response l)
  unfolding transfer_read_into
  copy_cursor resource_id (width, height) surface_id = do
    found ← display_partial (d.framebuffer surface_id)
    for_some found (λ fb.
        let transfer = r.new_2d 0 0 width height in
        transfer_read_into resource_id (record transfer { stride = d.stride fb }) fb)
    display_do (d.flip surface_id)
    pure ok_no_data

  -- `cmd_update_cursor` on another resource.
  unfoldable pub show_cursor : ℕ → ℕ → ℕ → Action l (Response l)
  unfolding create_cursor_surface copy_cursor import_to_display
  show_cursor resource_id x y = do
    found ← gets (λ g. Table.get resource_id g.resources)
    resource ← ok_or found err_invalid_resource_id
    modify (λ g. record g { cursor_resource_id = non_zero resource_id })
    surface ← gets (λ g. g.cursor_surface_id)
    create_cursor_surface surface (dimensions resource)
    made ← gets (λ g. g.cursor_surface_id)
    cursor_surface_id ← unwrap made
    display_do (d.set_position cursor_surface_id x y)
    imported ← import_to_display resource_id
    elim imported [
      | some import_id ↦ display_do (d.flip_to cursor_surface_id import_id) >> pure ok_no_data
      | none ↦ copy_cursor resource_id (dimensions resource) cursor_surface_id
    ]

  unfoldable pub cmd_update_cursor : VirtioGpuUpdateCursor → Action l (Response l)
  unfolding hide_cursor show_cursor
  cmd_update_cursor cmd =
      if cmd.resource_id == 0 then hide_cursor else show_cursor cmd.resource_id cmd.pos.x cmd.pos.y
