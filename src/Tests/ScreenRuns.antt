-- ===== src/Tests/ScreenRuns.antt =====
-- The theorems on the screen and the cursor of the device.

use vhost_gpu_backend.Gpu.Behaviour.Cursors.{cmd_update_cursor_done, IsPointing}
use vhost_gpu_backend.Gpu.Behaviour.Screens.Refused.{cmd_set_scanout_raised, HasNoSurface}
use vhost_gpu_backend.Gpu.Behaviour.Flushes.{cmd_flush_resource_unshown, cmd_resource_unref-flush}
use vhost_gpu_backend.Gpu.Behaviour.Pointers.{cmd_update_cursor-IsHidden, IsHidden}
use vhost_gpu_backend.Gpu.Behaviour.Screens.{
  cmd_set_scanout-IsOff, cmd_set_scanout_done, IsShown, IsOff,
}
use vhost_gpu_backend.Gpu.Behaviour.Cursors.Refused.{cmd_update_cursor_raised, HasGrown}
use vhost_gpu_backend.Protocol.Response.{display_err, err_invalid_resource_id, ok_no_data}
use vhost_gpu_backend.Prelude.{[], ◌∷◌, false, ◌⊎◌, true, arith, ◌≡◌, refl, some}
use vhost_gpu_backend.Prelude.Table
use vhost_gpu_backend.Gpu.State.{VirtioGpu, Response, done, raised}
use vhost_gpu_backend.Gpu.Commands.{forget_resource, cmd_resource_unref}
use vhost_gpu_backend.Gpu.Scanout.{
  transfer_read_into, import_to_display, create_scanout_surface, show_scanout, cmd_set_scanout,
  cmd_flush_resource,
}
use vhost_gpu_backend.Gpu.Cursor.{
  copy_cursor, create_cursor_surface, show_cursor, cmd_update_cursor,
}
use vhost_gpu_backend.Tests.Instance.{libraries}
use vhost_gpu_backend.Tests.Renderer.{renderer_laws}
use vhost_gpu_backend.Tests.Server.{server_laws}
use vhost_gpu_backend.Tests.Device.{
  scanout_cmd, flush_cmd, unref_cmd, cursor_cmd, with_resource, with_screen, released,
  with_resource-IsValid, with_screen-IsValid, with_cursor,
}

release_shown : cmd_resource_unref unref_cmd with_screen ≡ (done ok_no_data, released)
unfolding cmd_resource_unref forget_resource
release_shown = refl

cmd_resource_unref-flush_example :
    cmd_flush_resource (flush_cmd 7) released ≡ (raised err_invalid_resource_id, released)
cmd_resource_unref-flush_example =
    cmd_resource_unref-flush renderer_laws unref_cmd (flush_cmd 7) with_screen released ok_no_data 1
      with_screen-IsValid refl refl refl release_shown

cmd_flush_resource_unshown_example :
    cmd_flush_resource (flush_cmd 9) with_screen ≡ (done ok_no_data, with_screen)
cmd_flush_resource_unshown_example =
    cmd_flush_resource_unshown (flush_cmd 9) with_screen (λ e. cc) (λ e. cc)

cmd_set_scanout-IsOff_example :
    IsOff server_laws with_screen (cmd_set_scanout (scanout_cmd 0) with_screen)
cmd_set_scanout-IsOff_example = cmd_set_scanout-IsOff server_laws (scanout_cmd 0) with_screen refl

scanout_run : cmd_set_scanout (scanout_cmd 7) with_resource ≡ (done ok_no_data, with_screen)
unfolding cmd_set_scanout show_scanout create_scanout_surface
scanout_run = refl

cmd_set_scanout_done_example : IsShown server_laws 7 with_resource ok_no_data with_screen
cmd_set_scanout_done_example =
    cmd_set_scanout_done server_laws (scanout_cmd 7) with_resource with_screen ok_no_data
      with_resource-IsValid (λ e. omega (arith, e)) scanout_run

cmd_update_cursor-IsHidden_example :
    IsHidden server_laws with_cursor (cmd_update_cursor (cursor_cmd 0) with_cursor)
cmd_update_cursor-IsHidden_example =
    cmd_update_cursor-IsHidden server_laws (cursor_cmd 0) with_cursor refl

refused_run :
    cmd_set_scanout (scanout_cmd 9) with_screen ≡ (raised err_invalid_resource_id, with_screen)
unfolding cmd_set_scanout show_scanout
refused_run = refl

cmd_set_scanout_raised_example :
    ((◌≡◌ {A = Response libraries} err_invalid_resource_id err_invalid_resource_id)
      × (Table.contains_key 9 with_screen.resources ≡ false)
      × (with_screen ≡ with_screen))
    ⊎ ((Table.contains_key 9 with_screen.resources ≡ true)
        × HasNoSurface server_laws
            (record with_screen { scanout_resource_id = some 9 })
            err_invalid_resource_id
            with_screen)
cmd_set_scanout_raised_example =
    cmd_set_scanout_raised server_laws (scanout_cmd 9) with_screen with_screen
      err_invalid_resource_id (λ e. omega (arith, e)) refused_run

cursor_run : cmd_update_cursor (cursor_cmd 7) with_screen ≡ (done ok_no_data, with_cursor)
unfolding cmd_update_cursor show_cursor create_cursor_surface copy_cursor import_to_display
    transfer_read_into
cursor_run = refl

cmd_update_cursor_done_example : IsPointing server_laws 7 with_screen ok_no_data with_cursor
cmd_update_cursor_done_example =
    cmd_update_cursor_done server_laws (cursor_cmd 7) with_screen with_cursor ok_no_data
      with_screen-IsValid (λ e. omega (arith, e)) cursor_run

-- The display has no free id for a surface.
abbrev full : VirtioGpu libraries
full = record with_screen { display = (1, (1, (1920, 1080)) ∷ [], []) }

full_run :
    cmd_update_cursor (cursor_cmd 7) full
    ≡ (raised (display_err 0), record full { cursor_resource_id = some 7 })
unfolding cmd_update_cursor show_cursor create_cursor_surface
full_run = refl

cmd_update_cursor_raised_example :
    ((◌≡◌ {A = Response libraries} (display_err 0) err_invalid_resource_id)
      × (Table.contains_key 7 full.resources ≡ false)
      × (record full { cursor_resource_id = some 7 } ≡ full))
    ⊎ ((Table.contains_key 7 full.resources ≡ true)
        × HasGrown
            (record full { cursor_resource_id = some 7 })
            (record full { cursor_resource_id = some 7 }))
cmd_update_cursor_raised_example =
    cmd_update_cursor_raised server_laws (cursor_cmd 7) full
      (record full { cursor_resource_id = some 7 }) (display_err 0) (λ e. omega (arith, e)) full_run
