-- ===== src/Gpu/Behaviour/Pointers.antt =====
-- The cursor: when it is hidden, and which changes are refused.
use vhost_gpu_backend.Gpu.Invariant.{is_at}
use vhost_gpu_backend.Protocol.Response.{err_invalid_resource_id, ok_no_data}
use vhost_gpu_backend.Protocol.Structs.{VirtioGpuUpdateCursor}
use vhost_gpu_backend.Gpu.Cursor.{cmd_update_cursor, show_cursor, hide_cursor}
use vhost_gpu_backend.Libraries.{Libraries, DisplayLaws}
use vhost_gpu_backend.Prelude.{
  if◌then◌else◌, refl, arith, ==-ne, ℕ, Option, ◌≡◌, ◌≢◌, none, some, false,
}
use vhost_gpu_backend.Prelude.Table
use vhost_gpu_backend.Gpu.State.{Response, Outcome, VirtioGpu, done, raised}

module _ {l : Libraries} (dl : DisplayLaws l.display) where
  open l use {display as d}

  -- The device after the cursor is hidden: it differs from the one before in the resource and the
  -- surface of the cursor, which are gone, and in the display, which has released that surface.
  abbrev pub IsHidden : VirtioGpu l → Outcome (Response l) (Response l) × VirtioGpu l → Type 0
  IsHidden g run =
      (run.0 ≡ done ok_no_data)
      × (run.1 ≡ record g {
        display = run.1.display;
        cursor_resource_id = none;
        cursor_surface_id = none;
      })
      × ((j : ℕ)
          → d.is_live run.1.display j
            ≡ (if is_at j g.cursor_surface_id then false else d.is_live g.display j))

  hidden :
      (taken : Option ℕ) (g : VirtioGpu l)
      → g.cursor_surface_id ≡ taken
      → IsHidden g (hide_cursor {l = l} g)
  unfolding hide_cursor
  hidden none g e = rw (hide_cursor, e) (refl, refl, λ j. refl)
  hidden (some a) g e = rw (hide_cursor, e) (refl, refl, dl.release_surface_lem a g.display)

  -- A cursor of resource 0 is hidden: the call succeeds, the device has neither resource nor
  -- surface of the cursor, and of the surfaces of the display exactly the one that it had is
  -- released. Nothing else of the device changes. The display satisfies its laws.
  pub cmd_update_cursor-IsHidden :
      (cmd : VirtioGpuUpdateCursor) (g : VirtioGpu l)
      → cmd.resource_id ≡ 0
      → IsHidden g (cmd_update_cursor {l = l} cmd g)
  unfolding cmd_update_cursor
  cmd_update_cursor-IsHidden cmd g zero =
      rw (cmd_update_cursor, zero) (hidden g.cursor_surface_id g refl)

module _ {l : Libraries} where
  cursor_unknown :
      (id x y : ℕ) (g : VirtioGpu l)
      → Table.get id g.resources ≡ none
      → show_cursor id x y g ≡ (raised err_invalid_resource_id, g)
  unfolding show_cursor
  cursor_unknown id x y g e = rw (show_cursor, e) refl

  pub cmd_update_cursor_unknown :
      (cmd : VirtioGpuUpdateCursor) (g : VirtioGpu l)
      → cmd.resource_id ≢ 0
      → Table.contains_key cmd.resource_id g.resources ≡ false
      → cmd_update_cursor cmd g ≡ (raised err_invalid_resource_id, g)
  unfolding cmd_update_cursor
  cmd_update_cursor_unknown cmd g h unknown =
      rw (cmd_update_cursor, ==-ne cmd.resource_id 0 h)
        (cursor_unknown cmd.resource_id cmd.pos.x cmd.pos.y g (ground arith))
