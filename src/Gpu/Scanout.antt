-- ===== src/Gpu/Scanout.antt =====
-- src/virtio_gpu.rs: the methods that put resources on the screen.
use vhost_gpu_backend.Prelude.{ℕ, Bool, false, Option, none, some, ◌==◌, if◌then◌else◌}
use vhost_gpu_backend.Prelude.Table
use vhost_gpu_backend.Libraries.{Libraries, Transfer3d}
use vhost_gpu_backend.Protocol.Structs.{VirtioGpuResourceFlush, VirtioGpuSetScanout}
use vhost_gpu_backend.Protocol.Response.{ok_no_data, err_unspec, err_invalid_resource_id}
use vhost_gpu_backend.Gpu.State.{
  Response, Action, ◌>>=◌, ◌>>◌, pure, raise, gets, modify, ok_or, rutabaga_call, display_partial,
  display_do, display_try, non_zero,
}

module _ {l : Libraries} where
  open l use {rutabaga as r, display as d}

  abbrev pub skip : Action l (Unit {0})
  skip = pure tt

  -- `if let Some(x) = o { f(x) }`
  abbrev pub for_some : {A : Type 0} → Option A → (A → Action l (Unit {0})) → Action l (Unit {0})
  for_some none f = skip
  for_some (some a) f = f a

  unfoldable pub process_display : Action l Bool
  process_display = do
    display_do d.dispatch_events
    gets (λ g. elim g.scanout_surface_id [
      | none ↦ false
      | some surface_id ↦ d.close_requested surface_id g.display
    ])

  unfoldable pub import_to_display : ℕ → Action l (Option ℕ)
  import_to_display resource_id = pure none

  -- `self.rutabaga.transfer_read(0, id, transfer, Some(fb.as_volatile_slice()))?`: the renderer writes
  -- into the framebuffer, whether or not it then reports an error.
  unfoldable pub transfer_read_into : ℕ → Transfer3d → d.Framebuffer → Action l (Unit {0})
  transfer_read_into resource_id transfer fb = do
    pixels ← gets (λ g.
        let (_, _, written) =
          r.transfer_read 0 resource_id transfer (some (d.as_volatile_slice fb)) g.rutabaga in
        written)
    display_do (d.store (d.as_volatile_slice fb) pixels)
    rutabaga_call (λ s.
        let (ended, s', _) =
          r.transfer_read 0 resource_id transfer (some (d.as_volatile_slice fb)) s in
        (ended, s'))

  -- The rest of the fallback, once the display has answered.
  abbrev pub copy_to_framebuffer : ℕ → ℕ → ℕ → ℕ → Option d.Framebuffer → Action l (Response l)
  copy_to_framebuffer resource_id surface_id width height found = do
    fb ← ok_or found err_unspec
    let transfer = r.new_2d 0 0 width height
    transfer_read_into resource_id (record transfer { stride = d.stride fb }) fb
    display_do (d.flip surface_id)
    pure ok_no_data

  -- The fallback of `flush_resource_to_surface`: a copy through the framebuffer of the surface.
  unfoldable pub copy_to_surface : ℕ → ℕ → Action l (Response l)
  copy_to_surface resource_id surface_id = do
    g ← gets (λ g. g)
    found ← display_partial (d.framebuffer_region surface_id 0 0 g.display_width g.display_height)
    copy_to_framebuffer resource_id surface_id g.display_width g.display_height found

  unfoldable pub flush_resource_to_surface : ℕ → ℕ → Action l (Response l)
  unfolding import_to_display copy_to_surface
  flush_resource_to_surface resource_id surface_id = do
    imported ← import_to_display resource_id
    known ← gets (λ g. Table.contains_key resource_id g.resources)
    busy ← gets (λ g. d.next_buffer_in_use surface_id g.display)
    elim imported [
      | some import_id ↦ display_do (d.flip_to surface_id import_id) >> pure ok_no_data
      | none ↦
          if known
          then if busy then pure ok_no_data else copy_to_surface resource_id surface_id
          else raise err_invalid_resource_id
    ]

  -- One of the two blocks of `cmd_flush_resource`: flush if this resource is shown on this surface.
  unfoldable pub flush_if_shown : ℕ → Option ℕ → Option ℕ → Action l (Unit {0})
  unfolding flush_resource_to_surface
  flush_if_shown resource_id (some shown) (some surface_id) =
      if shown == resource_id
      then (flush_resource_to_surface resource_id surface_id >>= λ _. skip)
      else skip
  flush_if_shown resource_id _ _ = skip

  -- The blocks behind the test for resource 0.
  unfoldable pub flush_shown : ℕ → Action l (Response l)
  unfolding flush_if_shown
  flush_shown resource_id = do
    g ← gets (λ g. g)
    flush_if_shown resource_id g.scanout_resource_id g.scanout_surface_id
    g' ← gets (λ g. g)
    flush_if_shown resource_id g'.cursor_resource_id g'.cursor_surface_id
    pure ok_no_data

  unfoldable pub cmd_flush_resource : VirtioGpuResourceFlush → Action l (Response l)
  unfolding flush_shown
  cmd_flush_resource cmd =
      if cmd.resource_id == 0 then pure ok_no_data else flush_shown cmd.resource_id

  -- `cmd_set_scanout` on resource 0: the screen is switched off.
  unfoldable pub disable_scanout : Action l (Response l)
  disable_scanout = do
    taken ← gets (λ g. g.scanout_surface_id)
    modify (λ g. record g { scanout_surface_id = none })
    for_some taken (λ surface_id. display_do (d.release_surface surface_id))
    modify (λ g. record g { scanout_resource_id = none })
    pure ok_no_data

  -- The surface of the screen, which is made the first time.
  unfoldable pub create_scanout_surface : Option ℕ → Action l (Unit {0})
  create_scanout_surface (some _) = skip
  create_scanout_surface none = do
    g ← gets (λ g. g)
    surface_id ← display_try (d.create_surface none g.display_width g.display_height)
    modify (λ g. record g { scanout_surface_id = some surface_id })

  -- `cmd_set_scanout` on another resource.
  unfoldable pub show_scanout : ℕ → Action l (Response l)
  unfolding create_scanout_surface
  show_scanout resource_id = do
    found ← gets (λ g. Table.get resource_id g.resources)
    _ ← ok_or found err_invalid_resource_id
    modify (λ g. record g { scanout_resource_id = non_zero resource_id })
    surface ← gets (λ g. g.scanout_surface_id)
    create_scanout_surface surface
    pure ok_no_data

  unfoldable pub cmd_set_scanout : VirtioGpuSetScanout → Action l (Response l)
  unfolding disable_scanout show_scanout
  cmd_set_scanout cmd =
      if cmd.resource_id == 0 then disable_scanout else show_scanout cmd.resource_id
