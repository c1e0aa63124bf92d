-- ===== src/Gpu/Methods/Drawing.antt =====
-- The methods that change neither the resources nor what the screen and the cursor show.
use vhost_gpu_backend.Protocol.Structs.{VirtioGpuCmdGetEdid, VirtioGpuResourceAssignUuid}
use vhost_gpu_backend.Gpu.Frames.Drawing.{
  cmd_move_curosr-OnlyDraws, cmd_flush_resource-OnlyDraws, flush_resource_to_surface-OnlyDraws,
  process_display-OnlyDraws, >>-OnlyDraws,
}
use vhost_gpu_backend.Protocol.Response.{
  ok_capset, ok_capset_info, err_invalid_resource_id, ok_no_data,
}
use vhost_gpu_backend.Gpu.Edid.{write_at}
use vhost_gpu_backend.Gpu.Frames.{
  rutabaga_partial-OnlyDraws, drawn, raise-OnlyDraws, Draws-self, if-OnlyDraws, gets-OnlyDraws,
  rutabaga_call-OnlyDraws, pure-OnlyDraws, >>=-OnlyDraws, OnlyDraws,
}
use vhost_gpu_backend.Gpu.Commands.{
  force_ctx_0, fence_poll, create_fence, cmd_transfer_to_host_3d, cmd_transfer_to_host_2d,
  cmd_transfer_from_host_3d, cmd_submit_3d, cmd_resource_detach_backing,
  cmd_resource_attach_backing, cmd_get_edid, cmd_get_display_info, cmd_get_capset_info,
  cmd_get_capset, cmd_ctx_detach_resource, cmd_ctx_attach_resource, cmd_context_destroy,
  to_be_bytes, cmd_context_create, assigned_uuid, cmd_resource_assign_uuid,
}
use vhost_gpu_backend.Prelude.{ℕ, Bool, true, false, ◌≡◌, refl}
use vhost_gpu_backend.Prelude.Table
use vhost_gpu_backend.Libraries.{Libraries, DisplayLaws, Call}
use vhost_gpu_backend.Gpu.State.{Response, Action, ◌>>◌, pure, rutabaga_call}
use vhost_gpu_backend.Gpu.Methods.{
  fences, Method, call, answered, response, close_requested, call_get_display_info,
  call_resource_create_2d, call_resource_create_3d, call_resource_unref, call_context_create,
  call_context_destroy, call_get_edid, call_get_capset_info, call_get_capset,
  call_flush_resource_to_surface, call_flush_resource, call_set_scanout,
  call_resource_attach_backing, call_resource_detach_backing, call_ctx_attach_resource,
  call_ctx_detach_resource, call_submit_3d, call_transfer_to_host_2d, call_transfer_to_host_3d,
  call_resource_assign_uuid, call_transfer_from_host_3d, call_move_curosr, call_update_cursor,
  call_create_fence, call_process_display, call_fence_poll, call_force_ctx_0,
}

module _ {l : Libraries} where
  -- All methods but those that create or release a resource and those that set the screen or the cursor.
  abbrev pub draws_only : Method l → Bool
  draws_only (call_resource_create_2d _) = false
  draws_only (call_resource_create_3d _) = false
  draws_only (call_resource_unref _) = false
  draws_only (call_set_scanout _) = false
  draws_only (call_update_cursor _) = false
  draws_only _ = true

false-ne-true : false ≡ true → ⊥
false-ne-true e = cc

module _ {l : Libraries} where
  open l use {rutabaga as r}

  answered-OnlyDraws : (m : Action l (Response l)) → OnlyDraws l m → OnlyDraws l (answered m)
  answered-OnlyDraws m k = >>=-OnlyDraws l m _ k (λ x. pure-OnlyDraws l (response x))

  -- `self.rutabaga.call(..)?; Ok(OkNoData)`
  then_ok-OnlyDraws :
      (f : Call r.State r.Error (Unit {0}))
      → OnlyDraws l {A = Response l} (rutabaga_call {l = l} f >> pure ok_no_data)
  then_ok-OnlyDraws f =
      >>-OnlyDraws l _ _ (rutabaga_call-OnlyDraws l f) (pure-OnlyDraws l ok_no_data)

  cmd_get_edid-OnlyDraws : (cmd : VirtioGpuCmdGetEdid) → OnlyDraws l (cmd_get_edid {l = l} cmd)
  unfolding cmd_get_edid write_at
  cmd_get_edid-OnlyDraws cmd = record { draws = λ g. Draws-self g }

  assigned_uuid-OnlyDraws : (id : ℕ) → OnlyDraws l (assigned_uuid {l = l} id)
  unfolding assigned_uuid write_at to_be_bytes
  assigned_uuid-OnlyDraws id = record { draws = λ g. Draws-self g }

  cmd_resource_assign_uuid-OnlyDraws :
      (cmd : VirtioGpuResourceAssignUuid) → OnlyDraws l (cmd_resource_assign_uuid {l = l} cmd)
  unfolding cmd_resource_assign_uuid
  cmd_resource_assign_uuid-OnlyDraws cmd =
      >>=-OnlyDraws l _ _ (gets-OnlyDraws l (λ g. Table.contains_key cmd.resource_id g.resources))
        (λ known.
          if-OnlyDraws l known _ _ (assigned_uuid-OnlyDraws cmd.resource_id)
            (raise-OnlyDraws l err_invalid_resource_id))

module _ {l : Libraries} (dl : DisplayLaws l.display) where
  -- A method that neither creates nor releases a resource and does not set the screen or the
  -- cursor, whatever it answers, keeps the size of the display, the resources and surfaces of the
  -- screen and the cursor, the table of resources, and the set of surfaces that live. The display
  -- satisfies its laws.
  pub call-OnlyDraws : (m : Method l) → draws_only m ≡ true → OnlyDraws l (call m)
  unfolding call assigned_uuid cmd_context_create cmd_context_destroy cmd_ctx_attach_resource
      cmd_ctx_detach_resource cmd_get_capset cmd_get_capset_info cmd_get_display_info cmd_get_edid
      cmd_resource_assign_uuid cmd_resource_attach_backing cmd_resource_detach_backing cmd_submit_3d
      cmd_transfer_from_host_3d cmd_transfer_to_host_2d cmd_transfer_to_host_3d create_fence
      fence_poll force_ctx_0 to_be_bytes write_at
  call-OnlyDraws call_process_display e =
      >>=-OnlyDraws l _ _ (process_display-OnlyDraws dl) (λ b. pure-OnlyDraws l (close_requested b))
  call-OnlyDraws call_fence_poll e =
      >>=-OnlyDraws l _ _ (rutabaga_partial-OnlyDraws l l.rutabaga.poll)
        (λ f. pure-OnlyDraws l (fences f))
  call-OnlyDraws call_force_ctx_0 e = record {
    draws = λ g. drawn g g.display (l.rutabaga.force_ctx_0 g.rutabaga) (λ j. refl);
  }
  call-OnlyDraws (call_get_display_info cmd) e = answered-OnlyDraws _ (gets-OnlyDraws l _)
  call-OnlyDraws (call_resource_create_2d cmd) e = absurd (false-ne-true e)
  call-OnlyDraws (call_resource_create_3d cmd) e = absurd (false-ne-true e)
  call-OnlyDraws (call_resource_unref cmd) e = absurd (false-ne-true e)
  call-OnlyDraws (call_context_create cmd) e = answered-OnlyDraws _ (then_ok-OnlyDraws _)
  call-OnlyDraws (call_context_destroy cmd) e = answered-OnlyDraws _ (then_ok-OnlyDraws _)
  call-OnlyDraws (call_get_edid cmd) e = answered-OnlyDraws _ (cmd_get_edid-OnlyDraws cmd)
  call-OnlyDraws (call_get_capset_info cmd) e = answered-OnlyDraws _ (
      >>=-OnlyDraws l _ _ (rutabaga_call-OnlyDraws l _)
        (λ (i, v, s). pure-OnlyDraws l (ok_capset_info i v s)))
  call-OnlyDraws (call_get_capset cmd) e =
      answered-OnlyDraws _
        (>>=-OnlyDraws l _ _ (rutabaga_call-OnlyDraws l _) (λ c. pure-OnlyDraws l (ok_capset c)))
  call-OnlyDraws (call_flush_resource_to_surface cmd arg) e =
      answered-OnlyDraws _ (flush_resource_to_surface-OnlyDraws dl cmd arg)
  call-OnlyDraws (call_flush_resource cmd) e =
      answered-OnlyDraws _ (cmd_flush_resource-OnlyDraws dl cmd)
  call-OnlyDraws (call_set_scanout cmd) e = absurd (false-ne-true e)
  call-OnlyDraws (call_resource_attach_backing cmd arg) e =
      answered-OnlyDraws _ (then_ok-OnlyDraws _)
  call-OnlyDraws (call_resource_detach_backing cmd) e = answered-OnlyDraws _ (then_ok-OnlyDraws _)
  call-OnlyDraws (call_ctx_attach_resource cmd) e = answered-OnlyDraws _ (then_ok-OnlyDraws _)
  call-OnlyDraws (call_ctx_detach_resource cmd) e = answered-OnlyDraws _ (then_ok-OnlyDraws _)
  call-OnlyDraws (call_submit_3d cmd arg) e = answered-OnlyDraws _ (then_ok-OnlyDraws _)
  call-OnlyDraws (call_transfer_to_host_2d cmd) e = answered-OnlyDraws _ (then_ok-OnlyDraws _)
  call-OnlyDraws (call_transfer_to_host_3d cmd) e = answered-OnlyDraws _ (then_ok-OnlyDraws _)
  call-OnlyDraws (call_resource_assign_uuid cmd) e =
      answered-OnlyDraws _ (cmd_resource_assign_uuid-OnlyDraws cmd)
  call-OnlyDraws (call_transfer_from_host_3d cmd arg) e = answered-OnlyDraws _ (then_ok-OnlyDraws _)
  call-OnlyDraws (call_move_curosr cmd) e = answered-OnlyDraws _ (cmd_move_curosr-OnlyDraws dl cmd)
  call-OnlyDraws (call_update_cursor cmd) e = absurd (false-ne-true e)
  call-OnlyDraws (call_create_fence cmd) e = answered-OnlyDraws _ (then_ok-OnlyDraws _)
