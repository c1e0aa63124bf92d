-- ===== src/Gpu/Methods.antt =====
-- src/virtio_gpu.rs: the public methods of `VirtioGpu` as one type of calls, and the states of the
-- device that a sequence of calls reaches.
pub mod Safety
pub mod Drawing
pub mod Answers
use vhost_gpu_backend.Prelude.{ℕ, Bool, List, Option, ◌≡◌}
use vhost_gpu_backend.Libraries.{Libraries, RutabagaIovec}
use vhost_gpu_backend.Protocol.Structs.{
  VirtioGpuCmdGetEdid, VirtioGpuCmdSubmit, VirtioGpuCtrlHdr, VirtioGpuCtxCreate,
  VirtioGpuCtxDestroy, VirtioGpuCtxResource, VirtioGpuGetCapset, VirtioGpuGetCapsetInfo,
  VirtioGpuResourceAssignUuid, VirtioGpuResourceAttachBacking, VirtioGpuResourceCreate2d,
  VirtioGpuResourceCreate3d, VirtioGpuResourceDetachBacking, VirtioGpuResourceFlush,
  VirtioGpuResourceUnref, VirtioGpuSetScanout, VirtioGpuTransferHost3d, VirtioGpuTransferToHost2d,
  VirtioGpuUpdateCursor,
}
use vhost_gpu_backend.Gpu.State.{VirtioGpu, GpuParameter, Response, Action, ◌>>=◌, ◌>>◌, pure, done}
use vhost_gpu_backend.Gpu.Commands.{
  cmd_context_create, cmd_context_destroy, cmd_ctx_attach_resource, cmd_ctx_detach_resource,
  cmd_get_capset, cmd_get_capset_info, cmd_get_display_info, cmd_get_edid, cmd_resource_assign_uuid,
  cmd_resource_attach_backing, cmd_resource_create_2d, cmd_resource_create_3d,
  cmd_resource_detach_backing, cmd_resource_unref, cmd_submit_3d, cmd_transfer_from_host_3d,
  cmd_transfer_to_host_2d, cmd_transfer_to_host_3d, create_fence, fence_poll, force_ctx_0,
}
use vhost_gpu_backend.Gpu.Scanout.{
  cmd_flush_resource, cmd_set_scanout, flush_resource_to_surface, process_display,
}
use vhost_gpu_backend.Gpu.Cursor.{cmd_move_curosr, cmd_update_cursor}
use vhost_gpu_backend.Gpu.New.{new}

pub data Method (l : Libraries) : Type 0 where
  call_process_display : Method l
  call_fence_poll : Method l
  call_force_ctx_0 : Method l
  call_get_display_info : VirtioGpuCtrlHdr → Method l
  call_resource_create_2d : VirtioGpuResourceCreate2d → Method l
  call_resource_create_3d : VirtioGpuResourceCreate3d → Method l
  call_resource_unref : VirtioGpuResourceUnref → Method l
  call_context_create : VirtioGpuCtxCreate → Method l
  call_context_destroy : VirtioGpuCtxDestroy → Method l
  call_get_edid : VirtioGpuCmdGetEdid → Method l
  call_get_capset_info : VirtioGpuGetCapsetInfo → Method l
  call_get_capset : VirtioGpuGetCapset → Method l
  call_flush_resource_to_surface : ℕ → ℕ → Method l
  call_flush_resource : VirtioGpuResourceFlush → Method l
  call_set_scanout : VirtioGpuSetScanout → Method l
  call_resource_attach_backing : VirtioGpuResourceAttachBacking → List RutabagaIovec → Method l
  call_resource_detach_backing : VirtioGpuResourceDetachBacking → Method l
  call_ctx_attach_resource : VirtioGpuCtxResource → Method l
  call_ctx_detach_resource : VirtioGpuCtxResource → Method l
  call_submit_3d : VirtioGpuCmdSubmit → List ℕ → Method l
  call_transfer_to_host_2d : VirtioGpuTransferToHost2d → Method l
  call_transfer_to_host_3d : VirtioGpuTransferHost3d → Method l
  call_resource_assign_uuid : VirtioGpuResourceAssignUuid → Method l
  call_transfer_from_host_3d : VirtioGpuTransferHost3d → Option l.Slice → Method l
  call_move_curosr : VirtioGpuUpdateCursor → Method l
  call_update_cursor : VirtioGpuUpdateCursor → Method l
  call_create_fence : l.rutabaga.FenceData → Method l

-- What a call returns.
pub data Answer (l : Libraries) : Type 0 where
  response : Response l → Answer l
  close_requested : Bool → Answer l
  fences : List l.rutabaga.FenceData → Answer l
  nothing : Answer l

module _ {l : Libraries} where
  abbrev answered : Action l (Response l) → Action l (Answer l)
  answered m = m >>= λ r. pure (response r)

  unfoldable pub call : Method l → Action l (Answer l)
  call call_process_display = process_display >>= λ b. pure (close_requested b)
  call call_fence_poll = fence_poll >>= λ f. pure (fences f)
  call call_force_ctx_0 = force_ctx_0 >> pure nothing
  call (call_get_display_info cmd) = answered (cmd_get_display_info cmd)
  call (call_resource_create_2d cmd) = answered (cmd_resource_create_2d cmd)
  call (call_resource_create_3d cmd) = answered (cmd_resource_create_3d cmd)
  call (call_resource_unref cmd) = answered (cmd_resource_unref cmd)
  call (call_context_create cmd) = answered (cmd_context_create cmd)
  call (call_context_destroy cmd) = answered (cmd_context_destroy cmd)
  call (call_get_edid cmd) = answered (cmd_get_edid cmd)
  call (call_get_capset_info cmd) = answered (cmd_get_capset_info cmd)
  call (call_get_capset cmd) = answered (cmd_get_capset cmd)
  call (call_flush_resource_to_surface cmd arg) = answered (flush_resource_to_surface cmd arg)
  call (call_flush_resource cmd) = answered (cmd_flush_resource cmd)
  call (call_set_scanout cmd) = answered (cmd_set_scanout cmd)
  call (call_resource_attach_backing cmd arg) = answered (cmd_resource_attach_backing cmd arg)
  call (call_resource_detach_backing cmd) = answered (cmd_resource_detach_backing cmd)
  call (call_ctx_attach_resource cmd) = answered (cmd_ctx_attach_resource cmd)
  call (call_ctx_detach_resource cmd) = answered (cmd_ctx_detach_resource cmd)
  call (call_submit_3d cmd arg) = answered (cmd_submit_3d cmd arg)
  call (call_transfer_to_host_2d cmd) = answered (cmd_transfer_to_host_2d cmd)
  call (call_transfer_to_host_3d cmd) = answered (cmd_transfer_to_host_3d cmd)
  call (call_resource_assign_uuid cmd) = answered (cmd_resource_assign_uuid cmd)
  call (call_transfer_from_host_3d cmd arg) = answered (cmd_transfer_from_host_3d cmd arg)
  call (call_move_curosr cmd) = answered (cmd_move_curosr cmd)
  call (call_update_cursor cmd) = answered (cmd_update_cursor cmd)
  call (call_create_fence cmd) = answered (create_fence cmd)

-- The states between two calls: of a device that `new` has made, and from there on. A call that
-- panics leaves a state too, for a caller that catches the panic.
pub data Reachable (l : Libraries) : VirtioGpu l → Type 0 where
  made : (p : GpuParameter) (g : VirtioGpu l) → new p ≡ done g → Reachable l g
  called : (m : Method l) (g : VirtioGpu l) → Reachable l g → Reachable l (call m g).1
