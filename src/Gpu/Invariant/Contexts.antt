-- ===== src/Gpu/Invariant/Contexts.antt =====
-- The methods that only pass a call on to the renderer keep the invariant.
use vhost_gpu_backend.Protocol.Structs.{
  VirtioGpuGetCapsetInfo, VirtioGpuResourceAttachBacking, VirtioGpuResourceDetachBacking,
  VirtioGpuCtxDestroy, VirtioGpuCmdSubmit, VirtioGpuTransferHost3d, VirtioGpuGetCapset,
  VirtioGpuCtxCreate, VirtioGpuCtxResource, VirtioGpuTransferToHost2d,
}
use vhost_gpu_backend.Prelude.{refl, ◌≡◌, ℕ, List, Option, none}
use vhost_gpu_backend.Libraries.{Libraries, RutabagaLaws, RutabagaIovec}
use vhost_gpu_backend.Protocol.Response.{ok_no_data}
use vhost_gpu_backend.Gpu.State.{Response, ◌>>◌, rutabaga_call, pure}
use vhost_gpu_backend.Gpu.Commands.{
  cmd_get_capset, cmd_get_capset_info, force_ctx_0, fence_poll, create_fence,
  cmd_transfer_from_host_3d, cmd_transfer_to_host_3d, cmd_transfer_to_host_2d, cmd_submit_3d,
  cmd_ctx_detach_resource, cmd_ctx_attach_resource, cmd_resource_detach_backing,
  cmd_resource_attach_backing, cmd_context_destroy, cmd_context_create,
}
use vhost_gpu_backend.Gpu.Invariant.{PollPanics, Call, Keeps, >>=-Keeps, pure-Keeps}
use vhost_gpu_backend.Gpu.Invariant.Calls.{
  rutabaga-IsValid, rutabaga_call-Keeps, rutabaga_partial-Keeps,
}

module _ {l : Libraries} (rl : RutabagaLaws l.rutabaga) where
  open l use {rutabaga as r}

  -- `self.rutabaga.call(..)?; Ok(OkNoData)`
  call_then_ok-Keeps :
      {P : Type 0}
      → (f : Call r.State r.Error (Unit {0}))
      → ((s : r.State) (j : ℕ) → r.has_resource (f s).1 j ≡ r.has_resource s j)
      → Keeps l P {A = Response l} (rutabaga_call {l = l} f >> pure ok_no_data)
  call_then_ok-Keeps f same =
      >>=-Keeps l (rutabaga_call f) _ (rutabaga_call-Keeps l f same) (λ _. pure-Keeps l ok_no_data)

  pub cmd_context_create-Keeps :
      {P : Type 0} → (cmd : VirtioGpuCtxCreate) → Keeps l P (cmd_context_create {l = l} cmd)
  unfolding cmd_context_create
  cmd_context_create-Keeps cmd = call_then_ok-Keeps _ (rl.create_context_keeps cmd.hdr.ctx_id 0)

  pub cmd_context_destroy-Keeps :
      {P : Type 0} → (cmd : VirtioGpuCtxDestroy) → Keeps l P (cmd_context_destroy {l = l} cmd)
  unfolding cmd_context_destroy
  cmd_context_destroy-Keeps cmd = call_then_ok-Keeps _ (rl.destroy_context_keeps cmd.hdr.ctx_id)

  pub cmd_resource_attach_backing-Keeps :
      {P : Type 0}
      → (cmd : VirtioGpuResourceAttachBacking) (iovecs : List RutabagaIovec)
      → Keeps l P (cmd_resource_attach_backing {l = l} cmd iovecs)
  unfolding cmd_resource_attach_backing
  cmd_resource_attach_backing-Keeps cmd iovecs =
      call_then_ok-Keeps _ (rl.attach_backing_keeps cmd.resource_id iovecs)

  pub cmd_resource_detach_backing-Keeps :
      {P : Type 0}
      → (cmd : VirtioGpuResourceDetachBacking) → Keeps l P (cmd_resource_detach_backing {l = l} cmd)
  unfolding cmd_resource_detach_backing
  cmd_resource_detach_backing-Keeps cmd =
      call_then_ok-Keeps _ (rl.detach_backing_keeps cmd.resource_id)

  pub cmd_ctx_attach_resource-Keeps :
      {P : Type 0} → (cmd : VirtioGpuCtxResource) → Keeps l P (cmd_ctx_attach_resource {l = l} cmd)
  unfolding cmd_ctx_attach_resource
  cmd_ctx_attach_resource-Keeps cmd =
      call_then_ok-Keeps _ (rl.context_attach_resource_keeps cmd.hdr.ctx_id cmd.resource_id)

  pub cmd_ctx_detach_resource-Keeps :
      {P : Type 0} → (cmd : VirtioGpuCtxResource) → Keeps l P (cmd_ctx_detach_resource {l = l} cmd)
  unfolding cmd_ctx_detach_resource
  cmd_ctx_detach_resource-Keeps cmd =
      call_then_ok-Keeps _ (rl.context_detach_resource_keeps cmd.hdr.ctx_id cmd.resource_id)

  pub cmd_submit_3d-Keeps :
      {P : Type 0}
      → (cmd : VirtioGpuCmdSubmit) (commands : List ℕ)
      → Keeps l P (cmd_submit_3d {l = l} cmd commands)
  unfolding cmd_submit_3d
  cmd_submit_3d-Keeps cmd commands =
      call_then_ok-Keeps _ (rl.submit_command_keeps cmd.hdr.ctx_id commands)

  pub cmd_transfer_to_host_2d-Keeps :
      {P : Type 0}
      → (cmd : VirtioGpuTransferToHost2d) → Keeps l P (cmd_transfer_to_host_2d {l = l} cmd)
  unfolding cmd_transfer_to_host_2d
  cmd_transfer_to_host_2d-Keeps cmd =
      call_then_ok-Keeps _ (rl.transfer_write_keeps cmd.hdr.ctx_id cmd.resource_id _)

  pub cmd_transfer_to_host_3d-Keeps :
      {P : Type 0}
      → (cmd : VirtioGpuTransferHost3d) → Keeps l P (cmd_transfer_to_host_3d {l = l} cmd)
  unfolding cmd_transfer_to_host_3d
  cmd_transfer_to_host_3d-Keeps cmd =
      call_then_ok-Keeps _ (rl.transfer_write_keeps cmd.hdr.ctx_id cmd.resource_id _)

  pub cmd_transfer_from_host_3d-Keeps :
      {P : Type 0}
      → (cmd : VirtioGpuTransferHost3d) (buf : Option l.Slice)
      → Keeps l P (cmd_transfer_from_host_3d {l = l} cmd buf)
  unfolding cmd_transfer_from_host_3d
  cmd_transfer_from_host_3d-Keeps cmd buf =
      call_then_ok-Keeps _ (rl.transfer_read_keeps cmd.hdr.ctx_id cmd.resource_id _ none)

  pub create_fence-Keeps :
      {P : Type 0} → (fence : r.FenceData) → Keeps l P (create_fence {l = l} fence)
  unfolding create_fence
  create_fence-Keeps fence = call_then_ok-Keeps _ (rl.create_fence_keeps fence)

  pub fence_poll-Keeps : Keeps l (PollPanics l) (fence_poll {l = l})
  unfolding fence_poll
  fence_poll-Keeps = rutabaga_partial-Keeps l r.poll rl.poll_keeps (λ g v panics. (g, v, panics))

  pub force_ctx_0-Keeps : {P : Type 0} → Keeps l P (force_ctx_0 {l = l})
  unfolding force_ctx_0
  force_ctx_0-Keeps = record {
    valid =
        λ g v. rutabaga-IsValid l g (r.force_ctx_0 g.rutabaga) (rl.force_ctx_0_keeps g.rutabaga) v;
    calm = λ g v. tt;
  }

  pub cmd_get_capset_info-Keeps :
      {P : Type 0} → (cmd : VirtioGpuGetCapsetInfo) → Keeps l P (cmd_get_capset_info {l = l} cmd)
  unfolding cmd_get_capset_info
  cmd_get_capset_info-Keeps cmd =
      >>=-Keeps l _ _
        (rutabaga_call-Keeps l (λ s. (r.get_capset_info cmd.capset_index s, s)) (λ s j. refl))
        (λ info. pure-Keeps l _)

  pub cmd_get_capset-Keeps :
      {P : Type 0} → (cmd : VirtioGpuGetCapset) → Keeps l P (cmd_get_capset {l = l} cmd)
  unfolding cmd_get_capset
  cmd_get_capset-Keeps cmd =
      >>=-Keeps l _ _
        (rutabaga_call-Keeps l (λ s. (r.get_capset cmd.capset_id cmd.capset_version s, s))
          (λ s j. refl))
        (λ capset. pure-Keeps l _)
