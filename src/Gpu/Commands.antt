-- ===== src/Gpu/Commands.antt =====
-- src/virtio_gpu.rs: the methods of `VirtioGpu` on resources, contexts and fences, and the answers
-- that do not change the device.
use vhost_gpu_backend.Prelude.{
  some, ℕ, ◌/◌, ◌%◌, ◌^◌, List, [], ◌∷◌, Option, none, length, replicate, if◌then◌else◌,
}
use vhost_gpu_backend.Prelude.Result.{ok, err}
use vhost_gpu_backend.Prelude.Table
use vhost_gpu_backend.Libraries.{Libraries, RutabagaIovec, ResourceCreate3d, Transfer3d}
use vhost_gpu_backend.Protocol.Structs.{
  VirtioGpuCtrlHdr, VirtioGpuResourceCreate2d, VirtioGpuResourceCreate3d, VirtioGpuResourceUnref,
  VirtioGpuCtxCreate, VirtioGpuCtxDestroy, VirtioGpuCmdGetEdid, VirtioGpuGetCapsetInfo,
  VirtioGpuGetCapset, VirtioGpuResourceAttachBacking, VirtioGpuResourceDetachBacking,
  VirtioGpuCtxResource, VirtioGpuCmdSubmit, VirtioGpuTransferToHost2d, VirtioGpuTransferHost3d,
  VirtioGpuResourceAssignUuid,
}
use vhost_gpu_backend.Protocol.Response.{
  ok_no_data, ok_display_info, ok_capset_info, ok_capset, ok_resource_uuid, ok_edid,
  err_invalid_resource_id,
}
use vhost_gpu_backend.Gpu.Edid.{edid_vec, write_at}
use vhost_gpu_backend.Gpu.State.{
  rutabaga_partial, raised, VirtioGpu, Response, done, Action, ◌>>=◌, ◌>>◌, pure, raise, gets,
  modify, unwrap, rutabaga_call,
}

-- `u32::to_be_bytes`
unfoldable pub to_be_bytes : ℕ → List ℕ
to_be_bytes n = n / 2 ^ 24 % 256 ∷ n / 2 ^ 16 % 256 ∷ n / 2 ^ 8 % 256 ∷ n % 256 ∷ []

unfoldable pub transfer_host_3d_to_transfer_3d : VirtioGpuTransferHost3d → Transfer3d
transfer_host_3d_to_transfer_3d cmd = record {
  x = cmd.box_.x;
  y = cmd.box_.y;
  z = cmd.box_.z;
  w = cmd.box_.w;
  h = cmd.box_.h;
  d = cmd.box_.d;
  level = cmd.level;
  stride = cmd.stride;
  layer_stride = cmd.layer_stride;
  offset = cmd.offset;
}

module _ {l : Libraries} where
  open l use {rutabaga as r}

  unfoldable pub display_info : VirtioGpu l → List (ℕ × ℕ)
  display_info g = (g.display_width, g.display_height) ∷ []

  unfoldable pub cmd_get_display_info : VirtioGpuCtrlHdr → Action l (Response l)
  cmd_get_display_info cmd = gets (λ g. ok_display_info ((g.display_width, g.display_height) ∷ []))

  -- The answer to `query` decides which of two answers a successful creation gives.
  unfoldable pub answer_created : ℕ → Action l (Response l)
  answer_created resource_id g = elim (r.query resource_id g.rutabaga) [
    | ok _ ↦ (done err_invalid_resource_id, g)
    | err _ ↦ (done ok_no_data, g)
  ]

  -- What follows the call of the renderer in `resource_create_3d`.
  unfoldable pub record_created : ℕ → ResourceCreate3d → Action l (Response l)
  unfolding answer_created
  record_created resource_id create = do
    modify (λ g. record g {
      resources =
          Table.insert resource_id
            (record {
              resource_id = resource_id;
              width = create.width;
              height = create.height;
              size = 0;
            })
            g.resources;
    })
    answer_created resource_id

  unfoldable pub resource_create_3d : ℕ → ResourceCreate3d → Action l (Response l)
  unfolding record_created
  resource_create_3d resource_id create =
      rutabaga_call (r.resource_create_3d resource_id create) >>= λ _.
      record_created resource_id create

  unfoldable pub cmd_resource_create_2d : VirtioGpuResourceCreate2d → Action l (Response l)
  cmd_resource_create_2d cmd = resource_create_3d cmd.resource_id (record {
    target = r.pipe_texture_2d;
    format = cmd.format;
    bind = r.pipe_bind_render_target;
    width = cmd.width;
    height = cmd.height;
    depth = 1;
    array_size = 1;
    last_level = 0;
    nr_samples = 0;
    flags = 0;
  })

  unfoldable pub cmd_resource_create_3d : VirtioGpuResourceCreate3d → Action l (Response l)
  cmd_resource_create_3d cmd = resource_create_3d cmd.resource_id (record {
    target = cmd.target;
    format = cmd.format;
    bind = cmd.bind;
    width = cmd.width;
    height = cmd.height;
    depth = cmd.depth;
    array_size = cmd.array_size;
    last_level = cmd.last_level;
    nr_samples = cmd.nr_samples;
    flags = cmd.flags;
  })

  -- What follows the call of the renderer in `cmd_resource_unref`: the entry is taken out.
  unfoldable pub forget_resource : ℕ → Action l (Response l)
  forget_resource resource_id g = elim (Table.get resource_id g.resources) [
    | none ↦ (
      raised err_invalid_resource_id,
      record g { resources = Table.remove resource_id g.resources },
    )
    | some _ ↦ (done ok_no_data, record g { resources = Table.remove resource_id g.resources })
  ]

  unfoldable pub cmd_resource_unref : VirtioGpuResourceUnref → Action l (Response l)
  unfolding forget_resource
  cmd_resource_unref cmd =
      rutabaga_call (r.unref_resource cmd.resource_id) >>= λ _. forget_resource cmd.resource_id

  unfoldable pub cmd_context_create : VirtioGpuCtxCreate → Action l (Response l)
  cmd_context_create cmd = do rutabaga_call (r.create_context cmd.hdr.ctx_id 0); pure ok_no_data

  unfoldable pub cmd_context_destroy : VirtioGpuCtxDestroy → Action l (Response l)
  cmd_context_destroy cmd = do rutabaga_call (r.destroy_context cmd.hdr.ctx_id); pure ok_no_data

  unfoldable pub cmd_get_edid : VirtioGpuCmdGetEdid → Action l (Response l)
  unfolding write_at
  cmd_get_edid cmd = do
    edid ← unwrap (write_at 0 edid_vec (replicate 1024 0))
    pure (ok_edid (length edid_vec % 2 ^ 32) edid)

  unfoldable pub cmd_get_capset_info : VirtioGpuGetCapsetInfo → Action l (Response l)
  cmd_get_capset_info cmd = do
    (capset_id, version, size) ← rutabaga_call (λ s. (r.get_capset_info cmd.capset_index s, s))
    pure (ok_capset_info capset_id version size)

  unfoldable pub cmd_get_capset : VirtioGpuGetCapset → Action l (Response l)
  cmd_get_capset cmd = do
    capset ← rutabaga_call (λ s. (r.get_capset cmd.capset_id cmd.capset_version s, s))
    pure (ok_capset capset)

  unfoldable pub cmd_resource_attach_backing :
      VirtioGpuResourceAttachBacking → List RutabagaIovec → Action l (Response l)
  cmd_resource_attach_backing cmd iovecs = do
    rutabaga_call (r.attach_backing cmd.resource_id iovecs)
    pure ok_no_data

  unfoldable pub cmd_resource_detach_backing :
      VirtioGpuResourceDetachBacking → Action l (Response l)
  cmd_resource_detach_backing cmd = do
    rutabaga_call (r.detach_backing cmd.resource_id)
    pure ok_no_data

  unfoldable pub cmd_ctx_attach_resource : VirtioGpuCtxResource → Action l (Response l)
  cmd_ctx_attach_resource cmd = do
    rutabaga_call (r.context_attach_resource cmd.hdr.ctx_id cmd.resource_id)
    pure ok_no_data

  unfoldable pub cmd_ctx_detach_resource : VirtioGpuCtxResource → Action l (Response l)
  cmd_ctx_detach_resource cmd = do
    rutabaga_call (r.context_detach_resource cmd.hdr.ctx_id cmd.resource_id)
    pure ok_no_data

  -- The renderer may write to the buffer of commands, which is the caller's.
  unfoldable pub cmd_submit_3d : VirtioGpuCmdSubmit → List ℕ → Action l (Response l)
  cmd_submit_3d cmd commands = do
    rutabaga_call
        (λ s. let (ended, s', _) = r.submit_command cmd.hdr.ctx_id commands s in (ended, s'))
    pure ok_no_data

  unfoldable pub cmd_transfer_to_host_2d : VirtioGpuTransferToHost2d → Action l (Response l)
  cmd_transfer_to_host_2d cmd = do
    rutabaga_call (
        r.transfer_write cmd.hdr.ctx_id cmd.resource_id
          (r.new_2d cmd.r.x cmd.r.y cmd.r.width cmd.r.height))
    pure ok_no_data

  unfoldable pub cmd_transfer_to_host_3d : VirtioGpuTransferHost3d → Action l (Response l)
  unfolding transfer_host_3d_to_transfer_3d
  cmd_transfer_to_host_3d cmd = do
    rutabaga_call
        (r.transfer_write cmd.hdr.ctx_id cmd.resource_id (transfer_host_3d_to_transfer_3d cmd))
    pure ok_no_data

  -- The buffer of the caller is not handed on.
  unfoldable pub cmd_transfer_from_host_3d :
      VirtioGpuTransferHost3d → Option l.Slice → Action l (Response l)
  unfolding transfer_host_3d_to_transfer_3d
  cmd_transfer_from_host_3d cmd buf = do
    rutabaga_call (λ s.
        let (ended, s', _) =
          r.transfer_read cmd.hdr.ctx_id cmd.resource_id (transfer_host_3d_to_transfer_3d cmd) none
            s in
        (ended, s'))
    pure ok_no_data

  -- The UUID of a known resource: its id, in the last four of sixteen bytes.
  unfoldable pub assigned_uuid : ℕ → Action l (Response l)
  unfolding to_be_bytes write_at
  assigned_uuid resource_id = do
    uuid ← unwrap (write_at 12 (to_be_bytes resource_id) (replicate 16 0))
    pure (ok_resource_uuid uuid)

  unfoldable pub cmd_resource_assign_uuid : VirtioGpuResourceAssignUuid → Action l (Response l)
  unfolding assigned_uuid
  cmd_resource_assign_uuid cmd = do
    known ← gets (λ g. Table.contains_key cmd.resource_id g.resources)
    if known then assigned_uuid cmd.resource_id else raise err_invalid_resource_id

  unfoldable pub fence_poll : Action l (List r.FenceData)
  fence_poll = rutabaga_partial r.poll

  unfoldable pub force_ctx_0 : Action l (Unit {0})
  force_ctx_0 = modify (λ g. record g { rutabaga = r.force_ctx_0 g.rutabaga })

  unfoldable pub create_fence : r.FenceData → Action l (Response l)
  create_fence fence = do rutabaga_call (r.create_fence fence); pure ok_no_data
