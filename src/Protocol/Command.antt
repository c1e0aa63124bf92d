-- ===== src/Protocol/Command.antt =====
-- The requests of src/protocol.rs: `VirtioGpuCommand`, `size` and `decode`.
pub mod Request
pub mod Arms
pub mod Decode
use vhost_gpu_backend.Prelude.{ℕ, List, [], ◌∷◌, ◌==◌, if◌then◌else◌}
use vhost_gpu_backend.Prelude.Result.{Result, ok, err, map_ok, map_err, ◌>>=◌}
use vhost_gpu_backend.Wire.ByteValued.{ByteValued}
use vhost_gpu_backend.GuestMemory.{GuestMemory, read_obj}
use vhost_gpu_backend.Protocol.Consts
use vhost_gpu_backend.Protocol.Structs.{
  VirtioGpuCmdGetEdid, virtio_gpu_cmd_get_edid, VirtioGpuCmdSubmit, virtio_gpu_cmd_submit,
  VirtioGpuCtrlHdr, virtio_gpu_ctrl_hdr, VirtioGpuCtxCreate, virtio_gpu_ctx_create,
  VirtioGpuCtxDestroy, virtio_gpu_ctx_destroy, VirtioGpuCtxResource, virtio_gpu_ctx_resource,
  VirtioGpuGetCapset, virtio_gpu_get_capset, VirtioGpuGetCapsetInfo, virtio_gpu_get_capset_info,
  VirtioGpuResourceAssignUuid, virtio_gpu_resource_assign_uuid, VirtioGpuResourceAttachBacking,
  virtio_gpu_resource_attach_backing, VirtioGpuResourceCreate2d, virtio_gpu_resource_create_2d,
  VirtioGpuResourceCreate3d, virtio_gpu_resource_create_3d, VirtioGpuResourceDetachBacking,
  virtio_gpu_resource_detach_backing, VirtioGpuResourceFlush, virtio_gpu_resource_flush,
  VirtioGpuResourceUnref, virtio_gpu_resource_unref, VirtioGpuSetScanout, virtio_gpu_set_scanout,
  VirtioGpuTransferHost3d, virtio_gpu_transfer_host_3d, VirtioGpuTransferToHost2d,
  virtio_gpu_transfer_to_host_2d, VirtioGpuUpdateCursor, virtio_gpu_update_cursor,
  virtio_gpu_display_one,
}

pub data VirtioGpuCommandDecodeError (E : Type 0) : Type 0 where
  invalid_command : ℕ → VirtioGpuCommandDecodeError E
  parser_error : E → VirtioGpuCommandDecodeError E

pub data VirtioGpuCommand : Type 0 where
  cmd_get_display_info : VirtioGpuCtrlHdr → VirtioGpuCommand
  cmd_resource_create_2d : VirtioGpuResourceCreate2d → VirtioGpuCommand
  cmd_resource_unref : VirtioGpuResourceUnref → VirtioGpuCommand
  cmd_set_scanout : VirtioGpuSetScanout → VirtioGpuCommand
  cmd_resource_flush : VirtioGpuResourceFlush → VirtioGpuCommand
  cmd_transfer_to_host_2d : VirtioGpuTransferToHost2d → VirtioGpuCommand
  cmd_resource_attach_backing : VirtioGpuResourceAttachBacking → VirtioGpuCommand
  cmd_resource_detach_backing : VirtioGpuResourceDetachBacking → VirtioGpuCommand
  cmd_get_capset_info : VirtioGpuGetCapsetInfo → VirtioGpuCommand
  cmd_get_capset : VirtioGpuGetCapset → VirtioGpuCommand
  cmd_get_edid : VirtioGpuCmdGetEdid → VirtioGpuCommand
  cmd_resource_assign_uuid : VirtioGpuResourceAssignUuid → VirtioGpuCommand
  cmd_ctx_create : VirtioGpuCtxCreate → VirtioGpuCommand
  cmd_ctx_destroy : VirtioGpuCtxDestroy → VirtioGpuCommand
  cmd_ctx_attach_resource : VirtioGpuCtxResource → VirtioGpuCommand
  cmd_ctx_detach_resource : VirtioGpuCtxResource → VirtioGpuCommand
  cmd_resource_create_3d : VirtioGpuResourceCreate3d → VirtioGpuCommand
  cmd_transfer_to_host_3d : VirtioGpuTransferHost3d → VirtioGpuCommand
  cmd_transfer_from_host_3d : VirtioGpuTransferHost3d → VirtioGpuCommand
  cmd_submit_3d : VirtioGpuCmdSubmit → VirtioGpuCommand
  cmd_update_cursor : VirtioGpuUpdateCursor → VirtioGpuCommand
  cmd_move_cursor : VirtioGpuUpdateCursor → VirtioGpuCommand

unfoldable pub size : VirtioGpuCommand → ℕ
size (cmd_get_display_info _) = virtio_gpu_display_one.size_of
size (cmd_resource_create_2d _) = virtio_gpu_resource_create_2d.size_of
size (cmd_resource_unref _) = virtio_gpu_resource_unref.size_of
size (cmd_set_scanout _) = virtio_gpu_set_scanout.size_of
size (cmd_resource_flush _) = virtio_gpu_resource_flush.size_of
size (cmd_transfer_to_host_2d _) = virtio_gpu_transfer_to_host_2d.size_of
size (cmd_resource_attach_backing _) = virtio_gpu_resource_attach_backing.size_of
size (cmd_resource_detach_backing _) = virtio_gpu_resource_detach_backing.size_of
size (cmd_get_capset_info _) = virtio_gpu_get_capset_info.size_of
size (cmd_get_capset _) = virtio_gpu_get_capset.size_of
size (cmd_get_edid _) = virtio_gpu_cmd_get_edid.size_of
size (cmd_resource_assign_uuid _) = virtio_gpu_resource_assign_uuid.size_of
size (cmd_ctx_create _) = virtio_gpu_ctx_create.size_of
size (cmd_ctx_destroy _) = virtio_gpu_ctx_destroy.size_of
size (cmd_ctx_attach_resource _) = virtio_gpu_ctx_resource.size_of
size (cmd_ctx_detach_resource _) = virtio_gpu_ctx_resource.size_of
size (cmd_resource_create_3d _) = virtio_gpu_resource_create_3d.size_of
size (cmd_transfer_to_host_3d _) = virtio_gpu_transfer_host_3d.size_of
size (cmd_transfer_from_host_3d _) = virtio_gpu_transfer_host_3d.size_of
size (cmd_submit_3d _) = virtio_gpu_cmd_submit.size_of
size (cmd_update_cursor _) = virtio_gpu_update_cursor.size_of
size (cmd_move_cursor _) = virtio_gpu_update_cursor.size_of

-- A match on a number: the first arm with the number, or else the last arm.
pub match_arms : {R : Type 0} → ℕ → List (ℕ × R) → R → R
match_arms n [] last = last
match_arms n ((const, r) ∷ arms) last = if n == const then r else match_arms n arms last

module _ (g : GuestMemory) where
  -- The result of `decode`; `?` on a failed read wraps the error by `From<GuestMemoryError>`.
  abbrev pub Decoded : Type 0 → Type 0
  Decoded A = Result (VirtioGpuCommandDecodeError g.Error) A

  -- `cmd.read_obj(addr)?` at the structure of an arm, in the constructor of the arm.
  pub read_as :
      {A : Type 0} → g.Memory → ℕ → (A → VirtioGpuCommand) → ByteValued A → Decoded VirtioGpuCommand
  read_as m addr cmd c = map_ok cmd (map_err parser_error (read_obj g c m addr))

  -- The arms of the match in `decode`, on the memory at the time of the second read.
  pub arms : g.Memory → ℕ → List (ℕ × Decoded VirtioGpuCommand)
  arms m addr =
      (
        Consts.virtio_gpu_cmd_get_display_info,
        read_as m addr cmd_get_display_info virtio_gpu_ctrl_hdr,
      )
      ∷ (
        Consts.virtio_gpu_cmd_resource_create_2d,
        read_as m addr cmd_resource_create_2d virtio_gpu_resource_create_2d,
      )
      ∷ (
        Consts.virtio_gpu_cmd_resource_unref,
        read_as m addr cmd_resource_unref virtio_gpu_resource_unref,
      )
      ∷ (
        Consts.virtio_gpu_cmd_transfer_to_host_2d,
        read_as m addr cmd_transfer_to_host_2d virtio_gpu_transfer_to_host_2d,
      )
      ∷ (Consts.virtio_gpu_cmd_set_scanout, read_as m addr cmd_set_scanout virtio_gpu_set_scanout)
      ∷ (
        Consts.virtio_gpu_cmd_resource_flush,
        read_as m addr cmd_resource_flush virtio_gpu_resource_flush,
      )
      ∷ (
        Consts.virtio_gpu_cmd_resource_attach_backing,
        read_as m addr cmd_resource_attach_backing virtio_gpu_resource_attach_backing,
      )
      ∷ (
        Consts.virtio_gpu_cmd_resource_detach_backing,
        read_as m addr cmd_resource_detach_backing virtio_gpu_resource_detach_backing,
      )
      ∷ (
        Consts.virtio_gpu_cmd_get_capset_info,
        read_as m addr cmd_get_capset_info virtio_gpu_get_capset_info,
      )
      ∷ (Consts.virtio_gpu_cmd_get_capset, read_as m addr cmd_get_capset virtio_gpu_get_capset)
      ∷ (Consts.virtio_gpu_cmd_get_edid, read_as m addr cmd_get_edid virtio_gpu_cmd_get_edid)
      ∷ (
        Consts.virtio_gpu_cmd_resource_assign_uuid,
        read_as m addr cmd_resource_assign_uuid virtio_gpu_resource_assign_uuid,
      )
      ∷ (Consts.virtio_gpu_cmd_ctx_create, read_as m addr cmd_ctx_create virtio_gpu_ctx_create)
      ∷ (Consts.virtio_gpu_cmd_ctx_destroy, read_as m addr cmd_ctx_destroy virtio_gpu_ctx_destroy)
      ∷ (
        Consts.virtio_gpu_cmd_ctx_attach_resource,
        read_as m addr cmd_ctx_attach_resource virtio_gpu_ctx_resource,
      )
      ∷ (
        Consts.virtio_gpu_cmd_ctx_detach_resource,
        read_as m addr cmd_ctx_detach_resource virtio_gpu_ctx_resource,
      )
      ∷ (
        Consts.virtio_gpu_cmd_resource_create_3d,
        read_as m addr cmd_resource_create_3d virtio_gpu_resource_create_3d,
      )
      ∷ (
        Consts.virtio_gpu_cmd_transfer_to_host_3d,
        read_as m addr cmd_transfer_to_host_3d virtio_gpu_transfer_host_3d,
      )
      ∷ (
        Consts.virtio_gpu_cmd_transfer_from_host_3d,
        read_as m addr cmd_transfer_from_host_3d virtio_gpu_transfer_host_3d,
      )
      ∷ (Consts.virtio_gpu_cmd_submit_3d, read_as m addr cmd_submit_3d virtio_gpu_cmd_submit)
      ∷ (
        Consts.virtio_gpu_cmd_update_cursor,
        read_as m addr cmd_update_cursor virtio_gpu_update_cursor,
      )
      ∷ (Consts.virtio_gpu_cmd_move_cursor, read_as m addr cmd_move_cursor virtio_gpu_update_cursor)
      ∷ []

  -- The header is read first, and the whole structure by the arm, at two moments of the memory.
  unfoldable pub decode : g.Memory → g.Memory → ℕ → Decoded VirtioGpuCommand
  unfolding match_arms arms read_as
  decode first second addr = do
    hdr ← map_err parser_error (read_obj g virtio_gpu_ctrl_hdr first addr)
    match_arms hdr.type_ (arms second addr) (err (invalid_command hdr.type_))
