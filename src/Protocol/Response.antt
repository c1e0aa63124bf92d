-- ===== src/Protocol/Response.antt =====
-- The responses of src/protocol.rs: `VirtioGpuResponse`, `encode` and `get_resp_command_const`.
-- The errors of the libraries that a response may carry are the parameters `M` (guest memory), `R`
-- (renderer), `I` (integer conversion) and `D` (display).
pub mod Modes
pub mod Encode
pub mod Status
use vhost_gpu_backend.Prelude.{ℕ, List, [], ◌∷◌, ◌++◌, length, replicate, ltb, if◌then◌else◌}
use vhost_gpu_backend.Prelude.Result.{Result, ok, err}
use vhost_gpu_backend.Protocol.Consts
use vhost_gpu_backend.Protocol.Structs.{
  VirtioGpuCtrlHdr, virtio_gpu_ctrl_hdr, VirtioGpuDisplayOne, virtio_gpu_display_one,
  virtio_gpu_resp_display_info, virtio_gpu_resp_capset_info, virtio_gpu_resp_edid,
  virtio_gpu_resp_resource_uuid,
}

pub data VirtioGpuResponse (M R I D : Type 0) : Type 0 where
  ok_no_data : VirtioGpuResponse M R I D
  ok_display_info : List (ℕ × ℕ) → VirtioGpuResponse M R I D
  -- capset_id, version, size
  ok_capset_info : ℕ → ℕ → ℕ → VirtioGpuResponse M R I D
  ok_capset : List ℕ → VirtioGpuResponse M R I D
  ok_resource_uuid : List ℕ → VirtioGpuResponse M R I D
  -- size, edid
  ok_edid : ℕ → List ℕ → VirtioGpuResponse M R I D
  err_unspec : VirtioGpuResponse M R I D
  err_out_of_memory : VirtioGpuResponse M R I D
  err_invalid_scanout_id : VirtioGpuResponse M R I D
  err_invalid_resource_id : VirtioGpuResponse M R I D
  err_invalid_context_id : VirtioGpuResponse M R I D
  err_invalid_parameter : VirtioGpuResponse M R I D
  too_many_scanout : ℕ → VirtioGpuResponse M R I D
  encode_error : M → VirtioGpuResponse M R I D
  rutabaga_error : R → VirtioGpuResponse M R I D
  unsupport_platform : I → VirtioGpuResponse M R I D
  display_err : D → VirtioGpuResponse M R I D
  invalid_sglist_region : VirtioGpuResponse M R I D

-- The screen of one mode, over the default of its slot: size and `enabled` are written.
pub set_pmode : VirtioGpuDisplayOne → ℕ × ℕ → VirtioGpuDisplayOne
set_pmode pmode (width, height) =
    let area = pmode.r in
    record pmode { r = record area { width = width; height = height }; enabled = 1 }

-- `resp.pmodes.iter_mut().zip(inner)`: the slots behind the last mode keep their default.
pub set_pmodes : List VirtioGpuDisplayOne → List (ℕ × ℕ) → List VirtioGpuDisplayOne
unfolding set_pmode
set_pmodes [] modes = []
set_pmodes (pmode ∷ pmodes) [] = pmode ∷ pmodes
set_pmodes (pmode ∷ pmodes) (mode ∷ modes) = set_pmode pmode mode ∷ set_pmodes pmodes modes

module _ {M R I D : Type 0} where
  unfoldable pub get_resp_command_const : VirtioGpuResponse M R I D → ℕ
  get_resp_command_const ok_no_data = Consts.virtio_gpu_resp_ok_nodata
  get_resp_command_const (ok_display_info _) = Consts.virtio_gpu_resp_ok_display_info
  get_resp_command_const (ok_capset_info _ _ _) = Consts.virtio_gpu_resp_ok_capset_info
  get_resp_command_const (ok_capset _) = Consts.virtio_gpu_resp_ok_capset
  get_resp_command_const (ok_resource_uuid _) = Consts.virtio_gpu_resp_ok_resource_uuid
  get_resp_command_const err_unspec = Consts.virtio_gpu_resp_err_unspec
  get_resp_command_const err_out_of_memory = Consts.virtio_gpu_resp_err_out_of_memory
  get_resp_command_const err_invalid_scanout_id = Consts.virtio_gpu_resp_err_invalid_scanout_id
  get_resp_command_const err_invalid_resource_id = Consts.virtio_gpu_resp_err_invalid_resource_id
  get_resp_command_const err_invalid_context_id = Consts.virtio_gpu_resp_err_invalid_context_id
  get_resp_command_const err_invalid_parameter = Consts.virtio_gpu_resp_err_invalid_parameter
  get_resp_command_const _ = Consts.virtio_gpu_resp_err_unspec

  pub header : VirtioGpuResponse M R I D → ℕ → ℕ → ℕ → VirtioGpuCtrlHdr
  header response flags fence_id ctx_id = record {
    type_ = get_resp_command_const response;
    flags = flags;
    fence_id = fence_id;
    ctx_id = ctx_id;
    padding = 0;
  }

  -- The bytes of the response, by its variant.
  pub encode_body :
      VirtioGpuCtrlHdr → VirtioGpuResponse M R I D → Result (VirtioGpuResponse M R I D) (List ℕ)
  unfolding set_pmodes
  encode_body hdr (ok_display_info inner) =
      if ltb Consts.virtio_gpu_max_scanouts (length inner)
      then err (too_many_scanout (length inner))
      else ok (
          virtio_gpu_resp_display_info.as_slice (record {
            hdr = hdr;
            pmodes =
                set_pmodes (replicate Consts.virtio_gpu_max_scanouts virtio_gpu_display_one.default)
                  inner;
          }))
  encode_body hdr (ok_capset_info capset_id version size) = ok (
      virtio_gpu_resp_capset_info.as_slice (record {
        hdr = hdr;
        capset_id = capset_id;
        capset_max_version = version;
        capset_max_size = size;
        padding = 0;
      }))
  encode_body hdr (ok_edid size edid) =
      ok (
        virtio_gpu_resp_edid.as_slice (record { hdr = hdr; size = size; padding = 0; edid = edid }))
  encode_body hdr (ok_capset inner) = ok (virtio_gpu_ctrl_hdr.as_slice hdr ++ inner)
  encode_body hdr (ok_resource_uuid uuid) =
      ok (virtio_gpu_resp_resource_uuid.as_slice (record { hdr = hdr; uuid = uuid }))
  encode_body hdr _ = ok (virtio_gpu_ctrl_hdr.as_slice hdr)

  unfoldable pub encode :
      VirtioGpuResponse M R I D → ℕ → ℕ → ℕ → Result (VirtioGpuResponse M R I D) (List ℕ)
  unfolding header encode_body
  encode response flags fence_id ctx_id =
      encode_body (header response flags fence_id ctx_id) response
