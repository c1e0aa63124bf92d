-- ===== src/Gpu/Behaviour/Guest.antt =====
-- What the driver of the guest reads when an answer of the device is encoded.
use vhost_gpu_backend.Protocol.Response.Encode.{encode_ok}
use vhost_gpu_backend.Gpu.Behaviour.Answers.{cmd_get_edid_done}
use vhost_gpu_backend.Protocol.Response.Status.{encode_total}
use vhost_gpu_backend.Protocol.Response.Modes.{blank, screen}
use vhost_gpu_backend.Protocol.Structs.{
  virtio_gpu_resp_edid, virtio_gpu_resp_display_info, VirtioGpuCmdGetEdid, VirtioGpuCtrlHdr,
}
use vhost_gpu_backend.Protocol.Response.{ok_edid, ok_display_info, encode, get_resp_command_const}
use vhost_gpu_backend.Gpu.Commands.{cmd_get_edid, cmd_get_display_info}
use vhost_gpu_backend.Libraries.{Libraries}
use vhost_gpu_backend.Prelude.{refl, replicate, ◌∷◌, arith, [], some, List, ℕ, ◌≡◌, ◌<◌, ◌^◌}
use vhost_gpu_backend.Prelude.Result.{ok}
use vhost_gpu_backend.Gpu.State.{VirtioGpu, Response, done}

module _ {l : Libraries} where
  -- The display information as the driver reads it: the first of the 16 screens is enabled and has
  -- the size of the device, where this and the flags, the fence and the context of the response fit
  -- their fields, and the other screens are off. The device does not change.
  pub cmd_get_display_info-encode :
      (cmd : VirtioGpuCtrlHdr) (g : VirtioGpu l) (flags fence_id ctx_id : ℕ)
      → g.display_width < 2 ^ 32
      → g.display_height < 2 ^ 32
      → flags < 2 ^ 32
      → fence_id < 2 ^ 64
      → ctx_id < 2 ^ 32
      → (x : Response l) × (bs : List ℕ) × (cmd_get_display_info cmd g ≡ (done x, g))
        × (encode x flags fence_id ctx_id ≡ ok bs)
        × (virtio_gpu_resp_display_info.read bs
            ≡ some (
              record {
                hdr = record {
                  type_ = 0x1101;
                  flags = flags;
                  fence_id = fence_id;
                  ctx_id = ctx_id;
                  padding = 0;
                };
                pmodes = screen (g.display_width, g.display_height) ∷ replicate 15 blank;
              },
              [],
            ))
  unfolding cmd_get_display_info get_resp_command_const
  cmd_get_display_info-encode cmd g flags fence_id ctx_id hw hh hf hi hc =
      let x : Response l = ok_display_info ((g.display_width, g.display_height) ∷ []) in
      let (bs, e) = encode_total x flags fence_id ctx_id (omega arith) in
      (x, bs, refl, e, (encode_ok x flags fence_id ctx_id bs hf hi hc ((hw, hh), tt) e).0)

  -- The EDID as the driver reads it: the bytes are those of the device, but the type of the
  -- response is 0x1200, the error `ERR_UNSPEC`. The flags, the fence and the context of the
  -- response fit their fields.
  pub cmd_get_edid-encode :
      (cmd : VirtioGpuCmdGetEdid) (g : VirtioGpu l) (flags fence_id ctx_id : ℕ)
      → flags < 2 ^ 32
      → fence_id < 2 ^ 64
      → ctx_id < 2 ^ 32
      → (x : Response l) × (edid bs : List ℕ) × (cmd_get_edid cmd g ≡ (done x, g))
        × (x ≡ ok_edid 256 edid)
        × (encode x flags fence_id ctx_id ≡ ok bs)
        × (virtio_gpu_resp_edid.read bs
            ≡ some (
              record {
                hdr = record {
                  type_ = 0x1200;
                  flags = flags;
                  fence_id = fence_id;
                  ctx_id = ctx_id;
                  padding = 0;
                };
                size = 256;
                padding = 0;
                edid = edid;
              },
              [],
            ))
  unfolding get_resp_command_const
  cmd_get_edid-encode cmd g flags fence_id ctx_id hf hi hc =
      let (edid, answer, long, bytes, _, _, _, _) = cmd_get_edid_done cmd g in
      let x : Response l = ok_edid 256 edid in
      let (bs, e) = encode_total x flags fence_id ctx_id (omega arith) in
      (
        x,
        edid,
        bs,
        answer,
        refl,
        e,
        (encode_ok x flags fence_id ctx_id bs hf hi hc (omega arith, (long, bytes)) e).0,
      )
