-- ===== src/Tests/GpuRuns.antt =====
-- The theorems on the resources, the answers and the reachable states of the device.
use vhost_gpu_backend.Gpu.Methods.Drawing.{call-OnlyDraws}
use vhost_gpu_backend.Gpu.Frames.{OnlyDraws}
use vhost_gpu_backend.Wire.Bytes.{IsByte}
use vhost_gpu_backend.Gpu.Behaviour.Guest.{cmd_get_display_info-encode, cmd_get_edid-encode}
use vhost_gpu_backend.Protocol.Response.Modes.{blank, screen}
use vhost_gpu_backend.Tests.Memory.{regions}
use vhost_gpu_backend.Gpu.Edid.{write_at}
use vhost_gpu_backend.Gpu.Iovecs.Ranges.{sglist_to_rutabaga_iovecs_cases, AreOf, refused}
use vhost_gpu_backend.Gpu.Iovecs.{sglist_to_rutabaga_iovecs, any}
use vhost_gpu_backend.Gpu.Behaviour.Answers.{
  cmd_get_edid_done, sum, cmd_resource_assign_uuid-injective,
}
use vhost_gpu_backend.Gpu.Behaviour.Lifecycle.{
  resource_create_3d_done, CreationAnswer, cmd_resource_unref_cases, Released,
  resource_create_3d-unref,
}
use vhost_gpu_backend.Protocol.Response.{
  ok_display_info, invalid_sglist_region, ok_edid, ok_no_data, encode,
}
use vhost_gpu_backend.Gpu.Methods.Answers.{call-encode}
use vhost_gpu_backend.Gpu.Methods.Safety.{Reachable-IsValid}
use vhost_gpu_backend.Gpu.Invariant.{IsValid}
use vhost_gpu_backend.Protocol.Structs.{virtio_gpu_resp_edid, virtio_gpu_resp_display_info}
use vhost_gpu_backend.Prelude.{
  inl, false, ◌⊎◌, ◌%◌, true, All, length, arith, ◌==◌, replicate, if◌then◌else◌, ℕ, List, [], ◌∷◌,
  ◌≡◌, refl, none, some,
}
use vhost_gpu_backend.Gpu.Behaviour.Answers.{take, drop}
use vhost_gpu_backend.Prelude.Result.{ok}
use vhost_gpu_backend.Prelude.Table
use vhost_gpu_backend.Libraries.{RutabagaIovec}
use vhost_gpu_backend.Gpu.State.{Response, done, raised}
use vhost_gpu_backend.Gpu.Commands.{
  to_be_bytes, forget_resource, assigned_uuid, answer_created, record_created, cmd_resource_unref,
  resource_create_3d, cmd_resource_assign_uuid, cmd_get_edid, cmd_get_display_info,
}
use vhost_gpu_backend.Gpu.Methods.{response, call_get_display_info, call_flush_resource, call}
use vhost_gpu_backend.Tests.Instance.{libraries}
use vhost_gpu_backend.Tests.Renderer.{renderer_laws}
use vhost_gpu_backend.Tests.Server.{server_laws}
use vhost_gpu_backend.Tests.Device.{
  header, flush_cmd, unref_cmd, fresh, entry_7, with_resource, with_screen, with_screen-Reachable,
  create_3d, fresh-IsValid, with_screen-IsValid, uuid_cmd, uuid_7, edid_cmd, ranges,
}

Reachable-IsValid_example : IsValid with_screen
Reachable-IsValid_example =
    Reachable-IsValid renderer_laws server_laws with_screen with_screen-Reachable

creation : resource_create_3d 7 create_3d fresh ≡ (done ok_no_data, with_resource)
unfolding resource_create_3d record_created answer_created
creation = refl

resource_create_3d_done_example :
    (Table.get 7 fresh.resources ≡ none)
    × ((j : ℕ)
        → Table.get j with_resource.resources
          ≡ (if j == 7 then some entry_7 else Table.get j fresh.resources))
    × CreationAnswer libraries 7 with_resource.rutabaga ok_no_data
resource_create_3d_done_example =
    resource_create_3d_done renderer_laws 7 create_3d fresh with_resource ok_no_data fresh-IsValid
      creation

cmd_resource_unref_cases_example :
    Released renderer_laws 7 with_screen (cmd_resource_unref unref_cmd with_screen)
cmd_resource_unref_cases_example =
    cmd_resource_unref_cases renderer_laws unref_cmd with_screen with_screen-IsValid

release_run : cmd_resource_unref unref_cmd with_resource ≡ (done ok_no_data, fresh)
unfolding cmd_resource_unref forget_resource
release_run = refl

resource_create_3d-unref_example : Table.get 7 fresh.resources ≡ Table.get 7 fresh.resources
resource_create_3d-unref_example =
    resource_create_3d-unref renderer_laws create_3d unref_cmd fresh with_resource fresh ok_no_data
      ok_no_data fresh-IsValid creation release_run 7

uuid_run : cmd_resource_assign_uuid uuid_cmd with_resource ≡ (done uuid_7, with_resource)
unfolding cmd_resource_assign_uuid assigned_uuid write_at to_be_bytes
uuid_run = refl

cmd_resource_assign_uuid-injective_example : 7 ≡ uuid_cmd.resource_id
cmd_resource_assign_uuid-injective_example =
    cmd_resource_assign_uuid-injective uuid_cmd uuid_cmd with_resource with_resource with_resource
      with_resource uuid_7 (omega arith) (omega arith) uuid_run uuid_run

cmd_get_edid_done_example :
    (edid : List ℕ) × (cmd_get_edid edid_cmd fresh ≡ (done (ok_edid 256 edid), fresh))
    × (length edid ≡ 1024)
    × All IsByte edid
    × (sum (take 128 edid) % 256 ≡ 0)
    × (sum (take 128 (drop 128 edid)) % 256 ≡ 0)
    × (take 8 edid ≡ 0 ∷ 255 ∷ 255 ∷ 255 ∷ 255 ∷ 255 ∷ 255 ∷ 0 ∷ [])
    × (drop 256 edid ≡ replicate 768 0)
cmd_get_edid_done_example = cmd_get_edid_done edid_cmd fresh

cmd_get_edid-encode_example :
    (x : Response libraries) × (edid bs : List ℕ) × (cmd_get_edid edid_cmd fresh ≡ (done x, fresh))
    × (x ≡ ok_edid 256 edid)
    × (encode x 0 0 0 ≡ ok bs)
    × (virtio_gpu_resp_edid.read bs
        ≡ some (
          record {
            hdr = record { type_ = 0x1200; flags = 0; fence_id = 0; ctx_id = 0; padding = 0 };
            size = 256;
            padding = 0;
            edid = edid;
          },
          [],
        ))
cmd_get_edid-encode_example =
    cmd_get_edid-encode edid_cmd fresh 0 0 0 (omega arith) (omega arith) (omega arith)

cmd_get_display_info-encode_example :
    (x : Response libraries) × (bs : List ℕ) × (cmd_get_display_info header fresh ≡ (done x, fresh))
    × (encode x 0 0 0 ≡ ok bs)
    × (virtio_gpu_resp_display_info.read bs
        ≡ some (
          record {
            hdr = record { type_ = 0x1101; flags = 0; fence_id = 0; ctx_id = 0; padding = 0 };
            pmodes = screen (1920, 1080) ∷ replicate 15 blank;
          },
          [],
        ))
cmd_get_display_info-encode_example =
    cmd_get_display_info-encode header fresh 0 0 0 (omega arith) (omega arith) (omega arith)
      (omega arith) (omega arith)

sglist_to_rutabaga_iovecs_cases_example :
    ((any (refused regions tt) ranges ≡ true)
      × (sglist_to_rutabaga_iovecs regions {M = ℕ} {R = ℕ} {I = ℕ} {D = ℕ} tt ranges
          ≡ raised invalid_sglist_region))
    ⊎ ((any (refused regions tt) ranges ≡ false)
        × (iovecs : List RutabagaIovec) × (sglist_to_rutabaga_iovecs regions {M = ℕ} {R = ℕ} {I = ℕ}
              {D = ℕ} tt ranges
            ≡ done iovecs)
        × AreOf regions tt ranges iovecs)
sglist_to_rutabaga_iovecs_cases_example = sglist_to_rutabaga_iovecs_cases regions tt ranges

call-OnlyDraws_example : OnlyDraws libraries (call (call_flush_resource (flush_cmd 7)))
call-OnlyDraws_example = call-OnlyDraws server_laws (call_flush_resource (flush_cmd 7)) refl

display_run :
    (call (call_get_display_info header) with_screen).0
    ≡ done (response (ok_display_info ((1920, 1080) ∷ [])))
unfolding call cmd_get_display_info
display_run = refl

call-encode_example :
    (bs : List ℕ) × (encode {M = ℕ} {R = ℕ} {I = Unit {0}} {D = ℕ}
        (ok_display_info ((1920, 1080) ∷ []))
        1
        5
        0
      ≡ ok bs)
call-encode_example =
    call-encode (call_get_display_info header) with_screen (ok_display_info ((1920, 1080) ∷ [])) 1 5
      0 (inl display_run)
