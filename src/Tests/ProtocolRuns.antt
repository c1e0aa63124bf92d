-- ===== src/Tests/ProtocolRuns.antt =====
-- The theorems on the protocol, at requests and responses of one driver.

use vhost_gpu_backend.Protocol.Response.Encode.{encode_ok, IsEncoding}
use vhost_gpu_backend.Protocol.Command.Decode.{
  decode_err, HasFailed, decode_ok, decode-request_bytes, decode_unknown,
}
use vhost_gpu_backend.GuestMemory.{read_obj}
use vhost_gpu_backend.Protocol.Response.Status.{
  encode_err_iff, reports_ok-get_resp_command_const, reports_ok,
}
use vhost_gpu_backend.VirtioUtils.{is_fence_iff, is_fence}
use vhost_gpu_backend.Protocol.Structs.{
  virtio_gpu_rect, virtio_gpu_resource_flush, virtio_gpu_resp_capset_info, virtio_gpu_ctrl_hdr,
  VirtioGpuResourceFlush, VirtioGpuCtrlHdr,
}
use vhost_gpu_backend.Protocol.Response.{
  too_many_scanout, ok_display_info, get_resp_command_const, err_unspec, encode, ok_capset_info,
}
use vhost_gpu_backend.Wire.Bytes.{to_le_bytes}
use vhost_gpu_backend.Prelude.{
  ◌%◌, length, ◌<◌, ◌↔◌, ◌⊎◌, false, some, arith, true, ℕ, List, [], ◌≡◌, refl,
}
use vhost_gpu_backend.Prelude.Result.{ok, err}
use vhost_gpu_backend.Gpu.State.{Response}
use vhost_gpu_backend.Tests.Memory.{memory}
use vhost_gpu_backend.Tests.Instance.{libraries}
use vhost_gpu_backend.Protocol.Command.{
  parser_error, decode, size, invalid_command, cmd_resource_flush,
}

abbrev flush_header : VirtioGpuCtrlHdr
flush_header = record { type_ = 0x104; flags = 1; fence_id = 5; ctx_id = 0; padding = 0 }

-- A flush of the resource 7.
abbrev flush : VirtioGpuResourceFlush
flush = record {
  hdr = flush_header;
  r = record { x = 0; y = 0; width = 640; height = 480 };
  resource_id = 7;
  padding = 0;
}

abbrev flush_memory : List ℕ
flush_memory = virtio_gpu_resource_flush.as_slice flush

decode-request_bytes_example :
    decode memory flush_memory flush_memory 0 ≡ ok (cmd_resource_flush flush)
unfolding virtio_gpu_ctrl_hdr virtio_gpu_resource_flush virtio_gpu_rect to_le_bytes
decode-request_bytes_example =
    decode-request_bytes memory flush_memory flush_memory 0 flush_header (cmd_resource_flush flush)
      (omega arith) refl refl (omega arith) refl

decode_ok_example :
    (hdr : VirtioGpuCtrlHdr) × (read_obj memory virtio_gpu_ctrl_hdr flush_memory 0 ≡ ok hdr)
    × (hdr.type_ ≡ 0x104)
    × (bs : List ℕ) × (memory.read_slice flush_memory 0 (size (cmd_resource_flush flush)) ≡ ok bs)
    × (virtio_gpu_resource_flush.read bs ≡ some (flush, []))
    × virtio_gpu_resource_flush.InRange flush
decode_ok_example =
    decode_ok memory flush_memory flush_memory 0 (cmd_resource_flush flush)
      decode-request_bytes_example

-- A header with the type number 0x999.
abbrev unknown_header : VirtioGpuCtrlHdr
unknown_header = record { type_ = 0x999; flags = 0; fence_id = 0; ctx_id = 0; padding = 0 }

abbrev unknown_memory : List ℕ
unknown_memory = virtio_gpu_ctrl_hdr.as_slice unknown_header

decode_unknown_example : decode memory unknown_memory unknown_memory 0 ≡ err (invalid_command 0x999)
unfolding virtio_gpu_ctrl_hdr to_le_bytes
decode_unknown_example =
    decode_unknown memory unknown_memory unknown_memory 0 unknown_header (omega arith) refl
      (λ known. omega arith)

decode_err_example :
    ((y : ℕ) × (invalid_command 0x999 ≡ parser_error y)
      × (read_obj memory virtio_gpu_ctrl_hdr unknown_memory 0 ≡ err y))
    ⊎ ((hdr : VirtioGpuCtrlHdr) × (read_obj memory virtio_gpu_ctrl_hdr unknown_memory 0 ≡ ok hdr)
        × HasFailed memory unknown_memory 0 hdr.type_ (invalid_command 0x999))
decode_err_example =
    decode_err memory unknown_memory unknown_memory 0 (invalid_command 0x999) decode_unknown_example

abbrev capset_info : Response libraries
capset_info = ok_capset_info 1 2 308

abbrev capset_bytes : List ℕ
capset_bytes = virtio_gpu_resp_capset_info.as_slice (record {
  hdr = record { type_ = 0x1102; flags = 1; fence_id = 5; ctx_id = 0; padding = 0 };
  capset_id = 1;
  capset_max_version = 2;
  capset_max_size = 308;
  padding = 0;
})

encode_ok_example :
    IsEncoding capset_info
      (record {
        type_ = get_resp_command_const capset_info;
        flags = 1;
        fence_id = 5;
        ctx_id = 0;
        padding = 0;
      })
      capset_bytes
unfolding virtio_gpu_ctrl_hdr virtio_gpu_resp_capset_info encode get_resp_command_const
encode_ok_example =
    encode_ok capset_info 1 5 0 capset_bytes (omega arith) (omega arith) (omega arith) (omega arith)
      refl

encode_err_iff_example : (encode capset_info 1 5 0 ≡ err err_unspec) ↔ (
    (modes : List (ℕ × ℕ)) × (capset_info ≡ ok_display_info modes)
    × (16 < length modes)
    × (◌≡◌ {A = Response libraries} err_unspec (too_many_scanout (length modes))))
encode_err_iff_example = encode_err_iff capset_info err_unspec 1 5 0

reports_ok-get_resp_command_const_example :
    (reports_ok (get_resp_command_const capset_info) ≡ true)
    × (false ≡ true → get_resp_command_const capset_info ≡ 0x1200)
reports_ok-get_resp_command_const_example = reports_ok-get_resp_command_const capset_info

is_fence_iff_example : (is_fence flush_header ≡ true) ↔ (flush_header.flags % 2 ≡ 1)
is_fence_iff_example = is_fence_iff flush_header
