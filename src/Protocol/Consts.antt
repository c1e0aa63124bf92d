-- ===== src/Protocol/Consts.antt =====
-- The constants of src/protocol.rs, in the order of the source.
use vhost_gpu_backend.Prelude.{ℕ}

abbrev pub virtio_gpu_cmd_get_display_info : ℕ
virtio_gpu_cmd_get_display_info = 0x0100

abbrev pub virtio_gpu_cmd_resource_create_2d : ℕ
virtio_gpu_cmd_resource_create_2d = 0x0101

abbrev pub virtio_gpu_cmd_resource_unref : ℕ
virtio_gpu_cmd_resource_unref = 0x0102

abbrev pub virtio_gpu_cmd_set_scanout : ℕ
virtio_gpu_cmd_set_scanout = 0x0103

abbrev pub virtio_gpu_cmd_resource_flush : ℕ
virtio_gpu_cmd_resource_flush = 0x0104

abbrev pub virtio_gpu_cmd_transfer_to_host_2d : ℕ
virtio_gpu_cmd_transfer_to_host_2d = 0x0105

abbrev pub virtio_gpu_cmd_resource_attach_backing : ℕ
virtio_gpu_cmd_resource_attach_backing = 0x0106

abbrev pub virtio_gpu_cmd_resource_detach_backing : ℕ
virtio_gpu_cmd_resource_detach_backing = 0x0107

abbrev pub virtio_gpu_cmd_get_capset_info : ℕ
virtio_gpu_cmd_get_capset_info = 0x0108

abbrev pub virtio_gpu_cmd_get_capset : ℕ
virtio_gpu_cmd_get_capset = 0x0109

abbrev pub virtio_gpu_cmd_get_edid : ℕ
virtio_gpu_cmd_get_edid = 0x010a

abbrev pub virtio_gpu_cmd_resource_assign_uuid : ℕ
virtio_gpu_cmd_resource_assign_uuid = 0x010b

abbrev pub virtio_gpu_cmd_ctx_create : ℕ
virtio_gpu_cmd_ctx_create = 0x0200

abbrev pub virtio_gpu_cmd_ctx_destroy : ℕ
virtio_gpu_cmd_ctx_destroy = 0x0201

abbrev pub virtio_gpu_cmd_ctx_attach_resource : ℕ
virtio_gpu_cmd_ctx_attach_resource = 0x0202

abbrev pub virtio_gpu_cmd_ctx_detach_resource : ℕ
virtio_gpu_cmd_ctx_detach_resource = 0x0203

abbrev pub virtio_gpu_cmd_resource_create_3d : ℕ
virtio_gpu_cmd_resource_create_3d = 0x0204

abbrev pub virtio_gpu_cmd_transfer_to_host_3d : ℕ
virtio_gpu_cmd_transfer_to_host_3d = 0x0205

abbrev pub virtio_gpu_cmd_transfer_from_host_3d : ℕ
virtio_gpu_cmd_transfer_from_host_3d = 0x0206

abbrev pub virtio_gpu_cmd_submit_3d : ℕ
virtio_gpu_cmd_submit_3d = 0x0207

abbrev pub virtio_gpu_cmd_update_cursor : ℕ
virtio_gpu_cmd_update_cursor = 0x0301

abbrev pub virtio_gpu_cmd_move_cursor : ℕ
virtio_gpu_cmd_move_cursor = 0x0302

abbrev pub virtio_gpu_resp_ok_nodata : ℕ
virtio_gpu_resp_ok_nodata = 0x1100

abbrev pub virtio_gpu_resp_ok_display_info : ℕ
virtio_gpu_resp_ok_display_info = 0x1101

abbrev pub virtio_gpu_resp_ok_capset_info : ℕ
virtio_gpu_resp_ok_capset_info = 0x1102

abbrev pub virtio_gpu_resp_ok_capset : ℕ
virtio_gpu_resp_ok_capset = 0x1103

abbrev pub virtio_gpu_resp_ok_edid : ℕ
virtio_gpu_resp_ok_edid = 0x1104

abbrev pub virtio_gpu_resp_ok_resource_uuid : ℕ
virtio_gpu_resp_ok_resource_uuid = 0x1105

abbrev pub virtio_gpu_resp_err_unspec : ℕ
virtio_gpu_resp_err_unspec = 0x1200

abbrev pub virtio_gpu_resp_err_out_of_memory : ℕ
virtio_gpu_resp_err_out_of_memory = 0x1201

abbrev pub virtio_gpu_resp_err_invalid_scanout_id : ℕ
virtio_gpu_resp_err_invalid_scanout_id = 0x1202

abbrev pub virtio_gpu_resp_err_invalid_resource_id : ℕ
virtio_gpu_resp_err_invalid_resource_id = 0x1203

abbrev pub virtio_gpu_resp_err_invalid_context_id : ℕ
virtio_gpu_resp_err_invalid_context_id = 0x1204

abbrev pub virtio_gpu_resp_err_invalid_parameter : ℕ
virtio_gpu_resp_err_invalid_parameter = 0x1205

abbrev pub virtio_gpu_flag_fence : ℕ
virtio_gpu_flag_fence = 1

abbrev pub virtio_gpu_flag_info_fence_ctx_idx : ℕ
virtio_gpu_flag_info_fence_ctx_idx = 2

abbrev pub virtio_gpu_device_type : ℕ
virtio_gpu_device_type = 16

abbrev pub virtio_gpu_f_virgl : ℕ
virtio_gpu_f_virgl = 0

abbrev pub virtio_gpu_f_edid : ℕ
virtio_gpu_f_edid = 1

abbrev pub virtio_gpu_f_resource_uuid : ℕ
virtio_gpu_f_resource_uuid = 2

abbrev pub virtio_gpu_max_scanouts : ℕ
virtio_gpu_max_scanouts = 16

abbrev pub virtio_gpu_resource_flag_y_0_top : ℕ
virtio_gpu_resource_flag_y_0_top = 1

abbrev pub virtio_gpu_capset_virgl : ℕ
virtio_gpu_capset_virgl = 1

abbrev pub virtio_gpu_capset_virgl2 : ℕ
virtio_gpu_capset_virgl2 = 2

abbrev pub virtio_gpu_event_display : ℕ
virtio_gpu_event_display = 1

abbrev pub virtio_gpu_format_b8g8r8a8_unorm : ℕ
virtio_gpu_format_b8g8r8a8_unorm = 1

abbrev pub virtio_gpu_format_b8g8r8x8_unorm : ℕ
virtio_gpu_format_b8g8r8x8_unorm = 2

abbrev pub virtio_gpu_format_a8r8g8b8_unorm : ℕ
virtio_gpu_format_a8r8g8b8_unorm = 3

abbrev pub virtio_gpu_format_x8r8g8b8_unorm : ℕ
virtio_gpu_format_x8r8g8b8_unorm = 4

abbrev pub virtio_gpu_format_r8g8b8a8_unorm : ℕ
virtio_gpu_format_r8g8b8a8_unorm = 67

abbrev pub virtio_gpu_format_x8b8g8r8_unorm : ℕ
virtio_gpu_format_x8b8g8r8_unorm = 68

abbrev pub virtio_gpu_format_a8b8g8r8_unorm : ℕ
virtio_gpu_format_a8b8g8r8_unorm = 121

abbrev pub virtio_gpu_format_r8g8b8x8_unorm : ℕ
virtio_gpu_format_r8g8b8x8_unorm = 134
