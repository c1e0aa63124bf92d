-- ===== src/Tests/Device.antt =====
-- A device on which one resource is made and shown, and requests for it.

use vhost_gpu_backend.Gpu.Cursor.{
  cmd_update_cursor, copy_cursor, show_cursor, create_cursor_surface,
}
use vhost_gpu_backend.Protocol.Response.{ok_resource_uuid}
use vhost_gpu_backend.Gpu.Methods.Safety.{Reachable-IsValid}
use vhost_gpu_backend.Gpu.Invariant.{IsValid}
use vhost_gpu_backend.Gpu.New.{default, initial, new}
use vhost_gpu_backend.Protocol.Structs.{
  VirtioGpuCmdGetEdid, VirtioGpuResourceAssignUuid, VirtioGpuResourceFlush, VirtioGpuResourceUnref,
  VirtioGpuSetScanout, VirtioGpuResourceCreate2d, VirtioGpuCtrlHdr, VirtioGpuUpdateCursor,
}
use vhost_gpu_backend.Prelude.{◌++◌, replicate, ℕ, List, [], ◌∷◌, refl, some}
use vhost_gpu_backend.Libraries.{ResourceCreate3d}
use vhost_gpu_backend.Gpu.State.{VirtioGpuResource, Response, VirtioGpu}
use vhost_gpu_backend.Gpu.Commands.{
  answer_created, record_created, cmd_resource_create_2d, resource_create_3d,
}
use vhost_gpu_backend.Gpu.Scanout.{
  import_to_display, transfer_read_into, create_scanout_surface, show_scanout, cmd_set_scanout,
}
use vhost_gpu_backend.Gpu.Methods.{
  call_update_cursor, call, call_resource_create_2d, call_set_scanout, Reachable, made, called,
}
use vhost_gpu_backend.Tests.Instance.{libraries}
use vhost_gpu_backend.Tests.Renderer.{renderer_laws}
use vhost_gpu_backend.Tests.Server.{server_laws}

abbrev pub header : VirtioGpuCtrlHdr
header = record { type_ = 0; flags = 0; fence_id = 0; ctx_id = 0; padding = 0 }

abbrev pub create_cmd : VirtioGpuResourceCreate2d
create_cmd = record { hdr = header; resource_id = 7; format = 1; width = 640; height = 480 }

abbrev pub scanout_cmd : ℕ → VirtioGpuSetScanout
scanout_cmd id = record {
  hdr = header;
  r = record { x = 0; y = 0; width = 640; height = 480 };
  scanout_id = 0;
  resource_id = id;
}

abbrev pub flush_cmd : ℕ → VirtioGpuResourceFlush
flush_cmd id = record {
  hdr = header;
  r = record { x = 0; y = 0; width = 640; height = 480 };
  resource_id = id;
  padding = 0;
}

abbrev pub unref_cmd : VirtioGpuResourceUnref
unref_cmd = record { hdr = header; resource_id = 7; padding = 0 }

abbrev pub cursor_cmd : ℕ → VirtioGpuUpdateCursor
cursor_cmd id = record {
  hdr = header;
  pos = record { scanout_id = 0; x = 5; y = 6; padding = 0 };
  resource_id = id;
  hot_x = 0;
  padding = 0;
}

abbrev pub fresh : VirtioGpu libraries
fresh = initial default (1, [], []) []

abbrev pub entry_7 : VirtioGpuResource
entry_7 = record { resource_id = 7; width = 640; height = 480; size = 0 }

abbrev pub with_resource : VirtioGpu libraries
with_resource = record fresh { rutabaga = (7, tt) ∷ []; resources = (7, entry_7) ∷ [] }

abbrev pub with_screen : VirtioGpu libraries
with_screen = record with_resource {
  display = (2, (1, (1920, 1080)) ∷ [], []);
  scanout_resource_id = some 7;
  scanout_surface_id = some 1;
}

pub fresh-Reachable : Reachable libraries fresh
unfolding new
fresh-Reachable = made default fresh refl

pub with_resource-Reachable : Reachable libraries with_resource
unfolding call cmd_resource_create_2d resource_create_3d record_created answer_created
with_resource-Reachable = called (call_resource_create_2d create_cmd) fresh fresh-Reachable

pub with_screen-Reachable : Reachable libraries with_screen
unfolding call cmd_set_scanout show_scanout create_scanout_surface
with_screen-Reachable =
    called (call_set_scanout (scanout_cmd 7)) with_resource with_resource-Reachable

-- After the release of the shown resource.
abbrev pub released : VirtioGpu libraries
released = record with_screen { rutabaga = []; resources = [] }

abbrev pub create_3d : ResourceCreate3d
create_3d = record {
  target = 2;
  format = 1;
  bind = 2;
  width = 640;
  height = 480;
  depth = 1;
  array_size = 1;
  last_level = 0;
  nr_samples = 0;
  flags = 0;
}

pub fresh-IsValid : IsValid fresh
fresh-IsValid = Reachable-IsValid renderer_laws server_laws fresh fresh-Reachable

pub with_resource-IsValid : IsValid with_resource
with_resource-IsValid =
    Reachable-IsValid renderer_laws server_laws with_resource with_resource-Reachable

pub with_screen-IsValid : IsValid with_screen
with_screen-IsValid = Reachable-IsValid renderer_laws server_laws with_screen with_screen-Reachable

abbrev pub uuid_cmd : VirtioGpuResourceAssignUuid
uuid_cmd = record { hdr = header; resource_id = 7; padding = 0 }

abbrev pub uuid_7 : Response libraries
uuid_7 = ok_resource_uuid (replicate 15 0 ++ (7 ∷ []))

abbrev pub edid_cmd : VirtioGpuCmdGetEdid
edid_cmd = record { hdr = header; scanout = 0; padding = 0 }

-- One range in memory.
abbrev pub ranges : List (ℕ × ℕ)
ranges = (16, 32) ∷ []

abbrev pub with_cursor : VirtioGpu libraries
with_cursor = record with_screen {
  display = (3, (1, (1920, 1080)) ∷ (2, (640, 480)) ∷ [], (2, 7) ∷ []);
  cursor_resource_id = some 7;
  cursor_surface_id = some 2;
}

-- The resource is the cursor, and nothing is on the screen: its surface is smaller than the display.
abbrev pub only_cursor : VirtioGpu libraries
only_cursor = record with_resource {
  display = (2, (1, (640, 480)) ∷ [], (1, 7) ∷ []);
  cursor_resource_id = some 7;
  cursor_surface_id = some 1;
}

pub only_cursor-Reachable : Reachable libraries only_cursor
unfolding call cmd_update_cursor show_cursor create_cursor_surface copy_cursor import_to_display
    transfer_read_into
only_cursor-Reachable =
    called (call_update_cursor (cursor_cmd 7)) with_resource with_resource-Reachable
