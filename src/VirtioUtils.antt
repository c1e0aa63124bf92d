-- ===== src/VirtioUtils.antt =====
-- src/virtio_utils.rs: whether a request asks for a fence.
use vhost_gpu_backend.Prelude.{◌%◌, ◌≡◌, ◌↔◌, Bool, true, not, ◌==◌, bit_and, bit_and-one, arith}
use vhost_gpu_backend.Protocol.Consts
use vhost_gpu_backend.Protocol.Structs.{VirtioGpuCtrlHdr}

pub is_fence : VirtioGpuCtrlHdr → Bool
is_fence hdr = not (bit_and hdr.flags Consts.virtio_gpu_flag_fence == 0)

-- A request asks for a fence exactly when its flags are odd, whatever the other flags are.
pub is_fence_iff : (hdr : VirtioGpuCtrlHdr) → (is_fence hdr ≡ true) ↔ (hdr.flags % 2 ≡ 1)
unfolding is_fence
is_fence_iff hdr = ground (arith, bit_and-one hdr.flags)
