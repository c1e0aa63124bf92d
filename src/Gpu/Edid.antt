-- ===== src/Gpu/Edid.antt =====
-- The EDID that the device reports (src/virtio_gpu.rs, `cmd_get_edid`), and writes into fixed arrays.
use vhost_gpu_backend.Prelude.{ℕ, zero, suc, List, [], ◌∷◌, Option, none, some}
use mathlib.Core.Option

abbrev pub edid_vec : List ℕ
edid_vec =
    0x00 ∷ 0xff ∷ 0xff ∷ 0xff ∷ 0xff ∷ 0xff ∷ 0xff ∷ 0x00 ∷ 0x10 ∷ 0xac ∷ 0xc0 ∷ 0xa0 ∷ 0x4c ∷ 0x55
    ∷ 0x36 ∷ 0x30 ∷ 0x2d ∷ 0x18 ∷ 0x01 ∷ 0x03 ∷ 0x80 ∷ 0x35 ∷ 0x1e ∷ 0x78 ∷ 0xea ∷ 0xe2 ∷ 0x45
    ∷ 0xa8 ∷ 0x55 ∷ 0x4d ∷ 0xa3 ∷ 0x26 ∷ 0x0b ∷ 0x50 ∷ 0x54 ∷ 0xa5 ∷ 0x4b ∷ 0x00 ∷ 0x71 ∷ 0x4f
    ∷ 0x81 ∷ 0x80 ∷ 0xa9 ∷ 0xc0 ∷ 0xa9 ∷ 0x40 ∷ 0xd1 ∷ 0xc0 ∷ 0xe1 ∷ 0x00 ∷ 0x01 ∷ 0x01 ∷ 0x01
    ∷ 0x01 ∷ 0xa3 ∷ 0x66 ∷ 0x00 ∷ 0xa0 ∷ 0xf0 ∷ 0x70 ∷ 0x1f ∷ 0x80 ∷ 0x30 ∷ 0x20 ∷ 0x35 ∷ 0x00
    ∷ 0x0f ∷ 0x28 ∷ 0x21 ∷ 0x00 ∷ 0x00 ∷ 0x1a ∷ 0x00 ∷ 0x00 ∷ 0x00 ∷ 0xff ∷ 0x00 ∷ 0x50 ∷ 0x32
    ∷ 0x50 ∷ 0x43 ∷ 0x32 ∷ 0x34 ∷ 0x42 ∷ 0x34 ∷ 0x30 ∷ 0x36 ∷ 0x55 ∷ 0x4c ∷ 0x0a ∷ 0x00 ∷ 0x00
    ∷ 0x00 ∷ 0xfc ∷ 0x00 ∷ 0x44 ∷ 0x45 ∷ 0x4c ∷ 0x4c ∷ 0x20 ∷ 0x50 ∷ 0x32 ∷ 0x34 ∷ 0x31 ∷ 0x35
    ∷ 0x51 ∷ 0x0a ∷ 0x20 ∷ 0x00 ∷ 0x00 ∷ 0x00 ∷ 0xfd ∷ 0x00 ∷ 0x1d ∷ 0x4c ∷ 0x1e ∷ 0x8c ∷ 0x1e
    ∷ 0x00 ∷ 0x0a ∷ 0x20 ∷ 0x20 ∷ 0x20 ∷ 0x20 ∷ 0x20 ∷ 0x20 ∷ 0x01 ∷ 0x96 ∷ 0x02 ∷ 0x03 ∷ 0x2a
    ∷ 0xf1 ∷ 0x53 ∷ 0x90 ∷ 0x05 ∷ 0x04 ∷ 0x02 ∷ 0x07 ∷ 0x16 ∷ 0x01 ∷ 0x14 ∷ 0x1f ∷ 0x12 ∷ 0x13
    ∷ 0x27 ∷ 0x20 ∷ 0x21 ∷ 0x22 ∷ 0x03 ∷ 0x06 ∷ 0x11 ∷ 0x15 ∷ 0x23 ∷ 0x09 ∷ 0x07 ∷ 0x07 ∷ 0x6d
    ∷ 0x03 ∷ 0x0c ∷ 0x00 ∷ 0x10 ∷ 0x00 ∷ 0x30 ∷ 0x3c ∷ 0x20 ∷ 0x00 ∷ 0x60 ∷ 0x03 ∷ 0x02 ∷ 0x01
    ∷ 0x02 ∷ 0x3a ∷ 0x80 ∷ 0x18 ∷ 0x71 ∷ 0x38 ∷ 0x2d ∷ 0x40 ∷ 0x58 ∷ 0x2c ∷ 0x25 ∷ 0x00 ∷ 0x0f
    ∷ 0x28 ∷ 0x21 ∷ 0x00 ∷ 0x00 ∷ 0x1f ∷ 0x01 ∷ 0x1d ∷ 0x80 ∷ 0x18 ∷ 0x71 ∷ 0x1c ∷ 0x16 ∷ 0x20
    ∷ 0x58 ∷ 0x2c ∷ 0x25 ∷ 0x00 ∷ 0x0f ∷ 0x28 ∷ 0x21 ∷ 0x00 ∷ 0x00 ∷ 0x9e ∷ 0x04 ∷ 0x74 ∷ 0x00
    ∷ 0x30 ∷ 0xf2 ∷ 0x70 ∷ 0x5a ∷ 0x80 ∷ 0xb0 ∷ 0x58 ∷ 0x8a ∷ 0x00 ∷ 0x0f ∷ 0x28 ∷ 0x21 ∷ 0x00
    ∷ 0x00 ∷ 0x1e ∷ 0x56 ∷ 0x5e ∷ 0x00 ∷ 0xa0 ∷ 0xa0 ∷ 0xa0 ∷ 0x29 ∷ 0x50 ∷ 0x30 ∷ 0x20 ∷ 0x35
    ∷ 0x00 ∷ 0x0f ∷ 0x28 ∷ 0x21 ∷ 0x00 ∷ 0x00 ∷ 0x1a ∷ 0x00 ∷ 0x00 ∷ 0x00 ∷ 0x00 ∷ 0x00 ∷ 0x00
    ∷ 0x00 ∷ 0x00 ∷ 0x00 ∷ 0x00 ∷ 0x00 ∷ 0x00 ∷ 0x00 ∷ 0xf9 ∷ []

-- `for (i, b) in bytes.enumerate() { array[position + i] = b }`; `none` is the panic on an index
-- behind the end.
unfoldable pub write_at : ℕ → List ℕ → List ℕ → Option (List ℕ)
write_at position [] array = some array
write_at position (b ∷ bytes) [] = none
write_at zero (b ∷ bytes) (x ∷ array) = Option.map (λ l. b ∷ l) (write_at zero bytes array)
write_at (suc position) (b ∷ bytes) (x ∷ array) =
    Option.map (λ l. x ∷ l) (write_at position (b ∷ bytes) array)
