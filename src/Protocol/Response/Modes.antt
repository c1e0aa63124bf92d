-- ===== src/Protocol/Response/Modes.antt =====
-- The screens of the display information: which slot holds which mode.
use native.Mathlib.Nat.{sub-zero}
use vhost_gpu_backend.Prelude.{
  ℕ, zero, suc, ◌-◌, ◌^◌, ◌<◌, ◌≤◌, ◌≡◌, refl, ap, List, [], ◌∷◌, ◌++◌, map, All, All-replicate,
  length, length-replicate, replicate, arith,
}
use vhost_gpu_backend.Wire.Array.{Elements}
use vhost_gpu_backend.Protocol.Structs.{
  VirtioGpuDisplayOne, virtio_gpu_display_one, virtio_gpu_rect,
}
use vhost_gpu_backend.Protocol.Response.{set_pmode, set_pmodes}

-- The default screen of a slot, and the screen of a mode.
abbrev pub blank : VirtioGpuDisplayOne
blank = virtio_gpu_display_one.default

abbrev pub screen : ℕ × ℕ → VirtioGpuDisplayOne
screen (width, height) = record {
  r = record { x = 0; y = 0; width = width; height = height };
  enabled = 1;
  flags = 0;
}

pub set_pmodes-replicate :
    (n : ℕ) (modes : List (ℕ × ℕ))
    → length modes ≤ n
    → set_pmodes (replicate n blank) modes ≡ map screen modes ++ replicate (n - length modes) blank
unfolding set_pmodes virtio_gpu_display_one virtio_gpu_rect
set_pmodes-replicate zero [] h = refl
set_pmodes-replicate zero (m ∷ modes) h = absurd (omega arith)
set_pmodes-replicate (suc n) [] h = rw sub-zero
set_pmodes-replicate (suc n) (m ∷ modes) h =
    let fewer : suc n - suc (length modes) ≡ n - length modes = omega arith in
    rw fewer (ap (λ l. screen m ∷ l) (set_pmodes-replicate n modes (omega arith)))

blank-InRange : virtio_gpu_display_one.InRange blank
blank-InRange = virtio_gpu_display_one.default-InRange

screen-InRange :
    (m : ℕ × ℕ) → m.0 < 2 ^ 32 → m.1 < 2 ^ 32 → virtio_gpu_display_one.InRange (screen m)
unfolding virtio_gpu_display_one virtio_gpu_rect
screen-InRange m hw hh = ((omega arith, (omega arith, (hw, hh))), (omega arith, omega arith))

set_pmode-blank : (m : ℕ × ℕ) → set_pmode blank m ≡ screen m
unfolding set_pmode virtio_gpu_display_one virtio_gpu_rect
set_pmode-blank m = refl

-- Every slot holds a screen in range, whatever the number of modes.
pub set_pmodes-Elements :
    (n : ℕ) (modes : List (ℕ × ℕ))
    → All (λ m. (m.0 < 2 ^ 32) × (m.1 < 2 ^ 32)) modes
    → Elements virtio_gpu_display_one n (set_pmodes (replicate n blank) modes)
unfolding set_pmodes
set_pmodes-Elements zero [] h = (refl, tt)
set_pmodes-Elements (suc n) [] h = (
  ap suc (length-replicate n blank),
  (blank-InRange, All-replicate virtio_gpu_display_one.InRange n blank blank-InRange),
)
set_pmodes-Elements zero (m ∷ modes) h = (refl, tt)
set_pmodes-Elements (suc n) (m ∷ modes) (h, hs) =
    let rest = set_pmodes-Elements n modes hs in
    (ap suc rest.0, (rw (set_pmode-blank m) (screen-InRange m h.0 h.1), rest.1))
