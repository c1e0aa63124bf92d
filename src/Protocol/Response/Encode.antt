-- ===== src/Protocol/Response/Encode.antt =====
-- What `encode` writes: the length and the bytes, the header, and the values behind it.
use mathlib.Core.Path.{subst}
use vhost_gpu_backend.Prelude.{
  Bool-cases, ℕ, ◌+◌, ◌-◌, ◌^◌, ◌<◌, ◌≡◌, inl, inr, refl, ap, ◌∙◌, List, [], ◌++◌, map, some, All,
  All-append, length, replicate, ltb, arith, length-append,
}
use vhost_gpu_backend.Prelude.Result.{ok, ok-injective, err-ne-ok}
use vhost_gpu_backend.Wire.Bytes.{IsByte}
use vhost_gpu_backend.Wire.ByteValued.{as_slice-IsBytesOf}
use vhost_gpu_backend.Protocol.Consts
use vhost_gpu_backend.Protocol.Structs.{
  virtio_gpu_display_one, virtio_gpu_rect, virtio_gpu_rect, VirtioGpuCtrlHdr, virtio_gpu_ctrl_hdr,
  virtio_gpu_resp_display_info, virtio_gpu_resp_capset_info, virtio_gpu_resp_edid,
  virtio_gpu_resp_resource_uuid,
}
use vhost_gpu_backend.Protocol.Response.Modes.{
  blank, screen, set_pmodes-replicate, set_pmodes-Elements,
}
use vhost_gpu_backend.Protocol.Response.{
  encode, virtio_gpu_display_one, VirtioGpuResponse, ok_no_data, ok_display_info, ok_capset_info,
  ok_capset, ok_resource_uuid, ok_edid, get_resp_command_const, header, encode_body,
}

module _ {M R I D : Type 0} where
  -- The values of a response fit the fields that they go to.
  abbrev pub Fits : VirtioGpuResponse M R I D → Type 0
  Fits (ok_display_info modes) = All (λ m. (m.0 < 2 ^ 32) × (m.1 < 2 ^ 32)) modes
  Fits (ok_capset_info capset_id version size) =
      (capset_id < 2 ^ 32) × (version < 2 ^ 32) × (size < 2 ^ 32)
  Fits (ok_capset inner) = All IsByte inner
  Fits (ok_resource_uuid uuid) = (length uuid ≡ 16) × All IsByte uuid
  Fits (ok_edid size edid) = (size < 2 ^ 32) × ((length edid ≡ 1024) × All IsByte edid)
  Fits _ = Unit

  -- How many bytes stand behind the header.
  abbrev pub payload_length : VirtioGpuResponse M R I D → ℕ
  payload_length (ok_display_info modes) = 384
  payload_length (ok_capset_info capset_id version size) = 16
  payload_length (ok_capset inner) = length inner
  payload_length (ok_resource_uuid uuid) = 16
  payload_length (ok_edid size edid) = 1032
  payload_length _ = 0

  -- What the driver reads from the bytes, as the structure of the response.
  abbrev pub Carries : VirtioGpuResponse M R I D → VirtioGpuCtrlHdr → List ℕ → Type 0
  Carries (ok_display_info modes) hdr bs =
      virtio_gpu_resp_display_info.read bs
      ≡ some (
        record { hdr = hdr; pmodes = map screen modes ++ replicate (16 - length modes) blank },
        [],
      )
  Carries (ok_capset_info capset_id version size) hdr bs =
      virtio_gpu_resp_capset_info.read bs
      ≡ some (
        record {
          hdr = hdr;
          capset_id = capset_id;
          capset_max_version = version;
          capset_max_size = size;
          padding = 0;
        },
        [],
      )
  Carries (ok_capset inner) hdr bs = virtio_gpu_ctrl_hdr.read bs ≡ some (hdr, inner)
  Carries (ok_resource_uuid uuid) hdr bs =
      virtio_gpu_resp_resource_uuid.read bs ≡ some (record { hdr = hdr; uuid = uuid }, [])
  Carries (ok_edid size edid) hdr bs =
      virtio_gpu_resp_edid.read bs
      ≡ some (record { hdr = hdr; size = size; padding = 0; edid = edid }, [])
  Carries _ hdr bs = virtio_gpu_ctrl_hdr.read bs ≡ some (hdr, [])

  const-lt : (r : VirtioGpuResponse M R I D) → get_resp_command_const r < 2 ^ 32
  unfolding get_resp_command_const
  const-lt ok_no_data = omega arith
  const-lt _ = omega arith

  header-InRange :
      (r : VirtioGpuResponse M R I D) (flags fence_id ctx_id : ℕ)
      → flags < 2 ^ 32
      → fence_id < 2 ^ 64
      → ctx_id < 2 ^ 32
      → virtio_gpu_ctrl_hdr.InRange (header r flags fence_id ctx_id)
  unfolding header virtio_gpu_ctrl_hdr
  header-InRange r flags fence_id ctx_id hf hi hc = (const-lt r, (hf, (hi, (hc, omega arith))))

  -- What `encode` promises about its bytes.
  abbrev pub IsEncoding : VirtioGpuResponse M R I D → VirtioGpuCtrlHdr → List ℕ → Type 0
  IsEncoding r hdr bs = Carries r hdr bs × (length bs ≡ 24 + payload_length r) × All IsByte bs

  encode_body_ok :
      (r : VirtioGpuResponse M R I D) (hdr : VirtioGpuCtrlHdr) (bs : List ℕ)
      → virtio_gpu_ctrl_hdr.InRange hdr
      → Fits r
      → encode_body hdr r ≡ ok bs
      → IsEncoding r hdr bs
  unfolding encode_body virtio_gpu_ctrl_hdr virtio_gpu_resp_capset_info virtio_gpu_resp_edid
      virtio_gpu_resp_resource_uuid virtio_gpu_resp_display_info virtio_gpu_display_one
      virtio_gpu_rect
  encode_body_ok ok_no_data hdr bs hh fits e =
      as_slice-IsBytesOf virtio_gpu_ctrl_hdr hdr 24 bs hh refl e
  encode_body_ok (ok_display_info modes) hdr bs hh fits e =
      elim (Bool-cases (ltb Consts.virtio_gpu_max_scanouts (length modes))) [
        | inl many ↦ absurd (err-ne-ok (rw (many, encode_body) at e))
        | inr few ↦
            let full = set_pmodes-replicate 16 modes (ground arith) in
            let written =
              as_slice-IsBytesOf virtio_gpu_resp_display_info _ 408 bs
                (hh, set_pmodes-Elements 16 modes fits) refl (rw (few, encode_body) at e) in
            (rw full at written.0, written.1, written.2)
      ]
  encode_body_ok (ok_capset_info capset_id version size) hdr bs hh (fi, fv, fs) e =
      as_slice-IsBytesOf virtio_gpu_resp_capset_info _ 40 bs (hh, (fi, (fv, (fs, omega arith))))
        refl e
  encode_body_ok (ok_capset inner) hdr bs hh fits e =
      subst (IsEncoding (ok_capset inner) hdr) (ok-injective e) (
        virtio_gpu_ctrl_hdr.read-as_slice hdr inner hh,
        length-append (virtio_gpu_ctrl_hdr.as_slice hdr) inner
            ∙ ap (λ n. n + length inner) (virtio_gpu_ctrl_hdr.length-as_slice hdr hh),
        All-append IsByte (virtio_gpu_ctrl_hdr.as_slice hdr) inner
            (virtio_gpu_ctrl_hdr.as_slice-IsByte hdr hh) fits,
      )
  encode_body_ok (ok_resource_uuid uuid) hdr bs hh fits e =
      as_slice-IsBytesOf virtio_gpu_resp_resource_uuid _ 40 bs (hh, fits) refl e
  encode_body_ok (ok_edid size edid) hdr bs hh (fs, fe) e =
      as_slice-IsBytesOf virtio_gpu_resp_edid _ 1056 bs (hh, (fs, (omega arith, fe))) refl e
  encode_body_ok _ hdr bs hh fits e = as_slice-IsBytesOf virtio_gpu_ctrl_hdr hdr 24 bs hh refl e

  -- Where the flags, the fence, the context and the values fit their fields, the bytes that
  -- `encode` returns are those of the response: the driver reads back its header, with the type of
  -- the variant, and its values, and no byte is left; their number is 24 and the length of the
  -- payload, and each is a byte.
  pub encode_ok :
      (r : VirtioGpuResponse M R I D) (flags fence_id ctx_id : ℕ) (bs : List ℕ)
      → flags < 2 ^ 32
      → fence_id < 2 ^ 64
      → ctx_id < 2 ^ 32
      → Fits r
      → encode r flags fence_id ctx_id ≡ ok bs
      → IsEncoding r
          (record {
            type_ = get_resp_command_const r;
            flags = flags;
            fence_id = fence_id;
            ctx_id = ctx_id;
            padding = 0;
          })
          bs
  unfolding encode header
  encode_ok r flags fence_id ctx_id bs hf hi hc fits e =
      encode_body_ok r (header r flags fence_id ctx_id) bs
        (header-InRange r flags fence_id ctx_id hf hi hc) fits e
