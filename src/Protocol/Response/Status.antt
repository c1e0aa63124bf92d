-- ===== src/Protocol/Response/Status.antt =====
-- When `encode` fails, and which status the type of a response reports to the guest.
use mathlib.Core.Path.{subst}
use vhost_gpu_backend.Prelude.{
  ap, ◌≤◌, ℕ, ◌<◌, ◌≡◌, ◌↔◌, refl, sym, List, length, ltb, leb, arith, Bool, true, false, not, ◌&&◌,
  Bool-cases, inl, inr,
}
use vhost_gpu_backend.Prelude.Result.{Result-cases, ok, err, ok-ne-err, err-injective}
use vhost_gpu_backend.Protocol.Consts
use vhost_gpu_backend.Protocol.Structs.{VirtioGpuCtrlHdr}
use vhost_gpu_backend.Protocol.Response.{
  VirtioGpuResponse, ok_no_data, ok_display_info, ok_capset_info, ok_capset, ok_resource_uuid,
  ok_edid, too_many_scanout, get_resp_command_const, header, encode_body, encode,
}

-- The type numbers from 0x1100 on are successes and those from 0x1200 on are errors.
abbrev pub reports_ok : ℕ → Bool
reports_ok type_ = leb 0x1100 type_ && ltb type_ 0x1200

module _ {M R I D : Type 0} where
  -- The variants with which a command reports success.
  abbrev pub is_ok : VirtioGpuResponse M R I D → Bool
  is_ok ok_no_data = true
  is_ok (ok_display_info _) = true
  is_ok (ok_capset_info _ _ _) = true
  is_ok (ok_capset _) = true
  is_ok (ok_resource_uuid _) = true
  is_ok (ok_edid _ _) = true
  is_ok _ = false

  abbrev pub is_edid : VirtioGpuResponse M R I D → Bool
  is_edid (ok_edid _ _) = true
  is_edid _ = false

  -- The type of a response is that of a success exactly for the variants of success other than
  -- `OkEdid`, which goes to the guest as the error `ERR_UNSPEC`.
  pub reports_ok-get_resp_command_const :
      (r : VirtioGpuResponse M R I D)
      → (reports_ok (get_resp_command_const r) ≡ (is_ok r && not (is_edid r)))
        × (is_edid r ≡ true → get_resp_command_const r ≡ 0x1200)
  unfolding get_resp_command_const
  reports_ok-get_resp_command_const ok_no_data = (refl, λ e. cc)
  reports_ok-get_resp_command_const (ok_edid size edid) = (refl, λ e. refl)
  reports_ok-get_resp_command_const _ = (refl, λ e. cc)

  encode_body_err :
      (r x : VirtioGpuResponse M R I D) (hdr : VirtioGpuCtrlHdr)
      → encode_body hdr r ≡ err x
      → (modes : List (ℕ × ℕ)) × (r ≡ ok_display_info modes)
        × (16 < length modes)
        × (x ≡ too_many_scanout (length modes))
  unfolding encode_body
  encode_body_err ok_no_data x hdr e = absurd (ok-ne-err e)
  encode_body_err (ok_display_info modes) x hdr e =
      elim (Bool-cases (ltb Consts.virtio_gpu_max_scanouts (length modes))) [
        | inl many ↦ (modes, refl, ground arith, sym (err-injective (rw (many, encode_body) at e)))
        | inr few ↦ absurd (ok-ne-err (rw (few, encode_body) at e))
      ]
  encode_body_err _ x hdr e = absurd (ok-ne-err e)

  encode_many :
      (modes : List (ℕ × ℕ)) (x : VirtioGpuResponse M R I D) (flags fence_id ctx_id : ℕ)
      → 16 < length modes
      → x ≡ too_many_scanout (length modes)
      → encode (ok_display_info modes) flags fence_id ctx_id ≡ err x
  unfolding encode
  encode_many modes x flags fence_id ctx_id many value =
      let test : ltb Consts.virtio_gpu_max_scanouts (length modes) ≡ true = ground arith in
      rw (value, encode_body, test)

  -- `encode` fails exactly on the display information with more than 16 modes, and the error
  -- carries their number.
  pub encode_err_iff :
      (r x : VirtioGpuResponse M R I D) (flags fence_id ctx_id : ℕ)
      → (encode r flags fence_id ctx_id ≡ err x) ↔ (
          (modes : List (ℕ × ℕ)) × (r ≡ ok_display_info modes)
          × (16 < length modes)
          × (x ≡ too_many_scanout (length modes)))
  unfolding encode
  encode_err_iff r x flags fence_id ctx_id = (
    encode_body_err r x (header r flags fence_id ctx_id),
    λ (modes, e, many, value).
        subst (λ q. encode q flags fence_id ctx_id ≡ err x) (sym e)
          (encode_many modes x flags fence_id ctx_id many value),
  )

  -- How many modes a response lists.
  abbrev pub modes_count : VirtioGpuResponse M R I D → ℕ
  modes_count (ok_display_info modes) = length modes
  modes_count _ = 0

  pub encode_total :
      (r : VirtioGpuResponse M R I D) (flags fence_id ctx_id : ℕ)
      → modes_count r ≤ 16
      → (bs : List ℕ) × (encode r flags fence_id ctx_id ≡ ok bs)
  encode_total r flags fence_id ctx_id few = elim (Result-cases (encode r flags fence_id ctx_id)) [
    | inl found ↦ found
    | inr (y, failed) ↦
        let (modes, same, many, _) = (encode_err_iff r y flags fence_id ctx_id).0 failed in
        absurd (omega (arith, ap modes_count same, few, many))
  ]
