-- ===== src/Protocol/Command/Decode.antt =====
-- What `decode` returns on every input.
use mathlib.Core.Path.{subst}
use vhost_gpu_backend.Prelude.{ap, All-map, ℕ, ◌≡◌, ◌⊎◌, inl, inr, refl, sym, List, [], some}
use vhost_gpu_backend.Prelude.Result.{
  ok, err, map_ok, map_err, Result-cases, ok-injective, err-ne-ok, ok-ne-err, err-injective,
}
use vhost_gpu_backend.Wire.ByteValued.{ByteValued}
use vhost_gpu_backend.GuestMemory.{
  GuestMemory, read_obj, Holds, read_obj-as_slice, read_obj_ok, read_obj_err,
}
use vhost_gpu_backend.Protocol.Structs.{VirtioGpuCtrlHdr, virtio_gpu_ctrl_hdr}
use vhost_gpu_backend.Protocol.Command.{
  VirtioGpuCommand, VirtioGpuCommandDecodeError, invalid_command, parser_error, size, Decoded,
  match_arms, read_as, arms, decode,
}
use vhost_gpu_backend.Protocol.Command.Arms.{
  match_arms_rule, IsArm, arms-IsArm, match_arms-request, no_arm, arms_unknown,
}
use vhost_gpu_backend.Protocol.Command.Request.{
  request_of, request, request_bytes, IsWellFormed, IsRequestType, make-payload, size-eq-size_of,
}

module _ (g : GuestMemory) where
  -- Where guest memory holds a header in range with the type number of a well-formed request at the
  -- first read, and the bytes of the request at the second read, `decode` returns that request, for
  -- each of the 22 kinds.
  pub decode-request_bytes :
      (first second : g.Memory) (addr : ℕ) (hdr : VirtioGpuCtrlHdr) (c : VirtioGpuCommand)
      → virtio_gpu_ctrl_hdr.InRange hdr
      → Holds g first addr (virtio_gpu_ctrl_hdr.as_slice hdr)
      → hdr.type_ ≡ (request c).const
      → IsWellFormed c
      → Holds g second addr (request_bytes c)
      → decode g first second addr ≡ ok c
  unfolding decode
  decode-request_bytes first second addr hdr c hr hh e cr ch =
      let head = read_obj-as_slice g virtio_gpu_ctrl_hdr first addr hdr hr hh in
      let body = read_obj-as_slice g (request c).codec second addr (request c).payload cr ch in
      rw (
        head,
        map_err,
        e,
        match_arms-request g second addr c,
        read_as,
        body,
        map_err,
        map_ok,
        make-payload c,
      )

  -- What `decode` has read when it returns a request: a header with the type number of the request,
  -- and then the bytes of the request, as many as `size` says.
  abbrev pub HasRead : g.Memory → ℕ → ℕ → VirtioGpuCommand → Type 0
  HasRead m addr type_ c =
      (type_ ≡ (request c).const) × (read_obj g (request c).codec m addr ≡ ok (request c).payload)

  read_as_ok :
      {A : Type 0} (m : g.Memory) (addr type_ : ℕ) (make : A → VirtioGpuCommand) (c : ByteValued A)
      → ((v : A) → read_obj g c m addr ≡ ok v → HasRead m addr type_ (make v))
      → (cmd : VirtioGpuCommand) → read_as g m addr make c ≡ ok cmd
      → HasRead m addr type_ cmd
  unfolding read_as
  read_as_ok m addr type_ make c sound cmd e = elim (Result-cases (read_obj g c m addr)) [
    | inl (v, got) ↦
        subst (HasRead m addr type_) (ok-injective (rw (got, map_err, map_ok) at e)) (sound v got)
    | inr (x, failed) ↦ absurd (err-ne-ok (rw (failed, map_err, map_ok) at e))
  ]

  arm_ok :
      (m : g.Memory) (addr type_ : ℕ) (cmd : VirtioGpuCommand) (a : ℕ × Decoded g VirtioGpuCommand)
      → IsArm g m addr a
      → type_ ≡ a.0
      → a.1 ≡ ok cmd
      → HasRead m addr type_ cmd
  arm_ok m addr type_ cmd (const, r) (A, make, c, reads, same, known) t e =
      read_as_ok m addr type_ make c (λ v got. rw (same v) (t, got)) cmd (rw reads at e)

  arms_ok :
      (m : g.Memory) (addr type_ : ℕ) (cmd : VirtioGpuCommand)
      → match_arms type_ (arms g m addr) (err (invalid_command type_)) ≡ ok cmd
      → HasRead m addr type_ cmd
  arms_ok m addr type_ cmd =
      match_arms_rule (λ r. r ≡ ok cmd → HasRead m addr type_ cmd) type_ (arms g m addr)
        (err (invalid_command type_))
        (All-map (arm_ok m addr type_ cmd) (arms g m addr) (arms-IsArm g m addr))
        (λ others e. absurd (err-ne-ok e))

  -- A request that `decode` returns was announced by the header that was read first, and is in
  -- range and read from exactly as many bytes as `size` says.
  pub decode_ok :
      (first second : g.Memory) (addr : ℕ) (c : VirtioGpuCommand)
      → decode g first second addr ≡ ok c
      → (hdr : VirtioGpuCtrlHdr) × (read_obj g virtio_gpu_ctrl_hdr first addr ≡ ok hdr)
        × (hdr.type_ ≡ (request c).const)
        × (bs : List ℕ) × (g.read_slice second addr (size c) ≡ ok bs)
        × ((request c).codec.read bs ≡ some ((request c).payload, []))
        × IsWellFormed c
  unfolding decode
  decode_ok first second addr c e =
      elim (Result-cases (read_obj g virtio_gpu_ctrl_hdr first addr)) [
        | inl (hdr, got) ↦
            let (type_, body) = arms_ok second addr hdr.type_ c (rw (got, map_err) at e) in
            let (bs, slice, found, inside) =
              read_obj_ok g (request c).codec second addr (request c).payload body in
            (hdr, got, type_, bs, rw (size-eq-size_of c) slice, found, inside)
        | inr (x, failed) ↦ absurd (err-ne-ok (rw (failed, map_err) at e))
      ]

  -- Why the match fails: no arm has the type number, or the bytes of the structure that a request of
  -- this type number has, as many as its `size`, cannot be read.
  abbrev pub HasFailed : g.Memory → ℕ → ℕ → VirtioGpuCommandDecodeError g.Error → Type 0
  HasFailed m addr type_ (invalid_command u) = (u ≡ type_) × ¬ (IsRequestType type_)
  HasFailed m addr type_ (parser_error x) =
      IsRequestType type_
      × (c : VirtioGpuCommand) × ((request c).const ≡ type_)
      × (g.read_slice m addr (size c) ≡ err x)

  read_as_err :
      {A : Type 0} (m : g.Memory) (addr type_ : ℕ) (make : A → VirtioGpuCommand) (c : ByteValued A)
      (x : VirtioGpuCommandDecodeError g.Error)
      → request (make c.default) ≡ request_of c type_ make c.default
      → IsRequestType type_
      → read_as g m addr make c ≡ err x
      → HasFailed m addr type_ x
  unfolding read_as
  read_as_err m addr type_ make c x same known e = elim (Result-cases (read_obj g c m addr)) [
    | inl (v, got) ↦ absurd (ok-ne-err (rw (got, map_err, map_ok) at e))
    | inr (y, failed) ↦
        subst (HasFailed m addr type_) (err-injective (rw (failed, map_err, map_ok) at e)) (
          known,
          make c.default,
          ap (λ q. q.const) same,
          rw (size-eq-size_of (make c.default), same) (read_obj_err g c m addr y failed),
        )
  ]

  arm_err :
      (m : g.Memory) (addr type_ : ℕ) (x : VirtioGpuCommandDecodeError g.Error)
      (a : ℕ × Decoded g VirtioGpuCommand)
      → IsArm g m addr a
      → type_ ≡ a.0
      → a.1 ≡ err x
      → HasFailed m addr type_ x
  arm_err m addr type_ x (const, r) (A, make, c, reads, same, known) t e =
      read_as_err m addr type_ make c x (rw t (same c.default)) (rw t known) (rw reads at e)

  arms_err :
      (m : g.Memory) (addr type_ : ℕ) (x : VirtioGpuCommandDecodeError g.Error)
      → match_arms type_ (arms g m addr) (err (invalid_command type_)) ≡ err x
      → HasFailed m addr type_ x
  arms_err m addr type_ x =
      match_arms_rule (λ r. r ≡ err x → HasFailed m addr type_ x) type_ (arms g m addr)
        (err (invalid_command type_))
        (All-map (arm_err m addr type_ x) (arms g m addr) (arms-IsArm g m addr))
        (λ others e.
          subst (HasFailed m addr type_) (err-injective e) (refl, no_arm g m addr type_ others))

  -- `decode` fails only where the header cannot be read, where its type number is none of a
  -- request, or where the bytes of a request with this type number, as many as its `size`, cannot
  -- be read at the address.
  pub decode_err :
      (first second : g.Memory) (addr : ℕ) (x : VirtioGpuCommandDecodeError g.Error)
      → decode g first second addr ≡ err x
      → ((y : g.Error) × (x ≡ parser_error y) × (read_obj g virtio_gpu_ctrl_hdr first addr ≡ err y))
        ⊎ ((hdr : VirtioGpuCtrlHdr) × (read_obj g virtio_gpu_ctrl_hdr first addr ≡ ok hdr)
            × HasFailed second addr hdr.type_ x)
  unfolding decode
  decode_err first second addr x e =
      elim (Result-cases (read_obj g virtio_gpu_ctrl_hdr first addr)) [
        | inl (hdr, got) ↦ inr (hdr, got, arms_err second addr hdr.type_ x (rw (got, map_err) at e))
        | inr (y, failed) ↦ inl (y, sym (err-injective (rw (failed, map_err) at e)), failed)
      ]

  -- A header in range with a type number that is none of a request is refused, and the error names
  -- the number.
  pub decode_unknown :
      (first second : g.Memory) (addr : ℕ) (hdr : VirtioGpuCtrlHdr)
      → virtio_gpu_ctrl_hdr.InRange hdr
      → Holds g first addr (virtio_gpu_ctrl_hdr.as_slice hdr)
      → ¬ (IsRequestType hdr.type_)
      → decode g first second addr ≡ err (invalid_command hdr.type_)
  unfolding decode
  decode_unknown first second addr hdr hr hh unknown =
      let head = read_obj-as_slice g virtio_gpu_ctrl_hdr first addr hdr hr hh in
      rw (head, map_err) (arms_unknown g second addr hdr.type_ unknown)
