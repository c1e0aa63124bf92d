-- ===== src/Gpu/State.antt =====
-- src/virtio_gpu.rs: the parameters, the resources and the state of the device, and what a method is.
use vhost_gpu_backend.Prelude.{zero, suc, suc, ℕ, Bool, Option, none, some}
use vhost_gpu_backend.Prelude.Result.{Result, ok, err}
use vhost_gpu_backend.Prelude.Table.{Table}
use vhost_gpu_backend.Libraries.{Libraries, Call}
use vhost_gpu_backend.Protocol.Response.{VirtioGpuResponse, rutabaga_error, display_err}

pub data GpuMode : Type 0 where
  mode_2d mode_3d : GpuMode

pub record GpuParameter : Type 0 where
  pub display_width : ℕ
  pub display_height : ℕ
  pub renderer_use_egl : Bool
  pub renderer_use_gles : Bool
  pub renderer_use_glx : Bool
  pub renderer_use_surfaceless : Bool
  pub mode : GpuMode

pub record VirtioGpuResource : Type 0 where
  pub resource_id : ℕ
  pub width : ℕ
  pub height : ℕ
  pub size : ℕ

abbrev pub dimensions : VirtioGpuResource → ℕ × ℕ
dimensions r = (r.width, r.height)

-- `NonZeroU32::new`
abbrev pub non_zero : ℕ → Option ℕ
non_zero zero = none
non_zero (suc n) = some (suc n)

-- The display is shared by a reference-counted cell; between two calls others may change it, and
-- during one nobody else does.
pub record VirtioGpu (l : Libraries) : Type 0 where
  pub display : l.display.State
  pub display_width : ℕ
  pub display_height : ℕ
  pub scanout_resource_id : Option ℕ
  pub scanout_surface_id : Option ℕ
  pub cursor_resource_id : Option ℕ
  pub cursor_surface_id : Option ℕ
  pub rutabaga : l.rutabaga.State
  pub resources : Table VirtioGpuResource

abbrev pub Response : Libraries → Type 0
Response l = VirtioGpuResponse l.GuestMemoryError l.rutabaga.Error l.TryFromIntError l.display.Error

-- How a call ends: with a value, with an error, in a panic of the program's own (an `unwrap` of
-- `None`), or in a panic of a library's call.
pub data Outcome (E A : Type 0) : Type 0 where
  done : A → Outcome E A
  raised : E → Outcome E A
  panicked : Outcome E A
  library_panicked : Outcome E A

-- The result of a library call, with its error as an error of the device.
abbrev pub of_result : {E F A : Type 0} → (E → F) → Result E A → Outcome F A
of_result f (ok a) = done a
of_result f (err e) = raised (f e)

module _ (l : Libraries) where
  -- A method on `&mut self`. What it has changed before it fails stays changed.
  abbrev pub Action : Type 0 → Type 0
  Action A = VirtioGpu l → Outcome (Response l) A × VirtioGpu l

module _ {l : Libraries} where
  infixl 5 ◌>>=◌ ◌>>◌
  abbrev pub ◌>>=◌ : {A B : Type 0} → Action l A → (A → Action l B) → Action l B
  ◌>>=◌ m f g =
      let (r, g') = m g in
      elim r [
        | done a ↦ f a g'
        | raised e ↦ (raised e, g')
        | panicked ↦ (panicked, g')
        | library_panicked ↦ (library_panicked, g')
      ]

  abbrev pub ◌>>◌ : {B : Type 0} → Action l (Unit {0}) → Action l B → Action l B
  m >> k = m >>= λ _. k

  abbrev pub pure : {A : Type 0} → A → Action l A
  pure a g = (done a, g)

  abbrev pub raise : {A : Type 0} → Response l → Action l A
  raise e g = (raised e, g)

  abbrev pub gets : {A : Type 0} → (VirtioGpu l → A) → Action l A
  gets f g = (done (f g), g)

  abbrev pub modify : (VirtioGpu l → VirtioGpu l) → Action l (Unit {0})
  modify f g = (done tt, f g)

  -- `o.ok_or(e)?`
  abbrev pub ok_or : {A : Type 0} → Option A → Response l → Action l A
  ok_or none e = raise e
  ok_or (some a) e = pure a

  -- `o.unwrap()`
  abbrev pub unwrap : {A : Type 0} → Option A → Action l A
  unwrap none g = (panicked, g)
  unwrap (some a) g = (done a, g)

  -- `self.rutabaga.call(..)?`
  abbrev pub rutabaga_call : {A : Type 0} → Call l.rutabaga.State l.rutabaga.Error A → Action l A
  rutabaga_call f g =
      let (r, s) = f g.rutabaga in (of_result rutabaga_error r, record g { rutabaga = s })

  -- `self.rutabaga.call(..)` of a call that can panic: the device stays as it was.
  abbrev pub rutabaga_partial :
      {A : Type 0} → (l.rutabaga.State → Option (A × l.rutabaga.State)) → Action l A
  rutabaga_partial f g = elim (f g.rutabaga) [
    | none ↦ (library_panicked, g)
    | some (a, s) ↦ (done a, record g { rutabaga = s })
  ]

  -- The same of the display.
  abbrev pub display_partial :
      {A : Type 0} → (l.display.State → Option (A × l.display.State)) → Action l A
  display_partial f g = elim (f g.display) [
    | none ↦ (library_panicked, g)
    | some (a, s) ↦ (done a, record g { display = s })
  ]

  -- `self.display.borrow_mut().call(..)`
  abbrev pub display_do : (l.display.State → l.display.State) → Action l (Unit {0})
  display_do f g = (done tt, record g { display = f g.display })

  -- `.create_surface(..).map_err(VirtioGpuResponse::DisplayErr)?`
  abbrev pub display_try : {A : Type 0} → Call l.display.State l.display.Error A → Action l A
  display_try f g = let (r, s) = f g.display in (of_result display_err r, record g { display = s })
