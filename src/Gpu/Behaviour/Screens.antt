-- ===== src/Gpu/Behaviour/Screens.antt =====
-- The screen: which surface and which resource it shows, and when a flush reaches it.
pub mod Refused
use vhost_gpu_backend.Gpu.Invariant.Scanout.{non_zero-id}
use vhost_gpu_backend.Gpu.Runs.{>>=_done, display_try_done}
use vhost_gpu_backend.Gpu.Invariant.Ends.{done-injective, raised-ne-done}
use mathlib.Core.Path.{subst}
use vhost_gpu_backend.Gpu.Invariant.{is_at, IsValid}
use vhost_gpu_backend.Protocol.Response.{err_invalid_resource_id, ok_no_data}
use vhost_gpu_backend.Protocol.Structs.{VirtioGpuSetScanout}
use vhost_gpu_backend.Gpu.Scanout.{
  cmd_set_scanout, disable_scanout, create_scanout_surface, show_scanout,
}
use vhost_gpu_backend.Libraries.{Libraries, DisplayLaws}
use vhost_gpu_backend.Prelude.{
  if◌then◌else◌, ==-self, Option-cases, sym, ◌∙◌, ap, arith, refl, ==-ne, Option, ℕ, ◌≢◌, ◌≡◌, inl,
  inr, none, some, true, false,
}
use mathlib.Core.Option.{some-injective}
use vhost_gpu_backend.Prelude.Table
use vhost_gpu_backend.Gpu.State.{
  Action, modify, non_zero, pure, ◌>>◌, VirtioGpuResource, Outcome, Response, VirtioGpu, done,
  raised,
}

pub none-ne-some : {A : Type 0} {a : A} → none ≢ some a
none-ne-some e = cc

module _ {l : Libraries} (dl : DisplayLaws l.display) where
  open l use {display as d}

  -- The device after the screen is switched off: it differs from the one before in the resource and
  -- the surface of the screen, which are gone, and in the display, which has released that surface.
  abbrev pub IsOff : VirtioGpu l → Outcome (Response l) (Response l) × VirtioGpu l → Type 0
  IsOff g run =
      (run.0 ≡ done ok_no_data)
      × (run.1 ≡ record g {
        display = run.1.display;
        scanout_resource_id = none;
        scanout_surface_id = none;
      })
      × ((j : ℕ)
          → d.is_live run.1.display j
            ≡ (if is_at j g.scanout_surface_id then false else d.is_live g.display j))

  off :
      (taken : Option ℕ) (g : VirtioGpu l)
      → g.scanout_surface_id ≡ taken
      → IsOff g (disable_scanout {l = l} g)
  unfolding disable_scanout
  off none g e = rw (disable_scanout, e) (refl, refl, λ j. refl)
  off (some a) g e = rw (disable_scanout, e) (refl, refl, dl.release_surface_lem a g.display)

  -- A scanout of resource 0 switches the screen off: it succeeds, the device has neither resource
  -- nor surface of the screen, and of the surfaces of the display exactly the one that it had is
  -- released. Nothing else of the device changes. The display satisfies its laws.
  pub cmd_set_scanout-IsOff :
      (cmd : VirtioGpuSetScanout) (g : VirtioGpu l)
      → cmd.resource_id ≡ 0
      → IsOff g (cmd_set_scanout {l = l} cmd g)
  unfolding cmd_set_scanout
  cmd_set_scanout-IsOff cmd g zero = rw (cmd_set_scanout, zero) (off g.scanout_surface_id g refl)

module _ {l : Libraries} (dl : DisplayLaws l.display) where
  open l use {display as d}

  pub show_unknown :
      (id : ℕ) (g : VirtioGpu l)
      → Table.get id g.resources ≡ none
      → show_scanout id g ≡ (raised err_invalid_resource_id, g)
  unfolding show_scanout
  show_unknown id g e = rw (show_scanout, e) refl

  pub show_known :
      (id : ℕ) (g : VirtioGpu l) (res : VirtioGpuResource)
      → Table.get id g.resources ≡ some res
      → show_scanout id g
        ≡ (create_scanout_surface g.scanout_surface_id >> pure ok_no_data)
            (record g { scanout_resource_id = non_zero id })
  unfolding show_scanout
  show_known id g res e = rw (show_scanout, e) refl

  pub cmd_set_scanout-show :
      (cmd : VirtioGpuSetScanout) (g : VirtioGpu l)
      → cmd.resource_id ≢ 0
      → cmd_set_scanout cmd g ≡ show_scanout cmd.resource_id g
  unfolding cmd_set_scanout
  cmd_set_scanout-show cmd g h = rw (cmd_set_scanout, ==-ne cmd.resource_id 0 h) refl

  -- The surface that the screen has afterwards: it lives, and it is the one from before if there was
  -- one, on a display that has not changed.
  abbrev pub HasSurface : VirtioGpu l → VirtioGpu l → Type 0
  HasSurface g g' =
      (surface_id : ℕ) × (g'.scanout_surface_id ≡ some surface_id)
      × (d.is_live g'.display surface_id ≡ true)
      × ((j : ℕ) → g.scanout_surface_id ≡ some j → (surface_id ≡ j) × (g'.display ≡ g.display))

  -- The screen shows the resource, which the device knows, and the answer is `OkNoData`.
  abbrev pub IsShown : ℕ → VirtioGpu l → Response l → VirtioGpu l → Type 0
  IsShown id g x g' =
      (Table.contains_key id g.resources ≡ true)
      × (x ≡ ok_no_data)
      × (g'.scanout_resource_id ≡ some id)
      × HasSurface g g'

  created :
      (surface : Option ℕ) (g : VirtioGpu l) (u : Unit {0})
      → g.scanout_surface_id ≡ surface
      → ((j : ℕ) → g.scanout_surface_id ≡ some j → d.is_live g.display j ≡ true)
      → (create_scanout_surface surface g).0 ≡ done u
      → HasSurface g (create_scanout_surface surface g).1
        × ((create_scanout_surface surface g).1.scanout_resource_id ≡ g.scanout_resource_id)
  unfolding create_scanout_surface
  created (some a) g u found live e =
      ((a, found, live a found, λ j other. (some-injective _ _ (sym found ∙ other), refl)), refl)
  created none g u found live e =
      let create : Action l (Unit {0}) = create_scanout_surface none in
      let (a, s, ran, rest) =
        display_try_done (d.create_surface none g.display_width g.display_height)
          (λ a. modify (λ g. record g { scanout_surface_id = some a })) g (create g).1 u
          (ap (λ o. (o, (create g).1)) e) in
      let fresh = (dl.create_surface_ok none _ _ a g.display s ran).1 a in
      subst (λ h. HasSurface g h × (h.scanout_resource_id ≡ g.scanout_resource_id))
        (ap (λ q. q.1) rest)
        (
          (
            a,
            refl,
            fresh ∙ rw (==-self a) refl,
            λ j other. absurd (none-ne-some (sym found ∙ other)),
          ),
          refl,
        )

  -- A scanout that succeeds on a resource other than 0 in a valid state is of a resource that the
  -- device knows. The screen then shows it, on a surface that lives: the surface from before, on an
  -- unchanged display, if there was one. The display satisfies its laws.
  pub cmd_set_scanout_done :
      (cmd : VirtioGpuSetScanout) (g g' : VirtioGpu l) (x : Response l)
      → IsValid g
      → cmd.resource_id ≢ 0
      → cmd_set_scanout cmd g ≡ (done x, g')
      → IsShown cmd.resource_id g x g'
  cmd_set_scanout_done cmd g g' x v h e =
      let shown = sym (cmd_set_scanout-show cmd g h) ∙ e in
      elim (Option-cases (Table.get cmd.resource_id g.resources)) [
        | inl missing ↦
            absurd (
              raised-ne-done (ap (λ q. q.0) (sym (show_unknown cmd.resource_id g missing) ∙ shown)))
        | inr (res, found) ↦
            let g1 : VirtioGpu l = record g { scanout_resource_id = non_zero cmd.resource_id } in
            let (u, ran, rest) =
              >>=_done (create_scanout_surface g.scanout_surface_id) (λ _. pure ok_no_data) g1 g' x
                (sym (show_known cmd.resource_id g res found) ∙ shown) in
            let (surface, resource) =
              created g.scanout_surface_id g1 u refl
                (λ j other. ground (arith, v.surfaces j, ap (is_at j) other)) ran in
            subst (IsShown cmd.resource_id g x) (ap (λ q. q.1) rest) (
              ground (arith, found),
              sym (done-injective _ _ (ap (λ q. q.0) rest)),
              resource ∙ non_zero-id cmd.resource_id h,
              surface,
            )
      ]
