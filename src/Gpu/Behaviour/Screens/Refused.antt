-- ===== src/Gpu/Behaviour/Screens/Refused.antt =====
-- Why a scanout fails, and what it then leaves.
use vhost_gpu_backend.Gpu.Invariant.Scanout.{non_zero-id}
use mathlib.Core.Path.{subst}
use vhost_gpu_backend.Gpu.Invariant.{of_result-raised}
use vhost_gpu_backend.Gpu.Runs.{>>=_raised}
use vhost_gpu_backend.Gpu.Invariant.Ends.{raised-injective, raised-ne-done}
use vhost_gpu_backend.Protocol.Structs.{VirtioGpuSetScanout}
use vhost_gpu_backend.Gpu.Scanout.{cmd_set_scanout, create_scanout_surface}
use vhost_gpu_backend.Protocol.Response.{ok_no_data, err_invalid_resource_id, display_err}
use vhost_gpu_backend.Prelude.{
  Option, ℕ, ◌≡◌, ◌≢◌, ◌∙◌, ◌⊎◌, sym, ap, refl, none, some, true, false, inl, inr, arith,
  Option-cases,
}
use vhost_gpu_backend.Prelude.Table
use vhost_gpu_backend.Libraries.{Libraries, DisplayLaws}
use vhost_gpu_backend.Gpu.State.{
  pure, modify, non_zero, display_try, VirtioGpu, Response, Action, raised,
}
use vhost_gpu_backend.Gpu.Behaviour.Screens.{show_unknown, show_known, cmd_set_scanout-show}

module _ {l : Libraries} (dl : DisplayLaws l.display) where
  open l use {display as d}

  -- The display has refused a surface: the screen has none, before and after.
  abbrev pub HasNoSurface : VirtioGpu l → Response l → VirtioGpu l → Type 0
  HasNoSurface g y g' =
      (x : d.Error) × (y ≡ display_err x)
      × (g.scanout_surface_id ≡ none)
      × (g'.scanout_surface_id ≡ none)
      × (g'.scanout_resource_id ≡ g.scanout_resource_id)
      × (g'.resources ≡ g.resources)
      × ((j : ℕ) → d.is_live g'.display j ≡ d.is_live g.display j)

  not_created :
      (surface : Option ℕ) (g : VirtioGpu l) (y : Response l)
      → g.scanout_surface_id ≡ surface
      → (create_scanout_surface surface g).0 ≡ raised y
      → HasNoSurface g y (create_scanout_surface surface g).1
  unfolding create_scanout_surface
  not_created (some a) g y found e = absurd (raised-ne-done (sym e))
  not_created none g y found e =
      let f = d.create_surface none g.display_width g.display_height in
      let create : Action l (Unit {0}) = create_scanout_surface none in
      elim (>>=_raised (display_try f) (λ a. modify (λ g. record g { scanout_surface_id = some a }))
        g (create g).1 y (ap (λ o. (o, (create g).1)) e)) [
          | inl (failed, same) ↦
              let (x, answer, value) = of_result-raised display_err (f g.display).0 y failed in
              subst (HasNoSurface g y) same (
                x,
                value,
                found,
                found,
                refl,
                refl,
                dl.create_surface_err none _ _ x g.display (f g.display).1
                    (ap (λ o. (o, (f g.display).1)) answer),
              )
          | inr (a, _, modified) ↦ absurd (raised-ne-done (sym (ap (λ q. q.0) modified)))
        ]

  -- A scanout of a resource other than 0 fails for one of two reasons. The device does not know the
  -- resource: then nothing changes. Or it knows it, the screen has no surface and the display
  -- refuses one: then the screen already refers to the resource, still without a surface, and the
  -- resources and the surfaces are as before. The display satisfies its laws.
  pub cmd_set_scanout_raised :
      (cmd : VirtioGpuSetScanout) (g g' : VirtioGpu l) (y : Response l)
      → cmd.resource_id ≢ 0
      → cmd_set_scanout cmd g ≡ (raised y, g')
      → ((y ≡ err_invalid_resource_id)
          × (Table.contains_key cmd.resource_id g.resources ≡ false)
          × (g' ≡ g))
        ⊎ ((Table.contains_key cmd.resource_id g.resources ≡ true)
            × HasNoSurface (record g { scanout_resource_id = some cmd.resource_id }) y g')
  cmd_set_scanout_raised cmd g g' y h e =
      let shown = sym (cmd_set_scanout-show dl cmd g h) ∙ e in
      elim (Option-cases (Table.get cmd.resource_id g.resources)) [
        | inl missing ↦
            let refused = sym (show_unknown dl cmd.resource_id g missing) ∙ shown in
            inl (
              sym (raised-injective (ap (λ q. q.0) refused)),
              ground (arith, missing),
              sym (ap (λ q. q.1) refused),
            )
        | inr (res, found) ↦
            let g1 : VirtioGpu l = record g { scanout_resource_id = non_zero cmd.resource_id } in
            elim (>>=_raised (create_scanout_surface g.scanout_surface_id) (λ _. pure ok_no_data) g1
              g' y (sym (show_known dl cmd.resource_id g res found) ∙ shown)) [
                | inl (failed, same) ↦ inr (
                  ground (arith, found),
                  subst (λ o. HasNoSurface (record g { scanout_resource_id = o }) y g')
                      (non_zero-id cmd.resource_id h)
                      (subst (HasNoSurface g1 y) same
                        (not_created g.scanout_surface_id g1 y refl failed)),
                )
                | inr (u, _, answered) ↦ absurd (raised-ne-done (sym (ap (λ q. q.0) answered)))
              ]
      ]
