-- ===== src/Gpu/Behaviour/Flushes.antt =====
-- When a flush reaches the display.
use vhost_gpu_backend.Gpu.Invariant.Ends.{raised-ne-done}
use vhost_gpu_backend.Gpu.Behaviour.Lifecycle.{cmd_resource_unref_cases, Released}
use mathlib.Core.Path.{subst}
use vhost_gpu_backend.Gpu.Commands.{cmd_resource_unref}
use vhost_gpu_backend.Gpu.Invariant.{IsValid}
use vhost_gpu_backend.Gpu.Runs.{>>=-run}
use vhost_gpu_backend.Protocol.Response.{ok_no_data, err_invalid_resource_id}
use vhost_gpu_backend.Protocol.Structs.{VirtioGpuResourceUnref, VirtioGpuResourceFlush}
use vhost_gpu_backend.Gpu.Scanout.{
  skip, flush_shown, import_to_display, cmd_flush_resource, flush_if_shown,
  flush_resource_to_surface,
}
use vhost_gpu_backend.Libraries.{Libraries, RutabagaLaws}
use vhost_gpu_backend.Prelude.{
  sym, arith, ◌∙◌, ==-self, ap, Bool-cases, ==-ne, refl, ◌≢◌, Option, ℕ, ◌≡◌, inl, inr, none, some,
  true, false, ◌==◌,
}
use vhost_gpu_backend.Prelude.Table
use vhost_gpu_backend.Gpu.State.{
  Outcome, gets, ◌>>=◌, ◌>>◌, pure, Response, Action, VirtioGpu, done, raised,
}

module _ {l : Libraries} where
  open l use {rutabaga as r, display as d}

  not_shown :
      (id : ℕ) (shown surface : Option ℕ) (g : VirtioGpu l)
      → shown ≢ some id
      → flush_if_shown id shown surface g ≡ (done tt, g)
  unfolding flush_if_shown
  not_shown id none surface g h = refl
  not_shown id (some a) none g h = refl
  not_shown id (some a) (some b) g h =
      let other : (a == id) ≡ false = ==-ne a id (λ e. h (ap some e)) in
      rw (flush_if_shown, other) refl

  -- The second half of a flush, on the cursor.
  abbrev flush_cursor : ℕ → Action l (Response l)
  flush_cursor id = do
    g ← gets (λ g. g)
    flush_if_shown id g.cursor_resource_id g.cursor_surface_id
    pure ok_no_data

  -- A flush of a resource that neither the screen nor the cursor shows succeeds and changes
  -- nothing.
  pub cmd_flush_resource_unshown :
      (cmd : VirtioGpuResourceFlush) (g : VirtioGpu l)
      → g.scanout_resource_id ≢ some cmd.resource_id
      → g.cursor_resource_id ≢ some cmd.resource_id
      → cmd_flush_resource cmd g ≡ (done ok_no_data, g)
  unfolding cmd_flush_resource flush_shown
  cmd_flush_resource_unshown cmd g hs hc = elim (Bool-cases (cmd.resource_id == 0)) [
    | inl zero ↦ rw (cmd_flush_resource, zero) refl
    | inr other ↦
        let id = cmd.resource_id in
        rw (cmd_flush_resource, other)
          (>>=-run (flush_if_shown id g.scanout_resource_id g.scanout_surface_id)
              (λ _. flush_cursor id) g _
              (not_shown id g.scanout_resource_id g.scanout_surface_id g hs)
            ∙ >>=-run (flush_if_shown id g.cursor_resource_id g.cursor_surface_id)
                (λ _. pure ok_no_data) g _
                (not_shown id g.cursor_resource_id g.cursor_surface_id g hc))
  ]

  flush_missing :
      (id surface_id : ℕ) (g : VirtioGpu l)
      → Table.contains_key id g.resources ≡ false
      → flush_resource_to_surface id surface_id g ≡ (raised err_invalid_resource_id, g)
  unfolding flush_resource_to_surface import_to_display
  flush_missing id surface_id g missing = rw (flush_resource_to_surface, missing) refl

  -- One block of a flush, where the resource is shown on the surface.
  flush_if_shown-run :
      (id surface_id : ℕ) (shown surface : Option ℕ) (g : VirtioGpu l)
      (p : Outcome (Response l) (Response l) × VirtioGpu l)
      → shown ≡ some id
      → surface ≡ some surface_id
      → flush_resource_to_surface id surface_id g ≡ p
      → flush_if_shown id shown surface g ≡ ◌>>=◌ (λ _. p) (λ _. skip) g
  unfolding flush_if_shown
  flush_if_shown-run id surface_id shown surface g p same at ran =
      let itself : (id == id) ≡ true = ==-self id in
      rw (same, at, flush_if_shown, itself)
        (>>=-run (flush_resource_to_surface id surface_id) (λ _. skip) g p ran)

  flush_shown_missing :
      (id surface_id : ℕ) (g : VirtioGpu l)
      → g.scanout_resource_id ≡ some id
      → g.scanout_surface_id ≡ some surface_id
      → Table.contains_key id g.resources ≡ false
      → flush_if_shown id g.scanout_resource_id g.scanout_surface_id g
        ≡ (raised err_invalid_resource_id, g)
  flush_shown_missing id surface_id g shown surface missing =
      flush_if_shown-run id surface_id g.scanout_resource_id g.scanout_surface_id g _ shown surface
        (flush_missing id surface_id g missing)

  -- After a resource is released in a valid state while the screen shows it, the next flush of it
  -- is refused with `ErrInvalidResourceId` and changes nothing. The renderer satisfies its laws.
  pub cmd_resource_unref-flush :
      (rl : RutabagaLaws l.rutabaga) (unref : VirtioGpuResourceUnref)
      (flush : VirtioGpuResourceFlush) (g g' : VirtioGpu l) (x : Response l) (surface_id : ℕ)
      → IsValid g
      → unref.resource_id ≡ flush.resource_id
      → g.scanout_resource_id ≡ some flush.resource_id
      → g.scanout_surface_id ≡ some surface_id
      → cmd_resource_unref unref g ≡ (done x, g')
      → cmd_flush_resource flush g' ≡ (raised err_invalid_resource_id, g')
  unfolding cmd_flush_resource flush_shown
  cmd_resource_unref-flush rl unref flush g g' x surface_id v same shown surface ran =
      elim (subst (Released rl unref.resource_id g) ran (cmd_resource_unref_cases rl unref g v)) [
        | inl (_, _, left, shown', surface') ↦
            let id = flush.resource_id in
            let other : (id == 0) ≡ false =
              ==-ne id 0 (λ zero. v.non_zero_scanout (shown ∙ ap some zero)) in
            rw (cmd_flush_resource, other)
              (>>=-run (flush_if_shown id g'.scanout_resource_id g'.scanout_surface_id)
                (λ _. flush_cursor id) g' _
                (flush_shown_missing id surface_id g' (shown' ∙ shown) (surface' ∙ surface)
                  (ground (arith, left id, same))))
        | inr (e, failed, _) ↦ absurd (raised-ne-done (sym failed))
      ]
