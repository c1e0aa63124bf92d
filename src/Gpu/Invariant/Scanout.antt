-- ===== src/Gpu/Invariant/Scanout.antt =====
-- The methods that give the screen its surface, and take it away, keep the invariant.
use vhost_gpu_backend.Gpu.Invariant.Screen.{>>-Keeps}
use vhost_gpu_backend.Protocol.Response.{ok_no_data, err_invalid_resource_id}
use vhost_gpu_backend.Gpu.Invariant.Ends.{done-injective, >>=-Ends, display_try-Ends, Ends}
use vhost_gpu_backend.Protocol.Structs.{VirtioGpuSetScanout}
use vhost_gpu_backend.Gpu.State.{pure, gets, non_zero, modify, VirtioGpu}
use vhost_gpu_backend.Gpu.Scanout.{
  cmd_set_scanout, create_scanout_surface, show_scanout, disable_scanout,
}
use vhost_gpu_backend.Libraries.{DisplayLaws, Libraries}
use vhost_gpu_backend.Prelude.Table
use mathlib.Core.Option.{some-injective}
use vhost_gpu_backend.Prelude.{
  zero, true, if◌then◌else◌, ap, suc, refl, arith, ◌==◌, false, ◌≢◌, Option, ◌≡◌, ℕ, none, some,
}
use vhost_gpu_backend.Gpu.Invariant.{
  >>=-Keeps_after, ok_or-Keeps, gets-Keeps, if-Keeps, is_at, >>=-Keeps, IsValid, Keeps,
}
use vhost_gpu_backend.Gpu.Invariant.Calls.{display-IsValid}

pub non_zero-ne : (n : ℕ) → non_zero n ≢ some 0
non_zero-ne zero p = cc
non_zero-ne (suc n) p = omega (arith, some-injective _ _ p)

pub non_zero-id : (n : ℕ) → n ≢ 0 → non_zero n ≡ some n
non_zero-id zero h = absurd (h refl)
non_zero-id (suc n) h = refl

module _ {l : Libraries} (dl : DisplayLaws l.display) where
  open l use {display as d}

  without_scanout-IsValid :
      (g : VirtioGpu l) (s : d.State)
      → ((j : ℕ) → d.is_live s j ≡ is_at j g.cursor_surface_id)
      → IsValid g
      → IsValid (record g { display = s; scanout_surface_id = none; scanout_resource_id = none })
  without_scanout-IsValid g s left v = record {
    mirrors = v.mirrors;
    keyed = v.keyed;
    surfaces = left;
    apart = λ j. refl;
    non_zero_scanout = λ e. cc;
    non_zero_cursor = v.non_zero_cursor;
  }

  disabled :
      (P : Type 0)
      → (taken : Option ℕ) (g : VirtioGpu l) → g.scanout_surface_id ≡ taken
      → IsValid g
      → Ends P (disable_scanout {l = l} g)
  unfolding disable_scanout
  disabled P none g e v =
      rw (disable_scanout, e)
        (
          without_scanout-IsValid g g.display (λ j. ground (arith, ap (is_at j) e, v.surfaces j)) v,
          tt,
        )
  disabled P (some a) g e v =
      rw (disable_scanout, e)
        (
          without_scanout-IsValid g (d.release_surface a g.display)
              (λ j. ground (
                arith,
                ap (is_at j) e,
                v.surfaces j,
                v.apart j,
                dl.release_surface_lem a g.display j,
              ))
              v,
          tt,
        )

  pub disable_scanout-Keeps : {P : Type 0} → Keeps l P (disable_scanout {l = l})
  disable_scanout-Keeps {P = P} = record {
    valid = λ g v. (disabled P _ g refl v).0;
    calm = λ g v. (disabled P _ g refl v).1;
  }

  with_scanout-IsValid :
      (g : VirtioGpu l) (a : ℕ) (s : d.State)
      → g.scanout_surface_id ≡ none
      → d.is_live g.display a ≡ false
      → ((j : ℕ) → d.is_live s j ≡ (if j == a then true else d.is_live g.display j))
      → IsValid g
      → IsValid (record g { display = s; scanout_surface_id = some a })
  with_scanout-IsValid g a s e fresh made v = record {
    mirrors = v.mirrors;
    keyed = v.keyed;
    surfaces = λ j. ground (arith, ap (is_at j) e, v.surfaces j, made j);
    apart = λ j. ground (arith, ap (is_at j) e, v.surfaces j, fresh);
    non_zero_scanout = v.non_zero_scanout;
    non_zero_cursor = v.non_zero_cursor;
  }

  create_scanout_surface-Ends :
      (P : Type 0)
      → (surface : Option ℕ) (g : VirtioGpu l) → g.scanout_surface_id ≡ surface
      → IsValid g
      → Ends P (create_scanout_surface {l = l} surface g)
  unfolding create_scanout_surface
  create_scanout_surface-Ends P none g e v =
      display_try-Ends P (d.create_surface none g.display_width g.display_height)
        (λ a. modify (λ g. record g { scanout_surface_id = some a })) g
        (λ a s made.
          let (fresh, live) = dl.create_surface_ok none _ _ a g.display s made in
          (with_scanout-IsValid g a s e fresh live v, tt))
        (λ x s failed.
          display-IsValid l g s (dl.create_surface_err none _ _ x g.display s failed) v)
  create_scanout_surface-Ends P (some a) g e v = (v, tt)

  shown-Keeps :
      {P : Type 0}
      → (id : ℕ) → Keeps l P (modify {l = l} (λ g. record g { scanout_resource_id = non_zero id }))
  shown-Keeps id = record {
    valid = λ g v. record {
      mirrors = v.mirrors;
      keyed = v.keyed;
      surfaces = v.surfaces;
      apart = v.apart;
      non_zero_scanout = non_zero-ne id;
      non_zero_cursor = v.non_zero_cursor;
    };
    calm = λ g v. tt;
  }

  pub show_scanout-Keeps : {P : Type 0} → (id : ℕ) → Keeps l P (show_scanout {l = l} id)
  unfolding show_scanout
  show_scanout-Keeps {P = P} id =
      >>=-Keeps l _ _ (gets-Keeps l (λ g. Table.get id g.resources)) (λ found.
        >>=-Keeps l _ _ (ok_or-Keeps l found err_invalid_resource_id) (λ _.
          >>-Keeps l _ _ (shown-Keeps id) (
            >>=-Keeps_after l (gets (λ g. g.scanout_surface_id)) _ (λ g v. tt)
              (λ g a v e.
                >>=-Ends P (create_scanout_surface a) (λ _. pure ok_no_data) g
                  (create_scanout_surface-Ends P a g (done-injective _ _ e) v)
                  (λ _ done. ((create_scanout_surface-Ends P a g (done-injective _ _ e) v).0, tt)))
              (λ g e v failed. v))))

  pub cmd_set_scanout-Keeps :
      {P : Type 0} → (cmd : VirtioGpuSetScanout) → Keeps l P (cmd_set_scanout {l = l} cmd)
  unfolding cmd_set_scanout
  cmd_set_scanout-Keeps cmd =
      if-Keeps l (cmd.resource_id == 0) _ _ disable_scanout-Keeps
        (show_scanout-Keeps cmd.resource_id)
