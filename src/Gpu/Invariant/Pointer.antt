-- ===== src/Gpu/Invariant/Pointer.antt =====
-- The methods of the cursor queue keep the invariant.
use vhost_gpu_backend.Gpu.Scanout.{import_to_display}
use vhost_gpu_backend.Gpu.Invariant.Scanout.{non_zero-ne}
use mathlib.Core.Path.{subst}
use vhost_gpu_backend.Protocol.Response.{err_invalid_resource_id, ok_no_data}
use vhost_gpu_backend.Gpu.Invariant.Ends.{
  done-injective, display_try-Ends, >>=-assoc, Keeps-Ends, unwrap-Ends, Ends,
}
use vhost_gpu_backend.Gpu.Invariant.Screen.{
  flip-Keeps, transfer_read_into-Keeps, for_some-Keeps, >>-Keeps, reading-Keeps,
}
use vhost_gpu_backend.Protocol.Structs.{VirtioGpuUpdateCursor}
use vhost_gpu_backend.Gpu.State.{
  dimensions, display_try, non_zero, modify, unwrap, ◌>>=◌, gets, ◌>>◌, Action, VirtioGpu,
}
use vhost_gpu_backend.Gpu.Cursor.{
  cmd_update_cursor, show_cursor, copy_cursor, create_cursor_surface, hide_cursor, cmd_move_curosr,
}
use vhost_gpu_backend.Libraries.{RutabagaLaws, DisplayLaws, Libraries}
use vhost_gpu_backend.Prelude.Table
use vhost_gpu_backend.Prelude.{
  sym, ap, refl, arith, ◌==◌, ◌≡◌, ℕ, Option, none, some, true, false, if◌then◌else◌,
}
use vhost_gpu_backend.Gpu.Invariant.{
  FramebufferPanics, >>=-Keeps_after, ok_or-Keeps, gets-Keeps, >>=-Keeps, if-Keeps, pure-Keeps,
  is_at, IsValid, Keeps,
}
use vhost_gpu_backend.Gpu.Invariant.Calls.{display-IsValid, display_partial-Keeps, display_do-Keeps}

module _ {l : Libraries} (dl : DisplayLaws l.display) where
  open l use {display as d}

  pub cmd_move_curosr-Keeps :
      {P : Type 0} → (cmd : VirtioGpuUpdateCursor) → Keeps l P (cmd_move_curosr {l = l} cmd)
  unfolding cmd_move_curosr
  cmd_move_curosr-Keeps cmd = reading-Keeps l _ (λ g.
      >>-Keeps l _ _
        (for_some-Keeps l g.cursor_surface_id _ (λ cursor_surface_id.
          for_some-Keeps l g.scanout_surface_id _ (λ scanout_surface_id.
            >>-Keeps l _ _
              (display_do-Keeps l _ (dl.set_position_keeps cursor_surface_id cmd.pos.x cmd.pos.y))
              (display_do-Keeps l _ (dl.commit_keeps scanout_surface_id)))))
        (pure-Keeps l ok_no_data))

  without_cursor-IsValid :
      (g : VirtioGpu l) (s : d.State)
      → ((j : ℕ) → d.is_live s j ≡ is_at j g.scanout_surface_id)
      → IsValid g
      → IsValid (record g { display = s; cursor_surface_id = none; cursor_resource_id = none })
  without_cursor-IsValid g s left v = record {
    mirrors = v.mirrors;
    keyed = v.keyed;
    surfaces = λ j. ground (arith, left j);
    apart = λ j. ground arith;
    non_zero_scanout = v.non_zero_scanout;
    non_zero_cursor = λ e. cc;
  }

  hidden :
      (P : Type 0)
      → (taken : Option ℕ) (g : VirtioGpu l) → g.cursor_surface_id ≡ taken
      → IsValid g
      → Ends P (hide_cursor {l = l} g)
  unfolding hide_cursor
  hidden P none g e v =
      rw (hide_cursor, e)
        (
          without_cursor-IsValid g g.display (λ j. ground (arith, ap (is_at j) e, v.surfaces j)) v,
          tt,
        )
  hidden P (some a) g e v =
      rw (hide_cursor, e)
        (
          without_cursor-IsValid g (d.release_surface a g.display)
              (λ j. ground (
                arith,
                ap (is_at j) e,
                v.surfaces j,
                v.apart j,
                dl.release_surface_lem a g.display j,
              ))
              v,
          tt,
        )

  pub hide_cursor-Keeps : {P : Type 0} → Keeps l P (hide_cursor {l = l})
  hide_cursor-Keeps {P = P} = record {
    valid = λ g v. (hidden P _ g refl v).0;
    calm = λ g v. (hidden P _ g refl v).1;
  }

  with_cursor-IsValid :
      (g : VirtioGpu l) (a : ℕ) (s : d.State)
      → g.cursor_surface_id ≡ none
      → d.is_live g.display a ≡ false
      → ((j : ℕ) → d.is_live s j ≡ (if j == a then true else d.is_live g.display j))
      → IsValid g
      → IsValid (record g { display = s; cursor_surface_id = some a })
  with_cursor-IsValid g a s e fresh made v = record {
    mirrors = v.mirrors;
    keyed = v.keyed;
    surfaces = λ j. ground (arith, ap (is_at j) e, v.surfaces j, made j);
    apart = λ j. ground (arith, ap (is_at j) e, v.surfaces j, fresh);
    non_zero_scanout = v.non_zero_scanout;
    non_zero_cursor = v.non_zero_cursor;
  }

  -- What follows the creation of the surface: it is there, so `unwrap` does not panic.
  abbrev on_surface : {B : Type 0} → (ℕ → Action l B) → Action l B
  on_surface k = gets (λ g. g.cursor_surface_id) >>= λ made. unwrap made >>= k

  create_cursor_surface-Ends :
      {P : Type 0}
      → {B : Type 0} (surface : Option ℕ) (size : ℕ × ℕ) (k : ℕ → Action l B) (g : VirtioGpu l)
      → g.cursor_surface_id ≡ surface
      → IsValid g
      → ((a : ℕ) → Keeps l P (k a))
      → Ends P ((create_cursor_surface {l = l} surface size >> on_surface k) g)
  unfolding create_cursor_surface
  create_cursor_surface-Ends (some a) size k g e v kk =
      unwrap-Ends _ g.cursor_surface_id a k g e (Keeps-Ends (k a) g (kk a) v)
  create_cursor_surface-Ends none (width, height) k g e v kk =
      subst (Ends _)
        (sym (
          >>=-assoc (display_try (d.create_surface g.scanout_surface_id width height))
            (λ a. modify (λ g. record g { cursor_surface_id = some a })) (λ _. on_surface k) g))
        (display_try-Ends _ (d.create_surface g.scanout_surface_id width height)
          (λ a. modify (λ g. record g { cursor_surface_id = some a }) >> on_surface k) g
          (λ a s made.
            let (fresh, live) = dl.create_surface_ok _ _ _ a g.display s made in
            Keeps-Ends (k a) _ (kk a) (with_cursor-IsValid g a s e fresh live v))
          (λ x s failed.
            display-IsValid l g s (dl.create_surface_err _ _ _ x g.display s failed) v))

  pointed-Keeps :
      {P : Type 0}
      → (id : ℕ) → Keeps l P (modify {l = l} (λ g. record g { cursor_resource_id = non_zero id }))
  pointed-Keeps id = record {
    valid = λ g v. record {
      mirrors = v.mirrors;
      keyed = v.keyed;
      surfaces = v.surfaces;
      apart = v.apart;
      non_zero_scanout = v.non_zero_scanout;
      non_zero_cursor = non_zero-ne id;
    };
    calm = λ g v. tt;
  }

module _ {l : Libraries} (rl : RutabagaLaws l.rutabaga) (dl : DisplayLaws l.display) where
  open l use {rutabaga as r, display as d}

  copy_cursor-Keeps :
      (id : ℕ) (size : ℕ × ℕ) (surface_id : ℕ)
      → Keeps l (FramebufferPanics l) (copy_cursor {l = l} id size surface_id)
  unfolding copy_cursor
  copy_cursor-Keeps id (width, height) surface_id =
      >>=-Keeps l _ _
        (display_partial-Keeps l (d.framebuffer surface_id) (dl.framebuffer_keeps surface_id)
          (λ g v panics. (g, v, surface_id, panics)))
        (λ found.
          >>-Keeps l _ _
            (for_some-Keeps l found _ (λ fb.
              transfer_read_into-Keeps rl dl id
                (record (r.new_2d 0 0 width height) { stride = d.stride fb }) fb))
            (flip-Keeps rl dl surface_id))

  show_cursor-Keeps : (id x y : ℕ) → Keeps l (FramebufferPanics l) (show_cursor {l = l} id x y)
  unfolding show_cursor import_to_display
  show_cursor-Keeps id x y =
      >>=-Keeps l _ _ (gets-Keeps l (λ g. Table.get id g.resources)) (λ found.
        >>=-Keeps l _ _ (ok_or-Keeps l found err_invalid_resource_id) (λ resource.
          >>-Keeps l _ _ (pointed-Keeps dl id) (
            >>=-Keeps_after l (gets (λ g. g.cursor_surface_id)) _ (λ g v. tt)
              (λ g a v e.
                create_cursor_surface-Ends dl a (dimensions resource) _ g (done-injective _ _ e) v
                  (λ surface_id.
                    >>-Keeps l _ _
                      (display_do-Keeps l (d.set_position surface_id x y)
                        (dl.set_position_keeps surface_id x y))
                      (copy_cursor-Keeps id (dimensions resource) surface_id)))
              (λ g e v failed. v))))

  pub cmd_update_cursor-Keeps :
      (cmd : VirtioGpuUpdateCursor) → Keeps l (FramebufferPanics l) (cmd_update_cursor {l = l} cmd)
  unfolding cmd_update_cursor
  cmd_update_cursor-Keeps cmd =
      if-Keeps l (cmd.resource_id == 0) _ _ (hide_cursor-Keeps dl)
        (show_cursor-Keeps cmd.resource_id cmd.pos.x cmd.pos.y)
