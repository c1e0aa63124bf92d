-- ===== src/Gpu/Behaviour/Cursors/Refused.antt =====
-- src/virtio_gpu.rs, `cmd_update_cursor`: what a change of the cursor that fails has already changed.
use vhost_gpu_backend.Gpu.Behaviour.Cursors.{
  show_known, rest_of, rest_of-OnlyDraws, cmd_update_cursor-show,
}
use vhost_gpu_backend.Gpu.Behaviour.Pointers.{cmd_update_cursor_unknown}
use vhost_gpu_backend.Gpu.Invariant.Scanout.{non_zero-id}
use vhost_gpu_backend.Gpu.Invariant.Ends.{raised-injective}
use vhost_gpu_backend.Gpu.Frames.{Draws}
use vhost_gpu_backend.Gpu.Cursor.{cmd_update_cursor, create_cursor_surface}
use vhost_gpu_backend.Libraries.{Libraries, DisplayLaws}
use vhost_gpu_backend.Protocol.Response.{display_err, err_invalid_resource_id}
use vhost_gpu_backend.Protocol.Structs.{VirtioGpuUpdateCursor}
use vhost_gpu_backend.Gpu.State.{
  non_zero, dimensions, of_result, VirtioGpu, Response, Outcome, ◌>>=◌, modify, done, raised,
  panicked, library_panicked,
}
use vhost_gpu_backend.Prelude.{
  ℕ, Option, none, some, true, false, ◌≡◌, ◌≢◌, ◌⊎◌, inl, inr, refl, sym, ap, ◌∙◌, arith,
  Option-cases,
}
use vhost_gpu_backend.Prelude.Table
use mathlib.Core.Path.{subst}

module _ {l : Libraries} where
  open l use {display as d}

  -- Only the surface of the cursor may have changed, and only where there was none.
  abbrev pub HasGrown : VirtioGpu l → VirtioGpu l → Type 0
  HasGrown g g' =
      (g'.cursor_resource_id ≡ g.cursor_resource_id)
      × (g'.scanout_resource_id ≡ g.scanout_resource_id)
      × (g'.scanout_surface_id ≡ g.scanout_surface_id)
      × (g'.resources ≡ g.resources)
      × ((j : ℕ) → g.cursor_surface_id ≡ some j → g'.cursor_surface_id ≡ some j)

  HasGrown-Draws : (g h h' : VirtioGpu l) → HasGrown g h → Draws h h' → HasGrown g h'
  HasGrown-Draws g h h' (cursor, scanout, screen, table, kept) same = (
    same.same_cursor ∙ cursor,
    same.same_scanout ∙ scanout,
    same.same_screen ∙ screen,
    same.same_resources ∙ table,
    λ j before. same.same_pointer ∙ kept j before,
  )

  stored :
      (o : Outcome (Response l) ℕ) (g : VirtioGpu l) (s : d.State)
      → g.cursor_surface_id ≡ none
      → HasGrown g
          (◌>>=◌
            (λ _. (o, record g { display = s }))
            (λ a. modify (λ g. record g { cursor_surface_id = some a }))
            g).1
  stored (done a) g s e = (refl, refl, refl, refl, λ j before. absurd cc)
  stored (raised x) g s e = (refl, refl, refl, refl, λ j before. before)
  stored panicked g s e = (refl, refl, refl, refl, λ j before. before)
  stored library_panicked g s e = (refl, refl, refl, refl, λ j before. before)

  created-HasGrown :
      (surface : Option ℕ) (size : ℕ × ℕ) (g : VirtioGpu l)
      → g.cursor_surface_id ≡ surface
      → HasGrown g (create_cursor_surface surface size g).1
  unfolding create_cursor_surface
  created-HasGrown (some a) size g e = (refl, refl, refl, refl, λ j before. before)
  created-HasGrown none (width, height) g e =
      stored
        (of_result display_err (d.create_surface g.scanout_surface_id width height g.display).0) g
        (d.create_surface g.scanout_surface_id width height g.display).1 e

module _ {l : Libraries} (dl : DisplayLaws l.display) where
  drawn-HasGrown :
      (id : ℕ) (size : ℕ × ℕ) (x y : ℕ) (g : VirtioGpu l) (o : Outcome (Response l) (Unit {0}))
      (h : VirtioGpu l)
      → HasGrown g h
      → HasGrown g (◌>>=◌ (λ _. (o, h)) (λ _. rest_of dl id size x y) g).1
  drawn-HasGrown id size x y g (done a) h grown =
      HasGrown-Draws g h _ grown ((rest_of-OnlyDraws dl id size x y).draws h)
  drawn-HasGrown id size x y g (raised e) h grown = grown
  drawn-HasGrown id size x y g panicked h grown = grown
  drawn-HasGrown id size x y g library_panicked h grown = grown

  -- A change of the cursor to a resource other than 0 fails in one of two ways. The device does not
  -- know the resource: then nothing changes. Or it knows it: then the cursor already refers to the
  -- resource, the screen and the table of resources are as before, and a surface that the cursor
  -- had is still its surface. The display satisfies its laws.
  pub cmd_update_cursor_raised :
      (cmd : VirtioGpuUpdateCursor) (g g' : VirtioGpu l) (y : Response l)
      → cmd.resource_id ≢ 0
      → cmd_update_cursor cmd g ≡ (raised y, g')
      → ((y ≡ err_invalid_resource_id)
          × (Table.contains_key cmd.resource_id g.resources ≡ false)
          × (g' ≡ g))
        ⊎ ((Table.contains_key cmd.resource_id g.resources ≡ true)
            × HasGrown (record g { cursor_resource_id = some cmd.resource_id }) g')
  cmd_update_cursor_raised cmd g g' y h e =
      elim (Option-cases (Table.get cmd.resource_id g.resources)) [
        | inl missing ↦
            let unknown : Table.contains_key cmd.resource_id g.resources ≡ false =
              ground (arith, missing) in
            let refused = sym (cmd_update_cursor_unknown cmd g h unknown) ∙ e in
            inl
              (sym (raised-injective (ap (λ q. q.0) refused)), unknown, sym (ap (λ q. q.1) refused))
        | inr (res, found) ↦
            let g1 : VirtioGpu l = record g { cursor_resource_id = non_zero cmd.resource_id } in
            let created = create_cursor_surface {l = l} g.cursor_surface_id (dimensions res) g1 in
            inr (
              ground (arith, found),
              subst (λ o. HasGrown (record g { cursor_resource_id = o }) g')
                  (non_zero-id cmd.resource_id h)
                  (subst (HasGrown g1)
                    (ap (λ q. q.1)
                      (sym (show_known dl cmd.resource_id cmd.pos.x cmd.pos.y g res found)
                        ∙ sym (cmd_update_cursor-show dl cmd g h)
                        ∙ e))
                    (drawn-HasGrown cmd.resource_id (dimensions res) cmd.pos.x cmd.pos.y g1
                      created.0 created.1
                      (created-HasGrown g.cursor_surface_id (dimensions res) g1 refl))),
            )
      ]
