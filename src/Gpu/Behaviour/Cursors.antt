-- ===== src/Gpu/Behaviour/Cursors.antt =====
-- What a cursor that is shown with success shows.
pub mod Refused
use vhost_gpu_backend.Gpu.Invariant.Scanout.{non_zero-id}
use vhost_gpu_backend.Gpu.Behaviour.Pointers.{cmd_update_cursor_unknown}
use vhost_gpu_backend.Gpu.Frames.Drawing.{copy_cursor-OnlyDraws, >>-OnlyDraws}
use vhost_gpu_backend.Gpu.Invariant.Ends.{raised-ne-done, done-injective}
use vhost_gpu_backend.Gpu.Invariant.{is_at, IsValid}
use vhost_gpu_backend.Gpu.Scanout.{transfer_read_into, for_some, import_to_display}
use vhost_gpu_backend.Protocol.Structs.{VirtioGpuUpdateCursor}
use vhost_gpu_backend.Gpu.Behaviour.Screens.{none-ne-some}
use mathlib.Core.Path.{subst}
use vhost_gpu_backend.Gpu.Runs.{>>=_done, display_try_done}
use vhost_gpu_backend.Gpu.Frames.{
  display_do-OnlyDraws, Draws-self, gets-OnlyDraws, >>=-OnlyDraws, OnlyDraws, Draws,
}
use vhost_gpu_backend.Protocol.Response.{ok_no_data}
use vhost_gpu_backend.Gpu.Cursor.{
  copy_cursor, show_cursor, cmd_update_cursor, create_cursor_surface,
}
use vhost_gpu_backend.Prelude.{
  inr, arith, inl, ==-ne, Option-cases, ◌≢◌, ==-self, Option, ℕ, ◌≡◌, ◌∙◌, sym, ap, refl, none,
  some, true,
}
use vhost_gpu_backend.Prelude.Table
use vhost_gpu_backend.Libraries.{Libraries, DisplayLaws}
use vhost_gpu_backend.Gpu.State.{
  non_zero, dimensions, VirtioGpuResource, pure, ◌>>=◌, display_partial, unwrap, ◌>>◌, display_do,
  gets, modify, VirtioGpu, Response, Action, done,
}
use mathlib.Core.Option.{some-injective}

module _ {l : Libraries} where
  -- A method with no answer but `OkNoData`.
  record Succeeds (m : Action l (Response l)) : Type 0 where
    answer : (g g' : VirtioGpu l) (v : Response l) → m g ≡ (done v, g') → v ≡ ok_no_data

  pure-Succeeds : Succeeds (pure ok_no_data)
  pure-Succeeds = record { answer = λ g g' v e. sym (done-injective _ _ (ap (λ q. q.0) e)) }

  >>=-Succeeds :
      {A : Type 0} (m : Action l A) (f : A → Action l (Response l))
      → ((a : A) → Succeeds (f a))
      → Succeeds (m >>= f)
  >>=-Succeeds m f k = record {
    answer = λ g g' v e. let (a, _, rest) = >>=_done m f g g' v e in (k a).answer (m g).1 g' v rest;
  }

module _ {l : Libraries} (dl : DisplayLaws l.display) where
  open l use {display as d}

  -- The cursor has a surface that lives, and it is the one from before if there was one.
  abbrev pub HasPointer : VirtioGpu l → VirtioGpu l → Type 0
  HasPointer g g' =
      (surface_id : ℕ) × (g'.cursor_surface_id ≡ some surface_id)
      × (d.is_live g'.display surface_id ≡ true)
      × ((j : ℕ) → g.cursor_surface_id ≡ some j → surface_id ≡ j)

  -- The cursor shows the resource, which the device knows, and the answer is `OkNoData`; the screen
  -- and the resources are as before.
  abbrev pub IsPointing : ℕ → VirtioGpu l → Response l → VirtioGpu l → Type 0
  IsPointing id g x g' =
      (Table.contains_key id g.resources ≡ true)
      × (x ≡ ok_no_data)
      × (g'.cursor_resource_id ≡ some id)
      × (g'.scanout_resource_id ≡ g.scanout_resource_id)
      × (g'.scanout_surface_id ≡ g.scanout_surface_id)
      × (g'.resources ≡ g.resources)
      × HasPointer g g'

  HasPointer-Draws : (g g' g'' : VirtioGpu l) → Draws g' g'' → HasPointer g g' → HasPointer g g''
  HasPointer-Draws g g' g'' same (a, found, live, kept) =
      (a, same.same_pointer ∙ found, same.same_live a ∙ live, kept)

  -- What the creation of the surface leaves.
  created :
      (surface : Option ℕ) (size : ℕ × ℕ) (g : VirtioGpu l) (u : Unit {0})
      → g.cursor_surface_id ≡ surface
      → ((j : ℕ) → g.cursor_surface_id ≡ some j → d.is_live g.display j ≡ true)
      → (create_cursor_surface surface size g).0 ≡ done u
      → let g' = (create_cursor_surface surface size g).1 in
        HasPointer g g'
        × (g'.cursor_resource_id ≡ g.cursor_resource_id)
        × (g'.scanout_resource_id ≡ g.scanout_resource_id)
        × (g'.scanout_surface_id ≡ g.scanout_surface_id)
        × (g'.resources ≡ g.resources)
  unfolding create_cursor_surface
  created (some a) size g u found live e = (
    (a, found, live a found, λ j other. some-injective _ _ (sym found ∙ other)),
    refl,
    refl,
    refl,
    refl,
  )
  created none (width, height) g u found live e =
      let create : Action l (Unit {0}) = create_cursor_surface none (width, height) in
      let (a, s, ran, rest) =
        display_try_done (d.create_surface g.scanout_surface_id width height)
          (λ a. modify (λ g. record g { cursor_surface_id = some a })) g (create g).1 u
          (ap (λ o. (o, (create g).1)) e) in
      let fresh = (dl.create_surface_ok _ _ _ a g.display s ran).1 a in
      subst
        (λ h.
          HasPointer g h
          × (h.cursor_resource_id ≡ g.cursor_resource_id)
          × (h.scanout_resource_id ≡ g.scanout_resource_id)
          × (h.scanout_surface_id ≡ g.scanout_surface_id)
          × (h.resources ≡ g.resources))
        (ap (λ q. q.1) rest)
        (
          (
            a,
            refl,
            fresh ∙ rw (==-self a) refl,
            λ j other. absurd (none-ne-some (sym found ∙ other)),
          ),
          refl,
          refl,
          refl,
          refl,
        )

  unwrap-OnlyDraws : {A : Type 0} (o : Option A) → OnlyDraws l (unwrap o)
  unwrap-OnlyDraws none = record { draws = λ g. Draws-self g }
  unwrap-OnlyDraws (some a) = record { draws = λ g. Draws-self g }

  -- What follows the creation of the surface: the cursor is placed and drawn.
  abbrev place : ℕ → ℕ × ℕ → ℕ → ℕ → ℕ → Action l (Response l)
  place id size x y surface_id =
      display_do (d.set_position surface_id x y) >> copy_cursor id size surface_id

  abbrev pub rest_of : ℕ → ℕ × ℕ → ℕ → ℕ → Action l (Response l)
  rest_of id size x y =
      gets (λ g. g.cursor_surface_id) >>= λ made. unwrap made >>= place id size x y

  pub rest_of-OnlyDraws : (id : ℕ) (size : ℕ × ℕ) (x y : ℕ) → OnlyDraws l (rest_of id size x y)
  rest_of-OnlyDraws id size x y =
      >>=-OnlyDraws l _ _ (gets-OnlyDraws l (λ g. g.cursor_surface_id)) (λ made.
        >>=-OnlyDraws l (unwrap made) (place id size x y) (unwrap-OnlyDraws made) (λ c.
          >>-OnlyDraws l _ _
            (display_do-OnlyDraws l (d.set_position c x y) (dl.set_position_keeps c x y))
            (copy_cursor-OnlyDraws dl id size c)))

  copy_cursor-Succeeds : (id : ℕ) (size : ℕ × ℕ) (c : ℕ) → Succeeds (copy_cursor {l = l} id size c)
  unfolding copy_cursor
  copy_cursor-Succeeds id (width, height) c =
      >>=-Succeeds (display_partial (d.framebuffer c)) _ (λ found.
        >>=-Succeeds
          (for_some found (λ fb.
            transfer_read_into id
              (record (l.rutabaga.new_2d 0 0 width height) { stride = d.stride fb }) fb))
          (λ _. display_do (d.flip c) >> pure ok_no_data)
          (λ _. >>=-Succeeds (display_do (d.flip c)) (λ _. pure ok_no_data) (λ _. pure-Succeeds)))

  rest_of-Succeeds : (id : ℕ) (size : ℕ × ℕ) (x y : ℕ) → Succeeds (rest_of id size x y)
  rest_of-Succeeds id size x y =
      >>=-Succeeds (gets (λ g. g.cursor_surface_id)) (λ made. unwrap made >>= place id size x y)
        (λ made. >>=-Succeeds (unwrap made) (place id size x y) (λ c.
          >>=-Succeeds (display_do (d.set_position c x y)) (λ _. copy_cursor id size c)
            (λ _. copy_cursor-Succeeds id size c)))

  pub show_known :
      (id x y : ℕ) (g : VirtioGpu l) (res : VirtioGpuResource)
      → Table.get id g.resources ≡ some res
      → show_cursor id x y g
        ≡ (create_cursor_surface g.cursor_surface_id (dimensions res)
              >> rest_of id (dimensions res) x y)
            (record g { cursor_resource_id = non_zero id })
  unfolding show_cursor import_to_display
  show_known id x y g res e = rw (show_cursor, e) refl

  pub cmd_update_cursor-show :
      (cmd : VirtioGpuUpdateCursor) (g : VirtioGpu l)
      → cmd.resource_id ≢ 0
      → cmd_update_cursor cmd g ≡ show_cursor cmd.resource_id cmd.pos.x cmd.pos.y g
  unfolding cmd_update_cursor
  cmd_update_cursor-show cmd g h = rw (cmd_update_cursor, ==-ne cmd.resource_id 0 h) refl

  -- A cursor that is set with success to a resource other than 0, in a valid state, shows a
  -- resource that the device knows, on a surface that lives: the one from before, if there was one.
  -- The screen and the resources are as before. The display satisfies its laws.
  pub cmd_update_cursor_done :
      (cmd : VirtioGpuUpdateCursor) (g g' : VirtioGpu l) (x : Response l)
      → IsValid g
      → cmd.resource_id ≢ 0
      → cmd_update_cursor cmd g ≡ (done x, g')
      → IsPointing cmd.resource_id g x g'
  cmd_update_cursor_done cmd g g' x v h e =
      let id = cmd.resource_id in
      elim (Option-cases (Table.get id g.resources)) [
        | inl missing ↦ absurd (
            raised-ne-done (
              ap (λ q. q.0)
                (sym (cmd_update_cursor_unknown cmd g h (ground (arith, missing))) ∙ e)))
        | inr (res, found) ↦
            let g1 : VirtioGpu l = record g { cursor_resource_id = non_zero id } in
            let tail = rest_of id (dimensions res) cmd.pos.x cmd.pos.y in
            let (u, ran, rest) =
              >>=_done (create_cursor_surface g.cursor_surface_id (dimensions res)) (λ _. tail) g1
                g' x
                (sym (show_known id cmd.pos.x cmd.pos.y g res found)
                  ∙ sym (cmd_update_cursor-show cmd g h)
                  ∙ e) in
            let (pointer, resource, scanout, screen, table) =
              created g.cursor_surface_id (dimensions res) g1 u refl
                (λ j other. ground (arith, v.surfaces j, ap (is_at j) other)) ran in
            let same =
              subst (Draws _) (ap (λ q. q.1) rest)
                ((rest_of-OnlyDraws id (dimensions res) cmd.pos.x cmd.pos.y).draws _) in
            (
              ground (arith, found),
              (rest_of-Succeeds id (dimensions res) cmd.pos.x cmd.pos.y).answer _ g' x rest,
              same.same_cursor ∙ resource ∙ non_zero-id id h,
              same.same_scanout ∙ scanout,
              same.same_screen ∙ screen,
              same.same_resources ∙ table,
              HasPointer-Draws g1 _ g' same pointer,
            )
      ]
