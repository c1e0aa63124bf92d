-- ===== src/Tests/Server.antt =====
-- A display that counts its surfaces, and that it satisfies the laws of displays.
use mathlib.Core.Option.{some-injective}
use vhost_gpu_backend.Prelude.{
  ◌&&◌, ◌+◌, leb, Option, sym, ap, ℕ, suc, Bool, true, false, List, [], ◌∷◌, none, some, ◌≡◌, refl,
  if◌then◌else◌, ◌==◌, inl, inr, Bool-cases, arith,
}
use vhost_gpu_backend.Prelude.Result.{err-ne-ok, ok-ne-err, ok-injective, ok, err}
use vhost_gpu_backend.Prelude.Table.{Table}
use vhost_gpu_backend.Prelude.Table
use vhost_gpu_backend.Libraries.{Call, GpuDisplay, DisplayLaws}

-- The next id, the sizes of the surfaces that live, and what was last written to them.
abbrev pub Surfaces : Type 0
Surfaces = ℕ × Table (ℕ × ℕ) × List (ℕ × ℕ)

abbrev pub live : Surfaces → ℕ → Bool
live (next, ids, pixels) id = Table.contains_key id ids

abbrev pub create_surface : ℕ → ℕ → Call Surfaces ℕ ℕ
create_surface w h (next, ids, pixels) =
    if Table.contains_key next ids
    then (err 0, (next, ids, pixels))
    else (ok next, (suc next, Table.insert next (w, h) ids, pixels))

-- A region of a surface that leaves it is a panic.
abbrev pub region : ℕ → ℕ → ℕ → ℕ → Option (ℕ × ℕ) → Option (Option (Unit {0}))
region x y w h none = some none
region x y w h (some (width, height)) =
    if leb (x + w) width && leb (y + h) height then some (some tt) else none

abbrev answer : ℕ → Surfaces → Option (Option (Unit {0})) → Option (Option ℕ × Surfaces)
answer id s none = none
answer id s (some none) = some (none, s)
answer id s (some (some _)) = some (some id, s)

abbrev framebuffer_region : ℕ → ℕ → ℕ → ℕ → ℕ → Surfaces → Option (Option ℕ × Surfaces)
framebuffer_region id x y w h s = answer id s (region x y w h (Table.get id s.1))

abbrev pub server : GpuDisplay ℕ ℕ
server = record {
  State = Surfaces;
  Error = ℕ;
  Framebuffer = ℕ;
  stride = λ fb. 4;
  as_volatile_slice = λ fb. fb;
  store = λ at p (next, ids, pixels). (next, ids, (at, p) ∷ pixels);
  open_x = ok (1, [], []);
  dispatch_events = λ s. s;
  close_requested = λ id s. false;
  create_surface = λ parent. create_surface;
  release_surface = λ id (next, ids, pixels). (next, Table.remove id ids, pixels);
  framebuffer = λ id s. some (if live s id then some id else none, s);
  framebuffer_region = framebuffer_region;
  next_buffer_in_use = λ id s. false;
  flip = λ id s. s;
  flip_to = λ id import_id s. s;
  set_position = λ id x y s. s;
  commit = λ id s. s;
  is_live = live;
}

create_surface_ok :
    (w h id : ℕ) (s s' : Surfaces)
    → create_surface w h s ≡ (ok id, s')
    → (live s id ≡ false) × ((j : ℕ) → live s' j ≡ (if j == id then true else live s j))
create_surface_ok w h id (next, ids, pixels) s' e =
    elim (Bool-cases (Table.contains_key next ids)) [
      | inl known ↦ absurd (err-ne-ok (ap (λ q. q.0) (rw (create_surface, known) at e)))
      | inr unknown ↦
          let e' = rw (create_surface, unknown) at e in
          let same : (suc next, Table.insert next (w, h) ids, pixels) ≡ s' = ap (λ q. q.1) e' in
          let number : next ≡ id = ok-injective (ap (λ q. q.0) e') in
          rw (← number, ← same) (unknown, λ j. ground (arith, Table.get-insert j next (w, h) ids))
    ]

create_surface_err :
    (w h x : ℕ) (s s' : Surfaces)
    → create_surface w h s ≡ (err x, s')
    → (j : ℕ) → live s' j ≡ live s j
create_surface_err w h x (next, ids, pixels) s' e j =
    elim (Bool-cases (Table.contains_key next ids)) [
      | inl known ↦
          let same : (next, ids, pixels) ≡ s' = ap (λ q. q.1) (rw (create_surface, known) at e) in
          ap (λ t. live t j) (sym same)
      | inr unknown ↦ absurd (ok-ne-err (ap (λ q. q.0) (rw (create_surface, unknown) at e)))
    ]

region_keeps :
    (id : ℕ) (a : Option (Option (Unit {0}))) (s s' : Surfaces) (found : Option ℕ)
    → answer id s a ≡ some (found, s')
    → s' ≡ s
region_keeps id none s s' found e = absurd cc
region_keeps id (some none) s s' found e = sym (ap (λ p. p.1) (some-injective _ _ e))
region_keeps id (some (some _)) s s' found e = sym (ap (λ p. p.1) (some-injective _ _ e))

pub server_laws : DisplayLaws server
server_laws = record {
  open_x_ok = λ s e j. rw (← ok-injective e) refl;
  create_surface_ok = λ parent. create_surface_ok;
  create_surface_err = λ parent. create_surface_err;
  release_surface_lem = λ id s j. ground (arith, Table.get-remove j id s.1);
  store_keeps = λ at p s j. refl;
  dispatch_events_keeps = λ s j. refl;
  framebuffer_keeps =
      λ id s s' found e j. ap (λ t. live t j) (sym (ap (λ p. p.1) (some-injective _ _ e)));
  framebuffer_region_keeps = λ id x y w h s s' found e j.
      ap (λ t. live t j) (region_keeps id (region x y w h (Table.get id s.1)) s s' found e);
  flip_keeps = λ id s j. refl;
  flip_to_keeps = λ id import_id s j. refl;
  set_position_keeps = λ id x y s j. refl;
  commit_keeps = λ id s j. refl;
}
