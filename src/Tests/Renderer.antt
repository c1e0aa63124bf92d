-- ===== src/Tests/Renderer.antt =====
-- A renderer that knows ids of resources, and that it satisfies the laws of renderers.
use mathlib.Core.Option.{some-injective}
use vhost_gpu_backend.Prelude.{
  sym, ap, ℕ, Bool, true, false, List, [], ◌∷◌, some, ◌≡◌, refl, if◌then◌else◌, ◌==◌, inl, inr,
  Bool-cases, arith,
}
use vhost_gpu_backend.Prelude.Result.{err-ne-ok, ok-ne-err, ok-injective, ok, err}
use vhost_gpu_backend.Prelude.Table.{Table}
use vhost_gpu_backend.Prelude.Table
use vhost_gpu_backend.Libraries.{Call, Rutabaga, RutabagaLaws}

abbrev pub Ids : Type 0
Ids = Table (Unit {0})

-- A renderer call that needs this resource.
abbrev pub with_resource : ℕ → Call Ids ℕ (Unit {0})
with_resource id s = if Table.contains_key id s then (ok tt, s) else (err 2, s)

abbrev pub create : ℕ → Call Ids ℕ (Unit {0})
create id s = if Table.contains_key id s then (err 1, s) else (ok tt, Table.insert id tt s)

abbrev pub release : ℕ → Call Ids ℕ (Unit {0})
release id s = if Table.contains_key id s then (ok tt, Table.remove id s) else (err 2, s)

-- A window of memory is the number of its surface, and pixels are the number of their resource.
abbrev pub renderer : Rutabaga ℕ ℕ
renderer = record {
  State = Ids;
  Error = ℕ;
  Flags = List Bool;
  Metadata = Unit;
  FenceData = ℕ;
  no_flags = [];
  use_egl = λ b f. b ∷ f;
  use_gles = λ b f. b ∷ f;
  use_glx = λ b f. b ∷ f;
  use_surfaceless = λ b f. b ∷ f;
  build = λ c f. ok [];
  pipe_texture_2d = 2;
  pipe_bind_render_target = 2;
  new_2d = λ x y w h. record {
    x = x;
    y = y;
    z = 0;
    w = w;
    h = h;
    d = 1;
    level = 0;
    stride = 0;
    layer_stride = 0;
    offset = 0;
  };
  resource_create_3d = λ id c. create id;
  query = λ id s. err 3;
  unref_resource = release;
  attach_backing = λ id vecs. with_resource id;
  detach_backing = with_resource;
  create_context = λ ctx init s. (ok tt, s);
  destroy_context = λ ctx s. (ok tt, s);
  context_attach_resource = λ ctx id. with_resource id;
  context_detach_resource = λ ctx id. with_resource id;
  submit_command = λ ctx commands s. (ok tt, s, commands);
  transfer_write = λ ctx id t. with_resource id;
  transfer_read = λ ctx id t buf s. ((with_resource id s).0, s, id);
  get_capset_info = λ index s. err 4;
  get_capset = λ id version s. err 4;
  poll = λ s. some ([], s);
  force_ctx_0 = λ s. s;
  create_fence = λ fence s. (ok tt, s);
  has_resource = λ s id. Table.contains_key id s;
}

with_resource-same :
    (id : ℕ) (s : Ids) (j : ℕ)
    → Table.contains_key j (with_resource id s).1 ≡ Table.contains_key j s
with_resource-same id s j = elim (Bool-cases (Table.contains_key id s)) [
  | inl known ↦ rw (known, with_resource) refl
  | inr unknown ↦ rw (unknown, with_resource) refl
]

create_ok :
    (id : ℕ) (s s' : Ids)
    → create id s ≡ (ok tt, s')
    → (Table.contains_key id s ≡ false)
      × ((j : ℕ) → Table.contains_key j s' ≡ (if j == id then true else Table.contains_key j s))
create_ok id s s' e = elim (Bool-cases (Table.contains_key id s)) [
  | inl known ↦ absurd (err-ne-ok (ap (λ q. q.0) (rw (create, known) at e)))
  | inr unknown ↦
      let same : Table.insert id tt s ≡ s' = ap (λ q. q.1) (rw (create, unknown) at e) in
      (unknown, λ j. rw (← same) (ground (arith, Table.get-insert j id tt s)))
]

create_err :
    (id x : ℕ) (s s' : Ids)
    → create id s ≡ (err x, s')
    → (j : ℕ) → Table.contains_key j s' ≡ Table.contains_key j s
create_err id x s s' e j = elim (Bool-cases (Table.contains_key id s)) [
  | inl known ↦
      let same : s ≡ s' = ap (λ q. q.1) (rw (create, known) at e) in
      ap (Table.contains_key j) (sym same)
  | inr unknown ↦ absurd (ok-ne-err (ap (λ q. q.0) (rw (create, unknown) at e)))
]

release_ok :
    (id : ℕ) (s s' : Ids)
    → release id s ≡ (ok tt, s')
    → (Table.contains_key id s ≡ true)
      × ((j : ℕ) → Table.contains_key j s' ≡ (if j == id then false else Table.contains_key j s))
release_ok id s s' e = elim (Bool-cases (Table.contains_key id s)) [
  | inl known ↦
      let same : Table.remove id s ≡ s' = ap (λ q. q.1) (rw (release, known) at e) in
      (known, λ j. rw (← same) (ground (arith, Table.get-remove j id s)))
  | inr unknown ↦ absurd (err-ne-ok (ap (λ q. q.0) (rw (release, unknown) at e)))
]

release_err :
    (id x : ℕ) (s s' : Ids)
    → release id s ≡ (err x, s')
    → (j : ℕ) → Table.contains_key j s' ≡ Table.contains_key j s
release_err id x s s' e j = elim (Bool-cases (Table.contains_key id s)) [
  | inl known ↦ absurd (ok-ne-err (ap (λ q. q.0) (rw (release, known) at e)))
  | inr unknown ↦
      let same : s ≡ s' = ap (λ q. q.1) (rw (release, unknown) at e) in
      ap (Table.contains_key j) (sym same)
]

pub renderer_laws : RutabagaLaws renderer
renderer_laws = record {
  build_ok = λ c f s e j. rw (← ok-injective e) refl;
  resource_create_3d_ok = λ id c. create_ok id;
  resource_create_3d_err = λ id c x s s'. create_err id x s s';
  unref_resource_ok = release_ok;
  unref_resource_err = λ id x s s'. release_err id x s s';
  attach_backing_keeps = λ id vecs. with_resource-same id;
  detach_backing_keeps = with_resource-same;
  create_context_keeps = λ ctx init s j. refl;
  destroy_context_keeps = λ ctx s j. refl;
  context_attach_resource_keeps = λ ctx id. with_resource-same id;
  context_detach_resource_keeps = λ ctx id. with_resource-same id;
  submit_command_keeps = λ ctx commands s j. refl;
  transfer_write_keeps = λ ctx id t. with_resource-same id;
  transfer_read_keeps = λ ctx id t buf s j. refl;
  poll_keeps = λ s s' fences e j.
      ap (λ t. Table.contains_key j t) (sym (ap (λ p. p.1) (some-injective _ _ e)));
  force_ctx_0_keeps = λ s j. refl;
  create_fence_keeps = λ fence s j. refl;
}
