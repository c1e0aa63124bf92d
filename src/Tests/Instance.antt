-- ===== src/Tests/Instance.antt =====
-- The libraries that the tests are linked with.
use vhost_gpu_backend.Prelude.{ℕ}
use vhost_gpu_backend.Libraries.{Libraries}
use vhost_gpu_backend.Tests.Renderer.{renderer}
use vhost_gpu_backend.Tests.Server.{server}

abbrev pub libraries : Libraries
libraries = record {
  Slice = ℕ;
  Pixels = ℕ;
  rutabaga = renderer;
  display = server;
  GuestMemoryError = ℕ;
  TryFromIntError = Unit;
}
