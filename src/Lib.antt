-- ===== src/Lib.antt =====
-- The verification library of vhost-gpu-backend, the device side of a virtio GPU: it decodes the
-- requests of a guest's driver, runs them on a renderer and a display, and encodes the responses.
--
-- The program and the files that model it
--
-- * src/protocol.rs, the wire format. The structures are in Protocol/Structs (a record and a codec for
--   each, named after the source's `virtio_gpu_*`), the constants in Protocol/Consts. The requests,
--   `VirtioGpuCommand::size` and `VirtioGpuCommand::decode` are in Protocol/Command, the responses,
--   `VirtioGpuResponse::encode` and `get_resp_command_const` in Protocol/Response. Wire builds
--   codecs: words with the lowest byte first (`Le32`, `Le64`), arrays, the layout of `repr(C)`, and the
--   trait `ByteValued` as a record of operations and laws.
-- * src/virtio_gpu.rs, the device `VirtioGpu`. Gpu/State has its state and parameters, Gpu/New `new`
--   and the default parameters, Gpu/Commands the methods on resources, contexts and fences, Gpu/Edid
--   the EDID, Gpu/Scanout and Gpu/Cursor the methods of the screen and the cursor, Gpu/Iovecs the
--   function `sglist_to_rutabaga_iovecs`. Each method has the source's name. Gpu/Methods puts all public
--   methods into one type of calls and defines the states that sequences of calls reach.
--   Gpu/Invariant, Gpu/Frames and Gpu/Answers have the rules by which methods keep the invariant, leave the
--   rest alone, and answer; Gpu/Behaviour says what single methods do.
-- * src/virtio_utils.rs is VirtioUtils.
-- * Prelude holds what the others share: lists, tests, tables (`BTreeMap`) and `Result`.
--
-- How the parts interact
--
-- A request is read by `decode` from guest memory at two moments, first the header and then the whole
-- structure; the guest may write in between, so `decode` takes two memories. A front end, which is not
-- part of the repository, calls the method of the device for the request and encodes the outcome. A
-- method is a function from the state of the device to an outcome (a value, an error, a panic of an
-- `unwrap` or an index of its own, or a panic in a library's call) and a new state; what it changes before
-- it fails stays changed, as in Rust. The device owns the renderer and shares the display by a
-- reference-counted cell; the model takes it that nobody else changes the display's surfaces between two
-- calls.
--
-- What is a parameter
--
-- The crate vm-memory (GuestMemory, and GuestRegions of Gpu/Iovecs), and the copies of crosvm libraries
-- under third-party: the renderer rutabaga_gfx and the display gpu_display (Libraries/Interfaces). Their
-- documented behaviour is in the laws of Libraries/Laws: how calls change the set of resources and the
-- set of surfaces, and that failed creations and releases change neither. Pixels written into a
-- framebuffer are an output of the renderer's read that the display stores. Three calls can panic in the
-- copies under third-party, and return an `Option` in the model: `Rutabaga::poll`, which unwraps the
-- default component, and `framebuffer` and `framebuffer_region` of the display, which unwrap the size of a
-- buffer and the slice of a region. The other calls are taken to return; the panics of a refused
-- allocation or of the C libraries below are left out. Tests/Renderer, Tests/Server and
-- Tests/Memory give concrete libraries that satisfy the laws.
--
-- Bounds
--
-- Integers are native numbers. The bounds of words appear as the predicate `InRange` of a codec, as
-- hypotheses of the theorems on encoded values, and as `% 2 ^ w` where the source casts. No definition
-- uses fuel: the loops run over lists, arrays of fixed size, or the bytes of a word.
--
-- What is not modelled
--
-- The rest of third-party, and lib.rs, which only re-exports. Logging and `Debug` have no part in the
-- state. The address that `display()` returns is the display of the state itself.
pub mod Prelude
pub mod Wire
pub mod GuestMemory
pub mod Protocol
pub mod VirtioUtils
pub mod Libraries
pub mod Gpu
pub mod Tests
