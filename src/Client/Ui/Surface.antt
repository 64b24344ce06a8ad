-- ===== src/Client/Ui/Surface.antt =====
-- client/src/ui/wgpu_state.rs: the window's surface, what it draws, and the input events that it
-- sends. What is printed at the log level `debug` is not modelled: that level is off for this module.
use lightvideo.Prelude.{
  ℕ, ◌*◌, ◌%◌, ◌^◌, List, [], ◌∷◌, ◌++◌, length, Option, none, some, Bool, true, false, ◌&&◌, ltb,
  if◌then◌else◌, Outcome, ok, unwrap, index, ◌>>=◌,
}
use lightvideo.Net.Input.{
  KeyTable, ElementState, pressed, MouseButton, LvInputEvent, keyboard_event, mouse_click_event,
  mouse_move_event, new_click, new_key,
}
use lightvideo.Client.DoubleBuffer.{Frame}

-- Sums of `f64` bit patterns, and the literal `40.0`.
pub record F64 : Type 0 where
  pub add : ℕ → ℕ → ℕ
  pub c40 : ℕ

pub record Extent3d : Type 0 where
  pub width : ℕ
  pub height : ℕ

-- The crate `wgpu`, which is not part of the repository: the objects that a device makes.
pub record Gpu : Type 1 where
  pub TextureFormat : Type 0
  pub is_srgb : TextureFormat → Bool
  pub Texture : Type 0
  pub BindGroup : Type 0
  pub RenderPipeline : Type 0
  pub create_texture : Extent3d → Texture
  pub create_bind_group : Texture → BindGroup
  pub create_render_pipeline : TextureFormat → RenderPipeline

pub data SurfaceError : Type 0 where
  out_of_memory other_surface_error : SurfaceError

-- `KeyEvent::physical_key` and whether `logical_key` is Escape.
pub data PhysicalKey (keys : KeyTable) : Type 0 where
  code : keys.KeyCode → PhysicalKey keys
  unidentified : PhysicalKey keys

pub data WindowEvent (keys : KeyTable) : Type 0 where
  cursor_moved : ℕ → ℕ → WindowEvent keys
  mouse_input : MouseButton → ElementState → WindowEvent keys
  keyboard_input : PhysicalKey keys → Bool → ElementState → WindowEvent keys
  resized : ℕ → ℕ → WindowEvent keys
  mouse_wheel redraw_requested close_requested other_window_event : WindowEvent keys

abbrev is_pressed : ElementState → Bool
is_pressed pressed = true
is_pressed _ = false

-- The pattern of the event loop that a pressed Escape matches.
abbrev pub is_escape_press : (keys : KeyTable) → WindowEvent keys → Bool
is_escape_press keys (keyboard_input k escape state) = escape && is_pressed state
is_escape_press keys _ = false

-- A vertex as the bit patterns of its `f32` fields.
pub record Vertex : Type 0 where
  pub position : List ℕ
  pub tex_coords : List ℕ

abbrev plus_one : ℕ
plus_one = 1065353216

abbrev minus_one : ℕ
minus_one = 3212836864

abbrev pub vertices : List Vertex
vertices =
    record { position = minus_one ∷ plus_one ∷ 0 ∷ []; tex_coords = 0 ∷ 0 ∷ [] }
    ∷ record { position = minus_one ∷ minus_one ∷ 0 ∷ []; tex_coords = 0 ∷ plus_one ∷ [] }
    ∷ record { position = plus_one ∷ minus_one ∷ 0 ∷ []; tex_coords = plus_one ∷ plus_one ∷ [] }
    ∷ record { position = plus_one ∷ plus_one ∷ 0 ∷ []; tex_coords = plus_one ∷ 0 ∷ [] }
    ∷ []

abbrev pub indices : List ℕ
indices = 0 ∷ 1 ∷ 2 ∷ 0 ∷ 2 ∷ 3 ∷ []

-- `flume::bounded(10)`, and `try_send` on it with its error ignored.
abbrev pub channel_size : ℕ
channel_size = 10

unfoldable pub try_send : LvInputEvent → List LvInputEvent → List LvInputEvent
try_send e q = if ltb (length q) channel_size then q ++ (e ∷ []) else q

module _ (gpu : Gpu) where
  open gpu use {
    TextureFormat, is_srgb, Texture, BindGroup, RenderPipeline, create_texture, create_bind_group,
    create_render_pipeline,
  }

  pub record SurfaceConfiguration : Type 0 where
    pub format : TextureFormat
    pub width : ℕ
    pub height : ℕ

  -- What the surface and the queue are told.
  pub data Command : Type 0 where
    configure : SurfaceConfiguration → Command
    write_texture : Texture → List ℕ → ℕ → ℕ → Extent3d → Command
    -- A pass that clears the view, draws with these or nothing, and is presented.
    submit_clear : Command
    submit_draw : RenderPipeline → BindGroup → List Vertex → List ℕ → ℕ → Command

  pub record WgpuState : Type 0 where
    pub config : SurfaceConfiguration
    pub size : Extent3d
    pub render_pipeline : Option RenderPipeline
    pub vertex_buffer : List Vertex
    pub index_buffer : List ℕ
    pub texture_size : Option Extent3d
    pub diffuse_texture : Option Texture
    pub diffuse_bind_group : Option BindGroup
    pub num_vertices : ℕ
    pub num_indices : ℕ
    -- The channel behind `input_send`.
    pub input_send : List LvInputEvent
    pub commands : List Command

  -- The first sRGB format of the surface, and else its first.
  abbrev first_srgb : List TextureFormat → Option TextureFormat
  first_srgb [] = none
  first_srgb (f ∷ fs) = if is_srgb f then some f else first_srgb fs

  unfoldable pub surface_format : List TextureFormat → Outcome TextureFormat
  surface_format formats = elim (first_srgb formats) [ none ↦ index formats 0 | some f ↦ ok f ]

  -- `WGPUState::new`, once the device is there, for the size of the window and the formats of the
  -- surface.
  abbrev pub opened : Extent3d → TextureFormat → WgpuState
  opened size format =
      let config : SurfaceConfiguration = record {
        format = format;
        width = size.width;
        height = size.height;
      } in
      record {
        config = config;
        size = size;
        render_pipeline = none;
        vertex_buffer = vertices;
        index_buffer = indices;
        texture_size = none;
        diffuse_texture = none;
        diffuse_bind_group = none;
        num_vertices = length vertices;
        num_indices = length indices;
        input_send = [];
        commands = configure config ∷ [];
      }

  unfoldable pub new : Extent3d → List TextureFormat → Outcome WgpuState
  unfolding surface_format
  new size formats = do format ← surface_format formats; ok (opened size format)

  unfoldable pub resize : ℕ → ℕ → WgpuState → WgpuState
  resize w h s =
      if ltb 0 w && ltb 0 h
      then (let config : SurfaceConfiguration = record (s.config) { width = w; height = h } in
          record s {
            size = record { width = w; height = h };
            config = config;
            commands = s.commands ++ (configure config ∷ []);
          })
      else s

  abbrev pub update : WgpuState → WgpuState
  update s = s

  abbrev pub texture_extent : Frame → Extent3d
  texture_extent f = record { width = f.width % 2 ^ 32; height = f.height % 2 ^ 32 }

  -- The texture, the bind group and the pipeline, for the size of the frame.
  abbrev pub set_up : Frame → WgpuState → WgpuState
  set_up f s = record s {
    texture_size = some (texture_extent f);
    diffuse_texture = some (create_texture (texture_extent f));
    diffuse_bind_group = some (create_bind_group (create_texture (texture_extent f)));
    render_pipeline = some (create_render_pipeline s.config.format);
  }

  abbrev pub ensure_set_up : Frame → WgpuState → WgpuState
  ensure_set_up f s = elim s.diffuse_bind_group [ none ↦ set_up f s | some g ↦ s ]

  -- `self.queue.write_texture(..)`
  unfoldable pub upload : Frame → WgpuState → Outcome WgpuState
  upload f s = do
    texture ← unwrap s.diffuse_texture
    size ← unwrap s.texture_size
    ok (record s {
      commands =
          s.commands
          ++ (write_texture texture f.buffer (4 * (f.width % 2 ^ 32) % 2 ^ 32) (f.height % 2 ^ 32)
                size
              ∷ []);
    })

  abbrev pub show_front : Option Frame → WgpuState → Outcome WgpuState
  show_front none s = ok s
  show_front (some f) s = upload f (ensure_set_up f s)

  -- The render pass, submitted and presented.
  unfoldable pub draw : WgpuState → Outcome WgpuState
  draw s = elim s.diffuse_bind_group [
    | none ↦ ok (record s { commands = s.commands ++ (submit_clear ∷ []) })
    | some g ↦ do
      pipeline ← unwrap s.render_pipeline
      ok (record s {
        commands =
            s.commands
            ++ (submit_draw pipeline g s.vertex_buffer s.index_buffer s.num_indices ∷ []);
      })
  ]

  -- `get_current_texture()?` returns early when the surface has an error.
  unfoldable pub render :
      Option Frame → Option SurfaceError → WgpuState → Outcome (WgpuState × Option SurfaceError)
  unfolding upload draw
  render front surface s = do
    s ← show_front front s
    elim surface [ none ↦ (do s ← draw s; ok (s, none)) | some e ↦ ok (s, some e) ]

module _ (keys : KeyTable) (f64 : F64) (gpu : Gpu) where
  -- The input event of a window event, if it has one.
  abbrev pub input_event : WindowEvent keys → Option LvInputEvent
  input_event (cursor_moved x y) = some (mouse_move_event (record { x = f64.add x f64.c40; y = y }))
  input_event (mouse_input b s) = some (mouse_click_event (new_click b s))
  input_event (keyboard_input (code k) escape s) = some (keyboard_event (new_key keys k s))
  input_event (keyboard_input unidentified escape s) = none
  input_event _ = none

  -- `input`, which takes no event for itself.
  unfoldable pub input : WindowEvent keys → WgpuState gpu → Bool × WgpuState gpu
  unfolding try_send
  input e s = elim (input_event e) [
    | none ↦ (false, s)
    | some i ↦ (false, record s { input_send = try_send i s.input_send })
  ]
