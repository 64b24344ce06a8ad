-- ===== src/Client/Ui/Drawing.antt =====
-- The drawing of client/src/ui/wgpu_state.rs: what is made lazily is there when it is used.
use lightvideo.Prelude.{
  ℕ, ◌*◌, ◌%◌, ◌^◌, ◌≡◌, ◌⊎◌, refl, ap, List, [], ◌∷◌, ◌++◌, length, All, Option, none, some,
  Bool-cases, inl, inr, Outcome, ok, err, panic, ◌>>=◌, ◌&&◌, ltb,
}
use lightvideo.Client.DoubleBuffer.{Frame}
use lightvideo.Client.Ui.Surface.{
  Gpu, SurfaceError, Extent3d, Command, configure, write_texture, submit_clear, submit_draw,
  vertices, indices, WgpuState, new, surface_format, opened, resize, upload, draw, render,
  show_front, set_up, ensure_set_up, texture_extent,
}

module _ (gpu : Gpu) (size : Extent3d) (Shown : List ℕ → Type 0) where
  open gpu use {TextureFormat, create_texture, create_bind_group, create_render_pipeline}

  -- Every upload fills the texture whole with a buffer that is `Shown`, and every pass draws with what belongs to it, the pipeline
  -- of the surface's format, and the two triangles.
  abbrev pub Sound : TextureFormat → Command gpu → Type 0
  Sound f (configure c) = c.format ≡ f
  Sound f (write_texture t bytes row rows e) =
      (t ≡ create_texture size)
      × Shown bytes
      × (length bytes ≡ 4 * size.width * size.height)
      × (row ≡ 4 * size.width % 2 ^ 32)
      × (rows ≡ size.height)
      × (e ≡ size)
  Sound f submit_clear = Unit {0}
  Sound f (submit_draw p g vs is n) =
      (p ≡ create_render_pipeline f)
      × (g ≡ create_bind_group (create_texture size))
      × (vs ≡ vertices)
      × (is ≡ indices)
      × (n ≡ length indices)

  -- The bind group comes with the texture, its size and the pipeline.
  abbrev pub Linked : WgpuState gpu → Type 0
  Linked s =
      (s.diffuse_bind_group ≡ none)
      ⊎ ((s.diffuse_bind_group ≡ some (create_bind_group (create_texture size)))
          × (s.diffuse_texture ≡ some (create_texture size))
          × (s.texture_size ≡ some size)
          × (s.render_pipeline ≡ some (create_render_pipeline s.config.format)))

  pub record Valid (f : TextureFormat) (s : WgpuState gpu) : Type 0 where
    pub format : s.config.format ≡ f
    pub linked : Linked s
    pub vertex_buffer : s.vertex_buffer ≡ vertices
    pub index_buffer : s.index_buffer ≡ indices
    pub num_indices : s.num_indices ≡ length indices
    pub sound : All (Sound f) s.commands

  abbrev pub HasSize : Option Frame → Type 0
  HasSize none = Unit {0}
  HasSize (some f) =
      (texture_extent gpu f ≡ size)
      × (length f.buffer ≡ 4 * size.width * size.height)
      × Shown f.buffer

  opened-Valid : (window : Extent3d) (f : TextureFormat) → Valid f (opened gpu window f)
  opened-Valid window f = record {
    format = refl;
    linked = inl refl;
    vertex_buffer = refl;
    index_buffer = refl;
    num_indices = refl;
    sound = (refl, tt);
  }

  All-snoc :
      (f : TextureFormat) (cs : List (Command gpu)) (c : Command gpu)
      → All (Sound f) cs
      → Sound f c
      → All (Sound f) (cs ++ (c ∷ []))
  All-snoc f [] c v h = (h, tt)
  All-snoc f (d ∷ cs) c v h = (v.0, All-snoc f cs c v.1 h)

  -- One more command.
  told-Valid :
      {f : TextureFormat} (c : Command gpu) (s : WgpuState gpu)
      → Valid f s
      → Sound f c
      → Valid f (record s { commands = s.commands ++ (c ∷ []) })
  told-Valid {f = f} c s v h = record {
    format = v.format;
    linked = v.linked;
    vertex_buffer = v.vertex_buffer;
    index_buffer = v.index_buffer;
    num_indices = v.num_indices;
    sound = All-snoc f s.commands c v.sound h;
  }

  pub resize-Valid :
      {f : TextureFormat} (w h : ℕ) (s : WgpuState gpu) → Valid f s → Valid f (resize gpu w h s)
  unfolding resize
  resize-Valid {f = f} w h s v = elim (Bool-cases (ltb 0 w && ltb 0 h)) [
    | inl positive ↦ rw positive (record {
      format = v.format;
      linked = v.linked;
      vertex_buffer = v.vertex_buffer;
      index_buffer = v.index_buffer;
      num_indices = v.num_indices;
      sound =
          All-snoc f s.commands (configure (record (s.config) { width = w; height = h })) v.sound
            v.format;
    })
    | inr empty ↦ rw empty v
  ]

  abbrev Goes : (WgpuState gpu → Type 0) → Outcome (WgpuState gpu) → Type 0
  Goes P r = (s : WgpuState gpu) × (r ≡ ok s) × P s

  upload-Valid :
      {f : TextureFormat} (frame : Frame) (s : WgpuState gpu)
      → Valid f s
      → HasSize (some frame)
      → s.diffuse_texture ≡ some (create_texture size)
      → s.texture_size ≡ some size
      → Goes (Valid f) (upload gpu frame s)
  unfolding upload
  upload-Valid frame s v (e, full, shown) t z = (
    _,
    rw (t, z) refl,
    told-Valid
        (write_texture (create_texture size) frame.buffer (4 * (frame.width % 2 ^ 32) % 2 ^ 32)
          (frame.height % 2 ^ 32) size)
        s v (refl, shown, full, ap (λ x. 4 * x.width % 2 ^ 32) e, ap (λ x. x.height) e, refl),
  )

  set_up-Valid :
      {f : TextureFormat} (frame : Frame) (s : WgpuState gpu)
      → Valid f s
      → texture_extent gpu frame ≡ size
      → Valid f (set_up gpu frame s)
  set_up-Valid frame s v e = record {
    format = v.format;
    linked = inr (
      ap (λ x. some (create_bind_group (create_texture x))) e,
      ap (λ x. some (create_texture x)) e,
      ap some e,
      refl,
    );
    vertex_buffer = v.vertex_buffer;
    index_buffer = v.index_buffer;
    num_indices = v.num_indices;
    sound = v.sound;
  }

  show_front-Valid :
      {f : TextureFormat} (front : Option Frame) (s : WgpuState gpu)
      → Valid f s
      → HasSize front
      → Goes (Valid f) (show_front gpu front s)
  show_front-Valid none s v h = (s, refl, v)
  show_front-Valid (some frame) s v h = elim v.linked [
    | inl unset ↦ rw (ensured unset) (
        upload-Valid frame (set_up gpu frame s) (set_up-Valid frame s v h.0) h
          (ap (λ x. some (create_texture x)) h.0) (ap some h.0))
    | inr (g, t, z, p) ↦ rw (ensured g) (upload-Valid frame s v h t z)
  ]
    where
      ensured :
          {o : Option gpu.BindGroup}
          → s.diffuse_bind_group ≡ o
          → ensure_set_up gpu frame s ≡ (elim o [ none ↦ set_up gpu frame s | some g ↦ s ])
      ensured e = ap (λ o. elim o [ none ↦ set_up gpu frame s | some g ↦ s ]) e

  draw-Valid : {f : TextureFormat} (s : WgpuState gpu) → Valid f s → Goes (Valid f) (draw gpu s)
  unfolding draw
  draw-Valid s v = elim v.linked [
    | inl unset ↦ (_, rw unset refl, told-Valid submit_clear s v tt)
    | inr (g, t, z, p) ↦ (
      _,
      rw (g, p) refl,
      told-Valid
          (submit_draw (create_render_pipeline s.config.format)
            (create_bind_group (create_texture size)) s.vertex_buffer s.index_buffer s.num_indices)
          s v
          (
            ap create_render_pipeline v.format,
            refl,
            v.vertex_buffer,
            v.index_buffer,
            v.num_indices,
          ),
    )
  ]

  -- Nothing that `render` unwraps is missing.
  pub render-Valid :
      {f : TextureFormat} (front : Option Frame) (surface : Option SurfaceError) (s : WgpuState gpu)
      → Valid f s
      → HasSize front
      → (s' : WgpuState gpu) × (render gpu front surface s ≡ ok (s', surface)) × Valid f s'
  unfolding render
  render-Valid front none s v h =
      let (s1, shown, v1) = show_front-Valid front s v h in
      let (s2, drawn, v2) = draw-Valid s1 v1 in (s2, rw shown (rw drawn refl), v2)
  render-Valid front (some e) s v h =
      let (s1, shown, v1) = show_front-Valid front s v h in (s1, rw shown refl, v1)

  pub new-Valid :
      (window : Extent3d) (formats : List TextureFormat) (s : WgpuState gpu)
      → new gpu window formats ≡ ok s
      → Valid s.config.format s
  unfolding new
  new-Valid window formats s made = made_of (surface_format gpu formats) made
    where
      made_of :
          (o : Outcome TextureFormat)
          → (o >>= λ f. ok (opened gpu window f)) ≡ ok s
          → Valid s.config.format s
      made_of (ok f) e =
          let same : opened gpu window f ≡ s = cc in rw (← same) (opened-Valid window f)
      made_of (err x) e = absurd (no_value e)
        where
          no_value : err x ≡ ok s → ⊥
          no_value h = cc
      made_of panic e = absurd (no_value e)
        where
          no_value : panic ≡ ok s → ⊥
          no_value h = cc
