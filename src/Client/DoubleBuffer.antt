-- ===== src/Client/DoubleBuffer.antt =====
-- client/src/double_buffer.rs: the decoder writes the back frame, the window shows the front one.
-- A lock is held only inside one of these operations, so each is one step on the two frames; the
-- slices that `swap` prints at the log level `debug` are not modelled.
use lightvideo.Prelude.{
  ℕ, List, replicate, Option, none, some, Bool, true, false, Outcome, ok, unwrap, ◌>>=◌,
}

pub record Frame : Type 0 where
  pub buffer : List ℕ
  pub width : ℕ
  pub height : ℕ

pub record DoubleBuffer : Type 0 where
  pub back : Option Frame
  pub front : Option Frame

abbrev pub blank : ℕ → ℕ → ℕ → Frame
blank capacity width height = record {
  buffer = replicate capacity 0;
  width = width;
  height = height;
}

-- `DoubleBuffer::new`
unfoldable pub new_sized : ℕ → ℕ → ℕ → DoubleBuffer
new_sized capacity width height = record {
  back = some (blank capacity width height);
  front = some (blank capacity width height);
}

abbrev pub new_uninitialized : DoubleBuffer
new_uninitialized = record { back = none; front = none }

unfoldable pub initialize : ℕ → ℕ → ℕ → DoubleBuffer → DoubleBuffer
initialize capacity width height b = record b {
  back = some (blank capacity width height);
  front = some (blank capacity width height);
}

unfoldable pub uninitialized : DoubleBuffer → Bool
uninitialized b = elim b.back [ none ↦ true | some f ↦ false ]

-- What the decoder does with the guard that `back()` returns: a new content for the back frame's
-- buffer. `as_mut().unwrap()` panics on a buffer that is not initialized.
unfoldable pub write_back : (List ℕ → List ℕ) → DoubleBuffer → Outcome DoubleBuffer
write_back f b = do
  frame ← unwrap b.back
  ok (record b { back = some (record frame { buffer = f frame.buffer }) })

unfoldable pub swap : DoubleBuffer → DoubleBuffer
swap b = record { back = b.front; front = b.back }
