-- ===== src/Server/FeedbackServer/Bitrate.antt =====
-- How the bitrate of server/src/server/feedback_server.rs moves.
use lightvideo.Prelude.{
  ℕ, ◌+◌, ◌*◌, ◌^◌, ◌≤◌, ◌<◌, ◌≡◌, List, [], ◌∷◌, length, true, ◌||◌, if◌then◌else◌, ltb, arith,
}
use lightvideo.Net.FeedbackPacket.{LvFeedbackPacket}
use lightvideo.Server.FeedbackServer.{
  Floats, Feedback, start, congestion, slow_down, speed_up, choose_bitrate, apply_feedback,
}

-- What f32 arithmetic does here: the product with 0.6 shrinks a number, and by no more than that;
-- `>` is transitive past the two literals.
pub record FloatLaws (f32 : Floats) : Type 0 where
  pub scale_down :
      (b : ℕ) → 20000 ≤ b → b < 2 ^ 32 → f32.to_u32 (f32.mul (f32.of_nat b) f32.c0_6) ≤ b
  pub scale_floor :
      (b : ℕ) → 20000 ≤ b → b < 2 ^ 32 → 12000 ≤ f32.to_u32 (f32.mul (f32.of_nat b) f32.c0_6)
  pub literal_order : (x : ℕ) → f32.gt x f32.c0_15 ≡ true → f32.gt x f32.c0_001 ≡ true

module _ (f32 : Floats) (laws : FloatLaws f32) where
  -- The state after a run of feedback packets.
  abbrev pub after : List LvFeedbackPacket → Feedback → Feedback
  after [] s = s
  after (p ∷ ps) s = after ps (apply_feedback f32 p s)

  -- One packet: the bitrate stays at 12000 or more, grows by at most 100000, and is what stands
  -- behind the mutex.
  pub apply_feedback-bitrate :
      (p : LvFeedbackPacket) (s : Feedback)
      → 12000 ≤ s.bitrate
      → s.bitrate + 100000 < 2 ^ 32
      → let s' = apply_feedback f32 p s in
        (12000 ≤ s'.bitrate) × (s'.bitrate ≤ s.bitrate + 100000) × (s'.bitrate_mtx ≡ s'.bitrate)
  unfolding apply_feedback
  apply_feedback-bitrate p s low high =
      ground (arith, laws.scale_down s.bitrate, laws.scale_floor s.bitrate)

  run_bounds :
      (ps : List LvFeedbackPacket) (s : Feedback)
      → 12000 ≤ s.bitrate
      → s.bitrate_mtx ≡ s.bitrate
      → s.bitrate + 100000 * length ps < 2 ^ 32
      → (12000 ≤ (after ps s).bitrate)
        × ((after ps s).bitrate ≤ s.bitrate + 100000 * length ps)
        × ((after ps s).bitrate_mtx ≡ (after ps s).bitrate)
  run_bounds [] s low same fits = (low, omega arith, same)
  run_bounds (p ∷ ps) s low same fits =
      let (low', high', same') = apply_feedback-bitrate p s low (omega arith) in
      let (a, b, c) = run_bounds ps (apply_feedback f32 p s) low' same' (omega arith) in
      (a, omega arith, c)

  -- Over any run of feedback packets from the state at the start, while the bitrate cannot reach
  -- the end of a u32, the bitrate stays at 12000 or more (below the 20000 that the code calls the
  -- minimum, since a bitrate of 20000 or more is still scaled down) and gains at most 100000 for
  -- each packet on the 900000 at the start; after a packet it stands behind the mutex.
  pub bitrate_bounds :
      (p : LvFeedbackPacket) (ps : List LvFeedbackPacket)
      → 900000 + 100000 * length (p ∷ ps) < 2 ^ 32
      → let s = after (p ∷ ps) start in
        (12000 ≤ s.bitrate)
        × (s.bitrate ≤ 900000 + 100000 * length (p ∷ ps))
        × (s.bitrate_mtx ≡ s.bitrate)
  bitrate_bounds p ps fits =
      let (low, high, same) = apply_feedback-bitrate p start (omega arith) (omega arith) in
      let (a, b, c) = run_bounds ps (apply_feedback f32 p start) low same (omega arith) in
      (a, omega arith, c)

  -- The middle branch of the code, for a congestion between 0.15 and 0.2, is never taken: every
  -- packet and state gives what the two other branches alone give, speeding up exactly when the
  -- congestion is at most 0.001 (or no number) and there was no decoder failure.
  pub choose_bitrate-two_branches :
      (p : LvFeedbackPacket) (s : Feedback)
      → choose_bitrate f32 p s ≡ (
          if f32.gt (congestion f32 p) f32.c0_001 || ltb 0 p.ecc_decoder_failures
          then slow_down f32 s
          else speed_up f32 s)
  unfolding choose_bitrate
  choose_bitrate-two_branches p s = ground (arith, laws.literal_order (congestion f32 p))
