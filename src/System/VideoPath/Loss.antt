-- ===== src/System/VideoPath/Loss.antt =====
-- What of a block of server/src/packager/packet.rs comes through a network that loses at most two
-- of its datagrams, in the terms of client/src/decoder/video.rs.
use lightvideo.Prelude.{
  ℕ, ◌*◌, ◌%◌, ◌/◌, ◌≢◌, ◌⊎◌, inl, inr, ◌++◌, ◌+◌, ◌^◌, ◌≤◌, ◌<◌, ◌≡◌, refl, ap, sym, ◌∙◌, List, [],
  ◌∷◌, length, map, take, get_elem?, All, some, arith, length-take,
}
use lightvideo.Net.Packet.{simd_packet_size}
use lightvideo.Codec.{ErasureCode, EncoderLaws, DecoderLaws, Shard}
use lightvideo.Rtp.{Rtp, RtpLaws}
use lightvideo.Client.LvDecoder.{H264}
use lightvideo.Client.Video.{Arrival}
use lightvideo.Client.Video.Stream.{
  Comes, over, original, original_lost, recovery_comes, recovery_lost,
}
use lightvideo.Server.ErasureManager.{Host}
use lightvideo.Server.ErasureManager.Blocks.{
  regular_datagram, recovery_datagram, recovery_datagrams, shard, largest,
}
use lightvideo.System.VideoPath.{Delivers, nothing, delivered, dropped, regulars, Crosses}
use lightvideo.System.VideoPath.Padding.{
  ZeroFrom, filled-take, ChunkWise, chunk_size, padded-ZeroFrom,
}
use lightvideo.System.VideoPath.Headers.{
  regular_header, recovery_header, regular_header-IsHeader, recovery_header-IsHeader, shards_agree,
}

module _ (code : ErasureCode) (rtp : Rtp) (host : Host) (h264 : H264) (enc_laws : EncoderLaws code)
    (dec_laws : DecoderLaws code enc_laws.recovery) (rtp_laws : RtpLaws rtp) where
  open rtp use {Packet, marshal_size}
  open enc_laws use {recovery}
  open rtp_laws use {wire}

  abbrev BlockComes : ℕ → List Packet → ℕ → ℕ → ℕ → ℕ → List Arrival → Type 0
  BlockComes = Comes code rtp h264 recovery dec_laws rtp_laws

  -- What the server cuts off the recovery shards of these packets is zeros.
  abbrev Trimmed : List Packet → Type 0
  Trimmed g =
      All (ZeroFrom (largest code rtp host enc_laws rtp_laws g))
        (recovery (map (shard code rtp host enc_laws rtp_laws) g))

  padded_shards :
      (g : List Packet) (n : ℕ)
      → largest code rtp host enc_laws rtp_laws g ≤ n
      → All (ZeroFrom n) (map (shard code rtp host enc_laws rtp_laws) g)
  padded_shards [] n le = tt
  padded_shards (p ∷ g) n le = (
    padded-ZeroFrom (wire p) _ n (ground (arith, rtp_laws.length-wire p, le)),
    padded_shards g n (ground (arith, le)),
  )

  -- A cut at the end of a chunk takes nothing but zeros.
  largest-Trimmed :
      (g : List Packet)
      → ChunkWise recovery
      → largest code rtp host enc_laws rtp_laws g % chunk_size ≡ 0
      → Trimmed g
  largest-Trimmed g chunks e =
      let m = largest code rtp host enc_laws rtp_laws g in
      let whole : chunk_size * (m / chunk_size) ≡ m = omega (arith, e) in
      rw whole at (
        chunks (m / chunk_size) (map (shard code rtp host enc_laws rtp_laws) g)
          (padded_shards g (chunk_size * (m / chunk_size)) (omega (arith, whole))))

  module _ (clock : (n : ℕ) → host.now n < 2 ^ 128) where
    original_step :
        {id : ℕ} {g : List Packet} {k gone n lost : ℕ} {ds : List (List ℕ)} {xs : List Arrival}
        (front : List Packet) (p : Packet) (t : ℕ) (tail : List Arrival)
        → id < 2 ^ 32
        → length front ≡ k
        → k < 4
        → get_elem? g k ≡ some p
        → gone + n ≡ lost
        → ((gone' n' : ℕ) (ys : List Arrival)
            → gone' + n' ≡ lost
            → Delivers n' ds ys
            → BlockComes id g (k + 1) gone' 0 0 (ys ++ tail))
        → Delivers n
            (regular_datagram code rtp host enc_laws rtp_laws
                (record { id = id; packets = front })
                p
                (host.now t)
              ∷ ds)
            xs
        → BlockComes id g k gone 0 0 (xs ++ tail)
    original_step {id = id} {gone = gone} front p t tail small here lt at sum next
          (delivered {n = n} {q = q} e queued rest) =
        original lt
          (record {
            header =
                regular_header code rtp host h264 enc_laws dec_laws rtp_laws id (length front)
                  (host.now t);
            packet = p;
            queue = q;
            sound =
                regular_header-IsHeader code rtp host h264 enc_laws dec_laws rtp_laws clock id
                  (length front) t small (omega arith);
            block_id = refl;
            regular = refl;
            fragment_index = here;
            at = at;
            datagram = e;
            queued = queued;
          })
          (next gone n _ sum rest)
    original_step {gone = gone} front p t tail small here lt at sum next (dropped {n = n} rest) =
        original_lost lt (next (gone + 1) n _ (omega arith) rest)

    recovery_step :
        {id : ℕ} {g : List Packet} {r gone lost missed n : ℕ} {ds : List (List ℕ)}
        {xs : List Arrival} (s : Shard) (t : ℕ)
        → id < 2 ^ 32
        → length g ≡ 4
        → r < 2
        → get_elem? (recovery (map (shard code rtp host enc_laws rtp_laws) g)) r ≡ some s
        → length s ≡ simd_packet_size
        → (gone ≢ 0 → ZeroFrom (largest code rtp host enc_laws rtp_laws g) s)
        → missed + n ≡ lost
        → ((missed' n' : ℕ) (ys : List Arrival)
            → missed' + n' ≡ lost
            → Delivers n' ds ys
            → BlockComes id g 4 gone (r + 1) missed' ys)
        → Delivers n
            (recovery_datagram code rtp host enc_laws rtp_laws
                (record { id = id; packets = g })
                r
                s
                (host.now t)
              ∷ ds)
            xs
        → BlockComes id g 4 gone r missed xs
    recovery_step {id = id} {g = g} {r = r} {gone = gone} {missed = missed} s t small four lt at
          size zero_tail sum next (delivered {n = n} e queued rest) =
        let m = largest code rtp host enc_laws rtp_laws g in
        recovery_comes lt
          (record {
            header =
                recovery_header code rtp host h264 enc_laws dec_laws rtp_laws id g r (host.now t);
            bytes = take m s;
            sound =
                recovery_header-IsHeader code rtp host h264 enc_laws dec_laws rtp_laws clock id g r
                  t small four lt;
            block_id = refl;
            flagged = refl;
            fragment_index = refl;
            pkt_sizes = refl;
            fits = omega (arith, length-take m s);
            at = λ z.
                ap (λ ds. get_elem? (recovery ds) r)
                  (sym (shards_agree code rtp host h264 enc_laws dec_laws rtp_laws g))
                ∙ at
                ∙ ap some (sym (filled-take m s (zero_tail (some_gone z)) size));
            datagram = e;
          })
          (next missed n _ sum rest)
      where
        some_gone : (gone ≢ 0) ⊎ (4 < 4) → gone ≢ 0
        some_gone (inl z) = z
        some_gone (inr z) = absurd (omega arith)
    recovery_step {missed = missed} s t small four lt at size zero_tail sum next
          (dropped {n = n} rest) =
        recovery_lost lt (next (missed + 1) n _ (omega arith) rest)

    recoveries_lem :
        (id : ℕ) (g : List Packet) (rs : List Shard) (gone n t : ℕ) (xs : List Arrival)
        → recovery (map (shard code rtp host enc_laws rtp_laws) g) ≡ rs
        → length rs ≡ 2
        → All (λ s. length s ≡ simd_packet_size) rs
        → (gone ≢ 0 → All (ZeroFrom (largest code rtp host enc_laws rtp_laws g)) rs)
        → id < 2 ^ 32
        → length g ≡ 4
        → gone + n ≤ 2
        → Delivers n
            (recovery_datagrams code rtp host enc_laws rtp_laws
              (record { id = id; packets = g })
              t
              0
              rs)
            xs
        → BlockComes id g 4 gone 0 0 xs
    recoveries_lem id g [] gone n t xs e two size tail small four sum d = absurd (omega arith)
    recoveries_lem id g (a ∷ []) gone n t xs e two size tail small four sum d = absurd (omega arith)
    recoveries_lem id g (a ∷ b ∷ c ∷ rs) gone n t xs e two size tail small four sum d =
        absurd (omega arith)
    recoveries_lem id g (a ∷ b ∷ []) gone n t xs e two size tail small four sum d =
        recovery_step {lost = n} a t small four (omega arith) (ap (λ l. get_elem? l 0) e) size.0
          (λ z. (tail z).0) (omega arith)
          (λ m1 n1 ys sum1 d1.
            recovery_step {lost = n} b (t + 1) small four (omega arith) (ap (λ l. get_elem? l 1) e)
              size.1.0 (λ z. (tail z).1.0) sum1 (λ m2 n2 zs sum2 d2. ended zs (omega arith) d2) d1)
          d
      where
        ended :
            {m n' : ℕ} (zs : List Arrival)
            → gone + m ≤ 2
            → Delivers n' [] zs
            → BlockComes id g 4 gone 2 m zs
        ended [] few nothing = over few
        ended (a ∷ zs) few d = elim d [ ]

    none_left : {n : ℕ} (xs : List Arrival) → Delivers n [] xs → xs ≡ []
    none_left [] d = refl
    none_left (a ∷ xs) d = elim d [ ]

    originals_lem :
        (id : ℕ) (g : List Packet) (lost t : ℕ) (xs tail : List Arrival)
        → length g ≡ 4
        → id < 2 ^ 32
        → Delivers lost (regulars code rtp host enc_laws rtp_laws id [] g t) xs
        → ((gone : ℕ) → gone ≤ lost → BlockComes id g 4 gone 0 0 tail)
        → BlockComes id g 0 0 0 0 (xs ++ tail)
    originals_lem id [] lost t xs tail four small d rest = absurd (omega arith)
    originals_lem id (a ∷ []) lost t xs tail four small d rest = absurd (omega arith)
    originals_lem id (a ∷ b ∷ []) lost t xs tail four small d rest = absurd (omega arith)
    originals_lem id (a ∷ b ∷ c ∷ []) lost t xs tail four small d rest = absurd (omega arith)
    originals_lem id (a ∷ b ∷ c ∷ e ∷ f ∷ g) lost t xs tail four small d rest = absurd (omega arith)
    originals_lem id (a ∷ b ∷ c ∷ e ∷ []) lost t xs tail four small d rest =
        original_step {lost = lost} [] a t tail small refl (omega arith) refl (omega arith)
          (λ l1 n1 ys1 s1 d1.
            original_step {lost = lost} (a ∷ []) b (t + 1) tail small refl (omega arith) refl s1
              (λ l2 n2 ys2 s2 d2.
                original_step {lost = lost} (a ∷ b ∷ []) c (t + 1 + 1) tail small refl (omega arith)
                  refl s2
                  (λ l3 n3 ys3 s3 d3.
                    original_step {lost = lost} (a ∷ b ∷ c ∷ []) e (t + 1 + 1 + 1) tail small refl
                      (omega arith) refl s3 ended d3)
                  d2)
              d1)
          d
      where
        ended :
            (gone n : ℕ) (ys : List Arrival)
            → gone + n ≡ lost
            → Delivers n [] ys
            → BlockComes id (a ∷ b ∷ c ∷ e ∷ []) 4 gone 0 0 (ys ++ tail)
        ended gone n ys sum none_more = rw (none_left ys none_more) (rest gone (omega arith))

    -- What comes of the six datagrams of a block is what the client can do with.
    pub Crosses-Comes :
        (id : ℕ) (g : List Packet) (t : ℕ) (xs : List Arrival)
        → ChunkWise recovery
        → length g ≡ 4
        → id < 2 ^ 32
        → Crosses code rtp host enc_laws rtp_laws id g t xs
        → BlockComes id g 0 0 0 0 xs
    Crosses-Comes id g t xs chunks four small c = rw c.split (
        originals_lem id g c.lost t c.first c.second four small c.regular (λ gone le.
          recoveries_lem id g _ gone c.missed (t + 4) c.second refl (enc_laws.length-recovery _)
            (enc_laws.shards-recovery _) (λ some_gone. trimmed gone le some_gone) small four
            (omega (arith, c.few)) c.repair))
      where
        trimmed : (gone : ℕ) → gone ≤ c.lost → gone ≢ 0 → Trimmed g
        trimmed gone le some_gone = elim c.aligned [
          | inl none_lost ↦ absurd (some_gone (omega arith))
          | inr aligned ↦ largest-Trimmed g chunks aligned
        ]
