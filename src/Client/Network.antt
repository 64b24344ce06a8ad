-- ===== src/Client/Network.antt =====
-- client/src/decoder/network.rs: `LVNetwork::socket_loop`, which receives datagrams into the slots of
-- the channel to the decode thread.
pub mod Setup
use lightvideo.Prelude.{
  ℕ, ◌≡◌, min, refl, ap, sym, ◌∙◌, List, [], ◌∷◌, ◌++◌, length, take, drop, map, replicate, All,
  Option, none, some, fill_front, socket_io, length-take, take-append, append_assoc, append-nil,
  ◌⊎◌, inl, inr, Bool, true, false, if◌then◌else◌, length-replicate,
}
use lightvideo.Prelude.Runs.{done, failed, M, ◌>>◌, return}

abbrev pub mtu_size : ℕ
mtu_size = 1200

pub record LvPacketHolder : Type 0 where
  pub payload : List ℕ
  pub amt : ℕ

-- `LVPacketHolder::default`
abbrev pub default_holder : LvPacketHolder
default_holder = record { payload = replicate mtu_size 0; amt = 0 }

-- One round: whether `try_send_ref` gives a slot, and what `recv_from` gives, with `none` for an
-- error. The channel recycles its slots: each is a default one when it is given.
pub record Reception : Type 0 where
  pub has_slot : Bool
  pub received : Option (List ℕ)

-- `recv_from` into the payload, which cuts a longer datagram off.
abbrev pub fill : List ℕ → LvPacketHolder → LvPacketHolder
fill d h = record { payload = fill_front h.payload d; amt = min (length h.payload) (length d) }

-- The slots that have been handed over. A slot goes over when its reference is dropped, also on the
-- way out of the loop.
unfoldable pub socket_round : Reception → M (List LvPacketHolder) (Unit {0})
socket_round r s =
    if r.has_slot
    then elim r.received [
      | none ↦ failed socket_io (s ++ (default_holder ∷ []))
      | some d ↦ done tt (s ++ (fill d default_holder ∷ []))
    ]
    else done tt s

unfoldable pub socket_loop : List Reception → M (List LvPacketHolder) (Unit {0})
unfolding socket_round
socket_loop [] = return tt
socket_loop (r ∷ rs) = socket_round r >> socket_loop rs

-- What the decode thread reads of a slot.
abbrev pub view : LvPacketHolder → List ℕ
view h = take h.amt h.payload

-- The datagrams that the loop reads: those for which there is a slot, up to the
-- first error of the socket.
abbrev pub read : List Reception → List (List ℕ)
read [] = []
read (r ∷ rs) = if r.has_slot then elim r.received [ none ↦ [] | some d ↦ d ∷ read rs ] else read rs

-- Whether the socket has an error in a round with a slot.
abbrev pub breaks : List Reception → Bool
breaks [] = false
breaks (r ∷ rs) =
    if r.has_slot then elim r.received [ none ↦ true | some d ↦ breaks rs ] else breaks rs

view-fill : (d : List ℕ) → view (fill d default_holder) ≡ take mtu_size d
view-fill d =
    let room : List ℕ = replicate mtu_size 0 in
    let size : length room ≡ mtu_size = length-replicate {A = ℕ} mtu_size 0 in
    ap (λ n. take n (take (length room) d ++ drop (length d) room))
      (sym (length-take (length room) d))
    ∙ take-append (take (length room) d) (drop (length d) room)
    ∙ ap (λ n. take n d) size

map-append : (xs ys : List LvPacketHolder) → map view (xs ++ ys) ≡ map view xs ++ map view ys
map-append [] ys = refl
map-append (x ∷ xs) ys = ap (λ r. view x ∷ r) (map-append xs ys)

pushed :
    (s : List LvPacketHolder) (d : List ℕ)
    → map view (s ++ (fill d default_holder ∷ [])) ≡ map view s ++ (take mtu_size d ∷ [])
pushed s d =
    map-append s (fill d default_holder ∷ []) ∙ ap (λ x. map view s ++ (x ∷ [])) (view-fill d)

-- How a run ends: with what it has read handed over, and on an error with one more slot, in which
-- nothing has been received.
abbrev pub Delivers : List Reception → List LvPacketHolder → Type 0
Delivers rs s =
    (s' : List LvPacketHolder) × (map view s' ≡ map view s ++ map (take mtu_size) (read rs))
    × (((breaks rs ≡ false) × (socket_loop rs s ≡ done tt s'))
        ⊎ ((breaks rs ≡ true)
            × (socket_loop rs s ≡ failed socket_io (s' ++ (default_holder ∷ [])))))

round-Delivers :
    (has_slot : Bool) (got : Option (List ℕ)) (rs : List Reception) (s : List LvPacketHolder)
    → ((s : List LvPacketHolder) → Delivers rs s)
    → Delivers (record { has_slot = has_slot; received = got } ∷ rs) s
unfolding socket_loop socket_round
round-Delivers false got rs s rest = rest s
round-Delivers true none rs s rest = (s, sym (append-nil (map view s)), inr (refl, refl))
round-Delivers true (some d) rs s rest =
    let (s', views, ending) = rest (s ++ (fill d default_holder ∷ [])) in
    (
      s',
      views
          ∙ ap (λ x. x ++ map (take mtu_size) (read rs)) (pushed s d)
          ∙ append_assoc (map view s) (take mtu_size d ∷ []) (map (take mtu_size) (read rs)),
      ending,
    )

-- The decode thread reads from the slots the datagrams that the loop has read, in order and each
-- cut off at 1200 bytes. The loop goes on until the socket has an error in a round with a slot, and
-- ends then, and only then, with that error; the slot of that round is handed over too, empty.
pub socket_loop-Delivers : (rs : List Reception) (s : List LvPacketHolder) → Delivers rs s
unfolding socket_loop
socket_loop-Delivers [] s = (s, sym (append-nil (map view s)), inl (refl, refl))
socket_loop-Delivers (r ∷ rs) s =
    round-Delivers r.has_slot r.received rs s (socket_loop-Delivers rs)
