-- ===== src/Sm/Udp/Stream.antt =====
-- src/sm/udp.c: the packets taken and the buffer together are the bytes sent, in order.
use remote_drone.Base.{
  ℕ, zero, suc, ◌+◌, ◌-◌, ◌≤◌, ◌<◌, Bool, true, false, List, [], ◌∷◌, ◌++◌, ◌≡◌, refl, arith,
  length, take, drop, take-append-drop, length-append, length-drop, length-take, All, All-snoc, ltb,
  ◌==◌, Bool-cases, inl, inr, append-nil, append_assoc, ◌∙◌, sym, ap, if◌then◌else◌,
}
use remote_drone.Sm.Params.{max_packet_size}
use remote_drone.Sm.Udp.{
  Socket, Outcome, done, error, fuel_out, ◌>>=◌, flush_buffer, send_loop, send_message,
}

abbrev pub concat : List (List ℕ) → List ℕ
concat [] = []
concat (p ∷ ps) = p ++ concat ps

pub concat-snoc : (ps : List (List ℕ)) (p : List ℕ) → concat (ps ++ p ∷ []) ≡ concat ps ++ p
concat-snoc [] p = append-nil p
concat-snoc (q ∷ ps) p = rw (concat-snoc ps p) (sym (append_assoc q (concat ps) p))

pub nil_of_length : (xs : List ℕ) → length xs ≡ 0 → xs ≡ []
nil_of_length [] e = refl
nil_of_length (x ∷ xs) e = absurd (omega arith)

-- All bytes that have gone into the socket: those in packets, then those in the buffer.
unfoldable pub stream : Socket → List ℕ
stream s = concat s.sent ++ s.buf

abbrev pub IsPacket : List ℕ → Type 0
IsPacket p = (0 < length p) × (length p ≤ max_packet_size)

-- The buffer fits its array, and each packet sent was not empty and fitted it too.
abbrev pub IsWithin : Socket → Type 0
IsWithin s = (length s.buf ≤ max_packet_size) × All IsPacket s.sent

-- The `sendto` calls from number `a` up to `b`, without `b`, were made, and the kernel took each.
abbrev pub AllTaken : (ℕ → Bool) → ℕ → ℕ → Type 0
AllTaken accepts a b = (a ≤ b) × ((k : ℕ) → a ≤ k → k < b → accepts k ≡ true)

-- Of the calls from number `a` up to `b` the kernel took all but the last, which it refused.
abbrev pub LastRefused : (ℕ → Bool) → ℕ → ℕ → Type 0
LastRefused accepts a b = (c : ℕ) × (b ≡ suc c) × AllTaken accepts a c × (accepts c ≡ false)

pub AllTaken-refl : (accepts : ℕ → Bool) (a : ℕ) → AllTaken accepts a a
AllTaken-refl accepts a = (omega arith, λ k le lt. absurd (omega arith))

pub AllTaken-trans :
    (accepts : ℕ → Bool) (a b c : ℕ)
    → AllTaken accepts a b
    → AllTaken accepts b c
    → AllTaken accepts a c
AllTaken-trans accepts a b c h k = (
  omega (arith, h.0, k.0),
  λ n le lt. elim (Bool-cases (ltb n b)) [
    | inl x ↦ h.1 n le (ground (arith, x))
    | inr x ↦ k.1 n (ground (arith, x)) lt
  ],
)

pub AllTaken-LastRefused :
    (accepts : ℕ → Bool) (a b c : ℕ)
    → AllTaken accepts a b
    → LastRefused accepts b c
    → LastRefused accepts a c
AllTaken-LastRefused accepts a b c h (last, e, taken, refused) =
    (last, e, AllTaken-trans accepts a b last h taken, refused)

-- A call that succeeds has added `bytes` to the stream, and the kernel took all its packets; a call
-- that fails made a last `sendto` that the kernel refused; and the buffer fits its array.
abbrev pub Appends : (ℕ → Bool) → List ℕ → Socket → Outcome → Type 0
Appends accepts bytes s (done s') =
    (stream s' ≡ stream s ++ bytes) × IsWithin s' × AllTaken accepts s.calls s'.calls
Appends accepts bytes s (error s') = IsWithin s' × LastRefused accepts s.calls s'.calls
Appends accepts bytes s fuel_out = ⊥

-- A flush keeps the stream and empties the buffer; a refused packet is dropped.
abbrev pub Flushes : (ℕ → Bool) → Socket → Outcome → Type 0
Flushes accepts s (done s') =
    (stream s' ≡ stream s)
    × (s'.buf ≡ [])
    × All IsPacket s'.sent
    × AllTaken accepts s.calls s'.calls
Flushes accepts s (error s') =
    (s'.buf ≡ []) × All IsPacket s'.sent × LastRefused accepts s.calls s'.calls
Flushes accepts s fuel_out = ⊥

stream_grow : (s : Socket) (xs : List ℕ) → stream (record s { buf = s.buf ++ xs }) ≡ stream s ++ xs
unfolding stream
stream_grow s xs = sym (append_assoc (concat s.sent) s.buf xs)

module _ (accepts : ℕ → Bool) where
  pub flush_buffer-Flushes : (s : Socket) → IsWithin s → Flushes accepts s (flush_buffer accepts s)
  unfolding flush_buffer
  flush_buffer-Flushes s h = elim (Bool-cases (length s.buf == 0)) [
    | inl z ↦ rw z (refl, nil_of_length s.buf (ground arith), h.1, AllTaken-refl accepts s.calls)
    | inr z ↦ elim (Bool-cases (accepts s.calls)) [
      | inl a ↦
          rw (z, a)
            (
              unfold stream in (append-nil _ ∙ concat-snoc s.sent s.buf),
              refl,
              All-snoc IsPacket s.sent s.buf h.1 (ground arith, h.0),
              (omega arith, λ k le lt. let same : k ≡ s.calls = omega arith in rw same a),
            )
      | inr a ↦ rw (z, a) (refl, h.1, (s.calls, omega arith, AllTaken-refl accepts s.calls, a))
    ]
  ]

  emptied : (s' : Socket) → s'.buf ≡ [] → length s'.buf ≤ max_packet_size
  emptied s' e = rw e (omega arith)

  -- The rounds behind a flush, when they append the bytes left.
  after_flush :
      (s t : Socket) (xs ys : List ℕ) (k : Socket → Outcome) (o : Outcome)
      → Flushes accepts t o
      → stream t ≡ stream s ++ xs
      → t.calls ≡ s.calls
      → ((s' : Socket) → s'.buf ≡ [] → All IsPacket s'.sent → Appends accepts ys s' (k s'))
      → Appends accepts (xs ++ ys) s (o >>= k)
  after_flush s t xs ys k (done s') f e c keep = extend (k s') (keep s' f.1 f.2)
    where
      taken : AllTaken accepts s.calls s'.calls
      taken = rw c at f.3

      extend : (r : Outcome) → Appends accepts ys s' r → Appends accepts (xs ++ ys) s r
      extend (done u) (same, within, more) = (
        same ∙ ap (λ (w : List ℕ). w ++ ys) (f.0 ∙ e) ∙ append_assoc (stream s) xs ys,
        within,
        AllTaken-trans accepts s.calls s'.calls u.calls taken more,
      )
      extend (error u) (within, refused) =
          (within, AllTaken-LastRefused accepts s.calls s'.calls u.calls taken refused)
      extend fuel_out h = h
  after_flush s t xs ys k (error s') f e c keep = ((emptied s' f.0, f.1), rw c at f.2)
  after_flush s t xs ys k fuel_out f e c keep = f

  send_loop-Appends :
      (fuel : ℕ) (bytes : List ℕ) (s : Socket)
      → IsWithin s
      → length bytes + (if length s.buf == max_packet_size then 1 else 0) < fuel
      → Appends accepts bytes s (send_loop accepts fuel bytes s)
  unfolding send_loop
  send_loop-Appends zero bytes s h lt = absurd (omega arith)
  send_loop-Appends (suc fuel) bytes s h lt =
      let room : ℕ = max_packet_size - length s.buf in
      let t : Socket = record s { buf = s.buf ++ take room bytes } in
      let room_left : length t.buf ≤ max_packet_size =
        ground (arith, h.0, length-append s.buf (take room bytes), length-take room bytes) in
      elim (Bool-cases (length bytes == 0)) [
        | inl z ↦ rw z (
            rw (nil_of_length bytes (ground arith))
              (sym (append-nil (stream s)), h, AllTaken-refl accepts s.calls))
        | inr z ↦ elim (Bool-cases (ltb max_packet_size (length s.buf + length bytes))) [
          | inl over ↦
              rw (z, over)
                (rw (take-append-drop room bytes) at (
                  after_flush s t (take room bytes) (drop room bytes) _ _
                    (flush_buffer-Flushes t (room_left, h.1)) (stream_grow s (take room bytes)) refl
                    (λ s' e hp.
                      send_loop-Appends fuel (drop room bytes) s' (emptied s' e, hp)
                        (rw e (ground (arith, length-drop room bytes))))))
          | inr fits ↦
              rw (z, fits)
                (
                  stream_grow s bytes,
                  (ground (arith, length-append s.buf bytes), h.1),
                  AllTaken-refl accepts s.calls,
                )
        ]
      ]

  -- `send_message` ends; when it returns 0 the bytes are in the stream behind all that was there, and
  -- the kernel took every packet; when it returns -1 the last packet it sent, and no other, was
  -- refused; and in any case the buffer stays within its array.
  pub send_message-Appends :
      (bytes : List ℕ) (s : Socket)
      → IsWithin s
      → Appends accepts bytes s (send_message accepts bytes s)
  unfolding send_message
  send_message-Appends bytes s h = send_loop-Appends (length bytes + 2) bytes s h (ground arith)
