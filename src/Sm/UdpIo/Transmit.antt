-- ===== src/Sm/UdpIo/Transmit.antt =====
-- `transmit` of src/sm/udp_io.c sends the frame of its message.
use remote_drone.Base.{
  ℕ, All, Bool, true, false, ◌||◌, List, [], ◌∷◌, ◌++◌, ◌≡◌, take, ◌==◌, if◌then◌else◌, append-nil,
  append_assoc, ◌∙◌, ap, Bool-cases, inl, inr,
}
use remote_drone.Sm.Udp.{Socket, Outcome, done, error, fuel_out, ◌>>=◌, flush_buffer}
use remote_drone.Sm.Udp.Stream.{
  AllTaken, LastRefused, AllTaken-trans, AllTaken-LastRefused, stream, IsPacket, IsWithin, Appends,
  Flushes, send_message-Appends, flush_buffer-Flushes,
}
use remote_drone.Sm.UdpIo.{flag, esc, write_out, transmit_loop, transmit}
use remote_drone.Sm.UdpIo.Framing.{stuff}

-- Behind a call that succeeds, all packets that the kernel took are the stream with `bytes` added, the
-- packet buffer is empty, and none of its packets was refused; one that fails made a last `sendto`
-- that the kernel refused, and no other.
abbrev pub Delivers : (ℕ → Bool) → List ℕ → Socket → Outcome → Type 0
Delivers accepts bytes s (done s') =
    (stream s' ≡ stream s ++ bytes)
    × (s'.buf ≡ [])
    × All IsPacket s'.sent
    × AllTaken accepts s.calls s'.calls
Delivers accepts bytes s (error s') = LastRefused accepts s.calls s'.calls
Delivers accepts bytes s fuel_out = ⊥

-- The bytes that `transmit` sends, with the FLAG where the message ends here.
abbrev pub framed : List ℕ → Bool → List ℕ
framed message true = stuff message ++ flag ∷ []
framed message false = stuff message

module _ (accepts : ℕ → Bool) where
  -- Two calls, the second if the first succeeds, append one behind the other.
  Appends-bind :
      (s : Socket) (xs ys : List ℕ) (o : Outcome) (k : Socket → Outcome)
      → Appends accepts xs s o
      → ((s' : Socket) → IsWithin s' → Appends accepts ys s' (k s'))
      → Appends accepts (xs ++ ys) s (o >>= k)
  Appends-bind s xs ys (done s') k a keep = extend (k s') (keep s' a.1)
    where
      extend : (r : Outcome) → Appends accepts ys s' r → Appends accepts (xs ++ ys) s r
      extend (done u) (same, within, more) = (
        same ∙ ap (λ (w : List ℕ). w ++ ys) a.0 ∙ append_assoc (stream s) xs ys,
        within,
        AllTaken-trans accepts s.calls s'.calls u.calls a.2 more,
      )
      extend (error u) (within, refused) =
          (within, AllTaken-LastRefused accepts s.calls s'.calls u.calls a.2 refused)
      extend fuel_out h = h
  Appends-bind s xs ys (error s') k a keep = a
  Appends-bind s xs ys fuel_out k a keep = a

  transmit_loop-Appends :
      (segment bs : List ℕ) (s : Socket)
      → IsWithin s
      → Appends accepts (segment ++ stuff bs) s (transmit_loop accepts segment bs s)
  unfolding transmit_loop stuff write_out
  transmit_loop-Appends segment [] s h =
      rw (append-nil segment) (send_message-Appends accepts segment s h)
  transmit_loop-Appends segment (b ∷ bs) s h = elim (Bool-cases (b == flag || b == esc)) [
    | inl special ↦ rw special (
        rw (append_assoc segment (esc ∷ []) (b ∷ stuff bs)) at (
          Appends-bind s (segment ++ esc ∷ []) (b ∷ stuff bs) _ _
            (Appends-bind s segment (esc ∷ []) _ _ (send_message-Appends accepts segment s h)
              (send_message-Appends accepts (esc ∷ [])))
            (transmit_loop-Appends (b ∷ []) bs)))
    | inr plain ↦ rw plain (
        rw (append_assoc segment (b ∷ []) (stuff bs)) at
          (transmit_loop-Appends (segment ++ b ∷ []) bs s h))
  ]

  -- A flush behind calls that append.
  Flushes-bind :
      (s : Socket) (xs : List ℕ) (o : Outcome)
      → Appends accepts xs s o
      → Delivers accepts xs s (o >>= flush_buffer accepts)
  Flushes-bind s xs (done s') a =
      flushed (flush_buffer accepts s') (flush_buffer-Flushes accepts s' a.1)
    where
      flushed : (r : Outcome) → Flushes accepts s' r → Delivers accepts xs s r
      flushed (done u) f =
          (f.0 ∙ a.0, f.1, f.2, AllTaken-trans accepts s.calls s'.calls u.calls a.2 f.3)
      flushed (error u) f = AllTaken-LastRefused accepts s.calls s'.calls u.calls a.2 f.2
      flushed fuel_out f = f
  Flushes-bind s xs (error s') a = a.1
  Flushes-bind s xs fuel_out a = a

  close :
      (s : Socket) (xs : List ℕ) (o : Outcome) (end_of_message : Bool)
      → Appends accepts (stuff xs) s o
      → Appends accepts
          (framed xs end_of_message)
          s
          (o >>= λ s'. if end_of_message then write_out accepts (flag ∷ []) s' else done s')
  unfolding write_out
  close s xs o true a =
      Appends-bind s (stuff xs) (flag ∷ []) o _ a (send_message-Appends accepts (flag ∷ []))
  close s xs (done s') false a = a
  close s xs (error s') false a = a
  close s xs fuel_out false a = a

  pub transmit_lem :
      (buffer : List ℕ) (nb_bytes : ℕ) (end_of_message : Bool) (s : Socket)
      → IsWithin s
      → Delivers accepts
          (framed (take nb_bytes buffer) end_of_message)
          s
          (transmit accepts buffer nb_bytes end_of_message s)
  unfolding transmit
  transmit_lem buffer nb_bytes end_of_message s h = Flushes-bind s _ _ (
      close s (take nb_bytes buffer) _ end_of_message
        (transmit_loop-Appends [] (take nb_bytes buffer) s h))
