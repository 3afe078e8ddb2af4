-- ===== src/Discov/Session/Sending.antt =====
-- Where the packets of `Send` go, on Windows and elsewhere.
use pikonode.Prelude.{
  ℕ, ◌≡◌, ◌≢◌, refl, ap, Bool, true, false, List, [], ◌∷◌, map, All, ◌==◌, if◌then◌else◌, arith,
}
use pikonode.Prelude.Bits.{Bytes}
use pikonode.Discov.Interfaces.{NetInterface}
use pikonode.Discov.Session.{
  Act, Discovery, listen_packet, close, set_multicast_loopback, set_multicast_ttl, join_group,
  leave_group, set_multicast_interface, write_to, send_on, send,
}

module _ (sets : ℕ → Bool) where
  -- A call that sends goes out of the interface of its control message, or of the one that the
  -- socket is set to; `sets` says which interfaces a socket can be set to.
  unfoldable pub emitted : ℕ → List Act → List (ℕ × Bytes)
  emitted current [] = []
  emitted current (set_multicast_interface v ∷ acts) =
      if sets v.index then emitted v.index acts else emitted current acts
  emitted current (write_to msg i ∷ acts) =
      (if i == 0 then current else i, msg) ∷ emitted current acts
  emitted current (listen_packet ∷ acts) = emitted current acts
  emitted current (close ∷ acts) = emitted current acts
  emitted current (set_multicast_loopback on ∷ acts) = emitted current acts
  emitted current (set_multicast_ttl ttl ∷ acts) = emitted current acts
  emitted current (join_group v ∷ acts) = emitted current acts
  emitted current (leave_group v ∷ acts) = emitted current acts

  -- The socket can be set to the interface, whose index is not 0.
  abbrev pub IsSettable : NetInterface → Type 0
  IsSettable v = (v.index ≢ 0) × (sets v.index ≡ true)

  abbrev pub on_interface : Bytes → NetInterface → ℕ × Bytes
  on_interface msg v = (v.index, msg)

  send_on-emitted :
      (is_windows : Bool) (msg : Bytes) (ifs : List NetInterface) (current : ℕ)
      → All IsSettable ifs
      → emitted current (send_on is_windows msg ifs) ≡ map (on_interface msg) ifs
  unfolding emitted send_on
  send_on-emitted is_windows msg [] current ok = refl
  send_on-emitted true msg (v ∷ ifs) current ok = rw ok.0.1 (
      ap (λ (t : List (ℕ × Bytes)). (v.index, msg) ∷ t) (send_on-emitted true msg ifs v.index ok.1))
  send_on-emitted false msg (v ∷ ifs) current ok =
      let set : (v.index == 0) ≡ false = ground arith in
      rw set (
        ap (λ (t : List (ℕ × Bytes)). (v.index, msg) ∷ t)
          (send_on-emitted false msg ifs current ok.1))

  -- On Windows and elsewhere, Send sends the message once on every interface of the Discovery, in
  -- their order, whatever the interface that the socket is set to before, where no index is 0 and
  -- the socket can be set to each of the interfaces.
  pub send-emitted :
      (is_windows : Bool) (d : Discovery) (msg : Bytes) (current : ℕ)
      → All IsSettable d.ifs
      → emitted current (send is_windows d msg) ≡ map (on_interface msg) d.ifs
  unfolding send
  send-emitted is_windows d msg current ok = send_on-emitted is_windows msg d.ifs current ok
