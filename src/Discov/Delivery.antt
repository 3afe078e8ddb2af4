-- ===== src/Discov/Delivery.antt =====
-- What `Listen` hands to `Notify`: no panic on any packets, the messages of NewHello as they were
-- sent, and for a short Hello the bytes of an earlier one.
use pikonode.Prelude.{
  ℕ, ◌<◌, ◌≤◌, ◌≡◌, refl, ap, ◌∙◌, Bool, true, false, ◌||◌, inl, inr, some, List, [], ◌∷◌, ◌++◌,
  map, All, length, get_or, take, drop, min, replicate, ltb, ◌==◌, if◌then◌else◌, Outcome, returns,
  ◌>>=◌, arith, length-append, Returns, Returns->>=, Returns-mono, Bool-cases,
}
use pikonode.Prelude.Bits.{Bytes, same_bytes}
use pikonode.Discov.Msg.{
  Message, Slice, hello, hello_reply, piko, copy, key_size, new_hello, index, parse_payload, parse,
}
use pikonode.Discov.RoundTrip.{length-copy, reslice_within, fitted, parse-new_hello}
use pikonode.Discov.Listen.{UdpAddr, Packet, discov_size, notified, handle_read, listen}

parse_payload-Returns :
    (buf : Slice) (type : ℕ)
    → 51 ≤ length buf.array
    → Returns (λ m. m.type ≡ type) (parse_payload buf type)
unfolding parse_payload
parse_payload-Returns buf type h =
    rw (reslice_within buf 5 7 (omega arith), reslice_within buf 7 51 h) refl

-- Parse returns on every slice of five bytes and more whose capacity is that of a Hello.
pub parse-Returns :
    (buf : Slice) → 4 < buf.len → 51 ≤ length buf.array → Returns (λ m. Unit {0}) (parse buf)
unfolding parse index
parse-Returns buf long roomy =
    let read : ltb 4 buf.len ≡ true = ground arith in
    let type = get_or buf.array 4 0 in
    rw read (elim (Bool-cases (type == hello || type == hello_reply)) [
      | inl known ↦ rw known (
          Returns-mono _ _ (parse_payload buf type) (λ m e. tt)
            (parse_payload-Returns buf type roomy))
      | inr other ↦ rw other tt
    ])

module _ {W : Type 0} (notify : UdpAddr → Message → W → Outcome W) (P : W → Type 0) where
  handle_read-Returns :
      (addr : UdpAddr) (buf : Bytes) (n : ℕ) (w : W)
      → ((addr : UdpAddr) (m : Message) (w : W) → P w → Returns P (notify addr m w))
      → length buf ≡ discov_size
      → P w
      → Returns P (handle_read (some notify) addr buf n w)
  unfolding handle_read notified
  handle_read-Returns addr buf n w kept size ok = elim (Bool-cases (ltb n 5)) [
    | inl short ↦ rw short ok
    | inr long ↦ elim (Bool-cases (same_bytes (take 4 buf) piko)) [
      | inl ours ↦
          rw (long, ours)
            (Returns->>= (λ m. Unit {0}) P (parse (record { array = buf; len = n })) _
              (parse-Returns (record { array = buf; len = n }) (ground arith) (omega arith))
              (λ m u. kept addr m w ok))
      | inr other ↦ rw (long, other) ok
    ]
  ]

  -- Whatever the packets, on a buffer of 512 bytes Listen does not panic where Notify does not, and
  -- a property of the state that every call of Notify keeps holds at the end.
  pub listen-Returns :
      (packets : List Packet) (buf : Bytes) (w : W)
      → ((addr : UdpAddr) (m : Message) (w : W) → P w → Returns P (notify addr m w))
      → length buf ≡ discov_size
      → P w
      → Returns P (listen (some notify) packets buf w)
  unfolding listen
  listen-Returns [] buf w kept size ok = ok
  listen-Returns (p ∷ packets) buf w kept size ok =
      let filled : length (copy buf p.bytes) ≡ discov_size = length-copy buf p.bytes ∙ size in
      Returns->>= P P _ _ (handle_read-Returns p.from (copy buf p.bytes) _ w kept filled ok)
        (λ w' ok'. listen-Returns packets (copy buf p.bytes) w' kept filled ok')

-- A Hello that a peer sends from an address.
pub record Sent : Type 0 where
  pub from : UdpAddr
  pub port : ℕ
  pub key : Bytes
  pub reply : Bool

abbrev pub IsSent : Sent → Type 0
IsSent s = s.port < 65536

abbrev pub packet : Sent → Packet
packet s = record { from = s.from; bytes = new_hello s.port s.key s.reply }

-- What the receiver is to hear of it.
abbrev pub heard : Sent → Message
heard s = record {
  type = if s.reply then hello_reply else hello;
  port = s.port;
  key = fitted s.key;
}

copy-fits :
    (dst src : Bytes) → length src ≤ length dst → copy dst src ≡ src ++ drop (length src) dst
copy-fits [] [] h = refl
copy-fits [] (b ∷ src) h = absurd (omega arith)
copy-fits (d ∷ dst) [] h = refl
copy-fits (d ∷ dst) (b ∷ src) h = ap (λ (t : Bytes). b ∷ t) (copy-fits dst src (omega arith))

length-new_hello : (port : ℕ) (key : Bytes) (reply : Bool) → length (new_hello port key reply) ≡ 51
unfolding new_hello
length-new_hello port key reply = omega (arith, length-copy (replicate key_size 0) key)

copy-new_hello :
    (port : ℕ) (key : Bytes) (reply : Bool) (rest : Bytes)
    → copy (new_hello port key reply ++ rest) (piko ++ (hello ∷ []))
      ≡ new_hello port key false ++ rest
unfolding new_hello
copy-new_hello port key reply rest = refl

new_hello-piko :
    (port : ℕ) (key : Bytes) (reply : Bool) (rest : Bytes)
    → same_bytes (take 4 (new_hello port key reply ++ rest)) piko ≡ true
unfolding new_hello same_bytes
new_hello-piko port key reply rest = refl

module _ {W : Type 0} (notify : UdpAddr → Message → W → Outcome W) where
  -- The calls of Notify that the packets of some Hellos are to cause.
  unfoldable pub notify_all : List Sent → W → Outcome W
  notify_all [] w = returns w
  notify_all (s ∷ sents) w = do w' ← notify s.from (heard s) w; notify_all sents w'

  handle_read_hello :
      (s : Sent) (rest : Bytes) (n : ℕ) (w : W)
      → IsSent s
      → 4 < n
      → handle_read (some notify) s.from ((packet s).bytes ++ rest) n w ≡ notify s.from (heard s) w
  unfolding handle_read notified
  handle_read_hello s rest n w small more =
      let long : ltb n 5 ≡ false = ground arith in
      rw (long, new_hello-piko s.port s.key s.reply rest)
        (ap (λ o. o >>= (λ m. notify s.from m w))
          (parse-new_hello s.port s.key s.reply rest n small more))

  fits : (s : Sent) (buf : Bytes) → length buf ≡ discov_size → length (packet s).bytes ≤ length buf
  fits s buf size = omega (arith, length-new_hello s.port s.key s.reply)

  handle_read_sent :
      (s : Sent) (buf : Bytes) (w : W)
      → IsSent s
      → length buf ≡ discov_size
      → handle_read
          (some notify)
          s.from
          (copy buf (packet s).bytes)
          (min (length buf) (length (packet s).bytes))
          w
        ≡ notify s.from (heard s) w
  handle_read_sent s buf w small size =
      rw (copy-fits buf (packet s).bytes (fits s buf size))
        (handle_read_hello s _ _ w small (omega (arith, length-new_hello s.port s.key s.reply)))

  -- The Hellos that arrive are handed to Notify one by one, each with its sender, kind and port and
  -- its key cut or filled up to 44 bytes, whatever the buffer of 512 bytes held before and for any
  -- ports of 16 bits.
  pub listen-notify_all :
      (sents : List Sent) (buf : Bytes) (w : W)
      → All IsSent sents
      → length buf ≡ discov_size
      → listen (some notify) (map packet sents) buf w ≡ notify_all sents w
  unfolding listen notify_all
  listen-notify_all [] buf w small size = refl
  listen-notify_all (s ∷ sents) buf w small size =
      let filled = copy buf (packet s).bytes in
      ap (λ o. o >>= (λ w'. listen (some notify) (map packet sents) filled w'))
        (handle_read_sent s buf w small.0 size)
      ∙ ap (λ k. notify s.from (heard s) w >>= k)
          (λ i w'.
            listen-notify_all sents filled w' small.1 (length-copy buf (packet s).bytes ∙ size) i)

  -- A datagram of five bytes, the header and a kind, from another address behind the Hello of a
  -- peer is handed to Notify as a Hello from that address with the port and the key of the peer,
  -- for a port of 16 bits and a buffer of 512 bytes.
  pub listen_replays :
      (s : Sent) (other : UdpAddr) (buf : Bytes) (w : W)
      → IsSent s
      → length buf ≡ discov_size
      → listen
          (some notify)
          (packet s ∷ record { from = other; bytes = piko ++ (hello ∷ []) } ∷ [])
          buf
          w
        ≡ notify_all (s ∷ record s { from = other; reply = false } ∷ []) w
  unfolding listen notify_all
  listen_replays s other buf w small size =
      ap (λ o. o >>= (λ w'. listen (some notify) (second ∷ []) (copy buf (packet s).bytes) w'))
        (handle_read_sent s buf w small size)
      ∙ ap (λ k. notify s.from (heard s) w >>= k) (λ i w'. ap (λ o. o >>= returns) (again w') i)
    where
      second : Packet
      second = record { from = other; bytes = piko ++ (hello ∷ []) }

      again :
          (w' : W)
          → handle_read
              (some notify)
              other
              (copy (copy buf (packet s).bytes) second.bytes)
              (min (length (copy buf (packet s).bytes)) 5)
              w'
            ≡ notify other (heard (record s { from = other; reply = false })) w'
      again w' =
          let rest = drop (length (packet s).bytes) buf in
          rw
            (
              copy-fits buf (packet s).bytes (fits s buf size),
              copy-new_hello s.port s.key s.reply rest,
            )
            (handle_read_hello (record s { from = other; reply = false }) rest _ w' small
              (omega (
                arith,
                length-append (packet s).bytes rest,
                length-new_hello s.port s.key s.reply,
              )))
