-- ===== src/Discov/Msg.antt =====
-- net/discov/msg.go: `NewHello` and `Parse`. A slice is its array up to the capacity, with a length:
-- an index is checked against the length, and a slice of a slice against the capacity.
use pikonode.Prelude.{
  ℕ, ◌-◌, Bool, ◌||◌, [], ◌∷◌, ◌++◌, length, get_or, take, drop, replicate, ltb, ◌==◌,
  if◌then◌else◌, Outcome, returns, panics, ◌>>=◌,
}
use pikonode.Prelude.Bits.{Bytes, be16, put16}

-- The message commands.
abbrev pub hello : ℕ
hello = 1

abbrev pub hello_reply : ℕ
hello_reply = 2

pub record Message : Type 0 where
  pub type : ℕ
  pub port : ℕ
  pub key : Bytes

-- "PIKO"
abbrev pub piko : Bytes
piko = 80 ∷ 73 ∷ 75 ∷ 79 ∷ []

-- Go's copy(dst, src): the bytes of `dst` afterwards.
abbrev pub copy : Bytes → Bytes → Bytes
copy [] src = []
copy (d ∷ dst) [] = d ∷ dst
copy (d ∷ dst) (b ∷ src) = b ∷ copy dst src

abbrev pub key_size : ℕ
key_size = 44

-- `NewHello`, the 51 bytes of the buffer part by part.
unfoldable pub new_hello : ℕ → Bytes → Bool → Bytes
new_hello port key reply =
    piko
    ++ ((if reply then hello_reply else hello) ∷ (put16 port ++ copy (replicate key_size 0) key))

pub record Slice : Type 0 where
  pub array : Bytes
  pub len : ℕ

-- buf[i]
unfoldable pub index : Slice → ℕ → Outcome ℕ
index buf i = if ltb i buf.len then returns (get_or buf.array i 0) else panics

-- buf[lo:hi], for lo ≤ hi.
unfoldable pub reslice : Slice → ℕ → ℕ → Outcome Bytes
reslice buf lo hi =
    if ltb (length buf.array) hi then panics else returns (take (hi - lo) (drop lo buf.array))

-- The case of `Parse` for both kinds of Hello.
unfoldable pub parse_payload : Slice → ℕ → Outcome Message
unfolding reslice
parse_payload buf type = do
  port ← reslice buf 5 7
  key ← reslice buf 7 51
  returns (record { type = type; port = be16 (get_or port 0 0) (get_or port 1 0); key = key })

-- `Parse`
unfoldable pub parse : Slice → Outcome Message
unfolding index parse_payload
parse buf = do
  type ← index buf 4
  if type == hello || type == hello_reply
      then parse_payload buf type
      else returns (record { type = type; port = 0; key = [] })
