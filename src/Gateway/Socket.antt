-- ===== src/Gateway/Socket.antt =====
-- The lock `wsLock` and the socket `ws`, between `Gateway` and any number of calls of `GatewaySend`.
use mathlib.Core.Logic.{ite}
use native.Mathlib.Decide.{ℕ_discrete}
use pikonode.Prelude.{ℕ, Bool, true, false, Option, none, some}
pub mod Lock
pub mod Guarded

-- Where `Gateway` stands, with its connection where it has one. A connection stands as a number.
pub data Phase : Type 0 where
  starting : Phase  -- before the first Lock
  dialing : Phase
  connected : (conn : ℕ) → Phase  -- before `a.ws = conn`
  unlocking : (conn : ℕ) → Phase  -- before Unlock
  reading : (conn : ℕ) → Phase  -- gwConnected and gwReadLoop
  relocking : (conn : ℕ) → Phase  -- before the Lock behind the read loop
  waiting : Phase  -- the notice of the end, and the select
  returned : Phase

-- Where a call of `GatewaySend` stands.
pub data Sender : Type 0 where
  absent : Sender  -- not called, or done
  locking : Sender  -- before Lock
  entered : Sender  -- before `a.ws` is read
  writing : (ws : Option ℕ) → Sender  -- in wsjson.Write, before the deferred Unlock

-- The mutex has no owner: it is locked or not.
pub record Socket : Type 0 where
  pub phase : Phase
  pub locked : Bool
  pub ws : Option ℕ
  pub calls : ℕ → Sender

-- One step of `Gateway`, from its phase, the lock and the socket to the next ones.
pub data GatewayStep : Phase → Bool → Option ℕ → Phase → Bool → Option ℕ → Type 0 where
  locks : {ws : Option ℕ} → GatewayStep starting false ws dialing true ws
  dial_fails : {l : Bool} {ws : Option ℕ} → GatewayStep dialing l ws waiting l ws
  dial_succeeds :
      {l : Bool} {ws : Option ℕ} (conn : ℕ) → GatewayStep dialing l ws (connected conn) l ws
  stores :
      {l : Bool} {ws : Option ℕ} {conn : ℕ}
      → GatewayStep (connected conn) l ws (unlocking conn) l (some conn)
  unlocks :
      {l : Bool} {ws : Option ℕ} {conn : ℕ}
      → GatewayStep (unlocking conn) l ws (reading conn) false ws
  read_ends :
      {l : Bool} {ws : Option ℕ} {conn : ℕ} → GatewayStep (reading conn) l ws (relocking conn) l ws
  relocks : {ws : Option ℕ} {conn : ℕ} → GatewayStep (relocking conn) false ws waiting true ws
  timer : {l : Bool} {ws : Option ℕ} → GatewayStep waiting l ws dialing l ws
  context_done : {l : Bool} {ws : Option ℕ} → GatewayStep waiting l ws returned l ws

-- One step of a call of `GatewaySend`, from where it stands and the lock to the next ones. The
-- deferred Unlock runs also where wsjson.Write gives an error or panics.
pub data SenderStep (ws : Option ℕ) : Sender → Bool → Sender → Bool → Type 0 where
  called : {l : Bool} → SenderStep ws absent l locking l
  gets_lock : SenderStep ws locking false entered true
  reads_ws : {l : Bool} → SenderStep ws entered l (writing ws) l
  ends : {l : Bool} {old : Option ℕ} → SenderStep ws (writing old) l absent false

abbrev pub set_call : (ℕ → Sender) → ℕ → Sender → ℕ → Sender
set_call calls i p j = ite (ℕ_discrete i j) p (calls j)

pub data Step (s : Socket) : Socket → Type 0 where
  gateway :
      {phase : Phase} {l : Bool} {ws : Option ℕ}
      → GatewayStep s.phase s.locked s.ws phase l ws
      → Step s (record { phase = phase; locked = l; ws = ws; calls = s.calls })
  sender :
      (i : ℕ) {p : Sender} {l : Bool}
      → SenderStep s.ws (s.calls i) s.locked p l
      → Step s (record { phase = s.phase; locked = l; ws = s.ws; calls = set_call s.calls i p })

-- Before `Gateway` and all calls.
abbrev pub started : Socket
started = record { phase = starting; locked = false; ws = none; calls = λ i. absent }

pub data Steps : Socket → Type 0 where
  start : Steps started
  next : {s s' : Socket} → Steps s → Step s s' → Steps s'
