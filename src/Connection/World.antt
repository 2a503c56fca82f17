-- ===== src/Connection/World.antt =====
-- Two processes over one memory, and sequences of their sends and reads on a connection.
use shmsock.Base.{
  ℕ, ◌≡◌, Bool, true, false, List, [], ◌∷◌, ◌++◌, Option, none, some, if◌then◌else◌, length,
}
use shmsock.Llist.{Ptr}
use shmsock.Machine.{Side, server, client, Memory, Process, State, External}
use shmsock.Machine.Cmd.{ok, fault, asleep, Cmd, pure, ◌>>=◌, ◌>>◌}
use shmsock.Connection.{send_connection, recv_connection}

pub record World : Type 0 where
  pub memory : Memory
  pub of_server : Process
  pub of_client : Process

abbrev pub process_of : Side → World → Process
process_of server w = w.of_server
process_of client w = w.of_client

-- What a call by one side starts from, and the world that it leaves.
abbrev pub view : Side → World → State
view side w = record { memory = w.memory; process = process_of side w }

abbrev pub leave : Side → State → World → World
leave server s w = record { memory = s.memory; of_server = s.process; of_client = w.of_client }
leave client s w = record { memory = s.memory; of_server = w.of_server; of_client = s.process }

-- A call by one side: `none` if it faults or sleeps for ever.
unfoldable pub in_world : {A : Type 0} → Side → Cmd A → World → Option (A × World)
in_world side call w = elim (call (view side w)) [
  | ok a s ↦ some (a, leave side s w)
  | fault ↦ none
  | asleep ↦ none
]

pub data Action : Type 0 where
  put : List ℕ → Action
  get : ℕ → Action

abbrev pub given : Action → List ℕ
given (put bytes) = bytes
given (get n) = []

module _ (ext : External) (p : Ptr) where
  -- The bytes that the call hands to its caller.
  unfoldable pub perform : Action → Cmd (List ℕ)
  perform (put bytes) = do send_connection ext p bytes (length bytes); pure []
  perform (get n) = do r ← recv_connection ext p n; pure r.1

  -- The log says who read what, in order.
  unfoldable pub traffic : List (Side × Action) → World → Option (World × List (Side × List ℕ))
  traffic [] w = some (w, [])
  traffic ((side, a) ∷ rest) w = elim (in_world side (perform a) w) [
    | none ↦ none
    | some (bytes, w') ↦ elim (traffic rest w') [
      | none ↦ none
      | some (w'', log) ↦ some (w'', (side, bytes) ∷ log)
    ]
  ]

abbrev pub same : Side → Side → Bool
same server server = true
same client client = true
same server client = false
same client server = false

-- What one side has read, and what it has sent.
abbrev pub read_by : Side → List (Side × List ℕ) → List ℕ
read_by k [] = []
read_by k ((side, bytes) ∷ log) = (if same k side then bytes else []) ++ read_by k log

abbrev pub sent_by : Side → List (Side × Action) → List ℕ
sent_by k [] = []
sent_by k ((side, a) ∷ rest) = (if same k side then given a else []) ++ sent_by k rest

-- The two processes are a server and a client.
pub record Sided (w : World) : Type 0 where
  pub is_server : w.of_server.side ≡ server
  pub is_client : w.of_client.side ≡ client

pub Sided-side : {w : World} (side : Side) → Sided w → (process_of side w).side ≡ side
Sided-side server h = h.is_server
Sided-side client h = h.is_client

pub leave-Sided :
    {w : World} (side : Side) (s : State) → Sided w → s.process.side ≡ side → Sided (leave side s w)
leave-Sided server s h e = record { is_server = e; is_client = h.is_client }
leave-Sided client s h e = record { is_server = h.is_server; is_client = e }
