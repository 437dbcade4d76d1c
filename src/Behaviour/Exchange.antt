-- ===== src/Behaviour/Exchange.antt =====
-- The exchanges of a behaviour experiment: `Experiment` and `decode_observed` of
-- src/network_traversal/behaviour.rs. What the clock, the cancellation, the randomness and the socket
-- answer is an input of each observation, in the order in which the code asks for it. An address
-- that is not an IPv4 address is `none`.
use liskov_runtime_cargo.Prelude.{
  ℕ, suc, zero, ◌+◌, ◌-◌, min, Bool, false, not, ◌&&◌, ◌||◌, Option, none, some, List, [], ◌∷◌,
  ◌++◌, Bytes, bytes_eq, codes, any, take, drop, length, replicate, ◌==◌, leb, if◌then◌else◌,
  saturating_add, u64_max, from_be_bytes,
}
use liskov_runtime_cargo.Prelude.Result.{Result, ok, err, ◌>>=◌, ◌>>◌, refuse_if}
use liskov_runtime_cargo.Gateway.Control.{SocketAddr}
use liskov_runtime_cargo.Traversal.Lifecycle.{add16}

abbrev pub request_bytes : ℕ
request_bytes = 96

abbrev pub response_bytes : ℕ
response_bytes = 128

abbrev pub wait_ms : ℕ
wait_ms = 500

abbrev pub max_receives : ℕ
max_receives = 16

pub data BehaviourFailure : Type 0 where
  unsupported_topology not_started not_authorized challenge_timeout timeout invalid_response
        rebinding budget_exhausted deadline cancelled runtime_unavailable :
      BehaviourFailure

-- What the cancellation and the clock show.
pub record Instant : Type 0 where
  pub is_cancelled : Bool
  pub now_ms : ℕ

-- A send: the moment before it, what the socket says, and the moment after it.
pub record Sending : Type 0 where
  pub before : Instant
  pub result : Result BehaviourFailure (Unit {0})
  pub after : Instant

-- A receive: the moments and clock around it, and the packet that was read with its source.
pub record Receiving : Type 0 where
  pub before : Instant
  pub now_ms : ℕ
  pub received : Result BehaviourFailure (Bytes × Option SocketAddr)
  pub after : Instant

-- What an observation meets. The receives are numbered from the first.
pub record Observation : Type 0 where
  pub start : Instant
  pub transaction : Result BehaviourFailure Bytes
  pub asking : Sending
  pub challenge_ms : ℕ
  pub challenges : ℕ → Receiving
  pub proving : Sending
  pub response_ms : ℕ
  pub responses : ℕ → Receiving

-- The session and the end of an experiment do not change.
pub record Experiment : Type 0 where
  pub session : Bytes
  pub end_ms : ℕ
  pub remaining : ℕ
  pub sent : ℕ
  pub transactions : List Bytes

unfoldable pub check : Experiment → Instant → Result BehaviourFailure (Unit {0})
check x m = do
  refuse_if m.is_cancelled BehaviourFailure.cancelled
  refuse_if (leb x.end_ms m.now_ms) BehaviourFailure.deadline

unfoldable pub send : Experiment → Sending → Result BehaviourFailure (Unit {0}) × Experiment
send x s = elim (check x s.before) [
  | err failure ↦ (err failure, x)
  | ok started ↦ if x.remaining == 0 then (err BehaviourFailure.budget_exhausted, x) else (
    s.result >> check x s.after,
    record x { remaining = x.remaining - 1; sent = add16 x.sent 1 },
  )
]

-- The bytes from the first place to before the second.
abbrev pub slice : ℕ → ℕ → Bytes → Bytes
slice first last bytes = take (last - first) (drop first bytes)

abbrev pub zeros : ℕ → Bytes
zeros count = replicate count 0

abbrev from_source : SocketAddr → Option SocketAddr → Bool
from_source source none = false
from_source source (some a) = a.address == source.address && a.port == source.port

-- The fields of a request.
pub record Request : Type 0 where
  pub selector : ℕ
  pub session : Bytes
  pub transaction : Bytes
  pub challenge : Bytes

-- The packet answers the request.
unfoldable pub is_answer : Request → SocketAddr → ℕ → ℕ → ℕ → Bytes × Option SocketAddr → Bool
is_answer request source ingress outgoing kind (packet, actual) =
    length packet == (if kind == 1 then request_bytes else response_bytes)
    && from_source source actual
    && bytes_eq (slice 0 4 packet) (codes "LNT1")
    && bytes_eq (slice 4 8 packet) (kind ∷ request.selector ∷ ingress ∷ outgoing ∷ [])
    && bytes_eq (slice 8 40 packet) (request.session ++ request.transaction)
    && bytes_eq (slice 72 96 packet) (zeros 24)
    && (kind == 1
        || (bytes_eq (slice 40 72 packet) request.challenge
            && bytes_eq (slice 115 128 packet) (zeros 13)))
    && not (bytes_eq (slice 40 72 packet) (zeros 32))

-- The receives that are left, from the receive of the given number.
unfoldable pub receive_from :
    Experiment
    → Request
    → SocketAddr
    → ℕ
    → ℕ
    → ℕ
    → ℕ
    → (ℕ → Receiving)
    → ℕ
    → ℕ
    → Result BehaviourFailure Bytes
receive_from x request source ingress outgoing kind until receives number zero =
    err BehaviourFailure.invalid_response
receive_from x request source ingress outgoing kind until receives number (suc left) =
    let r = receives number in
    let rest =
      receive_from x request source ingress outgoing kind until receives (number + 1) left in
    do
      check x r.before
      refuse_if (until - r.now_ms == 0) BehaviourFailure.timeout
      check x r.after
      read ← r.received
      if is_answer request source ingress outgoing kind read then ok read.0 else rest

unfoldable pub receive :
    Experiment
    → Request
    → SocketAddr
    → ℕ
    → ℕ
    → ℕ
    → ℕ
    → (ℕ → Receiving)
    → Result BehaviourFailure Bytes
receive x request source ingress outgoing kind now_ms receives =
    receive_from x request source ingress outgoing kind
      (min (saturating_add u64_max now_ms wait_ms) x.end_ms) receives 0 max_receives

-- An IPv4 address that is unspecified, multicast or the broadcast address.
abbrev pub special_ipv4 : ℕ → Bool
special_ipv4 a = a == 0 || (leb 3_758_096_384 a && leb a 4_026_531_839) || a == 4_294_967_295

unfoldable pub decode_observed : Bytes → Result BehaviourFailure SocketAddr
decode_observed response =
    let address = from_be_bytes 0 (slice 97 101 response) in
    let port = from_be_bytes 0 (slice 113 115 response) in
    do
      refuse_if
          (not (bytes_eq (slice 96 97 response) (4 ∷ []))
            || not (bytes_eq (slice 101 113 response) (zeros 12)))
          BehaviourFailure.invalid_response
      refuse_if (special_ipv4 address || port == 0) BehaviourFailure.invalid_response
      ok (record { address = address; port = port })

-- The loss of a challenge is no evidence of filtering.
unfoldable pub of_challenge : Result BehaviourFailure Bytes → Result BehaviourFailure Bytes
of_challenge (ok packet) = ok packet
of_challenge (err BehaviourFailure.timeout) = err BehaviourFailure.challenge_timeout
of_challenge (err failure) = err failure

-- What follows the challenge.
unfoldable pub prove :
    Experiment
    → Observation
    → Request
    → SocketAddr
    → ℕ
    → Bytes
    → Result BehaviourFailure SocketAddr × Experiment
prove x o request source ingress packet =
    let proved = record request { challenge = slice 40 72 packet } in
    let (sent, y) = send x o.proving in
    let outgoing = if request.selector == 0 then ingress else request.selector in
    (
      do
        sent
        response ← receive y proved source ingress outgoing 3 o.response_ms o.responses
        decode_observed response,
      y,
    )

-- What follows a fresh transaction.
unfoldable pub ask :
    Experiment
    → Observation
    → Request
    → SocketAddr
    → SocketAddr
    → ℕ
    → Result BehaviourFailure SocketAddr × Experiment
ask x o request destination source ingress =
    let (sent, y) = send x o.asking in
    elim (sent
      >> of_challenge
          (receive y request destination ingress ingress 1 o.challenge_ms o.challenges)) [
            | err failure ↦ (err failure, y)
            | ok packet ↦ prove y o request source ingress packet
          ]

unfoldable pub observe :
    Experiment
    → Observation
    → SocketAddr
    → SocketAddr
    → ℕ
    → ℕ
    → Result BehaviourFailure SocketAddr × Experiment
observe x o destination source ingress selector = elim (check x o.start >> o.transaction) [
  | err failure ↦ (err failure, x)
  | ok tx ↦
      if bytes_eq tx (zeros 16) || any (bytes_eq tx) x.transactions
      then (err BehaviourFailure.invalid_response, x)
      else ask (record x { transactions = tx ∷ x.transactions }) o
          (record {
            selector = selector;
            session = x.session;
            transaction = tx;
            challenge = zeros 32;
          })
          destination source ingress
]
