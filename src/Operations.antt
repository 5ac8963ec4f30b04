-- ===== src/Operations.antt =====
-- The queue of chain operations, api/blockchain_queue.py, `BlockchainQueue`. A Redis stream is the list
-- of its messages, the oldest first; its trimming is a parameter. Whether an operation succeeds is an
-- argument. Left out: the times of messages, the texts of errors, the timeout of the lock, and the
-- loop's wait. A consent id is given: the client library takes no message with a missing value.
pub mod Draining
mod Tests
use Prim.Native.String.{String}
use consentchain.Prelude.{
  ℕ, ◌≡◌, ◌≤◌, Bool, true, false, Option, none, some, List, [], ◌∷◌, ◌++◌, length, keep, take,
  reverse, if◌then◌else◌, ◌==◌, string_eq,
}

-- A message of a stream.
pub record Operation : Type 0 where
  pub operation_id : String
  pub type : String
  pub params : String
  pub consent_id : String
  pub priority : ℕ
  pub status : String

-- `maxlen` of XADD, which trims approximately: Redis documents that it only evicts messages, and
-- never so many that fewer than the number are left.
pub record Trimming : Type 0 where
  pub trim : ℕ → List Operation → List Operation
  pub trim_few : (n : ℕ) (xs : List Operation) → length xs ≤ n → trim n xs ≡ xs
  pub trim_evicts :
      (p : Operation → Bool) (n : ℕ) (xs : List Operation)
      → keep p xs ≡ []
      → keep p (trim n xs) ≡ []

-- The stream, the stream of dead letters, and the operation that holds the lock.
pub record BlockchainQueue : Type 0 where
  pub operations : List Operation
  pub dead_letter : List Operation
  pub processing : Option String

abbrev pub new_queue : BlockchainQueue
new_queue = record { operations = []; dead_letter = []; processing = none }

module _ (T : Trimming) where
  unfoldable pub enqueue_operation :
      String → String → String → String → ℕ → BlockchainQueue → BlockchainQueue
  enqueue_operation id type params consent_id priority q = record q {
    operations = T.trim 10000 (
        q.operations
        ++ (record {
          operation_id = id;
          type = type;
          params = params;
          consent_id = consent_id;
          priority = priority;
          status = "queued";
        }
            ∷ []));
  }

  -- What is done with a message once the lock is held: it leaves the stream, and a failed one is put
  -- with the dead letters; the lock is released either way.
  unfoldable pub finish_operation : Bool → Operation → BlockchainQueue → BlockchainQueue
  finish_operation true op q = record q { processing = none }
  finish_operation false op q = record q {
    dead_letter = T.trim 1000 (q.dead_letter ++ (record op { status = "failed" } ∷ []));
    processing = none;
  }

  -- One turn of the loop of `start_processor`.
  unfoldable pub process_next : Bool → BlockchainQueue → BlockchainQueue
  process_next succeeds q = elim q.operations [
    | [] ↦ q
    | (op ∷ rest) ↦ elim q.processing [
      | some holder ↦ q
      | none ↦ finish_operation succeeds op (record q { operations = rest })
    ]
  ]

  -- The turns until `stop_processor`.
  unfoldable pub start_processor : List Bool → BlockchainQueue → BlockchainQueue
  start_processor [] q = q
  start_processor (succeeds ∷ turns) q = start_processor turns (process_next succeeds q)

unfoldable pub get_queue_length : BlockchainQueue → ℕ
get_queue_length q = length q.operations

unfoldable pub find_operation : String → List Operation → Option Operation
find_operation id [] = none
find_operation id (op ∷ ops) = if op.operation_id == id then some op else find_operation id ops

-- The status of an operation among the last hundred of the stream.
unfoldable pub get_operation_status : String → BlockchainQueue → Option String
get_operation_status id q = elim (find_operation id (take 100 (reverse q.operations))) [
  | none ↦ none
  | some op ↦ some op.status
]
