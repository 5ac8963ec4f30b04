-- ===== src/Operations/Tests.antt =====
-- Two operations, of which the first fails.
use Prim.Native.String.{String}
use consentchain.Prelude.{◌≡◌, refl, true, false, none, some, List, [], ◌∷◌, ◌++◌, arith, string_eq}
use consentchain.Operations.{
  Operation, Trimming, BlockchainQueue, new_queue, enqueue_operation, start_processor,
  find_operation, get_operation_status,
}
use consentchain.Operations.Draining.{failed_of, queue_drains}

-- A stream that is never trimmed.
abbrev untrimmed : Trimming
untrimmed = record { trim = λ n xs. xs; trim_few = λ n xs h. refl; trim_evicts = λ p n xs h. h }

abbrev operation : String → Operation
operation id = record {
  operation_id = id;
  type = "register_consent";
  params = "{}";
  consent_id = "c1";
  priority = 0;
  status = "queued";
}

abbrev two : List Operation
two = operation "o1" ∷ operation "o2" ∷ []

queue_drains_example :
    start_processor untrimmed
      (false ∷ true ∷ [])
      (record { operations = two; dead_letter = []; processing = none })
    ≡ record {
      operations = [];
      dead_letter = [] ++ failed_of two (false ∷ true ∷ []);
      processing = none;
    }
queue_drains_example = queue_drains untrimmed (false ∷ true ∷ []) two [] refl (omega arith)

abbrev queued : BlockchainQueue
queued = enqueue_operation untrimmed "o1" "register_consent" "{}" "c1" 0 new_queue

queued_there : get_operation_status "o1" queued ≡ some "queued"
unfolding get_operation_status find_operation enqueue_operation
queued_there = refl
