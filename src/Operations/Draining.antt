-- ===== src/Operations/Draining.antt =====
-- What the processor makes of a queue.
use Prim.Native.String.{String}
use consentchain.Prelude.{
  ℕ, zero, suc, ◌+◌, ◌≡◌, ◌≤◌, inl, inr, refl, ap, subst, ◌∙◌, Bool, not, true, false, Option, none,
  some, List, [], ◌∷◌, ◌++◌, arith, length, length-append, append_nil, append_assoc, keep, take,
  reverse, onto, ◌==◌, ==_iff, string_eq, Bool-cases, Option-cases,
}
use consentchain.Operations.{
  Operation, Trimming, BlockchainQueue, new_queue, enqueue_operation, finish_operation,
  process_next, start_processor, find_operation, get_operation_status,
}

-- The operations that fail, in their order, as they are put with the dead letters.
abbrev pub failed_of : List Operation → List Bool → List Operation
failed_of [] outcomes = []
failed_of (op ∷ ops) [] = []
failed_of (op ∷ ops) (true ∷ outcomes) = failed_of ops outcomes
failed_of (op ∷ ops) (false ∷ outcomes) = record op { status = "failed" } ∷ failed_of ops outcomes

module _ (T : Trimming) where
  -- With the lock free and room among the dead letters, as many turns as there are operations empty
  -- the stream: each operation is tried once, in the order of the queue, and the dead letters are
  -- those from before and then those that failed, in order.
  pub queue_drains :
      (outcomes : List Bool) (ops dead : List Operation)
      → length outcomes ≡ length ops
      → length dead + length outcomes ≤ 1000
      → start_processor T outcomes
          (record { operations = ops; dead_letter = dead; processing = none })
        ≡ record {
          operations = [];
          dead_letter = dead ++ failed_of ops outcomes;
          processing = none;
        }
  unfolding start_processor process_next finish_operation
  queue_drains [] [] dead same room =
      ap (λ ds. record { operations = []; dead_letter = ds; processing = none }) (append_nil dead)
  queue_drains [] (op ∷ ops) dead same room = absurd (omega arith)
  queue_drains (o ∷ outcomes) [] dead same room = absurd (omega arith)
  queue_drains (true ∷ outcomes) (op ∷ ops) dead same room =
      queue_drains outcomes ops dead (omega arith) (omega arith)
  queue_drains (false ∷ outcomes) (op ∷ ops) dead same room =
      let dead' = dead ++ (record op { status = "failed" } ∷ []) in
      let kept : T.trim 1000 dead' ≡ dead' =
        T.trim_few 1000 dead'
          (omega (arith, length-append dead (record op { status = "failed" } ∷ []))) in
      ap
        (λ ds.
          start_processor T outcomes
            (record { operations = ops; dead_letter = ds; processing = none }))
        kept
      ∙ queue_drains outcomes ops dead' (omega arith)
          (omega (arith, length-append dead (record op { status = "failed" } ∷ [])))
      ∙ ap (λ ds. record { operations = []; dead_letter = ds; processing = none })
          (append_assoc dead _ _)

  pub data Reach : BlockchainQueue → Type 0 where
    created : Reach new_queue
    enqueues :
        {q : BlockchainQueue} (id type params : String) (consent_id : String) (priority : ℕ)
        → Reach q
        → Reach (enqueue_operation T id type params consent_id priority q)
    turns : {q : BlockchainQueue} (succeeds : Bool) → Reach q → Reach (process_next T succeeds q)
    locks :
        {q : BlockchainQueue} (holder : Option String)
        → Reach q
        → Reach (record q { processing = holder })

  -- Another status than the one that an operation is queued with.
  abbrev is_changed : Operation → Bool
  is_changed op = not (op.status == "queued")

  keep-onto :
      (p : Operation → Bool) (xs ys : List Operation)
      → keep p (onto xs ys) ≡ onto (keep p xs) (keep p ys)
  keep-onto p [] ys = refl
  keep-onto p (x ∷ xs) ys = elim (Bool-cases (p x)) [
    | inl e ↦ rw e (keep-onto p xs (x ∷ ys) ∙ rw e refl)
    | inr e ↦ rw e (keep-onto p xs (x ∷ ys) ∙ rw e refl)
  ]

  keep-append :
      (p : Operation → Bool) (xs ys : List Operation)
      → keep p xs ≡ []
      → keep p ys ≡ []
      → keep p (xs ++ ys) ≡ []
  keep-append p [] ys h h' = h'
  keep-append p (x ∷ xs) ys h h' = elim (Bool-cases (p x)) [
    | inl e ↦ absurd (ground arith)
    | inr e ↦ rw e (keep-append p xs ys (ground arith) h')
  ]

  keep-take :
      (p : Operation → Bool) (n : ℕ) (xs : List Operation)
      → keep p xs ≡ []
      → keep p (take n xs) ≡ []
  keep-take p zero xs h = refl
  keep-take p (suc n) [] h = refl
  keep-take p (suc n) (x ∷ xs) h = elim (Bool-cases (p x)) [
    | inl e ↦ absurd (ground arith)
    | inr e ↦ rw e (keep-take p n xs (ground arith))
  ]

  find_in :
      (p : Operation → Bool) (id : String) (xs : List Operation) {op : Operation}
      → keep p xs ≡ []
      → find_operation id xs ≡ some op
      → p op ≡ false
  unfolding find_operation
  find_in p id [] h found = absurd (ground arith)
  find_in p id (x ∷ xs) {op} h found = elim (Bool-cases (p x)) [
    | inl e ↦ absurd (ground arith)
    | inr e ↦ elim (Bool-cases (x.operation_id == id)) [
      | inl same ↦ let it : x ≡ op = ground arith in subst (λ z. p z ≡ false) it e
      | inr other ↦ find_in p id xs (ground arith) (ground arith)
    ]
  ]

  keep-tail :
      (p : Operation → Bool) (x : Operation) (xs : List Operation)
      → keep p (x ∷ xs) ≡ []
      → keep p xs ≡ []
  keep-tail p x xs h = elim (Bool-cases (p x)) [
    | inl e ↦ absurd (ground arith)
    | inr e ↦ ground arith
  ]

  turn_keeps :
      (p : Operation → Bool) (succeeds : Bool) (ops dead : List Operation) (holder : Option String)
      → keep p ops ≡ []
      → let q : BlockchainQueue = record {
        operations = ops;
        dead_letter = dead;
        processing = holder;
      } in
        keep p (process_next T succeeds q).operations ≡ []
  unfolding process_next finish_operation
  turn_keeps p succeeds [] dead holder h = h
  turn_keeps p succeeds (op ∷ ops) dead (some x) h = h
  turn_keeps p true (op ∷ ops) dead none h = keep-tail p op ops h
  turn_keeps p false (op ∷ ops) dead none h = keep-tail p op ops h

  Reach-queued : {q : BlockchainQueue} → Reach q → keep is_changed q.operations ≡ []
  unfolding enqueue_operation
  Reach-queued created = refl
  Reach-queued (enqueues {q = q} id type params c priority r) =
      T.trim_evicts is_changed 10000 _ (keep-append is_changed q.operations _ (Reach-queued r) refl)
  Reach-queued (turns {q = q} succeeds r) =
      turn_keeps is_changed succeeds q.operations q.dead_letter q.processing (Reach-queued r)
  Reach-queued (locks holder r) = Reach-queued r

  -- Whatever was queued and processed before, and whoever held the lock: the status of an operation, if
  -- one is found, is that it is queued. That an operation was completed or has failed is never
  -- answered.
  pub status_is_queued :
      (id status : String) {q : BlockchainQueue}
      → Reach q
      → get_operation_status id q ≡ some status
      → status ≡ "queued"
  unfolding get_operation_status
  status_is_queued id status {q = q} r answered =
      let recent = take 100 (reverse q.operations) in
      let all =
        keep-take is_changed 100 (reverse q.operations)
          (keep-onto is_changed q.operations [] ∙ ap (λ xs. onto xs []) (Reach-queued r)) in
      elim (Option-cases (find_operation id recent)) [
        | inl absent ↦ absurd (ground arith)
        | inr (op, found) ↦
            let same = find_in is_changed id recent all found in
            ground (arith, ==_iff op.status "queued")
      ]
