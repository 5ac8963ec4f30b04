-- ===== src/Registry/Tests.antt =====
-- The registry at concrete states, with the boxes in a dictionary.
use consentchain.Prelude.{
  ℕ, ◌≡◌, refl, false, some, List, [], ◌∷◌, arith, err, dict_boxes, lookup, insert, nat_eq,
}
use consentchain.Registry.{
  Registry, Box, Txn, Call, register, revoke, modify, expire, init, run, step, register_consent,
  revoke_consent, modify_consent, expire_consent, verify_consent, not_active,
}
use consentchain.Registry.Counters.{IsCounted, run-init-IsCounted}
use consentchain.Registry.Rights.{AllForeign, others_change_nothing}
use consentchain.Registry.Lifecycle.{revoked_is_final, modified_is_stranded}

abbrev at : ℕ → ℕ → Txn
at who round = record { sender = who; round = round }

-- Principal 5 registers consent 70 without expiry, principal 6 consent 71 until round 40.
abbrev history : List (Txn × Call)
history =
    (at 5 10, register 70 5 8 (97 ∷ 98 ∷ []) 3 0)
    ∷ (at 6 11, register 71 6 8 (97 ∷ []) 3 40)
    ∷ (at 5 12, revoke 71)
    ∷ []

abbrev granted_70 : Box
granted_70 = record {
  contents = record {
    principal_address = 5;
    fiduciary_address = 8;
    purpose = 97 ∷ 98 ∷ [];
    data_types_hash = 3;
    status = 1;
    granted_at = 10;
    expires_at = 0;
    revoked_at = 0;
  };
  size = 134;
}

abbrev granted_71 : Box
granted_71 = record {
  contents = record {
    principal_address = 6;
    fiduciary_address = 8;
    purpose = 97 ∷ [];
    data_types_hash = 3;
    status = 1;
    granted_at = 11;
    expires_at = 40;
    revoked_at = 0;
  };
  size = 133;
}

abbrev live : Registry (List (ℕ × Box))
live = record {
  total_consents = 2;
  active_consents = 2;
  revoked_consents = 0;
  admin_address = 1;
  boxes = (70, granted_70) ∷ (71, granted_71) ∷ [];
}

history_runs : run (dict_boxes Box) (init (dict_boxes Box) 1) history ≡ live
unfolding run init step register_consent revoke_consent lookup insert
history_runs = refl

run-init-IsCounted_example :
    IsCounted (dict_boxes Box) (run (dict_boxes Box) (init (dict_boxes Box) 1) history)
run-init-IsCounted_example = run-init-IsCounted (dict_boxes Box) 1 history

-- Another account tries to revoke and to modify it, and registers and expires a second consent.
abbrev attempts : List (Txn × Call)
attempts =
    (at 6 20, revoke 70)
    ∷ (at 6 21, modify 70 [] 9)
    ∷ (at 6 22, register 72 6 8 (97 ∷ []) 3 0)
    ∷ (at 9 50, expire 71)
    ∷ []

foreign : AllForeign 70 5 attempts
foreign = (
  (λ same other. omega arith),
  ((λ same other. omega arith), ((λ same. omega arith), ((λ same. omega arith), tt))),
)

others_change_nothing_example :
    let B = dict_boxes Box in
    (lookup 70 (run B live attempts).boxes ≡ some granted_70)
    × ((t : Txn) → verify_consent B t 70 (run B live attempts) ≡ verify_consent B t 70 live)
unfolding lookup
others_change_nothing_example =
    others_change_nothing (dict_boxes Box) live 70 attempts {b = granted_70} refl foreign

abbrev revoked_71 : Box
revoked_71 = record granted_71 {
  contents = record (granted_71.contents) { status = 2; revoked_at = 12 };
}

abbrev ended : Registry (List (ℕ × Box))
ended = record live { boxes = (71, revoked_71) ∷ [] }

revoked_is_final_example :
    let B = dict_boxes Box in
    let r = run B ended ((at 6 20, modify 71 [] 99) ∷ (at 9 21, expire 71) ∷ []) in
    (lookup 71 r.boxes ≡ some revoked_71) × ((t : Txn) → verify_consent B t 71 r ≡ false)
unfolding lookup
revoked_is_final_example =
    revoked_is_final (dict_boxes Box) ended 71
      ((at 6 20, modify 71 [] 99) ∷ (at 9 21, expire 71) ∷ []) {b = revoked_71} refl refl tt

modified_70 : Registry (List (ℕ × Box))
modified_70 = record live {
  boxes =
      (
        70,
        record granted_70 {
          contents = record (granted_70.contents) { status = 4; expires_at = 9 };
        },
      )
      ∷ (71, granted_71)
      ∷ [];
}

modified_is_stranded_example :
    ((t : Txn) → verify_consent (dict_boxes Box) t 70 modified_70 ≡ false)
    × (revoke_consent (dict_boxes Box) (at 5 20) 70 modified_70 ≡ err not_active)
    × ((t : Txn) → expire_consent (dict_boxes Box) t 70 modified_70 ≡ err not_active)
    × (modified_70.active_consents ≡ 2)
unfolding lookup insert modify_consent modified_70
modified_is_stranded_example =
    modified_is_stranded (dict_boxes Box) live modified_70 (at 5 20) 70 [] 9 refl
