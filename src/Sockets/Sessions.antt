-- ===== src/Sockets/Sessions.antt =====
-- Which sockets the manager holds: those of the sessions that are open.
use Prim.Native.String.{String}
use consentchain.Prelude.{
  ℕ, ◌≡◌, refl, sym, ap, subst, ◌∙◌, true, false, Bool, ◌||◌, ◌&&◌, not, Option, none, some, [],
  ◌∷◌, ◌++◌, arith, if◌then◌else◌, Dict, lookup, insert, erase, lookup-insert, lookup-erase, ◌==◌,
  ==_iff, string_eq, nat_eq, is_in, truthy, Bool-cases, Option-cases, inl, inr,
}
use consentchain.Sockets.{
  Sockets, add, discard, Manager, new_manager, of_key, change_key, connect, disconnect,
}

-- What a client names itself as when it connects.
pub record Session : Type 0 where
  pub principal_id : Option String
  pub fiduciary_id : Option String
  pub is_admin : Bool

-- `listen`: a session begins with `connect`, and `disconnect` with the same arguments ends it, however
-- it ends.
pub data Step : Dict ℕ Session × Manager → Dict ℕ Session × Manager → Type 0 where
  opens :
      (socket : ℕ) (σ : Session) (live : Dict ℕ Session) (m : Manager)
      → lookup socket live ≡ none
      → Step
          (live, m)
          (insert socket σ live, connect socket σ.principal_id σ.fiduciary_id σ.is_admin m)
  closes :
      (socket : ℕ) (σ : Session) (live : Dict ℕ Session) (m : Manager)
      → lookup socket live ≡ some σ
      → Step
          (live, m)
          (erase socket live, disconnect socket σ.principal_id σ.fiduciary_id σ.is_admin m)

pub data Reach : Dict ℕ Session × Manager → Type 0 where
  started : Reach ([], new_manager)
  next : {s s' : Dict ℕ Session × Manager} → Reach s → Step s s' → Reach s'

abbrev pub names : String → Option String → Bool
names key given = elim (truthy given) [ none ↦ false | some k ↦ k == key ]

-- A socket is open with what a test asks of its session.
abbrev pub is_open : (Session → Bool) → ℕ → Dict ℕ Session → Bool
is_open test socket live = elim (lookup socket live) [ none ↦ false | some σ ↦ test σ ]

is_in-append : (x y : ℕ) (s : Sockets) → is_in x (s ++ (y ∷ [])) ≡ (is_in x s || x == y)
unfolding is_in
is_in-append x y [] = ground arith
is_in-append x y (z ∷ zs) = let ih = is_in-append x y zs in ground arith

is_in-add : (x y : ℕ) (s : Sockets) → is_in x (add y s) ≡ (is_in x s || x == y)
is_in-add x y s = elim (Bool-cases (x == y)) [
  | inl e ↦ elim (Bool-cases (is_in y s)) [
    | inl there ↦
        let same : is_in x s ≡ true = ap (λ z. is_in z s) ((==_iff x y).0 e) ∙ there in
        rw (there, same) refl
    | inr away ↦ rw away (is_in-append x y s)
  ]
  | inr e ↦ elim (Bool-cases (is_in y s)) [
    | inl there ↦ rw (there, e) (ground arith)
    | inr away ↦ rw away (is_in-append x y s)
  ]
]

is_in-discard : (x y : ℕ) (s : Sockets) → is_in x (discard y s) ≡ (is_in x s && not (x == y))
unfolding is_in
is_in-discard x y [] = refl
is_in-discard x y (z ∷ s) =
    let ih = is_in-discard x y s in ground (arith, ==_iff x y, ==_iff x z, ==_iff y z)

of_key-change_key :
    (f : Sockets → Sockets) (key : String) (given : Option String) (d : Dict String Sockets)
    → of_key key (change_key f given d)
      ≡ (if names key given then f (of_key key d) else of_key key d)
of_key-change_key f key given d = elim (Option-cases (truthy given)) [
  | inl e ↦ rw (change_key, names, e) refl
  | inr (k, e) ↦ elim (Bool-cases (k == key)) [
    | inl same ↦
        rw (change_key, names, e, same)
          (rw (of_key, lookup-insert key k (f (of_key k d)) d, same)
            (ap (λ z. f (of_key z d)) ((==_iff k key).0 same)))
    | inr other ↦
        rw (change_key, names, e, other)
          (rw (of_key, lookup-insert key k (f (of_key k d)) d, other) refl)
  ]
]

-- One of the sets, and the sessions that ask to be in it.
abbrev Holds : Sockets → (Session → Bool) → Dict ℕ Session → Type 0
Holds s test live = (x : ℕ) → is_in x s ≡ is_open test x live

is_open-insert :
    (test : Session → Bool) (x socket : ℕ) (σ : Session) (live : Dict ℕ Session)
    → is_open test x (insert socket σ live) ≡ (if socket == x then test σ else is_open test x live)
is_open-insert test x socket σ live = elim (Bool-cases (socket == x)) [
  | inl e ↦ rw (is_open, lookup-insert x socket σ live, e) refl
  | inr e ↦ rw (is_open, lookup-insert x socket σ live, e) refl
]

is_open-erase :
    (test : Session → Bool) (x socket : ℕ) (live : Dict ℕ Session)
    → is_open test x (erase socket live) ≡ (if socket == x then false else is_open test x live)
is_open-erase test x socket live = elim (Bool-cases (socket == x)) [
  | inl e ↦ rw (is_open, lookup-erase x socket live, e) refl
  | inr e ↦ rw (is_open, lookup-erase x socket live, e) refl
]

is_in-add_if :
    (b : Bool) (x y : ℕ) (s : Sockets)
    → is_in x (if b then add y s else s) ≡ (is_in x s || b && x == y)
is_in-add_if true x y s = is_in-add x y s
is_in-add_if false x y s = ground arith

is_in-discard_if :
    (b : Bool) (x y : ℕ) (s : Sockets)
    → is_in x (if b then discard y s else s) ≡ (is_in x s && not (b && x == y))
is_in-discard_if true x y s = is_in-discard x y s
is_in-discard_if false x y s = ground arith

opens-Holds :
    (socket : ℕ) (σ : Session) (s : Sockets) (test : Session → Bool) (live : Dict ℕ Session)
    → lookup socket live ≡ none
    → Holds s test live
    → Holds (if test σ then add socket s else s) test (insert socket σ live)
opens-Holds socket σ s test live unknown v x =
    let before : is_open test socket live ≡ false = rw (is_open, unknown) refl in
    is_in-add_if (test σ) x socket s ∙ elim (Bool-cases (socket == x)) [
      | inl e ↦
          let here : socket ≡ x = (==_iff socket x).0 e in
          let out : is_in x s ≡ false = v x ∙ ap (λ z. is_open test z live) (sym here) ∙ before in
          let own : (x == socket) ≡ true = (==_iff x socket).1 (sym here) in
          rw (is_open-insert test x socket σ live, e, out, own) (ground arith)
      | inr e ↦
          let other : (x == socket) ≡ false = ground (arith, ==_iff x socket, ==_iff socket x) in
          rw (is_open-insert test x socket σ live, e, other) (ground (arith, v x))
    ]

closes-Holds :
    (socket : ℕ) (σ : Session) (s : Sockets) (test : Session → Bool) (live : Dict ℕ Session)
    → lookup socket live ≡ some σ
    → Holds s test live
    → Holds (if test σ then discard socket s else s) test (erase socket live)
closes-Holds socket σ s test live known v x =
    let before : is_open test socket live ≡ test σ = rw (is_open, known) refl in
    is_in-discard_if (test σ) x socket s ∙ elim (Bool-cases (socket == x)) [
      | inl e ↦
          let here : socket ≡ x = (==_iff socket x).0 e in
          let out : is_in x s ≡ test σ = v x ∙ ap (λ z. is_open test z live) (sym here) ∙ before in
          let own : (x == socket) ≡ true = (==_iff x socket).1 (sym here) in
          rw (is_open-erase test x socket live, e, out, own) (ground arith)
      | inr e ↦
          let other : (x == socket) ≡ false = ground (arith, ==_iff x socket, ==_iff socket x) in
          rw (is_open-erase test x socket live, e, other) (ground (arith, v x))
    ]

-- The sets are those of the open sessions.
pub record IsCurrent (live : Dict ℕ Session) (m : Manager) : Type 0 where
  pub by_principal :
      (key : String)
      → Holds (of_key key m.principal_connections) (λ σ. names key σ.principal_id) live
  pub by_fiduciary :
      (key : String)
      → Holds (of_key key m.fiduciary_connections) (λ σ. names key σ.fiduciary_id) live
  pub admins : Holds m.admin_connections (λ σ. σ.is_admin) live
  pub all : Holds m.all_connections (λ σ. true) live

Step-IsCurrent :
    {live live' : Dict ℕ Session} {m m' : Manager}
    → Step (live, m) (live', m')
    → IsCurrent live m
    → IsCurrent live' m'
unfolding connect disconnect
Step-IsCurrent (opens x σ live m unknown) v = record {
  by_principal = λ key.
      subst (λ s. Holds s (λ τ. names key τ.principal_id) (insert x σ live))
        (sym (of_key-change_key (add x) key σ.principal_id m.principal_connections))
        (opens-Holds x σ _ (λ τ. names key τ.principal_id) live unknown (v.by_principal key));
  by_fiduciary = λ key.
      subst (λ s. Holds s (λ τ. names key τ.fiduciary_id) (insert x σ live))
        (sym (of_key-change_key (add x) key σ.fiduciary_id m.fiduciary_connections))
        (opens-Holds x σ _ (λ τ. names key τ.fiduciary_id) live unknown (v.by_fiduciary key));
  admins = opens-Holds x σ _ (λ τ. τ.is_admin) live unknown v.admins;
  all = opens-Holds x σ _ (λ τ. true) live unknown v.all;
}
Step-IsCurrent (closes x σ live m known) v = record {
  by_principal = λ key.
      subst (λ s. Holds s (λ τ. names key τ.principal_id) (erase x live))
        (sym (of_key-change_key (discard x) key σ.principal_id m.principal_connections))
        (closes-Holds x σ _ (λ τ. names key τ.principal_id) live known (v.by_principal key));
  by_fiduciary = λ key.
      subst (λ s. Holds s (λ τ. names key τ.fiduciary_id) (erase x live))
        (sym (of_key-change_key (discard x) key σ.fiduciary_id m.fiduciary_connections))
        (closes-Holds x σ _ (λ τ. names key τ.fiduciary_id) live known (v.by_fiduciary key));
  admins = closes-Holds x σ _ (λ τ. τ.is_admin) live known v.admins;
  all = closes-Holds x σ _ (λ τ. true) live known v.all;
}

pub Reach-IsCurrent : {live : Dict ℕ Session} {m : Manager} → Reach (live, m) → IsCurrent live m
unfolding lookup is_in
Reach-IsCurrent started = record {
  by_principal = λ key x. refl;
  by_fiduciary = λ key x. refl;
  admins = λ x. refl;
  all = λ x. refl;
}
Reach-IsCurrent (next r st) = Step-IsCurrent st (Reach-IsCurrent r)
