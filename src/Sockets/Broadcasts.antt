-- ===== src/Sockets/Broadcasts.antt =====
-- Who gets a message.
use Prim.Native.String.{String}
use consentchain.Prelude.{
  ℕ, ◌≡◌, refl, sym, ap, ◌∙◌, true, Bool, ◌||◌, ◌&&◌, [], ◌∷◌, ◌++◌, arith, Dict, ◌==◌, ==_iff,
  string_eq, nat_eq, is_in, some, Bool-cases, inl, inr,
}
use consentchain.Sockets.{
  Sockets, Manager, Message, Sent, of_key, send_to, broadcast_to_principal, broadcast_to_fiduciary,
  broadcast_consent_event, broadcast_to_admins, broadcast_all,
}
use consentchain.Sockets.Sessions.{Session, Reach, names, is_open, Reach-IsCurrent}

abbrev pub receivers : Sent → Sockets
receivers [] = []
receivers ((x, message) ∷ sent) = x ∷ receivers sent

receivers-append :
    (x : ℕ) (sent later : Sent)
    → is_in x (receivers (sent ++ later)) ≡ (is_in x (receivers sent) || is_in x (receivers later))
unfolding is_in
receivers-append x [] later = refl
receivers-append x ((y, message) ∷ sent) later =
    let ih = receivers-append x sent later in ground arith

receivers-send_to :
    (takes : ℕ → Bool) (message : Message) (x : ℕ) (s : Sockets)
    → is_in x (receivers (send_to takes message s)) ≡ (is_in x s && takes x)
unfolding is_in send_to
receivers-send_to takes message x [] = refl
receivers-send_to takes message x (y ∷ s) =
    let ih = receivers-send_to takes message x s in
    elim (Bool-cases (x == y)) [
      | inl e ↦ let same : takes y ≡ takes x = ap takes (sym ((==_iff x y).0 e)) in ground arith
      | inr e ↦ ground arith
    ]

or_and : (a b c : Bool) → (a && c || b && c) ≡ ((a || b) && c)
or_and a b c = ground arith

-- Whatever sessions began and ended before, in any order: the event of a consent goes to exactly the
-- sockets that take it and whose open session named its principal or its fiduciary; a message to the
-- administrators, to exactly those whose session said that it is an administrator's; a message to all, to
-- those of all open sessions.
pub reaches_sessions :
    (takes : ℕ → Bool) (type content p f : String) (message : Message) (x : ℕ)
    {live : Dict ℕ Session} {m : Manager}
    → Reach (live, m)
    → (is_in x (receivers (broadcast_consent_event takes type content p f m)) ≡ (
        (is_open (λ σ. names p σ.principal_id) x live
          || is_open (λ σ. names f σ.fiduciary_id) x live)
        && takes x))
      × (is_in x (receivers (broadcast_to_admins takes message m))
          ≡ (is_open (λ σ. σ.is_admin) x live && takes x))
      × (is_in x (receivers (broadcast_all takes message m))
          ≡ (is_open (λ σ. true) x live && takes x))
unfolding broadcast_consent_event broadcast_to_principal broadcast_to_fiduciary broadcast_to_admins
    broadcast_all
reaches_sessions takes type content p f message x {m = m} r =
    let v = Reach-IsCurrent r in
    let event : Message = record {
      type = type;
      content = content;
      principal_id = some p;
      fiduciary_id = some f;
    } in
    let mine = receivers-send_to takes event x (of_key p m.principal_connections) in
    let theirs = receivers-send_to takes event x (of_key f m.fiduciary_connections) in
    (
      receivers-append x (send_to takes event (of_key p m.principal_connections))
            (send_to takes event (of_key f m.fiduciary_connections))
          ∙ rw (mine, theirs, v.by_principal p x, v.by_fiduciary f x) (or_and _ _ (takes x)),
      receivers-send_to takes message x m.admin_connections ∙ rw (v.admins x) refl,
      receivers-send_to takes message x m.all_connections ∙ rw (v.all x) refl,
    )
