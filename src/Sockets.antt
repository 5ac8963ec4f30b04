-- ===== src/Sockets.antt =====
-- The connections of api/websocket/__init__.py, `ConnectionManager` and `WebSocketHandler.listen`. A
-- socket is a number; a set is the list of its elements, each once; `defaultdict` makes an empty set
-- for a key that is looked up with brackets. Whether a socket takes a text is an argument: a
-- broadcast goes on after one that does not.
pub mod Sessions
pub mod Broadcasts
mod Tests
use Prim.Native.String.{String}
use consentchain.Prelude.{
  ℕ, Bool, true, false, Option, none, some, List, [], ◌∷◌, ◌++◌, length, keep, if◌then◌else◌, Dict,
  lookup, insert, ◌==◌, string_eq, nat_eq, is_in, truthy, not,
}

abbrev pub Sockets : Type 0
Sockets = List ℕ

-- `s.add(x)` and `s.discard(x)`
abbrev pub add : ℕ → Sockets → Sockets
add x s = if is_in x s then s else s ++ (x ∷ [])

abbrev pub discard : ℕ → Sockets → Sockets
discard x s = keep (λ y. not (x == y)) s

pub record Manager : Type 0 where
  pub principal_connections : Dict String Sockets
  pub fiduciary_connections : Dict String Sockets
  pub admin_connections : Sockets
  pub all_connections : Sockets

abbrev pub new_manager : Manager
new_manager = record {
  principal_connections = [];
  fiduciary_connections = [];
  admin_connections = [];
  all_connections = [];
}

-- `d.get(key, set())`
abbrev pub of_key : String → Dict String Sockets → Sockets
of_key key d = elim (lookup key d) [ none ↦ [] | some s ↦ s ]

-- `if key: d[key].add(socket)`, and the same with `discard`.
abbrev pub change_key :
    (Sockets → Sockets) → Option String → Dict String Sockets → Dict String Sockets
change_key f given d = elim (truthy given) [ none ↦ d | some key ↦ insert key (f (of_key key d)) d ]

unfoldable pub connect : ℕ → Option String → Option String → Bool → Manager → Manager
connect socket principal_id fiduciary_id is_admin m = record {
  principal_connections = change_key (add socket) principal_id m.principal_connections;
  fiduciary_connections = change_key (add socket) fiduciary_id m.fiduciary_connections;
  admin_connections = if is_admin then add socket m.admin_connections else m.admin_connections;
  all_connections = add socket m.all_connections;
}

unfoldable pub disconnect : ℕ → Option String → Option String → Bool → Manager → Manager
disconnect socket principal_id fiduciary_id is_admin m = record {
  principal_connections = change_key (discard socket) principal_id m.principal_connections;
  fiduciary_connections = change_key (discard socket) fiduciary_id m.fiduciary_connections;
  admin_connections = if is_admin then discard socket m.admin_connections else m.admin_connections;
  all_connections = discard socket m.all_connections;
}

-- `WSMessage`, with the text of its type, and of its data as `json.dumps` makes it.
pub record Message : Type 0 where
  pub type : String
  pub content : String
  pub principal_id : Option String
  pub fiduciary_id : Option String

-- The sends that succeed, in their order.
abbrev pub Sent : Type 0
Sent = List (ℕ × Message)

unfoldable pub send_to : (ℕ → Bool) → Message → Sockets → Sent
send_to takes message [] = []
send_to takes message (x ∷ xs) =
    let rest = send_to takes message xs in if takes x then (x, message) ∷ rest else rest

unfoldable pub broadcast_to_principal : (ℕ → Bool) → String → Message → Manager → Sent
broadcast_to_principal takes principal_id message m =
    send_to takes (record message { principal_id = some principal_id })
      (of_key principal_id m.principal_connections)

unfoldable pub broadcast_to_fiduciary : (ℕ → Bool) → String → Message → Manager → Sent
broadcast_to_fiduciary takes fiduciary_id message m =
    send_to takes (record message { fiduciary_id = some fiduciary_id })
      (of_key fiduciary_id m.fiduciary_connections)

unfoldable pub broadcast_to_admins : (ℕ → Bool) → Message → Manager → Sent
broadcast_to_admins takes message m = send_to takes message m.admin_connections

unfoldable pub broadcast_all : (ℕ → Bool) → Message → Manager → Sent
broadcast_all takes message m = send_to takes message m.all_connections

-- Both identifiers stand in the message from the start.
unfoldable pub broadcast_consent_event :
    (ℕ → Bool) → String → String → String → String → Manager → Sent
broadcast_consent_event takes type content principal_id fiduciary_id m =
    let message : Message = record {
      type = type;
      content = content;
      principal_id = some principal_id;
      fiduciary_id = some fiduciary_id;
    } in
    broadcast_to_principal takes principal_id message m
    ++ broadcast_to_fiduciary takes fiduciary_id message m

-- The loop over the principals: the message is one object, and has the last principal when it ends.
unfoldable pub notify_each : (ℕ → Bool) → Message → List String → Manager → Sent
notify_each takes message [] m = []
notify_each takes message (p ∷ ps) m =
    broadcast_to_principal takes p message m
    ++ notify_each takes (record message { principal_id = some p }) ps m

unfoldable pub notify_breach : (ℕ → Bool) → String → String → List String → Manager → Sent
notify_breach takes content fiduciary_id affected_principals m =
    let message : Message = record {
      type = "breach_notification";
      content = content;
      principal_id = none;
      fiduciary_id = some fiduciary_id;
    } in
    broadcast_to_fiduciary takes fiduciary_id message m
    ++ notify_each takes message affected_principals m

pub record ConnectionCount : Type 0 where
  pub total : ℕ
  pub principals : ℕ
  pub fiduciaries : ℕ
  pub admins : ℕ

unfoldable pub get_connection_count : Manager → ConnectionCount
get_connection_count m = record {
  total = length m.all_connections;
  principals = length m.principal_connections;
  fiduciaries = length m.fiduciary_connections;
  admins = length m.admin_connections;
}
