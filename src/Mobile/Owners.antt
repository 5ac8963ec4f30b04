-- ===== src/Mobile/Owners.antt =====
-- Whose device a device is.
use Prim.Native.String.{String}
use consentchain.Prelude.{
  ◌≡◌, ap, ◌∙◌, ◌≢◌, refl, true, false, ◌||◌, none, some, List, [], ◌∷◌, ◌++◌, arith, if◌then◌else◌,
  Dict, lookup, lookup-insert, lookup-insert_self, lookup-erase_self, contains, ◌==◌, ==_iff,
  ==-self, string_eq, Bool-cases, Option-cases, inl, inr, is_in, remove_first,
}
use consentchain.Mobile.{
  MobileDevice, Support, new_support, ids_of, register_device, remove_everywhere, unregister_device,
  update_push_token,
}

-- No identifier is in the list twice.
abbrev pub IsDistinct : List String → Type 0
IsDistinct [] = Unit {0}
IsDistinct (x ∷ xs) = (is_in x xs ≡ false) × IsDistinct xs

pub data Step : Support → Support → Type 0 where
  registers :
      (user_id : String) (d : MobileDevice) (s : Support) → Step s (register_device user_id d s)
  unregisters : (device_id : String) (s : Support) → Step s (unregister_device device_id s).0
  updates :
      (device_id token : String) (s : Support) → Step s (update_push_token device_id token s).0

pub data Reach : Support → Type 0 where
  created : Reach new_support
  next : {s s' : Support} → Reach s → Step s s' → Reach s'

AllDistinct : Support → Type 0
AllDistinct s = (user_id : String) → IsDistinct (ids_of user_id s)

is_in-append : (x y : String) (xs : List String) → is_in x (xs ++ (y ∷ [])) ≡ (is_in x xs || x == y)
unfolding is_in
is_in-append x y [] = ground arith
is_in-append x y (z ∷ zs) = let ih = is_in-append x y zs in ground arith

append-IsDistinct :
    (x : String) (xs : List String)
    → is_in x xs ≡ false
    → IsDistinct xs
    → IsDistinct (xs ++ (x ∷ []))
unfolding is_in
append-IsDistinct x [] a d = (refl, tt)
append-IsDistinct x (y ∷ ys) a d = (
  ground (arith, is_in-append y x ys, ==_iff x y, ==_iff y x, a, d.0),
  append-IsDistinct x ys (ground (arith, a)) d.1,
)

is_in-remove_first :
    (x y : String) (xs : List String) → is_in x xs ≡ false → is_in x (remove_first y xs) ≡ false
unfolding is_in remove_first
is_in-remove_first x y [] a = refl
is_in-remove_first x y (z ∷ zs) a =
    let ih = is_in-remove_first x y zs (ground arith) in ground arith

remove_first-IsDistinct :
    (x : String) (xs : List String) → IsDistinct xs → IsDistinct (remove_first x xs)
unfolding remove_first
remove_first-IsDistinct x [] d = tt
remove_first-IsDistinct x (y ∷ ys) d = elim (Bool-cases (x == y)) [
  | inl e ↦ rw e d.1
  | inr e ↦ rw e (is_in-remove_first y x ys d.0, remove_first-IsDistinct x ys d.1)
]

removed_is_out :
    (x : String) (xs : List String) → IsDistinct xs → is_in x (remove_first x xs) ≡ false
unfolding is_in remove_first
removed_is_out x [] d = refl
removed_is_out x (y ∷ ys) d = let ih = removed_is_out x ys d.1 in ground (arith, d.0, ==_iff x y)

lookup-remove_everywhere :
    (u x : String) (d : Dict String (List String))
    → lookup u (remove_everywhere x d)
      ≡ elim (lookup u d) [ none ↦ none | some ids ↦ some (remove_first x ids) ]
unfolding lookup remove_everywhere
lookup-remove_everywhere u x [] = refl
lookup-remove_everywhere u x ((v, ids) ∷ d) =
    let ih = lookup-remove_everywhere u x d in ground arith

ids_of-register :
    (u v : String) (d : MobileDevice) (s : Support)
    → ids_of u (register_device v d s) ≡ (
        if v == u
        then (if is_in d.device_id (ids_of v s)
            then ids_of v s
            else ids_of v s ++ (d.device_id ∷ []))
        else ids_of u s)
unfolding register_device
ids_of-register u v d s =
    let ids =
      if is_in d.device_id (ids_of v s) then ids_of v s else ids_of v s ++ (d.device_id ∷ []) in
    ground (arith, lookup-insert u v ids s.user_devices)

register-AllDistinct :
    (v : String) (d : MobileDevice) (s : Support)
    → AllDistinct s
    → AllDistinct (register_device v d s)
unfolding AllDistinct
register-AllDistinct v d s all u = rw (ids_of-register u v d s) (elim (Bool-cases (v == u)) [
  | inl e ↦ elim (Bool-cases (is_in d.device_id (ids_of v s))) [
    | inl old ↦ rw (e, old) (all v)
    | inr new ↦ rw (e, new) (append-IsDistinct d.device_id (ids_of v s) new (all v))
  ]
  | inr e ↦ rw e (all u)
])

ids_of-unregister :
    (u x : String) (s : Support)
    → contains x s.devices ≡ true
    → ids_of u (unregister_device x s).0 ≡ remove_first x (ids_of u s)
unfolding unregister_device remove_first
ids_of-unregister u x s known = ground (arith, lookup-remove_everywhere u x s.user_devices)

unregister-AllDistinct :
    (x : String) (s : Support) → AllDistinct s → AllDistinct (unregister_device x s).0
unfolding AllDistinct unregister_device
unregister-AllDistinct x s all u = elim (Bool-cases (contains x s.devices)) [
  | inl e ↦ rw (ids_of-unregister u x s e) (remove_first-IsDistinct x (ids_of u s) (all u))
  | inr e ↦ rw (unregister_device, e) (all u)
]

update-AllDistinct :
    (x t : String) (s : Support) → AllDistinct s → AllDistinct (update_push_token x t s).0
unfolding AllDistinct update_push_token
update-AllDistinct x t s all u = elim (Option-cases (lookup x s.devices)) [
  | inl e ↦ rw (update_push_token, e) (all u)
  | inr (d, e) ↦ rw (update_push_token, e) (all u)
]

new-AllDistinct : AllDistinct new_support
unfolding AllDistinct lookup
new-AllDistinct u = tt

Reach-AllDistinct : {s : Support} → Reach s → AllDistinct s
Reach-AllDistinct created = new-AllDistinct
Reach-AllDistinct (next r (registers v d s)) = register-AllDistinct v d s (Reach-AllDistinct r)
Reach-AllDistinct (next r (unregisters x s)) = unregister-AllDistinct x s (Reach-AllDistinct r)
Reach-AllDistinct (next r (updates x t s)) = update-AllDistinct x t s (Reach-AllDistinct r)

-- Whatever was registered, unregistered and updated before: a device that is unregistered is in no
-- user's list and not in the table.
pub unregistered_is_gone :
    (device_id user_id : String) (s : Support)
    → Reach s
    → contains device_id s.devices ≡ true
    → let s' = (unregister_device device_id s).0 in
      (is_in device_id (ids_of user_id s') ≡ false) × (lookup device_id s'.devices ≡ none)
unfolding unregister_device AllDistinct
unregistered_is_gone x u s r known = (
  rw (ids_of-unregister u x s known) (removed_is_out x (ids_of u s) (Reach-AllDistinct r u)),
  ground (arith, lookup-erase_self x s.devices),
)

registered_in_list :
    (v : String) (d : MobileDevice) (s : Support)
    → is_in d.device_id (ids_of v (register_device v d s)) ≡ true
registered_in_list v d s = elim (Bool-cases (is_in d.device_id (ids_of v s))) [
  | inl old ↦ rw (ids_of-register v v d s, ==-self v, old) old
  | inr new ↦
      rw (ids_of-register v v d s, ==-self v, new)
        (ground (arith, is_in-append d.device_id d.device_id (ids_of v s), ==-self d.device_id))
]

registered_in_table :
    (v : String) (d : MobileDevice) (s : Support)
    → lookup d.device_id (register_device v d s).devices ≡ some d
unfolding register_device
registered_in_table v d s = lookup-insert_self d.device_id d s.devices

-- A device that a second user registers stays in the list of the first: both users then have it, as
-- the second one registered it, so that what is sent to the first user's devices goes there too.
device_shared :
    (first second : String) (d d' : MobileDevice) (s : Support)
    → d.device_id ≡ d'.device_id
    → first ≢ second
    → let s' = register_device second d' (register_device first d s) in
      (is_in d.device_id (ids_of first s') ≡ true)
      × (is_in d.device_id (ids_of second s') ≡ true)
      × (lookup d.device_id s'.devices ≡ some d')
device_shared a b d d' s same ne =
    let before = register_device a d s in
    let kept : ids_of a (register_device b d' before) ≡ ids_of a before =
      ground (arith, ids_of-register a b d' before, ==_iff b a) in
    (
      rw kept (registered_in_list a d s),
      ap (λ x. is_in x (ids_of b (register_device b d' before))) same
          ∙ registered_in_list b d' before,
      ap (λ x. lookup x (register_device b d' before).devices) same
          ∙ registered_in_table b d' before,
    )
