-- ===== src/Listener/Delivery.antt =====
-- Who receives what from listener.rs.
use chatbridge.Prelude.{
  ◌≡◌, refl, ℕ, String, Bool, false, Option, List, [], ◌∷◌, arith, Uuid, ◌==◌, ◌&&◌, ◌||◌, not, any,
  is_some, map_option, if◌then◌else◌,
}
use chatbridge.Prelude.Map.{Map, get, uuid_same, HasDistinctKeys}
use chatbridge.Model.{IncomingEvent, sender_id}
use chatbridge.Registry.{Registry, entry, send_to}
use chatbridge.Registry.Counting.{get-send_to}
use chatbridge.Listener.{keys, is_read, send_all, send_others, route}

abbrev pub is_operator : {T : Type 0} → Registry T → Uuid → Bool
is_operator r id = is_some (get id r.operator_ids)

-- Whom an event of that client's chat is for. A read receipt goes to the side that wrote what was
-- read; anything else goes to the client and to the operators, but never to who sent it.
abbrev pub is_for : IncomingEvent → (client_id : Uuid) → (is_operator : Bool) → Uuid → Bool
is_for event client_id is_operator id =
    if is_read event
    then if sender_id event == client_id then id == client_id else is_operator
    else (id == client_id || is_operator) && not (sender_id event == id)

any-keys : (m : Map Uuid (Unit {0})) (id : Uuid) → any (λ k. k == id) (keys m) ≡ is_some (get id m)
unfolding get
any-keys [] id = refl
any-keys ((k, v) ∷ m) id = ground (arith, any-keys m id)

-- No identity is listed twice.
abbrev Once : List Uuid → Type 0
Once [] = Unit
Once (k ∷ ks) = (any (λ j. j == k) ks ≡ false) × Once ks

keys-Once : (m : Map Uuid (Unit {0})) → HasDistinctKeys m → Once (keys m)
keys-Once [] h = tt
keys-Once ((k, v) ∷ m) (fresh, h) = (ground (arith, any-keys m k), keys-Once m h)

module _ {T : Type 0} (try_send : T → String → T) (payload : String) (j : Uuid) (k : ℕ) where
  send : Option T → Option T
  send o = map_option (λ tx. try_send tx payload) o

  get-send_all :
      (ids : List Uuid) (r : Registry T)
      → Once ids
      → get k (entry j (send_all try_send payload ids r))
        ≡ (if any (λ i. i == j) ids then send (get k (entry j r)) else get k (entry j r))
  unfolding send_all send
  get-send_all [] r h = refl
  get-send_all (id ∷ ids) r (here, later) = ground (
    arith,
    get-send_all ids (send_to try_send r id payload) later,
    get-send_to try_send r id payload j k,
  )

  get-send_others :
      (sender : Uuid) (ids : List Uuid) (r : Registry T)
      → Once ids
      → get k (entry j (send_others try_send payload sender ids r)) ≡ (
          if any (λ i. i == j) ids && not (sender == j)
          then send (get k (entry j r))
          else get k (entry j r))
  unfolding send_others send
  get-send_others sender [] r h = refl
  get-send_others sender (id ∷ ids) r (here, later) = ground (
    arith,
    get-send_others sender ids (send_to try_send r id payload) later,
    get-send_others sender ids r later,
    get-send_to try_send r id payload j k,
  )

  send_to-operators :
      (r : Registry T) (id : Uuid) → (send_to try_send r id payload).operator_ids ≡ r.operator_ids
  unfolding send_to
  send_to-operators r id = ground arith

  -- Each live connection is handed the payload once if its identity is one that the event is for,
  -- and is left alone otherwise, for every kind of event and every sender. The operator set lists an
  -- identity once, and the client is not in it.
  pub get-route :
      (event : IncomingEvent) (client_id : Uuid) (r : Registry T)
      → HasDistinctKeys r.operator_ids
      → is_operator r client_id ≡ false
      → get k (entry j (route try_send event payload client_id r)) ≡ (
          if is_for event client_id (is_operator r j) j
          then map_option (λ tx. try_send tx payload) (get k (entry j r))
          else get k (entry j r))
  unfolding route send
  get-route event client_id r distinct apart =
      let sender = sender_id event in
      let sent = send_to try_send r client_id payload in
      let once = keys-Once r.operator_ids distinct in
      ground (
        arith,
        any-keys r.operator_ids j,
        get-send_all (keys r.operator_ids) r once,
        get-send_others sender (keys r.operator_ids) r once,
        get-send_others sender (keys sent.operator_ids) sent
            (rw (send_to-operators r client_id) once),
        send_to-operators r client_id,
        get-send_to try_send r client_id payload j k,
      )
