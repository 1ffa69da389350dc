-- ===== src/Gateway/Hub/Refines.antt =====
-- What the event loop of internal/gateway/ws_server.go promises its callers, without the map: for
-- each user the list of clients that have come and not gone, in the order in which they came.
use nexo_im.Base.{
  ap, ◌⊎◌, ◌∙◌, Text, ◌=ₜ◌, =ₜ→eq, ◌≡◌, ◌≢◌, refl, Option, none, some, List, [], ◌∷◌, ◌++◌,
  if◌then◌else◌, find, select, arith, Option-cases, inl, inr,
}
use nexo_im.Gateway.UserMap.{
  Client, Entry, UserMap, of_user, register, unregister, without, get_all,
}
use nexo_im.Gateway.UserMap.Lookup.{
  IsClean, clients_in, clients-upsert, clients-delete, clients-set_clients,
}
use nexo_im.Gateway.UserMap.Counts.{upsert-IsClean, delete-IsClean, set_clients-IsClean}
use nexo_im.Gateway.Hub.{
  Hub, Event, registers, unregisters, handle, event_loop, register_client, unregister_client,
}

abbrev pub Listing : Type 0
Listing = Text → List Client

-- The clients of a list whose connection has another id.
unfoldable pub others : Text → List Client → List Client
others k [] = []
others k (c ∷ cs) = if c.conn_id =ₜ k then others k cs else c ∷ others k cs

without-others : (k : Text) (cs : List Client) → without k cs ≡ others k cs
unfolding without select others
without-others k [] = refl
without-others k (c ∷ cs) = ground (arith, without-others k cs)

abbrev pub spec_step : Event → Listing → Listing
spec_step (registers c) l u = if c.user_id =ₜ u then l u ++ c ∷ [] else l u
spec_step (unregisters c) l u = if c.user_id =ₜ u then others c.conn_id (l u) else l u

unfoldable pub spec_run : List Event → Listing → Listing
spec_run [] l = l
spec_run (e ∷ es) l = spec_run es (spec_step e l)

-- `GetAll` answers with the clients of a user, and with "no" for a user that has none.
abbrev pub offered : List Client → Option (List Client)
offered [] = none
offered (c ∷ cs) = some (c ∷ cs)

pub record Implements (m : UserMap) (l : Listing) : Type 0 where
  pub clean : IsClean m.users
  pub listed : (u : Text) → clients_in u m.users ≡ l u

register_step :
    (h : Hub) (c : Client) (l : Listing)
    → Implements h.user_map l
    → Implements (register_client h c).user_map (spec_step (registers c) l)
unfolding register_client register
register_step h c l i = record {
  clean = upsert-IsClean c.user_id c h.user_map.users i.clean;
  listed = λ u. ground (arith, clients-upsert c.user_id u c h.user_map.users, i.listed u);
}

List-cases {ℓ} : {A : Type ℓ} (xs : List A) → (xs ≡ []) ⊎ ((x : A) × (ys : List A) × (xs ≡ x ∷ ys))
List-cases [] = inl refl
List-cases (x ∷ xs) = inr (x, xs, refl)

without-nil : (k : Text) → without k [] ≡ []
unfolding without select
without-nil k = refl

-- What one call of `Unregister` leaves of the clients of each user.
unregister_listed :
    (m : UserMap) (c : Client) (u : Text)
    → IsClean m.users
    → IsClean (unregister m c).0.users
      × (clients_in u (unregister m c).0.users ≡ (
          if c.user_id =ₜ u
          then without c.conn_id (clients_in u m.users)
          else clients_in u m.users))
unfolding unregister
unregister_listed m c u clean = elim (Option-cases (find (of_user c.user_id) m.users)) [
  | inl absent ↦ ground (arith, =ₜ→eq c.user_id u, without-nil c.conn_id)
  | inr (e, present) ↦ elim (List-cases (without c.conn_id e.clients)) [
    | inl empty ↦ ground (
      arith,
      =ₜ→eq c.user_id u,
      clients-delete c.user_id u m.users clean,
      delete-IsClean c.user_id m.users clean,
    )
    | inr (d, ds, rest) ↦ ground (
      arith,
      =ₜ→eq c.user_id u,
      clients-set_clients c.user_id u (d ∷ ds) m.users,
      set_clients-IsClean c.user_id (d ∷ ds) m.users,
    )
  ]
]

unregister_step :
    (h : Hub) (c : Client) (l : Listing)
    → Implements h.user_map l
    → Implements (unregister_client h c).user_map (spec_step (unregisters c) l)
unfolding unregister_client
unregister_step h c l i = record {
  clean = (unregister_listed h.user_map c [] i.clean).0;
  listed = λ u.
      ground (
        arith,
        unregister_listed h.user_map c u i.clean,
        without-others c.conn_id (l u),
        i.listed u,
      );
}

run_Implements :
    (es : List Event) (h : Hub) (l : Listing)
    → Implements h.user_map l
    → Implements (event_loop h es).user_map (spec_run es l)
unfolding event_loop spec_run handle
run_Implements [] h l i = i
run_Implements (registers c ∷ es) h l i =
    run_Implements es (register_client h c) (spec_step (registers c) l) (register_step h c l i)
run_Implements (unregisters c ∷ es) h l i =
    run_Implements es (unregister_client h c) (spec_step (unregisters c) l)
      (unregister_step h c l i)

find_nonempty :
    (u : Text) (es : List Entry) (e : Entry)
    → IsClean es
    → find (of_user u) es ≡ some e
    → e.clients ≢ []
unfolding find
find_nonempty u [] e clean h = cc
find_nonempty u (x ∷ es) e clean h = ground (arith, find_nonempty u es e clean.2, clean.1)

get_all-offered :
    (m : UserMap) (u : Text) → IsClean m.users → get_all m u ≡ offered (clients_in u m.users)
unfolding get_all
get_all-offered m u clean = elim (Option-cases (find (of_user u) m.users)) [
  | inl absent ↦ ground arith
  | inr (e, present) ↦ elim (List-cases e.clients) [
    | inl empty ↦ absurd (find_nonempty u m.users e clean present empty)
    | inr (d, ds, full) ↦ ground arith
  ]
]

-- If the map of connections implements a listing, then after any sequence of clients that come and go,
-- in any order, `GetAll` answers for each user what the listing says after the same sequence: the
-- clients of the user that have come and whose connection id has not gone since, in the order in which
-- they came, and "no" if there is none.
pub event_loop-Implements :
    (h : Hub) (l : Listing) (es : List Event) (u : Text)
    → Implements h.user_map l
    → get_all (event_loop h es).user_map u ≡ offered (spec_run es l u)
event_loop-Implements h l es u i =
    let r = run_Implements es h l i in
    get_all-offered (event_loop h es).user_map u r.clean ∙ ap offered (r.listed u)
