-- ===== src/Gateway/Hub/Consistent.antt =====
-- That the counters of internal/gateway/ws_server.go agree with the map of connections, and when
-- they stop doing so.
use nexo_im.Base.{
  pos, ◌+ℤ◌, ◌-ℤ◌, =ₜ_refl, ◌≡◌, true, none, some, [], ◌∷◌, ◌++◌, find, select, find-upsert_self,
  +ℤ_parts, -ℤ_parts, eq_of_parts, length, arith, Option-cases, inl, inr,
}
use nexo_im.Gateway.UserMap.{
  Client, of_user, register, without, unregister, get_all, has_connection, total,
}
use nexo_im.Gateway.UserMap.Lookup.{IsClean, clients_in}
use nexo_im.Gateway.UserMap.Counts.{
  upsert_counts, delete_counts, set_clients_counts, upsert-IsClean, delete-IsClean,
  set_clients-IsClean, count_conn, without_counts,
}
use nexo_im.Gateway.Hub.{
  Event, Hub, registers, unregisters, register_client, unregister_client, handle, event_loop,
}

pub record IsConsistent (h : Hub) : Type 0 where
  pub clean : IsClean h.user_map.users
  pub users : h.online_user_num ≡ pos (length h.user_map.users)
  pub conns : h.online_conn_num ≡ pos (total h.user_map.users)

register_client-IsConsistent :
    (h : Hub) (c : Client) → IsConsistent h → IsConsistent (register_client h c)
unfolding register_client register get_all ◌+ℤ◌
register_client-IsConsistent h c v = ground (
  arith,
  upsert_counts c.user_id c h.user_map.users,
  upsert-IsClean c.user_id c h.user_map.users v.clean,
  Option-cases (find (of_user c.user_id) h.user_map.users),
)

unregister_client-IsConsistent :
    (h : Hub) (c : Client)
    → count_conn c.conn_id (clients_in c.user_id h.user_map.users) ≡ 1
    → IsConsistent h
    → IsConsistent (unregister_client h c)
unfolding unregister_client unregister ◌-ℤ◌ select
unregister_client-IsConsistent h c once v =
    let es = h.user_map.users in
    elim (Option-cases (find (of_user c.user_id) es)) [
      | inl absent ↦ absurd (ground arith)
      | inr (e, present) ↦ ground (
        arith,
        without_counts c.conn_id e.clients,
        delete_counts c.user_id es,
        delete-IsClean c.user_id es v.clean,
        set_clients_counts c.user_id (without c.conn_id e.clients) es,
        set_clients-IsClean c.user_id (without c.conn_id e.clients) es,
      )
    ]

-- A client that goes is the one connection of its user with its connection id.
abbrev pub IsExpected : Hub → Event → Type 0
IsExpected h (registers c) = Unit
IsExpected h (unregisters c) = count_conn c.conn_id (clients_in c.user_id h.user_map.users) ≡ 1

-- If the counters are the numbers of users and of connections that the map holds, no two entries
-- are of one user and no entry is empty, then this is so after the event loop has registered a
-- client, or unregistered one whose user has one connection with its connection id.
pub handle-IsConsistent :
    (h : Hub) (e : Event) → IsExpected h e → IsConsistent h → IsConsistent (handle h e)
unfolding handle
handle-IsConsistent h (registers c) known v = register_client-IsConsistent h c v
handle-IsConsistent h (unregisters c) known v = unregister_client-IsConsistent h c known v

-- Where a user has no connection, if the event loop takes the event that a client is gone before
-- the event that it has come, the client is listed afterwards and its user counts as connected,
-- while the number of connections is what it was.
pub early_unregister :
    (h : Hub) (c : Client)
    → find (of_user c.user_id) h.user_map.users ≡ none
    → let g = event_loop h (unregisters c ∷ registers c ∷ []) in
      (get_all g.user_map c.user_id ≡ some (c ∷ []))
      × (has_connection g.user_map c.user_id ≡ true)
      × (g.online_conn_num ≡ h.online_conn_num)
unfolding event_loop handle register unregister get_all has_connection
early_unregister h c e = ground (
  arith,
  find-upsert_self (of_user c.user_id) (λ x. record x { clients = x.clients ++ c ∷ [] })
      (record { user_id = c.user_id; clients = c ∷ [] }) h.user_map.users (=ₜ_refl c.user_id)
      (λ x k. k),
  +ℤ_parts (h.online_conn_num -ℤ pos 1) (pos 1),
  -ℤ_parts h.online_conn_num (pos 1),
  eq_of_parts (h.online_conn_num -ℤ pos 1 +ℤ pos 1) h.online_conn_num,
)
