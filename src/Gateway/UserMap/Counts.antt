-- ===== src/Gateway/UserMap/Counts.antt =====
-- How the methods of internal/gateway/user_map.go change the numbers of users and connections, and
-- that they keep the map clean.
use nexo_im.Base.{
  ℕ, ◌+◌, Text, ◌=ₜ◌, =ₜ_refl, =ₜ→eq, ◌≡◌, ◌≢◌, refl, true, false, none, is_some, List, [], ◌∷◌,
  ◌++◌, if◌then◌else◌, find, select, upsert, length, length-append, arith,
}
use nexo_im.Gateway.UserMap.{Client, Entry, of_user, delete, set_clients, without, total}
use nexo_im.Gateway.UserMap.Lookup.{IsClean, clients_in}

abbrev added : Text → Client → List Entry → List Entry
added u c es =
    upsert (of_user u) (λ e. record e { clients = e.clients ++ c ∷ [] })
      (record { user_id = u; clients = c ∷ [] }) es

pub upsert_counts :
    (u : Text) (c : Client) (es : List Entry)
    → (length (added u c es) ≡ (if is_some (find (of_user u) es) then length es else length es + 1))
      × (total (added u c es) ≡ total es + 1)
unfolding upsert find
upsert_counts u c [] = ground arith
upsert_counts u c (e ∷ es) = ground (arith, upsert_counts u c es, length-append e.clients (c ∷ []))

pub delete_counts :
    (u : Text) (es : List Entry)
    → is_some (find (of_user u) es) ≡ true
    → (length (delete u es) + 1 ≡ length es)
      × (total (delete u es) + length (clients_in u es) ≡ total es)
unfolding delete find
delete_counts u [] h = cc
delete_counts u (e ∷ es) h = ground (arith, delete_counts u es)

pub set_clients_counts :
    (u : Text) (cs : List Client) (es : List Entry)
    → is_some (find (of_user u) es) ≡ true
    → (length (set_clients u cs es) ≡ length es)
      × (total (set_clients u cs es) + length (clients_in u es) ≡ total es + length cs)
unfolding set_clients find
set_clients_counts u cs [] h = cc
set_clients_counts u cs (e ∷ es) h = ground (arith, set_clients_counts u cs es)

find_key-upsert :
    (u k : Text) (c : Client) (es : List Entry)
    → (u =ₜ k) ≡ false
    → find (of_user k) es ≡ none
    → find (of_user k) (added u c es) ≡ none
unfolding upsert find
find_key-upsert u k c [] h n = ground arith
find_key-upsert u k c (e ∷ es) h n = ground (arith, find_key-upsert u k c es)

append-ne-nil : (cs : List Client) (c : Client) → cs ++ c ∷ [] ≢ []
append-ne-nil [] c e = cc
append-ne-nil (d ∷ cs) c e = cc

pub upsert-IsClean : (u : Text) (c : Client) (es : List Entry) → IsClean es → IsClean (added u c es)
unfolding upsert find
upsert-IsClean u c [] h = (refl, (λ e. cc), tt)
upsert-IsClean u c (e ∷ es) h = ground (
  arith,
  append-ne-nil e.clients c,
  upsert-IsClean u c es h.2,
  find_key-upsert u e.user_id c es,
  =ₜ→eq u e.user_id,
  =ₜ_refl u,
)

find_key-delete :
    (u k : Text) (es : List Entry)
    → find (of_user k) es ≡ none
    → find (of_user k) (delete u es) ≡ none
unfolding delete find
find_key-delete u k [] n = n
find_key-delete u k (e ∷ es) n = ground (arith, find_key-delete u k es)

pub delete-IsClean : (u : Text) (es : List Entry) → IsClean es → IsClean (delete u es)
unfolding delete
delete-IsClean u [] h = h
delete-IsClean u (e ∷ es) h =
    ground (arith, delete-IsClean u es h.2, find_key-delete u e.user_id es h.0)

find_key-set_clients :
    (u k : Text) (cs : List Client) (es : List Entry)
    → find (of_user k) es ≡ none
    → find (of_user k) (set_clients u cs es) ≡ none
unfolding set_clients find
find_key-set_clients u k cs [] n = n
find_key-set_clients u k cs (e ∷ es) n = ground (arith, find_key-set_clients u k cs es)

pub set_clients-IsClean :
    (u : Text) (cs : List Client) (es : List Entry)
    → cs ≢ []
    → IsClean es
    → IsClean (set_clients u cs es)
unfolding set_clients
set_clients-IsClean u cs [] n h = h
set_clients-IsClean u cs (e ∷ es) n h =
    ground (arith, set_clients-IsClean u cs es n h.2, find_key-set_clients u e.user_id cs es h.0)

-- How many of the clients have a connection id.
abbrev pub count_conn : Text → List Client → ℕ
count_conn k cs = length (select (λ c. c.conn_id =ₜ k) cs)

pub without_counts :
    (k : Text) (cs : List Client) → length (without k cs) + count_conn k cs ≡ length cs
unfolding without select
without_counts k [] = omega arith
without_counts k (c ∷ cs) = ground (arith, without_counts k cs)
