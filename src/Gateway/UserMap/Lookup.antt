-- ===== src/Gateway/UserMap/Lookup.antt =====
-- How the methods of internal/gateway/user_map.go change what is found in the map.
use nexo_im.Base.{
  Text, ◌=ₜ◌, =ₜ_refl, =ₜ→eq, ◌≡◌, ◌≢◌, true, Option, none, some, is_some, List, [], ◌∷◌, ◌++◌,
  if◌then◌else◌, find, upsert, arith,
}
use nexo_im.Gateway.UserMap.{Client, Entry, of_user, delete, set_clients}

-- No two entries have one key, and no entry is empty.
abbrev pub IsClean : List Entry → Type 0
IsClean [] = Unit
IsClean (e ∷ es) = (find (of_user e.user_id) es ≡ none) × (e.clients ≢ []) × IsClean es

-- The clients of a user, none if there is no entry.
abbrev pub listed : Option Entry → List Client
listed none = []
listed (some e) = e.clients

abbrev pub clients_in : Text → List Entry → List Client
clients_in u es = listed (find (of_user u) es)

pub clients-upsert :
    (u v : Text) (c : Client) (es : List Entry)
    → let after =
        upsert
          (of_user u)
          (λ e. record e { clients = e.clients ++ c ∷ [] })
          (record { user_id = u; clients = c ∷ [] })
          es in
      clients_in v after ≡ (if u =ₜ v then clients_in v es ++ c ∷ [] else clients_in v es)
unfolding upsert find
clients-upsert u v c [] = ground arith
clients-upsert u v c (e ∷ es) = ground (
  arith,
  clients-upsert u v c es,
  =ₜ→eq e.user_id u,
  =ₜ→eq u v,
  =ₜ→eq e.user_id v,
  =ₜ_refl u,
  =ₜ_refl v,
)

pub clients-delete :
    (u v : Text) (es : List Entry)
    → IsClean es
    → clients_in v (delete u es) ≡ (if u =ₜ v then [] else clients_in v es)
unfolding delete find
clients-delete u v [] h = ground arith
clients-delete u v (e ∷ es) h = ground (
  arith,
  clients-delete u v es h.2,
  =ₜ→eq e.user_id u,
  =ₜ→eq u v,
  =ₜ→eq e.user_id v,
  =ₜ_refl u,
  =ₜ_refl v,
)

pub clients-set_clients :
    (u v : Text) (cs : List Client) (es : List Entry)
    → is_some (find (of_user u) es) ≡ true
    → clients_in v (set_clients u cs es) ≡ (if u =ₜ v then cs else clients_in v es)
unfolding set_clients find
clients-set_clients u v cs [] h = cc
clients-set_clients u v cs (e ∷ es) h = ground (
  arith,
  clients-set_clients u v cs es,
  =ₜ→eq e.user_id u,
  =ₜ→eq u v,
  =ₜ→eq e.user_id v,
  =ₜ_refl u,
  =ₜ_refl v,
)
