-- ===== src/Tests/Tokens.antt =====
-- A run of the token store, over a Redis that keeps its hashes in memory.
use nexo_im.Base.{
  =ₜ→eq, =ₜ_refl, inl, List, upsert, ap, if◌then◌else◌, ◌⊎◌, pos, Text, codes, ◌=ₜ◌, ◌≡◌, ◌≢◌, refl,
  true, [], ◌∷◌, arith,
}
use nexo_im.Errors.{refused, Result, ok, err, is_ok}
use nexo_im.Token.Store.{Field, HashCommand, Redis, h_set, h_get_all, kick, kick_other_tokens}
use nexo_im.Tests.Data.{ann}

abbrev pub Hashes : Type 0
Hashes = Text → List Field

abbrev pub command : (A : Type 0) → Text → HashCommand A → Hashes → Result A × Hashes
command A k q w = (ok (q (w k)).0, λ l. if k =ₜ l then (q (w k)).1 else w l)

pub command_lem :
    (A : Type 0) (k : Text) (q : HashCommand A) (w : Hashes)
    → (((command A k q w).0 ≡ ok (q (w k)).0)
        × ((command A k q w).1 k ≡ (q (w k)).1)
        × ((l : Text) → l ≢ k → (command A k q w).1 l ≡ w l))
      ⊎ (((command A k q w).0 ≡ err refused) × ((l : Text) → (command A k q w).1 l ≡ w l))
command_lem A k q w = inl (refl, ground (arith, =ₜ_refl k), λ l n. ground (arith, =ₜ→eq k l))

abbrev pub memory : Redis
memory = record {
  World = Hashes;
  hash = λ w. w;
  command = command;
  expire = λ k n w. (ok tt, w);
  access_expire = pos 24;
  command_lem = command_lem;
  expire_lem = λ k n w l. inl refl;
}

abbrev tokens : List Field
tokens =
    record { token = codes "t1"; status = pos 1 }
    ∷ record { token = codes "t2"; status = pos 4 }
    ∷ record { token = codes "t3"; status = pos 1 }
    ∷ []

abbrev pub start : Hashes
start k = tokens

first_kicked : (kick_other_tokens memory ann (pos 1) (codes "t3") start).0 ≡ ok (codes "t1" ∷ [])
unfolding kick_other_tokens kick h_get_all h_set ◌=ₜ◌ upsert
first_kicked = refl

all_done : is_ok (kick_other_tokens memory ann (pos 1) (codes "t3") start).0 ≡ true
all_done = ap is_ok first_kicked
