-- ===== src/Backend/Memory.antt =====
-- A backend that keeps the tables in memory and fails where a list of faults says so. It shows that
-- the laws of a backend can be met, and serves the tests.
use nexo_im.Base.{
  leb, length, ◌&&◌, ℤ, pos, ◌+ℤ◌, codes, Bool, true, false, none, List, [], ◌∷◌, ◌≡◌, refl, ◌⊎◌,
  inl, inr,
}
use nexo_im.Errors.{Failure, refused, Result, ok, err}
use nexo_im.Backend.{Db, Cache, Sql, RedisCommand, Backend}

pub record State : Type 0 where
  pub db : Db
  pub cache : Cache
  pub time : ℤ
  pub next : ℤ
  -- `true` stands for a call that fails; no entry for one that runs.
  pub faults : List Bool

abbrev next_fault : List Bool → Bool
next_fault [] = false
next_fault (f ∷ fs) = f

abbrev rest {ℓ} : {A : Type ℓ} → List A → List A
rest [] = []
rest (f ∷ fs) = fs

abbrev ran : {A : Type 0} → Result A × Db → State → Bool → Result A × State
ran (r, d) s true = (err refused, record s { faults = rest s.faults })
ran (r, d) s false = (r, record s { db = d; next = s.next +ℤ pos 1; faults = rest s.faults })

abbrev pub exec : (A : Type 0) → Sql A → State → Result A × State
exec A q s = ran (q s.db) s (next_fault s.faults)

abbrev answered : {A : Type 0} → Result A × Cache → State → Bool → Result A × State
answered (r, c) s true = (err refused, record s { faults = rest s.faults })
answered (r, c) s false = (r, record s { cache = c; faults = rest s.faults })

abbrev pub command : (A : Type 0) → RedisCommand A → State → Result A × State
command A q s = answered (q s.cache) s (next_fault s.faults)

abbrev ended : {A : Type 0} → Db → Result A × State → Bool → Result A × State
ended d (ok a, s) false = (ok a, record s { faults = rest s.faults })
ended d (ok a, s) true = (err refused, record s { db = d; faults = rest s.faults })
ended d (err f, s) _ = (err f, record s { db = d })

abbrev pub transaction : (A : Type 0) → (State → Result A × State) → State → Result A × State
transaction A m s = ended s.db (m s) (next_fault (m s).1.faults)

pub ran_lem :
    {A : Type 0} (r : Result A) (d : Db) (s : State) (f : Bool)
    → ((((ran (r, d) s f).0 ≡ r) × ((ran (r, d) s f).1.db ≡ d))
        ⊎ (((ran (r, d) s f).0 ≡ err refused) × ((ran (r, d) s f).1.db ≡ s.db)))
      × ((ran (r, d) s f).1.cache ≡ s.cache)
ran_lem r d s true = (inr (refl, refl), refl)
ran_lem r d s false = (inl (refl, refl), refl)

pub answered_lem :
    {A : Type 0} (r : Result A) (c : Cache) (s : State) (f : Bool)
    → ((((answered (r, c) s f).0 ≡ r) × ((answered (r, c) s f).1.cache ≡ c))
        ⊎ (((answered (r, c) s f).0 ≡ err refused) × ((answered (r, c) s f).1.cache ≡ s.cache)))
      × ((answered (r, c) s f).1.db ≡ s.db)
answered_lem r c s true = (inr (refl, refl), refl)
answered_lem r c s false = (inl (refl, refl), refl)

pub ended_lem :
    {A : Type 0} (d : Db) (r : Result A) (s : State) (f : Bool)
    → ((a : A) × (r ≡ ok a) × ((ended d (r, s) f).0 ≡ ok a) × ((ended d (r, s) f).1.db ≡ s.db))
      ⊎ ((g : Failure) × ((ended d (r, s) f).0 ≡ err g)
          × ((r ≡ err g) ⊎ (g ≡ refused))
          × ((ended d (r, s) f).1.db ≡ d))
ended_lem d (ok a) s false = inl (a, refl, refl, refl)
ended_lem d (ok a) s true = inr (refused, refl, inr refl, refl)
ended_lem d (err g) s false = inr (g, refl, inl refl, refl)
ended_lem d (err g) s true = inr (g, refl, inl refl, refl)

abbrev pub memory : Backend
memory = record {
  World = State;
  db = λ s. s.db;
  cache = λ s. s.cache;
  key_prefix = codes "nexo:";
  clock = λ s. s.time;
  next_id = λ s. s.next;
  fits = λ m. leb (length m.client_msg_id) 64 && leb (length m.sender_id) 64;
  exec = exec;
  command = command;
  transaction = transaction;
  exec_lem = λ A q s. ran_lem (q s.db).0 (q s.db).1 s (next_fault s.faults);
  command_lem = λ A q s. answered_lem (q s.cache).0 (q s.cache).1 s (next_fault s.faults);
  transaction_lem = λ A m s. ended_lem s.db (m s).0 (m s).1 (next_fault (m s).1.faults);
}

abbrev pub no_rows : Db
no_rows = record {
  users = [];
  groups = [];
  members = [];
  conversations = [];
  seq_conversations = [];
  seq_users = [];
  messages = [];
}

abbrev pub holding : Db → State
holding d = record { db = d; cache = λ k. none; time = pos 1000; next = pos 1; faults = [] }
