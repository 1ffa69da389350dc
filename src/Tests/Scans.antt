-- ===== src/Tests/Scans.antt =====
-- A forced logout, over a Redis that keeps a list of keys with their hashes.
use nexo_im.Base.{
  ℕ, ℤ, Lacks, is_some, zero, suc, ◌==◌, pos, Text, codes, ◌=ₜ◌, =ₜ→eq, =ₜ_refl, Bool, true, false,
  ◌||◌, ◌&&◌, List, [], ◌∷◌, ◌++◌, All, if◌then◌else◌, ◌≡◌, ◌≢◌, ◌⊎◌, inl, inr, refl, arith,
  Bool-cases, ap, subst,
}
use nexo_im.Errors.{refused, Result, ok, err, is_ok}
use nexo_im.Token.Store.{Field, HashCommand, Redis, token_key}
use nexo_im.Strings.{after_prefix}
use nexo_im.Token.Store.ForceLogout.{Scanner, IsLiteral, member, force_logout_user}
use nexo_im.Token.Store.ForceLogout.Cleared.{Answers, force_logout_user-cleared}
use nexo_im.Tests.Data.{ann}

abbrev Table : Type 0
Table = List (Text × List Field)

lookup : Table → Text → List Field
lookup [] k = []
lookup ((j, fs) ∷ t) k = if k =ₜ j then fs else lookup t k

put : Text → List Field → Table → Table
put k fs [] = (k, fs) ∷ []
put k fs ((j, gs) ∷ t) = if k =ₜ j then (j, fs) ∷ t else (j, gs) ∷ put k fs t

lookup-put :
    (k l : Text) (fs : List Field) (t : Table)
    → lookup (put k fs t) l ≡ (if l =ₜ k then fs else lookup t l)
unfolding lookup put
lookup-put k l fs [] = refl
lookup-put k l fs ((j, gs) ∷ t) =
    ground
      (arith, =ₜ→eq k j, =ₜ→eq l k, =ₜ→eq l j, =ₜ_refl k, =ₜ_refl l, =ₜ_refl j, lookup-put k l fs t)

keys : Table → List Text
keys [] = []
keys ((j, fs) ∷ t) = j ∷ keys t

keys-put :
    (k l : Text) (fs : List Field) (t : Table)
    → member l (keys t) ≡ true
    → member l (keys (put k fs t)) ≡ true
unfolding keys put
keys-put k l fs [] h = cc
keys-put k l fs ((j, gs) ∷ t) h = ground (arith, keys-put k l fs t)

keys-lookup : (t : Table) (k : Text) → lookup t k ≢ [] → member k (keys t) ≡ true
unfolding keys lookup
keys-lookup [] k h = absurd (h refl)
keys-lookup ((j, fs) ∷ t) k h = elim (Bool-cases (k =ₜ j)) [
  | inl e ↦ ground (arith, e)
  | inr n ↦ rw n (keys-lookup t k (λ e. h (rw n e)))
]

-- `*` stands for any text, and the other characters for themselves.
glob : Text → Text → Bool
glob [] [] = true
glob [] (c ∷ k) = false
glob (b ∷ p) [] = b == b'*' && glob p []
glob (b ∷ p) (c ∷ k) = if b == b'*' then glob p (c ∷ k) || glob (b ∷ p) k else b == c && glob p k

glob_rest : (k : Text) → glob (codes "*") k ≡ true
unfolding glob
glob_rest [] = refl
glob_rest (c ∷ k) = ground (arith, glob_rest k)

glob_lem : (p k : Text) → IsLiteral p → glob (p ++ codes "*") k ≡ is_some (after_prefix p k)
unfolding glob after_prefix
glob_lem [] k h = glob_rest k
glob_lem (b ∷ p) [] h = ground (arith, h.0)
glob_lem (b ∷ p) (c ∷ k) h = ground (arith, h.0, glob_lem p k h.1)

matching : Text → List Text → List Text
matching p [] = []
matching p (k ∷ ks) = if glob p k then k ∷ matching p ks else matching p ks

matching-glob : (p : Text) (ks : List Text) → All (λ k. glob p k ≡ true) (matching p ks)
unfolding matching
matching-glob p [] = tt
matching-glob p (k ∷ ks) = elim (Bool-cases (glob p k)) [
  | inl e ↦ rw e (e, matching-glob p ks)
  | inr n ↦ rw n (matching-glob p ks)
]

member-matching :
    (p k : Text) (ks : List Text)
    → member k ks ≡ true
    → glob p k ≡ true
    → member k (matching p ks) ≡ true
unfolding matching
member-matching p k [] h g = cc
member-matching p k (x ∷ xs) h g = ground (arith, =ₜ→eq k x, =ₜ_refl k, member-matching p k xs)

clear : List Text → Table → Table
clear [] t = t
clear (k ∷ ks) t = put k [] (clear ks t)

lookup-clear :
    (ks : List Text) (t : Table) (l : Text)
    → lookup (clear ks t) l ≡ (if member l ks then [] else lookup t l)
unfolding clear
lookup-clear [] t l = refl
lookup-clear (k ∷ ks) t l = ground (arith, lookup-put k l [] (clear ks t), lookup-clear ks t l)

keys-clear :
    (ks : List Text) (t : Table) (l : Text)
    → member l (keys t) ≡ true
    → member l (keys (clear ks t)) ≡ true
unfolding clear
keys-clear [] t l h = h
keys-clear (k ∷ ks) t l h = keys-put k l [] (clear ks t) (keys-clear ks t l h)

abbrev command : (A : Type 0) → Text → HashCommand A → Table → Result A × Table
command A k q t = (ok (q (lookup t k)).0, put k (q (lookup t k)).1 t)

command_lem :
    (A : Type 0) (k : Text) (q : HashCommand A) (t : Table)
    → (((command A k q t).0 ≡ ok (q (lookup t k)).0)
        × (lookup (command A k q t).1 k ≡ (q (lookup t k)).1)
        × ((l : Text) → l ≢ k → lookup (command A k q t).1 l ≡ lookup t l))
      ⊎ (((command A k q t).0 ≡ err refused)
          × ((l : Text) → lookup (command A k q t).1 l ≡ lookup t l))
command_lem A k q t =
    let fs = (q (lookup t k)).1 in
    inl (
      refl,
      ground (arith, lookup-put k k fs t, =ₜ_refl k),
      λ l n. ground (arith, lookup-put k l fs t, =ₜ→eq l k),
    )

abbrev table_redis : Redis
table_redis = record {
  World = Table;
  hash = lookup;
  command = command;
  expire = λ k n w. (ok tt, w);
  access_expire = pos 24;
  command_lem = command_lem;
  expire_lem = λ k n w l. inl refl;
}

-- One round of SCAN returns all keys that match.
abbrev ahead : ℕ → Table → Text → Bool
ahead zero t k = member k (keys t)
ahead (suc c) t k = false

abbrev scan : ℕ → Text → Table → Result (List Text × ℕ) × Table
scan zero p t = (ok (matching p (keys t), 0), t)
scan (suc c) p t = (ok ([], 0), t)

abbrev found_keys : Result (List Text × ℕ) → List Text
found_keys (ok (ks, next)) = ks
found_keys (err f) = []

scan_answers : (c : ℕ) (p : Text) (w : Table) → is_ok (scan c p w).0 ≡ true
scan_answers zero p w = refl
scan_answers (suc c) p w = refl

scan_ahead :
    (c : ℕ) (p : Text) (w : Table) (ks : List Text) (next : ℕ) (k : Text)
    → (scan c p w).0 ≡ ok (ks, next)
    → ahead c w k ≡ true
    → glob p k ≡ true
    → (member k ks ≡ true) ⊎ ((next ≢ 0) × (ahead next (scan c p w).1 k ≡ true))
scan_ahead zero p w ks next k e a g = inl (ground (arith, member-matching p k (keys w) a g))
scan_ahead (suc c) p w ks next k e a g = cc

scan_glob :
    (c : ℕ) (p : Text) (w : Table) (ks : List Text) (next : ℕ)
    → (scan c p w).0 ≡ ok (ks, next)
    → All (λ k. glob p k ≡ true) ks
scan_glob zero p w ks next e =
    subst (All (λ k. glob p k ≡ true)) (ap found_keys e) (matching-glob p (keys w))
scan_glob (suc c) p w ks next e = subst (All (λ k. glob p k ≡ true)) (ap found_keys e) tt

scan_last :
    (c : ℕ) (p : Text) (w : Table) (ks : List Text) (next : ℕ)
    → (scan c p w).0 ≡ ok (ks, next)
    → next ≡ 0
scan_last zero p w ks next e = cc
scan_last (suc c) p w ks next e = cc

scan_hash : (c : ℕ) (p : Text) (w : Table) (k : Text) → lookup (scan c p w).1 k ≡ lookup w k
scan_hash zero p w k = refl
scan_hash (suc c) p w k = refl

del_ahead :
    (c : ℕ) (ks : List Text) (w : Table) (k : Text)
    → ahead c w k ≡ true
    → ahead c (clear ks w) k ≡ true
del_ahead zero ks w k h = keys-clear ks w k h
del_ahead (suc c) ks w k h = h

abbrev scanner : Scanner table_redis
scanner = record {
  scan = scan;
  del = λ ks w. (ok tt, clear ks w);
  glob = glob;
  glob_lem = glob_lem;
  ahead = ahead;
  rounds = λ c w. 0;
  start_lem = keys-lookup;
  scan_hash = scan_hash;
  scan_glob = scan_glob;
  scan_ahead = scan_ahead;
  scan_rounds = λ c p w ks next e n. absurd (n (scan_last c p w ks next e));
  del_lem = λ ks w. inl (refl, lookup-clear ks w);
  del_ahead = del_ahead;
  del_rounds = λ c ks w. omega arith;
}

scanner-Answers : Answers table_redis scanner
scanner-Answers = record { scans = scan_answers; deletes = λ ks w. refl }

abbrev ann_on_web : Text
ann_on_web = codes "nexo:token:" ++ (ann ++ codes ":5")

abbrev table : Table
table = (ann_on_web, record { token = codes "t1"; status = pos 1 } ∷ []) ∷ []

force_logout_user-cleared_example :
    let after = force_logout_user table_redis scanner 1 ann table in
    (after.0 ≡ ok tt)
    × ((p : ℤ) → lookup after.1 (token_key ann p) ≡ [])
    × ((v : Text) (p : ℤ)
        → Lacks b':' ann
        → Lacks b':' v
        → v ≢ ann
        → lookup after.1 (token_key v p) ≡ lookup table (token_key v p))
force_logout_user-cleared_example =
    force_logout_user-cleared table_redis scanner scanner-Answers 1 ann table (omega arith)
      (refl, (refl, (refl, tt)))
