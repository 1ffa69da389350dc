-- ===== src/Token/Store/ForceLogout/Cleared.antt =====
-- Which hashes a forced logout of pkg/jwt/token_store.go empties, where Redis answers every command.
use nexo_im.Base.{
  =ₜ→eq, Lacks, ◌++◌, codes, none, is_some, ℤ, ℕ, zero, suc, ◌<◌, ◌≤◌, Text, true, false,
  Bool-cases, List, [], ◌∷◌, All, if◌then◌else◌, ◌≡◌, ◌≢◌, ◌⊎◌, inl, inr, refl, arith,
}
use mathlib.Core.List.{append_assoc}
use nexo_im.Strings.{after_prefix}
use nexo_im.Strconv.{format_int}
use nexo_im.Errors.{ok, is_ok, Result-cases}
use nexo_im.Token.Store.{Redis, Field, key_prefix, token_key}
use nexo_im.Token.Store.ForceLogout.{
  Scanner, IsLiteral, member, delete_found, scan_loop, user_pattern, force_logout_user,
}

empty_or_not : (fs : List Field) → (fs ≡ []) ⊎ (fs ≢ [])
empty_or_not [] = inl refl
empty_or_not (f ∷ fs) = inr (λ e. cc)

IsLiteral-append : (s t : Text) → IsLiteral s → IsLiteral t → IsLiteral (s ++ t)
IsLiteral-append [] t hs ht = ht
IsLiteral-append (c ∷ s) t hs ht = (hs.0, IsLiteral-append s t hs.1 ht)

after_prefix-shared : (s t u : Text) → after_prefix (s ++ t) (s ++ u) ≡ after_prefix t u
unfolding after_prefix
after_prefix-shared [] t u = refl
after_prefix-shared (c ∷ s) t u = ground (arith, after_prefix-shared s t u)

-- Of two users whose ids have no colon, neither id with a colon after it begins the other.
after_prefix-other :
    (u v t : Text)
    → Lacks b':' u
    → Lacks b':' v
    → v ≢ u
    → after_prefix (u ++ (b':' ∷ [])) (v ++ (b':' ∷ t)) ≡ none
unfolding after_prefix
after_prefix-other [] [] t hu hv n = absurd (n refl)
after_prefix-other [] (d ∷ v) t hu hv n = ground (arith, hv.0)
after_prefix-other (c ∷ u) [] t hu hv n = ground (arith, hu.0)
after_prefix-other (c ∷ u) (d ∷ v) t hu hv n = ground (arith, after_prefix-other u v t hu.1 hv.1)

-- What the keys of a user begin with.
abbrev beginning : Text → Text
beginning u = key_prefix ++ (u ++ (b':' ∷ []))

user_pattern-beginning : (u : Text) → user_pattern u ≡ beginning u ++ codes "*"
unfolding user_pattern
user_pattern-beginning u = ground (arith, append_assoc u (b':' ∷ []) (codes "*"))

module _ (r : Redis) (s : Scanner r) where
  open r use {World, hash}
  open s use {scan, del, glob, ahead, rounds}

  -- Redis answers SCAN and DEL.
  pub record Answers : Type 0 where
    pub scans : (c : ℕ) (p : Text) (w : World) → is_ok (scan c p w).0 ≡ true
    pub deletes : (keys : List Text) (w : World) → is_ok (del keys w).0 ≡ true

  -- What of a key is still to be done at a cursor.
  abbrev Pending : ℕ → World → Text → Type 0
  Pending c w k = (hash w k ≡ []) ⊎ (ahead c w k ≡ true)

  deleted :
      Answers
      → (keys : List Text) (w : World)
      → ((delete_found r s keys w).0 ≡ ok tt)
        × ((k : Text)
            → hash (delete_found r s keys w).1 k ≡ (if member k keys then [] else hash w k))
        × ((c : ℕ) (k : Text) → ahead c w k ≡ true → ahead c (delete_found r s keys w).1 k ≡ true)
        × ((c : ℕ) → rounds c (delete_found r s keys w).1 ≤ rounds c w)
  unfolding delete_found
  deleted up [] w = (refl, λ k. refl, λ c k h. h, λ c. omega arith)
  deleted up (x ∷ xs) w = elim (s.del_lem (x ∷ xs) w) [
    | inl (done, gone) ↦
        (done, gone, λ c k h. s.del_ahead c (x ∷ xs) w k h, λ c. s.del_rounds c (x ∷ xs) w)
    | inr (failed, same) ↦ absurd (ground (arith, up.deletes (x ∷ xs) w))
  ]

  pending : (w : World) (k : Text) → Pending 0 w k
  pending w k = elim (empty_or_not (hash w k)) [ inl e ↦ inl e | inr n ↦ inr (s.start_lem w k n) ]

  unmatched :
      (p k : Text)
      → glob p k ≡ false
      → (keys : List Text) → All (λ x. glob p x ≡ true) keys
      → member k keys ≡ false
  unmatched p k there [] h = refl
  unmatched p k there (x ∷ xs) h = ground (arith, =ₜ→eq k x, unmatched p k there xs h.1)

  module _ (up : Answers) (p : Text) (k : Text) where
    advance :
        (c : ℕ) (w : World) (keys : List Text) (next : ℕ)
        → (scan c p w).0 ≡ ok (keys, next)
        → Pending c w k
        → glob p k ≡ true
        → let w₂ = (delete_found r s keys (scan c p w).1).1 in
          (hash w₂ k ≡ []) ⊎ ((next ≢ 0) × (ahead next w₂ k ≡ true))
    advance c w keys next found todo here =
        let w₁ = (scan c p w).1 in
        let (done, gone, still, fewer) = deleted up keys w₁ in
        elim todo [
          | inl cleared ↦ inl (ground (arith, gone k, s.scan_hash c p w k))
          | inr later ↦ elim (s.scan_ahead c p w keys next k found later here) [
            | inl now ↦ inl (ground (arith, gone k))
            | inr (more, later') ↦ inr (more, still next k later')
          ]
        ]

    loop_returns :
        (fuel c : ℕ) (w : World) → rounds c w < fuel → (scan_loop r s fuel p c w).0 ≡ ok tt
    unfolding scan_loop
    loop_returns zero c w enough = absurd (omega arith)
    loop_returns (suc fuel) c w enough = elim (Result-cases (scan c p w).0) [
      | inr (f, failed) ↦ absurd (ground (arith, up.scans c p w))
      | inl ((keys, next), found) ↦
          let w₁ = (scan c p w).1 in
          let w₂ = (delete_found r s keys w₁).1 in
          let (done, gone, still, fewer) = deleted up keys w₁ in
          ground (
            arith,
            fewer next,
            s.scan_rounds c p w keys next found,
            λ (h : rounds next w₂ < fuel). loop_returns fuel next w₂ h,
          )
    ]

    loop_clears :
        (fuel c : ℕ) (w : World)
        → rounds c w < fuel
        → Pending c w k
        → glob p k ≡ true
        → hash (scan_loop r s fuel p c w).1 k ≡ []
    unfolding scan_loop
    loop_clears zero c w enough todo here = absurd (omega arith)
    loop_clears (suc fuel) c w enough todo here = elim (Result-cases (scan c p w).0) [
      | inr (f, failed) ↦ absurd (ground (arith, up.scans c p w))
      | inl ((keys, next), found) ↦
          let w₁ = (scan c p w).1 in
          let w₂ = (delete_found r s keys w₁).1 in
          let (done, gone, still, fewer) = deleted up keys w₁ in
          elim (advance c w keys next found todo here) [
            | inl cleared ↦ ground (
              arith,
              fewer next,
              s.scan_rounds c p w keys next found,
              λ (h : rounds next w₂ < fuel). loop_clears fuel next w₂ h (inl cleared) here,
            )
            | inr (more, later) ↦ ground (
              arith,
              fewer next,
              s.scan_rounds c p w keys next found more,
              λ (h : rounds next w₂ < fuel). loop_clears fuel next w₂ h (inr later) here,
            )
          ]
    ]

    -- A key that does not match is left alone.
    loop_keeps :
        (fuel c : ℕ) (w : World) → glob p k ≡ false → hash (scan_loop r s fuel p c w).1 k ≡ hash w k
    unfolding scan_loop
    loop_keeps zero c w there = refl
    loop_keeps (suc fuel) c w there = elim (Result-cases (scan c p w).0) [
      | inr (f, failed) ↦ ground (arith, s.scan_hash c p w k)
      | inl ((keys, next), found) ↦
          let w₁ = (scan c p w).1 in
          let w₂ = (delete_found r s keys w₁).1 in
          let (done, gone, still, fewer) = deleted up keys w₁ in
          ground (
            arith,
            s.scan_hash c p w k,
            gone k,
            unmatched p k there keys (s.scan_glob c p w keys next found),
            loop_keeps fuel next w₂ there,
          )
    ]

  emptied :
      Answers
      → (fuel : ℕ) (user_id k : Text) (w : World) → rounds 0 w < fuel
      → let after = force_logout_user r s fuel user_id w in
        (after.0 ≡ ok tt)
        × (hash after.1 k ≡ (if glob (user_pattern user_id) k then [] else hash w k))
  unfolding force_logout_user
  emptied up fuel user_id k w enough = elim (Bool-cases (glob (user_pattern user_id) k)) [
    | inl here ↦ (
      loop_returns up (user_pattern user_id) k fuel 0 w enough,
      rw here (loop_clears up (user_pattern user_id) k fuel 0 w enough (pending w k) here),
    )
    | inr there ↦ (
      loop_returns up (user_pattern user_id) k fuel 0 w enough,
      rw there (loop_keeps up (user_pattern user_id) k fuel 0 w there),
    )
  ]

  glob-token_key :
      (u v : Text) (p : ℤ)
      → IsLiteral u
      → glob (user_pattern u) (token_key v p)
        ≡ is_some (after_prefix (u ++ (b':' ∷ [])) (v ++ (b':' ∷ format_int p)))
  unfolding token_key
  glob-token_key u v p literal = ground (
    arith,
    user_pattern-beginning u,
    s.glob_lem (beginning u) (token_key v p),
    IsLiteral-append u (b':' ∷ []) literal,
    after_prefix-shared key_prefix (u ++ (b':' ∷ [])) (v ++ (b':' ∷ format_int p)),
  )

  -- If Redis answers SCAN and DEL and the fuel is above the number of rounds that the scan takes, a
  -- forced logout of a user whose id has no special character of patterns succeeds, and no token of the
  -- user is left on any platform; where the id has no colon, the tokens of every other user whose id
  -- has none are as they were.
  pub force_logout_user-cleared :
      Answers
      → (fuel : ℕ) (user_id : Text) (w : World) → rounds 0 w < fuel
      → IsLiteral user_id
      → let after = force_logout_user r s fuel user_id w in
        (after.0 ≡ ok tt)
        × ((p : ℤ) → hash after.1 (token_key user_id p) ≡ [])
        × ((v : Text) (p : ℤ)
            → Lacks b':' user_id
            → Lacks b':' v
            → v ≢ user_id
            → hash after.1 (token_key v p) ≡ hash w (token_key v p))
  unfolding after_prefix
  force_logout_user-cleared up fuel u w enough literal =
      let end = λ (k : Text). emptied up fuel u k w enough in
      (
        (end []).0,
        (λ p. ground (
          arith,
          end (token_key u p),
          glob-token_key u u p literal,
          after_prefix-shared u (b':' ∷ []) (b':' ∷ format_int p),
        )),
        λ v p hu hv n. ground (
          arith,
          end (token_key v p),
          glob-token_key u v p literal,
          after_prefix-other u v (format_int p) hu hv n,
        ),
      )
